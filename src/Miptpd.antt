-- ===== src/Miptpd.antt =====
-- miptpd: the transport daemon, which sends the data of its applications over MIP.
pub mod SlidingWindow
pub mod MiptpPackage
pub mod SendJob
pub mod ReceiveJob
pub mod AppConnection
pub mod AppController
pub mod MiptpServer
pub mod MiptpConfig
mod Tests
