-- ===== src/Mipd.antt =====
-- mipd: the MIP daemon, which moves packages between applications, neighbours and the router.
pub mod Packaging
pub mod InterfaceTable
pub mod MipArp
pub mod Routing
mod Tests
pub mod Link
pub mod CommandLine
pub mod Server
