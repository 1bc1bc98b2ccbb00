-- ===== src/Commons.antt =====
-- commons: what the daemons and the applications share.
pub mod MipdMessage
pub mod ClientPackage
pub mod Queue
pub mod LinkedList
pub mod DArray
pub mod Hashmap
pub mod DomainSocket
pub mod BoundSocket
mod Tests
