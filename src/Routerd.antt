-- ===== src/Routerd.antt =====
-- routerd: the routing daemon's table of routes, its requests and its event loop.
pub mod MipRouteTable
pub mod CommandLine
pub mod Convergence
pub mod Handlers
pub mod RouterServer
mod Tests
