-- ===== src/Mipd/Packaging.antt =====
-- mipd/src/lib/packaging: Ethernet frames, MIP headers and the packages made of them.
pub mod MipHeader
pub mod EtherFrame
pub mod MipPackage
pub mod Payload
