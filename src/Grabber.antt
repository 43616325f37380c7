-- ===== src/Grabber.antt =====
-- grabber.go: choosing a protocol, checksums and the download as a whole. The protocols, the URL
-- parser, the hash functions and the disk are parameters.
pub mod Options
pub mod New
pub mod Dispatch
pub mod Checksum
pub mod Grab
