-- ===== src/Git.antt =====
-- protocols/git: reading a URL, choosing references and credentials, and the order in which a
-- download tries them. go-git, the URL parser and the disk are parameters.
pub mod Archive
pub mod ErrBody
pub mod Isolation
pub mod Auth
pub mod Url
pub mod Scheme
pub mod Refs
pub mod Sparse
pub mod Download
pub mod Pinned
