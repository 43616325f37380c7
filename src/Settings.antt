-- ===== src/Settings.antt =====
-- settings/settings.go and settings/envproxy.go. Package url's parser, the transport's proxy
-- function and the caller's callbacks are parameters.
pub mod Types
pub mod Match
pub mod Credentials
pub mod Network
pub mod Transport
