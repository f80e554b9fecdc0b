-- ===== src/Server.antt =====
-- src/server.c: what the server makes of a request that is parsed.
pub mod Files
pub mod OpenCache
pub mod MetaCache
pub mod Static
pub mod Connection
pub mod Validators
pub mod SendFile
pub mod Request
pub mod Fcgi
pub mod Headers
pub mod PhpHeaders
