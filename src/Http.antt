-- ===== src/Http.antt =====
-- src/http.c: the parser of HTTP/1.1 requests, its definitions in the first modules and its theorems
-- in the others.
pub mod Lexical
pub mod Host
pub mod Values
pub mod Request
pub mod Headers
pub mod Parse
pub mod Framing
pub mod Invert
pub mod Bounds
pub mod Smuggling
pub mod Status
