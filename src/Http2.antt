-- ===== src/Http2.antt =====
-- src/http2.c: the answers of the own server that a stream of HTTP/2 passes on.
pub mod Chunked
pub mod Buffer
pub mod Answer
