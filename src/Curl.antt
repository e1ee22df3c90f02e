-- ===== src/Curl.antt =====
-- bunsan/curl: what the HTTP client reads from the head of a response.
pub mod HttpVersion
pub mod Header
pub mod HeaderSet
pub mod HeaderParser
