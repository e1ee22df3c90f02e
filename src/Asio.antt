-- ===== src/Asio.antt =====
-- Asynchronous connections, bunsan/common/include/bunsan/asio.
pub mod QueuedWriter
pub mod BufferConnection
pub mod LineConnection
pub mod BlockConnection
