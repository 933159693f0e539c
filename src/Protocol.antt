-- ===== src/Protocol.antt =====
-- The text and the binary protocol of memcached, as the client writes and reads them.
pub mod Numbers
pub mod Words
pub mod Value
pub mod Response
pub mod Header
pub mod Command
pub mod Status
pub mod Binary
pub mod Storage
mod Tests
