-- ===== src/Server.antt =====
-- libmemcachedprotocol: the reading of commands in a server that embeds the library.
pub mod Call
pub mod Ascii
pub mod Binary
mod Tests
