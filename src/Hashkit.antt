-- ===== src/Hashkit.antt =====
-- libhashkit: the hash functions.
pub mod Crc32
pub mod Fnv
pub mod Murmur
pub mod Hsieh
pub mod Jenkins
pub mod Md5
pub mod Digest
pub mod Function
pub mod Truncation
pub mod Tests
