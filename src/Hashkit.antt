-- ===== src/Hashkit.antt =====
-- hashkit.c: the hash functions. A key is the list of its `key_length` bytes.
pub mod Tables
pub mod Register
pub mod Crc
pub mod Crc32
pub mod Crc16
pub mod Fnv
pub mod FnvTruncation
pub mod FnvSeparation
pub mod Jenkins
pub mod JenkinsAlignment
pub mod Jump
pub mod Mixing
pub mod Invertible
pub mod OneAtATime
mod Tests
