-- ===== src/Sha.antt =====
-- sha1sum.c and sha256.c. Messages, blocks and digests are lists of bytes, words are below 2 ^ 32.
pub mod Stream
pub mod Sha1
pub mod Sha256
pub mod Padding
pub mod Loop
pub mod Finish
pub mod Digest
pub mod Fips
pub mod Tables
pub mod Expects
