-- ===== src/Hasher.antt =====
-- examples/boringssl/hasher: a program that prints the digest of a message given in parts.
pub mod Digest
mod Tests
