-- ===== src/Sigv4.antt =====
-- internal/sigv4verifier: verification of SigV4 requests and of aws-chunked bodies.
pub mod Canonical
pub mod Chunked
pub mod Unsigned
pub mod Verifier
