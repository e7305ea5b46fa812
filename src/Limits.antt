-- ===== src/Limits.antt =====
-- The limiters: internal/auth/ratelimit.go and internal/s3proxy/concurrency.go.
pub mod RateLimiter
pub mod Concurrency
pub mod Tokens
