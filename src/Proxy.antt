-- ===== src/Proxy.antt =====
-- internal/s3proxy: the S3 proxy, from the routing of a request to the headers that leave for the
-- backend.
pub mod Route
pub mod Cors
pub mod Policy
pub mod Rewrite
pub mod Upstream
pub mod Exchange
pub mod Server
pub mod Handler
