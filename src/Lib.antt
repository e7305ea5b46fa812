-- ===== src/Lib.antt =====
-- Stowage puts a dashboard, a SigV4 S3 proxy and a Kubernetes operator in front of S3-compatible
-- backends. This library models the parts of its Go code that decide: who may do what, which
-- bytes are accepted, and what is counted.
--
-- A request to the proxy (internal/s3proxy/server.go) is routed, its signature is checked over a
-- canonical form, its body is read through a reader that checks each chunk, and a PUT is measured
-- against the bucket's quota before it is sent on. Shares are public links with their own gates.
-- A request to the dashboard is given an identity by its session's cookie.
--
-- - Base: bytes, texts, dictionaries for Go maps with string keys, 64-bit arithmetic, and lemmas
--   on them.
-- - Quotas: internal/quotas/quotas.go. The service's maps are fields of a record that every
--   operation takes and returns; Enforce runs the proxy's CheckUpload and Recorded around a
--   sequence of PUTs.
-- - Sigv4.Canonical: internal/sigv4verifier/canonical.go, function for function.
-- - Sigv4.Chunked: internal/sigv4verifier/chunked.go. A Reader is the struct's fields with the
--   bytes of the body that remain; SHA-256 and HMAC are parameters.
-- - Proxy.Route: internal/s3proxy/router.go, scope.go and anonymous.go, with classifyOperation of
--   server.go and BuildOutboundPath of rewrite.go.
-- - Proxy.Cors: internal/s3proxy/cors.go.
-- - Shares: internal/shares/shares.go over the statements of internal/store/sqlstore/shares.go. A
--   table is a dictionary by its primary key.
-- - Sigv4.Unsigned: the reader of unsigned chunks in the same file, whose trailer lines are
--   drained on fuel that Unsigned.Ends shows to be enough.
-- - Proxy.Policy: internal/s3proxy/postpolicy.go, from the decoded conditions on.
-- - Proxy.Rewrite: internal/s3proxy/rewrite.go, the headers, the raw path and the presigned
--   parameters.
-- - Limits.RateLimiter: internal/auth/ratelimit.go. Limits.Concurrency:
--   internal/s3proxy/concurrency.go, where each channel operation is one event and calls
--   interleave in any order.
-- - Sigv4.Verifier: internal/sigv4verifier/verifier.go and postpolicy.go. The checks before the
--   signature give an attempt, and settle compares its signature with the one under the cached
--   key.
-- - Limits.Tokens: internal/s3proxy/ratelimit.go and iplimiter.go.
-- - Proxy.Upstream: the outbound half of internal/s3proxy/server.go. The transport answers by the
--   number of requests sent before.
-- - Proxy.Exchange, Proxy.Server and Proxy.Handler: the request, the state and the steps of
--   server.go, from ServeHTTP to the answer, over all of the above. The state is the verifier's
--   keys, the limiters, the quotas and the list of requests that were sent.
-- - Auth: internal/auth (session.go, cache.go, touch.go, middleware.go, csrf.go) with
--   internal/store/sqlstore/sessions.go. The manager's state is the session table, the cache and
--   the pending touches; Attach is a look at the cache, resolve and admit.
-- - Auth.Accounts: internal/auth/service.go over Auth.Hashes, which is password.go, with the
--   statements of internal/store/sqlstore/users.go that they use. The statements of one call,
--   which no lock holds together, are one step.
--
-- Texts are lists of bytes, machine integers are 64-bit patterns where the code can overflow,
-- times are numbers. Loops over slices are structural. The chunked reader's loop runs on fuel for
-- two tests, one round more than it takes to get a chunk, and Chunked.Fuel shows that more fuel
-- changes nothing. Scan runs on the number of requests that its deadline leaves time for.
-- strconv.Itoa runs on twenty digits, which is enough for 64 bits.
--
-- Not modelled: HTTP, SQL and Kubernetes themselves, the hash functions, the clock and the random
-- source, which are arguments or fields of a parameter record; the uploads by POST form, the API
-- handlers, sign-in with OIDC, the backends, the operator, the configuration and the front end.
-- Operations under one mutex are taken as atomic.
pub mod Auth
pub mod Base
pub mod Limits
pub mod Proxy
pub mod Quotas
pub mod Shares
pub mod Sigv4
