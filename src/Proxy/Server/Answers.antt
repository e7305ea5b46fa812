-- ===== src/Proxy/Server/Answers.antt =====
-- How internal/s3proxy/server.go answers a request that it does not send on.
use stowage.Base.{ℕ, ◌≡◌, Bool, true, false, Option, none, some, List}
use stowage.Proxy.Upstream.{Outbound}
use stowage.Proxy.Exchange.{
  Server, Outcome, auth_failed, missing_credentials, bad_chunked_header, unknown_akid, rate_limited,
  concurrency_limited, scope_violation, quota_exceeded, op_not_allowed, subresource_not_allowed,
  backend_unavailable, bad_request, sign_error, client_cancelled, upstream_error, served, Served,
}

-- The status of an answer, by its result, where the proxy itself chooses it.
unfoldable pub own_status : Outcome → Option ℕ
own_status (auth_failed e) = some 403
own_status missing_credentials = some 403
own_status bad_chunked_header = some 400
own_status unknown_akid = some 403
own_status rate_limited = some 503
own_status concurrency_limited = some 503
own_status scope_violation = some 403
own_status quota_exceeded = some 507
own_status op_not_allowed = some 403
own_status subresource_not_allowed = some 403
own_status backend_unavailable = some 502
own_status bad_request = some 400
own_status sign_error = some 502
own_status client_cancelled = some 499
own_status upstream_error = some 502
own_status served = none

-- the results of requests that may have reached a backend
unfoldable pub is_tried : Outcome → Bool
is_tried served = true
is_tried client_cancelled = true
is_tried upstream_error = true
is_tried _ = false

unfoldable pub IsAnswer : List Outbound → Server × Served → Type 0
IsAnswer sent (s, out) =
    ((n : ℕ) → own_status out.result ≡ some n → out.status ≡ n)
    × (is_tried out.result ≡ false → s.sent ≡ sent)
