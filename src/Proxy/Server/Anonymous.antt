-- ===== src/Proxy/Server/Anonymous.antt =====
-- Which unsigned requests internal/s3proxy/server.go sends to a backend.
use stowage.Base.{
  ℕ, ◌≡◌, refl, sym, ◌∙◌, ◌≢◌, ◌⊎◌, inl, inr, true, none, some, List, ◌++◌, arith, Bool-cases,
  Option-cases, All, Str, codes,
}
use stowage.Base.Dict.{lookup}
use stowage.Proxy.Route.{
  get, head, RouteInfo, null, Operation, classify_route, classify_operation,
  anonymous_blocked_subresources, anonymous_op_allowed,
}
use stowage.Proxy.Upstream.{Outbound}
use stowage.Limits.Tokens.{client_ip}
use stowage.Proxy.Exchange.{Binding, Request, Setup, Server, Served, read_method, routed}
use stowage.Proxy.Server.{acquire_slot, with_slots, allow_ip_at, serve_bound, serve_anonymous}
use stowage.Proxy.Route.Allowed.{anonymous_reads_only}
use stowage.Proxy.Route.{anon_mode_read_only}
use stowage.Proxy.Server.Guarded.{Sends, forward-Sends}

allow_ip_at-sent :
    (c : Setup) (s : Server) (ip : Str) (rps : ℕ) → (allow_ip_at c s ip rps).1.sent ≡ s.sent
unfolding allow_ip_at
allow_ip_at-sent c s ip rps = ground arith

Sends-from :
    (c : Setup) (r : Request) (route : RouteInfo) (name bucket : Str)
    (sent sent' after : List Outbound)
    → sent ≡ sent'
    → Sends c r route name bucket sent after
    → Sends c r route name bucket sent' after
Sends-from c r route name bucket sent sent' after e sends = rw (sym e) sends

serve_bound-Sends :
    (c : Setup) (s : Server) (r : Request) (route : RouteInfo) (op : Operation) (binding : Binding)
    (out : Served)
    → ((serve_bound c s r route op binding out).0.sent ≡ s.sent)
      ⊎ ((anonymous_op_allowed binding.mode op r.query ≡ true)
          × Sends c r route binding.backend_name binding.bucket_name s.sent
              (serve_bound c s r route op binding out).0.sent)
unfolding serve_bound
serve_bound-Sends c s r route op binding out =
    let ip = client_ip c.net r.remote_addr r.headers c.trusted_proxies in
    let limited = allow_ip_at c s ip binding.per_source_ip_rps in
    let slot = codes "anon:" ++ ip in
    let kept = allow_ip_at-sent c s ip binding.per_source_ip_rps in
    elim (Bool-cases (anonymous_op_allowed binding.mode op r.query)) [
      | inr a ↦ inl (rw (a, serve_bound) refl)
      | inl a ↦ elim (Bool-cases limited.0) [
        | inr g ↦ inl (rw (a, serve_bound) (rw g kept))
        | inl g ↦ elim (Option-cases (acquire_slot slot limited.1.slots)) [
          | inl q ↦ inl (rw (a, serve_bound) (rw g (rw q kept)))
          | inr (l, q) ↦
              elim (forward-Sends c (with_slots limited.1 l) r route binding.backend_name
                binding.bucket_name out) [
                  | inl same ↦ inl (rw (a, serve_bound) (rw g (rw q (same ∙ kept))))
                  | inr sends ↦ inr (
                    a,
                    rw (a, serve_bound)
                        (rw g (rw q (Sends-from c r route _ _ _ s.sent _ kept sends))),
                  )
                ]
        ]
      ]
    ]

-- A request without credentials that sends anything to a backend is a GET or a HEAD of a bucket
-- that has a binding, the binding's mode is ReadOnly, and the query has none of the listed
-- sub-resource parameters; what it sends is its outbound form for the binding's bucket.
pub serve_anonymous-guarded :
    (c : Setup) (s : Server) (r : Request)
    → (serve_anonymous c s r).0.sent ≢ s.sent
    → (binding : Binding) × (c.lookup_anon (classify_route (routed r) c.host_suffixes).bucket
        ≡ some binding)
      × (binding.mode ≡ anon_mode_read_only)
      × ((read_method r.method ≡ get) ⊎ (read_method r.method ≡ head))
      × All (λ k. lookup k r.query ≡ none) anonymous_blocked_subresources
      × Sends c r
          (classify_route (routed r) c.host_suffixes)
          binding.backend_name
          binding.bucket_name
          s.sent
          (serve_anonymous c s r).0.sent
unfolding serve_anonymous
serve_anonymous-guarded c s r sent =
    let route = classify_route (routed r) c.host_suffixes in
    let op = classify_operation (routed r) route in
    elim (Bool-cases (null route.bucket)) [
      | inl n ↦ absurd (sent (rw (n, serve_anonymous) refl))
      | inr n ↦ elim (Option-cases (c.lookup_anon route.bucket)) [
        | inl e ↦ absurd (sent (rw (n, serve_anonymous) (rw e refl)))
        | inr (binding, e) ↦ elim (serve_bound-Sends c s r route op binding _) [
          | inl same ↦ absurd (sent (rw (n, serve_anonymous) (rw e same)))
          | inr (allowed_op, sends) ↦
              let (mode, method, query) =
                anonymous_reads_only binding.mode (routed r) route allowed_op in
              (binding, e, mode, method, query, rw (n, serve_anonymous) (rw e sends))
        ]
      ]
    ]
