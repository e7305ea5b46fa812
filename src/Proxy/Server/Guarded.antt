-- ===== src/Proxy/Server/Guarded.antt =====
-- Which signed requests internal/s3proxy/server.go sends to a backend, and how.
use stowage.Base.{
  Fallible-cases, ok, ℕ, suc, ◌<◌, ◌≡◌, refl, sym, ◌≢◌, ◌⊎◌, inl, inr, true, false, some, List,
  arith, Bool-cases, Option-cases, Str,
}
use stowage.Proxy.Route.{
  RouteInfo, null, Operation, classify_route, classify_operation, enforce_scope,
}
use stowage.Proxy.Upstream.{Outbound, Endpoint, build_outbound, sign_outbound}
use stowage.Limits.Tokens.{allow}
use stowage.Quotas.{Service, allowed, check_upload}
use stowage.Sigv4.Verifier.{Result, verify}
use stowage.Proxy.Exchange.{Credential, Request, Setup, Server, Served, routed, verifiable}
use stowage.Proxy.Server.{
  verifier, unwrap_body, acquire_slot, inbound, forward, is_metered, check_quota, record_upload,
  serve_admitted, with_slots, serve_verified, serve_signed,
}
use stowage.Proxy.Upstream.Attempts.{copies, Tries, do_upstream-Tries}

-- What one request sends: its outbound form, built for a bucket of a registered backend and signed
-- with that backend's key, once or up to three times.
unfoldable pub Sends :
    Setup → Request → RouteInfo → Str → Str → List Outbound → List Outbound → Type 0
Sends c r route name bucket sent sent' =
    (backend : Endpoint) × (built : Outbound) × (out : Outbound) × (n : ℕ) × (c.backend name
      ≡ some backend)
    × (build_outbound c.url (inbound r) route bucket backend ≡ some built)
    × (sign_outbound (c.sign name) backend built ≡ some out)
    × (n < 3)
    × (sent' ≡ copies (suc n) out sent)

pub forward-Sends :
    (c : Setup) (s : Server) (r : Request) (route : RouteInfo) (name bucket : Str) (out : Served)
    → ((forward c s r route name bucket out).0.sent ≡ s.sent)
      ⊎ Sends c r route name bucket s.sent (forward c s r route name bucket out).0.sent
unfolding forward Sends Tries
forward-Sends c s r route name bucket out = elim (Option-cases (c.backend name)) [
  | inl e ↦ inl (rw (e, forward) refl)
  | inr (backend, e) ↦ elim (Option-cases (build_outbound c.url (inbound r) route bucket backend)) [
    | inl f ↦ inl (rw (e, forward) (rw f refl))
    | inr (built, f) ↦ elim (Option-cases (sign_outbound (c.sign name) backend built)) [
      | inl g ↦ inl (rw (e, forward) (rw f (rw g refl)))
      | inr (req, g) ↦
          let (n, lt, eq, last) = (do_upstream-Tries c.wire req s.sent).0 in
          inr (backend, built, req, n, e, f, g, lt, ground (arith, eq))
    ]
  ]
]

-- What has passed when a verified request is sent: the rate limit, the scope of its credential and,
-- where the upload is metered, the quota check.
unfoldable pub IsAdmitted : Setup → Server → Request → Result → Credential → Type 0
IsAdmitted c s r res vc =
    let bucket = (classify_route (routed r) c.host_suffixes).bucket in
    let op = classify_operation (routed r) (classify_route (routed r) c.host_suffixes) in
    (c.lookup_key res.access_key_id ≡ some vc)
    × ((allow c.rate c.now vc.access_key_id s.rates).0 ≡ true)
    × (null bucket ≡ false)
    × (enforce_scope vc.scopes bucket ≡ true)
    × ((q : Service)
        → s.quotas ≡ some q
        → is_metered op r ≡ true
        → (check_upload q c.rounds c.now vc.backend_name bucket r.content_length).1 ≡ allowed)

-- A list of sent requests is an earlier one, or what an admitted request adds to it.
unfoldable pub SendsAdmitted : Setup → Server → Request → Result → List Outbound → Type 0
SendsAdmitted c s r res sent' =
    (sent' ≡ s.sent)
    ⊎ ((vc : Credential) × IsAdmitted c s r res vc
        × Sends c r (classify_route (routed r) c.host_suffixes) vc.backend_name
            (classify_route (routed r) c.host_suffixes).bucket s.sent sent')

pub check_quota-passes :
    (c : Setup) (s : Server) (op : Operation) (name bucket : Str) (r : Request)
    → ((check_quota c s op name bucket r).0.sent ≡ s.sent)
      × ((check_quota c s op name bucket r).1 ≡ false
          → (q : Service) → s.quotas ≡ some q
          → is_metered op r ≡ true
          → (check_upload q c.rounds c.now name bucket r.content_length).1 ≡ allowed)
unfolding check_quota
check_quota-passes c s op name bucket r = (ground arith, λ h q e m. ground arith)

pub record_upload-sent :
    (s : Server) (op : Operation) (name bucket : Str) (r : Request) (out : Served)
    → (record_upload s op name bucket r out).sent ≡ s.sent
unfolding record_upload
record_upload-sent s op name bucket r out = ground arith

forwarded-Sends :
    (c : Setup) (s s' : Server) (r : Request) (route : RouteInfo) (op : Operation)
    (name bucket : Str) (out : Served)
    → s'.sent ≡ s.sent
    → let done = forward c s' r route name bucket out in
      ((record_upload done.0 op name bucket r done.1).sent ≡ s.sent)
      ⊎ Sends c r route name bucket s.sent (record_upload done.0 op name bucket r done.1).sent
forwarded-Sends c s s' r route op name bucket out h =
    let done = forward c s' r route name bucket out in
    rw (record_upload-sent done.0 op name bucket r done.1)
      (rw (sym h) (forward-Sends c s' r route name bucket out))

serve_admitted-Sends :
    (c : Setup) (s : Server) (r : Request) (vc : Credential) (out : Served)
    → let route = classify_route (routed r) c.host_suffixes in
      ((serve_admitted c s r vc out).0.sent ≡ s.sent)
      ⊎ ((null route.bucket ≡ false)
          × (enforce_scope vc.scopes route.bucket ≡ true)
          × ((q : Service)
              → s.quotas ≡ some q
              → is_metered (classify_operation (routed r) route) r ≡ true
              → (check_upload q c.rounds c.now vc.backend_name route.bucket r.content_length).1
                ≡ allowed)
          × Sends c r route vc.backend_name route.bucket s.sent
              (serve_admitted c s r vc out).0.sent)
unfolding serve_admitted
serve_admitted-Sends c s r vc out =
    let route = classify_route (routed r) c.host_suffixes in
    let op = classify_operation (routed r) route in
    let quota = check_quota c s op vc.backend_name route.bucket r in
    let passes = check_quota-passes c s op vc.backend_name route.bucket r in
    elim (Bool-cases (null route.bucket)) [
      | inl n ↦ inl (rw (n, serve_admitted) refl)
      | inr n ↦ elim (Bool-cases (enforce_scope vc.scopes route.bucket)) [
        | inr e ↦ inl (rw (n, serve_admitted) (rw e refl))
        | inl e ↦ elim (Bool-cases quota.1) [
          | inl q ↦ inl (rw (n, serve_admitted) (rw e (rw q passes.0)))
          | inr q ↦
              elim (forwarded-Sends c s quota.0 r route op vc.backend_name route.bucket _
                passes.0) [
                  | inl same ↦ inl (rw (n, serve_admitted) (rw e (rw q same)))
                  | inr sends ↦ inr (n, e, passes.1 q, rw (n, serve_admitted) (rw e (rw q sends)))
                ]
        ]
      ]
    ]

serve_verified-Sends :
    (c : Setup) (s : Server) (r : Request) (res : Result)
    → SendsAdmitted c s r res (serve_verified c s r res).0.sent
unfolding serve_verified SendsAdmitted IsAdmitted
serve_verified-Sends c s r res = elim (Option-cases (c.lookup_key res.access_key_id)) [
  | inl e ↦ inl (rw (e, serve_verified) refl)
  | inr (vc, e) ↦
      let limited = allow c.rate c.now vc.access_key_id s.rates in
      elim (Bool-cases limited.0) [
        | inr g ↦ inl (rw (e, serve_verified) (rw g refl))
        | inl g ↦ elim (Option-cases (acquire_slot vc.access_key_id s.slots)) [
          | inl a ↦ inl (rw (e, serve_verified) (rw g (rw a refl)))
          | inr (l, a) ↦
              elim (serve_admitted-Sends c (with_slots (record s { rates = limited.1 }) l) r vc _) [
                | inl same ↦ inl (rw (e, serve_verified) (rw g (rw a same)))
                | inr (n, scope, quota, sends) ↦
                    inr (vc, (e, g, n, scope, quota), rw (e, serve_verified) (rw g (rw a sends)))
              ]
        ]
      ]
]

-- A signed request that sends anything to a backend has a signature that the verifier accepts, a
-- body whose framing is understood, a known credential, a granted rate, a bucket in the scopes
-- of that credential and, for a metered upload with quotas in force, a check that allows it; and
-- what it sends is its outbound form for that bucket on the credential's backend, signed with the
-- backend's key, once or up to three times.
pub serve_signed-guarded :
    (c : Setup) (s : Server) (r : Request)
    → ((serve_signed c s r).0.sent ≢ s.sent)
    → (res : Result) × (r' : Request) × (vc : Credential) × ((verify
          (verifier c)
          s.signing_keys
          (verifiable r)).1
        ≡ ok res)
      × (unwrap_body res r ≡ some r')
      × IsAdmitted c s r' res vc
      × Sends c r'
          (classify_route (routed r') c.host_suffixes)
          vc.backend_name
          (classify_route (routed r') c.host_suffixes).bucket
          s.sent
          (serve_signed c s r).0.sent
unfolding serve_signed SendsAdmitted IsAdmitted
serve_signed-guarded c s r sent =
    let (keys, verdict) = verify (verifier c) s.signing_keys (verifiable r) in
    elim (Fallible-cases verdict) [
      | inr (f, e) ↦ absurd (sent (rw (e, serve_signed) refl))
      | inl (res, e) ↦ elim (Option-cases (unwrap_body res r)) [
        | inl u ↦ absurd (sent (rw (e, serve_signed) (rw u refl)))
        | inr (r', u) ↦ elim (serve_verified-Sends c (record s { signing_keys = keys }) r' res) [
          | inl same ↦ absurd (sent (rw (e, serve_signed) (rw u same)))
          | inr (vc, admitted, sends) ↦
              (res, r', vc, e, u, admitted, rw (e, serve_signed) (rw u sends))
        ]
      ]
    ]
