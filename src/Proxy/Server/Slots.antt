-- ===== src/Proxy/Server/Slots.antt =====
-- The concurrency slots of internal/s3proxy/server.go: each path gives back what it took.
use stowage.Base.{
  Fallible-cases, ℕ, ◌+◌, ◌-◌, ◌≡◌, refl, sym, subst, ◌≢◌, inl, inr, some, ◌++◌, arith,
  if◌then◌else◌, Bool-cases, Option-cases, Str, codes, str_eq, str_eq_self, str_eq_iff,
}
use stowage.Base.Dict.{lookup-insert}
use stowage.Proxy.Route.{
  RouteInfo, null, Operation, classify_route, classify_operation, anonymous_op_allowed,
}
use stowage.Limits.Tokens.{allow, client_ip}
use stowage.Limits.Concurrency.{take_key_slot, free_key_slot, take_global_slot, free_global_slot}
use stowage.Limits.Concurrency
use stowage.Sigv4.Verifier.{Result, verify}
use stowage.Proxy.Exchange.{Credential, Binding, Request, Setup, Server, Served, routed, verifiable}
use stowage.Proxy.Server.{
  verifier, unwrap_body, acquire_slot, release_slot, forward, check_quota, record_upload,
  serve_admitted, serve_verified, serve_signed, allow_ip_at, serve_bound, serve_anonymous,
  form_upload, branch_of, serve,
}
use stowage.Limits.Concurrency.{in_use, set_in_use}

-- the same slots in use, for each key and in all, under the same caps
unfoldable pub IsSame : Concurrency.Limiter → Concurrency.Limiter → Type 0
IsSame l l' =
    ((key : Str) → in_use key l' ≡ in_use key l)
    × (l'.global ≡ l.global)
    × (l'.per_max ≡ l.per_max)
    × (l'.global_max ≡ l.global_max)

in_use-set_in_use :
    (key j : Str) (n : ℕ) (l : Concurrency.Limiter)
    → in_use j (set_in_use key n l) ≡ (if str_eq key j then n else in_use j l)
unfolding in_use
in_use-set_in_use key j n l = ground (arith, lookup-insert key j n l.per_key)

-- giving back a slot of a key undoes taking it
free-take :
    (key j : Str) (l : Concurrency.Limiter)
    → in_use j (
        set_in_use key
          (in_use key (set_in_use key (in_use key l + 1) l) - 1)
          (set_in_use key (in_use key l + 1) l))
      ≡ in_use j l
free-take key j l =
    let taken = set_in_use key (in_use key l + 1) l in
    ground (
      arith,
      in_use-set_in_use key j (in_use key taken - 1) taken,
      in_use-set_in_use key j (in_use key l + 1) l,
      in_use-set_in_use key key (in_use key l + 1) l,
      str_eq_self key,
      str_eq_iff key j,
    )

in_use-global :
    (j : Str) (n : ℕ) (l : Concurrency.Limiter) → in_use j (record l { global = n }) ≡ in_use j l
unfolding in_use
in_use-global j n l = refl

release-acquire :
    (key : Str) (l l' : Concurrency.Limiter)
    → acquire_slot key l ≡ some l'
    → IsSame l (release_slot key l')
unfolding acquire_slot release_slot take_key_slot take_global_slot free_key_slot free_global_slot
    IsSame in_use
release-acquire key l l' h =
    (λ j. ground (arith, free-take key j l), ground arith, ground arith, ground arith)

forward-slots :
    (c : Setup) (s : Server) (r : Request) (route : RouteInfo) (name bucket : Str) (out : Served)
    → (forward c s r route name bucket out).0.slots ≡ s.slots
unfolding forward
forward-slots c s r route name bucket out = ground arith

check_quota-slots :
    (c : Setup) (s : Server) (op : Operation) (name bucket : Str) (r : Request)
    → (check_quota c s op name bucket r).0.slots ≡ s.slots
unfolding check_quota
check_quota-slots c s op name bucket r = ground arith

record_upload-slots :
    (s : Server) (op : Operation) (name bucket : Str) (r : Request) (out : Served)
    → (record_upload s op name bucket r out).slots ≡ s.slots
unfolding record_upload
record_upload-slots s op name bucket r out = ground arith

serve_admitted-slots :
    (c : Setup) (s : Server) (r : Request) (vc : Credential) (out : Served)
    → (serve_admitted c s r vc out).0.slots ≡ s.slots
unfolding serve_admitted
serve_admitted-slots c s r vc out =
    grind (arith, forward-slots, check_quota-slots, record_upload-slots)

IsSame-refl : (l : Concurrency.Limiter) → IsSame l l
unfolding IsSame
IsSame-refl l = (λ key. refl, refl, refl, refl)

release-held :
    (key : Str) (l l' m : Concurrency.Limiter)
    → acquire_slot key l ≡ some l'
    → m ≡ l'
    → IsSame l (release_slot key m)
release-held key l l' m h e = rw e (release-acquire key l l' h)

serve_verified-slots :
    (c : Setup) (s : Server) (r : Request) (res : Result)
    → IsSame s.slots (serve_verified c s r res).0.slots
unfolding serve_verified
serve_verified-slots c s r res = elim (Option-cases (c.lookup_key res.access_key_id)) [
  | inl e ↦ rw (e, serve_verified) (IsSame-refl s.slots)
  | inr (vc, e) ↦ elim (Bool-cases (allow c.rate c.now vc.access_key_id s.rates).0) [
    | inr g ↦ rw (e, serve_verified) (rw g (IsSame-refl s.slots))
    | inl g ↦ elim (Option-cases (acquire_slot vc.access_key_id s.slots)) [
      | inl a ↦ rw (e, serve_verified) (rw g (rw a (IsSame-refl s.slots)))
      | inr (l, a) ↦
          rw (e, serve_verified)
            (rw g (
              rw a (release-held vc.access_key_id s.slots l _ a (serve_admitted-slots c _ r vc _))))
    ]
  ]
]

serve_signed-slots :
    (c : Setup) (s : Server) (r : Request) → IsSame s.slots (serve_signed c s r).0.slots
unfolding serve_signed
serve_signed-slots c s r =
    elim (Fallible-cases (verify (verifier c) s.signing_keys (verifiable r)).1) [
      | inr (f, e) ↦ rw (e, serve_signed) (IsSame-refl s.slots)
      | inl (res, e) ↦ elim (Option-cases (unwrap_body res r)) [
        | inl u ↦ rw (e, serve_signed) (rw u (IsSame-refl s.slots))
        | inr (r', u) ↦ rw (e, serve_signed) (rw u (serve_verified-slots c _ r' res))
      ]
    ]

allow_ip_at-slots :
    (c : Setup) (s : Server) (ip : Str) (rps : ℕ) → (allow_ip_at c s ip rps).1.slots ≡ s.slots
unfolding allow_ip_at
allow_ip_at-slots c s ip rps = ground arith

serve_bound-slots :
    (c : Setup) (s : Server) (r : Request) (route : RouteInfo) (op : Operation) (binding : Binding)
    (out : Served)
    → IsSame s.slots (serve_bound c s r route op binding out).0.slots
unfolding serve_bound
serve_bound-slots c s r route op binding out =
    let ip = client_ip c.net r.remote_addr r.headers c.trusted_proxies in
    let limited = allow_ip_at c s ip binding.per_source_ip_rps in
    let slot = codes "anon:" ++ ip in
    let kept = allow_ip_at-slots c s ip binding.per_source_ip_rps in
    let same : IsSame s.slots limited.1.slots =
      subst (λ l. IsSame s.slots l) (sym kept) (IsSame-refl s.slots) in
    elim (Bool-cases (anonymous_op_allowed binding.mode op r.query)) [
      | inr a ↦ rw (a, serve_bound) (IsSame-refl s.slots)
      | inl a ↦ elim (Bool-cases limited.0) [
        | inr g ↦ rw (a, serve_bound) (rw g same)
        | inl g ↦ elim (Option-cases (acquire_slot slot limited.1.slots)) [
          | inl q ↦ rw (a, serve_bound) (rw g (rw q same))
          | inr (l, q) ↦
              rw (a, serve_bound)
                (rw g (
                  rw q (
                    release-held slot s.slots l _ (subst (λ m. acquire_slot slot m ≡ some l) kept q)
                      (forward-slots c _ r route _ _ _))))
        ]
      ]
    ]

serve_anonymous-slots :
    (c : Setup) (s : Server) (r : Request) → IsSame s.slots (serve_anonymous c s r).0.slots
unfolding serve_anonymous
serve_anonymous-slots c s r =
    let route = classify_route (routed r) c.host_suffixes in
    elim (Bool-cases (null route.bucket)) [
      | inl n ↦ rw (n, serve_anonymous) (IsSame-refl s.slots)
      | inr n ↦ elim (Option-cases (c.lookup_anon route.bucket)) [
        | inl e ↦ rw (n, serve_anonymous) (rw e (IsSame-refl s.slots))
        | inr (binding, e) ↦
            rw (n, serve_anonymous)
              (rw e (serve_bound-slots c s r route (classify_operation (routed r) route) binding _))
      ]
    ]

-- After `serve` on a request that is no form upload, whatever becomes of it, each key and the
-- proxy as a whole have as many concurrency slots in use as before, under the same caps.
pub serve-slots :
    (form : Setup → Server → Request → Server × Served) (c : Setup) (s : Server) (r : Request)
    → branch_of c r ≢ form_upload
    → IsSame s.slots (serve form c s r).0.slots
unfolding serve
serve-slots form c s r h = ground (arith, serve_signed-slots c s r, serve_anonymous-slots c s r)
