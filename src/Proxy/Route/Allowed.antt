-- ===== src/Proxy/Route/Allowed.antt =====
-- What an anonymous caller may do (internal/s3proxy/anonymous.go with classifyOperation of
-- internal/s3proxy/server.go), and the scope check of internal/s3proxy/scope.go.
use stowage.Base.{
  ◌≡◌, refl, ◌≢◌, ◌↔◌, ◌⊎◌, inl, inr, true, false, none, List, [], ◌∷◌, arith, Bool-cases, All, Str,
  codes, str_eq, str_eq_self, str_eq_sound, str_eq_iff, to_lower,
}
use stowage.Base.Dict.{Dict, lookup, has}
use mathlib.Core.List.{Memᴰ}
use mathlib.Core.List.Memᴰ
use stowage.Proxy.Route.{
  get, head, get_object, Request, RouteInfo, classify_operation, anon_mode_read_only,
  anonymous_blocked_subresources, any_blocked, anonymous_op_allowed, anonymous_read_allowed_ops,
  null, enforce_scope,
}

pub any_blocked-false :
    (ks : List Str) (q : Dict (List Str))
    → any_blocked ks q ≡ false
    → All (λ k. lookup k q ≡ none) ks
unfolding any_blocked
any_blocked-false [] q h = tt
any_blocked-false (k ∷ ks) q h = (ground arith, any_blocked-false ks q (ground arith))

any_blocked-none :
    (ks : List Str) (q : Dict (List Str))
    → All (λ k. lookup k q ≡ none) ks
    → any_blocked ks q ≡ false
unfolding any_blocked
any_blocked-none [] q h = refl
any_blocked-none (k ∷ ks) q h = ground (arith, any_blocked-none ks q h.1)

-- A request that passes the anonymous check is a GET or a HEAD, the bucket's mode is ReadOnly, and
-- the query has none of the listed sub-resource parameters, whatever the route.
pub anonymous_reads_only :
    (mode : Str) (r : Request) (route : RouteInfo)
    → anonymous_op_allowed mode (classify_operation r route) r.query ≡ true
    → (mode ≡ anon_mode_read_only)
      × ((r.method ≡ get) ⊎ (r.method ≡ head))
      × All (λ k. lookup k r.query ≡ none) anonymous_blocked_subresources
unfolding anonymous_op_allowed
anonymous_reads_only mode r route h = (
  ground (arith, str_eq_iff mode anon_mode_read_only),
  reads,
  any_blocked-false anonymous_blocked_subresources r.query (ground arith),
)
  where
    allowed : anonymous_read_allowed_ops (classify_operation r route) ≡ true
    allowed = ground arith

    reads : (r.method ≡ get) ⊎ (r.method ≡ head)
    reads = unfold classify_operation in ground arith

null-false : (s : Str) → s ≢ [] → null s ≡ false
null-false [] h = absurd (h refl)
null-false (c ∷ s) h = refl

classify_operation-get :
    (r : Request) (route : RouteInfo)
    → r.method ≡ get
    → null route.bucket ≡ false
    → null route.key ≡ false
    → has (codes "uploadId") r.query ≡ false
    → classify_operation r route ≡ get_object
unfolding classify_operation
classify_operation-get r route hm hb hk hu = rw hm (rw hb (rw hk (rw hu refl)))

-- A GET of an object of a ReadOnly bucket passes the anonymous check if its query has none of the
-- listed sub-resource parameters.
pub anonymous_get_allowed :
    (r : Request) (route : RouteInfo)
    → r.method ≡ get
    → route.bucket ≢ []
    → route.key ≢ []
    → All (λ k. lookup k r.query ≡ none) anonymous_blocked_subresources
    → anonymous_op_allowed anon_mode_read_only (classify_operation r route) r.query ≡ true
unfolding anonymous_op_allowed
anonymous_get_allowed r route hm hb hk hq = rw is_get (
    ground (
      arith,
      any_blocked-none anonymous_blocked_subresources r.query hq,
      str_eq_self anon_mode_read_only,
    ))
  where
    no_upload : lookup (codes "uploadId") r.query ≡ none
    no_upload =
        unfold anonymous_blocked_subresources in hq.1.1.1.1.1.1.1.1.1.1.1.1.1.1.1.1.1.1.1.1.0

    is_get : classify_operation r route ≡ get_object
    is_get =
        classify_operation-get r route hm (null-false route.bucket hb) (null-false route.key hk)
          (ground (arith, no_upload))

-- The scope check passes exactly if the request names no bucket, or one of the credential's up to
-- the case of letters.
pub enforce_scope_iff :
    (scopes : List Str) (bucket : Str)
    → (enforce_scope scopes bucket ≡ true)
      ↔ ((bucket ≡ []) ⊎ ((s : Str) × Memᴰ s scopes × (to_lower s ≡ to_lower bucket)))
unfolding enforce_scope
enforce_scope_iff scopes [] = (λ h. inl refl, λ h. refl)
enforce_scope_iff [] (c ∷ bucket) =
    (λ h. cc, λ h. elim h [ inl e ↦ cc | inr (s, m, e) ↦ absurd (Memᴰ.not-nil m) ])
enforce_scope_iff (s ∷ scopes) (c ∷ bucket) = (
  λ h. elim (Bool-cases (str_eq (to_lower s) (to_lower (c ∷ bucket)))) [
    | inl e ↦ inr (s, Memᴰ.head refl, str_eq_sound (to_lower s) (to_lower (c ∷ bucket)) e)
    | inr e ↦ elim ((enforce_scope_iff scopes (c ∷ bucket)).0 (ground arith)) [
      | inl n ↦ inl n
      | inr (t, m, f) ↦ inr (t, Memᴰ.tail m, f)
    ]
  ],
  λ h. elim h [
    | inl e ↦ absurd (ground arith)
    | inr (t, Memᴰ.head e, f) ↦ ground (arith, str_eq_self (to_lower (c ∷ bucket)))
    | inr (t, Memᴰ.tail m, f) ↦
        ground (arith, (enforce_scope_iff scopes (c ∷ bucket)).1 (inr (t, m, f)))
  ],
)
