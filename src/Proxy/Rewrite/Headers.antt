-- ===== src/Proxy/Rewrite/Headers.antt =====
-- Which headers and query parameters internal/s3proxy/rewrite.go sends on.
use stowage.Base.{
  ◌≡◌, refl, sym, ap, ◌∙◌, ◌⊎◌, inl, inr, Bool, true, false, none, some, List, [], ◌∷◌, ◌++◌, arith,
  if◌then◌else◌, Bool-cases, any, Str, codes, str_eq, str_eq_self, str_eq_sound, str_eq_iff,
  has_prefix, to_lower,
}
use stowage.Base.Dict.{Dict, lookup, delete, lookup-delete}
use stowage.Proxy.Cors.{Header}
use stowage.Proxy.Rewrite.{
  strip_inbound, allowed_amz_prefixes, user_meta_prefix, checksum_prefix, sdk_checksum_algo_header,
  listed, is_checksum_value, names, has_checksum_value, forwarded, forward_all,
  prepare_outbound_headers, presigned_query_params, delete_all,
}

lookup-forward_all :
    (b : Bool) (k : Str) (h : Header)
    → lookup k (forward_all b h) ≡ (if forwarded b k then lookup k h else none)
unfolding forward_all lookup
lookup-forward_all b k [] = ground arith
lookup-forward_all b k ((j, vs) ∷ h) = elim (Bool-cases (str_eq j k)) [
  | inl e ↦ ground (arith, lookup-forward_all b k h, same e)
  | inr e ↦ ground (arith, lookup-forward_all b k h)
]
  where
    same : str_eq j k ≡ true → forwarded b j ≡ forwarded b k
    same e = ap (forwarded b) (str_eq_sound j k e)

forwarded-reason :
    (b : Bool) (k : Str)
    → forwarded b k ≡ true
    → (listed (to_lower k) strip_inbound ≡ false)
      × (has_prefix (to_lower k) (codes "x-amz-") ≡ true
          → (has_prefix (to_lower k) user_meta_prefix ≡ true)
            ⊎ (has_prefix (to_lower k) checksum_prefix ≡ true)
            ⊎ (to_lower k ≡ sdk_checksum_algo_header)
            ⊎ (listed (to_lower k) allowed_amz_prefixes ≡ true))
unfolding forwarded
forwarded-reason b k h =
    (ground arith, λ amz. ground (arith, str_eq_iff (to_lower k) sdk_checksum_algo_header))

-- A header that describes the client's own hop or signature is never sent on, under any spelling of
-- its name; and an X-Amz header is sent on only if it is user metadata, a checksum, the announcement
-- of one, or on the list of those the backend needs.
pub prepare_outbound_headers-stripped :
    (k : Str) (vs : List Str) (h : Header)
    → lookup k (prepare_outbound_headers h) ≡ some vs
    → (lookup k h ≡ some vs)
      × (listed (to_lower k) strip_inbound ≡ false)
      × (has_prefix (to_lower k) (codes "x-amz-") ≡ true
          → (has_prefix (to_lower k) user_meta_prefix ≡ true)
            ⊎ (has_prefix (to_lower k) checksum_prefix ≡ true)
            ⊎ (to_lower k ≡ sdk_checksum_algo_header)
            ⊎ (listed (to_lower k) allowed_amz_prefixes ≡ true))
unfolding prepare_outbound_headers
prepare_outbound_headers-stripped k vs h e = (
  ground (arith, lookup-forward_all (has_checksum_value h) k h),
  (forwarded-reason (has_checksum_value h) k passes).0,
  (forwarded-reason (has_checksum_value h) k passes).1,
)
  where
    passes : forwarded (has_checksum_value h) k ≡ true
    passes = ground (arith, lookup-forward_all (has_checksum_value h) k h)

has_prefix_sound : (s p : Str) → has_prefix s p ≡ true → (r : Str) × (s ≡ p ++ r)
unfolding has_prefix
has_prefix_sound s [] h = (s, refl)
has_prefix_sound [] (x ∷ p) h = absurd (ground arith)
has_prefix_sound (c ∷ s) (x ∷ p) h =
    let (r, e) = has_prefix_sound s p (ground arith) in (r, ground arith)

checksum-forwarded : (b : Bool) (k : Str) → is_checksum_value k ≡ true → forwarded b k ≡ true
checksum-forwarded b k h =
    let (r, e) =
      has_prefix_sound (to_lower k) checksum_prefix (unfold is_checksum_value in ground arith) in
    unfold forwarded has_prefix str_eq strip_inbound in rw e refl

any-names :
    (p : Str → Bool) (h : Header)
    → any p (names h) ≡ true
    → (k : Str) × (vs : List Str) × (lookup k h ≡ some vs) × (p k ≡ true)
unfolding lookup
any-names p [] h = absurd (ground arith)
any-names p ((k, vs) ∷ h) e = elim (Bool-cases (p k)) [
  | inl f ↦ (k, vs, ground (arith, str_eq_self k), f)
  | inr f ↦
      let (j, ws, g, t) = any-names p h (ground arith) in
      (j, ws, ground (arith, g, t, f, clash j), t)
]
  where
    clash : (j : Str) → str_eq k j ≡ true → p k ≡ p j
    clash j m = ap p (str_eq_sound k j m)

sdk-forwarded : (b : Bool) (k : Str) → to_lower k ≡ sdk_checksum_algo_header → forwarded b k ≡ b
unfolding forwarded has_prefix str_eq strip_inbound
sdk-forwarded b k name = rw name refl

-- When the announcement of a checksum is sent on, so is a header with a checksum's value.
pub prepare_outbound_headers-announced :
    (k : Str) (vs : List Str) (h : Header)
    → to_lower k ≡ sdk_checksum_algo_header
    → lookup k (prepare_outbound_headers h) ≡ some vs
    → (j : Str) × (ws : List Str) × (lookup j (prepare_outbound_headers h) ≡ some ws)
      × (is_checksum_value j ≡ true)
unfolding prepare_outbound_headers
prepare_outbound_headers-announced k vs h name e =
    let (j, ws, found, value) = any-names is_checksum_value h has_value in
    (
      j,
      ws,
      ground (
        arith,
        lookup-forward_all (has_checksum_value h) j h,
        checksum-forwarded (has_checksum_value h) j value,
      ),
      value,
    )
  where
    passes : forwarded (has_checksum_value h) k ≡ true
    passes = ground (arith, lookup-forward_all (has_checksum_value h) k h)

    has_value : any is_checksum_value (names h) ≡ true
    has_value =
        unfold has_checksum_value in sym (sdk-forwarded (has_checksum_value h) k name) ∙ passes

lookup-delete_keys :
    (ks : List Str) (k : Str) (q : Dict (List Str))
    → lookup k (delete_all ks q) ≡ (if listed k ks then none else lookup k q)
unfolding delete_all
lookup-delete_keys [] k q = refl
lookup-delete_keys (j ∷ ks) k q = ground (
  arith,
  lookup-delete_keys ks k (delete j q),
  lookup-delete_keys ks k q,
  lookup-delete j k q,
  str_eq_iff k j,
  str_eq_iff j k,
)

-- `StripPresignedQuery` removes the parameters of a presigned URL and leaves every other parameter as
-- it was.
pub lookup-delete_all :
    (k : Str) (q : Dict (List Str))
    → lookup k (delete_all presigned_query_params q)
      ≡ (if listed k presigned_query_params then none else lookup k q)
lookup-delete_all k q = lookup-delete_keys presigned_query_params k q
