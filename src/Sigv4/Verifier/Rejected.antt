-- ===== src/Sigv4/Verifier/Rejected.antt =====
-- The errors of internal/sigv4verifier/verifier.go.
use stowage.Base.{
  Fallible-cases, ok, err, ◌≡◌, refl, sym, ◌≢◌, ◌⊎◌, inl, inr, List, [], ◌∷◌, arith, Str,
  str_eq_iff,
}
use stowage.Sigv4.Verifier.{
  AuthError, signature_mismatch, World, Request, Cache, signing_key, HeaderAuth, parse_field,
  parse_fields, parse_header_auth, Attempt, header_attempt, presigned_attempt, signature_with,
  settle, attempt, verify,
}
use stowage.Sigv4.Verifier.Accepted.{verify-settle}

abbrev Signs : World → Cache → Attempt → Type 0
Signs w cache a = a.signature ≡ signature_with w a (signing_key w cache a.secret a.scope).1

parse_field-early : (a : HeaderAuth) (p : Str) → parse_field a p ≢ err signature_mismatch
unfolding parse_field
parse_field-early a p h = grind arith

parse_fields-early : (a : HeaderAuth) (ps : List Str) → parse_fields a ps ≢ err signature_mismatch
unfolding parse_fields
parse_fields-early a [] h = cc
parse_fields-early a (p ∷ ps) h = elim (Fallible-cases (parse_field a p)) [
  | inl (b, e) ↦ parse_fields-early b ps (ground (arith, e))
  | inr (f, e) ↦ parse_field-early a p (ground (arith, e))
]

parse_header_auth-early : (h : Str) → parse_header_auth h ≢ err signature_mismatch
unfolding parse_header_auth
parse_header_auth-early h e = grind (arith, parse_fields-early)

header_attempt-early : (w : World) (r : Request) → header_attempt w r ≢ err signature_mismatch
unfolding header_attempt
header_attempt-early w r h = grind (arith, parse_header_auth-early)

presigned_attempt-early : (w : World) (r : Request) → presigned_attempt w r ≢ err signature_mismatch
unfolding presigned_attempt
presigned_attempt-early w r h = grind arith

attempt-early : (w : World) (r : Request) → attempt w r ≢ err signature_mismatch
unfolding attempt
attempt-early w r h = ground (arith, header_attempt-early w r, presigned_attempt-early w r)

settle-error :
    (w : World) (cache : Cache) (a : Attempt) (e : AuthError)
    → (settle w cache a).1 ≡ err e
    → (e ≡ signature_mismatch) × ¬ Signs w cache a
unfolding settle
settle-error w cache a e h =
    ground
      (arith, str_eq_iff a.signature (signature_with w a (signing_key w cache a.secret a.scope).1))

verify-refused :
    (w : World) (cache : Cache) (r : Request) (e : AuthError)
    → attempt w r ≡ err e
    → verify w cache r ≡ (cache, err e)
unfolding verify
verify-refused w cache r e h = rw (h, verify) refl

-- A request is refused in one of two ways. Either it gets as far as its signature, this is not the
-- one that the signing key gives, and the error is ErrSignatureMismatch; or an earlier check fails,
-- the error is that check's, never ErrSignatureMismatch, and no signing key is looked up or cached.
pub verify-error :
    (w : World) (cache : Cache) (r : Request) (e : AuthError)
    → (verify w cache r).1 ≡ err e
    → ((e ≡ signature_mismatch) × ((a : Attempt) × (attempt w r ≡ ok a) × ¬ Signs w cache a))
      ⊎ ((e ≢ signature_mismatch) × (attempt w r ≡ err e) × ((verify w cache r).0 ≡ cache))
verify-error w cache r e h = elim (Fallible-cases (attempt w r)) [
  | inl (a, ea) ↦
      let (mismatch, differs) =
        settle-error w cache a e (rw (sym (verify-settle w cache r a ea)) h) in
      inl (mismatch, (a, ea, differs))
  | inr (f, ef) ↦
      let refused = verify-refused w cache r f ef in
      let same : f ≡ e = ground (arith, refused) in
      inr
        (λ m. attempt-early w r (rw (sym m) (rw (sym same) ef)), rw (sym same) ef, rw refused refl)
]
