-- ===== src/Sigv4/Verifier/Accepted.antt =====
-- Which requests internal/sigv4verifier/verifier.go lets pass.
use stowage.Base.Int64.{sign_bit}
use stowage.Base.{
  ◌<◌, ◌⊎◌, Fallible-cases, ok, ◌+◌, ◌*◌, ◌≤◌, ◌≡◌, refl, sym, ◌∙◌, ◌↔◌, inl, inr, true, false,
  some, List, [], arith, if◌then◌else◌, Bool-cases, Str, codes, str_eq_iff,
}
use stowage.Base.Dict.{delete}
use stowage.Sigv4.Canonical.{Values, canonical_request}
use stowage.Sigv4.Chunked.{hex_encode}
use stowage.Sigv4.Verifier.{
  World, Request, Result, skew, second, is_skewed, Scope, Cache, load, derive_signing_key,
  signing_key, clone_header_with_host, string_to_sign, Attempt, header_attempt, presigned_attempt,
  signature_with, result_of, settle, is_presigned, attempt, verify, max_expires,
}
use stowage.Sigv4.Verifier.Skew.{is_skewed_iff, header_attempt-plain, presigned_attempt-lifetime}
use stowage.Sigv4.Verifier.SigningKeys.{IsDerived, signing_key-IsDerived}

-- the query that the signature covers
unfoldable pub signed_query : Request → Values
signed_query r = if is_presigned r then delete (codes "X-Amz-Signature") r.query else r.query

-- the canonical request that the signature covers
unfoldable pub signed_request : Request → List Str → Str → Str
signed_request r = canonical_request r.method r.path (signed_query r) (clone_header_with_host r)

-- What holds of an attempt that gets as far as its signature.
unfoldable pub IsReady : World → Request → Attempt → Type 0
IsReady w r a =
    (w.resolve a.scope.akid ≡ some a.secret)
    × (is_skewed w a.req_time ≡ false)
    × (a.presigned ≡ is_presigned r)
    × (a.canonical ≡ signed_request r a.signed_headers a.payload_hash)

header_attempt-IsReady :
    (w : World) (r : Request) (a : Attempt)
    → is_presigned r ≡ false
    → header_attempt w r ≡ ok a
    → IsReady w r a
unfolding header_attempt IsReady signed_request signed_query
header_attempt-IsReady w r a p h = grind arith

presigned_attempt-IsReady :
    (w : World) (r : Request) (a : Attempt)
    → is_presigned r ≡ true
    → presigned_attempt w r ≡ ok a
    → IsReady w r a
unfolding presigned_attempt IsReady signed_request signed_query
presigned_attempt-IsReady w r a p h = grind arith

attempt-IsReady : (w : World) (r : Request) (a : Attempt) → attempt w r ≡ ok a → IsReady w r a
unfolding attempt
attempt-IsReady w r a h = elim (Bool-cases (is_presigned r)) [
  | inl p ↦ presigned_attempt-IsReady w r a p (ground arith)
  | inr p ↦ header_attempt-IsReady w r a p (ground arith)
]

pub verify-attempt :
    (w : World) (cache cache' : Cache) (r : Request) (res : Result)
    → verify w cache r ≡ (cache', ok res)
    → (a : Attempt) × (attempt w r ≡ ok a) × (settle w cache a ≡ (cache', ok res))
unfolding verify
verify-attempt w cache cache' r res h = elim (Fallible-cases (attempt w r)) [
  | inl (a, e) ↦ (a, e, ground arith)
  | inr (e, f) ↦ absurd (ground arith)
]

pub verify-settle :
    (w : World) (cache : Cache) (r : Request) (a : Attempt)
    → attempt w r ≡ ok a
    → verify w cache r ≡ settle w cache a
unfolding verify
verify-settle w cache r a h = rw (h, verify) refl

settle-ok :
    (w : World) (cache cache' : Cache) (a : Attempt) (res : Result)
    → settle w cache a ≡ (cache', ok res)
    → (a.signature ≡ signature_with w a (signing_key w cache a.secret a.scope).1)
      × (cache' ≡ (signing_key w cache a.secret a.scope).0)
      × (res
          ≡ result_of a
              (signing_key w cache a.secret a.scope).1
              (signature_with w a (signing_key w cache a.secret a.scope).1))
unfolding settle
settle-ok w cache cache' a res h =
    ground
      (arith, str_eq_iff a.signature (signature_with w a (signing_key w cache a.secret a.scope).1))

-- What the text that a request's signature covers says, and the signature a secret gives to it.
unfoldable pub expected_signature : World → Request → Scope → Result → Str → Str
expected_signature w r scope res secret =
    let canonical = signed_request r res.signed_headers res.payload_hash in
    let text = string_to_sign w res.date res.region res.service canonical in
    hex_encode (w.crypto.hmac_sha256 (derive_signing_key w.crypto secret scope) text)

signature_with-expected :
    (w : World) (r : Request) (a : Attempt) (key sig s : Str)
    → IsReady w r a
    → key ≡ derive_signing_key w.crypto s a.scope
    → signature_with w a key ≡ expected_signature w r a.scope (result_of a key sig) s
unfolding signature_with expected_signature result_of IsReady
signature_with-expected w r a key sig s ready e = rw (e, ready.3) refl

-- If the cached keys were derived for their scopes, a request passes only if its access key
-- is known, its time passes the clock check, and its signature is the one that the canonical
-- request gets under a key derived, for the scope it names, from a secret with the same
-- fingerprint as the known one. The cache stays as it should be.
pub verify_sound :
    (w : World) (cache cache' : Cache) (r : Request) (res : Result)
    → IsDerived w cache
    → verify w cache r ≡ (cache', ok res)
    → IsDerived w cache'
      × (is_skewed w res.date ≡ false)
      × ((a : Attempt) × (s : Str) × (attempt w r ≡ ok a)
          × (res.access_key_id ≡ a.scope.akid)
          × (w.resolve res.access_key_id ≡ some a.secret)
          × (w.fnv64a s ≡ w.fnv64a a.secret)
          × (a.signature ≡ expected_signature w r a.scope res s))
unfolding IsReady result_of
verify_sound w cache cache' r res d h =
    let (a, e, f) = verify-attempt w cache cache' r res h in
    let (sig, c, eq) = settle-ok w cache cache' a res f in
    let (d', (s, fp, key)) = signing_key-IsDerived w cache a.secret a.scope d in
    let ready = attempt-IsReady w r a e in
    let expected = signature_with-expected w r a _ (signature_with w a _) s ready key in
    rw (c, eq) (d', ready.1, (a, s, e, refl, ready.0, fp, sig ∙ expected))

settle-signed :
    (w : World) (cache : Cache) (a : Attempt)
    → a.signature ≡ signature_with w a (signing_key w cache a.secret a.scope).1
    → (cache' : Cache) × (res : Result) × (settle w cache a ≡ (cache', ok res))
unfolding settle
settle-signed w cache a e = rw ((str_eq_iff a.signature _).1 e, settle) (_, _, refl)

-- With no key cached, a request that gets as far as its signature passes exactly if this is the one
-- that the key derived from the resolved secret gives.
pub verify-fresh_iff :
    (w : World) (r : Request) (a : Attempt)
    → attempt w r ≡ ok a
    → ((cache' : Cache) × (res : Result) × (verify w [] r ≡ (cache', ok res)))
      ↔ (a.signature ≡ signature_with w a (derive_signing_key w.crypto a.secret a.scope))
unfolding signing_key load
verify-fresh_iff w r a h = (
  λ m. (settle-ok w [] m.0 a m.1 (sym (verify-settle w [] r a h) ∙ m.2)).0,
  λ e. rw (verify-settle w [] r a h) (settle-signed w [] a e),
)

-- A presigned URL passes only if it asks for a lifetime of one second to seven days, is not past its
-- date by more than that, and is dated within the allowed skew of the clock, before or after it, or
-- 2 ^ 63 nanoseconds or more ahead of it. The allowed skew is below 2 ^ 63 - 1 nanoseconds.
pub verify-lifetime :
    (w : World) (cache cache' : Cache) (r : Request) (res : Result)
    → skew w + 1 < sign_bit
    → verify w cache r ≡ (cache', ok res)
    → res.presigned ≡ true
    → (second ≤ res.expires)
      × (res.expires ≤ max_expires * second)
      × (w.now 1 ≤ res.date + res.expires)
      × (((res.date ≤ w.now 0 + skew w) × (w.now 0 ≤ res.date + skew w))
          ⊎ (w.now 0 + sign_bit ≤ res.date))
unfolding attempt result_of IsReady
verify-lifetime w cache cache' r res small h p =
    let (a, e, f) = verify-attempt w cache cache' r res h in
    let (sig, c, eq) = settle-ok w cache cache' a res f in
    let lasting : (second ≤ res.expires)
        × (res.expires ≤ max_expires * second)
        × (w.now 1 ≤ res.date + res.expires) =
      ground (arith, presigned_attempt-lifetime w r a, header_attempt-plain w r a) in
    let unskewed : is_skewed w res.date ≡ false = ground (arith, eq, attempt-IsReady w r a e) in
    (lasting.0, lasting.1, lasting.2, (is_skewed_iff w res.date small).0 unskewed)
