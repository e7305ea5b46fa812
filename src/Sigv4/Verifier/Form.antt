-- ===== src/Sigv4/Verifier/Form.antt =====
-- `VerifyPolicy` of internal/sigv4verifier/postpolicy.go: which signed forms pass.
use stowage.Base.{
  Fallible-cases, ok, err, ℕ, ◌≡◌, refl, sym, ◌∙◌, inl, inr, false, some, arith, Str, str_eq_sound,
  str_eq_iff, to_lower,
}
use stowage.Sigv4.Chunked.{hex_encode}
use stowage.Sigv4.Verifier.{
  AuthError, World, is_skewed, Scope, Cache, derive_signing_key, signing_key, credential_scope,
  PolicyAuth, PolicyResult, policy_attempt, verify_policy,
}
use stowage.Sigv4.Verifier.SigningKeys.{IsDerived, signing_key-IsDerived}

policy_attempt-checks :
    (w : World) (auth : PolicyAuth) (k : Scope) (t : ℕ) (secret : Str)
    → policy_attempt w auth ≡ ok (k, t, secret)
    → (credential_scope auth.credential ≡ some k)
      × (w.resolve k.akid ≡ some secret)
      × (is_skewed w t ≡ false)
      × (w.format_day t ≡ k.date)
unfolding policy_attempt
policy_attempt-checks w auth k t secret h = grind (arith, str_eq_sound)

pub verify_policy-refused :
    (w : World) (cache : Cache) (auth : PolicyAuth) (e : AuthError)
    → policy_attempt w auth ≡ err e
    → verify_policy w cache auth ≡ (cache, err e)
unfolding verify_policy
verify_policy-refused w cache auth e h = rw (h, verify_policy) refl

verify_policy-signed :
    (w : World) (cache cache' : Cache) (auth : PolicyAuth) (res : PolicyResult) (k : Scope) (t : ℕ)
    (secret : Str)
    → policy_attempt w auth ≡ ok (k, t, secret)
    → verify_policy w cache auth ≡ (cache', ok res)
    → (cache' ≡ (signing_key w cache secret k).0)
      × (res ≡ record { access_key_id = k.akid; region = k.region; service = k.service; date = t })
      × (hex_encode (w.crypto.hmac_sha256 (signing_key w cache secret k).1 auth.policy)
          ≡ to_lower auth.signature)
unfolding verify_policy
verify_policy-signed w cache cache' auth res k t secret e h =
    let sig = hex_encode (w.crypto.hmac_sha256 (signing_key w cache secret k).1 auth.policy) in
    ground (arith, str_eq_iff sig (to_lower auth.signature))

-- If the cached keys were derived for their scopes, a form passes only if its access key is known,
-- its time passes the clock check, the day of its credential is that of its time, and its
-- signature is that of the encoded policy under a key derived, for the scope it names, from a
-- secret with the same fingerprint as the known one. The cache stays as it should be.
pub verify_policy_sound :
    (w : World) (cache cache' : Cache) (auth : PolicyAuth) (res : PolicyResult)
    → IsDerived w cache
    → verify_policy w cache auth ≡ (cache', ok res)
    → IsDerived w cache'
      × (is_skewed w res.date ≡ false)
      × ((k : Scope) × (secret s : Str) × (credential_scope auth.credential ≡ some k)
          × (res.access_key_id ≡ k.akid)
          × (w.resolve res.access_key_id ≡ some secret)
          × (w.format_day res.date ≡ k.date)
          × (w.fnv64a s ≡ w.fnv64a secret)
          × (to_lower auth.signature
              ≡ hex_encode (w.crypto.hmac_sha256 (derive_signing_key w.crypto s k) auth.policy)))
verify_policy_sound w cache cache' auth res d h = elim (Fallible-cases (policy_attempt w auth)) [
  | inr (e, f) ↦ absurd (ground (arith, verify_policy-refused w cache auth e f))
  | inl ((k, t, secret), e) ↦
      let (c, r, sig) = verify_policy-signed w cache cache' auth res k t secret e h in
      let (d', (s, fp, key)) = signing_key-IsDerived w cache secret k d in
      let (scope, known, time, day) = policy_attempt-checks w auth k t secret e in
      rw (c, r) (d', time, (k, secret, s, scope, refl, known, day, fp, sym sig ∙ rw key refl))
]
