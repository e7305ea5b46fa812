-- ===== src/Sigv4/Verifier/SigningKeys.antt =====
-- The cache of derived signing keys of internal/sigv4verifier/verifier.go.
use stowage.Base.{
  ◌≡◌, refl, inl, inr, true, some, [], ◌∷◌, arith, ◌==◌, Bool-cases, Option-cases, Str,
  str_eq_sound,
}
use stowage.Sigv4.Verifier.{
  World, Scope, SigningKeyEntry, Cache, scope_eq, load, derive_signing_key, signing_key,
}

-- Each cached key was derived for its scope from some secret with the entry's fingerprint.
unfoldable pub IsDerived : World → Cache → Type 0
IsDerived w [] = Unit
IsDerived w ((k, e) ∷ cache) =
    ((secret : Str) × (e.fp ≡ w.fnv64a secret) × (e.key ≡ derive_signing_key w.crypto secret k))
    × IsDerived w cache

scope_eq_sound : (a b : Scope) → scope_eq a b ≡ true → a ≡ b
unfolding scope_eq
scope_eq_sound a b h = ground (
  arith,
  str_eq_sound a.akid b.akid,
  str_eq_sound a.date b.date,
  str_eq_sound a.region b.region,
  str_eq_sound a.service b.service,
)

load-IsDerived :
    (w : World) (k : Scope) (cache : Cache) (e : SigningKeyEntry)
    → IsDerived w cache
    → load k cache ≡ some e
    → (secret : Str) × (e.fp ≡ w.fnv64a secret) × (e.key ≡ derive_signing_key w.crypto secret k)
unfolding load IsDerived
load-IsDerived w k [] e d h = cc
load-IsDerived w k ((j, f) ∷ cache) e d h = elim (Bool-cases (scope_eq j k)) [
  | inl t ↦
      let (secret, fp, key) = d.0 in (secret, ground arith, cc (key, scope_eq_sound j k t, h, t))
  | inr t ↦ load-IsDerived w k cache e d.1 (ground arith)
]

-- The key that is used for a scope is derived for it from a secret with the fingerprint of the
-- resolved one, and the cache keeps its invariant, that every cached key was derived for its
-- scope from a secret with the entry's fingerprint.
pub signing_key-IsDerived :
    (w : World) (cache : Cache) (secret : Str) (k : Scope)
    → IsDerived w cache
    → IsDerived w (signing_key w cache secret k).0
      × ((s : Str) × (w.fnv64a s ≡ w.fnv64a secret)
          × ((signing_key w cache secret k).1 ≡ derive_signing_key w.crypto s k))
unfolding signing_key IsDerived
signing_key-IsDerived w cache secret k d = elim (Option-cases (load k cache)) [
  | inl e ↦ rw (e, signing_key) (((secret, refl, refl), d), (secret, refl, refl))
  | inr (f, e) ↦ elim (Bool-cases (f.fp == w.fnv64a secret)) [
    | inl t ↦
        let (s, fp, key) = load-IsDerived w k cache f d e in
        rw (e, signing_key) (rw t (d, (s, ground arith, key)))
    | inr t ↦ rw (e, signing_key) (rw t (((secret, refl, refl), d), (secret, refl, refl)))
  ]
]
