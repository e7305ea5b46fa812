-- ===== src/Auth/Accounts/Passwords.antt =====
-- HashPassword and VerifyPassword of internal/auth/password.go against each other.
use stowage.Auth.Hashes.{
  Hashing, hash_password, matches_hash, params_match, verify_parts, verify_password,
  version_matches,
}
use stowage.Base.{
  ℕ, ◌≡◌, refl, ap, ◌∙◌, ◌↔◌, true, some, List, [], ◌∷◌, ◌++◌, arith, length, all, Str, codes,
  str_eq_self, str_eq_iff,
}
use stowage.Sigv4.Canonical.{split}
use mathlib.Core.List.{append_assoc}
use stowage.Base.Http.{itoa_loop}
use stowage.Sigv4.Verifier.Fields.{split-at, split-clean, no_byte}

-- What HashPassword relies on: version 19 of argon2 gives keys of the length asked for, base64 text
-- has no dollar sign and reads back, and the scanner reads the numbers that the hash is printed
-- with.
pub record IsHashing (h : Hashing) : Type 0 where
  pub version : h.version ≡ 19
  pub scans_version : h.scan_version (codes "v=19") ≡ some 19
  pub scans_params : h.scan_params (codes "m=65536,t=3,p=2") ≡ some (65536, 3, 2)
  pub decodes : (s : Str) → h.decode64 (h.encode64 s) ≡ some s
  pub dollarless : (s : Str) → all (no_byte b'$') (h.encode64 s) ≡ true
  pub sized :
      (password salt : Str) (time mem par n : ℕ)
      → length (h.id_key password salt time mem par n) ≡ n

module _ (h : Hashing) (is : IsHashing h) (salt password : Str) where
  abbrev key : Str
  key = h.id_key password salt 3 65536 2 32

  split-hash_password :
      split b'$' (hash_password h salt password)
      ≡ []
        ∷ codes "argon2id"
        ∷ codes "v=19"
        ∷ codes "m=65536,t=3,p=2"
        ∷ h.encode64 salt
        ∷ h.encode64 key
        ∷ []
  unfolding hash_password itoa_loop
  split-hash_password =
      let text : Str = (h.encode64 salt ++ codes "$") ++ h.encode64 key in
      let last : split b'$' text ≡ h.encode64 salt ∷ h.encode64 key ∷ [] =
        ap (split b'$') (append_assoc (h.encode64 salt) (codes "$") (h.encode64 key))
        ∙ split-at b'$' (h.encode64 salt) (h.encode64 key) (is.dollarless salt)
        ∙ ap (λ (t : List Str). h.encode64 salt ∷ t)
            (split-clean b'$' (h.encode64 key) (is.dollarless key)) in
      rw is.version (
        split-at b'$' [] (codes "argon2id$v=19$m=65536,t=3,p=2$" ++ text) refl
        ∙ ap (λ (t : List Str). [] ∷ t)
            (split-at b'$' (codes "argon2id") (codes "v=19$m=65536,t=3,p=2$" ++ text) refl
              ∙ ap (λ (t : List Str). codes "argon2id" ∷ t)
                  (split-at b'$' (codes "v=19") (codes "m=65536,t=3,p=2$" ++ text) refl
                    ∙ ap (λ (t : List Str). codes "v=19" ∷ t)
                        (split-at b'$' (codes "m=65536,t=3,p=2") text refl
                          ∙ ap (λ (t : List Str). codes "m=65536,t=3,p=2" ∷ t) last))))

  -- A password verifies against its own hash, whatever the salt, and another password does exactly
  -- where argon2 gives it the same key under that salt, if argon2, base64 and fmt do as documented.
  pub verify_password-hash_password :
      (other : Str)
      → (verify_password h other (hash_password h salt password) ≡ true)
        ↔ (key ≡ h.id_key other salt 3 65536 2 32)
  unfolding verify_password verify_parts version_matches params_match matches_hash
  verify_password-hash_password other = rw split-hash_password (
      ground (
        arith,
        is.version,
        is.scans_version,
        is.scans_params,
        is.decodes salt,
        is.decodes key,
        is.sized password salt 3 65536 2 32,
        str_eq_iff key (h.id_key other salt 3 65536 2 32),
        str_eq_self (codes "argon2id"),
      ))
