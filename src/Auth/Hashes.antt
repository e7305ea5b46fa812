-- ===== src/Auth/Hashes.antt =====
-- internal/auth/password.go. The argon2 package, the base64 decoder and fmt's scanner are the record
-- `Hashing`.
use stowage.Base.{
  ℕ, Bool, false, not, ◌&&◌, Option, none, some, List, [], ◌∷◌, ◌++◌, ltb, ◌==◌, length, Str, codes,
  str_eq,
}
use stowage.Base.Http.{itoa}
use stowage.Sigv4.Canonical.{split}

pub record Hashing : Type 0 where
  pub version : ℕ
  pub scan_version : Str → Option ℕ
  pub scan_params : Str → Option (ℕ × ℕ × ℕ)
  pub encode64 : Str → Str
  pub decode64 : Str → Option Str
  -- IDKey: password, salt, time, memory, threads and the key's length
  pub id_key : Str → Str → ℕ → ℕ → ℕ → ℕ → Str

-- the comparison that ends `VerifyPassword`
unfoldable pub matches_hash : Hashing → Str → Option Str → Option Str → ℕ × ℕ × ℕ → Bool
matches_hash h password (some salt) (some want) (mem, time, par) =
    str_eq want (h.id_key password salt time mem par (length want))
matches_hash h password _ _ params = false

-- the two fmt.Sscanf calls of `VerifyPassword`
unfoldable pub version_matches : Hashing → Str → Bool
version_matches h version = elim (h.scan_version version) [ none ↦ false | some v ↦ v == h.version ]

unfoldable pub params_match : Hashing → Str → Str → Str → Str → Bool
params_match h password params salt sum = elim (h.scan_params params) [
  | none ↦ false
  | some p ↦ matches_hash h password (h.decode64 salt) (h.decode64 sum) p
]

-- `VerifyPassword` on the parts of the hash
unfoldable pub verify_parts : Hashing → Str → List Str → Bool
verify_parts h password (empty ∷ kind ∷ version ∷ params ∷ salt ∷ sum ∷ []) =
    str_eq kind (codes "argon2id")
    && version_matches h version
    && params_match h password params salt sum
verify_parts h password _ = false

-- `VerifyPassword`: whether it gives nil
unfoldable pub verify_password : Hashing → Str → Str → Bool
verify_password h password encoded = verify_parts h password (split b'$' encoded)

-- `HashPassword`, with the salt that is drawn
unfoldable pub hash_password : Hashing → Str → Str → Str
hash_password h salt password =
    codes "$argon2id$v="
    ++ itoa h.version
    ++ codes "$m=65536,t=3,p=2$"
    ++ h.encode64 salt
    ++ codes "$"
    ++ h.encode64 (h.id_key password salt 3 65536 2 32)

pub record PasswordPolicy : Type 0 where
  pub min_length : ℕ
  pub prevent_reuse : Bool

-- `Check`: whether it gives nil
unfoldable pub check_policy : PasswordPolicy → Str → Bool
check_policy p password = not (ltb 0 p.min_length && ltb (length password) p.min_length)
