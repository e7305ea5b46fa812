-- ===== src/Shares.antt =====
-- internal/shares/shares.go over the share queries of internal/store/sqlstore/shares.go: creating,
-- looking up, resolving, counting and revoking public links. The table is a dictionary by its primary
-- key `id`; a statement either succeeds or fails as the query says, and a driver failure is not
-- modelled. Times are numbers of nanoseconds. The backend, the password hash and the random source
-- are the fields of `World`.
pub mod Gates
pub mod Owners
pub mod Downloads
mod Examples
use stowage.Base.{
  Fallible, ok, err, ℕ, zero, suc, ◌+◌, ◌-◌, ◌*◌, ◌/◌, ◌%◌, ◌^◌, ◌≤◌, ◌<◌, ◌≡◌, refl, sym, ap,
  subst, ◌∙◌, ◌≢◌, ◌↔◌, ◌⊎◌, inl, inr, Bool, true, false, not, ◌&&◌, ◌||◌, Option, none, some, List,
  [], ◌∷◌, ◌++◌, map, arith, ltb, leb, ◌==◌, if◌then◌else◌, ltb→lt, lt→ltb, leb→le, ==_iff,
  Bool-cases, Option-cases, length, take, drop, length-append, take-append-drop, take-length,
  drop-length, length-take, length-drop, all, any, keep, All, Str, codes, str_eq, str_eq_self,
  str_eq_sound, str_eq_iff, cut-append, cut_sound, has_prefix, trim_byte, cut, lower_byte, to_lower,
  equal_fold, is_space, trim_left, trim_right, trim_space, is_newline,
}
use stowage.Base.Dict.{
  Dict, lookup, insert, delete, has, map_values, lookup-insert, lookup-delete, dict_laws,
  lookup-map_values-some, lookup-map_values-none,
}
use stowage.Base.Int64.{modulus, sign_bit, add64, lt64, lt64-small, add64-small}

pub record Share : Type 0 where
  pub id : Str
  pub code : Str
  pub backend_id : Str
  pub bucket : Str
  pub key : Str
  pub created_by : Str
  pub created_at : ℕ
  pub expires_at : Option ℕ
  pub password_hash : Str
  pub max_downloads : Option ℕ
  pub download_count : ℕ
  pub revoked : Bool
  pub revoked_at : Option ℕ
  pub last_accessed_at : Option ℕ
  pub disposition : Str

abbrev pub Store : Type 0
Store = Dict Share

pub data Failure : Type 0 where
  not_found revoked expired exhausted password_required : Failure
  password_mismatch backend_gone invalid_params code_taken other : Failure

abbrev pub Result {ℓ} : Type ℓ → Type ℓ
Result A = Fallible Failure A

pub record World : Type 0 where
  -- Registry.Get finds the backend
  pub has_backend : Str → Bool
  -- HeadObject succeeds on a backend, bucket and key
  pub head_object : Str → Str → Str → Bool
  -- auth.HashPassword and auth.VerifyPassword
  pub hash_password : Str → Option Str
  pub verify_password : Str → Str → Bool

-- `GetShareByID` and `GetShareByCode`
abbrev pub get_share_by_id : Str → Store → Option Share
get_share_by_id id db = lookup id db

unfoldable pub get_share_by_code : Str → Store → Option Share
get_share_by_code code [] = none
get_share_by_code code ((id, sh) ∷ db) =
    if str_eq sh.code code then some sh else get_share_by_code code db

abbrev pub is_some {ℓ} : {A : Type ℓ} → Option A → Bool
is_some none = false
is_some (some a) = true

-- `InsertShare`: the key and the code are unique, and the counter and the flags start at their zero
unfoldable pub insert_share : Share → Store → Result Store
insert_share sh db =
    if is_some (get_share_by_id sh.id db) || is_some (get_share_by_code sh.code db)
    then err code_taken
    else ok (
        insert sh.id
          (record sh {
            download_count = 0;
            revoked = false;
            revoked_at = none;
            last_accessed_at = none;
          })
          db)

-- `RevokeShare`
unfoldable pub revoke_share : Str → ℕ → Store → Result Store
revoke_share id at db = elim (get_share_by_id id db) [
  | none ↦ err not_found
  | some sh ↦ ok (insert id (record sh { revoked = true; revoked_at = some at }) db)
]

-- `expires_at IS NULL OR expires_at > ?`
abbrev pub is_open : Option ℕ → ℕ → Bool
is_open none at = true
is_open (some e) at = ltb at e

-- `max_downloads IS NULL OR download_count < max_downloads`
abbrev pub has_room : Option ℕ → ℕ → Bool
has_room none n = true
has_room (some m) n = ltb n m

-- `IncrementShareAccess`
unfoldable pub increment_share_access : Str → ℕ → Store → Result Store
increment_share_access id at db = elim (get_share_by_id id db) [
  | none ↦ err not_found
  | some sh ↦
      if not sh.revoked && has_room sh.max_downloads sh.download_count && is_open sh.expires_at at
      then ok (
          insert id
            (record sh { download_count = sh.download_count + 1; last_accessed_at = some at }) db)
      else err not_found
]

pub record CreateParams : Type 0 where
  pub backend_id : Str
  pub bucket : Str
  pub key : Str
  pub expires_at : Option ℕ
  pub password : Str
  -- an int64, by its bit pattern
  pub max_downloads : ℕ
  pub disposition : Str

abbrev pub is_empty : Str → Bool
is_empty [] = true
is_empty (c ∷ s) = false

-- `CreateParams.validate`
unfoldable pub validate : CreateParams → ℕ → Bool
validate p now =
    if is_empty p.backend_id || is_empty p.bucket || is_empty p.key
    then false
    else if not (is_open p.expires_at now)
    then false
    else if lt64 p.max_downloads 0
    then false
    else is_empty p.disposition
      || str_eq p.disposition (codes "attachment")
      || str_eq p.disposition (codes "inline")

-- the hash that `Create` stores
unfoldable pub password_hash_for : World → Str → Option Str
password_hash_for w [] = some []
password_hash_for w (c ∷ password) = w.hash_password (c ∷ password)

unfoldable pub new_share : Str → Str → CreateParams → ℕ → Str → Share
new_share id created_by p now hash = record {
  id = id;
  code = [];
  backend_id = p.backend_id;
  bucket = p.bucket;
  key = p.key;
  created_by = created_by;
  created_at = now;
  expires_at = p.expires_at;
  password_hash = hash;
  max_downloads = if lt64 0 p.max_downloads then some p.max_downloads else none;
  download_count = 0;
  revoked = false;
  revoked_at = none;
  last_accessed_at = none;
  disposition = if is_empty p.disposition then codes "attachment" else p.disposition;
}

-- the loop that mints a code; each attempt draws the next of the candidates, `none` where the random
-- source fails
unfoldable pub insert_with_code : List (Option Str) → Share → Store → Result (Share × Store)
insert_with_code [] sh db = err other
insert_with_code (none ∷ candidates) sh db = err other
insert_with_code (some code ∷ candidates) sh db =
    let rest = insert_with_code candidates sh db in
    elim (insert_share (record sh { code = code }) db) [
      | ok stored ↦ ok (record sh { code = code }, stored)
      | err code_taken ↦ rest
      | err e ↦ err e
    ]

abbrev pub max_attempts : ℕ
max_attempts = 5

-- `Create`, with the new id and the candidates for a code
unfoldable pub create :
    World → ℕ → Str → Str → List (Option Str) → CreateParams → Store → Result (Share × Store)
create w now created_by id candidates p db =
    if not (validate p now)
    then err invalid_params
    else if not (w.has_backend p.backend_id)
    then err backend_gone
    else if not (w.head_object p.backend_id p.bucket p.key)
    then err invalid_params
    else elim (password_hash_for w p.password) [
      | none ↦ err other
      | some hash ↦
          insert_with_code (take max_attempts candidates) (new_share id created_by p now hash) db
    ]

-- `Lookup`: every gate but the password
unfoldable pub lookup_share : ℕ → Str → Store → Result Share
lookup_share now code db = elim (get_share_by_code code db) [
  | none ↦ err not_found
  | some sh ↦
      if sh.revoked
      then err revoked
      else if not (is_open sh.expires_at now)
      then err expired
      else if not (has_room sh.max_downloads sh.download_count)
      then err exhausted
      else ok sh
]

unfoldable pub resolve : World → ℕ → Str → Str → Store → Result Share
resolve w now code password db = elim (lookup_share now code db) [
  | err e ↦ err e
  | ok sh ↦
      if is_empty sh.password_hash
      then ok sh
      else if is_empty password
      then err password_required
      else if not (w.verify_password password sh.password_hash)
      then err password_mismatch
      else ok sh
]

abbrev pub record_access : ℕ → Str → Store → Result Store
record_access now id db = increment_share_access id now db

unfoldable pub revoke : ℕ → Str → Str → Str → Store → Result Store
revoke now acting_user_id acting_role share_id db = elim (get_share_by_id share_id db) [
  | none ↦ err not_found
  | some sh ↦
      if not (str_eq acting_role (codes "admin")) && not (str_eq sh.created_by acting_user_id)
      then err not_found
      else if sh.revoked
      then ok db
      else revoke_share share_id now db
]
