-- ===== src/Auth/Accounts.antt =====
-- internal/auth/service.go: identities, logins and passwords, with the statements of
-- internal/store/sqlstore/users.go that they use. The collation that user names are compared in is
-- an argument. Each statement on the database is carried out, and the statements of one call, which
-- the code runs one by one under no common lock, are one step. An account carries the columns that
-- these calls read. `Others`, `Strangers` and
-- `SignedOut` are about a change of password, `Lockout` about wrong passwords, and
-- `Passwords` about hashes.
pub mod Others
pub mod Strangers
pub mod SignedOut
pub mod Lockout
pub mod Passwords
use stowage.Base.{
  Fallible, Fallible-cases, ok, err, ◌>>=◌, ◌>>◌, guard, or_fail, ℕ, zero, suc, ◌+◌, ◌-◌, ◌*◌, ◌/◌,
  ◌%◌, ◌^◌, ◌≤◌, ◌<◌, ◌≡◌, refl, sym, ap, subst, ◌∙◌, ◌≢◌, ◌↔◌, ◌⊎◌, inl, inr, Bool, true, false,
  not, ◌&&◌, ◌||◌, Option, none, some, List, [], ◌∷◌, ◌++◌, map, arith, ltb, leb, ◌==◌,
  if◌then◌else◌, ltb→lt, lt→ltb, leb→le, ==_iff, Bool-cases, Option-cases, length, take, drop,
  length-append, take-append-drop, take-length, drop-length, length-take, length-drop, all, any,
  keep, All, Str, codes, str_eq, str_eq_self, str_eq_sound, str_eq_iff, cut-append, cut_sound,
  has_prefix, trim_byte, cut, lower_byte, to_lower, equal_fold, is_space, trim_left, trim_right,
  trim_space, is_newline,
}
use stowage.Base.Dict.{
  Dict, lookup, insert, delete, has, map_values, lookup-insert, lookup-delete, dict_laws,
  lookup-map_values-some, lookup-map_values-none,
}
use stowage.Base.Int64.{modulus, sign_bit, add64, lt64, lt64-small, add64-small}
use stowage.Base.Dict.{Dict, lookup, insert, delete, has, lookup-insert, lookup-delete}
use stowage.Auth.{
  clear_must_change, Session, Store, touch_session, create_session, keep_entries,
  delete_user_sessions, purge_expired_sessions, Identity, CacheEntry, IdentityCache, Hit, is_fresh,
  cache_get, cache_put, invalidate, invalidate_user, reap, TouchEntry, enqueue, write_all,
  SessionManager, flush, persist_touch, SessionError, no_session, session_expired, Cookies, kept,
  cleared, written, resolve, revoke, issue, admit, attach, csrf_passes, Gate, pass, rejected,
  require, require_role,
}
use stowage.Proxy.Route.{Method, get, head, options, null}
use stowage.Auth.Hashes.{
  Hashing, matches_hash, version_matches, params_match, verify_parts, verify_password,
  hash_password, PasswordPolicy, check_policy,
}

pub record User : Type 0 where
  pub id : Str
  pub username : Str
  pub password_hash : Str
  pub role : Str
  pub identity_source : Str
  pub enabled : Bool
  pub must_change_pw : Bool
  pub failed_attempts : ℕ
  pub locked_until : Option ℕ
  pub last_login_at : Option ℕ
  pub pw_changed_at : ℕ

pub record StaticUser : Type 0 where
  pub username : Str
  pub password_hash : Str

abbrev pub static_user_id : Str
static_user_id = codes "static"

abbrev pub source_local : Str
source_local = codes "local"

abbrev pub source_static : Str
source_static = codes "static"

pub record Service : Type 0 where
  pub sessions : SessionManager
  pub users : Dict User
  pub policy : PasswordPolicy
  pub max_attempts : ℕ
  pub window : ℕ
  pub static : Option StaticUser

-- `ResolveIdentity`
unfoldable pub resolve_identity : Dict User → Option StaticUser → Session → Option Identity
resolve_identity users static sess =
    let bare : Str → Str → Str → Bool → Identity = λ user name role synthetic. record {
      user_id = user;
      username = name;
      role = role;
      source = sess.identity_source;
      session_id = sess.id;
      csrf_token = sess.csrf_token;
      must_change_pw = sess.flags % 2 == 1;
      synthetic_user = synthetic;
    } in
    let as_static : Option Identity = elim static [
      | none ↦ none
      | some s ↦ some (bare static_user_id s.username (codes "admin") true)
    ] in
    let as_user : Option Identity = elim (lookup sess.user_id users) [
      | none ↦ none
      | some u ↦ if u.enabled then some (bare u.id u.username u.role false) else none
    ] in
    if str_eq sess.identity_source source_static then as_static else as_user

pub data LoginError : Type 0 where
  login_failed account_locked account_disabled : LoginError

pub record LoginResult : Type 0 where
  pub user_id : Str
  pub must_change_pw : Bool

-- `RecordLoginFailure`, on the row
unfoldable pub record_login_failure : ℕ → ℕ → ℕ → User → User
record_login_failure max_attempts window now u =
    let attempts = u.failed_attempts + 1 in
    record u {
      failed_attempts = attempts;
      locked_until = if leb max_attempts attempts then some (now + window) else none;
    }

-- `RecordLoginSuccess`, on the row
unfoldable pub record_login_success : ℕ → User → User
record_login_success now u = record u {
  last_login_at = some now;
  failed_attempts = 0;
  locked_until = none;
}

-- `SetPasswordHash`, on the row
unfoldable pub set_password_hash : Str → Bool → ℕ → User → User
set_password_hash hash must_change now u = record u {
  password_hash = hash;
  must_change_pw = must_change;
  pw_changed_at = now;
  failed_attempts = 0;
  locked_until = none;
}

-- whether the account is locked
unfoldable pub is_locked : ℕ → User → Bool
is_locked now u = elim u.locked_until [ none ↦ false | some until ↦ ltb now until ]

-- the defaults of `LoginLocal`: 5 attempts, 15 minutes in nanoseconds
unfoldable pub lockout_attempts : Service → ℕ
lockout_attempts s = if s.max_attempts == 0 then 5 else s.max_attempts

unfoldable pub lockout_window : Service → ℕ
lockout_window s = if s.window == 0 then 900000000000 else s.window

-- `GetUserByUsername`, in a collation
unfoldable pub find_username : (Str → Str → Bool) → Str → Dict User → Option User
find_username same name [] = none
find_username same name ((k, u) ∷ users) =
    if same u.username name then some u else find_username same name users

-- `LoginLocal`, for the account that the name is found to be
unfoldable pub login_user :
    Hashing → Str → ℕ → User → Service → Service × Fallible LoginError LoginResult
login_user h password now u s =
    let failed = record_login_failure (lockout_attempts s) (lockout_window s) now u in
    if not u.enabled
    then (s, err account_disabled)
    else if is_locked now u
    then (s, err account_locked)
    else if not (str_eq u.identity_source source_local)
    then (s, err login_failed)
    else if not (verify_password h password u.password_hash)
    then (record s { users = insert u.id failed s.users }, err login_failed)
    else (
      record s { users = insert u.id (record_login_success now u) s.users },
      ok (record { user_id = u.id; must_change_pw = u.must_change_pw }),
    )

-- `LoginLocal`
unfoldable pub login_local :
    (Str → Str → Bool)
    → Hashing
    → Str
    → Str
    → ℕ
    → Service
    → Service × Fallible LoginError LoginResult
login_local same h username password now s = elim (find_username same username s.users) [
  | none ↦ (s, err login_failed)
  | some u ↦ login_user h password now u s
]

-- `LoginStatic`: whether it gives nil
unfoldable pub login_static : Hashing → Str → Str → Service → Bool
login_static h username password s = elim s.static [
  | none ↦ false
  | some u ↦ str_eq username u.username && verify_password h password u.password_hash
]

-- what a new password does to the sessions: all of the user's go, but for the one that is kept
unfoldable pub sign_out_others : Str → Str → SessionManager → SessionManager
sign_out_others user keep_id m =
    let left = delete_user_sessions user keep_id m.store in
    record m {
      store = if null keep_id then left else clear_must_change keep_id left;
      cache = invalidate_user user m.cache;
    }

pub data PasswordError : Type 0 where
  no_user not_local wrong_password against_policy reused : PasswordError

-- the statements that end `ChangeOwnPassword` and `AdminResetPassword`
unfoldable pub store_password :
    Hashing
    → Str
    → Str
    → Str
    → Str
    → Bool
    → ℕ
    → Service
    → Service × Fallible PasswordError (Unit {0})
store_password h salt user keep_id newpw must_change now s = elim (lookup user s.users) [
  | none ↦ (s, err no_user)
  | some u ↦ (
    record s {
      users =
          insert user (set_password_hash (hash_password h salt newpw) must_change now u) s.users;
      sessions = sign_out_others user keep_id s.sessions;
    },
    ok tt,
  )
]

-- `AdminResetPassword`
unfoldable pub admin_reset_password :
    Hashing
    → Str
    → Str
    → Str
    → Str
    → Bool
    → ℕ
    → Service
    → Service × Fallible PasswordError (Unit {0})
admin_reset_password h salt user keep_id newpw must_change now s =
    if not (check_policy s.policy newpw)
    then (s, err against_policy)
    else store_password h salt user keep_id newpw must_change now s

-- `ChangeOwnPassword`
unfoldable pub change_own_password :
    Hashing
    → Str
    → Str
    → Str
    → Str
    → Str
    → ℕ
    → Service
    → Service × Fallible PasswordError (Unit {0})
change_own_password h salt user keep_id current newpw now s = elim (lookup user s.users) [
  | none ↦ (s, err no_user)
  | some u ↦
      if not (str_eq u.identity_source source_local)
      then (s, err not_local)
      else if not (verify_password h current u.password_hash)
      then (s, err wrong_password)
      else if not (check_policy s.policy newpw)
      then (s, err against_policy)
      else if s.policy.prevent_reuse && verify_password h newpw u.password_hash
      then (s, err reused)
      else store_password h salt user keep_id newpw false now s
]
