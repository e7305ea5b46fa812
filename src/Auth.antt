-- ===== src/Auth.antt =====
-- internal/auth: sessions (session.go), the identity cache (cache.go), the touch batcher (touch.go),
-- the middleware (middleware.go, csrf.go), and the session statements of
-- internal/store/sqlstore/sessions.go. Times are numbers. A nil cache is one whose TTL is 0, and
-- tokens from the random source are arguments. Each call is one step, except that `Raced` puts a
-- Revoke between the two halves of Attach, resolve and admit. `State` has the tables and what is
-- done to each, `Stored` and `Resolved` the lemmas on the session table and on Resolve, `Entries`
-- those on every entry of a table, and `Calls` the sequences of calls. `Touches` is about the
-- batcher, `Quiet` and `Revoked` about the end of a session, `Identified` about who a request is
-- taken for; `Hashes` and `Accounts` are about users.
mod State
pub mod Stored
pub mod Resolved
pub mod Calls
pub mod Entries
pub mod Touches
pub mod Quiet
pub mod Revoked
pub mod Raced
pub mod Identified
pub mod Hashes
pub mod Accounts
mod Examples
use stowage.Base.{
  Fallible, Fallible-cases, ok, err, ◌>>=◌, ◌>>◌, guard, or_fail, ℕ, zero, suc, ◌+◌, ◌-◌, ◌*◌, ◌/◌,
  ◌%◌, ◌^◌, ◌≤◌, ◌<◌, ◌≡◌, refl, sym, ap, subst, ◌∙◌, ◌≢◌, ◌↔◌, ◌⊎◌, inl, inr, Bool, true, false,
  not, ◌&&◌, ◌||◌, Option, none, some, List, [], ◌∷◌, ◌++◌, map, arith, ltb, leb, ◌==◌,
  if◌then◌else◌, ltb→lt, lt→ltb, leb→le, ==_iff, Bool-cases, Option-cases, length, take, drop,
  length-append, take-append-drop, take-length, drop-length, length-take, length-drop, all, any,
  keep, All, Str, codes, str_eq, str_eq_self, str_eq_sound, str_eq_iff, cut-append, cut_sound,
  has_prefix, trim_byte, cut, lower_byte, to_lower, equal_fold, is_space, trim_left, trim_right,
  trim_space, is_newline,
}
use stowage.Base.Dict.{
  Dict, lookup, insert, delete, has, map_values, lookup-insert, lookup-delete, dict_laws,
  lookup-map_values-some, lookup-map_values-none,
}
use stowage.Base.Int64.{modulus, sign_bit, add64, lt64, lt64-small, add64-small}
use stowage.Proxy.Route.{Method, get, head, options, null}
pub use stowage.Auth.State.{Session, Store, Identity, CacheEntry, IdentityCache, Hit, TouchEntry}
unfoldable pub use stowage.Auth.State.{
  touch_session, create_session, keep_entries, delete_user_sessions, purge_expired_sessions,
  clear_must_change, is_fresh, cache_get, cache_put, invalidate, invalidate_user, reap, enqueue,
  write_all,
}

pub record SessionManager : Type 0 where
  pub lifetime : ℕ
  pub idle_timeout : ℕ
  pub store : Store
  pub cache : IdentityCache
  -- the pending touches, where there is a batcher
  pub touch : Option (Dict TouchEntry)

-- `flush`
unfoldable pub flush : SessionManager → SessionManager
flush m = elim m.touch [
  | none ↦ m
  | some batch ↦ record m { touch = some []; store = write_all batch m.store }
]

-- `persistTouch`
unfoldable pub persist_touch : Str → ℕ → ℕ → SessionManager → SessionManager
persist_touch sid now expires_at m = elim m.touch [
  | none ↦ record m { store = touch_session sid now expires_at m.store }
  | some pending ↦ record m { touch = some (enqueue sid now expires_at pending) }
]

pub data SessionError : Type 0 where
  no_session session_expired : SessionError

-- What happens to the client's cookies.
pub data Cookies : Type 0 where
  kept cleared : Cookies
  written : Session → Cookies

-- `Resolve`
unfoldable pub resolve :
    Str → ℕ → SessionManager → SessionManager × Cookies × Fallible SessionError Session
resolve cookie now m = elim (lookup cookie m.store) [
  | none ↦ (m, kept, err no_session)
  | some sess ↦
      let gone = record m { store = delete sess.id m.store; cache = invalidate sess.id m.cache } in
      let fresh = record sess { last_seen_at = now; expires_at = now + m.lifetime } in
      if null cookie
      then (m, kept, err no_session)
      else if ltb sess.expires_at now
      then (gone, cleared, err session_expired)
      else if ltb (sess.last_seen_at + m.idle_timeout / 2) now
      then (persist_touch sess.id now (now + m.lifetime) m, written fresh, ok fresh)
      else (m, kept, ok sess)
]

-- `Revoke`
unfoldable pub revoke : Str → SessionManager → SessionManager
revoke sid m =
    if null sid then m else record m { store = delete sid m.store; cache = invalidate sid m.cache }

-- `Issue`, with the tokens and the client's data as arguments; none where the insert fails
unfoldable pub issue :
    Str → Str → Str → Str → Str → Str → ℕ → ℕ → SessionManager → Option (SessionManager × Session)
issue sid csrf user source ip agent flags now m =
    let sess : Session = record {
      id = sid;
      user_id = user;
      identity_source = source;
      csrf_token = csrf;
      ip = ip;
      user_agent = agent;
      flags = flags;
      created_at = now;
      last_seen_at = now;
      expires_at = now + m.lifetime;
    } in
    elim (create_session sess m.store) [
      | none ↦ none
      | some store ↦ some (record m { store = store }, sess)
    ]

-- The end of `Attach`, once the session is resolved: the identity is asked for and cached, or the
-- session revoked. The argument is the Resolver.
unfoldable pub admit :
    (Session → Option Identity)
    → ℕ
    → Fallible SessionError Session
    → SessionManager
    → SessionManager × Option Identity
admit resolver now r m = elim r [
  | err e ↦ (m, none)
  | ok sess ↦ elim (resolver sess) [
    | none ↦ (revoke sess.id m, none)
    | some id ↦ (
      record m { cache = cache_put sess.id id sess.expires_at sess.last_seen_at now m.cache },
      some id,
    )
  ]
]

-- `Attach`: the identity that the request is given
unfoldable pub attach :
    (Session → Option Identity) → Str → ℕ → SessionManager → SessionManager × Option Identity
attach resolver cookie now m =
    let got = cache_get cookie now (m.idle_timeout / 2) m.cache in
    let m' = record m { cache = got.0 } in
    let resolved = resolve cookie now m' in
    let slow = admit resolver now resolved.2 resolved.0 in
    let found : SessionManager × Option Identity = elim got.1 [
      | none ↦ slow
      | some h ↦
          (if h.should_touch then persist_touch cookie now (now + m.lifetime) m' else m', some h.id)
    ] in
    if null cookie then (m, none) else found

-- `CSRF`: whether the request goes on
unfoldable pub csrf_passes : Method → Option Identity → Str → Bool
csrf_passes method id token = elim method [
  | get ↦ true
  | head ↦ true
  | options ↦ true
  | _ ↦ elim id [ none ↦ true | some i ↦ not (null token) && str_eq token i.csrf_token ]
]

pub data Gate : Type 0 where
  pass rejected : Gate

-- `Require` and `RequireRole`
unfoldable pub require : Option Identity → Gate
require id = elim id [ none ↦ rejected | some i ↦ pass ]

unfoldable pub require_role : List Str → Option Identity → Gate
require_role roles id = elim id [
  | none ↦ rejected
  | some i ↦ if any (str_eq i.role) roles then pass else rejected
]
