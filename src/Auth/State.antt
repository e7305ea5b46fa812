-- ===== src/Auth/State.antt =====
-- The state of internal/auth: the session table with its statements in
-- internal/store/sqlstore/sessions.go, the identity cache of cache.go and the pending touches of
-- touch.go.
use stowage.Base.{
  ℕ, ◌+◌, ◌-◌, ◌%◌, Bool, true, false, not, ◌&&◌, ◌||◌, Option, none, some, [], ◌∷◌, ltb, leb, ◌==◌,
  if◌then◌else◌, Str, str_eq,
}
use stowage.Base.Dict.{Dict, lookup, insert, delete, has}
use stowage.Proxy.Route.{null}

pub record Session : Type 0 where
  pub id : Str
  pub user_id : Str
  pub identity_source : Str
  pub csrf_token : Str
  pub ip : Str
  pub user_agent : Str
  pub flags : ℕ
  pub created_at : ℕ
  pub last_seen_at : ℕ
  pub expires_at : ℕ

abbrev pub Store : Type 0
Store = Dict Session

-- `TouchSession`: UPDATE ... WHERE id = ?
unfoldable pub touch_session : Str → ℕ → ℕ → Store → Store
touch_session sid now expires_at store = elim (lookup sid store) [
  | none ↦ store
  | some sess ↦ insert sid (record sess { last_seen_at = now; expires_at = expires_at }) store
]

-- `CreateSession`, which fails on an id that is taken
unfoldable pub create_session : Session → Store → Option Store
create_session sess store = if has sess.id store then none else some (insert sess.id sess store)

-- the entries that pass a test, as the loops and the DELETE statements leave them
unfoldable pub keep_entries : {V : Type 0} → (V → Bool) → Dict V → Dict V
keep_entries p [] = []
keep_entries p ((k, v) ∷ m) = let rest = keep_entries p m in if p v then (k, v) ∷ rest else rest

-- `DeleteUserSessions`: the user's sessions go, but for one whose id is given
unfoldable pub delete_user_sessions : Str → Str → Store → Store
delete_user_sessions user keep_id =
    keep_entries (λ s. not (str_eq s.user_id user) || (not (null keep_id) && str_eq s.id keep_id))

-- `PurgeExpiredSessions`
unfoldable pub purge_expired_sessions : ℕ → Store → Store
purge_expired_sessions now = keep_entries (λ s. leb now s.expires_at)

-- `ClearSessionFlags` for FlagMustChangePW
unfoldable pub clear_must_change : Str → Store → Store
clear_must_change sid store = elim (lookup sid store) [
  | none ↦ store
  | some sess ↦ insert sid (record sess { flags = sess.flags - sess.flags % 2 }) store
]

pub record Identity : Type 0 where
  pub user_id : Str
  pub username : Str
  pub role : Str
  pub source : Str
  pub session_id : Str
  pub csrf_token : Str
  pub must_change_pw : Bool
  pub synthetic_user : Bool

pub record CacheEntry : Type 0 where
  pub id : Identity
  pub cached_at : ℕ
  pub cache_expires : ℕ
  pub session_expiry : ℕ
  pub last_seen : ℕ

pub record IdentityCache : Type 0 where
  pub ttl : ℕ
  pub entries : Dict CacheEntry

-- What a hit gives: the identity, the session's expiry, and whether to touch the session.
pub record Hit : Type 0 where
  pub id : Identity
  pub session_expiry : ℕ
  pub should_touch : Bool

unfoldable pub is_fresh : ℕ → CacheEntry → Bool
is_fresh now e = leb now e.cache_expires && leb now e.session_expiry

-- `IdentityCache.Get`
unfoldable pub cache_get : Str → ℕ → ℕ → IdentityCache → IdentityCache × Option Hit
cache_get sid now idle_half c = elim (lookup sid c.entries) [
  | none ↦ (c, none)
  | some e ↦
      let touches = ltb 0 idle_half && ltb (e.last_seen + idle_half) now in
      let hit : Bool → Option Hit =
        λ t. some (record { id = e.id; session_expiry = e.session_expiry; should_touch = t }) in
      if c.ttl == 0 || not (is_fresh now e)
      then (c, none)
      else if touches
      then (record c { entries = insert sid (record e { last_seen = now }) c.entries }, hit true)
      else (c, hit false)
]

-- `IdentityCache.Put`
unfoldable pub cache_put : Str → Identity → ℕ → ℕ → ℕ → IdentityCache → IdentityCache
cache_put sid id session_expiry last_seen now c = if c.ttl == 0 then c else record c {
  entries =
      insert sid
        (record {
          id = id;
          cached_at = now;
          cache_expires = now + c.ttl;
          session_expiry = session_expiry;
          last_seen = last_seen;
        })
        c.entries;
}

-- `Invalidate`
unfoldable pub invalidate : Str → IdentityCache → IdentityCache
invalidate sid c = record c { entries = delete sid c.entries }

-- `InvalidateUser`
unfoldable pub invalidate_user : Str → IdentityCache → IdentityCache
invalidate_user user c = record c {
  entries = keep_entries (λ e. not (str_eq e.id.user_id user)) c.entries;
}

-- `Reap`
unfoldable pub reap : ℕ → IdentityCache → IdentityCache
reap now c = record c { entries = keep_entries (is_fresh now) c.entries }

pub record TouchEntry : Type 0 where
  pub at : ℕ
  pub expires_at : ℕ

-- `TouchBatcher.Enqueue`
unfoldable pub enqueue : Str → ℕ → ℕ → Dict TouchEntry → Dict TouchEntry
enqueue sid now expires_at pending =
    insert sid (record { at = now; expires_at = expires_at }) pending

-- the loop of `flush`
unfoldable pub write_all : Dict TouchEntry → Store → Store
write_all [] store = store
write_all ((sid, e) ∷ batch) store = write_all batch (touch_session sid e.at e.expires_at store)
