-- ===== src/Auth/Accounts/Others.antt =====
-- What stands under one cookie, as long as it is not a user's: the calls of internal/auth one by one.
use stowage.Base.{
  Fallible, ok, err, ℕ, ◌+◌, ◌≡◌, refl, ◌≢◌, ◌⊎◌, inl, inr, Option, some, arith, ◌==◌, Bool-cases,
  Option-cases, Str,
}
use stowage.Base.Dict.{Dict, lookup}
use stowage.Base.Dict.{Dict, lookup}
use stowage.Auth.{
  Session, Identity, CacheEntry, IdentityCache, cache_get, cache_put, invalidate, SessionManager,
  flush, persist_touch, SessionError, resolve, revoke, admit,
}
use stowage.Proxy.Route.{null}
use stowage.Auth.Accounts.{User, StaticUser, static_user_id, resolve_identity}
use stowage.Auth.Entries.{
  Each, lookup-Each, insert-Each, delete-Each, touch_session-Each, write_all-Each,
}

-- every account stands under its own id
unfoldable pub AccountsKeyed : Dict User → Type 0
AccountsKeyed users = (k : Str) (u : User) → lookup k users ≡ some u → u.id ≡ k

-- ResolveIdentity on accounts as they may stand at the time
unfoldable pub IsResolver : (Session → Option Identity) → Type 0
IsResolver f =
    (users : Dict User) × (static : Option StaticUser) × AccountsKeyed users
    × (f ≡ resolve_identity users static)

-- no new session of the user has the cookie's id
abbrev pub Elsewhere : Str → Str → Str → Str → Type 0
Elsewhere cookie user id owner = (id ≢ cookie) ⊎ (owner ≢ user)

pub resolve_identity-user :
    (users : Dict User) (static : Option StaticUser) (s : Session) (id : Identity)
    → AccountsKeyed users
    → resolve_identity users static s ≡ some id
    → (id.user_id ≡ static_user_id) ⊎ (id.user_id ≡ s.user_id)
unfolding resolve_identity AccountsKeyed
resolve_identity-user users static s id keyed is = elim (Option-cases (lookup s.user_id users)) [
  | inl missing ↦ ground (arith, missing, is, Option-cases static)
  | inr (u, found) ↦ ground (arith, found, keyed s.user_id u found, is, Option-cases static)
]

module _ (cookie user : Str) where
  unfoldable pub OtherSession : Str → Session → Type 0
  OtherSession k s = (s.id ≡ k) × (k ≡ cookie → s.user_id ≢ user)

  unfoldable pub OtherEntry : Str → CacheEntry → Type 0
  OtherEntry k e = k ≡ cookie → e.id.user_id ≢ user

  -- neither the session nor the cached identity under the cookie is the user's
  unfoldable pub IsOthers : SessionManager → Type 0
  IsOthers m = Each OtherSession m.store × Each OtherEntry m.cache.entries

  abbrev pub OtherCache : IdentityCache → Type 0
  OtherCache c = Each OtherEntry c.entries

  pub OtherSession-timeless :
      (k : Str) (s : Session) (now expiry : ℕ)
      → OtherSession k s
      → OtherSession k (record s { last_seen_at = now; expires_at = expiry })
  unfolding OtherSession
  OtherSession-timeless k s now expiry h = h

  pub persist_touch-IsOthers :
      (id : Str) (now expiry : ℕ) (m : SessionManager)
      → IsOthers m
      → IsOthers (persist_touch id now expiry m)
  unfolding persist_touch IsOthers
  persist_touch-IsOthers id now expiry m h = elim (Option-cases m.touch) [
    | inl off ↦
        rw (off, persist_touch)
          (touch_session-Each OtherSession OtherSession-timeless id now expiry m.store h.0, h.1)
    | inr (pending, on) ↦ rw (on, persist_touch) h
  ]

  pub revoke-IsOthers : (id : Str) (m : SessionManager) → IsOthers m → IsOthers (revoke id m)
  unfolding revoke invalidate IsOthers
  revoke-IsOthers id m h = elim (Bool-cases (null id)) [
    | inl empty ↦ rw (empty, revoke) h
    | inr given ↦
        rw (given, revoke)
          (delete-Each OtherSession id m.store h.0, delete-Each OtherEntry id m.cache.entries h.1)
  ]

  pub flush-IsOthers : (m : SessionManager) → IsOthers m → IsOthers (flush m)
  unfolding flush IsOthers
  flush-IsOthers m h = elim (Option-cases m.touch) [
    | inl off ↦ rw (off, flush) h
    | inr (batch, on) ↦
        rw (on, flush) (write_all-Each OtherSession OtherSession-timeless batch m.store h.0, h.1)
  ]

  pub resolve-IsOthers :
      (key : Str) (now : ℕ) (m : SessionManager) → IsOthers m → IsOthers (resolve key now m).0
  unfolding resolve invalidate IsOthers
  resolve-IsOthers key now m h = elim (Option-cases (lookup key m.store)) [
    | inl absent ↦ rw (absent, resolve) h
    | inr (t, found) ↦ ground (
      arith,
      found,
      h,
      delete-Each OtherSession t.id m.store h.0,
      delete-Each OtherEntry t.id m.cache.entries h.1,
      persist_touch-IsOthers t.id now (now + m.lifetime) m h,
    )
  ]

  pub cache_put-OtherCache :
      (key : Str) (id : Identity) (expiry seen now : ℕ) (c : IdentityCache)
      → (key ≡ cookie → id.user_id ≢ user)
      → OtherCache c
      → OtherCache (cache_put key id expiry seen now c)
  unfolding cache_put OtherEntry
  cache_put-OtherCache key id expiry seen now c other h = elim (Bool-cases (c.ttl == 0)) [
    | inl off ↦ rw (off, cache_put) h
    | inr on ↦ rw (on, cache_put) (insert-Each OtherEntry key _ c.entries other h)
  ]

  pub cache_get-OtherCache :
      (key : Str) (now idle_half : ℕ) (c : IdentityCache)
      → OtherCache c
      → OtherCache (cache_get key now idle_half c).0
  unfolding cache_get OtherEntry
  cache_get-OtherCache key now idle_half c h = elim (Option-cases (lookup key c.entries)) [
    | inl missing ↦ rw (missing, cache_get) h
    | inr (e, found) ↦
        let seen : CacheEntry = record e { last_seen = now } in
        ground (
          arith,
          found,
          h,
          insert-Each OtherEntry key seen c.entries (lookup-Each OtherEntry key c.entries e h found)
              h,
        )
  ]

  pub admit-IsOthers :
      (f : Session → Option Identity) (now : ℕ) (r : Fallible SessionError Session)
      (m : SessionManager)
      → IsOthers m
      → ((s : Session) (id : Identity)
          → r ≡ ok s
          → f s ≡ some id
          → s.id ≡ cookie
          → id.user_id ≢ user)
      → IsOthers (admit f now r m).0
  unfolding admit IsOthers
  admit-IsOthers f now (err e) m h other = h
  admit-IsOthers f now (ok s) m h other = elim (Option-cases (f s)) [
    | inl refused ↦ rw (refused, admit) (revoke-IsOthers s.id m h)
    | inr (id, given) ↦
        rw (given, admit)
          (
            h.0,
            cache_put-OtherCache s.id id s.expires_at s.last_seen_at now m.cache
                (λ at. other s id refl given at) h.1,
          )
  ]
