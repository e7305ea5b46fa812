-- ===== src/Auth/Raced.antt =====
-- Attach against a Revoke that comes between its look at the session and its entry in the cache.
use stowage.Base.{
  ok, ℕ, ◌+◌, ◌/◌, ◌≤◌, ◌≡◌, refl, ◌∙◌, ◌≢◌, false, ◌&&◌, Option, some, arith, ltb, Bool-cases,
  Option-cases, Str, str_eq_self,
}
use stowage.Base.Dict.{lookup, lookup-insert}
use stowage.Base.Dict.{lookup, lookup-insert}
use stowage.Auth.{
  Session, Identity, CacheEntry, IdentityCache, Hit, is_fresh, cache_get, cache_put, invalidate,
  SessionManager, persist_touch, resolve, revoke, admit, attach,
}
use stowage.Proxy.Route.{null}

cache_get-cache_put :
    (sid : Str) (id : Identity) (expiry seen now later idle_half : ℕ) (c : IdentityCache)
    → c.ttl ≢ 0
    → later ≤ now + c.ttl
    → later ≤ expiry
    → (h : Hit) × ((cache_get sid later idle_half (cache_put sid id expiry seen now c)).1 ≡ some h)
      × (h.id ≡ id)
unfolding cache_get cache_put is_fresh
cache_get-cache_put sid id expiry seen now later idle_half c ttl cached live =
    let e : CacheEntry = record {
      id = id;
      cached_at = now;
      cache_expires = now + c.ttl;
      session_expiry = expiry;
      last_seen = seen;
    } in
    let found = lookup-insert sid sid e c.entries in
    let touches = ltb 0 idle_half && ltb (seen + idle_half) later in
    (
      record { id = id; session_expiry = expiry; should_touch = touches },
      ground (arith, found, str_eq_self sid, ttl, cached, live, Bool-cases touches),
      refl,
    )

admit-attach :
    (resolver resolver' : Session → Option Identity) (now later : ℕ) (m : SessionManager)
    (s : Session) (id : Identity)
    → null s.id ≡ false
    → resolver s ≡ some id
    → m.cache.ttl ≢ 0
    → later ≤ now + m.cache.ttl
    → later ≤ s.expires_at
    → (attach resolver' s.id later (admit resolver now (ok s) m).0).1 ≡ some id
unfolding attach admit
admit-attach resolver resolver' now later m s id given known ttl cached live =
    let (h, hit, is) =
      cache_get-cache_put s.id id s.expires_at s.last_seen_at now later (m.idle_timeout / 2) m.cache
        ttl cached live in
    ground (arith, known, given, hit, is)

resolve-ttl :
    (cookie : Str) (now : ℕ) (m : SessionManager) → (resolve cookie now m).0.cache.ttl ≡ m.cache.ttl
unfolding resolve persist_touch invalidate
resolve-ttl cookie now m =
    ground (arith, Option-cases (lookup cookie m.store), Option-cases m.touch)

revoke-ttl : (sid : Str) (m : SessionManager) → (revoke sid m).cache.ttl ≡ m.cache.ttl
unfolding revoke invalidate
revoke-ttl sid m = ground arith

-- Where a session is revoked after a request has resolved it and before the request caches the
-- identity, later requests with the session's cookie are still given that identity, as long as the
-- cache keeps it and the session would have lasted.
pub attach-raced :
    (resolver resolver' : Session → Option Identity) (now later : ℕ) (m : SessionManager)
    (s : Session) (id : Identity)
    → null s.id ≡ false
    → (resolve s.id now m).2 ≡ ok s
    → resolver s ≡ some id
    → m.cache.ttl ≢ 0
    → later ≤ now + m.cache.ttl
    → later ≤ s.expires_at
    → let r = resolve s.id now m in
      (attach resolver' s.id later (admit resolver now r.2 (revoke s.id r.0)).0).1 ≡ some id
attach-raced resolver resolver' now later m s id given is known ttl cached live =
    let m' = revoke s.id (resolve s.id now m).0 in
    let kept_ttl : m'.cache.ttl ≡ m.cache.ttl =
      revoke-ttl s.id (resolve s.id now m).0 ∙ resolve-ttl s.id now m in
    rw is (
      admit-attach resolver resolver' now later m' s id given known (ground (arith, kept_ttl, ttl))
        (ground (arith, kept_ttl, cached)) live)
