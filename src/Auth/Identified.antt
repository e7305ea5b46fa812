-- ===== src/Auth/Identified.antt =====
-- Attach of internal/auth/middleware.go: who a request is taken for.
use stowage.Base.{
  Fallible, ok, err, ℕ, ◌/◌, ◌≤◌, ◌≡◌, refl, subst, ◌⊎◌, inl, inr, Option, some, arith,
  Option-cases, Str,
}
use stowage.Base.Dict.{lookup}
use stowage.Base.Dict.{lookup}
use stowage.Auth.{
  Session, Identity, CacheEntry, IdentityCache, Hit, is_fresh, cache_get, SessionManager,
  SessionError, resolve, admit, attach,
}
use stowage.Auth.Resolved.{refreshed, resolve-ok}

-- what the cache must hold for a request to be taken for id
unfoldable pub IsCached : Str → ℕ → Identity → IdentityCache → Type 0
IsCached cookie now id c =
    (e : CacheEntry) × (lookup cookie c.entries ≡ some e)
    × (now ≤ e.cache_expires)
    × (now ≤ e.session_expiry)
    × (e.id ≡ id)

-- what the store must hold
unfoldable pub IsStored : (Session → Option Identity) → Str → ℕ → Identity → SessionManager → Type 0
IsStored resolver cookie now id m =
    (t : Session) × (lookup cookie m.store ≡ some t)
    × (now ≤ t.expires_at)
    × (resolver (refreshed now m t) ≡ some id)

cache_get-IsCached :
    (cookie : Str) (now idle_half : ℕ) (c : IdentityCache) (h : Hit)
    → (cache_get cookie now idle_half c).1 ≡ some h
    → IsCached cookie now h.id c
unfolding cache_get is_fresh IsCached
cache_get-IsCached cookie now idle_half c h is = elim (Option-cases (lookup cookie c.entries)) [
  | inl missing ↦ ground (arith, missing, is)
  | inr (e, found) ↦
      (e, found, ground (arith, found, is), ground (arith, found, is), ground (arith, found, is))
]

admit-IsStored :
    (resolver : Session → Option Identity) (cookie : Str) (now : ℕ) (m : SessionManager)
    (id : Identity) (r : Fallible SessionError Session) (m' : SessionManager)
    → (resolve cookie now m).2 ≡ r
    → (admit resolver now r m').1 ≡ some id
    → IsStored resolver cookie now id m
unfolding admit IsStored
admit-IsStored resolver cookie now m id (err e) m' is out = ground (arith, out)
admit-IsStored resolver cookie now m id (ok s) m' is out =
    let (t, found, live, same) = resolve-ok cookie now m s is in
    let given : resolver s ≡ some id = ground (arith, out, Option-cases (resolver s)) in
    (t, found, live, subst (λ x. resolver x ≡ some id) same given)

-- A request is taken for someone only by an entry of the cache under its cookie that says so, in its
-- window and before the session's expiry, or by a stored session under its cookie that has not
-- expired, where they are the resolver's answer to it as the sliding refresh leaves it.
pub attach-identified :
    (resolver : Session → Option Identity) (cookie : Str) (now : ℕ) (m : SessionManager)
    (id : Identity)
    → (attach resolver cookie now m).1 ≡ some id
    → IsCached cookie now id m.cache ⊎ IsStored resolver cookie now id m
unfolding attach IsStored refreshed
attach-identified resolver cookie now m id is =
    let got = cache_get cookie now (m.idle_timeout / 2) m.cache in
    let m' : SessionManager = record m { cache = got.0 } in
    let r = resolve cookie now m' in
    elim (Option-cases got.1) [
      | inl miss ↦
          inr (admit-IsStored resolver cookie now m' id r.2 r.0 refl (ground (arith, miss, is)))
      | inr (h, hit) ↦ inl (
          subst (λ i. IsCached cookie now i m.cache) (ground (arith, hit, is))
            (cache_get-IsCached cookie now (m.idle_timeout / 2) m.cache h hit))
    ]
