-- ===== src/Auth/Quiet.antt =====
-- States that do not know a session, and the calls on them: what each call preserves.
use stowage.Base.{
  ap, Fallible, ok, err, ℕ, ◌+◌, ◌/◌, ◌≡◌, refl, sym, subst, ◌∙◌, ◌≢◌, inl, inr, Option, none, some,
  arith, Option-cases, Str, str_eq_iff,
}
use stowage.Base.Dict.{lookup, lookup-insert, lookup-delete}
use stowage.Base.Dict.{lookup, lookup-insert, lookup-delete}
use stowage.Auth.{
  Session, create_session, Identity, IdentityCache, cache_get, cache_put, invalidate,
  SessionManager, flush, persist_touch, SessionError, resolve, revoke, issue, admit, attach,
}
use stowage.Auth.Stored.{
  IsKeyed, lookup-IsKeyed, insert-IsKeyed, delete-IsKeyed, touch_session-IsKeyed, write_all-IsKeyed,
  touch_session-none, write_all-none,
}
use stowage.Auth.Resolved.{resolve-ok, refreshed-id}

unfoldable pub Keyed : SessionManager → Type 0
Keyed m = IsKeyed m.store

-- neither the store nor the cache knows the session
unfoldable pub IsGone : Str → SessionManager → Type 0
IsGone sid m = (lookup sid m.store ≡ none) × (lookup sid m.cache.entries ≡ none)

unfoldable pub IsQuiet : Str → SessionManager → Type 0
IsQuiet sid m = Keyed m × IsGone sid m

pub persist_touch-IsQuiet :
    (sid id : Str) (now expiry : ℕ) (m : SessionManager)
    → IsQuiet sid m
    → IsQuiet sid (persist_touch id now expiry m)
unfolding persist_touch IsQuiet Keyed IsGone
persist_touch-IsQuiet sid id now expiry m q = ground (
  arith,
  q,
  Option-cases m.touch,
  touch_session-IsKeyed id now expiry m.store,
  touch_session-none sid id now expiry m.store,
)

pub revoke-IsQuiet : (sid id : Str) (m : SessionManager) → IsQuiet sid m → IsQuiet sid (revoke id m)
unfolding revoke invalidate IsQuiet Keyed IsGone
revoke-IsQuiet sid id m q = ground (
  arith,
  q,
  delete-IsKeyed id m.store,
  lookup-delete id sid m.store,
  lookup-delete id sid m.cache.entries,
)

pub flush-IsQuiet : (sid : Str) (m : SessionManager) → IsQuiet sid m → IsQuiet sid (flush m)
unfolding flush IsQuiet Keyed IsGone
flush-IsQuiet sid m q = elim (Option-cases m.touch) [
  | inl off ↦ ground (arith, off, q)
  | inr (batch, on) ↦
      ground (arith, on, q, write_all-IsKeyed batch m.store, write_all-none sid batch m.store)
]

pub resolve-IsQuiet :
    (sid cookie : Str) (now : ℕ) (m : SessionManager)
    → IsQuiet sid m
    → IsQuiet sid (resolve cookie now m).0
unfolding resolve IsQuiet Keyed IsGone invalidate
resolve-IsQuiet sid cookie now m q = elim (Option-cases (lookup cookie m.store)) [
  | inl absent ↦ ground (arith, absent, q)
  | inr (t, found) ↦ ground (
    arith,
    found,
    q,
    delete-IsKeyed t.id m.store,
    lookup-delete t.id sid m.store,
    lookup-delete t.id sid m.cache.entries,
    persist_touch-IsQuiet sid t.id now (now + m.lifetime) m q,
  )
]

-- what Resolve finds is not the session that is gone
resolve-other :
    (sid cookie : Str) (now : ℕ) (m : SessionManager)
    → IsQuiet sid m
    → (s : Session) → (resolve cookie now m).2 ≡ ok s
    → s.id ≢ sid
unfolding IsQuiet Keyed IsGone
resolve-other sid cookie now m q s is same =
    let (t, found, live, same_session) = resolve-ok cookie now m s is in
    let id = ap (λ (x : Session). x.id) same_session ∙ (refreshed-id now m t).0 in
    let under : t.id ≡ cookie = lookup-IsKeyed cookie m.store t q.0 found in
    let it : cookie ≡ sid = sym under ∙ sym id ∙ same in
    ground (arith, subst (λ k. lookup k m.store ≡ some t) it found, q)

cache_put-none :
    (sid key : Str) (id : Identity) (expiry seen now : ℕ) (c : IdentityCache)
    → key ≢ sid
    → lookup sid c.entries ≡ none
    → lookup sid (cache_put key id expiry seen now c).entries ≡ none
unfolding cache_put
cache_put-none sid key id expiry seen now c ne absent = ground (
  arith,
  absent,
  ne,
  str_eq_iff key sid,
  lookup-insert key sid
      (record {
        id = id;
        cached_at = now;
        cache_expires = now + c.ttl;
        session_expiry = expiry;
        last_seen = seen;
      })
      c.entries,
)

pub admit-IsQuiet :
    (sid : Str) (resolver : Session → Option Identity) (now : ℕ) (r : Fallible SessionError Session)
    (m : SessionManager)
    → IsQuiet sid m
    → ((s : Session) → r ≡ ok s → s.id ≢ sid)
    → IsQuiet sid (admit resolver now r m).0
unfolding admit IsQuiet Keyed IsGone
admit-IsQuiet sid resolver now (err e) m q other = q
admit-IsQuiet sid resolver now (ok s) m q other = elim (Option-cases (resolver s)) [
  | inl refused ↦ ground (arith, refused, revoke-IsQuiet sid s.id m q)
  | inr (id, given) ↦ ground (
    arith,
    given,
    q,
    cache_put-none sid s.id id s.expires_at s.last_seen_at now m.cache (other s refl) q.1.1,
  )
]

cache_get-none :
    (sid key : Str) (now idle_half : ℕ) (c : IdentityCache)
    → lookup sid c.entries ≡ none
    → lookup sid (cache_get key now idle_half c).0.entries ≡ none
unfolding cache_get
cache_get-none sid key now idle_half c absent = elim (Option-cases (lookup key c.entries)) [
  | inl missing ↦ ground (arith, missing, absent)
  | inr (e, found) ↦ ground (
    arith,
    found,
    absent,
    str_eq_iff key sid,
    lookup-insert key sid (record e { last_seen = now }) c.entries,
  )
]

pub attach-IsQuiet :
    (resolver : Session → Option Identity) (sid cookie : Str) (now : ℕ) (m : SessionManager)
    → IsQuiet sid m
    → IsQuiet sid (attach resolver cookie now m).0
unfolding attach IsQuiet Keyed IsGone
attach-IsQuiet resolver sid cookie now m q =
    let got = cache_get cookie now (m.idle_timeout / 2) m.cache in
    let m' : SessionManager = record m { cache = got.0 } in
    let q' : IsQuiet sid m' =
      (q.0, (q.1.0, cache_get-none sid cookie now (m.idle_timeout / 2) m.cache q.1.1)) in
    let r = resolve cookie now m' in
    let other : (s : Session) → r.2 ≡ ok s → s.id ≢ sid = resolve-other sid cookie now m' q' in
    ground (
      arith,
      q,
      q',
      Option-cases got.1,
      persist_touch-IsQuiet sid cookie now (now + m.lifetime) m' q',
      admit-IsQuiet sid resolver now r.2 r.0 (resolve-IsQuiet sid cookie now m' q') other,
    )

pub issue-IsQuiet :
    (sid id csrf user source ip agent : Str) (flags now : ℕ) (m : SessionManager)
    (made : SessionManager × Session)
    → id ≢ sid
    → IsQuiet sid m
    → issue id csrf user source ip agent flags now m ≡ some made
    → IsQuiet sid made.0
unfolding issue create_session IsQuiet Keyed IsGone
issue-IsQuiet sid id csrf user source ip agent flags now m made ne q is =
    let fresh : Session = record {
      id = id;
      user_id = user;
      identity_source = source;
      csrf_token = csrf;
      ip = ip;
      user_agent = agent;
      flags = flags;
      created_at = now;
      last_seen_at = now;
      expires_at = now + m.lifetime;
    } in
    ground (
      arith,
      is,
      q,
      ne,
      str_eq_iff id sid,
      Option-cases (lookup id m.store),
      lookup-insert id sid fresh m.store,
      insert-IsKeyed fresh id m.store refl q.0,
    )
