-- ===== src/Auth/Accounts/Strangers.antt =====
-- No call of internal/auth gives what stands under a cookie to a user that it was not of.
use stowage.Base.{
  ok, ℕ, ◌+◌, ◌-◌, ◌/◌, ◌%◌, ◌≡◌, refl, sym, ap, ◌∙◌, ◌≢◌, inl, inr, Bool, not, ◌&&◌, ◌||◌, Option,
  some, arith, Bool-cases, Option-cases, Str, str_eq, str_eq_iff,
}
use stowage.Base.Dict.{lookup}
use stowage.Base.Dict.{lookup}
use stowage.Auth.{
  clear_must_change, Session, Store, create_session, keep_entries, delete_user_sessions,
  purge_expired_sessions, Identity, cache_get, invalidate_user, reap, SessionManager, resolve,
  issue, attach,
}
use stowage.Proxy.Route.{null}
use stowage.Auth.Accounts.{static_user_id, sign_out_others}
use stowage.Auth.Stored.{OwnId}
use stowage.Auth.Entries.{Each, lookup-Each, insert-Each, keep_entries-Each, Each-any}
use stowage.Auth.Resolved.{refreshed, resolve-ok, refreshed-id}
use stowage.Auth.Calls.{
  Step, attaches, issues, revokes, flushes, reaps, purges, deletes, clears, invalidates,
}
use stowage.Auth.Accounts.Others.{
  IsResolver, Elsewhere, resolve_identity-user, OtherSession, OtherEntry, IsOthers,
  persist_touch-IsOthers, revoke-IsOthers, flush-IsOthers, resolve-IsOthers, cache_get-OtherCache,
  admit-IsOthers,
}
use stowage.Auth.Identified.{IsCached, IsStored, attach-identified}

module _ (cookie user : Str) where
  -- whoever the resolver takes the session under the cookie for is not the user
  resolver-other :
      (f : Session → Option Identity) (key : Str) (now : ℕ) (m : SessionManager) (s : Session)
      (id : Identity)
      → user ≢ static_user_id
      → IsResolver f
      → (IsOthers cookie user) m
      → (resolve key now m).2 ≡ ok s
      → f s ≡ some id
      → s.id ≡ cookie
      → id.user_id ≢ user
  unfolding IsResolver IsOthers OtherSession
  resolver-other f key now m s id real (users, static, accounts, is) h found given at =
      let (t, stored, live, same) = resolve-ok key now m s found in
      let (own, other) = lookup-Each (OtherSession cookie user) key m.store t h.0 stored in
      let sid : s.id ≡ t.id = ap (λ (x : Session). x.id) same ∙ (refreshed-id now m t).0 in
      let of_user : s.user_id ≡ t.user_id =
        ap (λ (x : Session). x.user_id) same ∙ (refreshed-id now m t).1 in
      let stranger : t.user_id ≢ user = other (sym own ∙ sym sid ∙ at) in
      ground (
        arith,
        resolve_identity-user users static s id accounts (ap (λ g. g s) (sym is) ∙ given),
        of_user,
        stranger,
        real,
      )

  attach-IsOthers :
      (f : Session → Option Identity) (key : Str) (now : ℕ) (m : SessionManager)
      → user ≢ static_user_id
      → IsResolver f
      → (IsOthers cookie user) m
      → (IsOthers cookie user) (attach f key now m).0
  unfolding attach IsOthers
  attach-IsOthers f key now m real is h =
      let got = cache_get key now (m.idle_timeout / 2) m.cache in
      let m' : SessionManager = record m { cache = got.0 } in
      let h' : (IsOthers cookie user) m' =
        (h.0, cache_get-OtherCache cookie user key now (m.idle_timeout / 2) m.cache h.1) in
      let r = resolve key now m' in
      ground (
        arith,
        h,
        h',
        Option-cases got.1,
        persist_touch-IsOthers cookie user key now (now + m.lifetime) m' h',
        admit-IsOthers cookie user f now r.2 r.0 (resolve-IsOthers cookie user key now m' h')
            (λ s id found given at. resolver-other f key now m' s id real is h' found given at),
      )

  issue-IsOthers :
      (id csrf owner source ip agent : Str) (flags now : ℕ) (m : SessionManager)
      (made : SessionManager × Session)
      → Elsewhere cookie user id owner
      → (IsOthers cookie user) m
      → issue id csrf owner source ip agent flags now m ≡ some made
      → (IsOthers cookie user) made.0
  unfolding issue create_session IsOthers OtherSession
  issue-IsOthers id csrf owner source ip agent flags now m made away h is =
      let fresh : Session = record {
        id = id;
        user_id = owner;
        identity_source = source;
        csrf_token = csrf;
        ip = ip;
        user_agent = agent;
        flags = flags;
        created_at = now;
        last_seen_at = now;
        expires_at = now + m.lifetime;
      } in
      let other : (OtherSession cookie user) id fresh = (refl, λ at. ground (arith, away, at)) in
      ground (
        arith,
        is,
        h,
        Option-cases (lookup id m.store),
        insert-Each (OtherSession cookie user) id fresh m.store other h.0,
      )

  clear_must_change-Others :
      (id : Str) (store : Store)
      → Each (OtherSession cookie user) store
      → Each (OtherSession cookie user) (clear_must_change id store)
  unfolding clear_must_change OtherSession
  clear_must_change-Others id store h = elim (Option-cases (lookup id store)) [
    | inl absent ↦ rw (absent, clear_must_change) h
    | inr (s, found) ↦
        let cleared : Session = record s { flags = s.flags - s.flags % 2 } in
        rw (found, clear_must_change)
          (insert-Each (OtherSession cookie user) id cleared store
            (lookup-Each (OtherSession cookie user) id store s h found) h)
  ]

  pub Step-IsOthers :
      user ≢ static_user_id
      → (m m' : SessionManager) → Step IsResolver (Elsewhere cookie user) m m'
      → (IsOthers cookie user) m
      → (IsOthers cookie user) m'
  unfolding IsOthers reap purge_expired_sessions delete_user_sessions invalidate_user
  Step-IsOthers real _ _ (attaches f key now m is) h = attach-IsOthers f key now m real is h
  Step-IsOthers real _ _ (issues id csrf owner source ip agent flags now m made away is) h =
      issue-IsOthers id csrf owner source ip agent flags now m made away h is
  Step-IsOthers real _ _ (revokes id m) h = revoke-IsOthers cookie user id m h
  Step-IsOthers real _ _ (flushes m) h = flush-IsOthers cookie user m h
  Step-IsOthers real _ _ (reaps now m) h = (
    h.0,
    keep_entries-Each (OtherEntry cookie user) (OtherEntry cookie user) _ m.cache.entries
        (λ k e on p. p) h.1,
  )
  Step-IsOthers real _ _ (purges now m) h = (
    keep_entries-Each (OtherSession cookie user) (OtherSession cookie user) _ m.store
        (λ k s on p. p) h.0,
    h.1,
  )
  Step-IsOthers real _ _ (deletes owner keep_id m) h = (
    keep_entries-Each (OtherSession cookie user) (OtherSession cookie user) _ m.store
        (λ k s on p. p) h.0,
    h.1,
  )
  Step-IsOthers real _ _ (clears id m) h = (clear_must_change-Others id m.store h.0, h.1)
  Step-IsOthers real _ _ (invalidates owner m) h = (
    h.0,
    keep_entries-Each (OtherEntry cookie user) (OtherEntry cookie user) _ m.cache.entries
        (λ k e on p. p) h.1,
  )

  -- what the change of the user's password leaves
  pub sign_out_others-IsOthers :
      (keep_id : Str) (m : SessionManager)
      → cookie ≢ keep_id
      → Each OwnId m.store
      → (IsOthers cookie user) (sign_out_others user keep_id m)
  unfolding sign_out_others delete_user_sessions invalidate_user IsOthers OtherSession OtherEntry
  sign_out_others-IsOthers keep_id m other keyed =
      let p : Session → Bool =
        λ s. not (str_eq s.user_id user) || (not (null keep_id) && str_eq s.id keep_id) in
      let left : Each (OtherSession cookie user) (keep_entries p m.store) =
        keep_entries-Each OwnId (OtherSession cookie user) p m.store
          (λ k s on own. (
            own,
            λ at.
                ground
                  (arith, on, own, at, other, str_eq_iff s.user_id user, str_eq_iff s.id keep_id),
          ))
          keyed in
      (
        elim (Bool-cases (null keep_id)) [
          | inl empty ↦ ground (arith, empty, left)
          | inr given ↦
              ground (arith, given, clear_must_change-Others keep_id (keep_entries p m.store) left)
        ],
        keep_entries-Each (λ k e. Unit) (OtherEntry cookie user) _ m.cache.entries
            (λ k e on any at. ground (arith, on, str_eq_iff e.id.user_id user))
            (Each-any m.cache.entries),
      )

  pub attach-other :
      (f : Session → Option Identity) (now : ℕ) (m : SessionManager) (id : Identity)
      → user ≢ static_user_id
      → IsResolver f
      → (IsOthers cookie user) m
      → (attach f cookie now m).1 ≡ some id
      → id.user_id ≢ user
  unfolding IsOthers IsCached IsStored IsResolver OtherSession OtherEntry
  attach-other f now m id real is h out = elim (attach-identified f cookie now m id out) [
    | inl (e, found, fresh, live, same) ↦ ground (
      arith,
      ap (λ (i : Identity). i.user_id) same,
      lookup-Each (OtherEntry cookie user) cookie m.cache.entries e h.1 found,
    )
    | inr (t, found, live, given) ↦
        let (users, static, accounts, table) = is in
        ground (
          arith,
          (lookup-Each (OtherSession cookie user) cookie m.store t h.0 found).1 refl,
          (refreshed-id now m t).1,
          real,
          resolve_identity-user users static (refreshed now m t) id accounts
              (ap (λ g. g (refreshed now m t)) (sym table) ∙ given),
        )
  ]
