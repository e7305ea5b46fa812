-- ===== src/Auth/Revoked.antt =====
-- The end of a session: Revoke and the requests that come after it.
use stowage.Base.{ℕ, ◌≡◌, ◌≢◌, false, Option, none, arith, leb, any, Str, str_eq_self}
use stowage.Base.Dict.{lookup-delete}
use stowage.Base.Dict.{lookup-delete}
use stowage.Auth.{
  Session, delete_user_sessions, purge_expired_sessions, Identity, is_fresh, cache_get, invalidate,
  invalidate_user, reap, SessionManager, resolve, revoke, admit, attach,
}
use stowage.Proxy.Route.{null}
use stowage.Auth.Stored.{
  keep_entries-IsKeyed, delete-IsKeyed, lookup-keep_entries-none, clear_must_change-IsKeyed,
  clear_must_change-none,
}
use stowage.Auth.Calls.{
  Step, attaches, issues, revokes, flushes, reaps, purges, deletes, clears, invalidates, Steps,
  Steps-keep,
}
use stowage.Auth.Quiet.{
  Keyed, IsGone, IsQuiet, attach-IsQuiet, issue-IsQuiet, revoke-IsQuiet, flush-IsQuiet,
}

-- no new session has the id
abbrev pub Anew : Str → Str → Str → Type 0
Anew sid id user = id ≢ sid

-- whatever the resolver says
abbrev pub AnyResolver : (Session → Option Identity) → Type 0
AnyResolver resolver = Unit

Step-IsQuiet :
    (sid : Str) (m m' : SessionManager)
    → Step AnyResolver (Anew sid) m m'
    → IsQuiet sid m
    → IsQuiet sid m'
unfolding IsQuiet Keyed IsGone reap purge_expired_sessions delete_user_sessions invalidate_user
Step-IsQuiet sid _ _ (attaches resolver cookie now m any) q =
    attach-IsQuiet resolver sid cookie now m q
Step-IsQuiet sid _ _ (issues id csrf user source ip agent flags now m made ne is) q =
    issue-IsQuiet sid id csrf user source ip agent flags now m made ne q is
Step-IsQuiet sid _ _ (revokes id m) q = revoke-IsQuiet sid id m q
Step-IsQuiet sid _ _ (flushes m) q = flush-IsQuiet sid m q
Step-IsQuiet sid _ _ (reaps now m) q =
    (q.0, (q.1.0, lookup-keep_entries-none sid (is_fresh now) m.cache.entries q.1.1))
Step-IsQuiet sid _ _ (purges now m) q = (
  keep_entries-IsKeyed (λ s. leb now s.expires_at) m.store q.0,
  (lookup-keep_entries-none sid (λ s. leb now s.expires_at) m.store q.1.0, q.1.1),
)
Step-IsQuiet sid _ _ (deletes user keep_id m) q =
    (keep_entries-IsKeyed _ m.store q.0, (lookup-keep_entries-none sid _ m.store q.1.0, q.1.1))
Step-IsQuiet sid _ _ (clears id m) q =
    (clear_must_change-IsKeyed id m.store q.0, (clear_must_change-none sid id m.store q.1.0, q.1.1))
Step-IsQuiet sid _ _ (invalidates user m) q =
    (q.0, (q.1.0, lookup-keep_entries-none sid _ m.cache.entries q.1.1))

attach-gone :
    (resolver : Session → Option Identity) (sid : Str) (now : ℕ) (m : SessionManager)
    → IsQuiet sid m
    → (attach resolver sid now m).1 ≡ none
unfolding attach cache_get resolve admit IsQuiet Keyed IsGone
attach-gone resolver sid now m q = ground (arith, q)

-- Once a session with an id is revoked, no sequence of calls makes a request with its cookie
-- anyone's, where each call ends before the next begins, every session stood under its own id when
-- it was revoked, and no new session is given that id.
pub attach-revoked :
    (sid : Str) (m m' : SessionManager) (resolver : Session → Option Identity) (now : ℕ)
    → null sid ≡ false
    → Keyed m
    → Steps AnyResolver (Anew sid) (revoke sid m) m'
    → (attach resolver sid now m').1 ≡ none
unfolding revoke invalidate IsQuiet Keyed IsGone
attach-revoked sid m m' resolver now given keyed steps =
    let quiet : IsQuiet sid (revoke sid m) = ground (
      arith,
      given,
      keyed,
      str_eq_self sid,
      delete-IsKeyed sid m.store,
      lookup-delete sid sid m.store,
      lookup-delete sid sid m.cache.entries,
    ) in
    attach-gone resolver sid now m' (
      Steps-keep AnyResolver (Anew sid) (IsQuiet sid) (Step-IsQuiet sid) (revoke sid m) m' steps
        quiet)
