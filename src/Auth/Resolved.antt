-- ===== src/Auth/Resolved.antt =====
-- Resolve of internal/auth/session.go: the session that it gives.
use stowage.Base.{
  ok, err, ℕ, ◌+◌, ◌/◌, ◌≤◌, ◌≡◌, inl, inr, none, some, arith, ltb, if◌then◌else◌, Option-cases,
  Str,
}
use stowage.Base.Dict.{lookup}
use stowage.Base.Dict.{lookup}
use stowage.Auth.{Session, SessionManager, no_session, resolve}

-- the session as the sliding refresh leaves it: its times move once half the idle time has passed
unfoldable pub refreshed : ℕ → SessionManager → Session → Session
refreshed now m t =
    if ltb (t.last_seen_at + m.idle_timeout / 2) now
    then record t { last_seen_at = now; expires_at = now + m.lifetime }
    else t

resolve-found :
    (cookie : Str) (now : ℕ) (m : SessionManager) (t s : Session)
    → lookup cookie m.store ≡ some t
    → (resolve cookie now m).2 ≡ ok s
    → (now ≤ t.expires_at) × (s ≡ refreshed now m t)
unfolding resolve refreshed
resolve-found cookie now m t s found is = ground (arith, found, is)

resolve-missing :
    (cookie : Str) (now : ℕ) (m : SessionManager)
    → lookup cookie m.store ≡ none
    → (resolve cookie now m).2 ≡ err no_session
unfolding resolve
resolve-missing cookie now m absent = ground (arith, absent)

-- A session that Resolve gives stands in the store under the cookie, has not expired, and is what
-- the sliding refresh makes of it.
pub resolve-ok :
    (cookie : Str) (now : ℕ) (m : SessionManager) (s : Session)
    → (resolve cookie now m).2 ≡ ok s
    → (t : Session) × (lookup cookie m.store ≡ some t)
      × (now ≤ t.expires_at)
      × (s ≡ refreshed now m t)
resolve-ok cookie now m s is = elim (Option-cases (lookup cookie m.store)) [
  | inl absent ↦ ground (arith, is, resolve-missing cookie now m absent)
  | inr (t, found) ↦ (
    t,
    found,
    (resolve-found cookie now m t s found is).0,
    (resolve-found cookie now m t s found is).1,
  )
]

pub refreshed-id :
    (now : ℕ) (m : SessionManager) (t : Session)
    → ((refreshed now m t).id ≡ t.id) × ((refreshed now m t).user_id ≡ t.user_id)
unfolding refreshed
refreshed-id now m t = (ground arith, ground arith)
