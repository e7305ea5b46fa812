-- ===== src/Auth/Calls.antt =====
-- Sequences of calls on the sessions, from internal/auth and the statements that it runs.
use stowage.Base.{ℕ, ◌≡◌, Option, some, keep, Str}
use stowage.Auth.{
  clear_must_change, Session, delete_user_sessions, purge_expired_sessions, Identity,
  invalidate_user, reap, SessionManager, flush, revoke, issue, attach,
}

-- One call, where the resolvers and the new sessions, by their id and user, are those allowed.
-- The statements that end a change of password or of an account are calls of their own.
pub data Step (Resolves : (Session → Option Identity) → Type 0) (Issues : Str → Str → Type 0)
    : SessionManager → SessionManager → Type 0 where
  attaches :
      (resolver : Session → Option Identity) (cookie : Str) (now : ℕ) (m : SessionManager)
      → Resolves resolver
      → Step Resolves Issues m (attach resolver cookie now m).0
  issues :
      (id csrf user source ip agent : Str) (flags now : ℕ) (m : SessionManager)
      (made : SessionManager × Session)
      → Issues id user
      → issue id csrf user source ip agent flags now m ≡ some made
      → Step Resolves Issues m made.0
  revokes : (id : Str) (m : SessionManager) → Step Resolves Issues m (revoke id m)
  flushes : (m : SessionManager) → Step Resolves Issues m (flush m)
  reaps :
      (now : ℕ) (m : SessionManager)
      → Step Resolves Issues m (record m { cache = reap now m.cache })
  purges :
      (now : ℕ) (m : SessionManager)
      → Step Resolves Issues m (record m { store = purge_expired_sessions now m.store })
  deletes :
      (user keep_id : Str) (m : SessionManager)
      → Step Resolves Issues m (record m { store = delete_user_sessions user keep_id m.store })
  clears :
      (id : Str) (m : SessionManager)
      → Step Resolves Issues m (record m { store = clear_must_change id m.store })
  invalidates :
      (user : Str) (m : SessionManager)
      → Step Resolves Issues m (record m { cache = invalidate_user user m.cache })

pub data Steps (Resolves : (Session → Option Identity) → Type 0) (Issues : Str → Str → Type 0)
    : SessionManager → SessionManager → Type 0 where
  done : (m : SessionManager) → Steps Resolves Issues m m
  next :
      (m m' m'' : SessionManager)
      → Step Resolves Issues m m'
      → Steps Resolves Issues m' m''
      → Steps Resolves Issues m m''

-- what each step keeps, a sequence of steps keeps
pub Steps-keep :
    (Resolves : (Session → Option Identity) → Type 0) (Issues : Str → Str → Type 0)
    (P : SessionManager → Type 0)
    → ((m m' : SessionManager) → Step Resolves Issues m m' → P m → P m')
    → (m m' : SessionManager) → Steps Resolves Issues m m'
    → P m
    → P m'
Steps-keep R I P keep _ _ (done m) h = h
Steps-keep R I P keep _ _ (next m m' m'' step steps) h =
    Steps-keep R I P keep m' m'' steps (keep m m' step h)
