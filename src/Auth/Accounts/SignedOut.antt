-- ===== src/Auth/Accounts/SignedOut.antt =====
-- The sessions of a user whose password is changed.
use stowage.Base.{
  ok, ℕ, ◌≡◌, sym, subst, ◌≢◌, inl, inr, Bool, false, Option, some, arith, Option-cases, Str,
}
use stowage.Base.Dict.{lookup}
use stowage.Base.Dict.{lookup}
use stowage.Auth.{Session, Identity, SessionManager, attach}
use stowage.Auth.Accounts.{
  static_user_id, Service, sign_out_others, store_password, change_own_password,
}
use stowage.Auth.Hashes.{Hashing}
use stowage.Auth.Stored.{IsKeyed}
use stowage.Auth.Calls.{Steps, Steps-keep}
use stowage.Auth.Accounts.Others.{IsResolver, Elsewhere, IsOthers}
use stowage.Auth.Accounts.Strangers.{Step-IsOthers, sign_out_others-IsOthers, attach-other}

store_password-sessions :
    (h : Hashing) (salt user keep_id newpw : Str) (must_change : Bool) (now : ℕ) (s s' : Service)
    → store_password h salt user keep_id newpw must_change now s ≡ (s', ok tt)
    → s'.sessions ≡ sign_out_others user keep_id s.sessions
unfolding store_password
store_password-sessions h salt user keep_id newpw must_change now s s' done =
    ground (arith, done, Option-cases (lookup user s.users))

change_own_password-sessions :
    (h : Hashing) (salt user keep_id current newpw : Str) (now : ℕ) (s s' : Service)
    → change_own_password h salt user keep_id current newpw now s ≡ (s', ok tt)
    → s'.sessions ≡ sign_out_others user keep_id s.sessions
unfolding change_own_password
change_own_password-sessions h salt user keep_id current newpw now s s' done =
    elim (Option-cases (lookup user s.users)) [
      | inl missing ↦ ground (arith, missing, done)
      | inr (u, found) ↦
          store_password-sessions h salt user keep_id newpw false now s s'
            (ground (arith, found, done))
    ]

-- Once a user's password is changed, no sequence of calls lets a request have the user's identity,
-- unless its cookie is that of the session that is kept or is given to the user by a later login.
-- Each call ends before the next begins, the change itself included; sessions stand under their own
-- ids, accounts do whenever an identity is resolved, and the user is not the static one.
pub change_own_password-attach :
    (h : Hashing) (salt user keep_id current newpw cookie : Str) (now later : ℕ) (s s' : Service)
    (m : SessionManager) (resolver : Session → Option Identity) (id : Identity)
    → IsKeyed s.sessions.store
    → user ≢ static_user_id
    → cookie ≢ keep_id
    → change_own_password h salt user keep_id current newpw now s ≡ (s', ok tt)
    → Steps IsResolver (Elsewhere cookie user) s'.sessions m
    → IsResolver resolver
    → (attach resolver cookie later m).1 ≡ some id
    → id.user_id ≢ user
unfolding IsKeyed
change_own_password-attach h salt user keep_id current newpw cookie now later s s' m resolver id
      keyed real other done steps is out =
    let left : s'.sessions ≡ sign_out_others user keep_id s.sessions =
      change_own_password-sessions h salt user keep_id current newpw now s s' done in
    let others : IsOthers cookie user s'.sessions =
      subst (IsOthers cookie user) (sym left)
        (sign_out_others-IsOthers cookie user keep_id s.sessions other keyed) in
    attach-other cookie user resolver later m id real is
      (Steps-keep IsResolver (Elsewhere cookie user) (IsOthers cookie user)
        (Step-IsOthers cookie user real) s'.sessions m steps others)
      out
