-- ===== src/Auth/Accounts/Lockout.antt =====
-- LoginLocal and RecordLoginFailure: what wrong passwords in a row do to an account.
use stowage.Auth.Hashes.{Hashing, verify_password}
use stowage.Base.{
  err, ℕ, ◌+◌, ◌≤◌, ◌<◌, ◌≡◌, refl, sym, ap, subst, inl, inr, Bool, true, false, none, some, List,
  [], ◌∷◌, ◌++◌, arith, Bool-cases, length, all, All, Str, str_eq_self, str_eq_iff,
}
use stowage.Base.Dict.{Dict, lookup, insert, lookup-insert}
use stowage.Base.Dict.{Dict, lookup, insert, lookup-insert}
use stowage.Auth.Accounts.{
  User, source_local, Service, account_locked, record_login_failure, is_locked, lockout_attempts,
  lockout_window, find_username, login_user, login_local,
}

-- every account stands once, under its own id
unfoldable pub DistinctAccounts : Dict User → Type 0
DistinctAccounts [] = Unit
DistinctAccounts ((k, u) ∷ users) = (u.id ≡ k) × (lookup k users ≡ none) × DistinctAccounts users

same_id : (w u : User) → w ≡ u → w.id ≡ u.id
same_id w u = ap (λ (v : User). v.id)

module _ (same : Str → Str → Bool) (name : Str) where
  find_username-lookup :
      (users : Dict User) (u : User)
      → DistinctAccounts users
      → find_username same name users ≡ some u
      → lookup u.id users ≡ some u
  unfolding lookup find_username DistinctAccounts
  find_username-lookup [] u d found = ground (arith, found)
  find_username-lookup ((k, w) ∷ users) u d found = elim (Bool-cases (same w.username name)) [
    | inl hit ↦
        ground (arith, hit, found, d, str_eq_iff k u.id, same_id w u (ground (arith, hit, found)))
    | inr miss ↦ ground (arith, miss, found, d, str_eq_iff k u.id, find_username-lookup users u)
  ]

  find_username-insert :
      (users : Dict User) (u u' : User)
      → DistinctAccounts users
      → u'.username ≡ u.username
      → find_username same name users ≡ some u
      → find_username same name (insert u.id u' users) ≡ some u'
  unfolding insert find_username DistinctAccounts
  find_username-insert [] u u' d named found = ground (arith, found)
  find_username-insert ((k, w) ∷ users) u u' d named found =
      elim (Bool-cases (same w.username name)) [
        | inl hit ↦ ground (
          arith,
          hit,
          found,
          d,
          named,
          str_eq_iff k u.id,
          same_id w u (ground (arith, hit, found)),
        )
        | inr miss ↦ ground (
          arith,
          miss,
          found,
          d,
          named,
          str_eq_iff k u.id,
          find_username-lookup users u d.2 (ground (arith, miss, found)),
          find_username-insert users u u' d.2 named,
        )
      ]

insert-DistinctAccounts :
    (k : Str) (u : User) (users : Dict User)
    → u.id ≡ k
    → DistinctAccounts users
    → DistinctAccounts (insert k u users)
unfolding insert DistinctAccounts lookup
insert-DistinctAccounts k u [] is d = (is, refl, tt)
insert-DistinctAccounts k u ((j, w) ∷ users) is d = ground (
  arith,
  is,
  d,
  str_eq_iff j k,
  str_eq_iff k j,
  lookup-insert k j u users,
  insert-DistinctAccounts k u users is,
)

-- What a login reads of the account with a name: it is local, enabled and not locked, with a number
-- of wrong passwords behind it.
pub record IsOpen (same : Str → Str → Bool) (name hash : Str) (failures : ℕ) (s : Service)
    : Type 0 where
  pub account : User
  pub found : find_username same name s.users ≡ some account
  pub distinct : DistinctAccounts s.users
  pub usable : account.enabled ≡ true
  pub local : account.identity_source ≡ source_local
  pub hashed : account.password_hash ≡ hash
  pub unlocked : account.locked_until ≡ none
  pub failed : account.failed_attempts ≡ failures

-- the logins of a name, one after another
unfoldable pub log_in_all : (Str → Str → Bool) → Hashing → Str → List (ℕ × Str) → Service → Service
log_in_all same h name [] s = s
log_in_all same h name ((now, password) ∷ tries) s =
    log_in_all same h name tries (login_local same h name password now s).0

module _ (same : Str → Str → Bool) (h : Hashing) (name hash : Str) where
  login_local-wrong :
      (password : Str) (now failures : ℕ) (s : Service) (o : IsOpen same name hash failures s)
      → verify_password h password hash ≡ false
      → (login_local same h name password now s).0 ≡ record s {
        users =
            insert o.account.id
              (record_login_failure (lockout_attempts s) (lockout_window s) now o.account)
              s.users;
      }
  unfolding login_local login_user is_locked
  login_local-wrong password now failures s o wrong = ground (
    arith,
    o.found,
    o.usable,
    o.unlocked,
    o.local,
    str_eq_self source_local,
    subst (λ x. verify_password h password x ≡ false) (sym o.hashed) wrong,
  )

  wrong-IsOpen :
      (password : Str) (now failures : ℕ) (s : Service)
      → IsOpen same name hash failures s
      → verify_password h password hash ≡ false
      → failures + 1 < lockout_attempts s
      → IsOpen same name hash (failures + 1) (login_local same h name password now s).0
  unfolding record_login_failure
  wrong-IsOpen password now failures s o wrong few =
      let after : User =
        record_login_failure (lockout_attempts s) (lockout_window s) now o.account in
      rw (login_local-wrong password now failures s o wrong) (record {
        account = after;
        found = find_username-insert same name s.users o.account after o.distinct refl o.found;
        distinct = insert-DistinctAccounts o.account.id after s.users refl o.distinct;
        usable = o.usable;
        local = o.local;
        hashed = o.hashed;
        unlocked = ground (arith, o.failed, few);
        failed = ap (λ n. n + 1) o.failed;
      })

  wrong-config :
      (password : Str) (now failures : ℕ) (s : Service)
      → IsOpen same name hash failures s
      → verify_password h password hash ≡ false
      → let s' = (login_local same h name password now s).0 in
        (lockout_attempts s' ≡ lockout_attempts s) × (lockout_window s' ≡ lockout_window s)
  unfolding lockout_attempts lockout_window
  wrong-config password now failures s o wrong =
      let it = login_local-wrong password now failures s o wrong in rw it (refl, refl)

  login_local-locked :
      (password : Str) (later until : ℕ) (u : User) (s : Service)
      → find_username same name s.users ≡ some u
      → u.enabled ≡ true
      → u.locked_until ≡ some until
      → later < until
      → login_local same h name password later s ≡ (s, err account_locked)
  unfolding login_local login_user is_locked
  login_local-locked password later until u s found usable locked soon =
      ground (arith, found, usable, locked, soon)

  -- the last wrong password locks the account
  wrong-locks :
      (password later_password : Str) (now later failures : ℕ) (s : Service)
      → IsOpen same name hash failures s
      → verify_password h password hash ≡ false
      → lockout_attempts s ≤ failures + 1
      → later < now + lockout_window s
      → let s' = (login_local same h name password now s).0 in
        login_local same h name later_password later s' ≡ (s', err account_locked)
  unfolding record_login_failure
  wrong-locks password later_password now later failures s o wrong many soon =
      let after : User =
        record_login_failure (lockout_attempts s) (lockout_window s) now o.account in
      rw (login_local-wrong password now failures s o wrong) (
        login_local-locked later_password later (now + lockout_window s) after
          (record s { users = insert o.account.id after s.users })
          (find_username-insert same name s.users o.account after o.distinct refl o.found) o.usable
          (ground (arith, o.failed, many)) soon)

  -- As many wrong passwords in a row as the service allows lock the account: until the window after
  -- the last of them is over, no login of that name succeeds or changes anything, even with the
  -- right password. The account starts local, enabled, not locked and with fewer failures than
  -- are allowed, and accounts stand once under their own ids.
  pub log_in_all-locks :
      (tries : List (ℕ × Str)) (password later_password : Str) (now later failures : ℕ)
      (s : Service)
      → IsOpen same name hash failures s
      → All (λ t. verify_password h t.1 hash ≡ false) tries
      → verify_password h password hash ≡ false
      → failures + length tries + 1 ≡ lockout_attempts s
      → later < now + lockout_window s
      → let s' = log_in_all same h name (tries ++ (now, password) ∷ []) s in
        login_local same h name later_password later s' ≡ (s', err account_locked)
  unfolding log_in_all
  log_in_all-locks [] password later_password now later failures s o all wrong count soon =
      wrong-locks password later_password now later failures s o wrong (omega (arith, count)) soon
  log_in_all-locks ((at, first) ∷ tries) password later_password now later failures s o all wrong
        count soon =
      let s' = (login_local same h name first at s).0 in
      let (attempts, window) = wrong-config first at failures s o all.0 in
      log_in_all-locks tries password later_password now later (failures + 1) s'
        (wrong-IsOpen first at failures s o all.0 (omega (arith, count))) all.1 wrong
        (omega (arith, count, attempts)) (omega (arith, soon, window))
