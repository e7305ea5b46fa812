-- ===== src/Auth/Entries.antt =====
-- Predicates on every entry of a table or a map of internal/auth.
use stowage.Base.{
  ℕ, ◌≡◌, sym, subst, inl, inr, Bool, true, some, [], ◌∷◌, arith, Bool-cases, Option-cases, Str,
  str_eq, str_eq_iff,
}
use stowage.Base.Dict.{Dict, lookup, insert, delete}
use stowage.Base.Dict.{Dict, lookup, insert, delete}
use stowage.Auth.{Session, Store, touch_session, keep_entries, TouchEntry, write_all}

unfoldable pub Each : {V : Type 0} → (Str → V → Type 0) → Dict V → Type 0
Each P [] = Unit
Each P ((k, v) ∷ m) = P k v × Each P m

module _ {V : Type 0} (P : Str → V → Type 0) where
  pub lookup-Each : (k : Str) (m : Dict V) (v : V) → Each P m → lookup k m ≡ some v → P k v
  unfolding Each lookup
  lookup-Each k [] v h e = absurd (ground (arith, e))
  lookup-Each k ((j, w) ∷ m) v h e = elim (Bool-cases (str_eq j k)) [
    | inl here ↦
        let value : w ≡ v = ground (arith, here, e) in
        subst (λ i. P i v) ((str_eq_iff j k).0 here) (subst (P j) value h.0)
    | inr there ↦ lookup-Each k m v h.1 (ground (arith, there, e))
  ]

  pub insert-Each : (k : Str) (v : V) (m : Dict V) → P k v → Each P m → Each P (insert k v m)
  unfolding Each insert
  insert-Each k v [] p h = (p, tt)
  insert-Each k v ((j, w) ∷ m) p h = elim (Bool-cases (str_eq j k)) [
    | inl here ↦ rw here (p, h.1)
    | inr there ↦ rw there (h.0, insert-Each k v m p h.1)
  ]

  pub delete-Each : (k : Str) (m : Dict V) → Each P m → Each P (delete k m)
  unfolding Each delete
  delete-Each k [] h = tt
  delete-Each k ((j, w) ∷ m) h = elim (Bool-cases (str_eq j k)) [
    | inl here ↦ rw here (delete-Each k m h.1)
    | inr there ↦ rw there (h.0, delete-Each k m h.1)
  ]

-- what is kept passed the test
pub keep_entries-Each :
    {V : Type 0} (P Q : Str → V → Type 0) (p : V → Bool) (m : Dict V)
    → ((k : Str) (v : V) → p v ≡ true → P k v → Q k v)
    → Each P m
    → Each Q (keep_entries p m)
unfolding Each keep_entries
keep_entries-Each P Q p [] passed h = tt
keep_entries-Each P Q p ((j, w) ∷ m) passed h = elim (Bool-cases (p w)) [
  | inl on ↦ rw on (passed j w on h.0, keep_entries-Each P Q p m passed h.1)
  | inr off ↦ rw off (keep_entries-Each P Q p m passed h.1)
]

pub Each-any : {V : Type 0} (m : Dict V) → Each {V = V} (λ k v. Unit) m
unfolding Each
Each-any [] = tt
Each-any ((j, w) ∷ m) = (tt, Each-any m)

-- a predicate that a change of a session's times does not touch
module _ (P : Str → Session → Type 0)
    (timeless : (k : Str) (s : Session) (now expiry : ℕ)
      → P k s
      → P k (record s { last_seen_at = now; expires_at = expiry })) where
  pub touch_session-Each :
      (sid : Str) (now expiry : ℕ) (store : Store)
      → Each P store
      → Each P (touch_session sid now expiry store)
  unfolding touch_session
  touch_session-Each sid now expiry store h = elim (Option-cases (lookup sid store)) [
    | inl absent ↦ subst (Each P) (sym (ground (arith, absent))) h
    | inr (s, found) ↦
        let moved : Session = record s { last_seen_at = now; expires_at = expiry } in
        subst (Each P) (sym (ground (arith, found))) (
          insert-Each P sid moved store
            (timeless sid s now expiry (lookup-Each P sid store s h found)) h)
  ]

  pub write_all-Each :
      (batch : Dict TouchEntry) (store : Store) → Each P store → Each P (write_all batch store)
  unfolding write_all
  write_all-Each [] store h = h
  write_all-Each ((k, e) ∷ batch) store h =
      write_all-Each batch (touch_session k e.at e.expires_at store)
        (touch_session-Each k e.at e.expires_at store h)
