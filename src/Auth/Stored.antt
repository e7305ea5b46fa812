-- ===== src/Auth/Stored.antt =====
-- The session statements of internal/store/sqlstore/sessions.go, each row under its own id.
use stowage.Base.{
  ℕ, ◌-◌, ◌%◌, ◌≡◌, inl, inr, Bool, none, some, [], ◌∷◌, arith, Option-cases, Str, str_eq_iff,
}
use stowage.Base.Dict.{Dict, lookup, insert, delete, lookup-insert}
use stowage.Base.Dict.{Dict, lookup, insert, delete, lookup-insert}
use stowage.Auth.{
  clear_must_change, Session, Store, touch_session, keep_entries, TouchEntry, write_all,
}
use stowage.Auth.Entries.{
  Each, lookup-Each, insert-Each, delete-Each, keep_entries-Each, touch_session-Each,
  write_all-Each,
}

-- every session stands under its own id
abbrev pub OwnId : Str → Session → Type 0
OwnId k s = s.id ≡ k

unfoldable pub IsKeyed : Store → Type 0
IsKeyed store = Each OwnId store

pub lookup-IsKeyed :
    (k : Str) (store : Store) (s : Session) → IsKeyed store → lookup k store ≡ some s → s.id ≡ k
unfolding IsKeyed
lookup-IsKeyed k store s h e = lookup-Each OwnId k store s h e

pub insert-IsKeyed :
    (s : Session) (k : Str) (store : Store) → s.id ≡ k → IsKeyed store → IsKeyed (insert k s store)
unfolding IsKeyed
insert-IsKeyed s k store e h = insert-Each OwnId k s store e h

pub delete-IsKeyed : (k : Str) (store : Store) → IsKeyed store → IsKeyed (delete k store)
unfolding IsKeyed
delete-IsKeyed k store h = delete-Each OwnId k store h

pub keep_entries-IsKeyed :
    (p : Session → Bool) (store : Store) → IsKeyed store → IsKeyed (keep_entries p store)
unfolding IsKeyed
keep_entries-IsKeyed p store h = keep_entries-Each OwnId OwnId p store (λ k s passed own. own) h

pub lookup-keep_entries-none :
    {V : Type 0} (k : Str) (p : V → Bool) (m : Dict V)
    → lookup k m ≡ none
    → lookup k (keep_entries p m) ≡ none
unfolding lookup keep_entries
lookup-keep_entries-none k p [] h = h
lookup-keep_entries-none k p ((j, v) ∷ m) h = ground (arith, lookup-keep_entries-none k p m)

pub touch_session-IsKeyed :
    (sid : Str) (now expiry : ℕ) (store : Store)
    → IsKeyed store
    → IsKeyed (touch_session sid now expiry store)
unfolding IsKeyed
touch_session-IsKeyed sid now expiry store h =
    touch_session-Each OwnId (λ k s at until own. own) sid now expiry store h

pub write_all-IsKeyed :
    (batch : Dict TouchEntry) (store : Store) → IsKeyed store → IsKeyed (write_all batch store)
unfolding IsKeyed
write_all-IsKeyed batch store h = write_all-Each OwnId (λ k s at until own. own) batch store h

pub touch_session-none :
    (j sid : Str) (now expiry : ℕ) (store : Store)
    → lookup j store ≡ none
    → lookup j (touch_session sid now expiry store) ≡ none
unfolding touch_session
touch_session-none j sid now expiry store h = elim (Option-cases (lookup sid store)) [
  | inl absent ↦ ground (arith, absent)
  | inr (s, found) ↦
      let s' : Session = record s { last_seen_at = now; expires_at = expiry } in
      ground (arith, found, str_eq_iff sid j, lookup-insert sid j s' store)
]

pub write_all-none :
    (j : Str) (batch : Dict TouchEntry) (store : Store)
    → lookup j store ≡ none
    → lookup j (write_all batch store) ≡ none
unfolding write_all
write_all-none j [] store h = h
write_all-none j ((k, e) ∷ batch) store h =
    write_all-none j batch (touch_session k e.at e.expires_at store)
      (touch_session-none j k e.at e.expires_at store h)

pub clear_must_change-IsKeyed :
    (sid : Str) (store : Store) → IsKeyed store → IsKeyed (clear_must_change sid store)
unfolding clear_must_change
clear_must_change-IsKeyed sid store h = elim (Option-cases (lookup sid store)) [
  | inl absent ↦ ground (arith, absent, h)
  | inr (s, found) ↦
      let cleared : Session = record s { flags = s.flags - s.flags % 2 } in
      ground (arith, found, insert-IsKeyed cleared sid store (lookup-IsKeyed sid store s h found) h)
]

pub clear_must_change-none :
    (j sid : Str) (store : Store)
    → lookup j store ≡ none
    → lookup j (clear_must_change sid store) ≡ none
unfolding clear_must_change
clear_must_change-none j sid store h = elim (Option-cases (lookup sid store)) [
  | inl absent ↦ ground (arith, absent)
  | inr (s, found) ↦
      let cleared : Session = record s { flags = s.flags - s.flags % 2 } in
      ground (arith, found, str_eq_iff sid j, lookup-insert sid j cleared store)
]
