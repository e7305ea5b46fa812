-- ===== src/Auth/Touches.antt =====
-- The touch batcher of internal/auth/touch.go against the writes that it puts off.
use stowage.Base.{
  ◌≡◌, refl, sym, ◌∙◌, inl, inr, Option, none, some, List, [], ◌∷◌, arith, if◌then◌else◌,
  Option-cases, Str, str_eq, str_eq_iff,
}
use stowage.Base.Dict.{Dict, lookup, insert, lookup-insert}
use stowage.Base.Dict.{Dict, lookup, insert, lookup-insert}
use stowage.Auth.{
  Session, Store, touch_session, TouchEntry, enqueue, write_all, SessionManager, flush,
  persist_touch,
}

-- a request's touch: the session's id, the time and the new expiry
abbrev pub Touch : Type 0
Touch = Str × TouchEntry

-- the touches of a sequence of requests, in their order
unfoldable pub persist_all : List Touch → SessionManager → SessionManager
persist_all [] m = m
persist_all ((sid, e) ∷ ts) m = persist_all ts (persist_touch sid e.at e.expires_at m)

-- the session as a touch leaves it
unfoldable touched : TouchEntry → Session → Session
touched e s = record s { last_seen_at = e.at; expires_at = e.expires_at }

unfoldable after : Option TouchEntry → Option Session → Option Session
after none s = s
after (some e) none = none
after (some e) (some s) = some (touched e s)

lookup-touch_session :
    (sid j : Str) (e : TouchEntry) (store : Store)
    → lookup j (touch_session sid e.at e.expires_at store)
      ≡ (if str_eq sid j then after (some e) (lookup j store) else lookup j store)
unfolding touch_session after touched
lookup-touch_session sid j e store = elim (Option-cases (lookup sid store)) [
  | inl absent ↦ ground (arith, str_eq_iff sid j, absent)
  | inr (s, found) ↦
      ground (arith, str_eq_iff sid j, found, lookup-insert sid j (touched e s) store)
]

-- no key stands twice
unfoldable pub NoDup : Dict TouchEntry → Type 0
NoDup [] = Unit
NoDup ((k, e) ∷ m) = (lookup k m ≡ none) × NoDup m

insert-NoDup : (k : Str) (e : TouchEntry) (m : Dict TouchEntry) → NoDup m → NoDup (insert k e m)
unfolding NoDup lookup insert
insert-NoDup k e [] d = (refl, d)
insert-NoDup k e ((j, f) ∷ m) d =
    ground (arith, lookup-insert k j e m, str_eq_iff j k, str_eq_iff k j, insert-NoDup k e m)

lookup-write_all :
    (j : Str) (batch : Dict TouchEntry) (store : Store)
    → NoDup batch
    → lookup j (write_all batch store) ≡ after (lookup j batch) (lookup j store)
unfolding write_all lookup NoDup after
lookup-write_all j [] store d = refl
lookup-write_all j ((k, e) ∷ batch) store d = ground (
  arith,
  lookup-write_all j batch (touch_session k e.at e.expires_at store) d.1,
  lookup-touch_session k j e store,
  str_eq_iff k j,
  d.0,
)

enqueue-NoDup :
    (sid : Str) (e : TouchEntry) (pending : Dict TouchEntry)
    → NoDup pending
    → NoDup (enqueue sid e.at e.expires_at pending)
unfolding enqueue
enqueue-NoDup sid e pending = insert-NoDup sid e pending

-- what a batch leaves of a session when one more touch is queued
after-enqueue :
    (sid j : Str) (e : TouchEntry) (pending : Dict TouchEntry) (s : Option Session)
    → after (lookup j (enqueue sid e.at e.expires_at pending)) s ≡ (
        if str_eq sid j
        then after (some e) (after (lookup j pending) s)
        else after (lookup j pending) s)
unfolding enqueue after touched
after-enqueue sid j e pending s = elim (Option-cases s) [
  | inl gone ↦ ground (arith, gone, lookup-insert sid j e pending, Option-cases (lookup j pending))
  | inr (t, is) ↦ ground (arith, is, lookup-insert sid j e pending, Option-cases (lookup j pending))
]

persist_all-matches :
    (ts : List Touch) (m : SessionManager) (pending : Dict TouchEntry) (store : Store)
    → NoDup pending
    → ((j : Str) → after (lookup j pending) (lookup j m.store) ≡ lookup j store)
    → (j : Str)
    → lookup j (flush (persist_all ts (record m { touch = some pending }))).store
      ≡ lookup j (persist_all ts (record m { touch = none; store = store })).store
unfolding flush persist_all persist_touch
persist_all-matches [] m pending store d same j = lookup-write_all j pending m.store d ∙ same j
persist_all-matches ((sid, e) ∷ ts) m pending store d same j =
    persist_all-matches ts m (enqueue sid e.at e.expires_at pending)
      (touch_session sid e.at e.expires_at store) (enqueue-NoDup sid e pending d)
      (λ i.
        after-enqueue sid i e pending (lookup i m.store)
        ∙ rw (same i, lookup-touch_session sid i e store) refl)
      j

-- Touches that are queued in turn and then flushed leave every session as they leave it when each
-- is written at once, whatever batch they join, if it has no session twice.
pub flush-persist_all :
    (ts : List Touch) (m : SessionManager) (pending : Dict TouchEntry) (j : Str)
    → NoDup pending
    → lookup j (flush (persist_all ts (record m { touch = some pending }))).store
      ≡ lookup j
          (persist_all ts (record m { touch = none; store = write_all pending m.store })).store
flush-persist_all ts m pending j d =
    persist_all-matches ts m pending (write_all pending m.store) d
      (λ i. sym (lookup-write_all i pending m.store d)) j
