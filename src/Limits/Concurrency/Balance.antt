-- ===== src/Limits/Concurrency/Balance.antt =====
-- What one event of internal/s3proxy/concurrency.go does to the slots in use.
use stowage.Base.{
  ℕ, ◌+◌, ◌-◌, ◌≤◌, ◌<◌, ◌≡◌, refl, ap, subst, inl, inr, true, Option, some, List, [], ◌∷◌, ◌++◌,
  arith, if◌then◌else◌, Option-cases, Str, str_eq, str_eq_sound,
}
use stowage.Base.Dict.{insert, lookup-insert}
use stowage.Limits.Concurrency.{
  Limiter, in_use, take_key_slot, free_key_slot, take_global_slot, free_global_slot, Phase,
  wants_key, wants_global, holds, returns_key, over, Call, Event, slot_free, context_done, release,
  transition,
}

-- The slots that a call has.
abbrev pub key_slots : Str → Call → ℕ
key_slots key c = elim c.phase as (λ _. ℕ) [
  | wants_key ↦ 0
  | wants_global ↦ if str_eq c.key key then 1 else 0
  | holds ↦ if str_eq c.key key then 1 else 0
  | returns_key ↦ if str_eq c.key key then 1 else 0
  | over ↦ 0
]

abbrev pub global_slots : Call → ℕ
global_slots c = elim c.phase as (λ _. ℕ) [
  | wants_key ↦ 0
  | wants_global ↦ 0
  | holds ↦ 1
  | returns_key ↦ 0
  | over ↦ 0
]

unfoldable pub total : (Call → ℕ) → List Call → ℕ
total f [] = 0
total f (c ∷ calls) = f c + total f calls

pub total-split :
    (f : Call → ℕ) (before after : List Call) (c : Call)
    → total f (before ++ c ∷ after) ≡ f c + total f (before ++ after)
unfolding total
total-split f [] after c = refl
total-split f (b ∷ before) after c = omega (arith, total-split f before after c)

in_use-set :
    (key j : Str) (n : ℕ) (l : Limiter)
    → in_use j (record l { per_key = insert key n l.per_key })
      ≡ (if str_eq key j then n else in_use j l)
unfolding in_use
in_use-set key j n l = ground (arith, lookup-insert key j n l.per_key)

-- What the four channel operations do to the slots in use.
abbrev bump : Str → Str → ℕ
bump key j = if str_eq key j then 1 else 0

take_key_slot-in_use :
    (key j : Str) (l l' : Limiter)
    → take_key_slot key l ≡ some l'
    → (0 < l.per_max
        → (in_use j l' ≡ in_use j l + bump key j)
          × (in_use j l ≤ l.per_max → in_use j l' ≤ l.per_max))
      × (l'.global ≡ l.global)
      × (l'.per_max ≡ l.per_max)
      × (l'.global_max ≡ l.global_max)
unfolding take_key_slot
take_key_slot-in_use key j l l' h = (
  (λ p. (
    ground (arith, in_use-set key j (in_use key l + 1) l, same),
    (λ b. ground (arith, in_use-set key j (in_use key l + 1) l)),
  )),
  ground arith,
  ground arith,
  ground arith,
)
  where
    same : str_eq key j ≡ true → in_use key l ≡ in_use j l
    same e = ap (λ x. in_use x l) (str_eq_sound key j e)

free_key_slot-in_use :
    (key j : Str) (l : Limiter)
    → (0 < l.per_max → in_use j (free_key_slot key l) ≡ in_use j l - bump key j)
      × ((free_key_slot key l).global ≡ l.global)
      × ((free_key_slot key l).per_max ≡ l.per_max)
      × ((free_key_slot key l).global_max ≡ l.global_max)
unfolding free_key_slot
free_key_slot-in_use key j l = (
  (λ p. ground (arith, in_use-set key j (in_use key l - 1) l, same)),
  ground arith,
  ground arith,
  ground arith,
)
  where
    same : str_eq key j ≡ true → in_use key l ≡ in_use j l
    same e = ap (λ x. in_use x l) (str_eq_sound key j e)

take_global_slot-in_use :
    (j : Str) (l l' : Limiter)
    → take_global_slot l ≡ some l'
    → (0 < l.global_max → (l'.global ≡ l.global + 1) × (l'.global ≤ l.global_max))
      × (in_use j l' ≡ in_use j l)
      × (l'.per_max ≡ l.per_max)
      × (l'.global_max ≡ l.global_max)
unfolding take_global_slot in_use
take_global_slot-in_use j l l' h =
    ((λ p. (ground arith, ground arith)), ground arith, ground arith, ground arith)

free_global_slot-in_use :
    (j : Str) (l : Limiter)
    → (0 < l.global_max → (free_global_slot l).global ≡ l.global - 1)
      × (in_use j (free_global_slot l) ≡ in_use j l)
      × ((free_global_slot l).per_max ≡ l.per_max)
      × ((free_global_slot l).global_max ≡ l.global_max)
unfolding free_global_slot in_use
free_global_slot-in_use j l = ((λ p. ground arith), ground arith, ground arith, ground arith)

-- One event, for a call whose slots are counted: the limits stay, and the slots in use change as the
-- call's do.
unfoldable pub IsBalanced : Call → Call → Limiter → Limiter → Str → Type 0
IsBalanced c c' l l' key =
    (0 < l.per_max
      → key_slots key c ≤ in_use key l
      → in_use key l ≤ l.per_max
      → (in_use key l' + key_slots key c ≡ in_use key l + key_slots key c')
        × (in_use key l' ≤ l.per_max))
    × (0 < l.global_max
        → global_slots c ≤ l.global
        → l.global ≤ l.global_max
        → (l'.global + global_slots c ≡ l.global + global_slots c') × (l'.global ≤ l.global_max))
    × (l'.per_max ≡ l.per_max)
    × (l'.global_max ≡ l.global_max)

abbrev call_at : Str → Phase → Call
call_at key phase = record { key = key; phase = phase }

-- Each event that can happen, with the limiter it leaves.
took_key :
    (k key : Str) (l m : Limiter)
    → take_key_slot k l ≡ some m
    → IsBalanced (call_at k wants_key) (call_at k wants_global) l m key
unfolding IsBalanced
took_key k key l m e =
    let (uses, same, p, g) = take_key_slot-in_use k key l m e in
    (
      (λ pos a b. (omega (arith, (uses pos).0), (uses pos).1 b)),
      (λ pos a b. (omega (arith, same), omega (arith, same, b))),
      p,
      g,
    )

gave_up_key :
    (k key : Str) (l : Limiter) → IsBalanced (call_at k wants_key) (call_at k over) l l key
unfolding IsBalanced
gave_up_key k key l = ((λ pos a b. (refl, b)), (λ pos a b. (refl, b)), refl, refl)

took_global :
    (k key : Str) (l m : Limiter)
    → take_global_slot l ≡ some m
    → IsBalanced (call_at k wants_global) (call_at k holds) l m key
unfolding IsBalanced
took_global k key l m e =
    let (uses, same, p, g) = take_global_slot-in_use key l m e in
    (
      (λ pos a b. (omega (arith, same), omega (arith, same, b))),
      (λ pos a b. (omega (arith, (uses pos).0), (uses pos).1)),
      p,
      g,
    )

gave_up_global :
    (k key : Str) (l : Limiter)
    → IsBalanced (call_at k wants_global) (call_at k returns_key) l l key
unfolding IsBalanced
gave_up_global k key l = ((λ pos a b. (refl, b)), (λ pos a b. (refl, b)), refl, refl)

returned_global :
    (k key : Str) (l : Limiter)
    → IsBalanced (call_at k holds) (call_at k returns_key) l (free_global_slot l) key
unfolding IsBalanced
returned_global k key l =
    let (uses, same, p, g) = free_global_slot-in_use key l in
    (
      (λ pos a b. (omega (arith, same), omega (arith, same, b))),
      (λ pos a b. (omega (arith, uses pos, a), omega (arith, uses pos, b))),
      p,
      g,
    )

returned_key :
    (k key : Str) (l : Limiter)
    → IsBalanced (call_at k returns_key) (call_at k over) l (free_key_slot k l) key
unfolding IsBalanced
returned_key k key l =
    let (uses, same, p, g) = free_key_slot-in_use k key l in
    (
      (λ pos a b. (omega (arith, uses pos, a), omega (arith, uses pos, b))),
      (λ pos a b. (omega (arith, same), omega (arith, same, b))),
      p,
      g,
    )

result :
    (c d c' : Call) (l m l' : Limiter) (key : Str)
    → ◌≡◌ {A = Option (Call × Limiter)} (some (d, m)) (some (c', l'))
    → IsBalanced c d l m key
    → IsBalanced c c' l l' key
result c d c' l m l' key e b =
    subst (λ x. IsBalanced c x l l' key) call_eq (subst (λ x. IsBalanced c d l x key) limiter_eq b)
  where
    call_eq : d ≡ c'
    call_eq = ground arith

    limiter_eq : m ≡ l'
    limiter_eq = ground arith

pub event-IsBalanced :
    (event : Event) (phase : Phase) (k : Str) (c' : Call) (l l' : Limiter) (key : Str)
    → transition event (call_at k phase) l ≡ some (c', l')
    → IsBalanced (call_at k phase) c' l l' key
unfolding transition
event-IsBalanced slot_free wants_key k c' l l' key h = elim (Option-cases (take_key_slot k l)) [
  | inl e ↦ absurd (ground arith)
  | inr (m, e) ↦
      result (call_at k wants_key) (call_at k wants_global) c' l m l' key (ground arith)
        (took_key k key l m e)
]
event-IsBalanced context_done wants_key k c' l l' key h =
    result (call_at k wants_key) (call_at k over) c' l l l' key h (gave_up_key k key l)
event-IsBalanced release wants_key k c' l l' key h = absurd (ground arith)
event-IsBalanced slot_free wants_global k c' l l' key h = elim (Option-cases (take_global_slot l)) [
  | inl e ↦ absurd (ground arith)
  | inr (m, e) ↦
      result (call_at k wants_global) (call_at k holds) c' l m l' key (ground arith)
        (took_global k key l m e)
]
event-IsBalanced context_done wants_global k c' l l' key h =
    result (call_at k wants_global) (call_at k returns_key) c' l l l' key h (gave_up_global k key l)
event-IsBalanced release wants_global k c' l l' key h = absurd (ground arith)
event-IsBalanced slot_free holds k c' l l' key h = absurd (ground arith)
event-IsBalanced context_done holds k c' l l' key h = absurd (ground arith)
event-IsBalanced release holds k c' l l' key h =
    result (call_at k holds) (call_at k returns_key) c' l (free_global_slot l) l' key h
      (returned_global k key l)
event-IsBalanced slot_free returns_key k c' l l' key h = absurd (ground arith)
event-IsBalanced context_done returns_key k c' l l' key h = absurd (ground arith)
event-IsBalanced release returns_key k c' l l' key h =
    result (call_at k returns_key) (call_at k over) c' l (free_key_slot k l) l' key h
      (returned_key k key l)
event-IsBalanced event over k c' l l' key h = absurd (ground arith)
