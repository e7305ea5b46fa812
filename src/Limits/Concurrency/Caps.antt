-- ===== src/Limits/Concurrency/Caps.antt =====
-- The caps of internal/s3proxy/concurrency.go under every interleaving of calls.
use stowage.Base.{ℕ, ◌≤◌, ◌<◌, ◌≡◌, refl, sym, subst, ◌∙◌, some, List, [], ◌∷◌, ◌++◌, arith, Str}
use stowage.Base.Dict.{lookup}
use stowage.Limits.Concurrency.{
  Limiter, new_concurrency_limiter, in_use, wants_key, Call, Event, transition,
}
use stowage.Limits.Concurrency.Balance.{
  key_slots, global_slots, total, total-split, IsBalanced, event-IsBalanced,
}

-- The calls so far and the limiter, after any sequence of arrivals and events.
pub data Runs (l₀ : Limiter) : List Call → Limiter → Type 0 where
  idle : Runs l₀ [] l₀
  arrives :
      {calls : List Call} {l : Limiter} (key : Str)
      → Runs l₀ calls l
      → Runs l₀ (record { key = key; phase = wants_key } ∷ calls) l
  moves :
      {l l' : Limiter} {c' : Call} (before after : List Call) (c : Call) (event : Event)
      → Runs l₀ (before ++ c ∷ after) l
      → transition event c l ≡ some (c', l')
      → Runs l₀ (before ++ c' ∷ after) l'

-- The channels count exactly the slots that calls have, and no cap is exceeded.
AreCounted : List Call → Limiter → Type 0
AreCounted calls l =
    ((key : Str)
      → 0 < l.per_max
      → (in_use key l ≡ total (key_slots key) calls) × (in_use key l ≤ l.per_max))
    × (0 < l.global_max → (l.global ≡ total global_slots calls) × (l.global ≤ l.global_max))

moved-AreCounted :
    (before after : List Call) (c c' : Call) (event : Event) (l l' : Limiter)
    → AreCounted (before ++ c ∷ after) l
    → transition event c l ≡ some (c', l')
    → (AreCounted (before ++ c' ∷ after) l')
      × (l'.per_max ≡ l.per_max)
      × (l'.global_max ≡ l.global_max)
unfolding AreCounted IsBalanced
moved-AreCounted before after c c' event l l' (keys, globals) h = (
  (
    (λ key pos.
        let had = keys key (subst (λ x. 0 < x) (balance key).2 pos) in
        let old = total-split (key_slots key) before after c in
        let new = total-split (key_slots key) before after c' in
        let now_used =
          (balance key).0 (subst (λ x. 0 < x) (balance key).2 pos) (omega (arith, old, had.0))
            had.1 in
        (omega (arith, old, new, had.0, now_used.0), omega (arith, now_used.1, (balance key).2))),
    (λ pos.
        let had = globals (subst (λ x. 0 < x) (balance []).3 pos) in
        let old = total-split global_slots before after c in
        let new = total-split global_slots before after c' in
        let now_used =
          (balance []).1 (subst (λ x. 0 < x) (balance []).3 pos) (omega (arith, old, had.0))
            had.1 in
        (omega (arith, old, new, had.0, now_used.0), omega (arith, now_used.1, (balance []).3))),
  ),
  (balance []).2,
  (balance []).3,
)
  where
    balance : (key : Str) → IsBalanced c c' l l' key
    balance key = event-IsBalanced event c.phase c.key c' l l' key h

arrived-AreCounted :
    (calls : List Call) (l : Limiter) (key : Str)
    → AreCounted calls l
    → AreCounted (record { key = key; phase = wants_key } ∷ calls) l
unfolding AreCounted total
arrived-AreCounted calls l key (keys, globals) = (
  (λ j pos. (omega (arith, (keys j pos).0), (keys j pos).1)),
  (λ pos. (omega (arith, (globals pos).0), (globals pos).1)),
)

Runs-AreCounted :
    (global_max per_max : ℕ) {calls : List Call} {l : Limiter}
    → Runs (new_concurrency_limiter global_max per_max) calls l
    → (AreCounted calls l) × (l.per_max ≡ per_max) × (l.global_max ≡ global_max)
Runs-AreCounted global_max per_max Runs.idle = (
  (unfold AreCounted in_use lookup total in
      ((λ key pos. (refl, omega arith)), (λ pos. (refl, omega arith)))),
  refl,
  refl,
)
Runs-AreCounted global_max per_max (Runs.arrives {calls = calls} {l = l} key runs) =
    let (counted, p, g) = Runs-AreCounted global_max per_max runs in
    (arrived-AreCounted calls l key counted, p, g)
Runs-AreCounted global_max per_max
      (Runs.moves {l = l} {l' = l'} {c' = c'} before after c event runs h) =
    let (counted, p, g) = Runs-AreCounted global_max per_max runs in
    let (counted', p', g') = moved-AreCounted before after c c' event l l' counted h in
    (counted', p' ∙ p, g' ∙ g)

-- However calls interleave, the requests that hold a slot of one key never exceed the cap per key, if
-- that is not 0, the requests in flight never exceed the global cap, if that is not 0, and the
-- channels hold exactly one slot for each of them: a call that is over keeps none.
pub slots-IsBounded :
    (global_max per_max : ℕ) (calls : List Call) (l : Limiter) (key : Str)
    → Runs (new_concurrency_limiter global_max per_max) calls l
    → (0 < per_max
        → (in_use key l ≡ total (key_slots key) calls) × (total (key_slots key) calls ≤ per_max))
      × (0 < global_max
          → (l.global ≡ total global_slots calls) × (total global_slots calls ≤ global_max))
unfolding AreCounted
slots-IsBounded global_max per_max calls l key runs =
    let (counted, p, g) = Runs-AreCounted global_max per_max runs in
    (
      (λ pos.
          let here = counted.0 key (subst (λ x. 0 < x) (sym p) pos) in
          (here.0, omega (arith, here.0, here.1, p))),
      (λ pos.
          let here = counted.1 (subst (λ x. 0 < x) (sym g) pos) in
          (here.0, omega (arith, here.0, here.1, g))),
    )
