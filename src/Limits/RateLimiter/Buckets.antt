-- ===== src/Limits/RateLimiter/Buckets.antt =====
-- What one call of internal/auth/ratelimit.go does to the events of each key.
use stowage.Base.{
  ℕ, ◌+◌, ◌≤◌, ◌≡◌, refl, sym, ap, inl, inr, true, List, [], ◌∷◌, ◌++◌, arith, ltb, leb,
  if◌then◌else◌, Bool-cases, length, Str, str_eq, str_eq_sound,
}
use stowage.Base.Dict.{lookup-insert}
use stowage.Limits.RateLimiter.{RateLimiter, prune, shard_for, events_of, set_events, allow}

-- The events of a list that a window ending at a time still counts.
unfoldable pub live : ℕ → ℕ → List ℕ → ℕ
live window now [] = 0
live window now (e ∷ events) = (if ltb now (e + window) then 1 else 0) + live window now events

pub live-append :
    (window now : ℕ) (xs ys : List ℕ)
    → live window now (xs ++ ys) ≡ live window now xs + live window now ys
unfolding live
live-append window now [] ys = omega arith
live-append window now (x ∷ xs) ys = ground (arith, live-append window now xs ys)

pub live-le-length : (window now : ℕ) (xs : List ℕ) → live window now xs ≤ length xs
unfolding live
live-le-length window now [] = omega arith
live-le-length window now (x ∷ xs) = ground (arith, live-le-length window now xs)

-- Pruning drops a prefix of events that no window counts any more.
pub prune-split :
    (window now : ℕ) (events : List ℕ)
    → (dead : List ℕ) × (events ≡ dead ++ prune window now events)
      × ((later : ℕ) → now ≤ later → live window later dead ≡ 0)
unfolding prune live
prune-split window now [] = ([], refl, λ later h. refl)
prune-split window now (e ∷ events) = elim (Bool-cases (ltb now (e + window))) [
  | inl h ↦ ([], ground arith, λ later g. refl)
  | inr h ↦
      let (dead, split, gone) = prune-split window now events in
      (e ∷ dead, ground (arith, split), λ later g. ground (arith, gone later g))
]

module _ (hash : Str → ℕ) where
  events_of-set_events :
      (key j : Str) (events : List ℕ) (r : RateLimiter)
      → events_of hash j (set_events hash key events r)
        ≡ (if str_eq key j then events else events_of hash j r)
  unfolding events_of set_events
  events_of-set_events key j events r =
      ground (arith, lookup-insert key j events (r.shards (shard_for hash j)), same)
    where
      same : str_eq key j ≡ true → shard_for hash j ≡ shard_for hash key
      same e = ap (shard_for hash) (sym (str_eq_sound key j e))

  -- What one call does to the events of a key, and that the limits stay.
  abbrev pub after_call : ℕ → Str → RateLimiter → List ℕ
  after_call now key r =
      let kept = prune r.window now (events_of hash key r) in
      if leb r.max (length kept) then kept else kept ++ now ∷ []

  pub allow-events :
      (now : ℕ) (j key : Str) (r : RateLimiter)
      → events_of hash key (allow hash now j r).1
        ≡ (if str_eq j key then after_call now j r else events_of hash key r)
  unfolding allow
  allow-events now j key r =
      elim (Bool-cases (leb r.max (length (prune r.window now (events_of hash j r))))) [
        | inl e ↦
            ground (arith, events_of-set_events j key (prune r.window now (events_of hash j r)) r)
        | inr e ↦ ground (
          arith,
          events_of-set_events j key (prune r.window now (events_of hash j r) ++ now ∷ []) r,
        )
      ]

  pub allow-limits :
      (now : ℕ) (j : Str) (r : RateLimiter)
      → ((allow hash now j r).1.max ≡ r.max) × ((allow hash now j r).1.window ≡ r.window)
  unfolding allow set_events
  allow-limits now j r = ground arith
