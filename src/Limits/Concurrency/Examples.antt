-- ===== src/Limits/Concurrency/Examples.antt =====
-- Calls that share the limiter.
use stowage.Base.{◌≤◌, ◌<◌, ◌≡◌, refl, some, [], ◌∷◌, codes}
use stowage.Base.Dict.{lookup, insert}
use stowage.Limits.Concurrency.{
  Limiter, new_concurrency_limiter, in_use, take_key_slot, take_global_slot, Phase, wants_key,
  wants_global, holds, Call, slot_free, transition,
}
use stowage.Limits.Concurrency.Balance.{key_slots, global_slots, total}
use stowage.Limits.Concurrency.Caps.{Runs, slots-IsBounded}

abbrev call_of : Phase → Call
call_of phase = record { key = codes "k"; phase = phase }

abbrev one_in_flight : Limiter
one_in_flight = record { global = 1; per_key = (codes "k", 1) ∷ []; global_max = 1; per_max = 2 }

abbrev key_taken : Limiter
key_taken = record { global = 0; per_key = (codes "k", 1) ∷ []; global_max = 1; per_max = 2 }

took_key_slot :
    transition slot_free (call_of wants_key) (new_concurrency_limiter 1 2)
    ≡ some (call_of wants_global, key_taken)
unfolding transition take_key_slot in_use lookup insert
took_key_slot = refl

took_global_slot :
    transition slot_free (call_of wants_global) key_taken ≡ some (call_of holds, one_in_flight)
unfolding transition take_global_slot
took_global_slot = refl

run : Runs (new_concurrency_limiter 1 2) (call_of holds ∷ []) one_in_flight
run =
    Runs.moves [] [] (call_of wants_global) slot_free
      (Runs.moves [] [] (call_of wants_key) slot_free (Runs.arrives (codes "k") Runs.idle)
        took_key_slot)
      took_global_slot

slots-IsBounded_example :
    (0 < 2
      → (in_use (codes "k") one_in_flight ≡ total (key_slots (codes "k")) (call_of holds ∷ []))
        × (total (key_slots (codes "k")) (call_of holds ∷ []) ≤ 2))
    × (0 < 1
        → (one_in_flight.global ≡ total global_slots (call_of holds ∷ []))
          × (total global_slots (call_of holds ∷ []) ≤ 1))
slots-IsBounded_example = slots-IsBounded 1 2 (call_of holds ∷ []) one_in_flight (codes "k") run
