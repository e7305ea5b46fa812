-- ===== src/Limits/RateLimiter.antt =====
-- internal/auth/ratelimit.go: the sliding-window limiter. Each call of Allow holds its shard's lock, so
-- calls are taken one after the other. The code reads the clock before it takes the lock; here the
-- times of calls that follow each other are arguments. Times are numbers; the hash of hash/fnv is a parameter, and
-- an event is After the cutoff now - Window exactly if now < event + Window.
pub mod Buckets
pub mod Window
mod Examples
use stowage.Base.{
  Fallible, Fallible-cases, ok, err, ◌>>=◌, ◌>>◌, guard, or_fail, ℕ, zero, suc, ◌+◌, ◌-◌, ◌*◌, ◌/◌,
  ◌%◌, ◌^◌, ◌≤◌, ◌<◌, ◌≡◌, refl, sym, ap, subst, ◌∙◌, ◌≢◌, ◌↔◌, ◌⊎◌, inl, inr, Bool, true, false,
  not, ◌&&◌, ◌||◌, Option, none, some, List, [], ◌∷◌, ◌++◌, map, arith, ltb, leb, ◌==◌,
  if◌then◌else◌, ltb→lt, lt→ltb, leb→le, ==_iff, Bool-cases, Option-cases, length, take, drop,
  length-append, take-append-drop, take-length, drop-length, length-take, length-drop, all, any,
  keep, All, Str, codes, str_eq, str_eq_self, str_eq_sound, str_eq_iff, cut-append, cut_sound,
  has_prefix, trim_byte, cut, lower_byte, to_lower, equal_fold, is_space, trim_left, trim_right,
  trim_space, is_newline,
}
use stowage.Base.Dict.{
  Dict, lookup, insert, delete, has, map_values, lookup-insert, lookup-delete, dict_laws,
  lookup-map_values-some, lookup-map_values-none,
}
use stowage.Base.Int64.{modulus, sign_bit, add64, lt64, lt64-small, add64-small}

pub record RateLimiter : Type 0 where
  -- the events of the buckets of each shard, oldest first
  pub shards : ℕ → Dict (List ℕ)
  pub max : ℕ
  pub window : ℕ

abbrev pub rate_limiter_shards : ℕ
rate_limiter_shards = 16

-- `NewRateLimiter`
abbrev pub new_rate_limiter : ℕ → ℕ → RateLimiter
new_rate_limiter max window = record { shards = λ i. []; max = max; window = window }

-- the loop that skips the events that are not after the cutoff
unfoldable pub prune : ℕ → ℕ → List ℕ → List ℕ
prune window now [] = []
prune window now (e ∷ events) =
    let rest = prune window now events in if ltb now (e + window) then e ∷ events else rest

module _ (hash : Str → ℕ) where
  abbrev pub shard_for : Str → ℕ
  shard_for key = hash key % rate_limiter_shards

  -- the events of a key, none where it has no bucket yet
  unfoldable pub events_of : Str → RateLimiter → List ℕ
  events_of key r = elim (lookup key (r.shards (shard_for key))) [
    | none ↦ []
    | some events ↦ events
  ]

  unfoldable pub set_events : Str → List ℕ → RateLimiter → RateLimiter
  set_events key events r = record r {
    shards = λ i. if i == shard_for key then insert key events (r.shards i) else r.shards i;
  }

  unfoldable pub allow : ℕ → Str → RateLimiter → Bool × RateLimiter
  allow now key r =
      let events = prune r.window now (events_of key r) in
      if leb r.max (length events)
      then (false, set_events key events r)
      else (true, set_events key (events ++ now ∷ []) r)
