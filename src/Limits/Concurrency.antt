-- ===== src/Limits/Concurrency.antt =====
-- internal/s3proxy/concurrency.go: the global and per-key caps on requests in flight. A buffered channel
-- is the number of slots in use. A call of Acquire goes through phases, and each of its channel
-- operations is one event, so that the calls of several goroutines interleave in any order; a select
-- takes a slot where one is free, or gives up when its context is done.
pub mod Balance
pub mod Caps
mod Examples
use stowage.Base.{
  Fallible, Fallible-cases, ok, err, ◌>>=◌, ◌>>◌, guard, or_fail, ℕ, zero, suc, ◌+◌, ◌-◌, ◌*◌, ◌/◌,
  ◌%◌, ◌^◌, ◌≤◌, ◌<◌, ◌≡◌, refl, sym, ap, subst, ◌∙◌, ◌≢◌, ◌↔◌, ◌⊎◌, inl, inr, Bool, true, false,
  not, ◌&&◌, ◌||◌, Option, none, some, List, [], ◌∷◌, ◌++◌, map, arith, ltb, leb, ◌==◌,
  if◌then◌else◌, ltb→lt, lt→ltb, leb→le, ==_iff, Bool-cases, Option-cases, length, take, drop,
  length-append, take-append-drop, take-length, drop-length, length-take, length-drop, all, any,
  keep, All, Str, codes, str_eq, str_eq_self, str_eq_sound, str_eq_iff, cut-append, cut_sound,
  has_prefix, trim_byte, cut, lower_byte, to_lower, equal_fold, is_space, trim_left, trim_right,
  trim_space, is_newline,
}
use stowage.Base.Dict.{
  Dict, lookup, insert, delete, has, map_values, lookup-insert, lookup-delete, dict_laws,
  lookup-map_values-some, lookup-map_values-none,
}
use stowage.Base.Int64.{modulus, sign_bit, add64, lt64, lt64-small, add64-small}

pub record Limiter : Type 0 where
  -- slots in use, overall and by key; a key with no channel yet uses none
  pub global : ℕ
  pub per_key : Dict ℕ
  -- a cap of 0 is no cap
  pub global_max : ℕ
  pub per_max : ℕ

-- `NewConcurrencyLimiter`
abbrev pub new_concurrency_limiter : ℕ → ℕ → Limiter
new_concurrency_limiter global_max per_key_max = record {
  global = 0;
  per_key = [];
  global_max = global_max;
  per_max = per_key_max;
}

unfoldable pub in_use : Str → Limiter → ℕ
in_use key l = elim (lookup key l.per_key) [ none ↦ 0 | some n ↦ n ]

abbrev pub set_in_use : Str → ℕ → Limiter → Limiter
set_in_use key n l = record l { per_key = insert key n l.per_key }

-- `keyCh <- struct{}{}`, none while the channel is full
unfoldable pub take_key_slot : Str → Limiter → Option Limiter
take_key_slot key l =
    if l.per_max == 0
    then some l
    else if ltb (in_use key l) l.per_max
    then some (set_in_use key (in_use key l + 1) l)
    else none

-- `<-keyCh`
unfoldable pub free_key_slot : Str → Limiter → Limiter
free_key_slot key l = if l.per_max == 0 then l else set_in_use key (in_use key l - 1) l

-- `l.global <- struct{}{}` and `<-l.global`
unfoldable pub take_global_slot : Limiter → Option Limiter
take_global_slot l =
    if l.global_max == 0
    then some l
    else if ltb l.global l.global_max
    then some (record l { global = l.global + 1 })
    else none

unfoldable pub free_global_slot : Limiter → Limiter
free_global_slot l = if l.global_max == 0 then l else record l { global = l.global - 1 }

-- Where a call stands: before its key slot, before its global slot, with both, with its key slot
-- alone on the way out, or finished.
pub data Phase : Type 0 where
  wants_key wants_global holds returns_key over : Phase

pub record Call : Type 0 where
  pub key : Str
  pub phase : Phase

pub data Event : Type 0 where
  slot_free context_done release : Event

-- What an event does to one call and the limiter, none where it cannot happen.
unfoldable pub transition : Event → Call → Limiter → Option (Call × Limiter)
transition event c l = elim c.phase [
  | wants_key ↦ elim event [
    | slot_free ↦ elim (take_key_slot c.key l) [
      | none ↦ none
      | some l' ↦ some (record c { phase = wants_global }, l')
    ]
    | context_done ↦ some (record c { phase = over }, l)
    | release ↦ none
  ]
  | wants_global ↦ elim event [
    | slot_free ↦ elim (take_global_slot l) [
      | none ↦ none
      | some l' ↦ some (record c { phase = holds }, l')
    ]
    | context_done ↦ some (record c { phase = returns_key }, l)
    | release ↦ none
  ]
  | holds ↦ elim event [
    | release ↦ some (record c { phase = returns_key }, free_global_slot l)
    | _ ↦ none
  ]
  | returns_key ↦ elim event [
    | release ↦ some (record c { phase = over }, free_key_slot c.key l)
    | _ ↦ none
  ]
  | over ↦ none
]
