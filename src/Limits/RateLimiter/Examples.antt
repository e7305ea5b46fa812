-- ===== src/Limits/RateLimiter/Examples.antt =====
-- The rate limiter run.
use stowage.Base.{ℕ, ◌≤◌, ◌≡◌, refl, true, false, [], ◌∷◌, arith, length, Str, codes, str_eq}
use stowage.Base.Dict.{lookup, insert}
use stowage.Limits.RateLimiter.{RateLimiter, new_rate_limiter, allow, events_of, set_events, prune}
use stowage.Limits.RateLimiter.Window.{Calls, allow-IsLimited}
use stowage.Limits.RateLimiter.Buckets.{live}

abbrev key_length : Str → ℕ
key_length = length

abbrev fresh : RateLimiter
fresh = new_rate_limiter 1 10

abbrev once : RateLimiter
once = (allow key_length 5 (codes "ip") fresh).1

abbrev twice : RateLimiter
twice = (allow key_length 9 (codes "ip") once).1

first_passes : (allow key_length 5 (codes "ip") fresh).0 ≡ true
unfolding allow prune events_of lookup
first_passes = refl

second_refused : (allow key_length 9 (codes "ip") once).0 ≡ false
unfolding allow prune events_of lookup set_events insert str_eq
second_refused = refl

calls : Calls key_length fresh (codes "ip") (5 ∷ []) 9 twice
unfolding allow str_eq prune events_of lookup set_events insert
calls =
    Calls.call 9 (codes "ip") (Calls.call 5 (codes "ip") Calls.start (omega arith)) (omega arith)

allow-IsLimited_example : live 10 12 (5 ∷ []) ≤ 1
allow-IsLimited_example =
    allow-IsLimited key_length 1 10 (codes "ip") (5 ∷ []) 9 12 twice calls (omega arith)
