-- ===== src/Sigv4/Verifier/Skew.antt =====
-- The clock check of internal/sigv4verifier/verifier.go, and the lifetime of presigned URLs.
use stowage.Base.{
  ok, ℕ, ◌+◌, ◌-◌, ◌*◌, ◌≤◌, ◌<◌, ◌≡◌, ◌↔◌, ◌⊎◌, false, ◌&&◌, some, arith, ltb, leb, if◌then◌else◌,
  Str,
}
use stowage.Base.Int64.{sign_bit, lt64}
use stowage.Base.Http.{parse_int-lt}
use stowage.Sigv4.Verifier.{
  World, Request, second, skew, sub_time, abs, is_skewed, Attempt, header_attempt, parse_expires,
  presigned_attempt, max_expires,
}

-- The distance of two instants as `abs` of `Sub` gives it: it is capped, and a time that lies too
-- far ahead comes out negative.
unfoldable capped : ℕ → ℕ → ℕ
capped t u =
    if leb (u + sign_bit) t
    then sign_bit - 1
    else if leb (t + sign_bit) u
    then sign_bit
    else (t - u) + (u - t)

abs-sub_time : (t u : ℕ) → abs (sub_time t u) ≡ capped t u
unfolding abs sub_time lt64 capped
abs-sub_time t u = ground arith

-- a positive pattern is below no negative one
lt64-pattern : (s d : ℕ) → s < sign_bit → d ≤ sign_bit → lt64 s d ≡ ltb s d && ltb d sign_bit
unfolding lt64
lt64-pattern s d hs hd = ground arith

capped-IsPattern : (t u : ℕ) → capped t u ≤ sign_bit
unfolding capped
capped-IsPattern t u = ground arith

-- For a skew below the largest duration: a request's time passes the clock check exactly if it
-- lies at most the skew before or after the clock, or more than 2 ^ 63 - 1 nanoseconds after it.
pub is_skewed_iff :
    (w : World) (t : ℕ)
    → skew w + 1 < sign_bit
    → (is_skewed w t ≡ false)
      ↔ (((t ≤ w.now 0 + skew w) × (w.now 0 ≤ t + skew w)) ⊎ (w.now 0 + sign_bit ≤ t))
unfolding is_skewed capped
is_skewed_iff w t h = rw (abs-sub_time (w.now 0) t) (
    rw (lt64-pattern (skew w) (capped (w.now 0) t) (omega arith) (capped-IsPattern (w.now 0) t))
      (ground arith))

parse_expires-bounds : (s : Str) (n : ℕ) → parse_expires s ≡ some n → (1 ≤ n) × (n ≤ max_expires)
unfolding parse_expires lt64
parse_expires-bounds s n h = ground (arith, parse_int-lt s n)

pub presigned_attempt-lifetime :
    (w : World) (r : Request) (a : Attempt)
    → presigned_attempt w r ≡ ok a
    → (second ≤ a.expires) × (a.expires ≤ max_expires * second) × (w.now 1 ≤ a.req_time + a.expires)
unfolding presigned_attempt
presigned_attempt-lifetime w r a h = grind (arith, parse_expires-bounds)

pub header_attempt-plain :
    (w : World) (r : Request) (a : Attempt) → header_attempt w r ≡ ok a → a.presigned ≡ false
unfolding header_attempt
header_attempt-plain w r a h = ground arith
