-- ===== src/Limits/Tokens/Examples.antt =====
-- The theorems about token buckets at concrete calls. Rates are whole numbers, and a bucket grants
-- as many calls as its burst.
use stowage.Base.Int64.{lt64, add64}
use stowage.Base.{
  ◌*◌, ◌&&◌, ℕ, ◌≡◌, refl, ◌≢◌, true, false, none, some, List, [], ◌∷◌, arith, ltb, length, all,
  Str, codes, str_eq, cut,
}
use stowage.Base.Dict.{lookup, insert}
use stowage.Base.Http.{Header}
use stowage.Limits.Tokens.{
  Rate, burst_of, take_token, Limiter, bucket_of, allow_key, allow, client_ip, Net, remote_ip,
  ip_is_trusted, allow_at, new_ip_limiter, bucket_at, rate_at,
}
use stowage.Limits.Tokens.Keys.{allow-separate, client_ip-trusted}
use stowage.Limits.Tokens.Rates.{StartsFull, answers, Alternates, answers-alternating}

abbrev whole : Rate
whole = record {
  is_positive = λ r. ltb 0 r;
  int_of_double = λ r. r * 2;
  grants = λ b now. lt64 0 b.burst && ltb (length b.calls) b.burst;
}

abbrev busy : Limiter
busy = record {
  global = none;
  per_key = (codes "AK", record { limit = 5; burst = 2; calls = 9 ∷ 8 ∷ [] }) ∷ [];
  per_rate = 5;
}

busy_test : (allow whole 9 (codes "AK") busy).0 ≡ false
unfolding allow allow_key take_token bucket_of lookup str_eq lt64
busy_test = refl

allow-separate_example :
    ((other : Str)
      → other ≢ codes "AK"
      → lookup other (allow whole 9 (codes "AK") busy).1.per_key ≡ lookup other busy.per_key)
    × (busy.global ≡ none
        → whole.is_positive busy.per_rate ≡ true
        → (allow whole 9 (codes "AK") busy).0
          ≡ whole.grants (bucket_of whole busy.per_rate (codes "AK") busy.per_key) 9)
allow-separate_example = allow-separate whole 9 (codes "AK") busy

abbrev net : Net
net = record {
  split_host = λ addr. elim (cut b':' addr) [ none ↦ none | some (host, port) ↦ some host ];
  contains = λ cidr ip. str_eq cidr ip;
}

abbrev spoofed : Header
spoofed = (codes "X-Forwarded-For", codes "10.0.0.1" ∷ []) ∷ []

client_ip-trusted_example :
    client_ip net (codes "1.2.3.4:80") spoofed (some (codes "9.9.9.9" ∷ []))
    ≡ remote_ip net (codes "1.2.3.4:80")
unfolding remote_ip ip_is_trusted str_eq cut
client_ip-trusted_example =
    client_ip-trusted net (codes "1.2.3.4:80") spoofed (codes "9.9.9.9" ∷ []) refl

whole-StartsFull : StartsFull whole
unfolding StartsFull lt64
whole-StartsFull b now pos burst fresh = grind (arith, fresh, burst)

abbrev one_rate : List (ℕ × ℕ)
one_rate = (1, 1) ∷ (1, 1) ∷ (1, 1) ∷ (1, 1) ∷ []

abbrev two_rates : List (ℕ × ℕ)
two_rates = (1, 1) ∷ (1, 2) ∷ (1, 1) ∷ (1, 2) ∷ (1, 1) ∷ (1, 2) ∷ (1, 1) ∷ (1, 2) ∷ []

one_rate_test :
    answers whole (codes "ip") one_rate (new_ip_limiter 0) ≡ true ∷ true ∷ true ∷ false ∷ []
unfolding answers allow_at rate_at take_token bucket_at burst_of lookup insert str_eq lt64 add64
one_rate_test = refl

two_rates-Alternates : Alternates whole 0 two_rates
unfolding Alternates burst_of lt64 add64
two_rates-Alternates = (
  refl,
  refl,
  omega arith,
  (
    refl,
    refl,
    omega arith,
    (
      refl,
      refl,
      omega arith,
      (
        refl,
        refl,
        omega arith,
        (
          refl,
          refl,
          omega arith,
          (refl, refl, omega arith, (refl, refl, omega arith, (refl, refl, omega arith, tt))),
        ),
      ),
    ),
  ),
)

answers-alternating_example :
    all (λ granted. granted) (answers whole (codes "ip") two_rates (new_ip_limiter 0)) ≡ true
unfolding lookup
answers-alternating_example =
    answers-alternating whole (codes "ip") 0 two_rates (new_ip_limiter 0) whole-StartsFull
      (λ b e. absurd (ground arith)) two_rates-Alternates
