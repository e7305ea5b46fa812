-- ===== src/Limits/Tokens/Rates.antt =====
-- AllowAt of internal/s3proxy/iplimiter.go, with the rate that a binding asks for.
use stowage.Base.{
  ℕ, ◌≡◌, refl, ◌≢◌, inl, inr, Bool, true, some, List, [], ◌∷◌, arith, Option-cases, all, Str,
  str_eq_self,
}
use stowage.Base.Dict.{lookup, has, lookup-insert}
use stowage.Base.Int64.{lt64}
use stowage.Limits.Tokens.{
  Bucket, Rate, burst_of, new_bucket, take_token, IpLimiter, bucket_at, rate_at, allow_at,
}

-- The calls of one address at a time each with the rate of its bucket's binding, and the answers.
unfoldable pub answers : Rate → Str → List (ℕ × ℕ) → IpLimiter → List Bool
answers p ip [] l = []
answers p ip ((now, rps) ∷ calls) l =
    (allow_at p now ip rps l).0 ∷ answers p ip calls (allow_at p now ip rps l).1

-- a bucket with a positive rate and a positive burst that has answered no call yet grants one
unfoldable pub StartsFull : Rate → Type 0
StartsFull p =
    (b : Bucket) (now : ℕ)
    → p.is_positive b.limit ≡ true
    → lt64 0 b.burst ≡ true
    → b.calls ≡ []
    → p.grants b now ≡ true

-- every rate is positive, with a positive burst, and differs from the one before
unfoldable pub Alternates : Rate → ℕ → List (ℕ × ℕ) → Type 0
Alternates p before [] = Unit
Alternates p before ((now, rps) ∷ calls) =
    (p.is_positive rps ≡ true)
    × (lt64 0 (burst_of p rps) ≡ true)
    × (rps ≢ before)
    × Alternates p rps calls

-- the rate of the bucket that an address has
unfoldable HasRate : Str → ℕ → IpLimiter → Type 0
HasRate ip rate l = (b : Bucket) → lookup ip l.per_ip ≡ some b → b.limit ≡ rate

bucket_at-fresh :
    (p : Rate) (ip : Str) (rps before : ℕ) (l : IpLimiter)
    → rps ≢ before
    → HasRate ip before l
    → bucket_at p rps ip l.per_ip ≡ new_bucket p rps
unfolding bucket_at HasRate
bucket_at-fresh p ip rps before l ne has = elim (Option-cases (lookup ip l.per_ip)) [
  | inl e ↦ ground arith
  | inr (b, e) ↦ ground (arith, has b e)
]

allow_at-fresh :
    (p : Rate) (now : ℕ) (ip : Str) (rps before : ℕ) (l : IpLimiter)
    → p.is_positive rps ≡ true
    → rps ≢ before
    → HasRate ip before l
    → ((allow_at p now ip rps l).0 ≡ p.grants (new_bucket p rps) now)
      × HasRate ip rps (allow_at p now ip rps l).1
unfolding allow_at rate_at take_token HasRate
allow_at-fresh p now ip rps before l pos ne has =
    let fresh : bucket_at p rps ip l.per_ip ≡ new_bucket p rps =
      bucket_at-fresh p ip rps before l ne has in
    (
      ground arith,
      λ b e. ground (
        arith,
        lookup-insert ip ip (take_token p now (new_bucket p rps)).1 l.per_ip,
        str_eq_self ip,
      ),
    )

-- Calls of one address whose rates are positive, with a burst int(rate*2)+1 that is positive too,
-- and each unlike the one before, as they are when it turns to buckets with different bindings in
-- turn, are all granted, however many they are and however close, if a token bucket starts full and
-- the address's own bucket, where it has one, has a rate unlike the first.
pub answers-alternating :
    (p : Rate) (ip : Str) (before : ℕ) (calls : List (ℕ × ℕ)) (l : IpLimiter)
    → StartsFull p
    → ((b : Bucket) → lookup ip l.per_ip ≡ some b → b.limit ≡ before)
    → Alternates p before calls
    → all (λ granted. granted) (answers p ip calls l) ≡ true
unfolding answers Alternates HasRate StartsFull
answers-alternating p ip before [] l full has alt = refl
answers-alternating p ip before ((now, rps) ∷ calls) l full has alt =
    let (granted, has') = allow_at-fresh p now ip rps before l alt.0 alt.2 has in
    let rest = answers-alternating p ip rps calls (allow_at p now ip rps l).1 full has' alt.3 in
    rw granted (rw (full (new_bucket p rps) now alt.0 alt.1 refl) rest)
