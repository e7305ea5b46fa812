-- ===== src/Limits/Tokens.antt =====
-- internal/s3proxy/ratelimit.go and iplimiter.go: token buckets by access key and by client address.
-- A bucket of golang.org/x/time/rate is its rate, its burst and the times of the calls it has
-- answered, latest first, since its answer depends on nothing else. Rates are the bit patterns of
-- a float64; their sign, int(rate*2) and the answer of a bucket are parameters. Each
-- call is one step, as the mutexes make it. `Keys` is about separate keys, `Rates` about AllowAt.
pub mod Keys
pub mod Rates
mod Examples
use stowage.Base.{
  Fallible, Fallible-cases, ok, err, ◌>>=◌, ◌>>◌, guard, or_fail, ℕ, zero, suc, ◌+◌, ◌-◌, ◌*◌, ◌/◌,
  ◌%◌, ◌^◌, ◌≤◌, ◌<◌, ◌≡◌, refl, sym, ap, subst, ◌∙◌, ◌≢◌, ◌↔◌, ◌⊎◌, inl, inr, Bool, true, false,
  not, ◌&&◌, ◌||◌, Option, none, some, List, [], ◌∷◌, ◌++◌, map, arith, ltb, leb, ◌==◌,
  if◌then◌else◌, ltb→lt, lt→ltb, leb→le, ==_iff, Bool-cases, Option-cases, length, take, drop,
  length-append, take-append-drop, take-length, drop-length, length-take, length-drop, all, any,
  keep, All, Str, codes, str_eq, str_eq_self, str_eq_sound, str_eq_iff, cut-append, cut_sound,
  has_prefix, trim_byte, cut, lower_byte, to_lower, equal_fold, is_space, trim_left, trim_right,
  trim_space, is_newline,
}
use stowage.Base.Dict.{
  Dict, lookup, insert, delete, has, map_values, lookup-insert, lookup-delete, dict_laws,
  lookup-map_values-some, lookup-map_values-none,
}
use stowage.Base.Int64.{modulus, sign_bit, add64, lt64, lt64-small, add64-small}
use stowage.Base.Http.{Header, header_get}

pub record Bucket : Type 0 where
  pub limit : ℕ
  pub burst : ℕ
  pub calls : List ℕ

pub record Rate : Type 0 where
  pub is_positive : ℕ → Bool
  -- int(rate*2), as 64 bits
  pub int_of_double : ℕ → ℕ
  -- whether a bucket grants a call at a time
  pub grants : Bucket → ℕ → Bool

-- int(rate*2)+1
unfoldable pub burst_of : Rate → ℕ → ℕ
burst_of p rate = add64 (p.int_of_double rate) 1

abbrev pub new_bucket : Rate → ℕ → Bucket
new_bucket p rate = record { limit = rate; burst = burst_of p rate; calls = [] }

-- rate.Limiter.Allow
unfoldable pub take_token : Rate → ℕ → Bucket → Bool × Bucket
take_token p now b = (p.grants b now, record b { calls = now ∷ b.calls })

pub record Limiter : Type 0 where
  pub global : Option Bucket
  pub per_key : Dict Bucket
  pub per_rate : ℕ

-- `NewLimiter`
unfoldable pub new_limiter : Rate → ℕ → ℕ → Limiter
new_limiter p global_rps per_key_rps = record {
  global = (if p.is_positive global_rps then some (new_bucket p global_rps) else none);
  per_key = [];
  per_rate = per_key_rps;
}

-- the bucket of a key, a new one where it has none yet
unfoldable pub bucket_of : Rate → ℕ → Str → Dict Bucket → Bucket
bucket_of p rate key m = elim (lookup key m) [ none ↦ new_bucket p rate | some b ↦ b ]

-- the second half of `Limiter.Allow`, after the global bucket
unfoldable pub allow_key : Rate → ℕ → Str → Limiter → Bool × Limiter
allow_key p now key l =
    if not (p.is_positive l.per_rate)
    then (true, l)
    else let (granted, b) = take_token p now (bucket_of p l.per_rate key l.per_key) in
      (granted, record l { per_key = insert key b l.per_key })

-- `Limiter.Allow`
unfoldable pub allow : Rate → ℕ → Str → Limiter → Bool × Limiter
allow p now key l = elim l.global [
  | none ↦ allow_key p now key l
  | some g ↦
      let (granted, g') = take_token p now g in
      let l' = record l { global = some g' } in
      if granted then allow_key p now key l' else (false, l')
]

pub record IpLimiter : Type 0 where
  pub per_ip : Dict Bucket
  pub rate : ℕ

-- `NewIPLimiter`
abbrev pub new_ip_limiter : ℕ → IpLimiter
new_ip_limiter per_ip_rps = record { per_ip = []; rate = per_ip_rps }

-- `IPLimiter.Allow` on a limiter that is not nil
unfoldable pub allow_ip : Rate → ℕ → Str → IpLimiter → Bool × IpLimiter
allow_ip p now ip l =
    if not (p.is_positive l.rate)
    then (true, l)
    else let (granted, b) = take_token p now (bucket_of p l.rate ip l.per_ip) in
      (granted, record l { per_ip = insert ip b l.per_ip })

-- The bucket that AllowAt uses: the address's own if its rate is the one that is asked for, and a
-- new one otherwise.
unfoldable pub bucket_at : Rate → ℕ → Str → Dict Bucket → Bucket
bucket_at p rate ip m = elim (lookup ip m) [
  | none ↦ new_bucket p rate
  | some b ↦ if b.limit == rate then b else new_bucket p rate
]

unfoldable pub rate_at : Rate → ℕ → IpLimiter → ℕ
rate_at p binding_rps l = if p.is_positive binding_rps then binding_rps else l.rate

-- `IPLimiter.AllowAt` on a limiter that is not nil
unfoldable pub allow_at : Rate → ℕ → Str → ℕ → IpLimiter → Bool × IpLimiter
allow_at p now ip binding_rps l =
    let r = rate_at p binding_rps l in
    if not (p.is_positive r)
    then (true, l)
    else let (granted, b) = take_token p now (bucket_at p r ip l.per_ip) in
      (granted, record l { per_ip = insert ip b l.per_ip })

-- net.SplitHostPort and net.IPNet.Contains after net.ParseIP
pub record Net : Type 0 where
  pub split_host : Str → Option Str
  pub contains : Str → Str → Bool

unfoldable pub remote_ip : Net → Str → Str
remote_ip net addr = elim (net.split_host addr) [ none ↦ addr | some host ↦ host ]

unfoldable pub ip_is_trusted : Net → Str → List Str → Bool
ip_is_trusted net ip [] = false
ip_is_trusted net ip (n ∷ cidrs) = net.contains n ip || ip_is_trusted net ip cidrs

-- `ClientIP`; no list of proxies is nil
unfoldable pub client_ip : Net → Str → Header → Option (List Str) → Str
client_ip net remote_addr headers trusted_proxies =
    let remote = remote_ip net remote_addr in
    let xff = header_get (codes "X-Forwarded-For") headers in
    let entry : Str = elim (cut b',' xff) [ none ↦ xff | some (l, r) ↦ l ] in
    let first = trim_space entry in
    let trusted : Bool = elim trusted_proxies [
      | none ↦ true
      | some cidrs ↦ ip_is_trusted net remote cidrs
    ] in
    if str_eq xff [] then remote else if trusted then first else remote
