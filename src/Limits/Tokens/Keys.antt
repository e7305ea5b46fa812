-- ===== src/Limits/Tokens/Keys.antt =====
-- The buckets of different access keys and addresses, internal/s3proxy/ratelimit.go.
use stowage.Base.{ℕ, ◌≡◌, ◌≢◌, true, false, none, some, List, arith, Str, str_eq_iff}
use stowage.Base.Dict.{lookup, lookup-insert}
use stowage.Base.Http.{Header}
use stowage.Limits.Tokens.{
  Rate, take_token, Limiter, bucket_of, allow_key, allow, client_ip, Net, remote_ip, ip_is_trusted,
}

-- A call for one access key leaves the bucket of every other key as it was; and where the limiter
-- has no global bucket and a rate for each key, it is granted exactly if the key's own bucket, or
-- a new one for a key that has none, grants it.
pub allow-separate :
    (p : Rate) (now : ℕ) (key : Str) (l : Limiter)
    → ((other : Str)
        → other ≢ key
        → lookup other (allow p now key l).1.per_key ≡ lookup other l.per_key)
      × (l.global ≡ none
          → p.is_positive l.per_rate ≡ true
          → (allow p now key l).0 ≡ p.grants (bucket_of p l.per_rate key l.per_key) now)
unfolding allow allow_key take_token
allow-separate p now key l = (
  λ other ne. ground (
    arith,
    lookup-insert key other (take_token p now (bucket_of p l.per_rate key l.per_key)).1 l.per_key,
    str_eq_iff key other,
  ),
  λ e pos. ground arith,
)

-- With a list of trusted proxies, the address that a request counts under is that of its peer
-- unless the peer is a trusted proxy, whatever the request's headers say.
pub client_ip-trusted :
    (net : Net) (remote_addr : Str) (headers : Header) (cidrs : List Str)
    → ip_is_trusted net (remote_ip net remote_addr) cidrs ≡ false
    → client_ip net remote_addr headers (some cidrs) ≡ remote_ip net remote_addr
unfolding client_ip
client_ip-trusted net remote_addr headers cidrs h = ground arith
