-- ===== src/Sigv4/Verifier.antt =====
-- internal/sigv4verifier/verifier.go and postpolicy.go: whether a request or a form is signed with a
-- key that the proxy knows. The hash functions, the resolver of access keys and the parsing and
-- printing of times by package time are parameters. An instant is a number of nanoseconds, a
-- duration the pattern of an int64, and method names are text. `Skew` is about the clock,
-- `SigningKeys` about the cache of derived keys, `Accepted` about requests that pass, `Rejected`
-- about those that do not, `Fields` about the Authorization header and `Form` about `VerifyPolicy`.
pub mod Skew
pub mod SigningKeys
pub mod Accepted
pub mod Rejected
pub mod Fields
pub mod Form
mod Examples
use stowage.Base.{
  Fallible, Fallible-cases, ok, err, ◌>>=◌, ◌>>◌, guard, or_fail, ℕ, zero, suc, ◌+◌, ◌-◌, ◌*◌, ◌/◌,
  ◌%◌, ◌^◌, ◌≤◌, ◌<◌, ◌≡◌, refl, sym, ap, subst, ◌∙◌, ◌≢◌, ◌↔◌, ◌⊎◌, inl, inr, Bool, true, false,
  not, ◌&&◌, ◌||◌, Option, none, some, List, [], ◌∷◌, ◌++◌, map, arith, ltb, leb, ◌==◌,
  if◌then◌else◌, ltb→lt, lt→ltb, leb→le, ==_iff, Bool-cases, Option-cases, length, take, drop,
  length-append, take-append-drop, take-length, drop-length, length-take, length-drop, all, any,
  keep, All, Str, codes, str_eq, str_eq_self, str_eq_sound, str_eq_iff, cut-append, cut_sound,
  has_prefix, trim_byte, cut, lower_byte, to_lower, equal_fold, is_space, trim_left, trim_right,
  trim_space, is_newline,
}
use stowage.Base.Dict.{
  Dict, lookup, insert, delete, has, map_values, lookup-insert, lookup-delete, dict_laws,
  lookup-map_values-some, lookup-map_values-none,
}
use stowage.Base.Int64.{modulus, sign_bit, add64, lt64, lt64-small, add64-small}
use stowage.Base.Http.{Header, header_get, header_set, format_int, parse_int}
use stowage.Sigv4.Canonical.{Headers, Values, canonical_request, split, extract_signed_headers}
use stowage.Sigv4.Chunked.{Crypto, hex_encode}

pub data AuthError : Type 0 where
  missing_auth malformed_auth invalid_access_key signature_mismatch : AuthError
  request_expired request_time_skewed unsupported_algo invalid_credential : AuthError

pub record World : Type 0 where
  pub crypto : Crypto
  -- FNV-64a of package hash/fnv
  pub fnv64a : Str → ℕ
  -- the verifier's Resolver
  pub resolve : Str → Option Str
  -- what the clock shows the first time it is read, the second time and so on
  pub now : ℕ → ℕ
  pub max_skew : ℕ
  -- time.Parse with the basic ISO layout and with time.RFC1123
  pub parse_basic : Str → Option ℕ
  pub parse_rfc1123 : Str → Option ℕ
  -- Format with "20060102" and with the basic ISO layout
  pub format_day : ℕ → Str
  pub format_basic : ℕ → Str

pub record Request : Type 0 where
  pub method : Str
  pub path : Str
  pub query : Values
  pub headers : Headers
  pub host : Str
  pub content_length : ℕ

pub record Result : Type 0 where
  pub access_key_id : Str
  pub region : Str
  pub service : Str
  pub date : ℕ
  pub signed_headers : List Str
  pub payload_hash : Str
  pub presigned : Bool
  pub expires : ℕ
  pub signing_key : Str
  pub seed_signature : Str

abbrev pub null : Str → Bool
null [] = true
null (c ∷ s) = false

abbrev pub algorithm : Str
algorithm = codes "AWS4-HMAC-SHA256"

abbrev pub unsigned_payload : Str
unsigned_payload = codes "UNSIGNED-PAYLOAD"

abbrev pub streaming_payload : Str
streaming_payload = codes "STREAMING-AWS4-HMAC-SHA256-PAYLOAD"

abbrev pub second : ℕ
second = 1000000000

-- `MaxClockSkew`
abbrev pub max_clock_skew : ℕ
max_clock_skew = 15 * 60 * second

unfoldable pub skew : World → ℕ
skew w = if lt64 0 w.max_skew then w.max_skew else max_clock_skew

-- time.Time.Sub, which stops at the largest and the smallest duration
unfoldable pub sub_time : ℕ → ℕ → ℕ
sub_time t u =
    if leb u t
    then (if ltb (t - u) sign_bit then t - u else sign_bit - 1)
    else if leb (u - t) sign_bit
    then modulus - (u - t)
    else sign_bit

-- `abs`, whose negation wraps
unfoldable pub abs : ℕ → ℕ
abs d = if lt64 d 0 then (modulus - d) % modulus else d

unfoldable pub is_skewed : World → ℕ → Bool
is_skewed w req_time = lt64 (skew w) (abs (sub_time (w.now 0) req_time))

unfoldable pub parse_date : World → Str → Option ℕ
parse_date w [] = none
parse_date w (c ∷ s) = elim (w.parse_basic (c ∷ s)) [
  | some t ↦ some t
  | none ↦ w.parse_rfc1123 (c ∷ s)
]

-- `signingKeyKey` and `signingKeyEntry`; the cache is the sync.Map, newest entry first.
pub record Scope : Type 0 where
  pub akid : Str
  pub date : Str
  pub region : Str
  pub service : Str

pub record SigningKeyEntry : Type 0 where
  pub fp : ℕ
  pub key : Str

abbrev pub Cache : Type 0
Cache = List (Scope × SigningKeyEntry)

unfoldable pub scope_eq : Scope → Scope → Bool
scope_eq a b =
    str_eq a.akid b.akid
    && str_eq a.date b.date
    && str_eq a.region b.region
    && str_eq a.service b.service

unfoldable pub load : Scope → Cache → Option SigningKeyEntry
load k [] = none
load k ((j, e) ∷ cache) = let rest = load k cache in if scope_eq j k then some e else rest

unfoldable pub derive_signing_key : Crypto → Str → Scope → Str
derive_signing_key c secret k =
    let k_date = c.hmac_sha256 (codes "AWS4" ++ secret) k.date in
    let k_region = c.hmac_sha256 k_date k.region in
    let k_service = c.hmac_sha256 k_region k.service in
    c.hmac_sha256 k_service (codes "aws4_request")

-- `signingKey`
unfoldable pub signing_key : World → Cache → Str → Scope → Cache × Str
signing_key w cache secret k =
    let fp = w.fnv64a secret in
    let derived = derive_signing_key w.crypto secret k in
    let stored : Cache × Str = ((k, record { fp = fp; key = derived }) ∷ cache, derived) in
    elim (load k cache) [ none ↦ stored | some e ↦ if e.fp == fp then (cache, e.key) else stored ]

-- `InvalidateSigningKeys`
unfoldable pub invalidate_signing_keys : Cache → Cache
invalidate_signing_keys cache = []

unfoldable pub credential_scope : Str → Option Scope
credential_scope credential = elim (split b'/' credential) [
  | akid ∷ date ∷ region ∷ service ∷ terminator ∷ [] ↦
      if str_eq terminator (codes "aws4_request")
      then some (record { akid = akid; date = date; region = region; service = service })
      else none
  | _ ↦ none
]

pub record HeaderAuth : Type 0 where
  pub scope : Scope
  pub signed_headers : List Str
  pub signature : Str

abbrev pub no_scope : Scope
no_scope = record { akid = []; date = []; region = []; service = [] }

-- one round of the loop of `parseHeaderAuth`
unfoldable pub parse_field : HeaderAuth → Str → Fallible AuthError HeaderAuth
parse_field a p = do
  (k, val) ← or_fail (cut b'=' (trim_space p)) malformed_auth
  if str_eq k (codes "Credential")
      then elim (credential_scope val) [
        | none ↦ err invalid_credential
        | some scope ↦ ok (record a { scope = scope })
      ]
      else if str_eq k (codes "SignedHeaders")
      then ok (record a { signed_headers = extract_signed_headers val })
      else if str_eq k (codes "Signature")
      then ok (record a { signature = to_lower val })
      else err malformed_auth

unfoldable pub parse_fields : HeaderAuth → List Str → Fallible AuthError HeaderAuth
parse_fields a [] = ok a
parse_fields a (p ∷ ps) = do a' ← parse_field a p; parse_fields a' ps

abbrev pub no_headers : List Str → Bool
no_headers [] = true
no_headers (h ∷ hs) = false

abbrev pub header_prefix : Str
header_prefix = codes "AWS4-HMAC-SHA256 "

unfoldable pub parse_header_auth : Str → Fallible AuthError HeaderAuth
parse_header_auth h = do
  guard (has_prefix h header_prefix) unsupported_algo
  a ←
      parse_fields (record { scope = no_scope; signed_headers = []; signature = [] })
        (split b',' (drop (length header_prefix) h))
  guard (not (null a.scope.akid || no_headers a.signed_headers || null a.signature)) malformed_auth
  ok a

-- `cloneHeaderWithHost`
unfoldable pub clone_header_with_host : Request → Headers
clone_header_with_host r =
    let h =
      if null (header_get (codes "host") r.headers) && not (null r.host)
      then insert (codes "host") (r.host ∷ []) r.headers
      else r.headers in
    if null (header_get (codes "content-length") h) && lt64 0 r.content_length
    then insert (codes "content-length") (format_int r.content_length ∷ []) h
    else h

-- `stringToSign`
unfoldable pub string_to_sign : World → ℕ → Str → Str → Str → Str
string_to_sign w req_time region service canonical =
    let scope = w.format_day req_time ++ b'/' ∷ region ++ b'/' ∷ service ++ codes "/aws4_request" in
    algorithm
    ++ b'\n' ∷ w.format_basic req_time
    ++ b'\n' ∷ scope
    ++ b'\n' ∷ hex_encode (w.crypto.sha256 canonical)

-- What `verifyHeader` and `verifyPresigned` have worked out when they come to the signature.
pub record Attempt : Type 0 where
  pub scope : Scope
  pub secret : Str
  pub req_time : ℕ
  pub signed_headers : List Str
  pub payload_hash : Str
  pub canonical : Str
  pub signature : Str
  pub presigned : Bool
  pub expires : ℕ

abbrev pub or_value : Str → Str → Str
or_value [] other = other
or_value (c ∷ s) other = c ∷ s

-- `verifyHeader` up to the signing key
unfoldable pub header_attempt : World → Request → Fallible AuthError Attempt
header_attempt w r = do
  let auth = header_get (codes "authorization") r.headers
  guard (not (null auth)) missing_auth
  a ← parse_header_auth auth
  let date_str =
      or_value (header_get (codes "x-amz-date") r.headers) (header_get (codes "date") r.headers)
  req_time ← or_fail (parse_date w date_str) malformed_auth
  guard (not (is_skewed w req_time)) request_time_skewed
  secret ← or_fail (w.resolve a.scope.akid) invalid_access_key
  let payload_hash = or_value (header_get (codes "x-amz-content-sha256") r.headers) unsigned_payload
  let canonical =
      canonical_request r.method r.path r.query (clone_header_with_host r) a.signed_headers
        payload_hash
  ok (record {
    scope = a.scope;
    secret = secret;
    req_time = req_time;
    signed_headers = a.signed_headers;
    payload_hash = payload_hash;
    canonical = canonical;
    signature = a.signature;
    presigned = false;
    expires = 0;
  })

abbrev pub max_expires : ℕ
max_expires = 7 * 24 * 3600

-- the bounds on X-Amz-Expires, in seconds
unfoldable pub parse_expires : Str → Option ℕ
parse_expires s = elim (parse_int s) [
  | none ↦ none
  | some n ↦ if lt64 n 1 || lt64 max_expires n then none else some n
]

-- `verifyPresigned` up to the signing key. Encoding the query that is left and parsing it again
-- in CanonicalRequest gives the same values.
unfoldable pub presigned_attempt : World → Request → Fallible AuthError Attempt
presigned_attempt w r = do
  let get = λ (k : Str). header_get k r.query
  guard (str_eq (get (codes "X-Amz-Algorithm")) algorithm) unsupported_algo
  let credential = get (codes "X-Amz-Credential")
  let signed_headers_raw = get (codes "X-Amz-SignedHeaders")
  let date_str = get (codes "X-Amz-Date")
  let expires_str = get (codes "X-Amz-Expires")
  let presented = to_lower (get (codes "X-Amz-Signature"))
  guard
      (not (
        null credential
        || null signed_headers_raw
        || null date_str
        || null presented
        || null expires_str))
      malformed_auth
  scope ← or_fail (credential_scope credential) invalid_credential
  req_time ← or_fail (parse_date w date_str) malformed_auth
  guard (not (is_skewed w req_time)) request_time_skewed
  n ← or_fail (parse_expires expires_str) malformed_auth
  let expires = n * second
  guard (leb (w.now 1) (req_time + expires)) request_expired
  secret ← or_fail (w.resolve scope.akid) invalid_access_key
  let q2 = delete (codes "X-Amz-Signature") r.query
  let signed_headers = extract_signed_headers signed_headers_raw
  let canonical =
      canonical_request r.method r.path q2 (clone_header_with_host r) signed_headers
        unsigned_payload
  ok (record {
    scope = scope;
    secret = secret;
    req_time = req_time;
    signed_headers = signed_headers;
    payload_hash = unsigned_payload;
    canonical = canonical;
    signature = presented;
    presigned = true;
    expires = expires;
  })

-- the signature that a key gives to what a request said
unfoldable pub signature_with : World → Attempt → Str → Str
signature_with w a key = hex_encode (
    w.crypto.hmac_sha256 key
      (string_to_sign w a.req_time a.scope.region a.scope.service a.canonical))

-- The result that both functions build; only verifyHeader fills in the last two fields.
unfoldable pub result_of : Attempt → Str → Str → Result
result_of a key sig =
    let streams = str_eq a.payload_hash streaming_payload in
    record {
      access_key_id = a.scope.akid;
      region = a.scope.region;
      service = a.scope.service;
      date = a.req_time;
      signed_headers = a.signed_headers;
      payload_hash = a.payload_hash;
      presigned = a.presigned;
      expires = a.expires;
      signing_key = (if streams then key else []);
      seed_signature = (if streams then sig else []);
    }

-- the end of both functions, from the signing key on
unfoldable pub settle : World → Cache → Attempt → Cache × Fallible AuthError Result
settle w cache a =
    let (cache', key) = signing_key w cache a.secret a.scope in
    let sig = signature_with w a key in
    if str_eq a.signature sig
    then (cache', ok (result_of a key sig))
    else (cache', err signature_mismatch)

abbrev pub is_presigned : Request → Bool
is_presigned r = not (null (header_get (codes "X-Amz-Signature") r.query))

unfoldable pub attempt : World → Request → Fallible AuthError Attempt
attempt w r = if is_presigned r then presigned_attempt w r else header_attempt w r

-- `Verify`
unfoldable pub verify : World → Cache → Request → Cache × Fallible AuthError Result
verify w cache r = elim (attempt w r) [ err e ↦ (cache, err e) | ok a ↦ settle w cache a ]

pub record PolicyAuth : Type 0 where
  pub algorithm : Str
  pub credential : Str
  pub date : Str
  pub signature : Str
  pub policy : Str

pub record PolicyResult : Type 0 where
  pub access_key_id : Str
  pub region : Str
  pub service : Str
  pub date : ℕ

-- `VerifyPolicy` up to the signing key: the scope, the time and the secret
unfoldable pub policy_attempt : World → PolicyAuth → Fallible AuthError (Scope × ℕ × Str)
policy_attempt w auth = do
  guard (str_eq auth.algorithm algorithm) unsupported_algo
  guard (not (null auth.credential || null auth.date || null auth.signature || null auth.policy))
      malformed_auth
  scope ← or_fail (credential_scope auth.credential) invalid_credential
  req_time ← or_fail (parse_date w auth.date) malformed_auth
  guard (not (is_skewed w req_time)) request_time_skewed
  guard (str_eq (w.format_day req_time) scope.date) invalid_credential
  secret ← or_fail (w.resolve scope.akid) invalid_access_key
  ok (scope, req_time, secret)

unfoldable pub verify_policy : World → Cache → PolicyAuth → Cache × Fallible AuthError PolicyResult
verify_policy w cache auth = elim (policy_attempt w auth) [
  | err e ↦ (cache, err e)
  | ok (scope, req_time, secret) ↦
      let (cache', key) = signing_key w cache secret scope in
      if str_eq (hex_encode (w.crypto.hmac_sha256 key auth.policy)) (to_lower auth.signature)
      then (
        cache',
        ok (record {
          access_key_id = scope.akid;
          region = scope.region;
          service = scope.service;
          date = req_time;
        }),
      )
      else (cache', err signature_mismatch)
]
