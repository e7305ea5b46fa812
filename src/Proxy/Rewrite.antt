-- ===== src/Proxy/Rewrite.antt =====
-- internal/s3proxy/rewrite.go: what of an inbound request is sent on to the backend. Headers and
-- query parameters are dictionaries of lists of values. The rewriting of the Location element of a
-- response is not modelled.
pub mod Headers
pub mod Paths
mod Examples
use stowage.Base.{
  Fallible, Fallible-cases, ok, err, ◌>>=◌, ◌>>◌, guard, or_fail, ℕ, zero, suc, ◌+◌, ◌-◌, ◌*◌, ◌/◌,
  ◌%◌, ◌^◌, ◌≤◌, ◌<◌, ◌≡◌, refl, sym, ap, subst, ◌∙◌, ◌≢◌, ◌↔◌, ◌⊎◌, inl, inr, Bool, true, false,
  not, ◌&&◌, ◌||◌, Option, none, some, List, [], ◌∷◌, ◌++◌, map, arith, ltb, leb, ◌==◌,
  if◌then◌else◌, ltb→lt, lt→ltb, leb→le, ==_iff, Bool-cases, Option-cases, length, take, drop,
  length-append, take-append-drop, take-length, drop-length, length-take, length-drop, all, any,
  keep, All, Str, codes, str_eq, str_eq_self, str_eq_sound, str_eq_iff, cut-append, cut_sound,
  has_prefix, trim_byte, cut, lower_byte, to_lower, equal_fold, is_space, trim_left, trim_right,
  trim_space, is_newline,
}
use stowage.Base.Dict.{
  Dict, lookup, insert, delete, has, map_values, lookup-insert, lookup-delete, dict_laws,
  lookup-map_values-some, lookup-map_values-none,
}
use stowage.Base.Int64.{modulus, sign_bit, add64, lt64, lt64-small, add64-small}
use stowage.Proxy.Route.{null, build_outbound_path}
use stowage.Proxy.Cors.{Header, header_get, header_set}
use stowage.Sigv4.Canonical.{join, split}

unfoldable pub strip_inbound : List Str
strip_inbound =
    codes "authorization"
    ∷ codes "x-amz-date"
    ∷ codes "x-amz-content-sha256"
    ∷ codes "x-amz-security-token"
    ∷ codes "x-amz-decoded-content-length"
    ∷ codes "connection"
    ∷ codes "keep-alive"
    ∷ codes "proxy-authenticate"
    ∷ codes "proxy-authorization"
    ∷ codes "te"
    ∷ codes "trailer"
    ∷ codes "transfer-encoding"
    ∷ codes "upgrade"
    ∷ codes "forwarded"
    ∷ codes "x-forwarded-for"
    ∷ codes "x-forwarded-host"
    ∷ codes "x-forwarded-port"
    ∷ codes "x-forwarded-proto"
    ∷ codes "x-forwarded-prefix"
    ∷ codes "x-real-ip"
    ∷ []

unfoldable pub allowed_amz_prefixes : List Str
allowed_amz_prefixes =
    codes "x-amz-acl"
    ∷ codes "x-amz-copy-source"
    ∷ codes "x-amz-copy-source-range"
    ∷ codes "x-amz-metadata-directive"
    ∷ codes "x-amz-storage-class"
    ∷ codes "x-amz-tagging"
    ∷ codes "x-amz-server-side-encryption"
    ∷ codes "x-amz-mfa"
    ∷ codes "x-amz-grant-full-control"
    ∷ codes "x-amz-grant-read"
    ∷ codes "x-amz-grant-write"
    ∷ codes "x-amz-grant-read-acp"
    ∷ codes "x-amz-grant-write-acp"
    ∷ codes "x-amz-website-redirect-location"
    ∷ codes "x-amz-request-payer"
    ∷ []

abbrev pub user_meta_prefix : Str
user_meta_prefix = codes "x-amz-meta-"

abbrev pub checksum_prefix : Str
checksum_prefix = codes "x-amz-checksum-"

abbrev pub sdk_checksum_algo_header : Str
sdk_checksum_algo_header = codes "x-amz-sdk-checksum-algorithm"

-- membership in one of the sets
abbrev pub listed : Str → List Str → Bool
listed k ks = any (str_eq k) ks

-- the first loop of `PrepareOutboundHeaders`, on one key
unfoldable pub is_checksum_value : Str → Bool
is_checksum_value k =
    let lk = to_lower k in
    has_prefix lk checksum_prefix
    && not (str_eq lk (codes "x-amz-checksum-algorithm"))
    && not (str_eq lk (codes "x-amz-checksum-type"))

abbrev pub names {ℓ} : {V : Type ℓ} → Dict V → List Str
names [] = []
names ((k, v) ∷ m) = k ∷ names m

unfoldable pub has_checksum_value : Header → Bool
has_checksum_value h = any is_checksum_value (names h)

-- the second loop, on one key: whether it is sent on
unfoldable pub forwarded : Bool → Str → Bool
forwarded has_checksum k =
    let lk = to_lower k in
    if listed lk strip_inbound
    then false
    else if not (has_prefix lk (codes "x-amz-"))
    then true
    else if has_prefix lk user_meta_prefix
    then true
    else if has_prefix lk checksum_prefix
    then true
    else if str_eq lk sdk_checksum_algo_header
    then has_checksum
    else listed lk allowed_amz_prefixes

unfoldable pub forward_all : Bool → Header → Header
forward_all has_checksum [] = []
forward_all has_checksum ((k, vs) ∷ h) =
    let rest = forward_all has_checksum h in
    if forwarded has_checksum k then (k, vs) ∷ rest else rest

unfoldable pub prepare_outbound_headers : Header → Header
prepare_outbound_headers h = forward_all (has_checksum_value h) h

abbrev pub aws_chunked : Str
aws_chunked = codes "aws-chunked"

abbrev pub is_aws_chunked : Str → Bool
is_aws_chunked p = equal_fold (trim_space p) aws_chunked

-- `HasAwsChunkedEncoding`
unfoldable pub has_aws_chunked_encoding : Header → Bool
has_aws_chunked_encoding h =
    any is_aws_chunked (split b',' (header_get (codes "Content-Encoding") h))

-- the loop of `StripAwsChunkedEncoding`
unfoldable pub kept_encodings : List Str → List Str
kept_encodings [] = []
kept_encodings (p ∷ ps) =
    let rest = kept_encodings ps in
    let token = trim_space p in
    if null token || equal_fold token aws_chunked then rest else token ∷ rest

unfoldable pub strip_aws_chunked_encoding : Header → Header
strip_aws_chunked_encoding h =
    let ce = header_get (codes "Content-Encoding") h in
    if null ce then h else elim (kept_encodings (split b',' ce)) [
      | [] ↦ delete (codes "Content-Encoding") h
      | p ∷ ps ↦ header_set (codes "Content-Encoding") (join (b',' ∷ []) (p ∷ ps)) h
    ]

-- `isAWSUnreserved`
unfoldable pub is_aws_unreserved : ℕ → Bool
is_aws_unreserved c =
    if leb b'A' c && leb c b'Z'
    then true
    else if leb b'a' c && leb c b'z'
    then true
    else if leb b'0' c && leb c b'9'
    then true
    else c == b'-' || c == b'.' || c == b'_' || c == b'~'

-- the digit of "0123456789ABCDEF" at an index below 16
abbrev pub hex_char : ℕ → ℕ
hex_char n = if ltb n 10 then b'0' + n else b'A' + (n - 10)

unfoldable pub escape_loop : Str → Str
escape_loop [] = []
escape_loop (c ∷ s) =
    let rest = escape_loop s in
    if is_aws_unreserved c then c ∷ rest else b'%' ∷ hex_char (c / 16) ∷ hex_char (c % 16) ∷ rest

-- `awsPathEscape`, with its fast path
unfoldable pub aws_path_escape : Str → Str
aws_path_escape s = if all is_aws_unreserved s then s else escape_loop s

-- `awsKeyEscape`
unfoldable pub aws_key_escape : Str → Str
aws_key_escape key = elim (cut b'/' key) [
  | none ↦ aws_path_escape key
  | some parts ↦ join (b'/' ∷ []) (map aws_path_escape (split b'/' key))
]

unfoldable pub build_outbound_raw_path : Str → Str → Str
build_outbound_raw_path real_bucket [] = b'/' ∷ aws_path_escape real_bucket
build_outbound_raw_path real_bucket (c ∷ key) =
    b'/' ∷ aws_path_escape real_bucket ++ b'/' ∷ aws_key_escape (c ∷ key)

unfoldable pub presigned_query_params : List Str
presigned_query_params =
    codes "X-Amz-Algorithm"
    ∷ codes "X-Amz-Credential"
    ∷ codes "X-Amz-Date"
    ∷ codes "X-Amz-Expires"
    ∷ codes "X-Amz-SignedHeaders"
    ∷ codes "X-Amz-Signature"
    ∷ codes "X-Amz-Security-Token"
    ∷ []

-- the loop of `StripPresignedQuery` on the parsed query
unfoldable pub delete_all : List Str → Dict (List Str) → Dict (List Str)
delete_all [] q = q
delete_all (k ∷ ks) q = delete_all ks (if has k q then delete k q else q)

-- url.ParseQuery, which is none on an error, and url.Values.Encode
pub record Url : Type 0 where
  pub parse_query : Str → Option (Dict (List Str))
  pub encode : Dict (List Str) → Str

unfoldable pub strip_presigned_query : Url → Str → Str
strip_presigned_query url raw = elim (url.parse_query raw) [
  | none ↦ raw
  | some q ↦
      if not (null raw) && any (λ k. has k q) presigned_query_params
      then url.encode (delete_all presigned_query_params q)
      else raw
]
