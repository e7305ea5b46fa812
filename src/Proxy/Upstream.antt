-- ===== src/Proxy/Upstream.antt =====
-- The outbound half of internal/s3proxy/server.go: the request that goes to the backend, its signing
-- and its retries. The network, the clock of the context and the AWS signer are parameters: the
-- answer of the n-th round trip, and whether the context is done after n of them. `Attempts` is
-- about the number of round trips, `Stripped` about the query, `Built` about the requests that are sent.
pub mod Attempts
pub mod Stripped
pub mod Built
mod Examples
use stowage.Base.{
  Fallible, Fallible-cases, ok, err, ◌>>=◌, ◌>>◌, guard, or_fail, ℕ, zero, suc, ◌+◌, ◌-◌, ◌*◌, ◌/◌,
  ◌%◌, ◌^◌, ◌≤◌, ◌<◌, ◌≡◌, refl, sym, ap, subst, ◌∙◌, ◌≢◌, ◌↔◌, ◌⊎◌, inl, inr, Bool, true, false,
  not, ◌&&◌, ◌||◌, Option, none, some, List, [], ◌∷◌, ◌++◌, map, arith, ltb, leb, ◌==◌,
  if◌then◌else◌, ltb→lt, lt→ltb, leb→le, ==_iff, Bool-cases, Option-cases, length, take, drop,
  length-append, take-append-drop, take-length, drop-length, length-take, length-drop, all, any,
  keep, All, Str, codes, str_eq, str_eq_self, str_eq_sound, str_eq_iff, cut-append, cut_sound,
  has_prefix, trim_byte, cut, lower_byte, to_lower, equal_fold, is_space, trim_left, trim_right,
  trim_space, is_newline,
}
use stowage.Base.Dict.{
  Dict, lookup, insert, delete, has, map_values, lookup-insert, lookup-delete, dict_laws,
  lookup-map_values-some, lookup-map_values-none,
}
use stowage.Base.Int64.{modulus, sign_bit, add64, lt64, lt64-small, add64-small}
use stowage.Base.Http.{Header, header_get, header_set}
use stowage.Proxy.Route.{
  Method, get, put, head, delete_method, post, options, other, RouteInfo, build_outbound_path, null,
}
use stowage.Proxy.Rewrite.{
  build_outbound_raw_path, Url, strip_presigned_query, prepare_outbound_headers,
}
use stowage.Sigv4.Verifier.{unsigned_payload}

pub data TransportError : Type 0 where
  -- io.EOF, io.ErrUnexpectedEOF, ECONNRESET, EPIPE and "server closed idle connection"
  stale : TransportError
  context_error : TransportError
  other_error : TransportError

pub record Response : Type 0 where
  pub status : ℕ
  pub headers : Header

pub record Outbound : Type 0 where
  pub method : Method
  pub host : Str
  pub path : Str
  pub raw_path : Str
  pub raw_query : Str
  pub headers : Header
  pub content_length : ℕ
  -- Body is not nil, and GetBody is not nil
  pub has_body : Bool
  pub replayable : Bool
  -- the access key and the region that the request is signed with
  pub signer : Option (Str × Str)

pub record Wire : Type 0 where
  pub transport : ℕ → Outbound → Fallible TransportError Response
  pub context_done : ℕ → Bool
  -- the select between the pause and the context takes the context
  pub pause_cut : ℕ → Bool

unfoldable pub is_idempotent_method : Method → Bool
is_idempotent_method get = true
is_idempotent_method head = true
is_idempotent_method delete_method = true
is_idempotent_method _ = false

unfoldable pub is_retryable_status : ℕ → Bool
is_retryable_status code = code == 502 || code == 503 || code == 504

abbrev pub is_stale : TransportError → Bool
is_stale stale = true
is_stale _ = false

abbrev pub Sent : Type 0
Sent = List Outbound × Fallible TransportError Response

-- transport.RoundTrip; the requests that were sent stand latest first
unfoldable pub round_trip : Wire → Outbound → List Outbound → Sent
round_trip w out sent = (out ∷ sent, w.transport (length sent) out)

-- a result that ends the loop of `doUpstreamIdempotent` early
unfoldable pub is_final : Wire → Sent → Bool
is_final w (sent, r) = elim r [
  | ok resp ↦ not (is_retryable_status resp.status)
  | err e ↦ w.context_done (length sent)
]

-- `doUpstreamIdempotent`, with the number of attempts that are left after the next
unfoldable pub attempts_from : ℕ → Wire → Outbound → List Outbound → Sent
attempts_from zero w out sent = round_trip w out sent
attempts_from (suc n) w out sent =
    let trip = round_trip w out sent in
    let rest = attempts_from n w out trip.0 in
    if is_final w trip
    then trip
    else if w.pause_cut (length trip.0)
    then (trip.0, err context_error)
    else rest

abbrev pub upstream_idempotent_attempts : ℕ
upstream_idempotent_attempts = 3

unfoldable pub do_upstream_idempotent : Wire → Outbound → List Outbound → Sent
do_upstream_idempotent w = attempts_from (upstream_idempotent_attempts - 1) w

-- the rest of `doUpstream`: one more attempt on a stale connection
unfoldable pub do_upstream_once : Wire → Outbound → List Outbound → Sent
do_upstream_once w out sent =
    let trip = round_trip w out sent in
    elim trip.1 [
      | ok resp ↦ trip
      | err e ↦
          if w.context_done (length trip.0) || not (is_stale e)
          then trip
          else if out.has_body && not out.replayable
          then trip
          else round_trip w out trip.0
    ]

unfoldable pub do_upstream : Wire → Outbound → List Outbound → Sent
do_upstream w out sent =
    if is_idempotent_method out.method && not out.has_body
    then do_upstream_idempotent w out sent
    else do_upstream_once w out sent

-- What `buildOutbound` uses of the inbound request.
pub record Inbound : Type 0 where
  pub method : Method
  pub raw_query : Str
  pub headers : Header
  pub content_length : ℕ
  -- Body is not nil
  pub has_body : Bool
  -- io.ReadAll of an io.LimitReader over the body; none is an error
  pub read_body : ℕ → Option Str

pub record Endpoint : Type 0 where
  pub host : Str
  pub path : Str
  pub region : Str
  pub access_key : Str

abbrev pub max_replayable_body : ℕ
max_replayable_body = 2 ^ 20

-- strings.TrimRight(path, "/")
unfoldable pub base_path : Str → Str
base_path path = trim_right (λ c. c == b'/') path

-- r.Body != nil and a length that is positive and small
unfoldable pub is_buffered : Inbound → Bool
is_buffered r =
    r.has_body && lt64 0 r.content_length && not (lt64 max_replayable_body r.content_length)

-- the buffering of the body: whether it is short enough and was read to its declared length
unfoldable pub body_ready : Inbound → Bool
body_ready r =
    if is_buffered r
    then elim (r.read_body r.content_length) [
      | none ↦ false
      | some buf ↦ length buf == r.content_length
    ]
    else true

-- `buildOutbound`; none is an error. A length that is not positive is sent as 0, unknown.
unfoldable pub build_outbound : Url → Inbound → RouteInfo → Str → Endpoint → Option Outbound
build_outbound url r route real_bucket backend =
    if not (body_ready r)
    then none
    else some (record {
      method = r.method;
      host = backend.host;
      path = base_path backend.path ++ build_outbound_path real_bucket route.key;
      raw_path = base_path backend.path ++ build_outbound_raw_path real_bucket route.key;
      raw_query = strip_presigned_query url r.raw_query;
      headers = header_set (codes "Host") backend.host (prepare_outbound_headers r.headers);
      content_length = (if lt64 0 r.content_length then r.content_length else 0);
      has_body = r.has_body;
      replayable = is_buffered r;
      signer = none;
    })

-- What SignHTTP of the AWS signer sets on the request; the token is there for temporary keys.
pub record Signature : Type 0 where
  pub authorization : Str
  pub date : Str
  pub token : Option Str

unfoldable pub set_signature : Signature → Header → Header
set_signature sig h =
    let dated = header_set (codes "X-Amz-Date") sig.date h in
    let tokened : Header = elim sig.token [
      | none ↦ dated
      | some t ↦ header_set (codes "X-Amz-Security-Token") t dated
    ] in
    header_set (codes "Authorization") sig.authorization tokened

-- `signOutbound`. The first argument is what the signer gives for the backend's key and the region;
-- none is an error.
unfoldable pub sign_outbound :
    (Str → Outbound → Option Signature) → Endpoint → Outbound → Option Outbound
sign_outbound sign backend out =
    let region = if null backend.region then codes "us-east-1" else backend.region in
    let named : Outbound = record out {
      headers = header_set (codes "X-Amz-Content-Sha256") unsigned_payload out.headers;
      signer = some (backend.access_key, region);
    } in
    elim (sign region named) [
      | none ↦ none
      | some sig ↦ some (record named { headers = set_signature sig named.headers })
    ]
