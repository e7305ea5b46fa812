-- ===== src/Proxy/Server.antt =====
-- internal/s3proxy/server.go: one request through the proxy, from its signature to the answer of the
-- backend, over the verifier, the limiters, the router, the quotas and the outbound half. The
-- credential source, the backend registry and the AWS signer are parameters. A full concurrency
-- channel stands for one that stays full until the request's context is done. Metrics and logs are
-- left out. `Slots` is about the concurrency slots, `Guarded` about what signed requests reach the
-- backend, `Anonymous` about unsigned ones, and `Answers` about the answers to refused requests.
pub mod Slots
pub mod Guarded
pub mod Anonymous
pub mod Answers
mod Examples
use stowage.Base.{
  Fallible, Fallible-cases, ok, err, ◌>>=◌, ◌>>◌, guard, or_fail, ℕ, zero, suc, ◌+◌, ◌-◌, ◌*◌, ◌/◌,
  ◌%◌, ◌^◌, ◌≤◌, ◌<◌, ◌≡◌, refl, sym, ap, subst, ◌∙◌, ◌≢◌, ◌↔◌, ◌⊎◌, inl, inr, Bool, true, false,
  not, ◌&&◌, ◌||◌, Option, none, some, List, [], ◌∷◌, ◌++◌, map, arith, ltb, leb, ◌==◌,
  if◌then◌else◌, ltb→lt, lt→ltb, leb→le, ==_iff, Bool-cases, Option-cases, length, take, drop,
  length-append, take-append-drop, take-length, drop-length, length-take, length-drop, all, any,
  keep, All, Str, codes, str_eq, str_eq_self, str_eq_sound, str_eq_iff, cut-append, cut_sound,
  has_prefix, trim_byte, cut, lower_byte, to_lower, equal_fold, is_space, trim_left, trim_right,
  trim_space, is_newline,
}
use stowage.Base.Dict.{
  Dict, lookup, insert, delete, has, map_values, lookup-insert, lookup-delete, dict_laws,
  lookup-map_values-some, lookup-map_values-none,
}
use stowage.Base.Int64.{modulus, sign_bit, add64, lt64, lt64-small, add64-small}
use stowage.Base.Http.{Header, header_get, header_set, format_int, parse_int}
use stowage.Proxy.Route.{
  Method, get, put, head, delete_method, post, options, other, RouteInfo, null, Operation,
  list_buckets, get_bucket_location, list_multipart_uploads, list_objects, list_parts, get_object,
  put_bucket, upload_part, put_object, head_bucket, head_object, delete_bucket, abort_multipart,
  delete_object, create_multipart_upload, complete_multipart_upload, delete_objects, post_object,
  unknown, classify_route, classify_operation, is_post_object_request, any_blocked,
  anonymous_blocked_subresources, anonymous_op_allowed, anonymous_read_allowed_ops, enforce_scope,
}
use stowage.Proxy.Route
use stowage.Proxy.Rewrite.{
  has_aws_chunked_encoding, strip_aws_chunked_encoding, listed, strip_inbound,
}
use stowage.Proxy.Upstream.{
  TransportError, Response, Outbound, Wire, do_upstream, Inbound, Endpoint, build_outbound,
  sign_outbound, Sent,
}
use stowage.Limits.Tokens.{Rate, Limiter, allow, IpLimiter, allow_at, Net, client_ip}
use stowage.Limits.Concurrency.{take_key_slot, free_key_slot, take_global_slot, free_global_slot}
use stowage.Limits.Concurrency
use stowage.Quotas.{Service, Verdict, allowed, exceeded, check_upload, recorded}
use stowage.Sigv4.Verifier.{
  AuthError, missing_auth, malformed_auth, invalid_access_key, signature_mismatch, request_expired,
  request_time_skewed, unsupported_algo, invalid_credential, World, Result, Cache, verify,
  is_presigned, streaming_payload,
}
use stowage.Sigv4.Verifier
use stowage.Proxy.Exchange.{
  Credential, Binding, Framing, plain, signed_chunks, unsigned_chunks, Request, Setup, Server,
  Outcome, auth_failed, missing_credentials, bad_chunked_header, unknown_akid, rate_limited,
  concurrency_limited, scope_violation, quota_exceeded, op_not_allowed, subresource_not_allowed,
  backend_unavailable, bad_request, sign_error, client_cancelled, upstream_error, served, Reply,
  s3_error, buckets, streamed, nothing, AuthMode, header_mode, presigned_mode, anonymous_mode,
  Served, blank, fail, read_method, routed, lower_names, verifiable,
}

-- the resolver that NewServer gives to the verifier
unfoldable pub secret_of : Setup → Str → Option Str
secret_of c akid = elim (c.lookup_key akid) [ none ↦ none | some vc ↦ some vc.secret_access_key ]

abbrev pub verifier : Setup → World
verifier c = record c.world { resolve = secret_of c }

-- `IsRequestUnauthenticated`
unfoldable pub is_request_unauthenticated : Request → Bool
is_request_unauthenticated r =
    null (header_get (codes "Authorization") r.headers)
    && null (header_get (codes "X-Amz-Signature") r.query)

unfoldable pub is_upload_op : Operation → Bool
is_upload_op put_object = true
is_upload_op upload_part = true
is_upload_op _ = false

abbrev pub streaming_unsigned_trailer : Str
streaming_unsigned_trailer = codes "STREAMING-UNSIGNED-PAYLOAD-TRAILER"

unfoldable pub is_chunked : Result → Request → Bool
is_chunked res r =
    str_eq res.payload_hash streaming_payload
    || str_eq res.payload_hash streaming_unsigned_trailer
    || res.presigned && has_aws_chunked_encoding r.headers

-- The swap of an aws-chunked body for a reader that decodes it; none if the decoded length is
-- missing or bad.
unfoldable pub unwrap_body : Result → Request → Option Request
unwrap_body res r =
    if is_chunked res r
    then elim (parse_int (header_get (codes "X-Amz-Decoded-Content-Length") r.headers)) [
      | none ↦ none
      | some decoded ↦ some (record r {
        framing =
            (if str_eq res.payload_hash streaming_payload then signed_chunks else unsigned_chunks);
        content_length = decoded;
        headers =
            strip_aws_chunked_encoding
              (header_set (codes "Content-Length") (format_int decoded) r.headers);
      })
    ]
    else some r

-- `acquireSlot`: the two selects of Acquire, then the release
unfoldable pub acquire_slot : Str → Concurrency.Limiter → Option Concurrency.Limiter
acquire_slot key l = elim (take_key_slot key l) [ none ↦ none | some l' ↦ take_global_slot l' ]

unfoldable pub release_slot : Str → Concurrency.Limiter → Concurrency.Limiter
release_slot key l = free_key_slot key (free_global_slot l)

abbrev pub inbound : Request → Inbound
inbound r = record {
  method = read_method r.method;
  raw_query = r.raw_query;
  headers = r.headers;
  content_length = r.content_length;
  has_body = true;
  read_body = r.read_body r.framing;
}

-- the headers that `streamResponse` copies
unfoldable pub stream_headers : Header → Header
stream_headers [] = []
stream_headers ((k, vs) ∷ h) =
    let rest = stream_headers h in
    if listed (to_lower k) strip_inbound || str_eq (to_lower k) (codes "server")
    then rest
    else (k, vs) ∷ rest

-- The end of both paths, from the backend's lookup on. The rewriting of the Location in the answer
-- to CompleteMultipartUpload is left out.
unfoldable pub forward : Setup → Server → Request → RouteInfo → Str → Str → Served → Server × Served
forward c s r route backend_name real_bucket out = elim (c.backend backend_name) [
  | none ↦ (s, fail out 502 (codes "InternalError") backend_unavailable)
  | some backend ↦ elim (build_outbound c.url (inbound r) route real_bucket backend) [
    | none ↦ (s, fail out 400 (codes "InvalidRequest") bad_request)
    | some built ↦ elim (sign_outbound (c.sign backend_name) backend built) [
      | none ↦ (s, fail out 502 (codes "InternalError") sign_error)
      | some out_req ↦
          let trip = do_upstream c.wire out_req s.sent in
          let s' = record s { sent = trip.0 } in
          elim trip.1 [
            | err e ↦
                if c.wire.context_done (length trip.0)
                then (s', record out { status = 499; result = client_cancelled; reply = nothing })
                else (s', fail out 502 (codes "InternalError") upstream_error)
            | ok resp ↦ (
              s',
              record out {
                status = resp.status;
                result = served;
                reply = streamed (record resp { headers = stream_headers resp.headers });
              },
            )
          ]
    ]
  ]
]

-- `s.cfg.Quotas != nil && isUploadOp(out.operation) && r.ContentLength > 0`
unfoldable pub is_metered : Operation → Request → Bool
is_metered op r = is_upload_op op && lt64 0 r.content_length

-- The quota check before an upload; the answer is whether the upload is refused.
unfoldable pub check_quota : Setup → Server → Operation → Str → Str → Request → Server × Bool
check_quota c s op backend_name bucket r = elim s.quotas [
  | none ↦ (s, false)
  | some q ↦
      let (q', verdict) = check_upload q c.rounds c.now backend_name bucket r.content_length in
      if is_metered op r
      then (record s { quotas = some q' }, elim verdict [ allowed ↦ false | exceeded ↦ true ])
      else (s, false)
]

unfoldable pub is_stored : Served → Bool
is_stored out = elim out.result [ served ↦ ltb out.status 400 | _ ↦ false ]

-- The update of the quotas after an upload that the backend took.
unfoldable pub record_upload : Server → Operation → Str → Str → Request → Served → Server
record_upload s op backend_name bucket r out = elim s.quotas [
  | none ↦ s
  | some q ↦
      if is_metered op r && is_stored out
      then record s { quotas = some (recorded q backend_name bucket r.content_length) }
      else s
]

-- The part of `serve` between the concurrency slot and its release.
unfoldable pub serve_admitted : Setup → Server → Request → Credential → Served → Server × Served
serve_admitted c s r vc out =
    let route = classify_route (routed r) c.host_suffixes in
    let op = classify_operation (routed r) route in
    let out' = record out { operation = op; bucket = route.bucket; key = route.key } in
    if null route.bucket
    then (
      s,
      record out' {
        operation = list_buckets;
        status = 200;
        result = served;
        reply = buckets vc.scopes;
      },
    )
    else if not (enforce_scope vc.scopes route.bucket)
    then (s, fail out' 403 (codes "AccessDenied") scope_violation)
    else let (s', refused) = check_quota c s op vc.backend_name route.bucket r in
      if refused
      then (s', fail out' 507 (codes "EntityTooLarge") quota_exceeded)
      else let (s'', done) = forward c s' r route vc.backend_name route.bucket out' in
        (record_upload s'' op vc.backend_name route.bucket r done, done)

abbrev pub with_slots : Server → Concurrency.Limiter → Server
with_slots s l = record s { slots = l }

-- The part of `serve` after the signature is verified and the body unwrapped.
unfoldable pub serve_verified : Setup → Server → Request → Result → Server × Served
serve_verified c s r res = elim (c.lookup_key res.access_key_id) [
  | none ↦ (
    s,
    fail (record (blank []) { akid = res.access_key_id }) 403 (codes "InvalidAccessKeyId")
        unknown_akid,
  )
  | some vc ↦
      let out = record (blank vc.source) {
        akid = vc.access_key_id;
        backend = vc.backend_name;
        claim_ns = vc.claim_ns;
        claim_name = vc.claim_name;
      } in
      let (granted, rates) = allow c.rate c.now vc.access_key_id s.rates in
      let s' = record s { rates = rates } in
      if not granted
      then (s', fail out 503 (codes "SlowDown") rate_limited)
      else elim (acquire_slot vc.access_key_id s'.slots) [
        | none ↦ (s', fail out 503 (codes "SlowDown") concurrency_limited)
        | some l ↦
            let (t, done) = serve_admitted c (with_slots s' l) r vc out in
            (with_slots t (release_slot vc.access_key_id t.slots), done)
      ]
]

-- `writeAuthFailure`
unfoldable pub auth_failure_code : AuthError → Str
auth_failure_code missing_auth = codes "MissingAuthenticationToken"
auth_failure_code invalid_access_key = codes "InvalidAccessKeyId"
auth_failure_code signature_mismatch = codes "SignatureDoesNotMatch"
auth_failure_code request_time_skewed = codes "RequestTimeTooSkewed"
auth_failure_code _ = codes "AccessDenied"

-- `serve` on a request that is neither a form upload nor anonymous
unfoldable pub serve_signed : Setup → Server → Request → Server × Served
serve_signed c s r =
    let (keys, verdict) = verify (verifier c) s.signing_keys (verifiable r) in
    let s' = record s { signing_keys = keys } in
    elim verdict [
      | err e ↦ (s', fail (blank []) 403 (auth_failure_code e) (auth_failed e))
      | ok res ↦ elim (unwrap_body res r) [
        | none ↦ (s', fail (blank []) 400 (codes "InvalidRequest") bad_chunked_header)
        | some r' ↦ serve_verified c s' r' res
      ]
    ]

unfoldable pub allow_ip_at : Setup → Server → Str → ℕ → Bool × Server
allow_ip_at c s ip rps = elim s.ip_rates [
  | none ↦ (true, s)
  | some l ↦
      let (granted, l') = allow_at c.rate c.now ip rps l in
      (granted, record s { ip_rates = some l' })
]

-- The part of `serveAnonymous` after the binding is found.
unfoldable pub serve_bound :
    Setup → Server → Request → RouteInfo → Operation → Binding → Served → Server × Served
serve_bound c s r route op binding out =
    let ip = client_ip c.net r.remote_addr r.headers c.trusted_proxies in
    let reason =
      if any_blocked anonymous_blocked_subresources r.query
      then subresource_not_allowed
      else op_not_allowed in
    let (granted, s') = allow_ip_at c s ip binding.per_source_ip_rps in
    let slot = codes "anon:" ++ ip in
    if not (anonymous_op_allowed binding.mode op r.query)
    then (s, fail out 403 (codes "AccessDenied") reason)
    else if not granted
    then (s', fail out 503 (codes "SlowDown") rate_limited)
    else elim (acquire_slot slot s'.slots) [
      | none ↦ (s', fail out 503 (codes "SlowDown") concurrency_limited)
      | some l ↦
          let (t, done) =
            forward c (with_slots s' l) r route binding.backend_name binding.bucket_name out in
          (with_slots t (release_slot slot t.slots), done)
    ]

-- `serveAnonymous`
unfoldable pub serve_anonymous : Setup → Server → Request → Server × Served
serve_anonymous c s r =
    let route = classify_route (routed r) c.host_suffixes in
    let op = classify_operation (routed r) route in
    let out = record (blank (codes "anonymous")) {
      operation = op;
      bucket = route.bucket;
      key = route.key;
    } in
    let refused : Server × Served =
      (s, fail out 403 (codes "MissingAuthenticationToken") missing_credentials) in
    let found : Server × Served = elim (c.lookup_anon route.bucket) [
      | none ↦ refused
      | some binding ↦
          serve_bound c s r route op binding (record out { backend = binding.backend_name })
    ] in
    if null route.bucket then refused else found

-- The branches of `serve`.
pub data Branch : Type 0 where
  form_upload anonymous signed : Branch

unfoldable pub branch_of : Setup → Request → Branch
branch_of c r =
    let route = classify_route (routed r) c.host_suffixes in
    if str_eq r.method (codes "POST")
      && is_post_object_request (routed r)
      && not (null route.bucket)
      && null route.key
    then form_upload
    else if c.anonymous_enabled && is_request_unauthenticated r
    then anonymous
    else signed

abbrev pub labelled : AuthMode → Server × Served → Server × Served
labelled mode answer = (answer.0, record answer.1 { auth_mode = mode })

-- `serve`; the argument is `servePostObject`.
unfoldable pub serve :
    (Setup → Server → Request → Server × Served) → Setup → Server → Request → Server × Served
serve serve_post_object c s r = elim (branch_of c r) [
  | form_upload ↦ serve_post_object c s r
  | anonymous ↦ labelled anonymous_mode (serve_anonymous c s r)
  | signed ↦
      let mode =
        if null (header_get (codes "X-Amz-Signature") r.query)
        then header_mode
        else presigned_mode in
      labelled mode (serve_signed c s r)
]
