-- ===== src/Proxy/Handler.antt =====
-- `ServeHTTP` of internal/s3proxy/server.go: CORS around the proxy, and what reaches the audit log.
-- The CORS rules of a bucket are a parameter, and so is the roll that samples successful reads.
pub mod Audited
mod Examples
use stowage.Base.{
  Fallible, Fallible-cases, ok, err, ◌>>=◌, ◌>>◌, guard, or_fail, ℕ, zero, suc, ◌+◌, ◌-◌, ◌*◌, ◌/◌,
  ◌%◌, ◌^◌, ◌≤◌, ◌<◌, ◌≡◌, refl, sym, ap, subst, ◌∙◌, ◌≢◌, ◌↔◌, ◌⊎◌, inl, inr, Bool, true, false,
  not, ◌&&◌, ◌||◌, Option, none, some, List, [], ◌∷◌, ◌++◌, map, arith, ltb, leb, ◌==◌,
  if◌then◌else◌, ltb→lt, lt→ltb, leb→le, ==_iff, Bool-cases, Option-cases, length, take, drop,
  length-append, take-append-drop, take-length, drop-length, length-take, length-drop, all, any,
  keep, All, Str, codes, str_eq, str_eq_self, str_eq_sound, str_eq_iff, cut-append, cut_sound,
  has_prefix, trim_byte, cut, lower_byte, to_lower, equal_fold, is_space, trim_left, trim_right,
  trim_space, is_newline,
}
use stowage.Base.Dict.{
  Dict, lookup, insert, delete, has, map_values, lookup-insert, lookup-delete, dict_laws,
  lookup-map_values-some, lookup-map_values-none,
}
use stowage.Base.Int64.{modulus, sign_bit, add64, lt64, lt64-small, add64-small}
use stowage.Base.Http.{Header, header_get, header_set, format_int, parse_int}
use stowage.Proxy.Route.{
  Method, get, put, head, delete_method, post, options, other, RouteInfo, null, Operation,
  list_buckets, get_bucket_location, list_multipart_uploads, list_objects, list_parts, get_object,
  put_bucket, upload_part, put_object, head_bucket, head_object, delete_bucket, abort_multipart,
  delete_object, create_multipart_upload, complete_multipart_upload, delete_objects, post_object,
  unknown, classify_route, classify_operation, is_post_object_request, any_blocked,
  anonymous_blocked_subresources, anonymous_op_allowed, anonymous_read_allowed_ops, enforce_scope,
}
use stowage.Proxy.Route
use stowage.Proxy.Rewrite.{
  has_aws_chunked_encoding, strip_aws_chunked_encoding, listed, strip_inbound,
}
use stowage.Proxy.Upstream.{
  TransportError, Response, Outbound, Wire, do_upstream, Inbound, Endpoint, build_outbound,
  sign_outbound, Sent,
}
use stowage.Limits.Tokens.{Rate, Limiter, allow, IpLimiter, allow_at, Net, client_ip}
use stowage.Limits.Concurrency.{take_key_slot, free_key_slot, take_global_slot, free_global_slot}
use stowage.Limits.Concurrency
use stowage.Quotas.{Service, Verdict, allowed, exceeded, check_upload, recorded}
use stowage.Sigv4.Verifier.{
  AuthError, missing_auth, malformed_auth, invalid_access_key, signature_mismatch, request_expired,
  request_time_skewed, unsupported_algo, invalid_credential, World, Result, Cache, verify,
  is_presigned, streaming_payload,
}
use stowage.Sigv4.Verifier
use stowage.Proxy.Exchange.{
  Credential, Binding, Framing, plain, signed_chunks, unsigned_chunks, Request, Setup, Server,
  Outcome, auth_failed, missing_credentials, bad_chunked_header, unknown_akid, rate_limited,
  concurrency_limited, scope_violation, quota_exceeded, op_not_allowed, subresource_not_allowed,
  backend_unavailable, bad_request, sign_error, client_cancelled, upstream_error, served, Reply,
  s3_error, buckets, streamed, nothing, AuthMode, header_mode, presigned_mode, anonymous_mode,
  Served, blank, fail, read_method, routed, lower_names, verifiable,
}
use stowage.Proxy.Server.{
  secret_of, verifier, is_request_unauthenticated, is_upload_op, streaming_unsigned_trailer,
  is_chunked, unwrap_body, acquire_slot, release_slot, inbound, stream_headers, forward, is_metered,
  check_quota, is_stored, record_upload, serve_admitted, with_slots, serve_verified,
  auth_failure_code, serve_signed, allow_ip_at, serve_bound, serve_anonymous, Branch, form_upload,
  anonymous, signed, branch_of, serve,
}
use stowage.Proxy.Cors.{BucketCorsRule, handle_preflight, decorate_cors}

pub record Answer : Type 0 where
  -- the headers that are set before the answer is written
  pub cors_headers : Header
  -- none where a preflight was answered with 204
  pub outcome : Option Served

abbrev pub CorsSource : Type 0
CorsSource = Str → Option (List BucketCorsRule)

unfoldable pub cors_rules : Setup → CorsSource → Request → List BucketCorsRule
cors_rules c lookup_cors r =
    let bucket = (classify_route (routed r) c.host_suffixes).bucket in
    let found : List BucketCorsRule = elim (lookup_cors bucket) [
      | none ↦ []
      | some rules ↦ rules
    ] in
    if null bucket then [] else found

unfoldable pub serve_http :
    (Setup → Server → Request → Server × Served)
    → Setup
    → CorsSource
    → Server
    → Request
    → Server × Answer
serve_http serve_post_object c lookup_cors s r =
    let rules = cors_rules c lookup_cors r in
    elim (handle_preflight rules (read_method r.method) r.headers []) [
      | some h ↦ (s, record { cors_headers = h; outcome = none })
      | none ↦
          let (s', out) = serve serve_post_object c s r in
          (s', record { cors_headers = decorate_cors rules r.headers []; outcome = some out })
    ]

abbrev pub is_ok : Outcome → Bool
is_ok served = true
is_ok _ = false

-- `shouldRecordAudit`, with the outcome of the roll on SuccessReadAuditRate
unfoldable pub should_record_audit : Bool → Request → Served → Bool
should_record_audit sampled r out =
    if not (is_ok out.result)
    then true
    else elim (read_method r.method) [ get ↦ sampled | head ↦ sampled | _ ↦ true ]

pub data AuditStatus : Type 0 where
  audit_ok audit_error audit_denied : AuditStatus

pub record AuditEvent : Type 0 where
  pub backend : Str
  pub bucket : Str
  pub key : Str
  pub ip : Str
  pub status : AuditStatus
  pub auth_mode : AuthMode
  pub result : Outcome
  pub access_key : Option Str
  pub source : Option Str
  pub claim : Option (Str × Str)

abbrev pub filled : Str → Option Str
filled s = if null s then none else some s

-- `recordAudit`: the event without its time, action, request id and user agent
unfoldable pub audit_event : Setup → Request → Served → AuditEvent
audit_event c r out = record {
  backend = out.backend;
  bucket = out.bucket;
  key = out.key;
  ip = client_ip c.net r.remote_addr r.headers c.trusted_proxies;
  status =
      (if leb 500 out.status
        then audit_error
        else if leb 400 out.status
        then audit_denied
        else audit_ok);
  auth_mode = out.auth_mode;
  result = out.result;
  access_key = filled out.akid;
  source = filled out.source;
  claim = (if null out.claim_ns then none else some (out.claim_ns, out.claim_name));
}

-- the audit log after a request, latest event first
unfoldable pub audit : Setup → Bool → Request → Answer → List AuditEvent → List AuditEvent
audit c sampled r answer log = elim answer.outcome [
  | none ↦ log
  | some out ↦ if should_record_audit sampled r out then audit_event c r out ∷ log else log
]
