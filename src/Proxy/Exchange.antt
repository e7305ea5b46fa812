-- ===== src/Proxy/Exchange.antt =====
-- The request, the answer and the state of the proxy in internal/s3proxy/server.go, and the forms in
-- which the router and the verifier see a request.
use stowage.Base.{ℕ, Bool, Option, List, [], ◌∷◌, if◌then◌else◌, Str, codes, str_eq, to_lower}
use stowage.Base.Dict.{Dict}
use stowage.Base.Http.{Header, header_get}
use stowage.Proxy.Route.{
  Method, get, put, head, delete_method, post, options, other, RouteInfo, null, Operation,
  list_buckets, get_bucket_location, list_multipart_uploads, list_objects, list_parts, get_object,
  put_bucket, upload_part, put_object, head_bucket, head_object, delete_bucket, abort_multipart,
  delete_object, create_multipart_upload, complete_multipart_upload, delete_objects, post_object,
  unknown, classify_route, classify_operation, is_post_object_request, any_blocked,
  anonymous_blocked_subresources, anonymous_op_allowed, anonymous_read_allowed_ops, enforce_scope,
}
use stowage.Proxy.Route
use stowage.Proxy.Upstream.{Response, Outbound, Wire, Endpoint, Signature}
use stowage.Proxy.Rewrite.{Url}
use stowage.Limits.Tokens.{Rate, Limiter, IpLimiter, Net}
use stowage.Limits.Concurrency.{take_key_slot, free_key_slot, take_global_slot, free_global_slot}
use stowage.Limits.Concurrency
use stowage.Quotas.{Service}
use stowage.Sigv4.Verifier.{
  AuthError, missing_auth, malformed_auth, invalid_access_key, signature_mismatch, request_expired,
  request_time_skewed, unsupported_algo, invalid_credential, World, Result, Cache, verify,
  is_presigned, streaming_payload,
}
use stowage.Sigv4.Verifier

-- `VirtualCredential`, with the names of its scopes, and `AnonymousBinding`
pub record Credential : Type 0 where
  pub access_key_id : Str
  pub secret_access_key : Str
  pub scopes : List Str
  pub backend_name : Str
  pub source : Str
  pub claim_ns : Str
  pub claim_name : Str

pub record Binding : Type 0 where
  pub backend_name : Str
  pub bucket_name : Str
  pub mode : Str
  pub per_source_ip_rps : ℕ

-- How the body is read: as it came, or through one of the readers of aws-chunked bodies.
pub data Framing : Type 0 where
  plain signed_chunks unsigned_chunks : Framing

pub record Request : Type 0 where
  pub method : Str
  pub host : Str
  pub remote_addr : Str
  pub path : Str
  pub escaped_path : Str
  -- the query as it was sent, and as r.URL.Query() reads it, without the pairs that do not parse
  pub raw_query : Str
  pub query : Dict (List Str)
  pub headers : Header
  pub content_length : ℕ
  pub framing : Framing
  -- io.ReadAll of the body behind a reader and a limit; none is an error
  pub read_body : Framing → ℕ → Option Str

pub record Setup : Type 0 where
  -- the verifier's hash functions and clock
  pub world : World
  pub lookup_key : Str → Option Credential
  pub lookup_anon : Str → Option Binding
  pub host_suffixes : List Str
  pub anonymous_enabled : Bool
  pub trusted_proxies : Option (List Str)
  -- `BackendResolver.Backend`, and what the signer gives for a backend and a region
  pub backend : Str → Option Endpoint
  pub sign : Str → Str → Outbound → Option Signature
  pub url : Url
  pub wire : Wire
  pub rate : Rate
  pub net : Net
  pub now : ℕ
  -- the requests that an inline scan has time for
  pub rounds : ℕ

pub record Server : Type 0 where
  pub signing_keys : Cache
  pub rates : Limiter
  pub ip_rates : Option IpLimiter
  pub slots : Concurrency.Limiter
  pub quotas : Option Service
  -- the requests sent to backends, latest first
  pub sent : List Outbound

-- The result labels of `servedRequest`.
pub data Outcome : Type 0 where
  auth_failed : AuthError → Outcome
  missing_credentials bad_chunked_header unknown_akid rate_limited : Outcome
  concurrency_limited scope_violation quota_exceeded op_not_allowed : Outcome
  subresource_not_allowed backend_unavailable bad_request sign_error : Outcome
  client_cancelled upstream_error served : Outcome

-- What is written to the client: an S3 error's code, the list of buckets, the backend's answer, or
-- nothing, where the client has gone.
pub data Reply : Type 0 where
  s3_error : Str → Reply
  buckets : List Str → Reply
  streamed : Response → Reply
  nothing : Reply

pub data AuthMode : Type 0 where
  header_mode presigned_mode anonymous_mode : AuthMode

-- `servedRequest`, and what was written
pub record Served : Type 0 where
  pub operation : Operation
  pub status : ℕ
  pub result : Outcome
  pub auth_mode : AuthMode
  pub akid : Str
  pub backend : Str
  pub bucket : Str
  pub key : Str
  pub source : Str
  pub claim_ns : Str
  pub claim_name : Str
  pub reply : Reply

abbrev pub blank : Str → Served
blank source = record {
  operation = unknown;
  status = 0;
  result = served;
  auth_mode = header_mode;
  akid = [];
  backend = [];
  bucket = [];
  key = [];
  source = source;
  claim_ns = [];
  claim_name = [];
  reply = nothing;
}

abbrev pub fail : Served → ℕ → Str → Outcome → Served
fail out status code result = record out { status = status; result = result; reply = s3_error code }

unfoldable pub read_method : Str → Method
read_method m =
    if str_eq m (codes "GET")
    then get
    else if str_eq m (codes "PUT")
    then put
    else if str_eq m (codes "HEAD")
    then head
    else if str_eq m (codes "DELETE")
    then delete_method
    else if str_eq m (codes "POST")
    then post
    else if str_eq m (codes "OPTIONS")
    then options
    else other

abbrev pub routed : Request → Route.Request
routed r = record {
  method = read_method r.method;
  host = r.host;
  path = r.path;
  query = r.query;
  content_type = header_get (codes "Content-Type") r.headers;
}

-- The verifier's headers stand under lower-case names.
unfoldable pub lower_names : Header → Header
lower_names [] = []
lower_names ((k, vs) ∷ h) = (to_lower k, vs) ∷ lower_names h

abbrev pub verifiable : Request → Verifier.Request
verifiable r = record {
  method = r.method;
  path = r.escaped_path;
  query = r.query;
  headers = lower_names r.headers;
  host = r.host;
  content_length = r.content_length;
}
