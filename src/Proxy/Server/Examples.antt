-- ===== src/Proxy/Server/Examples.antt =====
-- The theorems about the proxy at concrete requests, with hash functions of one byte.
use stowage.Base.{
  ok, ℕ, ◌+◌, ◌*◌, ◌%◌, ◌≡◌, refl, ◌≢◌, ◌⊎◌, true, false, none, some, [], ◌∷◌, ◌++◌, ltb,
  if◌then◌else◌, length, All, Str, codes, str_eq, has_prefix, trim_byte, cut, lower_byte, trim_left,
  trim_right,
}
use stowage.Base.Dict.{lookup, insert, delete}
use stowage.Base.Int64.{add64, lt64}
use stowage.Base.Http.{Header, header_get}
use stowage.Proxy.Route.{
  get, head, classify_route, classify_operation, is_post_object_request, any_blocked,
  anonymous_blocked_subresources, anonymous_op_allowed, enforce_scope,
}
use stowage.Proxy.Rewrite.{strip_inbound}
use stowage.Proxy.Upstream.{Signature, set_signature, do_upstream, build_outbound, sign_outbound}
use stowage.Limits.Tokens.{burst_of, allow, client_ip}
use stowage.Limits.Concurrency.{take_key_slot, free_key_slot, take_global_slot, free_global_slot}
use stowage.Sigv4.Verifier.{World, Result, verify}
use stowage.Proxy.Exchange.{
  Credential, Binding, plain, Request, Setup, Server, served, blank, read_method, routed,
  lower_names, verifiable,
}
use stowage.Proxy.Server.{
  secret_of, verifier, is_request_unauthenticated, is_upload_op, is_chunked, unwrap_body,
  acquire_slot, release_slot, stream_headers, forward, is_metered, check_quota, is_stored,
  record_upload, serve_admitted, serve_verified, serve_signed, allow_ip_at, serve_bound,
  serve_anonymous, form_upload, branch_of, serve,
}
use stowage.Proxy.Rewrite.{
  is_aws_unreserved, aws_path_escape, aws_key_escape, forward_all, forwarded, allowed_amz_prefixes,
  escape_loop, has_checksum_value, is_checksum_value, presigned_query_params, delete_all,
  strip_presigned_query, prepare_outbound_headers, build_outbound_raw_path,
}
use stowage.Proxy.Route.{
  has_suffix, without_port, virtual_bucket, path_route, build_outbound_path, anon_mode_read_only,
}
use stowage.Proxy.Upstream.{
  body_ready, is_buffered, base_path, do_upstream_idempotent, do_upstream_once, round_trip,
  is_idempotent_method,
}
use stowage.Limits.Tokens.{allow_key, bucket_of, take_token, remote_ip}
use stowage.Limits.Concurrency.{in_use, new_concurrency_limiter}
use stowage.Sigv4.Verifier.{
  attempt, header_attempt, parse_header_auth, parse_fields, parse_field, credential_scope, abs,
  clone_header_with_host, derive_signing_key, is_skewed, load, parse_date, result_of, scope_eq,
  settle, signature_with, signing_key, skew, string_to_sign, sub_time,
}
use stowage.Sigv4.Canonical.{
  sort_strings, insert_sorted, str_leb, canonical_request, canonical_uri, canonical_query,
  canonical_headers, canonical_header_value, trim_and_collapse, collapse, query_params, query_pairs,
  upper_byte, join, split, extract_signed_headers,
}
use stowage.Sigv4.Chunked.{hex_encode}
use stowage.Proxy.Server.Slots.{IsSame, serve-slots}
use stowage.Proxy.Server.Guarded.{Sends, IsAdmitted, serve_signed-guarded}
use stowage.Proxy.Server.Anonymous.{serve_anonymous-guarded}

unfoldable weigh : Str → ℕ
weigh [] = 7
weigh (c ∷ s) = (weigh s * 3 + c) % 256

abbrev clock : ℕ
clock = 5000000000000

abbrev world : World
world = record {
  crypto = record { sha256 = λ s. weigh s ∷ []; hmac_sha256 = λ k d. weigh (k ++ d) ∷ [] };
  fnv64a = λ s. length s;
  resolve = λ k. none;
  now = λ i. clock + i;
  max_skew = 0;
  parse_basic = λ s. if str_eq s (codes "T") then some clock else none;
  parse_rfc1123 = λ s. none;
  format_day = λ t. codes "D";
  format_basic = λ t. codes "T";
}

abbrev credential : Credential
credential = record {
  access_key_id = codes "AK";
  secret_access_key = codes "secret";
  scopes = codes "b" ∷ [];
  backend_name = codes "main";
  source = codes "sqlite";
  claim_ns = [];
  claim_name = [];
}

abbrev binding : Binding
binding = record {
  backend_name = codes "main";
  bucket_name = codes "b";
  mode = anon_mode_read_only;
  per_source_ip_rps = 0;
}

abbrev signed_by_test : Signature
signed_by_test = record { authorization = codes "AWS4"; date = codes "D"; token = none }

abbrev setup : Setup
setup = record {
  world = world;
  lookup_key = λ k. if str_eq k (codes "AK") then some credential else none;
  lookup_anon = λ k. if str_eq k (codes "b") then some binding else none;
  host_suffixes = [];
  anonymous_enabled = true;
  trusted_proxies = none;
  backend = λ n.
      some (record { host = codes "backend"; path = []; region = []; access_key = codes "ADMIN" });
  sign = λ n region out. some signed_by_test;
  url = record { parse_query = λ s. some []; encode = λ q. [] };
  wire = record {
    transport = λ n out. ok (record { status = 200; headers = [] });
    context_done = λ n. false;
    pause_cut = λ n. false;
  };
  rate = record {
    is_positive = λ r. ltb 0 r;
    int_of_double = λ r. 1;
    grants = λ b now. ltb (length b.calls) b.burst;
  };
  net = record { split_host = λ addr. none; contains = λ cidr ip. false };
  now = 0;
  rounds = 1;
}

abbrev idle : Server
idle = record {
  signing_keys = [];
  rates = record { global = none; per_key = []; per_rate = 5 };
  ip_rates = none;
  slots = new_concurrency_limiter 2 1;
  quotas = none;
  sent = [];
}

abbrev reading : Header → Request
reading headers = record {
  method = codes "GET";
  host = codes "h";
  remote_addr = codes "1.2.3.4";
  path = codes "/b/k";
  escaped_path = codes "/b/k";
  raw_query = [];
  query = [];
  headers = headers;
  content_length = 0;
  framing = plain;
  read_body = λ f n. some [];
}

abbrev signed_reading : Request
signed_reading = reading (
    (
      codes "Authorization",
      codes "AWS4-HMAC-SHA256 Credential=AK/D/r/s3/aws4_request, SignedHeaders=host, Signature=22"
          ∷ [],
    )
    ∷ (codes "X-Amz-Date", codes "T" ∷ [])
    ∷ [])

signed_test : (serve_signed setup idle signed_reading).1.result ≡ served
unfolding verify weigh attempt header_get lookup header_attempt str_eq parse_header_auth has_prefix
    parse_fields split parse_field cut trim_right trim_left credential_scope extract_signed_headers
    sort_strings lower_byte insert insert_sorted str_leb lt64 abs clone_header_with_host
    derive_signing_key is_skewed load parse_date result_of scope_eq settle signature_with
    signing_key skew string_to_sign sub_time canonical_request canonical_uri canonical_query
    canonical_headers canonical_header_value trim_and_collapse collapse query_params query_pairs
    upper_byte hex_encode join secret_of serve_signed unwrap_body is_chunked serve_verified allow
    allow_key bucket_of burst_of add64 take_token acquire_slot release_slot take_key_slot
    take_global_slot free_key_slot free_global_slot in_use serve_admitted classify_route
    without_port virtual_bucket path_route has_suffix classify_operation read_method enforce_scope
    check_quota is_metered is_upload_op forward sign_outbound set_signature strip_presigned_query
    do_upstream do_upstream_idempotent do_upstream_once round_trip is_idempotent_method
    record_upload is_stored stream_headers lower_names trim_byte build_outbound body_ready
    is_buffered base_path delete_all delete presigned_query_params prepare_outbound_headers
    build_outbound_path build_outbound_raw_path aws_path_escape is_aws_unreserved aws_key_escape
    forward_all forwarded strip_inbound allowed_amz_prefixes escape_loop has_checksum_value
    is_checksum_value
signed_test = refl

signed_sends : (serve_signed setup idle signed_reading).0.sent ≢ []
unfolding verify weigh attempt header_get lookup header_attempt str_eq parse_header_auth has_prefix
    parse_fields split parse_field cut trim_right trim_left credential_scope extract_signed_headers
    sort_strings lower_byte insert insert_sorted str_leb lt64 abs clone_header_with_host
    derive_signing_key is_skewed load parse_date result_of scope_eq settle signature_with
    signing_key skew string_to_sign sub_time canonical_request canonical_uri canonical_query
    canonical_headers canonical_header_value trim_and_collapse collapse query_params query_pairs
    upper_byte hex_encode join secret_of serve_signed unwrap_body is_chunked serve_verified allow
    allow_key bucket_of burst_of add64 take_token acquire_slot release_slot take_key_slot
    take_global_slot free_key_slot free_global_slot in_use serve_admitted classify_route
    without_port virtual_bucket path_route has_suffix classify_operation read_method enforce_scope
    check_quota is_metered is_upload_op forward sign_outbound set_signature strip_presigned_query
    do_upstream do_upstream_idempotent do_upstream_once round_trip is_idempotent_method
    record_upload is_stored stream_headers lower_names trim_byte build_outbound body_ready
    is_buffered base_path delete_all delete presigned_query_params prepare_outbound_headers
    build_outbound_path build_outbound_raw_path aws_path_escape is_aws_unreserved aws_key_escape
    forward_all forwarded strip_inbound allowed_amz_prefixes escape_loop has_checksum_value
    is_checksum_value
signed_sends e = cc e

serve_signed-guarded_example :
    (res : Result) × (r' : Request) × (vc : Credential) × ((verify
        (verifier setup)
        idle.signing_keys
        (verifiable signed_reading)).1
      ≡ ok res)
    × (unwrap_body res signed_reading ≡ some r')
    × IsAdmitted setup idle r' res vc
    × Sends setup r'
        (classify_route (routed r') setup.host_suffixes)
        vc.backend_name
        (classify_route (routed r') setup.host_suffixes).bucket
        idle.sent
        (serve_signed setup idle signed_reading).0.sent
serve_signed-guarded_example = serve_signed-guarded setup idle signed_reading signed_sends

unsigned_test : (serve_signed setup idle (reading [])).1.status ≡ 403
unfolding serve_signed verify attempt header_attempt header_get lookup str_eq lower_names
unsigned_test = refl

anonymous_branch : branch_of setup (reading []) ≢ form_upload
unfolding branch_of classify_route without_port virtual_bucket path_route has_suffix trim_byte cut
    str_eq is_request_unauthenticated header_get lookup is_post_object_request lower_byte
anonymous_branch e = cc e

serve-slots_example :
    IsSame idle.slots (serve (λ c s r. (s, blank [])) setup idle (reading [])).0.slots
serve-slots_example = serve-slots (λ c s r. (s, blank [])) setup idle (reading []) anonymous_branch

anonymous_sends : (serve_anonymous setup idle (reading [])).0.sent ≢ []
unfolding serve_anonymous serve_bound allow_ip_at anonymous_op_allowed
    anonymous_blocked_subresources any_blocked client_ip remote_ip weigh attempt header_get lookup
    header_attempt str_eq parse_header_auth has_prefix parse_fields split parse_field cut trim_right
    trim_left credential_scope extract_signed_headers sort_strings lower_byte insert insert_sorted
    str_leb lt64 abs clone_header_with_host derive_signing_key is_skewed load parse_date result_of
    scope_eq settle signature_with signing_key skew string_to_sign sub_time canonical_request
    canonical_uri canonical_query canonical_headers canonical_header_value trim_and_collapse
    collapse query_params query_pairs upper_byte hex_encode join secret_of unwrap_body is_chunked
    allow_key bucket_of burst_of add64 take_token acquire_slot release_slot take_key_slot
    take_global_slot free_key_slot free_global_slot in_use classify_route without_port
    virtual_bucket path_route has_suffix classify_operation read_method enforce_scope check_quota
    is_metered is_upload_op forward sign_outbound set_signature strip_presigned_query do_upstream
    do_upstream_idempotent do_upstream_once round_trip is_idempotent_method record_upload is_stored
    stream_headers lower_names trim_byte build_outbound body_ready is_buffered base_path delete_all
    delete presigned_query_params prepare_outbound_headers build_outbound_path
    build_outbound_raw_path aws_path_escape is_aws_unreserved aws_key_escape forward_all forwarded
    strip_inbound allowed_amz_prefixes escape_loop has_checksum_value is_checksum_value
anonymous_sends e = cc e

serve_anonymous-guarded_example :
    (b : Binding) × (setup.lookup_anon
        (classify_route (routed (reading [])) setup.host_suffixes).bucket
      ≡ some b)
    × (b.mode ≡ anon_mode_read_only)
    × ((read_method (codes "GET") ≡ get) ⊎ (read_method (codes "GET") ≡ head))
    × All (λ k. lookup k (reading []).query ≡ none) anonymous_blocked_subresources
    × Sends setup
        (reading [])
        (classify_route (routed (reading [])) setup.host_suffixes)
        b.backend_name
        b.bucket_name
        idle.sent
        (serve_anonymous setup idle (reading [])).0.sent
serve_anonymous-guarded_example = serve_anonymous-guarded setup idle (reading []) anonymous_sends
