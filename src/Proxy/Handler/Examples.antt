-- ===== src/Proxy/Handler/Examples.antt =====
-- The theorem about the audit log at a concrete request.
use stowage.Base.{
  ok, ◌≡◌, refl, true, false, none, some, [], ◌∷◌, ltb, if◌then◌else◌, length, codes, str_eq,
  has_prefix, trim_byte, cut, lower_byte, trim_left, trim_right,
}
use stowage.Base.Dict.{lookup, insert, delete}
use stowage.Base.Int64.{lt64}
use stowage.Base.Http.{Header, header_get}
use stowage.Proxy.Route.{
  classify_route, classify_operation, is_post_object_request, any_blocked,
  anonymous_blocked_subresources, anonymous_op_allowed,
}
use stowage.Proxy.Rewrite.{strip_inbound}
use stowage.Proxy.Upstream.{Signature, set_signature, do_upstream, build_outbound, sign_outbound}
use stowage.Limits.Tokens.{client_ip}
use stowage.Limits.Concurrency.{take_key_slot, free_key_slot, take_global_slot, free_global_slot}
use stowage.Sigv4.Verifier.{World}
use stowage.Proxy.Exchange.{
  Binding, plain, Request, Setup, Server, missing_credentials, anonymous_mode, Served, blank,
  read_method,
}
use stowage.Proxy.Server.{
  is_request_unauthenticated, acquire_slot, release_slot, stream_headers, forward, allow_ip_at,
  serve_bound, serve_anonymous, branch_of, serve,
}
use stowage.Proxy.Cors.{handle_preflight, decorate_cors}
use stowage.Proxy.Route.{
  has_suffix, without_port, virtual_bucket, path_route, build_outbound_path, anon_mode_read_only,
}
use stowage.Limits.Concurrency.{new_concurrency_limiter}
use stowage.Proxy.Handler.{
  cors_rules, serve_http, should_record_audit, audit_event, audit, audit_denied,
}
use stowage.Proxy.Rewrite.{
  is_aws_unreserved, aws_path_escape, aws_key_escape, forward_all, forwarded, allowed_amz_prefixes,
  escape_loop, has_checksum_value, is_checksum_value, presigned_query_params, delete_all,
  strip_presigned_query, prepare_outbound_headers, build_outbound_raw_path,
}
use stowage.Proxy.Upstream.{
  body_ready, is_buffered, base_path, do_upstream_idempotent, do_upstream_once, round_trip,
  is_idempotent_method,
}
use stowage.Limits.Tokens.{remote_ip}
use stowage.Limits.Concurrency.{in_use}
use stowage.Sigv4.Canonical.{join, split}

abbrev world : World
world = record {
  crypto = record { sha256 = λ s. []; hmac_sha256 = λ k d. [] };
  fnv64a = λ s. 0;
  resolve = λ k. none;
  now = λ i. 0;
  max_skew = 0;
  parse_basic = λ s. none;
  parse_rfc1123 = λ s. none;
  format_day = λ t. [];
  format_basic = λ t. [];
}

abbrev binding : Binding
binding = record {
  backend_name = codes "main";
  bucket_name = codes "b";
  mode = anon_mode_read_only;
  per_source_ip_rps = 0;
}

abbrev signed_by_test : Signature
signed_by_test = record { authorization = codes "AWS4"; date = codes "D"; token = none }

abbrev setup : Setup
setup = record {
  world = world;
  lookup_key = λ k. none;
  lookup_anon = λ k. if str_eq k (codes "b") then some binding else none;
  host_suffixes = [];
  anonymous_enabled = true;
  trusted_proxies = none;
  backend = λ n.
      some (record { host = codes "backend"; path = []; region = []; access_key = codes "ADMIN" });
  sign = λ n region out. some signed_by_test;
  url = record { parse_query = λ s. some []; encode = λ q. [] };
  wire = record {
    transport = λ n out. ok (record { status = 200; headers = [] });
    context_done = λ n. false;
    pause_cut = λ n. false;
  };
  rate = record {
    is_positive = λ r. ltb 0 r;
    int_of_double = λ r. 1;
    grants = λ b now. ltb (length b.calls) b.burst;
  };
  net = record { split_host = λ addr. none; contains = λ cidr ip. false };
  now = 0;
  rounds = 1;
}

abbrev idle : Server
idle = record {
  signing_keys = [];
  rates = record { global = none; per_key = []; per_rate = 5 };
  ip_rates = none;
  slots = new_concurrency_limiter 2 1;
  quotas = none;
  sent = [];
}

abbrev reading : Header → Request
reading headers = record {
  method = codes "GET";
  host = codes "h";
  remote_addr = codes "1.2.3.4";
  path = codes "/b/k";
  escaped_path = codes "/b/k";
  raw_query = [];
  query = [];
  headers = headers;
  content_length = 0;
  framing = plain;
  read_body = λ f n. some [];
}

abbrev missing : Request
missing = record (reading []) { path = codes "/c/k"; method = codes "HEAD" }

abbrev form : Setup → Server → Request → Server × Served
form c s r = (s, blank [])

denied_test :
    audit setup false missing (serve_http form setup (λ b. none) idle missing).1 []
    ≡ record {
      backend = [];
      bucket = codes "c";
      key = codes "k";
      ip = codes "1.2.3.4";
      status = audit_denied;
      auth_mode = anonymous_mode;
      result = missing_credentials;
      access_key = none;
      source = some (codes "anonymous");
      claim = none;
    }
      ∷ []
unfolding audit cors_rules serve_http handle_preflight decorate_cors should_record_audit audit_event
    serve branch_of is_post_object_request is_request_unauthenticated serve_anonymous serve_bound
    allow_ip_at anonymous_op_allowed anonymous_blocked_subresources any_blocked client_ip remote_ip
    header_get lookup str_eq has_prefix cut trim_right trim_left split lower_byte insert lt64 join
    acquire_slot release_slot take_key_slot take_global_slot free_key_slot free_global_slot in_use
    classify_route without_port virtual_bucket path_route has_suffix classify_operation read_method
    forward sign_outbound set_signature strip_presigned_query do_upstream do_upstream_idempotent
    do_upstream_once round_trip is_idempotent_method stream_headers trim_byte build_outbound
    body_ready is_buffered base_path delete_all delete presigned_query_params
    prepare_outbound_headers build_outbound_path build_outbound_raw_path aws_path_escape
    is_aws_unreserved aws_key_escape forward_all forwarded strip_inbound allowed_amz_prefixes
    escape_loop has_checksum_value is_checksum_value
denied_test = refl

abbrev listing : Request
listing = reading []

unsampled_test :
    audit setup false listing (serve_http form setup (λ b. none) idle listing).1 [] ≡ []
unfolding audit cors_rules serve_http handle_preflight decorate_cors should_record_audit audit_event
    serve branch_of is_post_object_request is_request_unauthenticated serve_anonymous serve_bound
    allow_ip_at anonymous_op_allowed anonymous_blocked_subresources any_blocked client_ip remote_ip
    header_get lookup str_eq has_prefix cut trim_right trim_left split lower_byte insert lt64 join
    acquire_slot release_slot take_key_slot take_global_slot free_key_slot free_global_slot in_use
    classify_route without_port virtual_bucket path_route has_suffix classify_operation read_method
    forward sign_outbound set_signature strip_presigned_query do_upstream do_upstream_idempotent
    do_upstream_once round_trip is_idempotent_method stream_headers trim_byte build_outbound
    body_ready is_buffered base_path delete_all delete presigned_query_params
    prepare_outbound_headers build_outbound_path build_outbound_raw_path aws_path_escape
    is_aws_unreserved aws_key_escape forward_all forwarded strip_inbound allowed_amz_prefixes
    escape_loop has_checksum_value is_checksum_value
unsampled_test = refl
