-- ===== src/Proxy/Upstream/Examples.antt =====
-- The theorems about outbound requests at concrete ones.
use stowage.Base.{
  Option, ok, ◌≡◌, refl, true, false, none, some, [], ◌∷◌, ltb, if◌then◌else◌, Str, codes, str_eq,
  has_prefix, cut, lower_byte, trim_right,
}
use stowage.Base.Dict.{Dict, lookup, insert, delete}
use stowage.Base.Int64.{lt64}
use stowage.Proxy.Route.{get, null, RouteInfo, build_outbound_path}
use stowage.Proxy.Rewrite.{
  build_outbound_raw_path, Url, strip_presigned_query, delete_all, presigned_query_params,
  prepare_outbound_headers, strip_inbound,
}
use stowage.Proxy.Upstream.{
  Outbound, Wire, is_idempotent_method, is_retryable_status, round_trip, is_final, attempts_from,
  do_upstream_idempotent, do_upstream_once, do_upstream, Inbound, Endpoint, base_path, is_buffered,
  body_ready, build_outbound, Signature,
}
use stowage.Proxy.Rewrite.{
  is_aws_unreserved, aws_path_escape, aws_key_escape, forward_all, forwarded, allowed_amz_prefixes,
  escape_loop, has_checksum_value, is_checksum_value,
}
use stowage.Sigv4.Canonical.{join, split}
use stowage.Proxy.Upstream.Attempts.{Tries, do_upstream-Tries}
use stowage.Proxy.Upstream.Built.{bodyless-once}

abbrev backend : Endpoint
backend = record {
  host = codes "backend";
  path = codes "/";
  region = [];
  access_key = codes "ADMIN";
}

-- net/url on a query of one parameter: what stands before the equality sign is its name
abbrev url : Url
url = record {
  parse_query = λ s. elim (cut b'=' s) [
    | none ↦ if null s then some [] else none
    | some (k, v) ↦ some ((k, v ∷ []) ∷ [])
  ];
  encode = λ q. [];
}

abbrev reading : Inbound
reading = record {
  method = get;
  raw_query = codes "X-Amz-Signature=00";
  headers =
      (codes "Authorization", codes "AWS4" ∷ []) ∷ (codes "Range", codes "bytes=0-1" ∷ []) ∷ [];
  content_length = 0;
  has_body = true;
  read_body = λ n. some [];
}

abbrev route : RouteInfo
route = record { bucket = codes "b"; key = codes "k"; path_style = true }

abbrev built : Outbound
built = record {
  method = get;
  host = codes "backend";
  path = codes "/b/k";
  raw_path = codes "/b/k";
  raw_query = [];
  headers = (codes "Range", codes "bytes=0-1" ∷ []) ∷ (codes "Host", codes "backend" ∷ []) ∷ [];
  content_length = 0;
  has_body = true;
  replayable = false;
  signer = none;
}

built_test : build_outbound url reading route (codes "b") backend ≡ some built
unfolding build_outbound strip_presigned_query body_ready is_buffered base_path delete_all insert
    delete trim_right presigned_query_params prepare_outbound_headers build_outbound_path
    build_outbound_raw_path aws_path_escape is_aws_unreserved aws_key_escape cut lookup str_eq
    forward_all forwarded strip_inbound lower_byte has_prefix allowed_amz_prefixes escape_loop
    has_checksum_value is_checksum_value join split lt64
built_test = refl

-- a backend that answers 503 twice and then 200
abbrev recovering : Wire
recovering = record {
  transport = λ n out. ok (record { status = (if ltb n 2 then 503 else 200); headers = [] });
  context_done = λ n. false;
  pause_cut = λ n. false;
}

do_upstream-Tries_example :
    Tries 3 recovering
      (record built { has_body = false })
      []
      (do_upstream recovering (record built { has_body = false }) [])
    × (is_idempotent_method get ≡ false
        → Tries 2 recovering
            (record built { has_body = false })
            []
            (do_upstream recovering (record built { has_body = false }) []))
    × (false ≡ true
        → false ≡ false
        → Tries 1 recovering
            (record built { has_body = false })
            []
            (do_upstream recovering (record built { has_body = false }) []))
do_upstream-Tries_example = do_upstream-Tries recovering (record built { has_body = false }) []

recovered_test :
    (do_upstream recovering (record built { has_body = false }) []).1
    ≡ ok (record { status = 200; headers = [] })
unfolding do_upstream is_idempotent_method do_upstream_idempotent attempts_from is_final round_trip
    is_retryable_status
recovered_test = refl

bodyless-once_example : Tries 1 recovering built [] (do_upstream recovering built [])
unfolding lt64
bodyless-once_example =
    bodyless-once recovering url [] reading route (codes "b") backend built refl refl built_test

not_recovered_test :
    (do_upstream recovering built []).1 ≡ ok (record { status = 503; headers = [] })
unfolding do_upstream is_idempotent_method do_upstream_once round_trip
not_recovered_test = refl

abbrev signature : Signature
signature = record { authorization = codes "AWS4 ADMIN"; date = codes "D"; token = none }

abbrev sign : Str → Outbound → Option Signature
sign region out = some signature

abbrev sent : Outbound
sent = record built {
  headers =
      (codes "Range", codes "bytes=0-1" ∷ [])
      ∷ (codes "Host", codes "backend" ∷ [])
      ∷ (codes "X-Amz-Content-Sha256", codes "UNSIGNED-PAYLOAD" ∷ [])
      ∷ (codes "X-Amz-Date", codes "D" ∷ [])
      ∷ (codes "Authorization", codes "AWS4 ADMIN" ∷ [])
      ∷ [];
  signer = some (codes "ADMIN", codes "us-east-1");
}

-- a presigned query with a pair that does not parse is sent on whole
malformed_test : strip_presigned_query url (codes "X-Amz-Signature%zz") ≡ codes "X-Amz-Signature%zz"
unfolding strip_presigned_query cut
malformed_test = refl
