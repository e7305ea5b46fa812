-- ===== src/Sigv4/Verifier/Examples.antt =====
-- The theorems about the verifier at concrete inputs, with hash functions of one byte.
use stowage.Base.{
  ok, err, ℕ, ◌+◌, ◌*◌, ◌%◌, ◌≤◌, ◌≡◌, refl, ◌≢◌, ◌↔◌, ◌⊎◌, true, false, none, some, [], ◌∷◌, ◌++◌,
  arith, if◌then◌else◌, length, Str, codes, str_eq, has_prefix, cut, lower_byte, to_lower,
  trim_left, trim_right,
}
use stowage.Base.Dict.{lookup, insert, delete}
use stowage.Base.Int64.{sign_bit, lt64}
use stowage.Base.Http.{header_get, parse_int, unsigned_decimal, decimal_digits}
use stowage.Sigv4.Canonical.{
  canonical_request, split, extract_signed_headers, sort_strings, insert_sorted, str_leb,
  canonical_uri, canonical_query, canonical_headers, canonical_header_value, trim_and_collapse,
  collapse, query_params, query_pairs, upper_byte, join, aws_url_encode, encode_byte, is_unreserved,
  hex_upper,
}
use stowage.Sigv4.Chunked.{hex_encode}
use stowage.Sigv4.Verifier.{
  signature_mismatch, World, Request, Result, algorithm, unsigned_payload, second, skew, sub_time,
  abs, is_skewed, parse_date, Scope, Cache, scope_eq, load, derive_signing_key, signing_key,
  credential_scope, parse_field, parse_fields, parse_header_auth, clone_header_with_host,
  string_to_sign, Attempt, header_attempt, parse_expires, presigned_attempt, signature_with,
  result_of, settle, attempt, verify, PolicyAuth, PolicyResult, policy_attempt, verify_policy,
  max_expires,
}
use stowage.Sigv4.Verifier.Skew.{is_skewed_iff}
use stowage.Sigv4.Verifier.SigningKeys.{IsDerived, signing_key-IsDerived}
use stowage.Sigv4.Verifier.Accepted.{
  expected_signature, verify_sound, verify-fresh_iff, verify-lifetime,
}
use stowage.Sigv4.Verifier.Rejected.{verify-error}
use stowage.Sigv4.Verifier.Fields.{
  is_token, IsTokens, authorization_text, parse_header_auth-authorization_text,
}
use stowage.Sigv4.Verifier.Form.{verify_policy_sound}

unfoldable weigh : Str → ℕ
weigh [] = 7
weigh (c ∷ s) = (weigh s * 3 + c) % 256

abbrev clock : ℕ
clock = 5000000000000

abbrev world : World
world = record {
  crypto = record { sha256 = λ s. weigh s ∷ []; hmac_sha256 = λ k d. weigh (k ++ d) ∷ [] };
  fnv64a = λ s. length s;
  resolve = λ k. if str_eq k (codes "AK") then some (codes "secret") else none;
  now = λ i. clock + i;
  max_skew = 0;
  parse_basic = λ s. if str_eq s (codes "T") then some clock else none;
  parse_rfc1123 = λ s. none;
  format_day = λ t. codes "D";
  format_basic = λ t. codes "T";
}

abbrev scope : Scope
scope = record { akid = codes "AK"; date = codes "D"; region = codes "r"; service = codes "s3" }

abbrev signed : Request
signed = record {
  method = codes "GET";
  path = codes "/b";
  query = [];
  headers =
      (
        codes "authorization",
        codes "AWS4-HMAC-SHA256 Credential=AK/D/r/s3/aws4_request, SignedHeaders=host, Signature=0a"
            ∷ [],
      )
      ∷ (codes "x-amz-date", codes "T" ∷ [])
      ∷ [];
  host = codes "h";
  content_length = 0;
}

abbrev header_cache : Cache
header_cache = (scope, record { fp = 6; key = 28 ∷ [] }) ∷ []

abbrev header_result : Result
header_result = record {
  access_key_id = codes "AK";
  region = codes "r";
  service = codes "s3";
  date = clock;
  signed_headers = codes "host" ∷ [];
  payload_hash = unsigned_payload;
  presigned = false;
  expires = 0;
  signing_key = [];
  seed_signature = [];
}

accepted_test : verify world [] signed ≡ (header_cache, ok header_result)
unfolding verify weigh attempt header_get lookup header_attempt str_eq parse_header_auth has_prefix
    parse_fields split parse_field cut trim_right trim_left credential_scope extract_signed_headers
    sort_strings lower_byte insert insert_sorted str_leb lt64 abs clone_header_with_host
    derive_signing_key is_skewed load parse_date result_of scope_eq settle signature_with
    signing_key skew string_to_sign sub_time canonical_request canonical_uri canonical_query
    canonical_headers canonical_header_value trim_and_collapse collapse query_params query_pairs
    upper_byte hex_encode join
accepted_test = refl

again_test : verify world header_cache signed ≡ (header_cache, ok header_result)
unfolding verify weigh attempt header_get lookup header_attempt str_eq parse_header_auth has_prefix
    parse_fields split parse_field cut trim_right trim_left credential_scope extract_signed_headers
    sort_strings lower_byte insert insert_sorted str_leb lt64 abs clone_header_with_host
    derive_signing_key is_skewed load parse_date result_of scope_eq settle signature_with
    signing_key skew string_to_sign sub_time canonical_request canonical_uri canonical_query
    canonical_headers canonical_header_value trim_and_collapse collapse query_params query_pairs
    upper_byte hex_encode join
again_test = refl

is_skewed_iff_example : (is_skewed world 4500000000000 ≡ false) ↔ (
    ((4500000000000 ≤ world.now 0 + skew world) × (world.now 0 ≤ 4500000000000 + skew world))
    ⊎ (world.now 0 + sign_bit ≤ 4500000000000))
unfolding skew lt64
is_skewed_iff_example = is_skewed_iff world 4500000000000 (omega arith)

header_cache-IsDerived : IsDerived world header_cache
unfolding IsDerived derive_signing_key weigh
header_cache-IsDerived = ((codes "secret", refl, refl), tt)

signing_key-IsDerived_example :
    IsDerived world (signing_key world header_cache (codes "SECRET") scope).0
    × ((s : Str) × (world.fnv64a s ≡ world.fnv64a (codes "SECRET"))
        × ((signing_key world header_cache (codes "SECRET") scope).1
            ≡ derive_signing_key world.crypto s scope))
signing_key-IsDerived_example =
    signing_key-IsDerived world header_cache (codes "SECRET") scope header_cache-IsDerived

verify_sound_example :
    IsDerived world header_cache
    × (is_skewed world header_result.date ≡ false)
    × ((a : Attempt) × (s : Str) × (attempt world signed ≡ ok a)
        × (header_result.access_key_id ≡ a.scope.akid)
        × (world.resolve header_result.access_key_id ≡ some a.secret)
        × (world.fnv64a s ≡ world.fnv64a a.secret)
        × (a.signature ≡ expected_signature world signed a.scope header_result s))
verify_sound_example =
    verify_sound world header_cache header_cache signed header_result header_cache-IsDerived
      again_test

abbrev header_attempted : Attempt
header_attempted = record {
  scope = scope;
  secret = codes "secret";
  req_time = clock;
  signed_headers = codes "host" ∷ [];
  payload_hash = unsigned_payload;
  canonical =
      codes "GET"
      ++ b'\n' ∷ codes "/b"
      ++ b'\n' ∷ b'\n' ∷ codes "host:h"
      ++ b'\n' ∷ b'\n' ∷ codes "host"
      ++ b'\n' ∷ unsigned_payload;
  signature = codes "0a";
  presigned = false;
  expires = 0;
}

attempted : attempt world signed ≡ ok header_attempted
unfolding verify weigh attempt header_get lookup header_attempt str_eq parse_header_auth has_prefix
    parse_fields split parse_field cut trim_right trim_left credential_scope extract_signed_headers
    sort_strings lower_byte insert insert_sorted str_leb lt64 abs clone_header_with_host
    derive_signing_key is_skewed load parse_date result_of scope_eq settle signature_with
    signing_key skew string_to_sign sub_time canonical_request canonical_uri canonical_query
    canonical_headers canonical_header_value trim_and_collapse collapse query_params query_pairs
    upper_byte hex_encode join presigned_attempt parse_expires parse_int unsigned_decimal
    decimal_digits delete aws_url_encode encode_byte is_unreserved hex_upper policy_attempt
    verify_policy
attempted = refl

verify-fresh_iff_example :
    ((cache' : Cache) × (res : Result) × (verify world [] signed ≡ (cache', ok res))) ↔ (
      header_attempted.signature
      ≡ signature_with world header_attempted
          (derive_signing_key world.crypto header_attempted.secret scope))
verify-fresh_iff_example = verify-fresh_iff world signed header_attempted attempted

abbrev presigned_request : Request
presigned_request = record {
  method = codes "GET";
  path = codes "/b";
  query =
      (codes "X-Amz-Algorithm", algorithm ∷ [])
      ∷ (codes "X-Amz-Credential", codes "AK/D/r/s3/aws4_request" ∷ [])
      ∷ (codes "X-Amz-Date", codes "T" ∷ [])
      ∷ (codes "X-Amz-Expires", codes "60" ∷ [])
      ∷ (codes "X-Amz-SignedHeaders", codes "host" ∷ [])
      ∷ (codes "X-Amz-Signature", codes "AD" ∷ [])
      ∷ [];
  headers = [];
  host = codes "h";
  content_length = 0;
}

abbrev presigned_result : Result
presigned_result = record {
  access_key_id = codes "AK";
  region = codes "r";
  service = codes "s3";
  date = clock;
  signed_headers = codes "host" ∷ [];
  payload_hash = unsigned_payload;
  presigned = true;
  expires = 60 * second;
  signing_key = [];
  seed_signature = [];
}

presigned_test : verify world [] presigned_request ≡ (header_cache, ok presigned_result)
unfolding verify weigh attempt header_get lookup header_attempt str_eq parse_header_auth has_prefix
    parse_fields split parse_field cut trim_right trim_left credential_scope extract_signed_headers
    sort_strings lower_byte insert insert_sorted str_leb lt64 abs clone_header_with_host
    derive_signing_key is_skewed load parse_date result_of scope_eq settle signature_with
    signing_key skew string_to_sign sub_time canonical_request canonical_uri canonical_query
    canonical_headers canonical_header_value trim_and_collapse collapse query_params query_pairs
    upper_byte hex_encode join presigned_attempt parse_expires parse_int unsigned_decimal
    decimal_digits delete aws_url_encode encode_byte is_unreserved hex_upper policy_attempt
    verify_policy
presigned_test = refl

verify-lifetime_example :
    (second ≤ presigned_result.expires)
    × (presigned_result.expires ≤ max_expires * second)
    × (world.now 1 ≤ presigned_result.date + presigned_result.expires)
    × (((presigned_result.date ≤ world.now 0 + skew world)
          × (world.now 0 ≤ presigned_result.date + skew world))
        ⊎ (world.now 0 + sign_bit ≤ presigned_result.date))
unfolding skew lt64
verify-lifetime_example =
    verify-lifetime world [] header_cache presigned_request presigned_result (omega arith)
      presigned_test refl

abbrev forged : Request
forged = record presigned_request {
  query = insert (codes "X-Amz-Signature") (codes "ae" ∷ []) presigned_request.query;
}

forged_test : (verify world [] forged).1 ≡ err signature_mismatch
unfolding verify weigh attempt header_get lookup header_attempt str_eq parse_header_auth has_prefix
    parse_fields split parse_field cut trim_right trim_left credential_scope extract_signed_headers
    sort_strings lower_byte insert insert_sorted str_leb lt64 abs clone_header_with_host
    derive_signing_key is_skewed load parse_date result_of scope_eq settle signature_with
    signing_key skew string_to_sign sub_time canonical_request canonical_uri canonical_query
    canonical_headers canonical_header_value trim_and_collapse collapse query_params query_pairs
    upper_byte hex_encode join presigned_attempt parse_expires parse_int unsigned_decimal
    decimal_digits delete aws_url_encode encode_byte is_unreserved hex_upper policy_attempt
    verify_policy
forged_test = refl

verify-error_example :
    ((signature_mismatch ≡ signature_mismatch)
      × ((a : Attempt) × (attempt world forged ≡ ok a)
          × ¬ (a.signature ≡ signature_with world a (signing_key world [] a.secret a.scope).1)))
    ⊎ ((signature_mismatch ≢ signature_mismatch)
        × (attempt world forged ≡ err signature_mismatch)
        × ((verify world [] forged).0 ≡ []))
verify-error_example = verify-error world [] forged signature_mismatch forged_test

parse_header_auth-authorization_text_example :
    parse_header_auth (authorization_text scope (codes "x-amz-date;Host") (codes "0A"))
    ≡ ok (record {
      scope = scope;
      signed_headers = extract_signed_headers (codes "x-amz-date;Host");
      signature = to_lower (codes "0A");
    })
unfolding IsTokens is_token extract_signed_headers sort_strings insert_sorted str_leb split
    trim_left trim_right lower_byte str_eq
parse_header_auth-authorization_text_example =
    parse_header_auth-authorization_text scope (codes "x-amz-date;Host") (codes "0A")
      (refl, refl, refl, refl) refl refl refl

abbrev form : PolicyAuth
form = record {
  algorithm = algorithm;
  credential = codes "AK/D/r/s3/aws4_request";
  date = codes "T";
  signature = codes "E0";
  policy = codes "cG9saWN5";
}

abbrev form_result : PolicyResult
form_result = record {
  access_key_id = codes "AK";
  region = codes "r";
  service = codes "s3";
  date = clock;
}

form_test : verify_policy world [] form ≡ (header_cache, ok form_result)
unfolding verify weigh attempt header_get lookup header_attempt str_eq parse_header_auth has_prefix
    parse_fields split parse_field cut trim_right trim_left credential_scope extract_signed_headers
    sort_strings lower_byte insert insert_sorted str_leb lt64 abs clone_header_with_host
    derive_signing_key is_skewed load parse_date result_of scope_eq settle signature_with
    signing_key skew string_to_sign sub_time canonical_request canonical_uri canonical_query
    canonical_headers canonical_header_value trim_and_collapse collapse query_params query_pairs
    upper_byte hex_encode join presigned_attempt parse_expires parse_int unsigned_decimal
    decimal_digits delete aws_url_encode encode_byte is_unreserved hex_upper policy_attempt
    verify_policy
form_test = refl

verify_policy_sound_example :
    IsDerived world header_cache
    × (is_skewed world form_result.date ≡ false)
    × ((k : Scope) × (secret s : Str) × (credential_scope form.credential ≡ some k)
        × (form_result.access_key_id ≡ k.akid)
        × (world.resolve form_result.access_key_id ≡ some secret)
        × (world.format_day form_result.date ≡ k.date)
        × (world.fnv64a s ≡ world.fnv64a secret)
        × (to_lower form.signature
            ≡ hex_encode
                (world.crypto.hmac_sha256 (derive_signing_key world.crypto s k) form.policy)))
unfolding IsDerived
verify_policy_sound_example =
    verify_policy_sound world [] header_cache form form_result tt form_test
