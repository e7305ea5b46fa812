-- ===== src/Proxy/Cors.antt =====
-- internal/s3proxy/cors.go: the CORS rule that answers a request, the answer to a preflight and the
-- headers added to other responses. A http.Header is a dictionary of lists of values, and an int or a
-- time.Duration is its 64-bit pattern.
pub mod Match
pub mod Preflight
mod Examples
use stowage.Base.{
  ℕ, zero, suc, ◌+◌, ◌-◌, ◌*◌, ◌/◌, ◌%◌, ◌^◌, ◌≤◌, ◌<◌, ◌≡◌, refl, sym, ap, subst, ◌∙◌, ◌≢◌, ◌↔◌,
  ◌⊎◌, inl, inr, Bool, true, false, not, ◌&&◌, ◌||◌, Option, none, some, List, [], ◌∷◌, ◌++◌, map,
  arith, ltb, leb, ◌==◌, if◌then◌else◌, ltb→lt, lt→ltb, leb→le, ==_iff, Bool-cases, Option-cases,
  length, take, drop, length-append, take-append-drop, take-length, drop-length, length-take,
  length-drop, all, any, keep, All, Str, codes, str_eq, str_eq_self, str_eq_sound, str_eq_iff,
  cut-append, cut_sound, has_prefix, trim_byte, cut, lower_byte, to_lower, equal_fold, is_space,
  trim_left, trim_right, trim_space, is_newline,
}
use stowage.Base.Dict.{
  Dict, lookup, insert, delete, has, map_values, lookup-insert, lookup-delete, dict_laws,
  lookup-map_values-some, lookup-map_values-none,
}
use stowage.Base.Int64.{modulus, sign_bit, add64, lt64, lt64-small, add64-small}
use stowage.Proxy.Route.{Method, options, null}
use stowage.Sigv4.Canonical.{join}
pub use stowage.Base.Http.{Header, header_set}
unfoldable pub use stowage.Base.Http.{header_get, header_add, itoa_loop, itoa}

pub record BucketCorsRule : Type 0 where
  pub allowed_origins : List Str
  pub allowed_methods : List Str
  pub allowed_headers : List Str
  pub expose_headers : List Str
  pub max_age_seconds : ℕ

abbrev pub star : Str
star = codes "*"

unfoldable pub match_origin : List Str → Str → Str
match_origin [] origin = []
match_origin (o ∷ allowed) origin =
    let rest = match_origin allowed origin in
    if str_eq o star then star else if str_eq o origin then origin else rest

-- `sliceContainsFold`
abbrev pub slice_contains_fold : List Str → Str → Bool
slice_contains_fold haystack needle = any (λ v. equal_fold v needle) haystack

-- the loop of `matchCORSRule`
unfoldable pub match_rules : List BucketCorsRule → Str → Str → Option (BucketCorsRule × Str)
unfolding match_origin
match_rules [] origin method = none
match_rules (ru ∷ rules) origin method =
    let rest = match_rules rules origin method in
    let allow = match_origin ru.allowed_origins origin in
    if null allow
    then rest
    else if not (null method) && not (slice_contains_fold ru.allowed_methods method)
    then rest
    else some (ru, allow)

unfoldable pub match_cors_rule : List BucketCorsRule → Str → Str → Option (BucketCorsRule × Str)
match_cors_rule rules [] method = none
match_cors_rule rules (c ∷ origin) method = match_rules rules (c ∷ origin) method

abbrev pub second : ℕ
second = 1000000000

abbrev pub default_cors_max_age : ℕ
default_cors_max_age = 600 * second

abbrev pub default_cors_headers : List Str
default_cors_headers =
    codes "Authorization"
    ∷ codes "Content-Type"
    ∷ codes "Content-Disposition"
    ∷ codes "Content-Encoding"
    ∷ codes "Cache-Control"
    ∷ codes "Expires"
    ∷ codes "x-amz-date"
    ∷ codes "x-amz-content-sha256"
    ∷ codes "x-amz-security-token"
    ∷ codes "x-amz-user-agent"
    ∷ codes "x-amz-acl"
    ∷ codes "x-amz-storage-class"
    ∷ codes "x-amz-server-side-encryption"
    ∷ codes "x-amz-tagging"
    ∷ codes "x-amz-meta-*"
    ∷ []

abbrev pub default_cors_exposed : List Str
default_cors_exposed = codes "ETag" ∷ codes "x-amz-version-id" ∷ codes "x-amz-request-id" ∷ []

abbrev pub or_default : List Str → List Str → List Str
or_default [] d = d
or_default (x ∷ xs) d = x ∷ xs

-- the value of Access-Control-Max-Age
unfoldable pub max_age : BucketCorsRule → ℕ
max_age rule =
    let age = rule.max_age_seconds * second % modulus in
    (if lt64 0 age then age else default_cors_max_age) / second

-- the headers of the answer to a preflight
unfoldable pub preflight_headers : BucketCorsRule → Str → Header → Header
preflight_headers rule allow h =
    header_add (codes "Vary") (codes "Access-Control-Request-Headers") (
      header_add (codes "Vary") (codes "Access-Control-Request-Method") (
        header_add (codes "Vary") (codes "Origin") (
          header_set (codes "Access-Control-Max-Age") (itoa (max_age rule)) (
            header_set (codes "Access-Control-Allow-Headers")
              (join (codes ", ") (or_default rule.allowed_headers default_cors_headers))
              (header_set (codes "Access-Control-Allow-Methods")
                (join (codes ", ") rule.allowed_methods)
                (header_set (codes "Access-Control-Allow-Origin") allow h))))))

-- `handlePreflight`: the headers of the 204 answer, or none where the request falls through
unfoldable pub handle_preflight : List BucketCorsRule → Method → Header → Header → Option Header
handle_preflight [] method request h = none
handle_preflight (rule ∷ rules) options request h =
    let requested = header_get (codes "Access-Control-Request-Method") request in
    let origin = header_get (codes "Origin") request in
    if null requested then none else elim (match_cors_rule (rule ∷ rules) origin requested) [
      | none ↦ none
      | some (found, allow) ↦ some (preflight_headers found allow h)
    ]
handle_preflight (rule ∷ rules) _ request h = none

-- `decorateCORS`
unfoldable pub decorate_cors : List BucketCorsRule → Header → Header → Header
decorate_cors rules request h =
    elim (match_cors_rule rules (header_get (codes "Origin") request) []) [
      | none ↦ h
      | some (rule, allow) ↦ header_add (codes "Vary") (codes "Origin") (
          header_set (codes "Access-Control-Expose-Headers")
            (join (codes ", ") (or_default rule.expose_headers default_cors_exposed))
            (header_set (codes "Access-Control-Allow-Origin") allow h))
    ]
