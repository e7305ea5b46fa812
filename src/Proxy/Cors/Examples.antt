-- ===== src/Proxy/Cors/Examples.antt =====
-- CORS rules run on requests.
use stowage.Proxy.Cors.{preflight_headers}
use stowage.Proxy.Cors.{header_add}
use stowage.Proxy.Cors.{itoa_loop}
use stowage.Base.{◌≡◌, refl, ◌≢◌, ◌↔◌, none, some, List, [], ◌∷◌, Str, codes, str_eq, lower_byte}
use stowage.Base.Dict.{lookup, insert}
use stowage.Base.Int64.{lt64}
use mathlib.Core.List.{Memᴰ}
use stowage.Proxy.Route.{options}
use stowage.Proxy.Cors.{
  BucketCorsRule, Header, star, match_rules, match_cors_rule, header_get, max_age, handle_preflight,
}
use stowage.Proxy.Cors.Match.{Covers}
use stowage.Proxy.Cors.Preflight.{handle_preflight_iff, requested_method, origin_of}

abbrev app_rule : BucketCorsRule
app_rule = record {
  allowed_origins = codes "https://app.example" ∷ [];
  allowed_methods = codes "GET" ∷ codes "PUT" ∷ [];
  allowed_headers = [];
  expose_headers = [];
  max_age_seconds = 0;
}

abbrev open_rule : BucketCorsRule
open_rule = record app_rule { allowed_origins = star ∷ []; allowed_methods = codes "get" ∷ [] }

abbrev rules : List BucketCorsRule
rules = app_rule ∷ open_rule ∷ []

found_open :
    match_cors_rule rules (codes "https://b.example") (codes "GET") ≡ some (open_rule, star)
unfolding match_cors_rule match_rules str_eq lower_byte
found_open = refl

abbrev preflight : Header
preflight =
    (codes "Access-Control-Request-Method", codes "PUT" ∷ [])
    ∷ (codes "Origin", codes "https://app.example" ∷ [])
    ∷ []

handle_preflight_iff_example :
    ((answer : Header) × (handle_preflight rules options preflight [] ≡ some answer)) ↔ (
      (options ≡ options)
      × (requested_method preflight ≢ [])
      × (origin_of preflight ≢ [])
      × ((ru : BucketCorsRule) × Memᴰ ru rules
          × Covers (origin_of preflight) (requested_method preflight) ru))
handle_preflight_iff_example = handle_preflight_iff rules options preflight []

allow_origin_sent :
    elim (handle_preflight rules options preflight []) as (λ _. Str) [
      | none ↦ []
      | some h ↦ header_get (codes "Access-Control-Max-Age") h
    ]
    ≡ codes "600"
unfolding handle_preflight header_get lookup str_eq match_cors_rule match_rules lower_byte
    preflight_headers header_add insert itoa_loop max_age lt64
allow_origin_sent = refl
