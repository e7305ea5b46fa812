-- ===== src/Proxy/Route/Examples.antt =====
-- Routes and anonymous requests run.
use stowage.Base.{◌≡◌, refl, ◌⊎◌, true, none, [], ◌∷◌, arith, All, codes, str_eq, lower_byte}
use stowage.Base.Dict.{lookup}
use stowage.Proxy.Route.{
  any_blocked, Method, get, Request, RouteInfo, classify_operation, anonymous_op_allowed,
  anon_mode_read_only, anonymous_blocked_subresources, enforce_scope,
}
use stowage.Proxy.Route.Allowed.{any_blocked-false, anonymous_reads_only, anonymous_get_allowed}

abbrev a_request : Request
a_request = record {
  method = get;
  host = codes "s3.example.com:8443";
  path = codes "/photos/2024/cat.png";
  query = (codes "x-id", codes "GetObject" ∷ []) ∷ [];
  content_type = [];
}

abbrev a_route : RouteInfo
a_route = record { bucket = codes "photos"; key = codes "2024/cat.png"; path_style = true }

no_subresource : All (λ k. lookup k a_request.query ≡ none) anonymous_blocked_subresources
unfolding any_blocked anonymous_blocked_subresources lookup str_eq
no_subresource = any_blocked-false anonymous_blocked_subresources a_request.query refl

anonymous_get_allowed_example :
    anonymous_op_allowed anon_mode_read_only (classify_operation a_request a_route) a_request.query
    ≡ true
anonymous_get_allowed_example =
    anonymous_get_allowed a_request a_route refl (ground arith) (ground arith) no_subresource

anonymous_reads_only_example :
    (anon_mode_read_only ≡ anon_mode_read_only)
    × ((a_request.method ≡ get) ⊎ (a_request.method ≡ Method.head))
    × All (λ k. lookup k a_request.query ≡ none) anonymous_blocked_subresources
anonymous_reads_only_example =
    anonymous_reads_only anon_mode_read_only a_request a_route anonymous_get_allowed_example

scope_found : enforce_scope (codes "logs" ∷ codes "Photos" ∷ []) (codes "photos") ≡ true
unfolding enforce_scope str_eq lower_byte
scope_found = refl
