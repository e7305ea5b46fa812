-- ===== src/Proxy/Cors/Preflight.antt =====
-- When handlePreflight of internal/s3proxy/cors.go answers.
use stowage.Base.{
  ◌≡◌, refl, sym, subst, ◌≢◌, ◌↔◌, inl, inr, some, List, [], ◌∷◌, ◌++◌, arith, Option-cases, All,
  Str, codes,
}
use mathlib.Core.List.{Memᴰ}
use mathlib.Core.List.Memᴰ
use stowage.Proxy.Route.{Method, options}
use stowage.Proxy.Cors.{
  BucketCorsRule, Header, match_rules, match_cors_rule, header_get, preflight_headers,
  handle_preflight,
}
use stowage.Proxy.Cors.Match.{Covers, match_cors_rule-first, match_cors_rule-none}

member-of_split :
    (before after : List BucketCorsRule) (ru : BucketCorsRule) → Memᴰ ru (before ++ ru ∷ after)
member-of_split [] after ru = Memᴰ.head refl
member-of_split (r ∷ before) after ru = Memᴰ.tail (member-of_split before after ru)

All-member :
    (P : BucketCorsRule → Type 0) (rules : List BucketCorsRule) (ru : BucketCorsRule)
    → All P rules
    → Memᴰ ru rules
    → P ru
All-member P [] ru ps m = absurd (Memᴰ.not-nil m)
All-member P (r ∷ rules) ru (p, ps) (Memᴰ.head e) = subst P (sym e) p
All-member P (r ∷ rules) ru (p, ps) (Memᴰ.tail m) = All-member P rules ru ps m

origin-nonempty :
    (rules : List BucketCorsRule) (origin method : Str) (found : BucketCorsRule × Str)
    → match_cors_rule rules origin method ≡ some found
    → origin ≢ []
unfolding match_cors_rule
origin-nonempty rules [] method found h e = ground arith
origin-nonempty rules (c ∷ origin) method found h e = cc

abbrev pub requested_method : Header → Str
requested_method request = header_get (codes "Access-Control-Request-Method") request

abbrev pub origin_of : Header → Str
origin_of request = header_get (codes "Origin") request

answered :
    (rules : List BucketCorsRule) (method : Method) (request h answer : Header)
    → handle_preflight rules method request h ≡ some answer
    → (method ≡ options)
      × (requested_method request ≢ [])
      × ((found : BucketCorsRule × Str) × (match_cors_rule rules
              (origin_of request)
              (requested_method request)
            ≡ some found))
unfolding handle_preflight
answered [] method request h answer e = absurd (ground arith)
answered (r ∷ rules) method request h answer e =
    elim (Option-cases
      (match_cors_rule (r ∷ rules) (origin_of request) (requested_method request))) [
        | inl n ↦ absurd (ground arith)
        | inr (found, f) ↦ (ground arith, ground arith, (found, f))
      ]

no_rules :
    (origin method : Str) (found : BucketCorsRule × Str)
    → match_cors_rule [] origin method ≢ some found
unfolding match_cors_rule match_rules
no_rules [] method found e = ground arith
no_rules (c ∷ origin) method found e = ground arith

answers :
    (rules : List BucketCorsRule) (request h : Header) (found : BucketCorsRule × Str)
    → requested_method request ≢ []
    → match_cors_rule rules (origin_of request) (requested_method request) ≡ some found
    → handle_preflight rules options request h ≡ some (preflight_headers found.0 found.1 h)
unfolding handle_preflight
answers [] request h found n e =
    absurd (no_rules (origin_of request) (requested_method request) found e)
answers (r ∷ rules) request h found n e = ground arith

-- A preflight is answered exactly for an OPTIONS request that names an origin and a method of which
-- one of the bucket's rules covers both.
pub handle_preflight_iff :
    (rules : List BucketCorsRule) (method : Method) (request h : Header)
    → ((answer : Header) × (handle_preflight rules method request h ≡ some answer)) ↔ (
        (method ≡ options)
        × (requested_method request ≢ [])
        × (origin_of request ≢ [])
        × ((ru : BucketCorsRule) × Memᴰ ru rules
            × Covers (origin_of request) (requested_method request) ru))
handle_preflight_iff rules method request h = (
  (λ (answer, e).
      let (is_options, asked, ((ru, allow), f)) = answered rules method request h answer e in
      let (before, after, split, none_of, covered, value) =
        match_cors_rule-first rules (origin_of request) (requested_method request) ru allow f in
      (
        is_options,
        asked,
        origin-nonempty rules (origin_of request) (requested_method request) (ru, allow) f,
        (ru, subst (λ x. Memᴰ ru x) (sym split) (member-of_split before after ru), covered),
      )),
  (λ (is_options, asked, named, (ru, m, covered)).
      elim (Option-cases (match_cors_rule rules (origin_of request) (requested_method request))) [
        | inl n ↦ absurd (
            All-member (λ r. ¬ Covers (origin_of request) (requested_method request) r) rules ru
              ((match_cors_rule-none rules (origin_of request) (requested_method request) named).0
                n)
              m covered)
        | inr (found, f) ↦ (
          preflight_headers found.0 found.1 h,
          rw is_options (answers rules request h found asked f),
        )
      ]),
)
