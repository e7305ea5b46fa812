-- ===== src/Proxy/Cors/Match.antt =====
-- Which rule matchCORSRule of internal/s3proxy/cors.go finds, and when a preflight is answered.
use stowage.Base.{
  ℕ, ◌≡◌, refl, sym, ap, subst, ◌≢◌, ◌↔◌, ◌⊎◌, inl, inr, Bool, true, false, not, ◌&&◌, ◌||◌, none,
  some, List, [], ◌∷◌, ◌++◌, arith, Bool-cases, All, Str, str_eq, str_eq_sound, str_eq_iff,
  to_lower, equal_fold,
}
use mathlib.Core.List.{Memᴰ}
use mathlib.Core.List.Memᴰ
use stowage.Proxy.Route.{null}
use stowage.Proxy.Cors.{
  BucketCorsRule, star, match_origin, slice_contains_fold, match_rules, match_cors_rule,
}

-- A rule covers an origin if it lists "*" or the origin, and a method if it lists it up to the case
-- of letters; no method is asked of it when the method is empty.
pub CoversOrigin : BucketCorsRule → Str → Type 0
CoversOrigin ru origin = Memᴰ star ru.allowed_origins ⊎ Memᴰ origin ru.allowed_origins

pub CoversMethod : BucketCorsRule → Str → Type 0
CoversMethod ru method =
    (method ≡ []) ⊎ ((v : Str) × Memᴰ v ru.allowed_methods × (to_lower v ≡ to_lower method))

pub Covers : Str → Str → BucketCorsRule → Type 0
Covers origin method ru = CoversOrigin ru origin × CoversMethod ru method

match_origin-listed :
    (l : List Str) (c : ℕ) (origin : Str)
    → null (match_origin l (c ∷ origin)) ≡ false
    → Memᴰ star l ⊎ Memᴰ (c ∷ origin) l
unfolding match_origin
match_origin-listed [] c origin h = absurd (ground arith)
match_origin-listed (o ∷ l) c origin h = elim (Bool-cases (str_eq o star)) [
  | inl e ↦ inl (Memᴰ.head (sym (str_eq_sound o star e)))
  | inr e ↦ elim (Bool-cases (str_eq o (c ∷ origin))) [
    | inl f ↦ inr (Memᴰ.head (sym (str_eq_sound o (c ∷ origin) f)))
    | inr f ↦ elim (match_origin-listed l c origin (ground arith)) [
      | inl m ↦ inl (Memᴰ.tail m)
      | inr m ↦ inr (Memᴰ.tail m)
    ]
  ]
]

match_origin-unlisted :
    (l : List Str) (c : ℕ) (origin : Str)
    → null (match_origin l (c ∷ origin)) ≡ true
    → ¬ (Memᴰ star l ⊎ Memᴰ (c ∷ origin) l)
unfolding match_origin
match_origin-unlisted [] c origin h m = elim m [ inl e ↦ Memᴰ.not-nil e | inr e ↦ Memᴰ.not-nil e ]
match_origin-unlisted (o ∷ l) c origin h m = elim m [
  | inl (Memᴰ.head e) ↦ ground (arith, str_eq_iff o star)
  | inl (Memᴰ.tail t) ↦ match_origin-unlisted l c origin (ground arith) (inl t)
  | inr (Memᴰ.head e) ↦ ground (arith, str_eq_iff o (c ∷ origin))
  | inr (Memᴰ.tail t) ↦ match_origin-unlisted l c origin (ground arith) (inr t)
]

match_origin-value :
    (l : List Str) (origin : Str)
    → null (match_origin l origin) ≡ false
    → (match_origin l origin ≡ star) ⊎ (match_origin l origin ≡ origin)
unfolding match_origin
match_origin-value [] origin h = absurd (ground arith)
match_origin-value (o ∷ l) origin h = ground (arith, match_origin-value l origin)

contains-listed :
    (l : List Str) (method : Str)
    → slice_contains_fold l method ≡ true
    → (v : Str) × Memᴰ v l × (to_lower v ≡ to_lower method)
contains-listed [] method h = absurd (ground arith)
contains-listed (v ∷ l) method h = elim (Bool-cases (equal_fold v method)) [
  | inl e ↦ (v, Memᴰ.head refl, str_eq_sound (to_lower v) (to_lower method) e)
  | inr e ↦ let (w, m, f) = contains-listed l method (ground arith) in (w, Memᴰ.tail m, f)
]

contains-unlisted :
    (l : List Str) (method : Str)
    → slice_contains_fold l method ≡ false
    → ¬ ((v : Str) × Memᴰ v l × (to_lower v ≡ to_lower method))
contains-unlisted [] method h (v, m, e) = Memᴰ.not-nil m
contains-unlisted (w ∷ l) method h (v, Memᴰ.head f, e) =
    ground (arith, str_eq_iff (to_lower w) (to_lower method))
contains-unlisted (w ∷ l) method h (v, Memᴰ.tail m, e) =
    contains-unlisted l method (ground arith) (v, m, e)

-- The tests of one turn of the loop, and what they decide.
abbrev covers : Str → Str → BucketCorsRule → Bool
covers origin method ru =
    not (null (match_origin ru.allowed_origins origin))
    && (null method || slice_contains_fold ru.allowed_methods method)

covers-Covers :
    (c : ℕ) (origin method : Str) (ru : BucketCorsRule)
    → covers (c ∷ origin) method ru ≡ true
    → Covers (c ∷ origin) method ru
unfolding Covers CoversOrigin CoversMethod
covers-Covers c origin [] ru h =
    (match_origin-listed ru.allowed_origins c origin (ground arith), inl refl)
covers-Covers c origin (m ∷ method) ru h = (
  match_origin-listed ru.allowed_origins c origin (ground arith),
  inr (contains-listed ru.allowed_methods (m ∷ method) (ground arith)),
)

covers-not_Covers :
    (c : ℕ) (origin method : Str) (ru : BucketCorsRule)
    → covers (c ∷ origin) method ru ≡ false
    → ¬ Covers (c ∷ origin) method ru
unfolding Covers CoversOrigin CoversMethod
covers-not_Covers c origin method ru h (o, inl e) =
    match_origin-unlisted ru.allowed_origins c origin (ground arith) o
covers-not_Covers c origin method ru h (o, inr l) =
    elim (Bool-cases (null (match_origin ru.allowed_origins (c ∷ origin)))) [
      | inl e ↦ match_origin-unlisted ru.allowed_origins c origin e o
      | inr e ↦ contains-unlisted ru.allowed_methods method (ground arith) l
    ]

match_rules-first :
    (rules : List BucketCorsRule) (c : ℕ) (origin method : Str) (ru : BucketCorsRule) (allow : Str)
    → match_rules rules (c ∷ origin) method ≡ some (ru, allow)
    → (before : List BucketCorsRule) × (after : List BucketCorsRule) × (rules
        ≡ before ++ ru ∷ after)
      × All (λ r. ¬ Covers (c ∷ origin) method r) before
      × Covers (c ∷ origin) method ru
      × ((allow ≡ star) ⊎ (allow ≡ c ∷ origin))
unfolding match_rules
match_rules-first [] c origin method ru allow h = absurd (ground arith)
match_rules-first (r ∷ rules) c origin method ru allow h =
    elim (Bool-cases (covers (c ∷ origin) method r)) [
      | inl e ↦ (
        [],
        rules,
        ap (λ x. x ∷ rules) (found e),
        tt,
        subst (Covers (c ∷ origin) method) (found e) (covers-Covers c origin method r e),
        subst (λ x. (x ≡ star) ⊎ (x ≡ c ∷ origin)) (echoed e)
            (match_origin-value r.allowed_origins (c ∷ origin) (ground arith)),
      )
      | inr e ↦
          let (before, after, split, none_of, this, value) =
            match_rules-first rules c origin method ru allow (ground arith) in
          (
            r ∷ before,
            after,
            ap (λ x. r ∷ x) split,
            (covers-not_Covers c origin method r e, none_of),
            this,
            value,
          )
    ]
  where
    found : covers (c ∷ origin) method r ≡ true → r ≡ ru
    found e = ground arith

    echoed :
        covers (c ∷ origin) method r ≡ true → match_origin r.allowed_origins (c ∷ origin) ≡ allow
    echoed e = ground arith

match_rules-none :
    (rules : List BucketCorsRule) (c : ℕ) (origin method : Str)
    → match_rules rules (c ∷ origin) method ≡ none
    → All (λ r. ¬ Covers (c ∷ origin) method r) rules
unfolding match_rules
match_rules-none [] c origin method h = tt
match_rules-none (r ∷ rules) c origin method h = (
  covers-not_Covers c origin method r (ground arith),
  match_rules-none rules c origin method (ground arith),
)

match_rules-uncovered :
    (rules : List BucketCorsRule) (c : ℕ) (origin method : Str)
    → All (λ r. ¬ Covers (c ∷ origin) method r) rules
    → match_rules rules (c ∷ origin) method ≡ none
unfolding match_rules
match_rules-uncovered [] c origin method h = refl
match_rules-uncovered (r ∷ rules) c origin method (not_this, none_of) =
    elim (Bool-cases (covers (c ∷ origin) method r)) [
      | inl e ↦ absurd (not_this (covers-Covers c origin method r e))
      | inr e ↦ ground (arith, match_rules-uncovered rules c origin method none_of)
    ]

-- `matchCORSRule` finds the first rule that covers the origin and the method, and the value to echo
-- is "*" or the origin.
pub match_cors_rule-first :
    (rules : List BucketCorsRule) (origin method : Str) (ru : BucketCorsRule) (allow : Str)
    → match_cors_rule rules origin method ≡ some (ru, allow)
    → (before : List BucketCorsRule) × (after : List BucketCorsRule) × (rules
        ≡ before ++ ru ∷ after)
      × All (λ r. ¬ Covers origin method r) before
      × Covers origin method ru
      × ((allow ≡ star) ⊎ (allow ≡ origin))
unfolding match_cors_rule
match_cors_rule-first rules [] method ru allow h = absurd (ground arith)
match_cors_rule-first rules (c ∷ origin) method ru allow h =
    match_rules-first rules c origin method ru allow h

-- With an origin in the request, `matchCORSRule` finds nothing exactly if no rule covers the origin
-- and the method.
pub match_cors_rule-none :
    (rules : List BucketCorsRule) (origin method : Str)
    → origin ≢ []
    → (match_cors_rule rules origin method ≡ none) ↔ All (λ r. ¬ Covers origin method r) rules
unfolding match_cors_rule
match_cors_rule-none rules [] method h = absurd (h refl)
match_cors_rule-none rules (c ∷ origin) method h =
    (match_rules-none rules c origin method, match_rules-uncovered rules c origin method)
