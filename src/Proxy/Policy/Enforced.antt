-- ===== src/Proxy/Policy/Enforced.antt =====
-- Which forms EnforcePolicy of internal/s3proxy/postpolicy.go accepts, and what becomes of conditions
-- on one field.
use stowage.Base.{
  ◌≡◌, refl, subst, ◌↔◌, inl, inr, true, ◌||◌, none, some, [], ◌∷◌, arith, Bool-cases, Option-cases,
  All, Str, str_eq, str_eq_self, str_eq_sound, str_eq_iff, has_prefix,
}
use stowage.Base.Dict.{Dict, lookup, has}
use stowage.Proxy.Policy.{
  PostPolicy, is_signing_field, unmatched, unequal, unprefixed, enforce_policy,
}

-- Every name has one entry, as in a Go map.
unfoldable pub IsMap {ℓ} : {V : Type ℓ} → Dict V → Type ℓ
IsMap [] = Unit
IsMap ((k, v) ∷ m) = (lookup k m ≡ none) × IsMap m

entries {ℓ} :
    {V : Type ℓ} (before m : Dict V)
    → IsMap m
    → ((k : Str) (v : V) → lookup k m ≡ some v → lookup k before ≡ some v)
    → All (λ (k, v). lookup k before ≡ some v) m
unfolding IsMap lookup
entries before [] h f = tt
entries before ((k, v) ∷ m) (new, h) f = (
  f k v (ground (arith, str_eq_self k)),
  entries before m h (λ j w e. f j w (ground (arith, str_eq_iff k j))),
)

IsMap-entries {ℓ} : {V : Type ℓ} (m : Dict V) → IsMap m → All (λ (k, v). lookup k m ≡ some v) m
IsMap-entries m h = entries m m h (λ k v e. e)

-- What holds of every entry holds of what is looked up, and the other way round in a map.
entry-lookup {ℓ κ} :
    {V : Type ℓ} (Q : Str → V → Type κ) (m : Dict V) (k : Str) (v : V)
    → All (λ (j, w). Q j w) m
    → lookup k m ≡ some v
    → Q k v
unfolding lookup
entry-lookup Q [] k v h e = cc
entry-lookup {V = V} Q ((j, w) ∷ m) k v (this, others) e = elim (Bool-cases (str_eq j k)) [
  | inl f ↦ subst (Q k) (same f) (subst (λ x. Q x w) (str_eq_sound j k f) this)
  | inr f ↦ entry-lookup Q m k v others (ground arith)
]
  where
    same : str_eq j k ≡ true → w ≡ v
    same f = ground arith

lookup_entries {ℓ κ} :
    {V : Type ℓ} (Q : Str → V → Type κ) (m all_of : Dict V)
    → All (λ (k, v). lookup k all_of ≡ some v) m
    → ((k : Str) (v : V) → lookup k all_of ≡ some v → Q k v)
    → All (λ (k, v). Q k v) m
lookup_entries Q [] all_of h f = tt
lookup_entries Q ((k, v) ∷ m) all_of (e, h) f = (f k v e, lookup_entries Q m all_of h f)

-- A form satisfies a policy: every field that does not sign the request has a condition, and every
-- condition holds of its field.
pub Conditioned : PostPolicy → Str → Str → Type 0
Conditioned policy name value =
    is_signing_field name || has name policy.equals || has name policy.starts_with ≡ true

pub Equal : Dict Str → Str → Str → Type 0
Equal fields name want = lookup name fields ≡ some want

pub Prefixed : Dict Str → Str → Str → Type 0
Prefixed fields name prefix =
    (got : Str) × (lookup name fields ≡ some got) × (has_prefix got prefix ≡ true)

pub Satisfies : PostPolicy → Dict Str → Type 0
Satisfies policy fields =
    ((name value : Str) → lookup name fields ≡ some value → Conditioned policy name value)
    × ((name want : Str) → lookup name policy.equals ≡ some want → Equal fields name want)
    × ((name prefix : Str)
        → lookup name policy.starts_with ≡ some prefix
        → Prefixed fields name prefix)

unmatched-All :
    (policy : PostPolicy) (fields : Dict Str)
    → (unmatched policy fields ≡ none) ↔ All (λ (n, v). Conditioned policy n v) fields
unfolding unmatched Conditioned
unmatched-All policy [] = (λ h. tt, λ h. refl)
unmatched-All policy ((n, v) ∷ fields) = (
  (λ h. (ground arith, (unmatched-All policy fields).0 (ground arith))),
  (λ (c, h). ground (arith, (unmatched-All policy fields).1 h)),
)

unequal-All :
    (fields equals : Dict Str)
    → (unequal fields equals ≡ none) ↔ All (λ (n, w). Equal fields n w) equals
unfolding unequal Equal
unequal-All fields [] = (λ h. tt, λ h. refl)
unequal-All fields ((n, w) ∷ equals) = elim (Option-cases (lookup n fields)) [
  | inl e ↦ (λ h. absurd (ground arith), λ (c, h). absurd (ground arith))
  | inr (got, e) ↦ (
    (λ h. (ground (arith, str_eq_iff got w), (unequal-All fields equals).0 (ground arith))),
    (λ (c, h). ground (arith, str_eq_iff got w, (unequal-All fields equals).1 h)),
  )
]

unprefixed-All :
    (fields starts : Dict Str)
    → (unprefixed fields starts ≡ none) ↔ All (λ (n, p). Prefixed fields n p) starts
unfolding unprefixed Prefixed
unprefixed-All fields [] = (λ h. tt, λ h. refl)
unprefixed-All fields ((n, p) ∷ starts) = elim (Option-cases (lookup n fields)) [
  | inl e ↦ (λ h. absurd (ground arith), λ ((got, f, g), h). absurd (ground arith))
  | inr (got, e) ↦ (
    (λ h. ((got, e, ground arith), (unprefixed-All fields starts).0 (ground arith))),
    (λ ((got', f, g), h). ground (arith, (unprefixed-All fields starts).1 h)),
  )
]

-- For a form and a policy whose names have one entry each, `EnforcePolicy` finds no violation
-- exactly if every field that does not sign the request has a condition, every exact condition is met
-- by the field of that name, and every prefix condition by the start of its field.
pub enforce_policy_iff :
    (policy : PostPolicy) (fields : Dict Str)
    → IsMap fields
    → IsMap policy.equals
    → IsMap policy.starts_with
    → (enforce_policy policy fields ≡ none) ↔ Satisfies policy fields
unfolding enforce_policy Satisfies
enforce_policy_iff policy fields one one_equal one_prefix = (
  (λ h.
      let all_named = (unmatched-All policy fields).0 (ground arith) in
      let all_equal = (unequal-All fields policy.equals).0 (ground arith) in
      let all_prefixed = (unprefixed-All fields policy.starts_with).0 (ground arith) in
      (
        (λ n v e. entry-lookup (Conditioned policy) fields n v all_named e),
        (λ n w e. entry-lookup (Equal fields) policy.equals n w all_equal e),
        (λ n p e. entry-lookup (Prefixed fields) policy.starts_with n p all_prefixed e),
      )),
  (λ (named, equal, prefixed). ground (
    arith,
    (unmatched-All policy fields).1
        (lookup_entries (Conditioned policy) fields fields (IsMap-entries fields one) named),
    (unequal-All fields policy.equals).1 (
        lookup_entries (Equal fields) policy.equals policy.equals
          (IsMap-entries policy.equals one_equal) equal),
    (unprefixed-All fields policy.starts_with).1 (
        lookup_entries (Prefixed fields) policy.starts_with policy.starts_with
          (IsMap-entries policy.starts_with one_prefix) prefixed),
  )),
)
