-- ===== src/Proxy/Policy/Merged.antt =====
-- The policy that the conditions of internal/s3proxy/postpolicy.go are merged into.
use stowage.Base.{
  ℕ, ◌≤◌, ◌≡◌, refl, subst, inl, inr, true, false, Option, none, some, List, [], ◌∷◌, arith,
  Bool-cases, Option-cases, Str, codes, str_eq, str_eq_sound, str_eq_iff,
}
use stowage.Base.Dict.{Dict, lookup, insert, lookup-insert}
use stowage.Base.Int64.{lt64}
use stowage.Proxy.Policy.{
  PostPolicy, Condition, object, operator, length_range, malformed, merge_condition,
  merge_conditions, parse_post_policy, empty_policy, strip_dollar, normalize_field,
}
use stowage.Proxy.Policy.Enforced.{IsMap}

insert-IsMap {ℓ} : {V : Type ℓ} (k : Str) (v : V) (m : Dict V) → IsMap m → IsMap (insert k v m)
unfolding IsMap insert lookup
insert-IsMap k v [] h = (refl, tt)
insert-IsMap k v ((j, w) ∷ m) (new, h) = elim (Bool-cases (str_eq j k)) [
  | inl e ↦ subst IsMap (here e) (ground (arith, str_eq_sound j k e), h)
  | inr e ↦
      subst IsMap (there e) (
        ground (arith, str_eq_iff j k, str_eq_iff k j, lookup-insert k j v m),
        insert-IsMap k v m h,
      )
]
  where
    here : str_eq j k ≡ true → (k, v) ∷ m ≡ insert k v ((j, w) ∷ m)
    here e = ground arith

    there : str_eq j k ≡ false → (j, w) ∷ insert k v m ≡ insert k v ((j, w) ∷ m)
    there e = ground arith

-- The bounds on the size of the file, read as signed numbers: neither is negative, and they are in
-- order.
pub AreBounds : Option (ℕ × ℕ) → Type 0
AreBounds none = Unit
AreBounds (some (lo, hi)) = (lt64 lo 0 ≡ false) × (lt64 hi lo ≡ false)

-- What `EnforcePolicy` and the upload rely on.
pub IsSound : PostPolicy → Type 0
IsSound p = IsMap p.equals × IsMap p.starts_with × AreBounds p.content_length

merge_condition-IsSound :
    (p q : PostPolicy) (c : Condition) → IsSound p → merge_condition p c ≡ some q → IsSound q
unfolding IsSound AreBounds merge_condition
merge_condition-IsSound p q (object []) h e = absurd (ground arith)
merge_condition-IsSound p q (object ((k, v) ∷ [])) (equal, prefixed, bounds) e =
    subst IsSound stored (insert-IsMap (normalize_field k) v p.equals equal, prefixed, bounds)
  where
    stored : record p { equals = insert (normalize_field k) v p.equals } ≡ q
    stored = ground arith
merge_condition-IsSound p q (object (x ∷ y ∷ m)) h e = absurd (ground arith)
merge_condition-IsSound p q (operator op field value) (equal, prefixed, bounds) e =
    elim (Bool-cases (str_eq op (codes "eq"))) [
      | inl f ↦
          subst IsSound (as_equal f) (insert-IsMap name value p.equals equal, prefixed, bounds)
      | inr f ↦
          subst IsSound (as_prefix f)
            (equal, insert-IsMap name value p.starts_with prefixed, bounds)
    ]
  where
    name : Str
    name = normalize_field (strip_dollar field)

    as_equal : str_eq op (codes "eq") ≡ true → record p { equals = insert name value p.equals } ≡ q
    as_equal f = ground arith

    as_prefix :
        str_eq op (codes "eq") ≡ false
        → record p { starts_with = insert name value p.starts_with } ≡ q
    as_prefix f = ground arith
merge_condition-IsSound p q (length_range lo hi) (equal, prefixed, bounds) e =
    subst IsSound stored (equal, prefixed, (ground arith, ground arith))
  where
    stored : record p { content_length = some (lo, hi) } ≡ q
    stored = ground arith
merge_condition-IsSound p q malformed h e = absurd (ground arith)

merge_conditions-IsSound :
    (cs : List Condition) (p q : PostPolicy)
    → IsSound p
    → merge_conditions p cs ≡ some q
    → IsSound q
unfolding merge_conditions
merge_conditions-IsSound [] p q h e = subst IsSound (ground arith) h
merge_conditions-IsSound (c ∷ cs) p q h e = elim (Option-cases (merge_condition p c)) [
  | inl f ↦ absurd (ground arith)
  | inr (mid, f) ↦
      merge_conditions-IsSound cs mid q (merge_condition-IsSound p mid c h f) (ground arith)
]

empty-IsSound : IsSound empty_policy
unfolding IsSound AreBounds IsMap
empty-IsSound = (tt, tt, tt)

-- The policy of a document has one entry for each name, and the bounds it sets on the file's size are
-- not negative and in order; and the document had not expired.
pub parse_post_policy-IsSound :
    (expiration : Option ℕ) (conditions : List Condition) (now : ℕ) (policy : PostPolicy)
    → parse_post_policy expiration conditions now ≡ some policy
    → IsSound policy × ((e : ℕ) → expiration ≡ some e → now ≤ e)
unfolding parse_post_policy
parse_post_policy-IsSound none conditions now policy h =
    (merge_conditions-IsSound conditions empty_policy policy empty-IsSound h, λ e f. cc)
parse_post_policy-IsSound (some x) conditions now policy h = (
  merge_conditions-IsSound conditions empty_policy policy empty-IsSound (ground arith),
  (λ e f. ground arith),
)

-- Of two prefix conditions in a row on one field, only the later one is kept: for every field the
-- policy has the prefix it would have without the earlier one, and the same exact conditions.
pub merge_conditions-overwritten :
    (p : PostPolicy) (field first second name : Str)
    → (with_first : PostPolicy) × (without : PostPolicy) × (merge_conditions p (
          operator (codes "starts-with") field first
          ∷ operator (codes "starts-with") field second
          ∷ [])
        ≡ some with_first)
      × (merge_conditions p (operator (codes "starts-with") field second ∷ []) ≡ some without)
      × (lookup name with_first.starts_with ≡ lookup name without.starts_with)
      × (with_first.equals ≡ without.equals)
unfolding merge_conditions merge_condition str_eq
merge_conditions-overwritten p field first second name = (
  record p { starts_with = insert n second (insert n first p.starts_with) },
  record p { starts_with = insert n second p.starts_with },
  refl,
  refl,
  ground (
    arith,
    lookup-insert n name second (insert n first p.starts_with),
    lookup-insert n name second p.starts_with,
    lookup-insert n name first p.starts_with,
  ),
  refl,
)
  where
    n : Str
    n = normalize_field (strip_dollar field)
