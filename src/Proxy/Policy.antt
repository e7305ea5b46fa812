-- ===== src/Proxy/Policy.antt =====
-- internal/s3proxy/postpolicy.go: the conditions of a POST Object policy and the check of a form
-- against them. encoding/json is not modelled: a condition comes as the value it decodes to. Errors
-- of a malformed condition carry no text.
pub mod Enforced
pub mod Merged
mod Examples
use stowage.Base.{
  Fallible, Fallible-cases, ok, err, ◌>>=◌, ◌>>◌, guard, or_fail, ℕ, zero, suc, ◌+◌, ◌-◌, ◌*◌, ◌/◌,
  ◌%◌, ◌^◌, ◌≤◌, ◌<◌, ◌≡◌, refl, sym, ap, subst, ◌∙◌, ◌≢◌, ◌↔◌, ◌⊎◌, inl, inr, Bool, true, false,
  not, ◌&&◌, ◌||◌, Option, none, some, List, [], ◌∷◌, ◌++◌, map, arith, ltb, leb, ◌==◌,
  if◌then◌else◌, ltb→lt, lt→ltb, leb→le, ==_iff, Bool-cases, Option-cases, length, take, drop,
  length-append, take-append-drop, take-length, drop-length, length-take, length-drop, all, any,
  keep, All, Str, codes, str_eq, str_eq_self, str_eq_sound, str_eq_iff, cut-append, cut_sound,
  has_prefix, trim_byte, cut, lower_byte, to_lower, equal_fold, is_space, trim_left, trim_right,
  trim_space, is_newline,
}
use stowage.Base.Dict.{
  Dict, lookup, insert, delete, has, map_values, lookup-insert, lookup-delete, dict_laws,
  lookup-map_values-some, lookup-map_values-none,
}
use stowage.Base.Int64.{modulus, sign_bit, add64, lt64, lt64-small, add64-small}

-- What a JSON condition decodes to: an object of texts, the array of an operator with two texts or
-- with two int64 numbers (none is negative where the bounds are valid), or anything else.
pub data Condition : Type 0 where
  object : Dict Str → Condition
  operator : Str → Str → Str → Condition
  length_range : ℕ → ℕ → Condition
  malformed : Condition

pub record PostPolicy : Type 0 where
  pub equals : Dict Str
  pub starts_with : Dict Str
  -- ContentLengthMin and ContentLengthMax, none for -1
  pub content_length : Option (ℕ × ℕ)

abbrev pub empty_policy : PostPolicy
empty_policy = record { equals = []; starts_with = []; content_length = none }

-- `HasContentLengthRange`
abbrev pub has_content_length_range : PostPolicy → Bool
has_content_length_range p = elim p.content_length [ none ↦ false | some r ↦ true ]

abbrev pub strip_dollar : Str → Str
strip_dollar s = trim_byte b'$' s

abbrev pub normalize_field : Str → Str
normalize_field = to_lower

-- `mergeCondition`, none where it returns an error; the bounds are bit patterns
unfoldable pub merge_condition : PostPolicy → Condition → Option PostPolicy
merge_condition policy (object ((k, v) ∷ [])) =
    some (record policy { equals = insert (normalize_field k) v policy.equals })
merge_condition policy (object m) = none
merge_condition policy (operator op field value) =
    let name = normalize_field (strip_dollar field) in
    if str_eq op (codes "eq")
    then some (record policy { equals = insert name value policy.equals })
    else if str_eq op (codes "starts-with")
    then some (record policy { starts_with = insert name value policy.starts_with })
    else none
merge_condition policy (length_range lo hi) =
    if lt64 lo 0 || lt64 hi lo
    then none
    else some (record policy { content_length = some (lo, hi) })
merge_condition policy malformed = none

-- the loop over `doc.Conditions`
unfoldable pub merge_conditions : PostPolicy → List Condition → Option PostPolicy
unfolding merge_condition
merge_conditions policy [] = some policy
merge_conditions policy (c ∷ cs) = elim (merge_condition policy c) [
  | none ↦ none
  | some policy' ↦ merge_conditions policy' cs
]

-- the end of `ParsePostPolicy`, on a document whose expiration has been parsed
unfoldable pub parse_post_policy : Option ℕ → List Condition → ℕ → Option PostPolicy
unfolding merge_conditions
parse_post_policy none conditions now = merge_conditions empty_policy conditions
parse_post_policy (some expiration) conditions now =
    if ltb expiration now then none else merge_conditions empty_policy conditions

abbrev pub signing_form_fields : List Str
signing_form_fields =
    codes "policy"
    ∷ codes "x-amz-signature"
    ∷ codes "x-amz-algorithm"
    ∷ codes "x-amz-credential"
    ∷ codes "x-amz-date"
    ∷ codes "x-amz-security-token"
    ∷ codes "file"
    ∷ codes "awsaccesskeyid"
    ∷ codes "signature"
    ∷ []

unfoldable pub is_signing_field : Str → Bool
is_signing_field name = any (str_eq name) signing_form_fields

pub data Reason : Type 0 where
  no_condition missing wrong_value missing_prefix wrong_prefix : Reason

pub record PolicyViolation : Type 0 where
  pub field : Str
  pub reason : Reason

-- The three loops of `EnforcePolicy`, each with its first violation.
unfoldable pub unmatched : PostPolicy → Dict Str → Option PolicyViolation
unmatched policy [] = none
unmatched policy ((name, value) ∷ fields) =
    let rest = unmatched policy fields in
    if is_signing_field name || has name policy.equals || has name policy.starts_with
    then rest
    else some (record { field = name; reason = no_condition })

unfoldable pub unequal : Dict Str → Dict Str → Option PolicyViolation
unequal fields [] = none
unequal fields ((name, want) ∷ equals) =
    let rest = unequal fields equals in
    elim (lookup name fields) [
      | none ↦ some (record { field = name; reason = missing })
      | some got ↦
          if str_eq got want then rest else some (record { field = name; reason = wrong_value })
    ]

unfoldable pub unprefixed : Dict Str → Dict Str → Option PolicyViolation
unprefixed fields [] = none
unprefixed fields ((name, prefix) ∷ starts) =
    let rest = unprefixed fields starts in
    elim (lookup name fields) [
      | none ↦ some (record { field = name; reason = missing_prefix })
      | some got ↦
          if has_prefix got prefix
          then rest
          else some (record { field = name; reason = wrong_prefix })
    ]

-- `EnforcePolicy`: the first violation, none where the form satisfies the policy
unfoldable pub enforce_policy : PostPolicy → Dict Str → Option PolicyViolation
enforce_policy policy fields = elim (unmatched policy fields) [
  | some v ↦ some v
  | none ↦ elim (unequal fields policy.equals) [
    | some v ↦ some v
    | none ↦ unprefixed fields policy.starts_with
  ]
]
