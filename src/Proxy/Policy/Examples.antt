-- ===== src/Proxy/Policy/Examples.antt =====
-- A policy merged, and forms checked against it.
use stowage.Base.{
  ◌≡◌, refl, ◌↔◌, none, some, List, [], ◌∷◌, Str, codes, str_eq, has_prefix, trim_byte, lower_byte,
}
use stowage.Base.Dict.{Dict, lookup, insert}
use stowage.Base.Int64.{lt64}
use stowage.Proxy.Policy.{
  PostPolicy, Condition, object, operator, length_range, merge_conditions, parse_post_policy,
  enforce_policy, unmatched, unequal, unprefixed, is_signing_field,
}
use stowage.Proxy.Policy.Enforced.{IsMap, Satisfies, enforce_policy_iff}
use stowage.Proxy.Policy.Merged.{merge_conditions-overwritten}

abbrev conditions : List Condition
conditions =
    object ((codes "Bucket", codes "pics") ∷ [])
    ∷ operator (codes "starts-with") (codes "$key") (codes "u/")
    ∷ length_range 0 1024
    ∷ []

abbrev policy : PostPolicy
policy = record {
  equals = (codes "bucket", codes "pics") ∷ [];
  starts_with = (codes "key", codes "u/") ∷ [];
  content_length = some (0, 1024);
}

parsed : parse_post_policy (some 100) conditions 50 ≡ some policy
unfolding parse_post_policy str_eq lt64 insert lower_byte trim_byte
parsed = refl

abbrev form : Dict Str
form =
    (codes "key", codes "u/cat.png")
    ∷ (codes "bucket", codes "pics")
    ∷ (codes "policy", codes "e30=")
    ∷ []

accepted : enforce_policy policy form ≡ none
unfolding enforce_policy unmatched unequal unprefixed is_signing_field lookup str_eq has_prefix
accepted = refl

form-IsMap : IsMap form
unfolding IsMap lookup str_eq
form-IsMap = (refl, (refl, (refl, tt)))

equals-IsMap : IsMap policy.equals
unfolding IsMap lookup
equals-IsMap = (refl, tt)

starts-IsMap : IsMap policy.starts_with
unfolding IsMap lookup
starts-IsMap = (refl, tt)

enforce_policy_iff_example : (enforce_policy policy form ≡ none) ↔ Satisfies policy form
enforce_policy_iff_example = enforce_policy_iff policy form form-IsMap equals-IsMap starts-IsMap

merge_conditions-overwritten_example :
    (with_first : PostPolicy) × (without : PostPolicy) × (merge_conditions policy (
        operator (codes "starts-with") (codes "$key") (codes "u/")
        ∷ operator (codes "starts-with") (codes "$key") []
        ∷ [])
      ≡ some with_first)
    × (merge_conditions policy (operator (codes "starts-with") (codes "$key") [] ∷ [])
        ≡ some without)
    × (lookup (codes "key") with_first.starts_with ≡ lookup (codes "key") without.starts_with)
    × (with_first.equals ≡ without.equals)
merge_conditions-overwritten_example =
    merge_conditions-overwritten policy (codes "$key") (codes "u/") [] (codes "key")
