-- ===== src/Sigv4/Canonical/Examples.antt =====
-- The theorems about canonical requests at concrete inputs.
use stowage.Base.{
  ◌≡◌, refl, true, some, [], ◌∷◌, ◌++◌, arith, Str, codes, str_eq, str_eq_iff, trim_left,
  trim_right,
}
use stowage.Base.Dict.{lookup}
use mathlib.Core.List.{Permᴰ}
use stowage.Sigv4.Canonical.{
  Values, aws_url_encode, is_unreserved, canonical_query, join, sort_strings, trim_and_collapse,
}
use stowage.Sigv4.Canonical.Encoding.{plain, percent_decode, decode-aws_url_encode}
use stowage.Sigv4.Canonical.Query.{canonical_query_order}

encode_test : aws_url_encode (codes "a/b c+é") true ≡ codes "a%2Fb%20c%2B" ++ b'%' ∷ codes "E9"
unfolding aws_url_encode is_unreserved
encode_test = refl

decode-aws_url_encode_example :
    percent_decode plain (aws_url_encode (codes "a/b c") true) ≡ some (codes "a/b c")
decode-aws_url_encode_example = decode-aws_url_encode (codes "a/b c") true (omega arith)

abbrev walk : Values
walk = (codes "uploads", [] ∷ []) ∷ (codes "marker", codes "b" ∷ codes "a" ∷ []) ∷ []

abbrev other_walk : Values
other_walk = (codes "marker", codes "b" ∷ codes "a" ∷ []) ∷ (codes "uploads", [] ∷ []) ∷ []

same_keys : (k : Str) → lookup k walk ≡ lookup k other_walk
unfolding lookup
same_keys k = ground (arith, str_eq_iff (codes "uploads") k, str_eq_iff (codes "marker") k)

walk_test : canonical_query walk ≡ codes "marker=a&marker=b&uploads="
unfolding canonical_query lookup str_eq aws_url_encode is_unreserved join sort_strings
walk_test = refl

canonical_query_order_example : canonical_query walk ≡ canonical_query other_walk
canonical_query_order_example =
    canonical_query_order walk other_walk (Permᴰ.swap refl refl) same_keys

collapse_test : trim_and_collapse (codes "  a   b ") ≡ codes "a b"
unfolding trim_and_collapse trim_left trim_right
collapse_test = refl
