-- ===== src/Sigv4/Canonical.antt =====
-- internal/sigv4verifier/canonical.go: the canonical request. http.Header is a dictionary under
-- lower-case names and url.Values one under decoded keys. `Encoding` is about percent encoding,
-- `Query` about the canonical query string, and `Collapse` about header values.
pub mod Encoding
pub mod Query
pub mod Collapse
mod Examples
use stowage.Base.{
  ℕ, zero, suc, ◌+◌, ◌-◌, ◌*◌, ◌/◌, ◌%◌, ◌^◌, ◌≤◌, ◌<◌, ◌≡◌, refl, sym, ap, subst, ◌∙◌, ◌≢◌, ◌↔◌,
  ◌⊎◌, inl, inr, Bool, true, false, not, ◌&&◌, ◌||◌, Option, none, some, List, [], ◌∷◌, ◌++◌, map,
  arith, ltb, leb, ◌==◌, if◌then◌else◌, ltb→lt, lt→ltb, leb→le, ==_iff, Bool-cases, Option-cases,
  length, take, drop, length-append, take-append-drop, take-length, drop-length, length-take,
  length-drop, all, any, keep, All, Str, codes, str_eq, str_eq_self, str_eq_sound, str_eq_iff,
  cut-append, has_prefix, trim_byte, cut, lower_byte, to_lower, equal_fold, is_space, trim_left,
  trim_right, trim_space, is_newline,
}
use stowage.Base.Dict.{
  Dict, lookup, insert, delete, has, map_values, lookup-insert, lookup-delete, dict_laws,
  lookup-map_values-some, lookup-map_values-none,
}
use stowage.Base.Int64.{modulus, sign_bit, add64, lt64, lt64-small, add64-small}

abbrev pub Headers : Type 0
Headers = Dict (List Str)

abbrev pub Values : Type 0
Values = Dict (List Str)

unfoldable pub hex_upper : ℕ → ℕ
hex_upper n = if ltb n 10 then b'0' + n else b'A' + n - 10

-- the first two cases of the switch in `awsURLEncode`
unfoldable pub is_unreserved : ℕ → Bool
is_unreserved c =
    leb b'A' c && leb c b'Z'
    || leb b'a' c && leb c b'z'
    || leb b'0' c && leb c b'9'
    || c == b'-'
    || c == b'_'
    || c == b'.'
    || c == b'~'

unfoldable pub encode_byte : Bool → ℕ → Str
unfolding hex_upper
encode_byte encode_slash c =
    if is_unreserved c
    then c ∷ []
    else if c == b'/' && not encode_slash
    then c ∷ []
    else b'%' ∷ hex_upper (c / 16) ∷ hex_upper (c % 16) ∷ []

unfoldable pub aws_url_encode : Str → Bool → Str
unfolding encode_byte
aws_url_encode [] encode_slash = []
aws_url_encode (c ∷ s) encode_slash = encode_byte encode_slash c ++ aws_url_encode s encode_slash

-- the loop of `trimAndCollapse`, with `prevSpace` and `inQuotes`
unfoldable pub collapse : Bool → Bool → Str → Str
collapse prev_space in_quotes [] = []
collapse prev_space in_quotes (c ∷ s) =
    let quote = b'"' ∷ collapse false (not in_quotes) s in
    let skip = collapse true in_quotes s in
    let space = b' ' ∷ collapse true in_quotes s in
    let other = c ∷ collapse false in_quotes s in
    if c == b'"'
    then quote
    else if not in_quotes && (c == b' ' || c == b'\t')
    then (if prev_space then skip else space)
    else other

unfoldable pub trim_and_collapse : Str → Str
unfolding collapse
trim_and_collapse s = collapse false false (trim_space s)

unfoldable pub canonical_uri : Str → Str
canonical_uri [] = b'/' ∷ []
canonical_uri (c ∷ path) = if c == b'/' then c ∷ path else b'/' ∷ c ∷ path

-- strings.Join
unfoldable pub join : Str → List Str → Str
join sep [] = []
join sep (x ∷ []) = x
join sep (x ∷ y ∷ r) = x ++ sep ++ join sep (y ∷ r)

-- bytewise order, and sort.Strings
unfoldable pub str_leb : Str → Str → Bool
str_leb [] t = true
str_leb (x ∷ s) [] = false
str_leb (x ∷ s) (y ∷ t) = ltb x y || (x == y && str_leb s t)

unfoldable pub insert_sorted : Str → List Str → List Str
insert_sorted x [] = x ∷ []
insert_sorted x (y ∷ ys) =
    let rest = insert_sorted x ys in if str_leb x y then x ∷ y ∷ ys else y ∷ rest

unfoldable pub sort_strings : List Str → List Str
unfolding insert_sorted str_leb
sort_strings [] = []
sort_strings (x ∷ xs) = insert_sorted x (sort_strings xs)

abbrev pub keys {ℓ} : {V : Type ℓ} → Dict V → List Str
keys [] = []
keys ((k, v) ∷ m) = k ∷ keys m

abbrev pub values_of : Values → Str → List Str
values_of q k = elim (lookup k q) [ none ↦ [] | some vs ↦ vs ]

unfoldable pub query_pairs : Str → List Str → List Str
query_pairs k [] = []
query_pairs k (v ∷ vs) = (aws_url_encode k true ++ b'=' ∷ aws_url_encode v true) ∷ query_pairs k vs

unfoldable pub query_params : Values → List Str → List Str
unfolding query_pairs
query_params q [] = []
query_params q (k ∷ ks) = query_pairs k (sort_strings (values_of q k)) ++ query_params q ks

unfoldable pub canonical_query : Values → Str
unfolding query_params
canonical_query q = join (b'&' ∷ []) (query_params q (sort_strings (keys q)))

unfoldable pub canonical_header_value : Headers → Str → Str
unfolding trim_and_collapse
canonical_header_value headers name = elim (values_of headers (to_lower name)) [
  | [] ↦ []
  | v ∷ vs ↦ trim_and_collapse (join (b',' ∷ []) (v ∷ vs))
]

unfoldable pub canonical_headers : Headers → List Str → Str
unfolding canonical_header_value
canonical_headers headers [] = []
canonical_headers headers (h ∷ hs) =
    h ++ b':' ∷ canonical_header_value headers h ++ b'\n' ∷ canonical_headers headers hs

-- strings.ToUpper
unfoldable pub upper_byte : ℕ → ℕ
upper_byte c = if leb b'a' c && leb c b'z' then c - 32 else c

unfoldable pub canonical_request : Str → Str → Values → Headers → List Str → Str → Str
unfolding canonical_uri canonical_query canonical_headers upper_byte
canonical_request method escaped_path query headers signed_headers payload_hash =
    join (b'\n' ∷ []) (
      map upper_byte method
      ∷ canonical_uri escaped_path
      ∷ canonical_query query
      ∷ canonical_headers headers signed_headers
      ∷ join (b';' ∷ []) signed_headers
      ∷ payload_hash
      ∷ [])

-- strings.Split at one byte: never empty
unfoldable pub split : ℕ → Str → List Str
split b [] = [] ∷ []
split b (c ∷ s) = elim (split b s) [
  | [] ↦ (c ∷ []) ∷ []
  | p ∷ ps ↦ if c == b then [] ∷ p ∷ ps else (c ∷ p) ∷ ps
]

unfoldable pub extract_signed_headers : Str → List Str
extract_signed_headers raw =
    sort_strings
      (keep (λ p. not (str_eq p [])) (map (λ p. trim_space (to_lower p)) (split b';' raw)))
