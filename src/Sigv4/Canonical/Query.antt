-- ===== src/Sigv4/Canonical/Query.antt =====
-- The canonical query string (canonicalQuery of internal/sigv4verifier/canonical.go) does not
-- depend on the order in which Go walks the map.
use stowage.Base.{◌≡◌, refl, ◌∙◌, true, false, List, [], ◌∷◌, arith, Str}
use stowage.Base.Dict.{lookup}
use mathlib.Core.List.{Permᴰ}
use stowage.Sigv4.Canonical.{
  Values, str_leb, insert_sorted, sort_strings, keys, query_params, canonical_query,
}

str_leb_total : (s t : Str) → str_leb s t ≡ false → str_leb t s ≡ true
unfolding str_leb
str_leb_total [] t h = cc
str_leb_total (x ∷ s) [] h = refl
str_leb_total (x ∷ s) (y ∷ t) h = ground (arith, str_leb_total s t)

str_leb_antisymm : (s t : Str) → str_leb s t ≡ true → str_leb t s ≡ true → s ≡ t
unfolding str_leb
str_leb_antisymm [] [] h k = refl
str_leb_antisymm [] (y ∷ t) h k = cc
str_leb_antisymm (x ∷ s) [] h k = cc
str_leb_antisymm (x ∷ s) (y ∷ t) h k = ground (arith, str_leb_antisymm s t)

str_leb_trans : (s t u : Str) → str_leb s t ≡ true → str_leb t u ≡ true → str_leb s u ≡ true
unfolding str_leb
str_leb_trans [] t u h k = refl
str_leb_trans (x ∷ s) [] u h k = cc
str_leb_trans (x ∷ s) (y ∷ t) [] h k = cc
str_leb_trans (x ∷ s) (y ∷ t) (z ∷ u) h k = ground (arith, str_leb_trans s t u)

insert_sorted_comm :
    (x y : Str) (l : List Str)
    → insert_sorted x (insert_sorted y l) ≡ insert_sorted y (insert_sorted x l)
unfolding insert_sorted
insert_sorted_comm x y [] = ground (arith, str_leb_total x y, str_leb_antisymm x y)
insert_sorted_comm x y (z ∷ l) = ground (
  arith,
  insert_sorted_comm x y l,
  str_leb_total x y,
  str_leb_antisymm x y,
  str_leb_trans x y z,
  str_leb_trans y x z,
  str_leb_total x z,
  str_leb_total y z,
)

sort_strings-perm : {l m : List Str} → Permᴰ l m → sort_strings l ≡ sort_strings m
unfolding sort_strings
sort_strings-perm Permᴰ.nil = refl
sort_strings-perm (Permᴰ.cons {a = a} e p) = rw (← e, sort_strings-perm p) refl
sort_strings-perm (Permᴰ.swap {a = a} {b = b} {l = l} e f) =
    rw (← e, ← f) (insert_sorted_comm a b (sort_strings l))
sort_strings-perm (Permᴰ.trans p q) = sort_strings-perm p ∙ sort_strings-perm q

query_params-eq :
    (q r : Values) (ks : List Str)
    → ((k : Str) → lookup k q ≡ lookup k r)
    → query_params q ks ≡ query_params r ks
unfolding query_params
query_params-eq q r [] h = refl
query_params-eq q r (k ∷ ks) h = ground (arith, h k, query_params-eq q r ks h)

-- Two walks of one map, the same keys in any order with the same values under each key, give the
-- same canonical query.
pub canonical_query_order :
    (q r : Values)
    → Permᴰ (keys q) (keys r)
    → ((k : Str) → lookup k q ≡ lookup k r)
    → canonical_query q ≡ canonical_query r
unfolding canonical_query
canonical_query_order q r p h =
    rw (sort_strings-perm p, query_params-eq q r (sort_strings (keys r)) h) refl
