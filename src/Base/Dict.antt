-- ===== src/Base/Dict.antt =====
-- A Go map with string keys, as an association list. Its laws are in `if` form.
use mathlib.Core.Path.{◌≡◌, refl}
use mathlib.Core.Bool.{Bool, true, false}
use mathlib.Core.List.{List, [], ◌∷◌}
use mathlib.Core.Option.{Option, none, some}
use native.Mathlib.Omega.{arith}
use stowage.Base.Tests.{if◌then◌else◌}
use stowage.Base.Text.{Str, str_eq, str_eq_iff}

abbrev pub Dict {ℓ} : Type ℓ → Type ℓ
Dict V = List (Str × V)

module _ {ℓ} {V : Type ℓ} where
  -- m[k]
  unfoldable pub lookup : Str → Dict V → Option V
  lookup k [] = none
  lookup k ((j, v) ∷ m) = if str_eq j k then some v else lookup k m

  -- m[k] = v
  unfoldable pub insert : Str → V → Dict V → Dict V
  insert k v [] = (k, v) ∷ []
  insert k v ((j, w) ∷ m) = if str_eq j k then (k, v) ∷ m else (j, w) ∷ insert k v m

  -- delete(m, k)
  unfoldable pub delete : Str → Dict V → Dict V
  delete k [] = []
  delete k ((j, v) ∷ m) = let rest = delete k m in if str_eq j k then rest else (j, v) ∷ rest

  pub lookup-insert :
      (k j : Str) (v : V) (m : Dict V)
      → lookup j (insert k v m) ≡ (if str_eq k j then some v else lookup j m)
  unfolding lookup insert
  lookup-insert k j v [] = refl
  lookup-insert k j v ((i, w) ∷ m) =
      ground (arith, str_eq_iff k j, str_eq_iff i k, str_eq_iff i j, lookup-insert k j v m)

  pub lookup-delete :
      (k j : Str) (m : Dict V) → lookup j (delete k m) ≡ (if str_eq k j then none else lookup j m)
  unfolding lookup delete
  lookup-delete k j [] = ground arith
  lookup-delete k j ((i, w) ∷ m) =
      ground (arith, str_eq_iff k j, str_eq_iff i k, str_eq_iff i j, lookup-delete k j m)

abbrev pub has {ℓ} : {V : Type ℓ} → Str → Dict V → Bool
has k m = elim (lookup k m) [ none ↦ false | some _ ↦ true ]

-- m with every value mapped, the keys kept
unfoldable pub map_values {ℓ κ} : {V : Type ℓ} {W : Type κ} → (V → W) → Dict V → Dict W
map_values f [] = []
map_values f ((k, v) ∷ m) = (k, f v) ∷ map_values f m

module _ {ℓ κ} {V : Type ℓ} {W : Type κ} (f : V → W) where
  pub lookup-map_values-some :
      (k : Str) (m : Dict V) (v : V) → lookup k m ≡ some v → lookup k (map_values f m) ≡ some (f v)
  unfolding lookup map_values
  lookup-map_values-some k [] v h = cc
  lookup-map_values-some k ((j, w) ∷ m) v h = ground (arith, lookup-map_values-some k m v)

  pub lookup-map_values-none :
      (k : Str) (m : Dict V) → lookup k m ≡ none → lookup k (map_values f m) ≡ none
  unfolding lookup map_values
  lookup-map_values-none k [] h = refl
  lookup-map_values-none k ((j, w) ∷ m) h = ground (arith, lookup-map_values-none k m)

pub ruleset dict_laws = (lookup-insert, lookup-delete)
