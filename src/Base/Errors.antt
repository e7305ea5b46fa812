-- ===== src/Base/Errors.antt =====
-- The (value, error) results of Go, as a value or an error of a component's own type.
use mathlib.Core.Path.{◌≡◌, refl}
use mathlib.Core.Logic.{◌⊎◌, inl, inr}
use mathlib.Core.Bool.{Bool, true, false}
use mathlib.Core.Option.{Option, none, some}

pub data Fallible {ε ℓ} (E : Type ε) (A : Type ℓ) : Type (ε ⊔ ℓ) where
  err : E → Fallible E A
  ok : A → Fallible E A

pub Fallible-cases {ε ℓ} :
    {E : Type ε} {A : Type ℓ} (r : Fallible E A) → ((a : A) × (r ≡ ok a)) ⊎ ((e : E) × (r ≡ err e))
Fallible-cases (err e) = inr (e, refl)
Fallible-cases (ok a) = inl (a, refl)

module _ {ε} {E : Type ε} where
  infixl 5 ◌>>=◌ ◌>>◌
  -- The steps of a `do` block stop at the first error.
  abbrev pub ◌>>=◌ {ℓ κ} :
      {A : Type ℓ} {B : Type κ} → Fallible E A → (A → Fallible E B) → Fallible E B
  err reason >>= step = err reason
  ok value >>= step = step value

  abbrev pub ◌>>◌ {ℓ} : {B : Type ℓ} → Fallible E (Unit {0}) → Fallible E B → Fallible E B
  first >> second = first >>= λ _. second

  -- if !test { return err }
  abbrev pub guard : Bool → E → Fallible E (Unit {0})
  guard test reason = elim test [ false ↦ err reason | true ↦ ok tt ]

  abbrev pub or_fail {ℓ} : {A : Type ℓ} → Option A → E → Fallible E A
  or_fail (some value) reason = ok value
  or_fail none reason = err reason
