-- ===== src/Base/Text.antt =====
-- Go strings as lists of bytes, and what the program uses of package strings. Letters outside
-- ASCII have no case here and are no white space.
use Prim.Native.Nat.{ℕ, ◌+◌}
use Prim.Native.Char.{code}
use Prim.Native.String.{String}
use mathlib.Core.Path.{◌≡◌, refl}
use mathlib.Core.Logic.{◌↔◌}
use mathlib.Core.Bool.{Bool, true, false, ◌&&◌, ◌||◌}
use mathlib.Core.List.{List, [], ◌∷◌, ◌++◌, map}
use mathlib.Core.Option.{Option, none, some}
use native.Mathlib.Omega.{arith}
use stowage.Base.Tests.{leb, ◌==◌, if◌then◌else◌}

abbrev pub Str : Type 0
Str = List ℕ

abbrev pub codes : String → Str
codes String.[] = []
codes (String.◌∷◌ c s) = code c ∷ codes s

unfoldable pub str_eq : Str → Str → Bool
str_eq [] [] = true
str_eq (x ∷ xs) (y ∷ ys) = x == y && str_eq xs ys
str_eq _ _ = false

pub str_eq_self : (s : Str) → str_eq s s ≡ true
unfolding str_eq
str_eq_self [] = refl
str_eq_self (x ∷ xs) = ground (arith, str_eq_self xs)

pub str_eq_sound : (s t : Str) → str_eq s t ≡ true → s ≡ t
unfolding str_eq
str_eq_sound [] [] h = refl
str_eq_sound [] (y ∷ ys) h = cc
str_eq_sound (x ∷ xs) [] h = cc
str_eq_sound (x ∷ xs) (y ∷ ys) h = ground (arith, str_eq_sound xs ys)

pub str_eq_iff : (s t : Str) → (str_eq s t ≡ true) ↔ (s ≡ t)
str_eq_iff s t = (str_eq_sound s t, λ e. rw e (str_eq_self t))

-- strings.HasPrefix
unfoldable pub has_prefix : Str → Str → Bool
has_prefix s [] = true
has_prefix [] (p ∷ ps) = false
has_prefix (c ∷ s) (p ∷ ps) = c == p && has_prefix s ps

-- strings.TrimPrefix for one byte
unfoldable pub trim_byte : ℕ → Str → Str
trim_byte b [] = []
trim_byte b (c ∷ s) = if c == b then s else c ∷ s

-- strings.IndexByte, with the parts before and after the byte
unfoldable pub cut : ℕ → Str → Option (Str × Str)
cut b [] = none
cut b (c ∷ s) =
    let rest : Option (Str × Str) = elim (cut b s) [
      | none ↦ none
      | some (l, r) ↦ some (c ∷ l, r)
    ] in
    if c == b then some ([], s) else rest

pub cut-append : (b : ℕ) (l r : Str) → cut b l ≡ none → cut b (l ++ b ∷ r) ≡ some (l, r)
unfolding cut
cut-append b [] r h = ground arith
cut-append b (c ∷ l) r h = ground (arith, cut-append b l r)

pub cut_sound : (b : ℕ) (s l r : Str) → cut b s ≡ some (l, r) → (s ≡ l ++ b ∷ r) × (cut b l ≡ none)
unfolding cut
cut_sound b [] l r h = cc
cut_sound b (c ∷ s) [] r h = (ground arith, refl)
cut_sound b (c ∷ s) (d ∷ l) r h =
    (ground (arith, cut_sound b s l r), ground (arith, cut_sound b s l r))

-- strings.ToLower on a byte and on a text
unfoldable pub lower_byte : ℕ → ℕ
lower_byte c = if leb b'A' c && leb c b'Z' then c + 32 else c

abbrev pub to_lower : Str → Str
to_lower = map lower_byte

-- strings.EqualFold on texts of ASCII; beyond it letters are not folded
abbrev pub equal_fold : Str → Str → Bool
equal_fold s t = str_eq (to_lower s) (to_lower t)

abbrev pub is_space : ℕ → Bool
is_space c = c == b' ' || leb 9 c && leb c 13

unfoldable pub trim_left : (ℕ → Bool) → Str → Str
trim_left p [] = []
trim_left p (c ∷ s) = let rest = trim_left p s in if p c then rest else c ∷ s

unfoldable pub trim_right : (ℕ → Bool) → Str → Str
trim_right p [] = []
trim_right p (c ∷ s) = elim (trim_right p s) [ [] ↦ if p c then [] else c ∷ [] | d ∷ r ↦ c ∷ d ∷ r ]

-- strings.TrimSpace
abbrev pub trim_space : Str → Str
trim_space s = trim_right is_space (trim_left is_space s)

abbrev pub is_newline : ℕ → Bool
is_newline c = c == 13 || c == 10
