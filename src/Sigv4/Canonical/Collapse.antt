-- ===== src/Sigv4/Canonical/Collapse.antt =====
-- White space in header values (trimAndCollapse of internal/sigv4verifier/canonical.go).
use stowage.Base.{
  ℕ, ◌≡◌, refl, ◌≢◌, inl, inr, Bool, true, false, not, [], ◌∷◌, arith, if◌then◌else◌, Bool-cases,
  Str, is_space, trim_left, trim_right, trim_space,
}
use stowage.Sigv4.Canonical.{collapse, trim_and_collapse}

collapse_idem : (p q : Bool) (s : Str) → collapse p q (collapse p q s) ≡ collapse p q s
unfolding collapse
collapse_idem p q [] = refl
collapse_idem p q (c ∷ s) =
    ground (arith, collapse_idem false (not q) s, collapse_idem true q s, collapse_idem false q s)

-- No white space at either end.
abbrev IsTrimmedLeft : Str → Type 0
IsTrimmedLeft s = trim_left is_space s ≡ s

abbrev IsTrimmedRight : Str → Type 0
IsTrimmedRight s = trim_right is_space s ≡ s

IsTrimmedRight-trim_right : (s : Str) → IsTrimmedRight (trim_right is_space s)
unfolding trim_right
IsTrimmedRight-trim_right [] = refl
IsTrimmedRight-trim_right (c ∷ s) = ground (arith, IsTrimmedRight-trim_right s)

collapse-ne-nil :
    (p q : Bool) (c : ℕ) (s : Str) → IsTrimmedRight (c ∷ s) → collapse p q (c ∷ s) ≢ []
unfolding collapse trim_right
collapse-ne-nil p q c [] h = ground arith
collapse-ne-nil p q c (d ∷ s) h = ground (arith, collapse-ne-nil true q d s)

IsTrimmedRight-tail : (c : ℕ) (s : Str) → IsTrimmedRight (c ∷ s) → IsTrimmedRight s
unfolding trim_right
IsTrimmedRight-tail c [] h = refl
IsTrimmedRight-tail c (d ∷ s) h = ground arith

IsTrimmedRight-cons : (c : ℕ) (s : Str) → IsTrimmedRight s → s ≢ [] → IsTrimmedRight (c ∷ s)
unfolding trim_right
IsTrimmedRight-cons c [] h n = absurd (n refl)
IsTrimmedRight-cons c (d ∷ s) h n = ground arith

collapse-IsTrimmedRight_one :
    (p q : Bool) (c : ℕ) → IsTrimmedRight (c ∷ []) → IsTrimmedRight (collapse p q (c ∷ []))
unfolding collapse trim_right
collapse-IsTrimmedRight_one p q c h = ground arith

collapse-IsTrimmedRight :
    (p q : Bool) (s : Str) → IsTrimmedRight s → IsTrimmedRight (collapse p q s)
unfolding collapse
collapse-IsTrimmedRight p q [] h = h
collapse-IsTrimmedRight p q (c ∷ []) h = collapse-IsTrimmedRight_one p q c h
collapse-IsTrimmedRight p q (c ∷ d ∷ s) h =
    let tail = IsTrimmedRight-tail c (d ∷ s) h in
    ground (
      arith,
      collapse-IsTrimmedRight false (not q) (d ∷ s) tail,
      collapse-IsTrimmedRight true q (d ∷ s) tail,
      collapse-IsTrimmedRight false q (d ∷ s) tail,
      collapse-ne-nil false (not q) d s tail,
      collapse-ne-nil true q d s tail,
      collapse-ne-nil false q d s tail,
      IsTrimmedRight-cons b'"' (collapse false (not q) (d ∷ s)),
      IsTrimmedRight-cons b' ' (collapse true q (d ∷ s)),
      IsTrimmedRight-cons c (collapse false q (d ∷ s)),
    )

-- A text that is empty or begins with no white space.
abbrev StartsSolid : Str → Type 0
StartsSolid [] = Unit {0}
StartsSolid (c ∷ s) = is_space c ≡ false

trim_left-StartsSolid : (s : Str) → StartsSolid (trim_left is_space s)
unfolding trim_left
trim_left-StartsSolid [] = tt
trim_left-StartsSolid (c ∷ s) = elim (Bool-cases (is_space c)) [
  | inl e ↦ rw e (trim_left-StartsSolid s)
  | inr e ↦ rw e e
]

trim_right-StartsSolid : (s : Str) → StartsSolid s → StartsSolid (trim_right is_space s)
unfolding trim_right
trim_right-StartsSolid [] h = tt
trim_right-StartsSolid (c ∷ s) h = go (trim_right is_space s)
  where
    go :
        (r : Str)
        → StartsSolid
            (elim r as (λ _. Str) [ [] ↦ if is_space c then [] else c ∷ [] | d ∷ t ↦ c ∷ d ∷ t ])
    go [] = rw h h
    go (d ∷ t) = h

collapse-IsTrimmedLeft : (s : Str) → StartsSolid s → IsTrimmedLeft (collapse false false s)
unfolding collapse trim_left
collapse-IsTrimmedLeft [] h = refl
collapse-IsTrimmedLeft (c ∷ s) h = ground arith

-- Collapsing a header value a second time changes nothing: a client that has already done it signs
-- the same canonical header.
pub trim_and_collapse_idem :
    (s : Str) → trim_and_collapse (trim_and_collapse s) ≡ trim_and_collapse s
unfolding trim_and_collapse
trim_and_collapse_idem s =
    let solid = trim_right-StartsSolid (trim_left is_space s) (trim_left-StartsSolid s) in
    let trimmed = IsTrimmedRight-trim_right (trim_left is_space s) in
    rw (collapse-IsTrimmedLeft (trim_space s) solid) (
      rw (collapse-IsTrimmedRight false false (trim_space s) trimmed)
        (collapse_idem false false (trim_space s)))
