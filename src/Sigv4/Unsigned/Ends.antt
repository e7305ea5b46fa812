-- ===== src/Sigv4/Unsigned/Ends.antt =====
-- The loops of the unsigned reader in internal/sigv4verifier/chunked.go end.
use stowage.Base.{
  ℕ, zero, suc, ◌<◌, ◌≡◌, ap, inl, inr, some, ◌∷◌, arith, Option-cases, length, length-append, Str,
  cut_sound, cut,
}
use stowage.Sigv4.Chunked.{read_line}
use stowage.Sigv4.Unsigned.{drain}

cut-shorter : (b : ℕ) (s l r : Str) → cut b s ≡ some (l, r) → length r < length s
cut-shorter b s l r h = omega (arith, ap length (cut_sound b s l r h).0, length-append l (b ∷ r))

drains_same :
    (f g : ℕ) (input : Str) → length input < f → length input < g → drain f input ≡ drain g input
unfolding drain
drains_same zero g input h k = absurd (omega (arith, h))
drains_same (suc f) zero input h k = absurd (omega (arith, k))
drains_same (suc f) (suc g) input h k = elim (Option-cases (read_line input)) [
  | inl e ↦ ground (arith, e)
  | inr ((line, rest), e) ↦ ground (
    arith,
    e,
    drains_same f g rest (omega (arith, shorter line rest e)) (omega (arith, shorter line rest e)),
  )
]
  where
    shorter : (line rest : Str) → read_line input ≡ some (line, rest) → length rest < length input
    shorter line rest e = unfold read_line in cut-shorter b'\n' input line rest e

-- Any fuel above the number of bytes left drains as far.
pub drain-enough :
    (fuel : ℕ) (input : Str)
    → length input < fuel
    → drain fuel input ≡ drain (suc (length input)) input
drain-enough fuel input h = drains_same fuel (suc (length input)) input h (omega arith)
