-- ===== src/Sigv4/Chunked/Fuel.antt =====
-- The loop of Read in internal/sigv4verifier/chunked.go ends after one round, so that the fuel of its
-- model is enough.
use stowage.Base.{
  Fallible-cases, ok, err, ℕ, suc, ◌≡◌, refl, sym, subst, ◌∙◌, inl, inr, true, false, not, ◌&&◌, [],
  ◌∷◌, Bool-cases, Str,
}
use stowage.Sigv4.Chunked.{Failure, Crypto, Stream, Reader, null, read_next_chunk, fill}
use stowage.Sigv4.Chunked.Signed.{after, read_next_chunk_sound}

module _ (crypto : Crypto) (stream : Stream) where
  chunk_ends :
      (c : Reader) (chunk sig rest : Str)
      → (null (after crypto stream c chunk sig rest).pending
          && not (after crypto stream c chunk sig rest).done)
        ≡ false
  chunk_ends c [] sig rest = refl
  chunk_ends c (b ∷ chunk) sig rest = refl

  -- After a chunk there are bytes to give, or the body has ended.
  round_ends :
      (c c' : Reader)
      → read_next_chunk crypto stream c ≡ ok c'
      → (null c'.pending && not c'.done) ≡ false
  round_ends c c' h =
      let (chunk, sig, rest, frame, e) = read_next_chunk_sound crypto stream c c' h in
      subst (λ x. (null x.pending && not x.done) ≡ false) (sym e) (chunk_ends c chunk sig rest)

  fill-ended :
      (k : ℕ) (c : Reader)
      → (null c.pending && not c.done) ≡ false
      → fill (suc k) (read_next_chunk crypto stream) c ≡ ok c
  unfolding fill
  fill-ended k c h = rw h refl

  fill-round :
      (k : ℕ) (c c' : Reader)
      → (null c.pending && not c.done) ≡ true
      → read_next_chunk crypto stream c ≡ ok c'
      → fill (suc (suc k)) (read_next_chunk crypto stream) c ≡ ok c'
  unfolding fill
  fill-round k c c' e g = rw e (rw g (rw (round_ends c c' g) refl))

  fill-failed :
      (k : ℕ) (c : Reader) (f : Failure)
      → (null c.pending && not c.done) ≡ true
      → read_next_chunk crypto stream c ≡ err f
      → fill (suc k) (read_next_chunk crypto stream) c ≡ err f
  unfolding fill
  fill-failed k c f e g = rw e (rw g refl)

  -- However many more rounds the loop were given, it would do no more.
  pub fill-enough :
      (k : ℕ) (c : Reader)
      → fill (suc (suc k)) (read_next_chunk crypto stream) c
        ≡ fill 2 (read_next_chunk crypto stream) c
  fill-enough k c = elim (Bool-cases (null c.pending && not c.done)) [
    | inr e ↦ fill-ended (suc k) c e ∙ sym (fill-ended 1 c e)
    | inl e ↦ elim (Fallible-cases (read_next_chunk crypto stream c)) [
      | inr (f, g) ↦ fill-failed (suc k) c f e g ∙ sym (fill-failed 1 c f e g)
      | inl (c', g) ↦ fill-round k c c' e g ∙ sym (fill-round 0 c c' e g)
    ]
  ]
