-- ===== src/Sigv4/Chunked/Whole.antt =====
-- A signed aws-chunked body read to its end (internal/sigv4verifier/chunked.go, Read in a loop).
use stowage.Base.{
  Fallible-cases, ok, err, ℕ, zero, suc, ◌+◌, ◌<◌, ◌≡◌, refl, sym, ap, ◌∙◌, inl, inr, true, false,
  Option, none, some, List, [], ◌∷◌, ◌++◌, arith, length, take, drop, take-append-drop, length-drop,
  Str,
}
use mathlib.Core.List.{flatten, append_assoc}
use stowage.Sigv4.Chunked.{
  Crypto, Stream, Failure, Result, Reader, read_next_chunk, read, bytes, eof, failure,
}
use stowage.Sigv4.Chunked.Signed.{Frame, after, read_next_chunk-Frame, read_next_chunk_sound}

abbrev prepend : Str → Option (Result Str) → Option (Result Str)
prepend b none = none
prepend b (some (ok s)) = some (ok (b ++ s))
prepend b (some (err e)) = some (err e)

-- Reads into a buffer of n bytes until the end or an error; `none` means that the fuel ran out.
unfoldable pub read_all : ℕ → (Reader → Result Reader) → ℕ → Reader → Option (Result Str)
read_all zero next n c = none
read_all (suc fuel) next n c =
    let (c', outcome) = read next n c in
    elim outcome [
      | eof ↦ some (ok [])
      | failure e ↦ some (err e)
      | bytes b ↦ prepend b (read_all fuel next n c')
    ]

-- A reader in the middle of a body.
abbrev pub reader : Str → Str → Str → Reader
reader input prev_sig pending = record {
  input = input;
  prev_sig = prev_sig;
  pending = pending;
  done = false;
  failed = none;
}

module _ (crypto : Crypto) (stream : Stream) where
  -- After the signature `prev_sig`, the input is a chain of signed chunks with this data, up to the
  -- empty chunk that ends it.
  pub data Chain : Str → Str → List Str → Type 0 where
    last :
        {prev_sig input sig rest : Str}
        → Frame crypto stream prev_sig input [] sig rest
        → Chain prev_sig input []
    more :
        {prev_sig input sig rest : Str} {b : ℕ} {bs : Str} {chunks : List Str}
        → Frame crypto stream prev_sig input (b ∷ bs) sig rest
        → Chain sig rest chunks
        → Chain prev_sig input ((b ∷ bs) ∷ chunks)

module _ (next : Reader → Result Reader) (n : ℕ) (input prev_sig : Str) where
  read-pending :
      (x : ℕ) (p : Str)
      → read next n (reader input prev_sig (x ∷ p))
        ≡ (reader input prev_sig (drop n (x ∷ p)), bytes (take n (x ∷ p)))
  unfolding read
  read-pending x p = ground arith

  read-chunk :
      (b : ℕ) (bs sig rest : Str)
      → next (reader input prev_sig []) ≡ ok (reader rest sig (b ∷ bs))
      → read next n (reader input prev_sig [])
        ≡ (reader rest sig (drop n (b ∷ bs)), bytes (take n (b ∷ bs)))
  unfolding read
  read-chunk b bs sig rest h = ground arith

  read-last :
      (sig rest : Str)
      → next (reader input prev_sig []) ≡ ok (record (reader rest sig []) { done = true })
      → (read next n (reader input prev_sig [])).1 ≡ eof
  unfolding read
  read-last sig rest h = ground arith

  read-err :
      (e : Failure)
      → next (reader input prev_sig []) ≡ err e
      → (read next n (reader input prev_sig [])).1 ≡ failure e
  unfolding read
  read-err e h = ground arith

unfoldable pub total : List Str → ℕ
total [] = 0
total (c ∷ cs) = length c + total cs

regroup : (n : ℕ) (l r : Str) → take n l ++ (drop n l ++ r) ≡ l ++ r
regroup n l r = sym (append_assoc (take n l) (drop n l) r) ∙ ap (λ s. s ++ r) (take-append-drop n l)

module _ (crypto : Crypto) (stream : Stream) (n : ℕ) where
  abbrev next : Reader → Result Reader
  next = read_next_chunk crypto stream

  read_all-pending :
      (fuel : ℕ) (input prev_sig : Str) (x : ℕ) (p : Str)
      → read_all (suc fuel) next n (reader input prev_sig (x ∷ p))
        ≡ prepend (take n (x ∷ p)) (read_all fuel next n (reader input prev_sig (drop n (x ∷ p))))
  unfolding read_all
  read_all-pending fuel input prev_sig x p = ground (arith, read-pending next n input prev_sig x p)

  read_all-more :
      (fuel : ℕ) (input prev_sig : Str) (b : ℕ) (bs sig rest : Str)
      → next (reader input prev_sig []) ≡ ok (reader rest sig (b ∷ bs))
      → read_all (suc fuel) next n (reader input prev_sig [])
        ≡ prepend (take n (b ∷ bs)) (read_all fuel next n (reader rest sig (drop n (b ∷ bs))))
  unfolding read_all
  read_all-more fuel input prev_sig b bs sig rest h =
      ground (arith, read-chunk next n input prev_sig b bs sig rest h)

  read_all-last :
      (fuel : ℕ) (input prev_sig sig rest : Str)
      → next (reader input prev_sig []) ≡ ok (record (reader rest sig []) { done = true })
      → read_all (suc fuel) next n (reader input prev_sig []) ≡ some (ok [])
  unfolding read_all
  read_all-last fuel input prev_sig sig rest h =
      ground (arith, read-last next n input prev_sig sig rest h)

  read_all-err :
      (fuel : ℕ) (input prev_sig : Str) (e : Failure)
      → next (reader input prev_sig []) ≡ err e
      → read_all (suc fuel) next n (reader input prev_sig []) ≡ some (err e)
  unfolding read_all
  read_all-err fuel input prev_sig e h = ground (arith, read-err next n input prev_sig e h)

  read_all-Chain :
      (fuel : ℕ) (p : Str) {prev_sig input : Str} {chunks : List Str}
      → Chain crypto stream prev_sig input chunks
      → 0 < n
      → length p + total chunks < fuel
      → read_all fuel next n (reader input prev_sig p) ≡ some (ok (p ++ flatten chunks))
  unfolding total flatten
  read_all-Chain zero p ch pos h = absurd (omega arith)
  read_all-Chain (suc fuel) (x ∷ p) {prev_sig} {input} {chunks} ch pos h =
      rw (read_all-pending fuel input prev_sig x p) (
        rw (read_all-Chain fuel (drop n (x ∷ p)) ch pos (omega (arith, length-drop n (x ∷ p))))
          (ap (λ s. some (ok s)) (regroup n (x ∷ p) (flatten chunks))))
  read_all-Chain (suc fuel) [] (last {prev_sig} {input} {sig} {rest} f) pos h =
      read_all-last fuel input prev_sig sig rest
        (read_next_chunk-Frame crypto stream (reader input prev_sig []) [] sig rest f)
  read_all-Chain (suc fuel) [] (more {prev_sig} {input} {sig} {rest} {b} {bs} {chunks} f ch) pos h =
      rw
        (read_all-more fuel input prev_sig b bs sig rest (
          ground (
            arith,
            read_next_chunk-Frame crypto stream (reader input prev_sig []) (b ∷ bs) sig rest f,
          )))
        (rw (read_all-Chain fuel (drop n (b ∷ bs)) ch pos (omega (arith, length-drop n (b ∷ bs))))
          (ap (λ s. some (ok s)) (regroup n (b ∷ bs) (flatten chunks))))

  read_all-cases :
      (fuel : ℕ) (b : Str) (c : Reader) (out : Str)
      → prepend b (read_all fuel next n c) ≡ some (ok out)
      → (s : Str) × (read_all fuel next n c ≡ some (ok s)) × (out ≡ b ++ s)
  read_all-cases fuel b c out h = go (read_all fuel next n c) h
    where
      go :
          (o : Option (Result Str))
          → prepend b o ≡ some (ok out)
          → (s : Str) × (o ≡ some (ok s)) × (out ≡ b ++ s)
      go none e = cc
      go (some (ok s)) e = (s, refl, cc)
      go (some (err x)) e = cc

  read_all_sound :
      (fuel : ℕ) (input prev_sig p out : Str)
      → read_all fuel next n (reader input prev_sig p) ≡ some (ok out)
      → (chunks : List Str) × Chain crypto stream prev_sig input chunks
        × (out ≡ p ++ flatten chunks)
  unfolding flatten
  read_all_sound zero input prev_sig p out h = unfold read_all in cc
  read_all_sound (suc fuel) input prev_sig (x ∷ p) out h =
      let (s, h', e) =
        read_all-cases fuel (take n (x ∷ p)) (reader input prev_sig (drop n (x ∷ p))) out
          (sym (read_all-pending fuel input prev_sig x p) ∙ h) in
      let (chunks, ch, e') = read_all_sound fuel input prev_sig (drop n (x ∷ p)) s h' in
      (chunks, ch, e ∙ ap (λ t. take n (x ∷ p) ++ t) e' ∙ regroup n (x ∷ p) (flatten chunks))
  read_all_sound (suc fuel) input prev_sig [] out h =
      elim (Fallible-cases (next (reader input prev_sig []))) [
        | inr (e, failed) ↦ absurd (ground (arith, read_all-err fuel input prev_sig e failed))
        | inl (c', read_ok) ↦
            let (chunk, sig, rest, frame, is) =
              read_next_chunk_sound crypto stream (reader input prev_sig []) c' read_ok in
            split (read_all_sound fuel) chunk sig rest frame (read_ok ∙ ap ok is)
      ]
    where
      Goal : Type 0
      Goal =
          (chunks : List Str) × Chain crypto stream prev_sig input chunks × (out ≡ flatten chunks)

      Sound : Type 0
      Sound =
          (input prev_sig p out : Str)
          → read_all fuel next n (reader input prev_sig p) ≡ some (ok out)
          → (chunks : List Str) × Chain crypto stream prev_sig input chunks
            × (out ≡ p ++ flatten chunks)

      split :
          Sound
          → (chunk sig rest : Str) → Frame crypto stream prev_sig input chunk sig rest
          → next (reader input prev_sig [])
            ≡ ok (after crypto stream (reader input prev_sig []) chunk sig rest)
          → Goal
      split again [] sig rest frame e =
          ([], last frame, ground (arith, read_all-last fuel input prev_sig sig rest e))
      split again (b ∷ bs) sig rest frame e =
          let (s, h', e') =
            read_all-cases fuel (take n (b ∷ bs)) (reader rest sig (drop n (b ∷ bs))) out
              (sym (read_all-more fuel input prev_sig b bs sig rest (ground (arith, e))) ∙ h) in
          let (chunks, ch, e'') = again rest sig (drop n (b ∷ bs)) s h' in
          (
            (b ∷ bs) ∷ chunks,
            more frame ch,
            e' ∙ ap (λ t. take n (b ∷ bs) ++ t) e'' ∙ regroup n (b ∷ bs) (flatten chunks),
          )

module _ (crypto : Crypto) (stream : Stream) (n : ℕ) (seed input : Str) where
  -- A body that is a chain of chunks, each signed after the one before it and the first after the
  -- request's signature, is decoded to the data of its chunks, whatever the size n > 0 of the
  -- buffer, by at most one read more than it has bytes of data.
  pub decode_complete :
      (chunks : List Str) (fuel : ℕ)
      → Chain crypto stream seed input chunks
      → 0 < n
      → total chunks < fuel
      → read_all fuel (read_next_chunk crypto stream) n (reader input seed [])
        ≡ some (ok (flatten chunks))
  decode_complete chunks fuel ch pos h = read_all-Chain crypto stream n fuel [] ch pos (omega arith)

  -- A body that is read to its end without an error is a chain of chunks, each signed after the one
  -- before it and the first after the request's signature, and what was read is the data of its
  -- chunks.
  pub decode_sound :
      (fuel : ℕ) (out : Str)
      → read_all fuel (read_next_chunk crypto stream) n (reader input seed []) ≡ some (ok out)
      → (chunks : List Str) × Chain crypto stream seed input chunks × (out ≡ flatten chunks)
  decode_sound fuel out h = read_all_sound crypto stream n fuel input seed [] out h
