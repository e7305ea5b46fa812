-- ===== src/Sigv4/Chunked/Signed.antt =====
-- One chunk of the signed reader (internal/sigv4verifier/chunked.go, readNextChunk), against the
-- wire format `header LF data CR LF`.
use stowage.Base.{
  Fallible-cases, ok, ℕ, ◌≤◌, ◌≡◌, inl, inr, true, none, some, [], ◌∷◌, ◌++◌, arith, ◌==◌,
  if◌then◌else◌, Option-cases, length, length-append, take-append-drop, take-length, drop-length,
  length-take, Str, str_eq, str_eq_iff, cut-append, cut_sound, cut, trim_right, is_newline,
}
use stowage.Sigv4.Chunked.{
  Crypto, Stream, max_chunk_size, parse_chunk_header, read_line, read_full, read_crlf,
  chunk_signature, verify, Reader, read_next_chunk,
}

module _ (crypto : Crypto) (stream : Stream) where
  -- A chunk at the head of a body: its header gives its length and its signature, which is the one
  -- computed from its bytes and from the signature before it.
  pub record Frame (prev_sig input chunk sig rest : Str) : Type 0 where
    pub header : Str
    pub framed : input ≡ header ++ 10 ∷ (chunk ++ 13 ∷ 10 ∷ rest)
    pub one_line : cut 10 header ≡ none
    pub parsed : parse_chunk_header (trim_right is_newline header) ≡ ok (length chunk, sig)
    pub small : length chunk ≤ max_chunk_size
    pub signed : chunk_signature crypto stream prev_sig chunk ≡ sig

read_full-append : (s r : Str) → read_full (length s) (s ++ r) ≡ some (s, r)
unfolding read_full
read_full-append s r = ground (arith, length-append s r, take-length s r, drop-length s r)

read_full_sound :
    (n : ℕ) (s t r : Str) → read_full n s ≡ some (t, r) → (s ≡ t ++ r) × (length t ≡ n)
unfolding read_full
read_full_sound n s t r h = (ground (arith, take-append-drop n s), ground (arith, length-take n s))

crlf_ok : (r : Str) → read_crlf (13 ∷ 10 ∷ r) ≡ ok r
unfolding read_crlf read_full str_eq
crlf_ok r = ground arith

crlf_sound : (s r : Str) → read_crlf s ≡ ok r → s ≡ 13 ∷ 10 ∷ r
unfolding read_crlf read_full str_eq
crlf_sound [] r h = cc
crlf_sound (a ∷ []) r h = cc
crlf_sound (a ∷ b ∷ s) r h = ground arith

module _ (crypto : Crypto) (stream : Stream) where
  abbrev pub after : Reader → Str → Str → Str → Reader
  after c chunk sig rest = record c {
    input = rest;
    prev_sig = sig;
    pending = chunk;
    done = (if length chunk == 0 then true else c.done);
  }

  -- A framed chunk is read: its bytes become pending, and an empty chunk ends the body.
  pub read_next_chunk-Frame :
      (c : Reader) (chunk sig rest : Str)
      → Frame crypto stream c.prev_sig c.input chunk sig rest
      → read_next_chunk crypto stream c ≡ ok (after c chunk sig rest)
  unfolding read_next_chunk read_line verify
  read_next_chunk-Frame c chunk sig rest f = ground (
    arith,
    line,
    f.parsed,
    read_full-append chunk (13 ∷ 10 ∷ rest),
    crlf_ok rest,
    str_eq_iff (chunk_signature crypto stream c.prev_sig chunk) sig,
  )
    where
      line : cut 10 c.input ≡ some (f.header, chunk ++ 13 ∷ 10 ∷ rest)
      line = rw f.framed (cut-append 10 f.header (chunk ++ 13 ∷ 10 ∷ rest) f.one_line)

  -- And nothing else is: what the reader takes for a chunk is framed, and its signature was checked.
  pub read_next_chunk_sound :
      (c c' : Reader)
      → read_next_chunk crypto stream c ≡ ok c'
      → (chunk sig rest : Str) × Frame crypto stream c.prev_sig c.input chunk sig rest
        × (c' ≡ after c chunk sig rest)
  unfolding read_next_chunk read_line verify
  read_next_chunk_sound c c' h = elim (Option-cases (cut 10 c.input)) [
    | inl e ↦ absurd (ground arith)
    | inr ((header, rest), line) ↦
        elim (Fallible-cases (parse_chunk_header (trim_right is_newline header))) [
          | inr (e, failed) ↦ absurd (ground arith)
          | inl ((size, sig), parsed) ↦ elim (Option-cases (read_full size rest)) [
            | inl e ↦ absurd (ground arith)
            | inr ((chunk, rest'), body) ↦ elim (Fallible-cases (read_crlf rest')) [
              | inr (e, failed) ↦ absurd (ground arith)
              | inl (rest'', crlf) ↦
                  let whole = read_full_sound size rest chunk rest' body in
                  (
                    chunk,
                    sig,
                    rest'',
                    record {
                      header = header;
                      framed = ground (
                        arith,
                        cut_sound 10 c.input header rest line,
                        whole,
                        crlf_sound rest' rest'' crlf,
                      );
                      one_line = (cut_sound 10 c.input header rest line).1;
                      parsed = rw whole.1 parsed;
                      small = ground arith;
                      signed =
                          ground (
                            arith,
                            str_eq_iff (chunk_signature crypto stream c.prev_sig chunk) sig,
                          );
                    },
                    ground arith,
                  )
            ]
          ]
        ]
  ]
