-- ===== src/Sigv4/Unsigned.antt =====
-- internal/sigv4verifier/chunked.go: the reader of bodies whose chunks are not signed
-- (NewUnsignedChunkedReader). It shares the loop of Read with the signed reader; prev_sig is not used.
pub mod Ends
mod Tests
use stowage.Base.{
  Fallible, Fallible-cases, ok, err, ◌>>=◌, ◌>>◌, guard, or_fail, ℕ, zero, suc, ◌+◌, ◌-◌, ◌*◌, ◌/◌,
  ◌%◌, ◌^◌, ◌≤◌, ◌<◌, ◌≡◌, refl, sym, ap, subst, ◌∙◌, ◌≢◌, ◌↔◌, ◌⊎◌, inl, inr, Bool, true, false,
  not, ◌&&◌, ◌||◌, Option, none, some, List, [], ◌∷◌, ◌++◌, map, arith, ltb, leb, ◌==◌,
  if◌then◌else◌, ltb→lt, lt→ltb, leb→le, ==_iff, Bool-cases, Option-cases, length, take, drop,
  length-append, take-append-drop, take-length, drop-length, length-take, length-drop, all, any,
  keep, All, Str, codes, str_eq, str_eq_self, str_eq_sound, str_eq_iff, cut-append, cut_sound,
  has_prefix, trim_byte, cut, lower_byte, to_lower, equal_fold, is_space, trim_left, trim_right,
  trim_space, is_newline,
}
use stowage.Base.Dict.{
  Dict, lookup, insert, delete, has, map_values, lookup-insert, lookup-delete, dict_laws,
  lookup-map_values-some, lookup-map_values-none,
}
use stowage.Base.Int64.{modulus, sign_bit, add64, lt64, lt64-small, add64-small}
use stowage.Sigv4.Chunked.{
  Result, Failure, read_header, read_data, bad_size, too_large, Reader, null, max_chunk_size,
  parse_size, read_line, read_full, read_crlf, read, fill,
}

-- The lines after the last chunk, up to the blank one; a body that ends before it is tolerated. Each
-- line takes a byte at least, so a fuel of one more than the bytes left is enough.
unfoldable pub drain : ℕ → Str → Str
drain zero input = input
drain (suc fuel) input = elim (read_line input) [
  | none ↦ []
  | some (line, rest) ↦
      let more = drain fuel rest in if null (trim_right is_newline line) then rest else more
]

-- A header without its chunk extensions.
abbrev pub without_extension : Str → Str
without_extension header = elim (cut b';' header) [ none ↦ header | some (size, ext) ↦ size ]

-- The part of `readNextChunk` after the size.
unfoldable pub read_sized : ℕ → Str → Reader → Result Reader
read_sized size rest c =
    let chunk : Result Reader = do
      guard (leb size max_chunk_size) too_large
      (chunk, rest') ← or_fail (read_full size rest) read_data
      rest'' ← read_crlf rest'
      ok (record c { input = rest''; pending = chunk })
    in if size == 0
      then ok (record c { input = drain (suc (length rest)) rest; done = true })
      else chunk

unfoldable pub read_next_unsigned : Reader → Result Reader
unfolding read_sized
read_next_unsigned c = do
  (header, rest) ← or_fail (read_line c.input) read_header
  size ←
      or_fail (parse_size (trim_space (without_extension (trim_right is_newline header)))) bad_size
  read_sized size rest c
