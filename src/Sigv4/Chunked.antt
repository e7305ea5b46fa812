-- ===== src/Sigv4/Chunked.antt =====
-- internal/sigv4verifier/chunked.go: the reader that decodes signed aws-chunked bodies. A body is
-- the bytes that are left, with io.EOF at their end. The hash functions, crypto/sha256 and
-- crypto/hmac, are a parameter. `Signed` is about one chunk, `Fuel` about the loop of Read, and
-- `Whole` about a body read to its end.
pub mod Signed
pub mod Fuel
pub mod Whole
mod Examples
use stowage.Base.{
  Fallible, ok, err, ◌>>=◌, ◌>>◌, guard, or_fail, ℕ, zero, suc, ◌+◌, ◌-◌, ◌*◌, ◌/◌, ◌%◌, ◌^◌, ◌≤◌,
  ◌<◌, ◌≡◌, refl, sym, ap, subst, ◌∙◌, ◌≢◌, ◌↔◌, ◌⊎◌, inl, inr, Bool, true, false, not, ◌&&◌, ◌||◌,
  Option, none, some, List, [], ◌∷◌, ◌++◌, map, arith, ltb, leb, ◌==◌, if◌then◌else◌, ltb→lt,
  lt→ltb, leb→le, ==_iff, Bool-cases, Option-cases, length, take, drop, length-append,
  take-append-drop, take-length, drop-length, length-take, length-drop, all, any, keep, All, Str,
  codes, str_eq, str_eq_self, str_eq_sound, str_eq_iff, cut-append, has_prefix, trim_byte, cut,
  lower_byte, to_lower, equal_fold, is_space, trim_left, trim_right, trim_space, is_newline,
}
use stowage.Base.Dict.{
  Dict, lookup, insert, delete, has, map_values, lookup-insert, lookup-delete, dict_laws,
  lookup-map_values-some, lookup-map_values-none,
}
use stowage.Base.Int64.{modulus, sign_bit, add64, lt64, lt64-small, add64-small}

pub record Crypto : Type 0 where
  pub sha256 : Str → Str
  pub hmac_sha256 : Str → Str → Str

pub data Failure : Type 0 where
  read_header read_data read_terminator read_trailer : Failure
  missing_extension bad_size bad_extension bad_signature : Failure
  too_large missing_crlf signature_mismatch : Failure

abbrev pub Result {ℓ} : Type ℓ → Type ℓ
Result A = Fallible Failure A

abbrev pub max_chunk_size : ℕ
max_chunk_size = 67108864

abbrev pub hex_digit : ℕ → Option ℕ
hex_digit c =
    if leb b'0' c && leb c b'9'
    then some (c - b'0')
    else if leb b'a' c && leb c b'f'
    then some (c - b'a' + 10)
    else if leb b'A' c && leb c b'F'
    then some (c - b'A' + 10)
    else none

unfoldable pub hex_digits : ℕ → Str → Option ℕ
hex_digits n [] = some n
hex_digits n (c ∷ s) = elim (hex_digit c) [ none ↦ none | some d ↦ hex_digits (n * 16 + d) s ]

-- digits, at least one, below 2 ^ 63
unfoldable pub unsigned_hex : Str → Option ℕ
unfolding hex_digits
unsigned_hex [] = none
unsigned_hex (c ∷ s) = elim (hex_digits 0 (c ∷ s)) [
  | none ↦ none
  | some n ↦ if ltb n sign_bit then some n else none
]

-- strconv.ParseInt(s, 16, 64) where a negative result is an error too: of the numbers with a
-- minus sign only zero is left.
unfoldable pub parse_size : Str → Option ℕ
unfolding unsigned_hex
parse_size [] = none
parse_size (c ∷ s) =
    let negative : Option ℕ = elim (unsigned_hex s) [
      | none ↦ none
      | some n ↦ if n == 0 then some 0 else none
    ] in
    if c == b'+' then unsigned_hex s else if c == b'-' then negative else unsigned_hex (c ∷ s)

-- hex.DecodeString succeeds: digits only, an even number of them
pub is_hex : Str → Bool
is_hex [] = true
is_hex (c ∷ []) = false
is_hex (c ∷ d ∷ s) = elim (hex_digit c) [
  | none ↦ false
  | some _ ↦ elim (hex_digit d) [ none ↦ false | some _ ↦ is_hex s ]
]

abbrev pub signature_prefix : Str
signature_prefix = codes "chunk-signature="

pub parse_chunk_header : Str → Result (ℕ × Str)
unfolding parse_size is_hex
parse_chunk_header line = do
  (size_hex, rest) ← or_fail (cut b';' line) missing_extension
  size ← or_fail (parse_size (trim_space size_hex)) bad_size
  let ext = trim_space rest
  guard (has_prefix ext signature_prefix) bad_extension
  let signature = to_lower (trim_space (drop (length signature_prefix) ext))
  guard (is_hex signature) bad_signature
  ok (size, signature)

-- br.ReadString('\n') without the line break; the end of the body before one is an error.
unfoldable pub read_line : Str → Option (Str × Str)
read_line input = cut b'\n' input

-- io.ReadFull
unfoldable pub read_full : ℕ → Str → Option (Str × Str)
read_full n input = if leb n (length input) then some (take n input, drop n input) else none

unfoldable pub read_crlf : Str → Result Str
read_crlf input = do
  (crlf, rest) ← or_fail (read_full 2 input) read_terminator
  guard (str_eq crlf (13 ∷ 10 ∷ [])) missing_crlf
  ok rest

pub record Stream : Type 0 where
  pub signing_key : Str
  pub region : Str
  pub service : Str
  pub short_date : Str
  pub amz_date : Str

abbrev hex_lower : ℕ → ℕ
hex_lower n = if ltb n 10 then b'0' + n else b'a' + n - 10

-- hex.EncodeToString
unfoldable pub hex_encode : Str → Str
hex_encode [] = []
hex_encode (c ∷ s) = hex_lower (c / 16) ∷ hex_lower (c % 16) ∷ hex_encode s

abbrev pub empty_sha256 : Str
empty_sha256 = codes "e3b0c44298fc1c149afbf4c8996fb92427ae41e4649b934ca495991b7852b855"

abbrev pub newline : Str
newline = b'\n' ∷ []

module _ (crypto : Crypto) (stream : Stream) where
  -- the signature that `verify` expects for a chunk after one signed `prev_sig`
  pub chunk_signature : Str → Str → Str
  unfolding hex_encode
  chunk_signature prev_sig chunk =
      let scope =
        stream.short_date
        ++ b'/' ∷ stream.region
        ++ b'/' ∷ stream.service
        ++ codes "/aws4_request" in
      let string_to_sign =
        codes "AWS4-HMAC-SHA256-PAYLOAD"
        ++ newline
        ++ stream.amz_date
        ++ newline
        ++ scope
        ++ newline
        ++ prev_sig
        ++ newline
        ++ empty_sha256
        ++ newline
        ++ hex_encode (crypto.sha256 chunk) in
      hex_encode (crypto.hmac_sha256 stream.signing_key string_to_sign)

  pub verify : Str → Str → Str → Result (Unit {0})
  verify prev_sig chunk presented =
      guard (str_eq (chunk_signature prev_sig chunk) presented) signature_mismatch

pub record Reader : Type 0 where
  pub input : Str
  pub prev_sig : Str
  pub pending : Str
  pub done : Bool
  pub failed : Option Failure

module _ (crypto : Crypto) (stream : Stream) where
  pub read_next_chunk : Reader → Result Reader
  unfolding read_line read_full read_crlf verify
  read_next_chunk c = do
    (header, rest) ← or_fail (read_line c.input) read_header
    (size, sig) ← parse_chunk_header (trim_right is_newline header)
    guard (leb size max_chunk_size) too_large
    (chunk, rest') ← or_fail (read_full size rest) read_data
    rest'' ← read_crlf rest'
    verify crypto stream c.prev_sig chunk sig
    ok (record c {
      input = rest'';
      prev_sig = sig;
      pending = chunk;
      done = (if size == 0 then true else c.done);
    })

abbrev pub null : Str → Bool
null [] = true
null (c ∷ s) = false

-- The loop of Read, which both readers have: `for len(c.pending) == 0 && !c.done`. One round ends
-- it, since a chunk leaves bytes pending or is the last; the fuel is two tests.
unfoldable pub fill : ℕ → (Reader → Result Reader) → Reader → Result Reader
fill zero next c = ok c
fill (suc fuel) next c =
    let round = next c >>= fill fuel next in if null c.pending && not c.done then round else ok c

pub data Outcome : Type 0 where
  bytes : Str → Outcome
  eof : Outcome
  failure : Failure → Outcome

unfoldable pub give : ℕ → Reader → Reader × Outcome
give n c =
    if c.done && null c.pending
    then (c, eof)
    else (record c { pending = drop n c.pending }, bytes (take n c.pending))

-- Read into a buffer of n bytes; an error is remembered and returned again.
unfoldable pub read : (Reader → Result Reader) → ℕ → Reader → Reader × Outcome
unfolding fill give
read next n c = elim c.failed [
  | some e ↦ (c, failure e)
  | none ↦ elim (fill 2 next c) [
    | err e ↦ (record c { failed = some e }, failure e)
    | ok c' ↦ give n c'
  ]
]
