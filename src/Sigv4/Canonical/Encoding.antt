-- ===== src/Sigv4/Canonical/Encoding.antt =====
-- Percent encoding (awsURLEncode of internal/sigv4verifier/canonical.go): it loses nothing, and its
-- output has no byte that separates the parts of a query string.
use stowage.Base.{
  ℕ, ◌+◌, ◌-◌, ◌*◌, ◌/◌, ◌%◌, ◌<◌, ◌≡◌, refl, inl, inr, Bool, true, false, not, ◌&&◌, ◌||◌, Option,
  none, some, [], ◌∷◌, ◌++◌, arith, leb, ◌==◌, if◌then◌else◌, Bool-cases, All, Str,
}
use stowage.Sigv4.Canonical.{hex_upper, is_unreserved, encode_byte, aws_url_encode}

-- A decoder of RFC 3986 percent encoding: between bytes, after a `%`, after its first digit.
pub data Mode : Type 0 where
  plain : Mode
  percent : Mode
  digit : ℕ → Mode

unfoldable pub hex_value : ℕ → Option ℕ
hex_value c =
    if leb b'0' c && leb c b'9'
    then some (c - b'0')
    else if leb b'A' c && leb c b'F'
    then some (c - b'A' + 10)
    else none

unfoldable pub percent_decode : Mode → Str → Option Str
unfolding hex_value
percent_decode plain [] = some []
percent_decode percent [] = none
percent_decode (digit h) [] = none
percent_decode plain (c ∷ s) =
    let rest : Option Str = elim (percent_decode plain s) [ none ↦ none | some t ↦ some (c ∷ t) ] in
    let escape = percent_decode percent s in if c == b'%' then escape else rest
percent_decode percent (c ∷ s) = elim (hex_value c) [
  | none ↦ none
  | some h ↦ percent_decode (digit h) s
]
percent_decode (digit h) (c ∷ s) = elim (hex_value c) [
  | none ↦ none
  | some l ↦ elim (percent_decode plain s) [ none ↦ none | some t ↦ some ((h * 16 + l) ∷ t) ]
]

hex_value-hex_upper : (n : ℕ) → n < 16 → hex_value (hex_upper n) ≡ some n
unfolding hex_value hex_upper
hex_value-hex_upper n h = ground arith

abbrev IsByte : ℕ → Type 0
IsByte c = c < 256

unreserved-not-percent : (c : ℕ) → is_unreserved c ≡ true → (c == b'%') ≡ false
unfolding is_unreserved
unreserved-not-percent c h = ground arith

abbrev after : ℕ → Option Str → Option Str
after c none = none
after c (some t) = some (c ∷ t)

decode-encode_byte :
    (e : Bool) (c : ℕ) (t : Str)
    → IsByte c
    → percent_decode plain (encode_byte e c ++ t) ≡ after c (percent_decode plain t)
unfolding percent_decode encode_byte
decode-encode_byte e c t h = elim (Bool-cases (is_unreserved c)) [
  | inl u ↦ rw u (rw (unreserved-not-percent c u) (ground arith))
  | inr u ↦ rw u (elim (Bool-cases (c == b'/' && not e)) [
    | inl k ↦ rw k (ground arith)
    | inr k ↦ rw k (
        ground (
          arith,
          hex_value-hex_upper (c / 16) (omega arith),
          hex_value-hex_upper (c % 16) (omega arith),
        ))
  ])
]

-- Decoding an encoded text gives the text back, with slashes encoded or kept.
pub decode-aws_url_encode :
    (s : Str) (encode_slash : Bool)
    → All IsByte s
    → percent_decode plain (aws_url_encode s encode_slash) ≡ some s
unfolding percent_decode aws_url_encode
decode-aws_url_encode [] e h = refl
decode-aws_url_encode (c ∷ s) e h =
    rw (decode-encode_byte e c (aws_url_encode s e) h.0, decode-aws_url_encode s e h.1) refl

All-append : (P : ℕ → Type 0) (xs ys : Str) → All P xs → All P ys → All P (xs ++ ys)
All-append P [] ys h k = k
All-append P (x ∷ xs) ys h k = (h.0, All-append P xs ys h.1 k)

-- Letters, digits, `-`, `.`, `_`, `~` and `%`, and `/` only where it is kept.
abbrev pub IsWireByte : Bool → ℕ → Type 0
IsWireByte encode_slash c = (is_unreserved c || c == b'%' || (c == b'/' && not encode_slash)) ≡ true

encode_byte-wire : (e : Bool) (c : ℕ) → IsByte c → All (IsWireByte e) (encode_byte e c)
unfolding encode_byte is_unreserved hex_upper
encode_byte-wire e c h = elim (Bool-cases (is_unreserved c)) [
  | inl u ↦ ground arith
  | inr u ↦ elim (Bool-cases (c == b'/' && not e)) [ inl k ↦ ground arith | inr k ↦ ground arith ]
]

-- The output holds none of the bytes that separate the parts of a canonical request or query.
pub aws_url_encode-wire :
    (s : Str) (encode_slash : Bool)
    → All IsByte s
    → All (IsWireByte encode_slash) (aws_url_encode s encode_slash)
unfolding aws_url_encode
aws_url_encode-wire [] e h = tt
aws_url_encode-wire (c ∷ s) e h =
    All-append (IsWireByte e) (encode_byte e c) (aws_url_encode s e) (encode_byte-wire e c h.0)
      (aws_url_encode-wire s e h.1)
