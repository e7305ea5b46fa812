-- ===== src/Sigv4/Chunked/Examples.antt =====
-- The theorems about aws-chunked bodies at a concrete body.
use stowage.Base.{
  ok, err, ℕ, ◌+◌, ◌*◌, ◌%◌, ◌≡◌, refl, some, List, [], ◌∷◌, ◌++◌, arith, Str, codes, str_eq,
  has_prefix, cut, lower_byte, trim_left, trim_right,
}
use mathlib.Core.List.{flatten}
use stowage.Sigv4.Chunked.{
  Crypto, Stream, signature_mismatch, read_next_chunk, chunk_signature, parse_chunk_header, read,
}
use stowage.Sigv4.Chunked.Whole.{
  read_all, reader, Chain, last, more, total, decode_complete, decode_sound,
}

unfoldable pub checksum : Str → ℕ
checksum [] = 7
checksum (c ∷ s) = (checksum s * 3 + c) % 256

-- A hash for the tests, of one byte.
abbrev toy : Crypto
toy = record { sha256 = λ s. checksum s ∷ []; hmac_sha256 = λ key s. checksum (key ++ s) ∷ [] }

abbrev stream : Stream
stream = record {
  signing_key = codes "k";
  region = codes "r";
  service = codes "s3";
  short_date = codes "20260101";
  amz_date = codes "20260101T000000Z";
}

abbrev crlf : Str
crlf = 13 ∷ 10 ∷ []

abbrev body : Str
body =
    codes "5;chunk-signature=2b"
    ++ crlf
    ++ codes "hello"
    ++ crlf
    ++ codes "0;chunk-signature=92"
    ++ crlf
    ++ crlf

body-Chain : Chain toy stream (codes "00") body (codes "hello" ∷ [])
unfolding checksum chunk_signature parse_chunk_header cut trim_left trim_right lower_byte has_prefix
body-Chain =
    more
      (record {
        header = codes "5;chunk-signature=2b" ++ 13 ∷ [];
        framed = refl;
        one_line = refl;
        parsed = refl;
        small = omega arith;
        signed = refl;
      })
      (last {rest = []} (record {
        header = codes "0;chunk-signature=92" ++ 13 ∷ [];
        framed = refl;
        one_line = refl;
        parsed = refl;
        small = omega arith;
        signed = refl;
      }))

body_read :
    read_all 6 (read_next_chunk toy stream) 2 (reader body (codes "00") [])
    ≡ some (ok (codes "hello"))
unfolding checksum chunk_signature read_next_chunk parse_chunk_header cut trim_left trim_right
    lower_byte has_prefix str_eq read read_all
body_read = refl

tampered_read :
    read_all 6
      (read_next_chunk toy stream)
      2
      (reader (codes "5;chunk-signature=2b" ++ crlf ++ codes "hellO" ++ crlf) (codes "00") [])
    ≡ some (err signature_mismatch)
unfolding checksum chunk_signature read_next_chunk parse_chunk_header cut trim_left trim_right
    lower_byte has_prefix str_eq read read_all
tampered_read = refl

decode_complete_example :
    read_all 6 (read_next_chunk toy stream) 2 (reader body (codes "00") [])
    ≡ some (ok (codes "hello"))
unfolding flatten total
decode_complete_example =
    decode_complete toy stream 2 (codes "00") body (codes "hello" ∷ []) 6 body-Chain (omega arith)
      (omega arith)

decode_sound_example :
    (chunks : List Str) × Chain toy stream (codes "00") body chunks
    × (codes "hello" ≡ flatten chunks)
decode_sound_example = decode_sound toy stream 2 (codes "00") body 6 (codes "hello") body_read
