-- ===== src/Sigv4/Unsigned/Tests.antt =====
-- An unsigned body read.
use stowage.Sigv4.Chunked.{read_line}
use stowage.Sigv4.Chunked.{parse_size}
use stowage.Sigv4.Chunked.{read_full}
use stowage.Sigv4.Chunked.{read_crlf}
use stowage.Base.{
  ◌≡◌, refl, false, none, [], ◌∷◌, ◌++◌, Str, codes, str_eq, cut, trim_left, trim_right,
}
use stowage.Sigv4.Chunked.{Reader, bytes, eof, read}
use stowage.Sigv4.Unsigned.{read_next_unsigned}

abbrev crlf : Str
crlf = 13 ∷ 10 ∷ []

abbrev body : Reader
body = record {
  input =
      codes "3;x=1"
      ++ crlf
      ++ codes "abc"
      ++ crlf
      ++ codes "0"
      ++ crlf
      ++ codes "x-amz-checksum-crc32:AA"
      ++ crlf
      ++ crlf;
  prev_sig = [];
  pending = [];
  done = false;
  failed = none;
}

first_read : (read read_next_unsigned 8 body).1 ≡ bytes (codes "abc")
unfolding read read_next_unsigned read_line cut parse_size trim_right trim_left read_full read_crlf
    str_eq
first_read = refl

then_eof : (read read_next_unsigned 8 (read read_next_unsigned 8 body).0).1 ≡ eof
unfolding read read_next_unsigned read_line cut parse_size trim_right trim_left read_full read_crlf
    str_eq
then_eof = refl
