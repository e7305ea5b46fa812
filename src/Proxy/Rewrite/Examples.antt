-- ===== src/Proxy/Rewrite/Examples.antt =====
-- Headers, paths and queries rewritten.
use stowage.Proxy.Rewrite.{forward_all}
use stowage.Proxy.Rewrite.{forwarded}
use stowage.Proxy.Rewrite.{has_checksum_value}
use stowage.Base.{
  ◌≡◌, refl, false, some, List, [], ◌∷◌, Str, codes, str_eq, has_prefix, cut, lower_byte,
}
use stowage.Base.Dict.{Dict, lookup}
use stowage.Sigv4.Canonical.{aws_url_encode}
use stowage.Proxy.Route.{build_outbound_path}
use stowage.Proxy.Cors.{Header}
use stowage.Proxy.Rewrite.{
  strip_inbound, is_checksum_value, prepare_outbound_headers, build_outbound_raw_path,
}
use stowage.Proxy.Rewrite.Paths.{build_outbound_raw_path-aws_url_encode}

abbrev headers : Header
headers =
    (codes "Authorization", codes "AWS4" ∷ [])
    ∷ (codes "X-Amz-Sdk-Checksum-Algorithm", codes "CRC32" ∷ [])
    ∷ (codes "X-Amz-Checksum-Crc32", codes "AAAA" ∷ [])
    ∷ []

sent :
    lookup (codes "X-Amz-Sdk-Checksum-Algorithm") (prepare_outbound_headers headers)
    ≡ some (codes "CRC32" ∷ [])
unfolding prepare_outbound_headers lookup forward_all forwarded strip_inbound str_eq lower_byte
    has_prefix has_checksum_value is_checksum_value
sent = refl

abbrev query : Dict (List Str)
query = (codes "X-Amz-Signature", codes "ab" ∷ []) ∷ (codes "versionId", codes "7" ∷ []) ∷ []

build_outbound_raw_path-aws_url_encode_example :
    build_outbound_raw_path (codes "pics") (codes "a/b+c")
    ≡ aws_url_encode (build_outbound_path (codes "pics") (codes "a/b+c")) false
unfolding cut
build_outbound_raw_path-aws_url_encode_example =
    build_outbound_raw_path-aws_url_encode (codes "pics") (codes "a/b+c") refl
