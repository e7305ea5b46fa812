-- ===== src/Proxy/Route.antt =====
-- internal/s3proxy/router.go, scope.go and anonymous.go, and classifyOperation of server.go: which
-- bucket and key a request means, which operation it is, and who may do it. Operation names are a
-- data type, and a query is a dictionary.
pub mod Allowed
pub mod Paths
mod Examples
use stowage.Base.{
  ℕ, zero, suc, ◌+◌, ◌-◌, ◌*◌, ◌/◌, ◌%◌, ◌^◌, ◌≤◌, ◌<◌, ◌≡◌, refl, sym, ap, subst, ◌∙◌, ◌≢◌, ◌↔◌,
  ◌⊎◌, inl, inr, Bool, true, false, not, ◌&&◌, ◌||◌, Option, none, some, List, [], ◌∷◌, ◌++◌, map,
  arith, ltb, leb, ◌==◌, if◌then◌else◌, ltb→lt, lt→ltb, leb→le, ==_iff, Bool-cases, Option-cases,
  length, take, drop, length-append, take-append-drop, take-length, drop-length, length-take,
  length-drop, all, any, keep, All, Str, codes, str_eq, str_eq_self, str_eq_sound, str_eq_iff,
  cut-append, cut_sound, has_prefix, trim_byte, cut, lower_byte, to_lower, equal_fold, is_space,
  trim_left, trim_right, trim_space, is_newline,
}
use stowage.Base.Dict.{
  Dict, lookup, insert, delete, has, map_values, lookup-insert, lookup-delete, dict_laws,
  lookup-map_values-some, lookup-map_values-none,
}
use stowage.Base.Int64.{modulus, sign_bit, add64, lt64, lt64-small, add64-small}

pub data Method : Type 0 where
  get put head delete_method post options other : Method

pub data Operation : Type 0 where
  list_buckets get_bucket_location list_multipart_uploads list_objects list_parts : Operation
  get_object put_bucket upload_part put_object head_bucket head_object : Operation
  delete_bucket abort_multipart delete_object create_multipart_upload : Operation
  complete_multipart_upload delete_objects post_object unknown : Operation

pub record Request : Type 0 where
  pub method : Method
  pub host : Str
  pub path : Str
  pub query : Dict (List Str)
  pub content_type : Str

pub record RouteInfo : Type 0 where
  pub bucket : Str
  pub key : Str
  pub path_style : Bool

-- strings.HasSuffix
unfoldable pub has_suffix : Str → Str → Bool
has_suffix s suffix =
    leb (length suffix) (length s) && str_eq (drop (length s - length suffix) s) suffix

-- the part of a host before its port
unfoldable pub without_port : Str → Str
without_port host = elim (cut b':' host) [ none ↦ host | some (name, port) ↦ name ]

abbrev pub dotted : Str → Str
dotted suffix = b'.' ∷ trim_byte b'.' (to_lower suffix)

-- the loop over `proxyHostSuffixes`: the bucket of a virtual-hosted request
unfoldable pub virtual_bucket : Str → List Str → Option Str
unfolding has_suffix
virtual_bucket host [] = none
virtual_bucket host ([] ∷ rest) = virtual_bucket host rest
virtual_bucket host ((c ∷ suffix) ∷ rest) =
    let suf = dotted (c ∷ suffix) in
    let next = virtual_bucket host rest in
    if has_suffix host suf && ltb (length suf) (length host)
    then some (take (length host - length suf) host)
    else next

-- the path-style case
unfoldable pub path_route : Str → RouteInfo
path_route [] = record { bucket = []; key = []; path_style = true }
path_route (c ∷ p) = elim (cut b'/' (c ∷ p)) [
  | none ↦ record { bucket = c ∷ p; key = []; path_style = true }
  | some (bucket, key) ↦ record { bucket = bucket; key = key; path_style = true }
]

unfoldable pub classify_route : Request → List Str → RouteInfo
unfolding virtual_bucket path_route without_port
classify_route r suffixes = elim (virtual_bucket (without_port (to_lower r.host)) suffixes) [
  | some bucket ↦ record { bucket = bucket; key = trim_byte b'/' r.path; path_style = false }
  | none ↦ path_route (trim_byte b'/' r.path)
]

-- `BuildOutboundPath` of rewrite.go
unfoldable pub build_outbound_path : Str → Str → Str
build_outbound_path real_bucket [] = b'/' ∷ real_bucket
build_outbound_path real_bucket (c ∷ key) = b'/' ∷ real_bucket ++ b'/' ∷ c ∷ key

unfoldable pub is_post_object_request : Request → Bool
is_post_object_request r = elim r.content_type [
  | [] ↦ false
  | c ∷ ct ↦
      let media = elim (cut b';' (c ∷ ct)) as (λ _. Str) [ none ↦ c ∷ ct | some (m, rest) ↦ m ] in
      equal_fold (trim_space media) (codes "multipart/form-data")
]

abbrev pub null : Str → Bool
null [] = true
null (c ∷ s) = false

unfoldable pub classify_operation : Request → RouteInfo → Operation
classify_operation r route = elim r.method [
  | get ↦
      if null route.bucket
      then list_buckets
      else if null route.key && has (codes "location") r.query
      then get_bucket_location
      else if null route.key && has (codes "uploads") r.query
      then list_multipart_uploads
      else if null route.key
      then list_objects
      else if has (codes "uploadId") r.query
      then list_parts
      else get_object
  | put ↦
      if null route.key
      then put_bucket
      else if has (codes "partNumber") r.query && has (codes "uploadId") r.query
      then upload_part
      else put_object
  | head ↦ if null route.key then head_bucket else head_object
  | delete_method ↦
      if null route.key
      then delete_bucket
      else if has (codes "uploadId") r.query
      then abort_multipart
      else delete_object
  | post ↦
      if has (codes "uploads") r.query
      then create_multipart_upload
      else if has (codes "uploadId") r.query
      then complete_multipart_upload
      else if has (codes "delete") r.query
      then delete_objects
      else if null route.key && is_post_object_request r
      then post_object
      else unknown
  | _ ↦ unknown
]

abbrev pub anon_mode_read_only : Str
anon_mode_read_only = codes "ReadOnly"

abbrev pub anonymous_read_allowed_ops : Operation → Bool
anonymous_read_allowed_ops get_object = true
anonymous_read_allowed_ops head_object = true
anonymous_read_allowed_ops head_bucket = true
anonymous_read_allowed_ops list_objects = true
anonymous_read_allowed_ops _ = false

unfoldable pub anonymous_blocked_subresources : List Str
anonymous_blocked_subresources =
    codes "acl"
    ∷ codes "policy"
    ∷ codes "versioning"
    ∷ codes "logging"
    ∷ codes "tagging"
    ∷ codes "cors"
    ∷ codes "lifecycle"
    ∷ codes "encryption"
    ∷ codes "replication"
    ∷ codes "notification"
    ∷ codes "analytics"
    ∷ codes "inventory"
    ∷ codes "metrics"
    ∷ codes "accelerate"
    ∷ codes "requestPayment"
    ∷ codes "website"
    ∷ codes "object-lock"
    ∷ codes "legal-hold"
    ∷ codes "retention"
    ∷ codes "uploads"
    ∷ codes "uploadId"
    ∷ codes "delete"
    ∷ codes "restore"
    ∷ codes "select"
    ∷ codes "versionId"
    ∷ codes "torrent"
    ∷ []

unfoldable pub any_blocked : List Str → Dict (List Str) → Bool
any_blocked [] q = false
any_blocked (k ∷ ks) q = has k q || any_blocked ks q

unfoldable pub anonymous_op_allowed : Str → Operation → Dict (List Str) → Bool
unfolding any_blocked
anonymous_op_allowed mode operation q =
    if not (str_eq mode anon_mode_read_only)
    then false
    else if not (anonymous_read_allowed_ops operation)
    then false
    else not (any_blocked anonymous_blocked_subresources q)

-- `EnforceScope`, over the bucket names of the credential's scopes
unfoldable pub enforce_scope : List Str → Str → Bool
enforce_scope scopes [] = true
enforce_scope [] (c ∷ bucket) = false
enforce_scope (s ∷ scopes) (c ∷ bucket) =
    equal_fold s (c ∷ bucket) || enforce_scope scopes (c ∷ bucket)
