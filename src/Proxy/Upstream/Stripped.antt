-- ===== src/Proxy/Upstream/Stripped.antt =====
-- StripPresignedQuery of internal/s3proxy/rewrite.go, on the queries that net/url parses.
use stowage.Base.{
  any, not, ◌&&◌, ◌⊎◌, sym, subst, refl, Bool-cases, ◌≡◌, inl, inr, true, false, none, some, List,
  [], ◌∷◌, arith, Option-cases, Str, str_eq_iff,
}
use stowage.Base.Dict.{Dict, lookup, has}
use stowage.Proxy.Route.{null}
use stowage.Proxy.Rewrite.{presigned_query_params}
use stowage.Proxy.Rewrite.{listed, Url, strip_presigned_query, delete_all}
use stowage.Proxy.Rewrite.Headers.{lookup-delete_all}

-- What StripPresignedQuery relies on: no text parses as no parameters, and encoding adds no
-- parameter.
pub record IsUrl (url : Url) : Type 0 where
  pub empty : url.parse_query [] ≡ some []
  pub adds_none :
      (k : Str) (q q' : Dict (List Str))
      → url.parse_query (url.encode q) ≡ some q'
      → lookup k q ≡ none
      → lookup k q' ≡ none

any-has-none :
    (k : Str) (ks : List Str) (q : Dict (List Str))
    → any (λ j. has j q) ks ≡ false
    → listed k ks ≡ true
    → lookup k q ≡ none
any-has-none k [] q h l = ground (arith, l)
any-has-none k (j ∷ ks) q h l =
    ground (arith, h, l, str_eq_iff k j, Option-cases (lookup j q), any-has-none k ks q)

lookup-nothing : (k : Str) → lookup {V = List Str} k [] ≡ none
unfolding lookup
lookup-nothing k = refl

null-cases : (s : Str) → (s ≡ []) ⊎ (null s ≡ false)
null-cases [] = inl refl
null-cases (c ∷ s) = inr refl

pub strip_presigned_query-clean :
    (url : Url) (raw k : Str) (q : Dict (List Str))
    → IsUrl url
    → url.parse_query (strip_presigned_query url raw) ≡ some q
    → listed k presigned_query_params ≡ true
    → lookup k q ≡ none
unfolding strip_presigned_query
strip_presigned_query-clean url raw k q is h l = elim (Option-cases (url.parse_query raw)) [
  | inl e ↦ ground (arith, e, h)
  | inr (p, e) ↦
      let left = delete_all presigned_query_params p in
      elim (Bool-cases (not (null raw) && any (λ j. has j p) presigned_query_params)) [
        | inl on ↦ ground (arith, e, on, h, l, is.adds_none k left q, lookup-delete_all k p)
        | inr off ↦ elim (null-cases raw) [
          | inl empty ↦ ground (
            arith,
            subst (λ t. url.parse_query t ≡ some []) (sym empty) is.empty,
            e,
            off,
            h,
            lookup-nothing k,
          )
          | inr full ↦ ground (arith, e, off, full, h, l, any-has-none k presigned_query_params p)
        ]
      ]
]

pub strip_presigned_query-malformed :
    (url : Url) (raw : Str) → url.parse_query raw ≡ none → strip_presigned_query url raw ≡ raw
unfolding strip_presigned_query
strip_presigned_query-malformed url raw h = ground (arith, h)
