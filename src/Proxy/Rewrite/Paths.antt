-- ===== src/Proxy/Rewrite/Paths.antt =====
-- The raw path that internal/s3proxy/rewrite.go sends, against the encoding of the canonical request
-- in internal/sigv4verifier/canonical.go.
use stowage.Base.{
  ℕ, ◌≡◌, refl, sym, ap, ◌∙◌, inl, inr, Bool, true, false, none, List, [], ◌∷◌, ◌++◌, map, arith,
  ◌==◌, Bool-cases, Option-cases, all, Str, cut,
}
use mathlib.Core.List.{append_assoc}
use stowage.Sigv4.Canonical.{join, split, is_unreserved, hex_upper, encode_byte, aws_url_encode}
use stowage.Proxy.Route.{build_outbound_path}
use stowage.Proxy.Rewrite.{
  is_aws_unreserved, escape_loop, aws_path_escape, aws_key_escape, build_outbound_raw_path,
}

unreserved-agree : (c : ℕ) → is_aws_unreserved c ≡ is_unreserved c
unfolding is_aws_unreserved is_unreserved
unreserved-agree c = ground arith

escape_loop-aws_url_encode : (s : Str) → escape_loop s ≡ aws_url_encode s true
unfolding escape_loop aws_url_encode encode_byte hex_upper
escape_loop-aws_url_encode [] = refl
escape_loop-aws_url_encode (c ∷ s) =
    ground (arith, escape_loop-aws_url_encode s, unreserved-agree c)

unescaped : (s : Str) → all is_aws_unreserved s ≡ true → s ≡ escape_loop s
unfolding escape_loop
unescaped [] h = refl
unescaped (c ∷ s) h = ground (arith, unescaped s)

aws_path_escape-aws_url_encode : (s : Str) → aws_path_escape s ≡ aws_url_encode s true
unfolding aws_path_escape
aws_path_escape-aws_url_encode s = ground (arith, escape_loop-aws_url_encode s, unescaped s)

-- Without a slash the two ways to encode agree.
encode_slashless : (s : Str) → cut b'/' s ≡ none → aws_url_encode s true ≡ aws_url_encode s false
unfolding cut aws_url_encode encode_byte
encode_slashless [] h = refl
encode_slashless (c ∷ s) h = ground (arith, encode_slashless s)

aws_url_encode-append :
    (s t : Str) (b : Bool) → aws_url_encode (s ++ t) b ≡ aws_url_encode s b ++ aws_url_encode t b
unfolding aws_url_encode
aws_url_encode-append [] t b = refl
aws_url_encode-append (c ∷ s) t b =
    rw (aws_url_encode-append s t b)
      (sym (append_assoc (encode_byte b c) (aws_url_encode s b) (aws_url_encode t b)))

split-nonempty : (s : Str) → (p : Str) × (ps : List Str) × (split b'/' s ≡ p ∷ ps)
unfolding split
split-nonempty [] = ([], [], refl)
split-nonempty (c ∷ s) =
    let (p, ps, e) = split-nonempty s in
    elim (Bool-cases (c == b'/')) [
      | inl f ↦ ([], p ∷ ps, ground arith)
      | inr f ↦ (c ∷ p, ps, ground arith)
    ]

join-append : (sep a x : Str) (ys : List Str) → join sep ((a ++ x) ∷ ys) ≡ a ++ join sep (x ∷ ys)
unfolding join
join-append sep a x [] = refl
join-append sep a x (y ∷ ys) =
    ap (λ z. z ++ join sep (y ∷ ys)) (append_assoc a x sep)
    ∙ append_assoc a (x ++ sep) (join sep (y ∷ ys))

aws_path_escape-cons :
    (c : ℕ) (s : Str) → aws_path_escape (c ∷ s) ≡ encode_byte true c ++ aws_path_escape s
unfolding aws_url_encode
aws_path_escape-cons c s =
    rw (aws_path_escape-aws_url_encode (c ∷ s)) (rw (aws_path_escape-aws_url_encode s) refl)

encode_byte-slashless : (c : ℕ) → (c == b'/') ≡ false → encode_byte true c ≡ encode_byte false c
unfolding encode_byte
encode_byte-slashless c h = ground arith

split-slash :
    (c : ℕ) (s p : Str) (ps : List Str)
    → split b'/' s ≡ p ∷ ps
    → (c == b'/') ≡ true
    → split b'/' (c ∷ s) ≡ [] ∷ p ∷ ps
unfolding split
split-slash c s p ps e f = ground arith

split-other :
    (c : ℕ) (s p : Str) (ps : List Str)
    → split b'/' s ≡ p ∷ ps
    → (c == b'/') ≡ false
    → split b'/' (c ∷ s) ≡ (c ∷ p) ∷ ps
unfolding split
split-other c s p ps e f = ground arith

encode_byte-slash : (c : ℕ) → (c == b'/') ≡ true → b'/' ∷ [] ≡ encode_byte false c
unfolding encode_byte is_unreserved
encode_byte-slash c h = ground arith

-- The escaped pieces of a key, joined again.
abbrev rejoined : List Str → Str
rejoined pieces = join (b'/' ∷ []) (map aws_path_escape pieces)

rejoined-empty :
    (p : Str) (ps : List Str) → rejoined ([] ∷ p ∷ ps) ≡ (b'/' ∷ []) ++ rejoined (p ∷ ps)
unfolding join aws_path_escape
rejoined-empty p ps = refl

rejoined-cons :
    (c : ℕ) (p : Str) (ps : List Str)
    → rejoined ((c ∷ p) ∷ ps) ≡ encode_byte true c ++ rejoined (p ∷ ps)
rejoined-cons c p ps =
    ap (λ x. join (b'/' ∷ []) (x ∷ map aws_path_escape ps)) (aws_path_escape-cons c p)
    ∙ join-append (b'/' ∷ []) (encode_byte true c) (aws_path_escape p) (map aws_path_escape ps)

-- The pieces between the slashes, encoded and joined, are the whole encoded with its slashes kept.
join-split : (s : Str) → rejoined (split b'/' s) ≡ aws_url_encode s false
unfolding aws_url_encode
join-split [] = unfold split join aws_path_escape in refl
join-split (c ∷ s) =
    let (p, ps, e) = split-nonempty s in
    elim (Bool-cases (c == b'/')) [
      | inl f ↦
          ap rejoined (split-slash c s p ps e f)
          ∙ rejoined-empty p ps
          ∙ ap (λ x. x ++ rejoined (p ∷ ps)) (encode_byte-slash c f)
          ∙ ap (λ x. encode_byte false c ++ x) (sym (ap rejoined e) ∙ join-split s)
      | inr f ↦
          ap rejoined (split-other c s p ps e f)
          ∙ rejoined-cons c p ps
          ∙ ap (λ x. x ++ rejoined (p ∷ ps)) (encode_byte-slashless c f)
          ∙ ap (λ x. encode_byte false c ++ x) (sym (ap rejoined e) ∙ join-split s)
    ]

aws_key_escape-aws_url_encode : (key : Str) → aws_key_escape key ≡ aws_url_encode key false
unfolding aws_key_escape
aws_key_escape-aws_url_encode key = elim (Option-cases (cut b'/' key)) [
  | inl e ↦ ground (arith, aws_path_escape-aws_url_encode key, encode_slashless key e)
  | inr (parts, e) ↦ ground (arith, join-split key)
]

slash-kept : (s : Str) → b'/' ∷ aws_url_encode s false ≡ aws_url_encode (b'/' ∷ s) false
unfolding aws_url_encode encode_byte is_unreserved
slash-kept s = refl

aws_path_escape-bucket :
    (bucket : Str) → cut b'/' bucket ≡ none → aws_path_escape bucket ≡ aws_url_encode bucket false
aws_path_escape-bucket bucket h = aws_path_escape-aws_url_encode bucket ∙ encode_slashless bucket h

-- The raw path that is sent is the outbound path encoded as the canonical request encodes a path: for
-- a bucket name without a slash and any key, the two ways to write it agree.
pub build_outbound_raw_path-aws_url_encode :
    (bucket key : Str)
    → cut b'/' bucket ≡ none
    → build_outbound_raw_path bucket key ≡ aws_url_encode (build_outbound_path bucket key) false
unfolding build_outbound_raw_path build_outbound_path
build_outbound_raw_path-aws_url_encode bucket [] h =
    ap (λ x. b'/' ∷ x) (aws_path_escape-bucket bucket h) ∙ slash-kept bucket
build_outbound_raw_path-aws_url_encode bucket (c ∷ key) h =
    ap (λ x. b'/' ∷ x ++ b'/' ∷ aws_key_escape (c ∷ key)) (aws_path_escape-bucket bucket h)
    ∙ ap (λ x. b'/' ∷ aws_url_encode bucket false ++ b'/' ∷ x)
        (aws_key_escape-aws_url_encode (c ∷ key))
    ∙ ap (λ x. b'/' ∷ aws_url_encode bucket false ++ x) (slash-kept (c ∷ key))
    ∙ ap (λ x. b'/' ∷ x) (sym (aws_url_encode-append bucket (b'/' ∷ c ∷ key) false))
    ∙ slash-kept (bucket ++ b'/' ∷ c ∷ key)
