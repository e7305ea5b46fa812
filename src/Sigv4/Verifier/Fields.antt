-- ===== src/Sigv4/Verifier/Fields.antt =====
-- The Authorization header as a client writes it, read by `parseHeaderAuth` of
-- internal/sigv4verifier/verifier.go.
use stowage.Base.{
  ok, ℕ, ◌≡◌, refl, ap, ◌∙◌, inl, inr, Bool, true, false, not, ◌||◌, some, List, [], ◌∷◌, ◌++◌,
  arith, ◌==◌, Bool-cases, length, drop, all, Str, codes, str_eq, has_prefix, cut, to_lower,
  is_space, trim_left, trim_right, trim_space,
}
use stowage.Sigv4.Canonical.{split, extract_signed_headers}
use stowage.Sigv4.Verifier.{
  null, Scope, credential_scope, HeaderAuth, parse_field, parse_fields, parse_header_auth,
  header_prefix, no_headers,
}

-- a byte of a name or value: no white space, comma or slash
unfoldable pub is_token : ℕ → Bool
is_token c = not (is_space c || c == b',' || c == b'/')

abbrev pub no_byte : ℕ → ℕ → Bool
no_byte b c = not (c == b)

abbrev no_space : ℕ → Bool
no_space c = not (is_space c)

all-both : (p : ℕ → Bool) (s t : Str) → all p s ≡ true → all p t ≡ true → all p (s ++ t) ≡ true
all-both p [] t hs ht = ht
all-both p (c ∷ s) t hs ht = ground (arith, all-both p s t)

all-weaken :
    (p q : ℕ → Bool) (s : Str)
    → ((c : ℕ) → p c ≡ true → q c ≡ true)
    → all p s ≡ true
    → all q s ≡ true
all-weaken p q [] f h = refl
all-weaken p q (c ∷ s) f h = ground (arith, f c, all-weaken p q s f)

token-no_slash : (s : Str) → all is_token s ≡ true → all (no_byte b'/') s ≡ true
unfolding is_token
token-no_slash s h = all-weaken is_token (no_byte b'/') s (λ c hc. ground arith) h

token-no_comma : (s : Str) → all is_token s ≡ true → all (no_byte b',') s ≡ true
unfolding is_token
token-no_comma s h = all-weaken is_token (no_byte b',') s (λ c hc. ground arith) h

token-no_space : (s : Str) → all is_token s ≡ true → all no_space s ≡ true
unfolding is_token
token-no_space s h = all-weaken is_token no_space s (λ c hc. ground arith) h

pub split-clean : (b : ℕ) (s : Str) → all (no_byte b) s ≡ true → split b s ≡ s ∷ []
unfolding split
split-clean b [] h = refl
split-clean b (c ∷ s) h =
    let rest : split b s ≡ s ∷ [] = split-clean b s (ground arith) in ground (arith, rest)

split-nonempty : (b : ℕ) (s : Str) → (p : Str) × (ps : List Str) × (split b s ≡ p ∷ ps)
unfolding split
split-nonempty b [] = ([], [], refl)
split-nonempty b (c ∷ s) =
    let (p, ps, e) = split-nonempty b s in
    elim (Bool-cases (c == b)) [
      | inl t ↦ ([], p ∷ ps, ground arith)
      | inr t ↦ (c ∷ p, ps, ground arith)
    ]

pub split-at : (b : ℕ) (l r : Str) → all (no_byte b) l ≡ true → split b (l ++ b ∷ r) ≡ l ∷ split b r
unfolding split
split-at b [] r h = let (p, ps, e) = split-nonempty b r in ground arith
split-at b (c ∷ l) r h = ground (arith, split-at b l r)

trim_right-clean : (s : Str) → all no_space s ≡ true → trim_right is_space s ≡ s
unfolding trim_right
trim_right-clean [] h = refl
trim_right-clean (c ∷ []) h = ground arith
trim_right-clean (c ∷ d ∷ s) h =
    let rest : trim_right is_space (d ∷ s) ≡ d ∷ s = trim_right-clean (d ∷ s) (ground arith) in
    ground (arith, rest)

abbrev after_region : Scope → Str
after_region k = k.service ++ b'/' ∷ codes "aws4_request"

abbrev after_date : Scope → Str
after_date k = k.region ++ b'/' ∷ after_region k

abbrev after_akid : Scope → Str
after_akid k = k.date ++ b'/' ∷ after_date k

-- an X-Amz-Credential
abbrev pub credential_text : Scope → Str
credential_text k = k.akid ++ b'/' ∷ after_akid k

abbrev after_credential : Str → Str → Str
after_credential signed_headers signature =
    (codes " SignedHeaders=" ++ signed_headers) ++ b',' ∷ (codes " Signature=" ++ signature)

-- the header as the SDKs write it
unfoldable pub authorization_text : Scope → Str → Str → Str
authorization_text k signed_headers signature =
    header_prefix
    ++ (codes "Credential=" ++ credential_text k)
    ++ b',' ∷ after_credential signed_headers signature

unfoldable pub IsTokens : Scope → Type 0
IsTokens k =
    (all is_token k.akid ≡ true)
    × (all is_token k.date ≡ true)
    × (all is_token k.region ≡ true)
    × (all is_token k.service ≡ true)

split-credential_text :
    (k : Scope)
    → IsTokens k
    → split b'/' (credential_text k)
      ≡ k.akid ∷ k.date ∷ k.region ∷ k.service ∷ codes "aws4_request" ∷ []
unfolding IsTokens
split-credential_text k h =
    split-at b'/' k.akid (after_akid k) (token-no_slash k.akid h.0)
    ∙ ap (λ (t : List Str). k.akid ∷ t)
        (split-at b'/' k.date (after_date k) (token-no_slash k.date h.1)
          ∙ ap (λ (t : List Str). k.date ∷ t)
              (split-at b'/' k.region (after_region k) (token-no_slash k.region h.2)
                ∙ ap (λ (t : List Str). k.region ∷ t)
                    (split-at b'/' k.service (codes "aws4_request") (token-no_slash k.service h.3)
                      ∙ ap (λ (t : List Str). k.service ∷ t)
                          (split-clean b'/' (codes "aws4_request") refl))))

credential_scope-text : (k : Scope) → IsTokens k → credential_scope (credential_text k) ≡ some k
unfolding credential_scope str_eq
credential_scope-text k h = rw (split-credential_text k h, credential_scope) refl

split-authorization :
    (k : Scope) (signed_headers signature : Str)
    → IsTokens k
    → all is_token signed_headers ≡ true
    → all is_token signature ≡ true
    → split b',' (drop (length header_prefix) (authorization_text k signed_headers signature))
      ≡ (codes "Credential=" ++ credential_text k)
        ∷ (codes " SignedHeaders=" ++ signed_headers)
        ∷ (codes " Signature=" ++ signature)
        ∷ []
unfolding authorization_text IsTokens
split-authorization k signed_headers signature h hh hs =
    let free : all (no_byte b',') (credential_text k) ≡ true =
      all-both (no_byte b',') k.akid (b'/' ∷ after_akid k) (token-no_comma k.akid h.0) (
        all-both (no_byte b',') k.date (b'/' ∷ after_date k) (token-no_comma k.date h.1) (
          all-both (no_byte b',') k.region (b'/' ∷ after_region k) (token-no_comma k.region h.2) (
            all-both (no_byte b',') k.service (b'/' ∷ codes "aws4_request")
              (token-no_comma k.service h.3) refl))) in
    split-at b',' (codes "Credential=" ++ credential_text k)
      (after_credential signed_headers signature) free
    ∙ ap (λ (t : List Str). (codes "Credential=" ++ credential_text k) ∷ t)
        (split-at b',' (codes " SignedHeaders=" ++ signed_headers)
            (codes " Signature=" ++ signature) (token-no_comma signed_headers hh)
          ∙ ap (λ (t : List Str). (codes " SignedHeaders=" ++ signed_headers) ∷ t)
              (split-clean b',' (codes " Signature=" ++ signature) (token-no_comma signature hs)))

trim_space-field :
    (c : ℕ) (s : Str) → is_space c ≡ false → all no_space s ≡ true → trim_space (c ∷ s) ≡ c ∷ s
unfolding trim_left
trim_space-field c s hc h = ground (arith, trim_right-clean (c ∷ s))

credential_text-no_space : (k : Scope) → IsTokens k → all no_space (credential_text k) ≡ true
unfolding IsTokens
credential_text-no_space k h =
    all-both no_space k.akid (b'/' ∷ after_akid k) (token-no_space k.akid h.0) (
      all-both no_space k.date (b'/' ∷ after_date k) (token-no_space k.date h.1) (
        all-both no_space k.region (b'/' ∷ after_region k) (token-no_space k.region h.2) (
          all-both no_space k.service (b'/' ∷ codes "aws4_request") (token-no_space k.service h.3)
            refl)))

parse_field-credential :
    (a : HeaderAuth) (k : Scope)
    → IsTokens k
    → parse_field a (codes "Credential=" ++ credential_text k) ≡ ok (record a { scope = k })
unfolding parse_field cut str_eq
parse_field-credential a k h =
    rw
      (
        trim_space-field b'C' (codes "redential=" ++ credential_text k) refl
            (credential_text-no_space k h),
        parse_field,
      )
      (rw (credential_scope-text k h) refl)

trim_left-field : (s : Str) → all no_space s ≡ true → trim_space (b' ' ∷ b'S' ∷ s) ≡ b'S' ∷ s
unfolding trim_left
trim_left-field s h = ground (arith, trim_right-clean (b'S' ∷ s))

parse_field-signed_headers :
    (a : HeaderAuth) (raw : Str)
    → all is_token raw ≡ true
    → parse_field a (codes " SignedHeaders=" ++ raw)
      ≡ ok (record a { signed_headers = extract_signed_headers raw })
unfolding parse_field cut str_eq
parse_field-signed_headers a raw h =
    rw (trim_left-field (codes "ignedHeaders=" ++ raw) (token-no_space raw h), parse_field) refl

parse_field-signature :
    (a : HeaderAuth) (sig : Str)
    → all is_token sig ≡ true
    → parse_field a (codes " Signature=" ++ sig) ≡ ok (record a { signature = to_lower sig })
unfolding parse_field cut str_eq
parse_field-signature a sig h =
    rw (trim_left-field (codes "ignature=" ++ sig) (token-no_space sig h), parse_field) refl

null-to_lower : (s : Str) → null (to_lower s) ≡ null s
null-to_lower [] = refl
null-to_lower (c ∷ s) = refl

-- A header that a client writes from a scope, a list of header names and a signature, none with
-- white space, a comma or a slash, is read back: the scope as it was, the names sorted and in
-- lower case, and the signature in lower case. The access key, the list that is read and the
-- signature must not be empty.
pub parse_header_auth-authorization_text :
    (k : Scope) (raw sig : Str)
    → IsTokens k
    → all is_token raw ≡ true
    → all is_token sig ≡ true
    → not (null k.akid || no_headers (extract_signed_headers raw) || null sig) ≡ true
    → parse_header_auth (authorization_text k raw sig)
      ≡ ok (record {
        scope = k;
        signed_headers = extract_signed_headers raw;
        signature = to_lower sig;
      })
unfolding parse_header_auth parse_fields authorization_text has_prefix
parse_header_auth-authorization_text k raw sig hk hr hs ne =
    rw (split-authorization k raw sig hk hr hs, parse_header_auth)
      (rw (parse_field-credential _ k hk) (
        rw (parse_field-signed_headers _ raw hr)
          (rw (parse_field-signature _ sig hs) (rw (null-to_lower sig) (rw ne refl)))))
