-- ===== src/Proxy/Route/Paths.antt =====
-- The bucket and the key that internal/s3proxy/router.go reads off a host and a path, against the
-- path that internal/s3proxy/rewrite.go (BuildOutboundPath) writes.
use stowage.Base.{
  ℕ, zero, suc, ◌-◌, ◌≤◌, ◌<◌, ◌≡◌, refl, sym, ap, ◌∙◌, ◌≢◌, inl, inr, true, ◌&&◌, none, some, List,
  [], ◌∷◌, ◌++◌, arith, ltb, ltb→lt, Bool-cases, length, take, drop, take-append-drop, Str,
  str_eq_sound, cut-append, trim_byte, cut,
}
use mathlib.Core.List.{Memᴰ}
use stowage.Proxy.Route.{
  Request, has_suffix, dotted, virtual_bucket, path_route, classify_route, build_outbound_path,
}

path_route-bucket :
    (c : ℕ) (bucket : Str)
    → cut b'/' (c ∷ bucket) ≡ none
    → path_route (c ∷ bucket) ≡ record { bucket = c ∷ bucket; key = []; path_style = true }
unfolding path_route
path_route-bucket c bucket h = rw (h, path_route) refl

path_route-key :
    (c : ℕ) (bucket key : Str)
    → cut b'/' (c ∷ bucket) ≡ none
    → path_route (c ∷ bucket ++ b'/' ∷ key)
      ≡ record { bucket = c ∷ bucket; key = key; path_style = true }
unfolding path_route
path_route-key c bucket key h = rw (cut-append b'/' (c ∷ bucket) key h, path_route) refl

-- The bucket and the key that a path-style request names are the ones `BuildOutboundPath` wrote into
-- its path: for a bucket name that is not empty and has no slash, any key, and a proxy without
-- virtual hosts.
pub classify_route-build_outbound_path :
    (r : Request) (bucket key : Str)
    → bucket ≢ []
    → cut b'/' bucket ≡ none
    → r.path ≡ build_outbound_path bucket key
    → classify_route r [] ≡ record { bucket = bucket; key = key; path_style = true }
unfolding classify_route build_outbound_path virtual_bucket trim_byte
classify_route-build_outbound_path r [] key hb hc hp = absurd (hb refl)
classify_route-build_outbound_path r (c ∷ bucket) [] hb hc hp =
    rw hp (path_route-bucket c bucket hc)
classify_route-build_outbound_path r (c ∷ bucket) (k ∷ key) hb hc hp =
    rw hp (path_route-key c bucket (k ∷ key) hc)

has_suffix_sound : (s t : Str) → has_suffix s t ≡ true → s ≡ take (length s - length t) s ++ t
unfolding has_suffix
has_suffix_sound s t h =
    sym (take-append-drop n s) ∙ ap (λ x. take n s ++ x) (str_eq_sound (drop n s) t (ground arith))
  where
    n : ℕ
    n = length s - length t

take-nonempty : (n : ℕ) (s : Str) → 0 < n → n ≤ length s → take n s ≢ []
take-nonempty zero s h k e = absurd (ground arith)
take-nonempty (suc n) [] h k e = absurd (ground arith)
take-nonempty (suc n) (c ∷ s) h k e = cc

-- The bucket of a virtual-hosted request is not empty, and the host is the bucket followed by a dot
-- and one of the configured suffixes.
pub virtual_bucket_sound :
    (host bucket : Str) (suffixes : List Str)
    → virtual_bucket host suffixes ≡ some bucket
    → bucket ≢ [] × ((s : Str) × Memᴰ s suffixes × (s ≢ []) × (host ≡ bucket ++ dotted s))
unfolding virtual_bucket
virtual_bucket_sound host bucket [] h = absurd (ground arith)
virtual_bucket_sound host bucket ([] ∷ rest) h =
    let (ne, (s, m, n, e)) = virtual_bucket_sound host bucket rest h in (ne, (s, Memᴰ.tail m, n, e))
virtual_bucket_sound host bucket ((c ∷ s) ∷ rest) h =
    elim (Bool-cases (has_suffix host suf && ltb (length suf) (length host))) [
      | inl e ↦ rw (sym (found e)) (
        take-nonempty (length host - length suf) host
            (ground (arith, ltb→lt (length suf) (length host))) (omega arith),
        (c ∷ s, Memᴰ.head refl, λ n. cc, has_suffix_sound host suf (ground arith)),
      )
      | inr e ↦
          let (ne, (t, m, n, f)) = virtual_bucket_sound host bucket rest (ground arith) in
          (ne, (t, Memᴰ.tail m, n, f))
    ]
  where
    suf : Str
    suf = dotted (c ∷ s)

    found :
        (has_suffix host suf && ltb (length suf) (length host)) ≡ true
        → take (length host - length suf) host ≡ bucket
    found e = ground arith
