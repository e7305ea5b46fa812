-- ===== src/Quotas/Ranking.antt =====
-- TopBuckets, its sort and its rows (internal/quotas/quotas.go).
use stowage.Base.{
  ℕ, zero, suc, ◌+◌, ◌%◌, ◌≤◌, ◌≡◌, refl, inl, inr, none, some, List, [], ◌∷◌, ◌++◌, arith, ◌==◌,
  if◌then◌else◌, Bool-cases, length, take, Str, cut-append, cut,
}
use stowage.Base.Int64.{modulus, sign_bit, lt64}
use native.Mathlib.Bridge.{le_prop}
use mathlib.Core.Logic.Or
use mathlib.Core.List.{
  reverse, reverse_perm, perm_middle, append-nil, Mem-prop, Perm, Pairwise, Pairwise-reverse, Mem,
  mem-cons, mem-cons_self, mem-cons_of_mem, not-mem-nil,
}
use mathlib.Core.List.Perm
use stowage.Quotas.{Service, Usage, BucketUsage, cache_key, row, rows, sift, sort_onto, top_buckets}

-- The place of a row's size in the signed order.
abbrev pub rank : BucketUsage → ℕ
rank r = (r.usage.bytes + sign_bit) % modulus

abbrev NotLarger : BucketUsage → BucketUsage → Type 0
NotLarger a b = rank a ≤ rank b

abbrev pub NotSmaller : BucketUsage → BucketUsage → Type 0
NotSmaller a b = rank b ≤ rank a

sift-perm : (x : BucketUsage) (ys : List BucketUsage) → Perm (sift x ys) (x ∷ ys)
unfolding sift
sift-perm x [] = Perm.refl (x ∷ [])
sift-perm x (y ∷ ys) = elim (Bool-cases (lt64 y.usage.bytes x.usage.bytes)) [
  | inl e ↦ rw e (Perm.trans (Perm.cons y (sift-perm x ys)) (Perm.swap x y ys))
  | inr e ↦ rw e (Perm.refl (x ∷ y ∷ ys))
]

mem-sift :
    {a x : BucketUsage} {P : Type 0} (ys : List BucketUsage)
    → IsProp P
    → Mem a (sift x ys)
    → (a ≡ x → P)
    → (Mem a ys → P)
    → P
mem-sift {x = x} ys p m f g = Or.elim p (mem-cons.0 (Perm.subset (sift-perm x ys) _ m)) f g

sift-Pairwise :
    (x : BucketUsage) (ys : List BucketUsage)
    → Pairwise NotLarger ys
    → Pairwise NotLarger (sift x ys)
unfolding sift lt64
sift-Pairwise x [] p = Pairwise.cons (λ a m. absurd (not-mem-nil m)) Pairwise.nil
sift-Pairwise x (y ∷ ys) (Pairwise.cons h p) =
    elim (Bool-cases (lt64 y.usage.bytes x.usage.bytes)) [
      | inl e ↦ rw e (
          Pairwise.cons (λ a m. mem-sift ys le_prop m (λ q. rw q (ground arith)) (λ k. h a k))
            (sift-Pairwise x ys p))
      | inr e ↦ rw e (
          Pairwise.cons
            (λ a m.
              Or.elim le_prop (mem-cons.0 m) (λ q. rw q (ground arith))
                (λ k. ground (arith, h a k)))
            (Pairwise.cons h p))
    ]

sort_onto-perm : (sorted xs : List BucketUsage) → Perm (sort_onto sorted xs) (sorted ++ xs)
unfolding sort_onto
sort_onto-perm sorted [] = rw append-nil (Perm.refl sorted)
sort_onto-perm sorted (x ∷ xs) =
    Perm.trans (sort_onto-perm (sift x sorted) xs)
      (Perm.trans (Perm.append_right xs (sift-perm x sorted)) (Perm.symm (perm_middle sorted xs)))

sort_onto-Pairwise :
    (sorted xs : List BucketUsage)
    → Pairwise NotLarger sorted
    → Pairwise NotLarger (sort_onto sorted xs)
unfolding sort_onto
sort_onto-Pairwise sorted [] p = p
sort_onto-Pairwise sorted (x ∷ xs) p =
    sort_onto-Pairwise (sift x sorted) xs (sift-Pairwise x sorted p)

mem-take {ℓ} : {A : Type ℓ} {a : A} (n : ℕ) (xs : List A) → Mem a (take n xs) → Mem a xs
mem-take zero xs m = absurd (not-mem-nil m)
mem-take (suc n) [] m = m
mem-take (suc n) (x ∷ xs) m =
    Or.elim Mem-prop (mem-cons.0 m) (λ q. rw q mem-cons_self)
      (λ k. mem-cons_of_mem x (mem-take n xs k))

take-Pairwise :
    (n : ℕ) (xs : List BucketUsage) → Pairwise NotSmaller xs → Pairwise NotSmaller (take n xs)
take-Pairwise zero xs p = Pairwise.nil
take-Pairwise (suc n) [] p = Pairwise.nil
take-Pairwise (suc n) (x ∷ xs) (Pairwise.cons h p) =
    Pairwise.cons (λ a m. h a (mem-take n xs m)) (take-Pairwise n xs p)

take-short {ℓ} : {A : Type ℓ} (n : ℕ) (xs : List A) → length xs ≤ n → take n xs ≡ xs
take-short zero [] h = refl
take-short zero (x ∷ xs) h = absurd (omega arith)
take-short (suc n) [] h = refl
take-short (suc n) (x ∷ xs) h = rw (take-short n xs (omega arith))

-- TopBuckets lists the rows of the cache by falling size, the first n of them, and all of them
-- for n = 0 or an n that is large enough.
pub top_buckets_lem :
    (s : Service) (n : ℕ)
    → (all_rows : List BucketUsage) × Perm all_rows (rows s.cache)
      × Pairwise NotSmaller all_rows
      × (top_buckets s n ≡ (if n == 0 then all_rows else take n all_rows))
unfolding top_buckets
top_buckets_lem s n = (
  reverse (sort_onto [] (rows s.cache)),
  Perm.trans (reverse_perm (sort_onto [] (rows s.cache))) (sort_onto-perm [] (rows s.cache)),
  (Pairwise-reverse (λ a b. le_prop)).1 (sort_onto-Pairwise [] (rows s.cache) Pairwise.nil),
  ground (arith, take-short n (reverse (sort_onto [] (rows s.cache)))),
)

-- The text before the first slash of a cache key is the backend's id and the rest the bucket, if
-- the id has no slash: the row that the dashboard shows is that of the bucket that was scanned.
pub row-cache_key :
    (backend bucket : Str) (u : Usage)
    → cut b'/' backend ≡ none
    → row (cache_key backend bucket) u
      ≡ some (record { backend_id = backend; bucket = bucket; usage = u })
unfolding row cache_key
row-cache_key backend bucket u h = rw (cut-append b'/' backend bucket h, row) refl
