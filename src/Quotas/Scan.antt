-- ===== src/Quotas/Scan.antt =====
-- The listing loop of Scan (internal/quotas/quotas.go), against a backend that lists a bucket in
-- a finite chain of pages.
use stowage.Base.{
  ℕ, zero, suc, ◌+◌, ◌≤◌, ◌<◌, ◌≡◌, ◌∙◌, true, false, not, ◌||◌, none, some, List, [], ◌∷◌, ◌++◌,
  arith, length, length-append, Str, str_eq, str_eq_self,
}
use stowage.Base.Dict.{lookup, lookup-insert, lookup-delete}
use stowage.Base.Int64.{sign_bit, add64-small}
use stowage.Quotas.{
  Service, Usage, Page, Lister, cache_key, get, scan, scan_pages, add_sizes, store_usage,
}

unfoldable pub sum : List ℕ → ℕ
sum [] = 0
sum (x ∷ xs) = x + sum xs

sum-append : (xs ys : List ℕ) → sum (xs ++ ys) ≡ sum xs + sum ys
unfolding sum
sum-append [] ys = omega arith
sum-append (x ∷ xs) ys = omega (arith, sum-append xs ys)

-- From a token the backend answers with so many pages, which hold these sizes.
pub data Lists (list : Lister) (bucket : Str) : Str → ℕ → List ℕ → Type 0 where
  last :
      {token : Str} {page : Page}
      → list bucket token ≡ some page
      → (not page.is_truncated || str_eq page.next_token []) ≡ true
      → Lists list bucket token 1 page.sizes
  more :
      {token : Str} {page : Page} {n : ℕ} {sizes : List ℕ}
      → list bucket token ≡ some page
      → (not page.is_truncated || str_eq page.next_token []) ≡ false
      → Lists list bucket page.next_token n sizes
      → Lists list bucket token (suc n) (page.sizes ++ sizes)

abbrev plus : ℕ × ℕ → List ℕ → ℕ × ℕ
plus (bytes, count) sizes = (bytes + sum sizes, count + length sizes)

plus-append : (t : ℕ × ℕ) (xs ys : List ℕ) → plus (plus t xs) ys ≡ plus t (xs ++ ys)
plus-append (b, c) xs ys = ground (arith, sum-append xs ys, length-append xs ys)

-- Within the range of int64, the two loops over a page add its sizes and their number.
add_sizes-plus :
    (t : ℕ × ℕ) (sizes : List ℕ)
    → t.0 + sum sizes < sign_bit
    → t.1 + length sizes < sign_bit
    → add_sizes t sizes ≡ plus t sizes
unfolding add_sizes sum
add_sizes-plus (b, c) [] h k = ground arith
add_sizes-plus (b, c) (x ∷ xs) h k =
    rw (add64-small b x (omega arith), add64-small c 1 (omega arith))
      (add_sizes-plus (b + x, c + 1) xs (omega arith) (omega arith) ∙ ground arith)

module _ {list : Lister} {bucket : Str} where
  -- With a request for every page the loop ends, with the totals of all pages.
  scan_pages-Lists :
      {token : Str} {n : ℕ} {sizes : List ℕ}
      → Lists list bucket token n sizes
      → (rounds : ℕ) (t : ℕ × ℕ) → n ≤ rounds
      → t.0 + sum sizes < sign_bit
      → t.1 + length sizes < sign_bit
      → scan_pages rounds list bucket token t ≡ some (plus t sizes)
  unfolding scan_pages
  scan_pages-Lists (last e d) zero t h k m = absurd (omega arith)
  scan_pages-Lists (last {page = page} e d) (suc rounds) t h k m =
      ground (arith, add_sizes-plus t page.sizes k m)
  scan_pages-Lists (more e d r) zero t h k m = absurd (omega arith)
  scan_pages-Lists (more {page = page} {sizes = sizes} e d r) (suc rounds) t h k m = ground (
    arith,
    add_sizes-plus t page.sizes (omega (arith, sum-append page.sizes sizes))
        (omega (arith, length-append page.sizes sizes)),
    scan_pages-Lists r rounds (plus t page.sizes) (omega arith)
        (omega (arith, sum-append page.sizes sizes))
        (omega (arith, length-append page.sizes sizes)),
    plus-append t page.sizes sizes,
  )

-- If the backend lists the bucket in at most as many pages as the deadline leaves requests for,
-- and the totals fit int64, Scan returns the sum and the number of all object sizes, stores
-- them as the bucket's cached usage, and forgets an earlier failure.
pub scan-Lists :
    (s : Service) (rounds now n : ℕ) (backend bucket : Str) (list : Lister) (sizes : List ℕ)
    → s.backends backend ≡ some list
    → Lists list bucket [] n sizes
    → n ≤ rounds
    → sum sizes < sign_bit
    → length sizes < sign_bit
    → let usage : Usage = record {
      bytes = sum sizes;
      object_count = length sizes;
      computed_at = now;
    } in
      let s' = (scan s rounds now backend bucket).0 in
      ((scan s rounds now backend bucket).1 ≡ some usage)
      × (get s' backend bucket ≡ some usage)
      × (lookup (cache_key backend bucket) s'.failed_scans ≡ none)
unfolding scan store_usage get
scan-Lists s rounds now n backend bucket list sizes hb hl h k m =
    let totals = scan_pages-Lists hl rounds (0, 0) h (omega arith) (omega arith) in
    (
      ground (arith, totals),
      ground (
        arith,
        totals,
        str_eq_self (cache_key backend bucket),
        lookup-insert (cache_key backend bucket) (cache_key backend bucket)
            (record { bytes = sum sizes; object_count = length sizes; computed_at = now }) s.cache,
      ),
      ground (
        arith,
        totals,
        str_eq_self (cache_key backend bucket),
        lookup-delete (cache_key backend bucket) (cache_key backend bucket) s.failed_scans,
      ),
    )
