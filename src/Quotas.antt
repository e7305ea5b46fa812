-- ===== src/Quotas.antt =====
-- internal/quotas/quotas.go: the quota service. Usage and limits are int64 bit patterns, times are
-- numbers, and the maps under the service's mutex are dictionaries. `Check` is about CheckUpload,
-- `Scan` about the listing loop, `Ranking` about TopBuckets; `Dashboard`
-- has the other reports, which `Totals` and `Unscanned` are about.
pub mod Check
pub mod Enforce
pub mod Scan
pub mod Ranking
pub mod Dashboard
pub mod Totals
pub mod Unscanned
mod Examples
use mathlib.Core.List.{reverse}
use stowage.Base.{
  ℕ, zero, suc, ◌+◌, ◌-◌, ◌*◌, ◌/◌, ◌%◌, ◌^◌, ◌≤◌, ◌<◌, ◌≡◌, refl, sym, ap, subst, ◌∙◌, ◌≢◌, ◌↔◌,
  ◌⊎◌, inl, inr, Bool, true, false, not, ◌&&◌, ◌||◌, Option, none, some, List, [], ◌∷◌, ◌++◌, map,
  arith, ltb, leb, ◌==◌, if◌then◌else◌, ltb→lt, lt→ltb, leb→le, ==_iff, Bool-cases, Option-cases,
  length, take, drop, length-append, take-append-drop, take-length, drop-length, length-take,
  length-drop, all, any, keep, All, Str, codes, str_eq, str_eq_self, str_eq_sound, str_eq_iff,
  has_prefix, trim_byte, cut, lower_byte, to_lower, equal_fold, is_space, trim_left, trim_right,
  trim_space, is_newline,
}
use stowage.Base.Dict.{
  Dict, lookup, insert, delete, has, map_values, lookup-insert, lookup-delete, dict_laws,
  lookup-map_values-some, lookup-map_values-none,
}
use stowage.Base.Int64.{modulus, sign_bit, add64, lt64, lt64-small, add64-small}

pub record Usage : Type 0 where
  pub bytes : ℕ
  pub object_count : ℕ
  pub computed_at : ℕ

pub record Limit : Type 0 where
  pub soft_bytes : ℕ
  pub hard_bytes : ℕ

-- One answer of ListObjects, with the sizes of its objects.
pub record Page : Type 0 where
  pub sizes : List ℕ
  pub is_truncated : Bool
  pub next_token : Str

-- ListObjects of a registered backend, at a bucket and a continuation token; `none` is an error.
abbrev pub Lister : Type 0
Lister = Str → Str → Option Page

pub record Service : Type 0 where
  pub limits : Str → Str → Option Limit
  pub backends : Str → Option Lister
  pub cache : Dict Usage
  pub failed_scans : Dict ℕ
  pub inline_scans : Dict Bool

pub data Verdict : Type 0 where
  allowed exceeded : Verdict

-- ten minutes, in seconds
abbrev pub sync_scan_backoff : ℕ
sync_scan_backoff = 600

pub cache_key : Str → Str → Str
cache_key backend bucket = backend ++ b'/' ∷ bucket

pub get : Service → Str → Str → Option Usage
get s backend bucket = lookup (cache_key backend bucket) s.cache

-- The two loops over a page: `bytes += o.Size; count++`.
pub add_sizes : ℕ × ℕ → List ℕ → ℕ × ℕ
add_sizes (bytes, count) [] = (bytes, count)
add_sizes (bytes, count) (size ∷ rest) = add_sizes (add64 bytes size, add64 count 1) rest

-- The loop of Scan. The fuel is the number of requests that the context's deadline leaves time
-- for: with none left, ListObjects fails.
pub scan_pages : ℕ → Lister → Str → Str → ℕ × ℕ → Option (ℕ × ℕ)
scan_pages zero list bucket token totals = none
scan_pages (suc rounds) list bucket token totals = elim (list bucket token) [
  | none ↦ none
  | some page ↦
      let totals' = add_sizes totals page.sizes in
      let rest = scan_pages rounds list bucket page.next_token totals' in
      if not page.is_truncated || str_eq page.next_token [] then some totals' else rest
]

store_usage : Service → Str → Usage → Service
store_usage s key usage = record s {
  cache = insert key usage s.cache;
  failed_scans = delete key s.failed_scans;
}

pub scan : Service → ℕ → ℕ → Str → Str → Service × Option Usage
unfolding store_usage
scan s rounds now backend bucket = elim (s.backends backend) [
  | none ↦ (s, none)
  | some list ↦ elim (scan_pages rounds list bucket [] (0, 0)) [
    | none ↦ (s, none)
    | some (bytes, count) ↦
        let usage : Usage = record { bytes = bytes; object_count = count; computed_at = now } in
        (store_usage s (cache_key backend bucket) usage, some usage)
  ]
]

pub in_sync_scan_backoff : Service → ℕ → Str → Str → Bool
in_sync_scan_backoff s now backend bucket =
    elim (lookup (cache_key backend bucket) s.failed_scans) [
      | none ↦ false
      | some t ↦ ltb (now - t) sync_scan_backoff
    ]

-- The claimed service, or `none` if another upload scans the bucket already.
pub begin_inline_scan : Service → Str → Str → Option Service
begin_inline_scan s backend bucket =
    if has (cache_key backend bucket) s.inline_scans
    then none
    else some (record s { inline_scans = insert (cache_key backend bucket) true s.inline_scans })

pub end_inline_scan : Service → Str → Str → Service
end_inline_scan s backend bucket = record s {
  inline_scans = delete (cache_key backend bucket) s.inline_scans;
}

pub mark_sync_scan_failed : Service → ℕ → Str → Str → Service
mark_sync_scan_failed s now backend bucket = record s {
  failed_scans = insert (cache_key backend bucket) now s.failed_scans;
}

-- `usage.Bytes+addBytes > limit.HardBytes`
pub over : Usage → ℕ → Limit → Verdict
over usage add limit = if lt64 limit.hard_bytes (add64 usage.bytes add) then exceeded else allowed

pub check_unscanned : Service → ℕ → ℕ → Str → Str → ℕ → Limit → Service × Verdict
check_unscanned s rounds now backend bucket add limit = elim (begin_inline_scan s backend bucket) [
  | none ↦ (s, allowed)
  | some claimed ↦
      let (scanned, usage) = scan claimed rounds now backend bucket in
      elim usage [
        | none ↦ (
          end_inline_scan (mark_sync_scan_failed scanned now backend bucket) backend bucket,
          allowed,
        )
        | some u ↦ (end_inline_scan scanned backend bucket, over u add limit)
      ]
]

pub check_upload : Service → ℕ → ℕ → Str → Str → ℕ → Service × Verdict
unfolding check_unscanned
check_upload s rounds now backend bucket add = elim (s.limits backend bucket) [
  | none ↦ (s, allowed)
  | some limit ↦
      if not (lt64 0 limit.hard_bytes) then (s, allowed) else elim (get s backend bucket) [
        | some usage ↦ (s, over usage add limit)
        | none ↦
            if in_sync_scan_backoff s now backend bucket
            then (s, allowed)
            else check_unscanned s rounds now backend bucket add limit
      ]
]

pub bump : ℕ → Usage → Usage
bump add u = record u { bytes = add64 u.bytes add; object_count = add64 u.object_count 1 }

pub recorded : Service → Str → Str → ℕ → Service
unfolding bump
recorded s backend bucket add = elim (get s backend bucket) [
  | none ↦ s
  | some u ↦ record s { cache = insert (cache_key backend bucket) (bump add u) s.cache }
]

pub record BucketUsage : Type 0 where
  pub backend_id : Str
  pub bucket : Str
  pub usage : Usage

-- `indexOfSlash` and the two slices; a key with no slash gives no row.
pub row : Str → Usage → Option BucketUsage
row key u = elim (cut b'/' key) [
  | none ↦ none
  | some (backend, bucket) ↦ some (record { backend_id = backend; bucket = bucket; usage = u })
]

pub rows : Dict Usage → List BucketUsage
unfolding row
rows [] = []
rows ((key, u) ∷ m) = elim (row key u) [ none ↦ rows m | some r ↦ r ∷ rows m ]

-- The inner loop of the insertion sort, on the sorted part read backwards: the new row moves past
-- every row that is smaller.
pub sift : BucketUsage → List BucketUsage → List BucketUsage
sift x [] = x ∷ []
sift x (y ∷ ys) = if lt64 y.usage.bytes x.usage.bytes then y ∷ sift x ys else x ∷ y ∷ ys

pub sort_onto : List BucketUsage → List BucketUsage → List BucketUsage
unfolding sift
sort_onto sorted [] = sorted
sort_onto sorted (x ∷ xs) = sort_onto (sift x sorted) xs

pub top_buckets : Service → ℕ → List BucketUsage
unfolding rows sort_onto
top_buckets s n =
    let sorted = reverse (sort_onto [] (rows s.cache)) in
    if ltb 0 n && ltb n (length sorted) then take n sorted else sorted
