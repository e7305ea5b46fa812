-- ===== src/Quotas/Examples.antt =====
-- The quota theorems at concrete inputs.
use stowage.Base.{
  ◌-◌, ◌^◌, ◌≡◌, refl, true, false, none, some, [], ◌∷◌, arith, if◌then◌else◌, Str, codes, str_eq,
  cut,
}
use stowage.Base.Dict.{lookup, insert, delete}
use stowage.Base.Int64.{add64, lt64}
use stowage.Quotas.{
  Service, Usage, Limit, allowed, exceeded, Lister, cache_key, get, scan, over, check_upload,
  check_unscanned, scan_pages, add_sizes, store_usage, begin_inline_scan, end_inline_scan,
  in_sync_scan_backoff,
}
use stowage.Quotas.Check.{check_upload-wraps}
use stowage.Quotas.Dashboard.{usages_of}
use stowage.Quotas.Enforce.{uploads, IsWithin, uploads-IsWithin}
use stowage.Quotas.Scan.{Lists, last, more, scan-Lists, sum}

abbrev main_backend : Str
main_backend = codes "main"

abbrev photos : Str
photos = codes "photos"

abbrev two_pages : Lister
two_pages bucket token =
    if str_eq token []
    then some (record { sizes = 40 ∷ 20 ∷ []; is_truncated = true; next_token = codes "b" })
    else some (record { sizes = 30 ∷ []; is_truncated = false; next_token = [] })

abbrev hundred : Limit
hundred = record { soft_bytes = 0; hard_bytes = 100 }

abbrev ninety : Usage
ninety = record { bytes = 90; object_count = 3; computed_at = 5 }

abbrev fresh : Service
fresh = record {
  limits = λ b k. some hundred;
  backends = λ b. if str_eq b main_backend then some two_pages else none;
  cache = [];
  failed_scans = [];
  inline_scans = [];
}

abbrev scanned : Service
scanned = record fresh { cache = (cache_key main_backend photos, ninety) ∷ [] }

two_pages-Lists : Lists two_pages photos [] 2 (40 ∷ 20 ∷ 30 ∷ [])
unfolding str_eq
two_pages-Lists =
    more {page = record { sizes = 40 ∷ 20 ∷ []; is_truncated = true; next_token = codes "b" }} refl
      refl
      (last {page = record { sizes = 30 ∷ []; is_truncated = false; next_token = [] }} refl refl)

scanned-get : get scanned main_backend photos ≡ some ninety
unfolding get cache_key lookup str_eq
scanned-get = refl

check_upload-wraps_example :
    (check_upload scanned 9 60 main_backend photos (2 ^ 63 - 1)).1 ≡ allowed
check_upload-wraps_example =
    check_upload-wraps scanned 9 60 main_backend photos (2 ^ 63 - 1) ninety hundred refl scanned-get
      (omega arith) (omega arith) (omega arith) (omega arith)

inline_refusal : (check_upload fresh 9 60 main_backend photos 11).1 ≡ exceeded
unfolding check_upload check_unscanned scan scan_pages add_sizes store_usage begin_inline_scan
    end_inline_scan over get cache_key lookup insert delete str_eq add64 lt64 in_sync_scan_backoff
inline_refusal = refl

uploads-IsWithin_example : IsWithin main_backend photos hundred (
    uploads scanned main_backend photos (
      record { at = 60; rounds = 9; size = 10; stored = true }
      ∷ record { at = 61; rounds = 9; size = 1; stored = true }
      ∷ []))
uploads-IsWithin_example =
    uploads-IsWithin main_backend photos hundred (omega arith) scanned
      (record { at = 60; rounds = 9; size = 10; stored = true }
        ∷ record { at = 61; rounds = 9; size = 1; stored = true }
        ∷ [])
      (omega arith, (omega arith, tt))
      (record { used = ninety; limited = refl; cached = scanned-get; bounded = omega arith })

scan-Lists_example :
    (scan fresh 9 60 main_backend photos).1
    ≡ some (record { bytes = 90; object_count = 3; computed_at = 60 })
unfolding str_eq sum
scan-Lists_example =
    (scan-Lists fresh 9 60 2 main_backend photos two_pages (40 ∷ 20 ∷ 30 ∷ []) refl two_pages-Lists
      (omega arith) (omega arith) (omega arith)).0

one_usage : usages_of main_backend scanned.cache ≡ ninety ∷ []
unfolding usages_of cache_key cut str_eq
one_usage = refl

abbrev failing : Service
failing = record scanned { failed_scans = (codes "main/logs", 60) ∷ [] }
