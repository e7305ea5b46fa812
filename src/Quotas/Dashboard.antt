-- ===== src/Quotas/Dashboard.antt =====
-- What internal/quotas/quotas.go shows of its maps on the dashboard: Status, Unscanned and
-- BackendTotals.
use stowage.Base.{ℕ, ◌+◌, Option, none, some, List, [], ◌∷◌, if◌then◌else◌, Str, str_eq, cut}
use stowage.Base.Dict.{Dict, lookup, insert, has}
use stowage.Base.Int64.{add64}
use stowage.Quotas.{Usage, Limit, Service, get}

pub record Status : Type 0 where
  pub limit : Option Limit
  pub usage : Option Usage

-- `Status`
abbrev pub status : Service → Str → Str → Status
status s backend bucket = record { limit = s.limits backend bucket; usage = get s backend bucket }

pub record UnscannedBucket : Type 0 where
  pub backend_id : Str
  pub bucket : Str
  pub failed_at : ℕ

-- The loop of `Unscanned` over the recorded failures.
unfoldable pub unscanned_from : Dict Usage → Dict ℕ → List UnscannedBucket
unscanned_from cache [] = []
unscanned_from cache ((k, t) ∷ failed) =
    let rest = unscanned_from cache failed in
    if has k cache then rest else elim (cut b'/' k) [
      | none ↦ rest
      | some (backend, bucket) ↦
          record { backend_id = backend; bucket = bucket; failed_at = t } ∷ rest
    ]

abbrev pub unscanned : Service → List UnscannedBucket
unscanned s = unscanned_from s.cache s.failed_scans

pub record BackendTotal : Type 0 where
  pub backend_id : Str
  pub bytes : ℕ
  pub objects : ℕ
  pub buckets : ℕ

abbrev pub add_usage : Usage → BackendTotal → BackendTotal
add_usage u row = record row {
  bytes = add64 row.bytes u.bytes;
  objects = add64 row.objects u.object_count;
  buckets = row.buckets + 1;
}

-- The row of a backend, a new one where the map has none.
abbrev pub row_or_new : Str → Option BackendTotal → BackendTotal
row_or_new id none = record { backend_id = id; bytes = 0; objects = 0; buckets = 0 }
row_or_new id (some row) = row

-- The loop of `BackendTotals`.
unfoldable pub totals_from : Dict BackendTotal → Dict Usage → Dict BackendTotal
totals_from out [] = out
totals_from out ((k, u) ∷ cache) = elim (cut b'/' k) [
  | none ↦ totals_from out cache
  | some (id, bucket) ↦
      totals_from (insert id (add_usage u (row_or_new id (lookup id out))) out) cache
]

abbrev pub backend_totals : Service → Dict BackendTotal
backend_totals s = totals_from [] s.cache

-- The usages of the buckets of one backend.
unfoldable pub usages_of : Str → Dict Usage → List Usage
usages_of id [] = []
usages_of id ((k, u) ∷ cache) =
    let rest = usages_of id cache in
    elim (cut b'/' k) [
      | none ↦ rest
      | some (owner, bucket) ↦ if str_eq owner id then u ∷ rest else rest
    ]

unfoldable pub sum_of : (Usage → ℕ) → List Usage → ℕ
sum_of f [] = 0
sum_of f (u ∷ us) = f u + sum_of f us
