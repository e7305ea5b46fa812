-- ===== src/Quotas/Unscanned.antt =====
-- Which buckets Unscanned of internal/quotas/quotas.go lists.
use stowage.Base.{
  ℕ, ◌≡◌, sym, ap, subst, ◌⊎◌, inl, inr, none, List, [], ◌∷◌, arith, Option-cases, All, Str,
  cut_sound, cut,
}
use stowage.Base.Dict.{Dict, lookup}
use mathlib.Core.List.{Memᴰ}
use stowage.Quotas.{Usage, Service, cache_key}
use stowage.Quotas.Dashboard.{UnscannedBucket, unscanned_from, unscanned}

-- A bucket without usage in the cache, whose failed scan is recorded.
pub IsUnscanned : Dict Usage → Dict ℕ → UnscannedBucket → Type 0
IsUnscanned cache failed b =
    (lookup (cache_key b.backend_id b.bucket) cache ≡ none)
    × Memᴰ (cache_key b.backend_id b.bucket, b.failed_at) failed

later-IsUnscanned :
    (cache : Dict Usage) (failed : Dict ℕ) (entry : Str × ℕ) (bs : List UnscannedBucket)
    → All (IsUnscanned cache failed) bs
    → All (IsUnscanned cache (entry ∷ failed)) bs
unfolding IsUnscanned
later-IsUnscanned cache failed entry [] h = tt
later-IsUnscanned cache failed entry (b ∷ bs) ((new, m), h) =
    ((new, Memᴰ.tail m), later-IsUnscanned cache failed entry bs h)

unscanned_from-cases :
    (cache : Dict Usage) (failed : Dict ℕ) (k : Str) (t : ℕ)
    → (unscanned_from cache ((k, t) ∷ failed) ≡ unscanned_from cache failed)
      ⊎ ((owner : Str) × (bucket : Str) × (k ≡ cache_key owner bucket)
          × (lookup k cache ≡ none)
          × (unscanned_from cache ((k, t) ∷ failed)
              ≡ record { backend_id = owner; bucket = bucket; failed_at = t }
                ∷ unscanned_from cache failed))
unfolding unscanned_from cache_key
unscanned_from-cases cache failed k t = elim (Option-cases (cut b'/' k)) [
  | inl e ↦ inl (ground arith)
  | inr ((owner, bucket), e) ↦ elim (Option-cases (lookup k cache)) [
    | inl f ↦ inr (owner, bucket, (cut_sound b'/' k owner bucket e).0, f, ground arith)
    | inr (u, f) ↦ inl (ground arith)
  ]
]

unscanned_from-IsUnscanned :
    (cache : Dict Usage) (failed : Dict ℕ)
    → All (IsUnscanned cache failed) (unscanned_from cache failed)
unscanned_from-IsUnscanned cache [] = unfold unscanned_from in tt
unscanned_from-IsUnscanned cache ((k, t) ∷ failed) = elim (unscanned_from-cases cache failed k t) [
  | inl e ↦ subst (All (IsUnscanned cache ((k, t) ∷ failed))) (sym e) (
      later-IsUnscanned cache failed (k, t) (unscanned_from cache failed)
        (unscanned_from-IsUnscanned cache failed))
  | inr (owner, bucket, e, f, g) ↦ subst (All (IsUnscanned cache ((k, t) ∷ failed))) (sym g) (
    first owner bucket e f,
    later-IsUnscanned cache failed (k, t) (unscanned_from cache failed)
        (unscanned_from-IsUnscanned cache failed),
  )
]
  where
    first :
        (owner bucket : Str)
        → k ≡ cache_key owner bucket
        → lookup k cache ≡ none
        → IsUnscanned cache
            ((k, t) ∷ failed)
            (record { backend_id = owner; bucket = bucket; failed_at = t })
    first owner bucket e f =
        unfold IsUnscanned in
        (subst (λ x. lookup x cache ≡ none) e f, Memᴰ.head (ap (λ x. (x, t)) (sym e)))

-- Every bucket that the dashboard lists as unscanned has no usage in the cache, and a scan of it is
-- recorded as failed at the time shown.
pub unscanned-IsUnscanned : (s : Service) → All (IsUnscanned s.cache s.failed_scans) (unscanned s)
unscanned-IsUnscanned s = unscanned_from-IsUnscanned s.cache s.failed_scans
