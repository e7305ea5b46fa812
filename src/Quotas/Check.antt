-- ===== src/Quotas/Check.antt =====
-- CheckUpload and Recorded (internal/quotas/quotas.go): the hard quota, failing open, the slot of
-- the inline scan, and the back-off after a failed one.
use stowage.Base.{
  ℕ, ◌+◌, ◌≤◌, ◌<◌, ◌≡◌, refl, ◌↔◌, inl, inr, true, Option, some, arith, Option-cases, Str,
  str_eq_self, str_eq_iff,
}
use stowage.Base.Dict.{insert, has, lookup-insert, lookup-delete}
use stowage.Base.Int64.{sign_bit, add64, lt64, lt64-small, add64-small}
use stowage.Quotas.{
  Service, Usage, Limit, allowed, exceeded, cache_key, get, scan, begin_inline_scan,
  end_inline_scan, mark_sync_scan_failed, over, check_unscanned, check_upload, store_usage,
}

-- What a usage, a limit and an upload have to satisfy for int64 not to overflow.
pub record Fits (used add hard : ℕ) : Type 0 where
  pub positive : 0 < hard
  pub hard_fits : hard < sign_bit
  pub sum_fits : used + add < sign_bit

over_iff :
    (u : Usage) (l : Limit) (add : ℕ)
    → Fits u.bytes add l.hard_bytes
    → (over u add l ≡ allowed) ↔ (u.bytes + add ≤ l.hard_bytes)
unfolding over
over_iff u l add f = ground (
  arith,
  add64-small u.bytes add f.sum_fits,
  lt64-small l.hard_bytes (u.bytes + add) f.hard_fits f.sum_fits,
)

module _ (s : Service) (rounds now : ℕ) (backend bucket : Str) (add : ℕ) where
  -- On a bucket with a cached usage and a hard quota, where no sum overflows, CheckUpload passes
  -- exactly if the projected total is within the quota, and it changes nothing.
  pub check_upload-cached :
      (u : Usage) (l : Limit)
      → s.limits backend bucket ≡ some l
      → get s backend bucket ≡ some u
      → Fits u.bytes add l.hard_bytes
      → (((check_upload s rounds now backend bucket add).1 ≡ allowed)
          ↔ (u.bytes + add ≤ l.hard_bytes))
        × ((check_upload s rounds now backend bucket add).0 ≡ s)
  unfolding check_upload
  check_upload-cached u l hl hu f =
      ground (arith, over_iff u l add f, lt64-small 0 l.hard_bytes (omega arith) f.hard_fits)

  -- The int64 sum wraps: an upload that takes a cached usage past 2 ^ 63 - 1 is let through
  -- whatever the hard quota is.
  pub check_upload-wraps :
      (u : Usage) (l : Limit)
      → s.limits backend bucket ≡ some l
      → get s backend bucket ≡ some u
      → l.hard_bytes < sign_bit
      → u.bytes < sign_bit
      → add < sign_bit
      → sign_bit ≤ u.bytes + add
      → (check_upload s rounds now backend bucket add).1 ≡ allowed
  unfolding check_upload over add64 lt64
  check_upload-wraps u l hl hu h1 h2 h3 h4 = ground arith

  -- What a scan returns, it has also put into the cache.
  scan-get :
      (r : Service × Option Usage) (u : Usage)
      → scan s rounds now backend bucket ≡ r
      → r.1 ≡ some u
      → get r.0 backend bucket ≡ some u
  unfolding scan store_usage get
  scan-get r u e h = ground (
    arith,
    lookup-insert (cache_key backend bucket) (cache_key backend bucket) u s.cache,
    str_eq_self (cache_key backend bucket),
  )

module _ (s : Service) (rounds now : ℕ) (backend bucket : Str) (add : ℕ) where
  abbrev claimed : Service
  claimed = record s { inline_scans = insert (cache_key backend bucket) true s.inline_scans }

  check_unscanned-exceeded :
      (l : Limit)
      → (check_unscanned s rounds now backend bucket add l).1 ≡ exceeded
      → (u : Usage) × (get (check_unscanned s rounds now backend bucket add l).0 backend bucket
          ≡ some u)
        × (over u add l ≡ exceeded)
  unfolding check_unscanned begin_inline_scan end_inline_scan get
  check_unscanned-exceeded l h = elim (Option-cases (scan claimed rounds now backend bucket).1) [
    | inl e ↦ absurd (ground arith)
    | inr (u, e) ↦ (
      u,
      ground (
        arith,
        scan-get claimed rounds now backend bucket add (scan claimed rounds now backend bucket) u
            refl e,
      ),
      ground arith,
    )
  ]

  -- A refusal is never a guess: there is a limit, and a usage in the cache, found or just scanned,
  -- that the upload takes over it.
  pub check_upload-exceeded :
      (check_upload s rounds now backend bucket add).1 ≡ exceeded
      → (l : Limit) × (u : Usage) × (s.limits backend bucket ≡ some l)
        × (get (check_upload s rounds now backend bucket add).0 backend bucket ≡ some u)
        × (over u add l ≡ exceeded)
  unfolding check_upload
  check_upload-exceeded h = elim (Option-cases (s.limits backend bucket)) [
    | inl e ↦ absurd (ground arith)
    | inr (l, el) ↦ elim (Option-cases (get s backend bucket)) [
      | inl e ↦
          let found = check_unscanned-exceeded l (ground arith) in
          (l, found.0, el, ground (arith, found.1), found.2)
      | inr (u, e) ↦ (l, u, el, ground arith, ground arith)
    ]
  ]

module _ (s : Service) (rounds now : ℕ) (backend bucket : Str) (add : ℕ) where
  -- Every path gives the inline-scan slot back: who holds a slot is as before the call.
  pub inline_scans-check_upload :
      (key : Str)
      → has key (check_upload s rounds now backend bucket add).0.inline_scans
        ≡ has key s.inline_scans
  unfolding check_upload scan begin_inline_scan end_inline_scan mark_sync_scan_failed store_usage
  inline_scans-check_upload key = ground (
    arith,
    lookup-insert (cache_key backend bucket) key true s.inline_scans,
    lookup-delete (cache_key backend bucket) key
        (insert (cache_key backend bucket) true s.inline_scans),
    str_eq_iff (cache_key backend bucket) key,
  )
