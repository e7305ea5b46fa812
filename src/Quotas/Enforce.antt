-- ===== src/Quotas/Enforce.antt =====
-- Sequences of uploads against the hard quota (internal/quotas/quotas.go, as serve of
-- internal/s3proxy/server.go calls it), and the back-off after a failed inline scan.
use stowage.Base.{
  ℕ, ◌+◌, ◌≤◌, ◌<◌, ◌≡◌, refl, ◌↔◌, inl, inr, Bool, true, false, none, some, List, [], ◌∷◌, arith,
  if◌then◌else◌, Bool-cases, All, Str, str_eq_self,
}
use stowage.Base.Dict.{insert, has, lookup-insert}
use stowage.Base.Int64.{sign_bit, lt64, add64-small}
use stowage.Quotas.{
  Service, Usage, Limit, Verdict, allowed, exceeded, sync_scan_backoff, cache_key, get, scan,
  in_sync_scan_backoff, begin_inline_scan, end_inline_scan, mark_sync_scan_failed, check_unscanned,
  check_upload, recorded, bump,
}
use stowage.Quotas.Check.{Fits, check_upload-cached}

-- One upload of `serve`: the check, and `Recorded` if it passed and the backend took the object.
pub record Upload : Type 0 where
  pub at : ℕ
  pub rounds : ℕ
  pub size : ℕ
  pub stored : Bool

settle : Service → Str → Str → Upload → Verdict → Service
settle s backend bucket up exceeded = s
settle s backend bucket up allowed = if up.stored then recorded s backend bucket up.size else s

pub upload : Service → Str → Str → Upload → Service
unfolding settle
upload s backend bucket up =
    let (checked, verdict) = check_upload s up.rounds up.at backend bucket up.size in
    settle checked backend bucket up verdict

pub uploads : Service → Str → Str → List Upload → Service
unfolding upload
uploads s backend bucket [] = s
uploads s backend bucket (up ∷ rest) = uploads (upload s backend bucket up) backend bucket rest

-- The bucket has a cached usage within its hard quota, and no upload can overflow int64.
pub record IsWithin (backend bucket : Str) (l : Limit) (s : Service) : Type 0 where
  pub used : Usage
  pub limited : s.limits backend bucket ≡ some l
  pub cached : get s backend bucket ≡ some used
  pub bounded : used.bytes ≤ l.hard_bytes

module _ (backend bucket : Str) (l : Limit) (positive : 0 < l.hard_bytes) where
  abbrev Small : Upload → Type 0
  Small up = l.hard_bytes + up.size < sign_bit

  get-recorded :
      (s : Service) (u : Usage) (add : ℕ)
      → get s backend bucket ≡ some u
      → get (recorded s backend bucket add) backend bucket ≡ some (bump add u)
  unfolding recorded get
  get-recorded s u add h = ground (
    arith,
    lookup-insert (cache_key backend bucket) (cache_key backend bucket) (bump add u) s.cache,
    str_eq_self (cache_key backend bucket),
  )

  limits-recorded : (s : Service) (add : ℕ) → (recorded s backend bucket add).limits ≡ s.limits
  unfolding recorded
  limits-recorded s add = ground arith

  settle-IsWithin :
      (s : Service) (up : Upload) (v : Verdict) (w : IsWithin backend bucket l s)
      → Small up
      → (v ≡ allowed → w.used.bytes + up.size ≤ l.hard_bytes)
      → IsWithin backend bucket l (settle s backend bucket up v)
  unfolding settle bump
  settle-IsWithin s up exceeded w small h = w
  settle-IsWithin s up allowed w small h = elim (Bool-cases up.stored) [
    | inl e ↦ rw e (record {
      used = bump up.size w.used;
      limited = rw limits-recorded w.limited;
      cached = get-recorded s w.used up.size w.cached;
      bounded = rw (add64-small w.used.bytes up.size (omega (arith, h refl))) (h refl);
    })
    | inr e ↦ rw e w
  ]

  upload-IsWithin :
      (s : Service) (up : Upload)
      → Small up
      → IsWithin backend bucket l s
      → IsWithin backend bucket l (upload s backend bucket up)
  unfolding upload
  upload-IsWithin s up small w = rw same (settle-IsWithin s up verdict w small decided.0)
    where
      verdict : Verdict
      verdict = (check_upload s up.rounds up.at backend bucket up.size).1

      fits : Fits w.used.bytes up.size l.hard_bytes
      fits = record {
        positive = positive;
        hard_fits = omega arith;
        sum_fits = omega (arith, w.bounded);
      }

      cached :
          (((verdict) ≡ allowed) ↔ (w.used.bytes + up.size ≤ l.hard_bytes))
          × ((check_upload s up.rounds up.at backend bucket up.size).0 ≡ s)
      cached =
          check_upload-cached s up.rounds up.at backend bucket up.size w.used l w.limited w.cached
            fits

      decided : (verdict ≡ allowed) ↔ (w.used.bytes + up.size ≤ l.hard_bytes)
      decided = cached.0

      same : (check_upload s up.rounds up.at backend bucket up.size).0 ≡ s
      same = cached.1

  -- However many uploads follow one another, stored or failed, the cached usage of a bucket that
  -- starts within its hard quota stays within it, if no upload is so large that int64 overflows.
  pub uploads-IsWithin :
      (s : Service) (ups : List Upload)
      → All Small ups
      → IsWithin backend bucket l s
      → IsWithin backend bucket l (uploads s backend bucket ups)
  unfolding uploads
  uploads-IsWithin s [] small w = w
  uploads-IsWithin s (up ∷ ups) small w =
      uploads-IsWithin (upload s backend bucket up) ups small.1 (upload-IsWithin s up small.0 w)

module _ (s : Service) (backend bucket : Str) (l : Limit) where
  -- After an inline scan has failed, the next ten minutes of uploads to the bucket pass with no
  -- listing and no change of state.
  pub check_upload-backoff :
      (rounds now add : ℕ)
      → s.limits backend bucket ≡ some l
      → lt64 0 l.hard_bytes ≡ true
      → get s backend bucket ≡ none
      → in_sync_scan_backoff s now backend bucket ≡ false
      → has (cache_key backend bucket) s.inline_scans ≡ false
      → (scan
          (record s { inline_scans = insert (cache_key backend bucket) true s.inline_scans })
          rounds
          now
          backend
          bucket).1
        ≡ none
      → (later rounds' add' : ℕ) → now ≤ later
      → later < now + sync_scan_backoff
      → check_upload
          (check_upload s rounds now backend bucket add).0
          rounds'
          later
          backend
          bucket
          add'
        ≡ ((check_upload s rounds now backend bucket add).0, allowed)
  unfolding check_upload check_unscanned begin_inline_scan end_inline_scan mark_sync_scan_failed
      in_sync_scan_backoff get scan
  check_upload-backoff rounds now add hl hp hc hb hs hf later rounds' add' h1 h2 = ground (
    arith,
    lookup-insert (cache_key backend bucket) (cache_key backend bucket) now s.failed_scans,
    str_eq_self (cache_key backend bucket),
  )
