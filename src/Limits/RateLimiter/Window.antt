-- ===== src/Limits/RateLimiter/Window.antt =====
-- How many calls internal/auth/ratelimit.go lets through in a window.
use stowage.Base.{
  ℕ, ◌≤◌, ◌<◌, ◌≡◌, refl, sym, ap, subst, ◌∙◌, inl, inr, Bool, true, false, ◌&&◌, List, [], ◌∷◌,
  ◌++◌, arith, leb, if◌then◌else◌, Bool-cases, length, length-append, Str, str_eq, str_eq_self,
  str_eq_sound,
}
use stowage.Base.Dict.{lookup}
use mathlib.Core.List.{append_assoc, append-nil}
use stowage.Limits.RateLimiter.{RateLimiter, new_rate_limiter, prune, events_of, allow}
use stowage.Limits.RateLimiter.Buckets.{
  live, live-append, live-le-length, prune-split, allow-events, allow-limits,
}

module _ (hash : Str → ℕ) where
  -- Calls of `Allow`, at times that do not go back, and the times of those let through for one key.
  pub data Calls (r₀ : RateLimiter) (key : Str) : List ℕ → ℕ → RateLimiter → Type 0 where
    start : Calls r₀ key [] 0 r₀
    call :
        {passed : List ℕ} {last : ℕ} {r : RateLimiter} (now : ℕ) (j : Str)
        → Calls r₀ key passed last r
        → last ≤ now
        → Calls r₀ key
            (passed ++ (if str_eq j key && (allow hash now j r).0 then now ∷ [] else []))
            now
            (allow hash now j r).1

  -- What the bucket of the key knows of the calls that passed.
  IsTracked : ℕ → ℕ → Str → List ℕ → ℕ → RateLimiter → Type 0
  IsTracked max window key passed last r =
      (r.max ≡ max)
      × (r.window ≡ window)
      × (length (events_of hash key r) ≤ max)
      × ((dead : List ℕ) × (passed ≡ dead ++ events_of hash key r)
          × ((later : ℕ) → last ≤ later → live window later dead ≡ 0))

  -- The bucket after a call for the key itself, let through or not.
  called-IsTracked :
      (max window : ℕ) (key : Str) (passed : List ℕ) (last now : ℕ) (r : RateLimiter)
      → IsTracked max window key passed last r
      → last ≤ now
      → IsTracked max window key
          (passed ++ (if (allow hash now key r).0 then now ∷ [] else []))
          now
          (allow hash now key r).1
  unfolding IsTracked
  called-IsTracked max window key passed last now r (m, w, bound, (dead, split, gone)) h =
      let (expired, parts, gone') = prune-split r.window now (events_of hash key r) in
      let kept = prune r.window now (events_of hash key r) in
      let shorter = length-append expired kept in
      let regrouped : passed ≡ (dead ++ expired) ++ kept =
        split ∙ ap (λ x. dead ++ x) parts ∙ sym (append_assoc dead expired kept) in
      let counted : (later : ℕ) → now ≤ later → live window later (dead ++ expired) ≡ 0 = λ later g.
        ground (
          arith,
          live-append window later dead expired,
          gone later (omega arith),
          sym (ap (λ x. live x later expired) w),
          gone' later g,
        ) in
      (
        (allow-limits hash now key r).0 ∙ m,
        (allow-limits hash now key r).1 ∙ w,
        elim (Bool-cases (leb r.max (length kept))) [
          | inl e ↦ omega (arith, ap length (unchanged e), ap length parts, shorter, bound)
          | inr e ↦ omega (arith, ap length (extended e), length-append kept (now ∷ []), room e, m)
        ],
        (
          dead ++ expired,
          elim (Bool-cases (leb r.max (length kept))) [
            | inl e ↦
                ap (λ b. passed ++ (if b then now ∷ [] else [])) (refused e)
                ∙ append-nil passed
                ∙ regrouped
                ∙ ap (λ x. (dead ++ expired) ++ x) (sym (unchanged e))
            | inr e ↦
                ap (λ b. passed ++ (if b then now ∷ [] else [])) (granted e)
                ∙ ap (λ x. x ++ now ∷ []) regrouped
                ∙ append_assoc (dead ++ expired) kept (now ∷ [])
                ∙ ap (λ x. (dead ++ expired) ++ x) (sym (extended e))
          ],
          counted,
        ),
      )
    where
      room :
          leb r.max (length (prune r.window now (events_of hash key r))) ≡ false
          → length (prune r.window now (events_of hash key r)) < r.max
      room e = ground arith

      refused :
          leb r.max (length (prune r.window now (events_of hash key r))) ≡ true
          → (allow hash now key r).0 ≡ false
      refused e = unfold allow in ground arith

      granted :
          leb r.max (length (prune r.window now (events_of hash key r))) ≡ false
          → (allow hash now key r).0 ≡ true
      granted e = unfold allow in ground arith

      unchanged :
          leb r.max (length (prune r.window now (events_of hash key r))) ≡ true
          → events_of hash key (allow hash now key r).1 ≡ prune r.window now (events_of hash key r)
      unchanged e = ground (arith, allow-events hash now key key r, str_eq_self key)

      extended :
          leb r.max (length (prune r.window now (events_of hash key r))) ≡ false
          → events_of hash key (allow hash now key r).1
            ≡ prune r.window now (events_of hash key r) ++ now ∷ []
      extended e = ground (arith, allow-events hash now key key r, str_eq_self key)

  other-IsTracked :
      (max window : ℕ) (key j : Str) (passed : List ℕ) (last now : ℕ) (r : RateLimiter)
      → str_eq j key ≡ false
      → IsTracked max window key passed last r
      → last ≤ now
      → IsTracked max window key (passed ++ []) now (allow hash now j r).1
  unfolding IsTracked
  other-IsTracked max window key j passed last now r e (m, w, bound, (dead, split, gone)) h = (
    (allow-limits hash now j r).0 ∙ m,
    (allow-limits hash now j r).1 ∙ w,
    ground (arith, bound, same),
    (
      dead,
      append-nil passed ∙ split ∙ ap (λ x. dead ++ x) (sym same),
      λ later g. gone later (omega arith),
    ),
  )
    where
      same : events_of hash key (allow hash now j r).1 ≡ events_of hash key r
      same = ground (arith, allow-events hash now j key r)

  start-IsTracked :
      (max window : ℕ) (key : Str) → IsTracked max window key [] 0 (new_rate_limiter max window)
  unfolding IsTracked events_of lookup live
  start-IsTracked max window key = (refl, refl, omega arith, ([], refl, λ later h. refl))

  Calls-IsTracked :
      (max window : ℕ) (key : Str) {passed : List ℕ} {last : ℕ} {r : RateLimiter}
      → Calls (new_rate_limiter max window) key passed last r
      → IsTracked max window key passed last r
  Calls-IsTracked max window key Calls.start = start-IsTracked max window key
  Calls-IsTracked max window key
        (Calls.call {passed = passed} {last = last} {r = r} now j calls h) =
      elim (Bool-cases (str_eq j key)) [
        | inl e ↦
            subst (λ k. After (str_eq k key) k) (sym (str_eq_sound j key e))
              (subst (λ b. After b key) (sym (str_eq_self key))
                (called-IsTracked max window key passed last now r
                  (Calls-IsTracked max window key calls) h))
        | inr e ↦
            subst (λ b. After b j) (sym e)
              (other-IsTracked max window key j passed last now r e
                (Calls-IsTracked max window key calls) h)
      ]
    where
      After : Bool → Str → Type 0
      After b k =
          IsTracked max window key
            (passed ++ (if b && (allow hash now k r).0 then now ∷ [] else [])) now
            (allow hash now k r).1

  -- However calls for any keys follow one another, of those let through for a key at most Max are in
  -- any window that ends after the last call.
  pub allow-IsLimited :
      (max window : ℕ) (key : Str) (passed : List ℕ) (last later : ℕ) (r : RateLimiter)
      → Calls (new_rate_limiter max window) key passed last r
      → last ≤ later
      → live window later passed ≤ max
  unfolding IsTracked
  allow-IsLimited max window key passed last later r calls h =
      let (m, w, bound, (dead, split, gone)) = Calls-IsTracked max window key calls in
      omega (
        arith,
        ap (live window later) split,
        live-append window later dead (events_of hash key r),
        gone later h,
        live-le-length window later (events_of hash key r),
        bound,
      )
