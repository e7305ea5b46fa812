-- ===== src/Proxy/Upstream/Attempts.antt =====
-- How often `doUpstream` of internal/s3proxy/server.go sends a request.
use stowage.Base.{
  Fallible-cases, ok, ℕ, zero, suc, ◌≤◌, ◌<◌, ◌≡◌, refl, ap, subst, ◌∙◌, inl, inr, true, false, not,
  ◌&&◌, ◌||◌, List, ◌∷◌, arith, Bool-cases, length,
}
use stowage.Proxy.Upstream.{
  Response, Outbound, Wire, is_idempotent_method, is_stale, Sent, round_trip, is_final,
  attempts_from, do_upstream_idempotent, do_upstream_once, do_upstream,
}

unfoldable pub copies : ℕ → Outbound → List Outbound → List Outbound
copies zero out sent = sent
copies (suc n) out sent = out ∷ copies n out sent

copies-next :
    (n : ℕ) (out : Outbound) (sent : List Outbound)
    → copies n out (out ∷ sent) ≡ copies (suc n) out sent
unfolding copies
copies-next zero out sent = refl
copies-next (suc n) out sent = ap (λ l. out ∷ l) (copies-next n out sent)

-- At least one and at most so many round trips, all of one request; a response that is returned is
-- that of the last of them.
unfoldable pub Tries : ℕ → Wire → Outbound → List Outbound → Sent → Type 0
Tries high w out sent result =
    (n : ℕ) × (n < high)
    × (result.0 ≡ copies (suc n) out sent)
    × ((resp : Response)
        → result.1 ≡ ok resp
        → w.transport (length (copies n out sent)) out ≡ ok resp)

attempts_from-Tries :
    (n : ℕ) (w : Wire) (out : Outbound) (sent : List Outbound)
    → Tries (suc n) w out sent (attempts_from n w out sent)
unfolding attempts_from round_trip Tries copies
attempts_from-Tries zero w out sent = (0, omega arith, refl, λ resp e. e)
attempts_from-Tries (suc n) w out sent = elim (Bool-cases (is_final w (round_trip w out sent))) [
  | inl t ↦ rw (t, attempts_from) (0, omega arith, refl, λ resp e. e)
  | inr t ↦ elim (Bool-cases (w.pause_cut (suc (length sent)))) [
    | inl c ↦
        rw (t, attempts_from) (rw c (0, omega arith, refl, λ resp e. absurd (ground (arith, e))))
    | inr c ↦
        let (m, lt, eq, last) = attempts_from-Tries n w out (out ∷ sent) in
        rw (t, attempts_from)
          (rw c (
            suc m,
            omega (arith, lt),
            eq ∙ copies-next (suc m) out sent,
            λ resp e.
                subst (λ l. w.transport (length l) out ≡ ok resp) (copies-next m out sent)
                  (last resp e),
          ))
  ]
]

Tries-weaken :
    (low high : ℕ) (w : Wire) (out : Outbound) (sent : List Outbound) (result : Sent)
    → low ≤ high
    → Tries low w out sent result
    → Tries high w out sent result
unfolding Tries
Tries-weaken low high w out sent result h t = (t.0, omega (arith, h, t.1), t.2, t.3)

round_trip-Tries :
    (high : ℕ) (w : Wire) (out : Outbound) (sent : List Outbound)
    → 0 < high
    → Tries high w out sent (round_trip w out sent)
unfolding Tries round_trip copies
round_trip-Tries high w out sent h = (0, h, refl, λ resp e. e)

round_trip-again :
    (w : Wire) (out : Outbound) (sent : List Outbound)
    → Tries 2 w out sent (round_trip w out (round_trip w out sent).0)
unfolding Tries round_trip copies
round_trip-again w out sent = (1, omega arith, refl, λ resp e. e)

once-Tries :
    (w : Wire) (out : Outbound) (sent : List Outbound)
    → Tries 2 w out sent (do_upstream_once w out sent)
      × (out.has_body ≡ true
          → out.replayable ≡ false
          → Tries 1 w out sent (do_upstream_once w out sent))
unfolding do_upstream_once
once-Tries w out sent =
    let two = round_trip-Tries 2 w out sent (omega arith) in
    let one = round_trip-Tries 1 w out sent (omega arith) in
    elim (Fallible-cases (round_trip w out sent).1) [
      | inl (resp, e) ↦ rw (e, do_upstream_once) (two, λ b r. one)
      | inr (f, e) ↦
          elim (Bool-cases
            (w.context_done (length (round_trip w out sent).0) || not (is_stale f))) [
              | inl t ↦ rw (e, do_upstream_once) (rw t (two, λ b r. one))
              | inr t ↦ elim (Bool-cases (out.has_body && not out.replayable)) [
                | inl u ↦ rw (e, do_upstream_once) (rw t (rw u (two, λ b r. one)))
                | inr u ↦
                    rw (e, do_upstream_once)
                      (rw t (rw u (round_trip-again w out sent, λ b r. absurd (ground arith))))
              ]
            ]
    ]

-- A request is sent once at least and three times at most, twice at most if its method is not GET,
-- HEAD or DELETE, and only once if it has a body that cannot be replayed; and a response that is
-- returned is that of the last time.
pub do_upstream-Tries :
    (w : Wire) (out : Outbound) (sent : List Outbound)
    → Tries 3 w out sent (do_upstream w out sent)
      × (is_idempotent_method out.method ≡ false → Tries 2 w out sent (do_upstream w out sent))
      × (out.has_body ≡ true → out.replayable ≡ false → Tries 1 w out sent (do_upstream w out sent))
unfolding do_upstream do_upstream_idempotent
do_upstream-Tries w out sent =
    let (twice, single) = once-Tries w out sent in
    let thrice = Tries-weaken 2 3 w out sent (do_upstream_once w out sent) (omega arith) twice in
    elim (Bool-cases (is_idempotent_method out.method && not out.has_body)) [
      | inl t ↦
          rw (t, do_upstream)
            (
              attempts_from-Tries 2 w out sent,
              λ m. absurd (ground arith),
              λ b r. absurd (ground arith),
            )
      | inr t ↦ rw (t, do_upstream) (thrice, λ m. twice, single)
    ]
