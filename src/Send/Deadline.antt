-- ===== src/Send/Deadline.antt =====
-- `send_all_until` and its deadline: the end of its loop, and the time that it waits in `poll`.
use native.Mathlib.Decide.{dec_lt}
use native.Mathlib.Nat.{div-mul-le_self, mul-le-mul_right}
use v4l2_capture.Prelude.{
  ℕ, ◌+◌, ◌-◌, ◌*◌, ◌/◌, ◌≤◌, ◌<◌, ◌≡◌, ◌≢◌, ◌⊎◌, inl, inr, ap, ◌∙◌, List, [], ◌∷◌, Bool-cases, ltb,
  arith, length,
}
use v4l2_capture.Send.{
  Round, unfinished, stop, go, Job, round, send_loop, int_max, remaining_wait_ms,
}
use v4l2_capture.Send.Delivery.{Next-cases}

-- The clock reads the deadline or later at the start of one of the rounds.
abbrev pub Expires : Job → List Round → Type 0
Expires j [] = ⊥
Expires j (r ∷ rs) = (j.deadline ≤ r.now_before) ⊎ Expires j rs

round_expired :
    (j : Job) (sent : ℕ) (r : Round) (n : ℕ) → j.deadline ≤ r.now_before → round j sent r ≢ go n
unfolding round
round_expired j sent r n h e = ground arith

round-ne-unfinished : (j : Job) (sent : ℕ) (r : Round) → round j sent r ≢ stop unfinished
unfolding round
round-ne-unfinished j sent r e = ground arith

-- The loop has ended by the first round that starts at the deadline or later, whatever the kernel,
-- `poll` and the peer answer.
pub send_loop_ends :
    (j : Job) (sent : ℕ) (rs : List Round) → Expires j rs → (send_loop j sent rs).0 ≢ unfinished
unfolding send_loop
send_loop_ends j sent [] x = absurd x
send_loop_ends j sent (r ∷ rs) x = elim (Bool-cases (ltb sent (length j.bytes))) [
  | inr e ↦ rw e (λ p. cc)
  | inl e ↦ rw e (elim (Next-cases (round j sent r)) [
    | inl (o, eq) ↦ rw eq (λ p. round-ne-unfinished j sent r (eq ∙ ap stop p))
    | inr (n, eq) ↦ rw eq (elim x [
      | inl late ↦ absurd (round_expired j sent r n late eq)
      | inr later ↦ send_loop_ends j (sent + n) rs later
    ])
  ])
]

wait-le :
    (ticks deadline slice now : ℕ)
    → 0 < slice
    → now < deadline
    → let wait = remaining_wait_ms ticks deadline slice now in
      (1 ≤ wait)
      × (wait ≤ slice)
      × (wait ≤ int_max)
      × ((wait ≡ 1) ⊎ (wait ≤ (deadline - now) / ticks))
unfolding remaining_wait_ms
wait-le ticks deadline slice now h p = ground arith

no_wait :
    (ticks deadline slice now : ℕ) → deadline ≤ now → remaining_wait_ms ticks deadline slice now ≡ 0
unfolding remaining_wait_ms
no_wait ticks deadline slice now p = ground arith

-- Before the deadline the wait is at least a millisecond, at most the slice and what an `int` holds,
-- and does not pass the deadline unless it is the least wait; at the deadline it is 0.
pub remaining_wait_ms_bounds :
    (ticks deadline slice now : ℕ)
    → 0 < slice
    → let wait = remaining_wait_ms ticks deadline slice now in
      ((deadline ≤ now) × (wait ≡ 0))
      ⊎ ((now < deadline)
          × (1 ≤ wait)
          × (wait ≤ slice)
          × (wait ≤ int_max)
          × ((wait ≡ 1) ⊎ (now + wait * ticks ≤ deadline)))
remaining_wait_ms_bounds ticks deadline slice now h = elim (dec_lt now deadline) [
  | no p ↦ inl (omega arith, no_wait ticks deadline slice now (omega arith))
  | yes p ↦
      let (low, in_slice, in_int, short) = wait-le ticks deadline slice now h p in
      inr (
        p,
        low,
        in_slice,
        in_int,
        elim short [
          | inl one ↦ inl one
          | inr le ↦
              inr (omega (arith, mul-le-mul_right ticks le, div-mul-le_self (deadline - now) ticks))
        ],
      )
]
