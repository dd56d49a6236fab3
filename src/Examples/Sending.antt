-- ===== src/Examples/Sending.antt =====
-- A buffer of three bytes that `send` takes in two pieces, with a deadline at tick 50.
use v4l2_capture.Prelude.{
  ℕ, ◌+◌, ◌*◌, ◌≤◌, ◌<◌, ◌≡◌, ◌≢◌, ◌↔◌, ◌⊎◌, inl, inr, [], ◌∷◌, ◌++◌, drop, length, false, some,
  arith,
}
use v4l2_capture.Prelude.Int.{pos}
use v4l2_capture.Send.{
  Round, Job, took, poll_expired, sent_all, unfinished, send_all_until, send_loop,
  remaining_wait_ms, int_max, round,
}
use v4l2_capture.Send.Delivery.{Obeys, Reports, send_all_until_delivers}
use v4l2_capture.Send.Deadline.{send_loop_ends, remaining_wait_ms_bounds}

abbrev at_tick : ℕ → Round
at_tick t = record {
  stop_before = false;
  now_before = t;
  send_answer = took 1;
  stop_after = false;
  now_after = t;
  poll_answer = poll_expired;
}

abbrev job : Job
job = record {
  bytes = 1 ∷ 2 ∷ 3 ∷ [];
  deadline = 50;
  stop_given = false;
  poll_slice = 5;
  ticks_per_ms = 1;
}

obeyed : Obeys job 0 (at_tick 10 ∷ [])
unfolding round
obeyed = (omega arith, tt)

send_all_until_delivers_example :
    let (o, wire) =
      send_all_until 1 (pos 4) (some (1 ∷ 2 ∷ 3 ∷ [])) 3 50 false (pos 5) (at_tick 10 ∷ []) in
    (wire ++ drop (length wire) (1 ∷ 2 ∷ 3 ∷ []) ≡ 1 ∷ 2 ∷ 3 ∷ [])
    × Reports o (length wire) 3
    × ((o ≡ sent_all) ↔ (wire ≡ 1 ∷ 2 ∷ 3 ∷ []))
send_all_until_delivers_example =
    send_all_until_delivers 1 4 4 (1 ∷ 2 ∷ 3 ∷ []) 50 false (at_tick 10 ∷ []) obeyed

send_loop_ends_example : (send_loop job 0 (at_tick 10 ∷ at_tick 60 ∷ [])).0 ≢ unfinished
send_loop_ends_example =
    send_loop_ends job 0 (at_tick 10 ∷ at_tick 60 ∷ []) (inr (inl (omega arith)))

remaining_wait_ms_example :
    let wait = remaining_wait_ms 1 50 5 10 in
    ((50 ≤ 10) × (wait ≡ 0))
    ⊎ ((10 < 50) × (1 ≤ wait) × (wait ≤ 5) × (wait ≤ int_max) × ((wait ≡ 1) ⊎ (10 + wait * 1 ≤ 50)))
remaining_wait_ms_example = remaining_wait_ms_bounds 1 50 5 10 (omega arith)
