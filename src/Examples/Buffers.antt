-- ===== src/Examples/Buffers.antt =====
-- The ring buffer of include/ring_buffer.hpp with two slots.
use v4l2_capture.Prelude.{ℕ, ◌+◌, ◌≡◌, refl, List, [], ◌∷◌, length, some, arith}
use v4l2_capture.Ring.{RingBuffer, create}
use v4l2_capture.Ring.Inv.{IsValid}
use v4l2_capture.Ring.Refine.{contents}
use v4l2_capture.Ring.Runs.{
  Call, pushes, pops, run, run_queue, pushed, popped, run_refines, run_account,
}

abbrev clear : ℕ → ℕ
clear x = 0

abbrev full : RingBuffer ℕ
full = record { buffer = 5 ∷ 6 ∷ []; read_index = 1; write_index = 1; size = 2; dropped_count = 3 }

abbrev new : RingBuffer ℕ
new = record { buffer = 0 ∷ 0 ∷ []; read_index = 0; write_index = 0; size = 0; dropped_count = 0 }

abbrev calls : List (Call ℕ)
calls = pushes 1 ∷ pushes 2 ∷ pushes 3 ∷ pops ∷ []

full-IsValid : IsValid full
full-IsValid = record {
  bounded = omega arith;
  read_in = omega arith;
  size_in = omega arith;
  write_at = refl;
}

run_refines_example :
    let (outs, r') = run 0 clear calls full in
    (outs, contents 0 clear r') ≡ run_queue (length full.buffer) calls (contents 0 clear full)
run_refines_example = run_refines 0 clear calls full full-IsValid

created : create 0 clear 2 ≡ some new
unfolding create
created = refl

run_account_example :
    let (outs, r') = run 0 clear calls new in
    pushed calls ≡ popped outs + r'.size + r'.dropped_count
run_account_example = run_account 0 clear calls 2 new created (omega arith) (omega arith)
