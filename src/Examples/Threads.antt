-- ===== src/Examples/Threads.antt =====
-- A pipeline for one frame: it is captured, consumed and sent, and the three threads leave.
use mathlib.Core.List.{Sublist}
use v4l2_capture.Prelude.{
  ℕ, ◌+◌, ◌*◌, ◌≤◌, ◌≡◌, refl, true, false, List, [], ◌∷◌, ◌++◌, some, arith, replicate,
}
use v4l2_capture.Prelude.Int.{pos, to_nat}
use v4l2_capture.Send.{Round, took, poll_expired}
use v4l2_capture.Ring.{create}
use v4l2_capture.Recovery.{create_capture_recovery, create_invalid_frame_recovery}
use v4l2_capture.Pipeline.{blank_frame, producer_exited, consumer_exited, sender_exited}
use v4l2_capture.Pipeline.Capturing.{got_frame}
use v4l2_capture.Pipeline.Threads.{
  Pipeline, Event, producer_runs, consumer_runs, transmitter_runs, step, run, Arguments, Choices,
  settings_of, launch, started,
}
use v4l2_capture.Pipeline.Threads.Accounts.{Balanced}
use v4l2_capture.Pipeline.Threads.Complete.{run_balances, run_completes}
use v4l2_capture.Pipeline.Threads.Order.{usable_frames}
use v4l2_capture.Pipeline.Threads.Sent.{run-sent_frames}
use v4l2_capture.Pipeline.Threads.Ends.{turns, consumer_turn, transmitter_turn, run-ends}
use v4l2_capture.Pipeline.Capturing.{
  producer_moves, producer_at, after_capture, take_frame, count_captured, decided,
}
use v4l2_capture.Pipeline.Consuming.{consumer_moves, consumer_at, popped, consume, passed_on}
use v4l2_capture.Pipeline.Sending.{transmitter_moves, transmitter_at}
use v4l2_capture.Recovery.{observe, observe_invalid, on_capture_success}
use v4l2_capture.Ring.{push, try_pop_oldest, empty}
use v4l2_capture.Sender.{is_frame_usable}
use v4l2_capture.Examples.Frames.{two_pixels}

abbrev arguments : Arguments
arguments = record {
  frame_count = pos 1;
  ring_capacity = pos 2;
  tcp_queue_capacity = pos 2;
  tcp_connect_max_attempts = pos 1;
  tcp_connect_retry_delay_ms = pos 0;
  tcp_send_timeout_ms = pos 100;
  camera_timeout_recovery_threshold = pos 3;
  camera_invalid_frame_recovery_threshold = pos 3;
  camera_invalid_frame_recovery_cooldown_frames = pos 0;
  camera_invalid_frame_recovery_max_count = pos 1;
  camera_recovery_max_attempts = pos 2;
  camera_recovery_retry_delay_ms = pos 100;
}

abbrev choices : Choices
choices = record {
  pipeline_save = false;
  save_limit = pos 0;
  tcp_enabled = true;
  connected_tcp_fd = pos 4;
  ticks_per_ms = 1;
  camera_recovery_enabled = true;
}

abbrev at_start : Pipeline
at_start =
    started true
      (record {
        buffer = blank_frame ∷ blank_frame ∷ [];
        read_index = 0;
        write_index = 0;
        size = 0;
        dropped_count = 0;
      })
      (record {
        buffer = blank_frame ∷ blank_frame ∷ [];
        read_index = 0;
        write_index = 0;
        size = 0;
        dropped_count = 0;
      })
      (record {
        timeout_threshold = 3;
        max_recovery_attempts = 2;
        consecutive_timeouts = 0;
        recovery_attempts = 0;
      })
      (record {
        threshold = 3;
        cooldown_frames = 0;
        max_recoveries = 1;
        consecutive_invalid = 0;
        peak_invalid = 0;
        cooldown_remaining = 0;
        recoveries_completed = 0;
        cooldown_count = 0;
        budget_count = 0;
      })

launched : launch arguments choices ≡ some at_start
unfolding launch create create_capture_recovery create_invalid_frame_recovery
launched = refl

abbrev taking_all : ℕ → Round
taking_all n = record {
  stop_before = false;
  now_before = 0;
  send_answer = took n;
  stop_after = false;
  now_after = 0;
  poll_answer = poll_expired;
}

abbrev camera_gives : Event
camera_gives = producer_runs (record { capture = got_frame two_pixels; rebuilds = true })

abbrev consumer : Event
consumer = consumer_runs false

abbrev sender : Event
sender =
    transmitter_runs
      (record { now = 0; header_rounds = taking_all 44 ∷ []; payload_rounds = taking_all 4 ∷ [] })

-- The producer takes its frame and is done; then the others have their turns.
abbrev capturing_one : List Event
capturing_one = camera_gives ∷ camera_gives ∷ camera_gives ∷ camera_gives ∷ camera_gives ∷ []

abbrev consuming : List Event
consuming = replicate 14 consumer

abbrev sending_all : List Event
sending_all = replicate 8 sender

abbrev everything : List Event
everything = capturing_one ++ (consuming ++ sending_all)

run_balances_example :
    Balanced
      (settings_of arguments choices)
      (run (settings_of arguments choices) everything at_start)
run_balances_example =
    run_balances arguments choices at_start everything (omega arith, omega arith, omega arith)
      launched

run-sent_frames_example :
    let s' = run (settings_of arguments choices) everything at_start in
    Sublist s'.transmitter.sent_frames (usable_frames s'.producer.captured_frames)
run-sent_frames_example =
    run-sent_frames arguments choices at_start everything (omega arith, omega arith, omega arith)
      launched

-- The camera gives an empty frame, which no one sends.
abbrev capturing_none : List Event
capturing_none =
    replicate 5 (producer_runs (record { capture = got_frame blank_frame; rebuilds = true }))

abbrev nothing_sent : List Event
nothing_sent = capturing_none ++ (consuming ++ sending_all)

all_left :
    let s' = run (settings_of arguments choices) nothing_sent at_start in
    (s'.producer.at ≡ producer_exited)
    × (s'.consumer.at ≡ consumer_exited)
    × (s'.transmitter.at ≡ sender_exited)
    × (s'.shared.stop_requested ≡ false)
    × (s'.transmitter.tcp_send_cancellations ≡ 0)
unfolding run step producer_moves producer_at after_capture take_frame count_captured decided
    observe observe_invalid on_capture_success push try_pop_oldest consumer_moves consumer_at popped
    consume empty is_frame_usable started settings_of transmitter_moves transmitter_at
all_left = (refl, refl, refl, refl, refl)

run_completes_example :
    let s' = run (settings_of arguments choices) nothing_sent at_start in
    (s'.producer.captured ≡ to_nat arguments.frame_count)
    × (s'.shared.ring.size ≡ 0)
    × (s'.shared.tcp_ring.size ≡ 0)
    × (s'.transmitter.tcp_send_errors ≡ 0)
    × (to_nat arguments.frame_count
        ≡ s'.consumer.invalid + s'.transmitter.tcp_sent + s'.shared.ring.dropped_count
          + s'.shared.tcp_ring.dropped_count)
run_completes_example =
    run_completes arguments choices at_start
      (run (settings_of arguments choices) nothing_sent at_start) nothing_sent
      (omega arith, omega arith, omega arith) launched refl refl all_left.0 all_left.1 all_left.2
      all_left.3 all_left.4

ready :
    let s1 = run (settings_of arguments choices) capturing_one at_start in
    let s2 = run (settings_of arguments choices) consuming s1 in
    (s1.shared.producer_done ≡ true)
    × (7 * s1.shared.ring.size + 7 ≤ turns consumer_turn consuming)
    × (4 * s2.shared.tcp_ring.size + 4 ≤ turns transmitter_turn sending_all)
unfolding run step producer_moves producer_at after_capture take_frame count_captured decided
    observe observe_invalid on_capture_success push try_pop_oldest consumer_moves consumer_at popped
    consume passed_on empty is_frame_usable started settings_of turns
ready = (refl, omega arith, omega arith)

run-ends_example :
    let s2 =
      run
        (settings_of arguments choices)
        consuming
        (run (settings_of arguments choices) capturing_one at_start) in
    (s2.consumer.at ≡ consumer_exited)
    × ((run (settings_of arguments choices) sending_all s2).transmitter.at ≡ sender_exited)
run-ends_example =
    run-ends arguments choices at_start (run (settings_of arguments choices) capturing_one at_start)
      (run (settings_of arguments choices) consuming
        (run (settings_of arguments choices) capturing_one at_start))
      capturing_one consuming sending_all (omega arith, omega arith, omega arith) launched refl refl
      ready.0 ready.1 ready.2
