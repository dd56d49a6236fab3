-- ===== src/Pipeline/Threads.antt =====
-- src/main.cpp, `run_pipeline`: its checks, the start of the threads, and their steps in any order.
pub mod Rings
pub mod Produces
pub mod Deeds
pub mod Consumes
pub mod Transmits
pub mod Accounts
pub mod Complete
pub mod Order
pub mod Sent
pub mod Drains
pub mod Ends
use v4l2_capture.Prelude.{
  ℕ, Bool, true, false, ◌||◌, List, [], ◌∷◌, Option, none, some, if◌then◌else◌,
}
use v4l2_capture.Prelude.Int.{ℤ, is_nonpositive, is_negative, to_nat}
use v4l2_capture.Ring.{RingBuffer, create}
use v4l2_capture.Recovery.{
  CaptureRecovery, InvalidFrameRecovery, create_capture_recovery, create_invalid_frame_recovery,
}
use v4l2_capture.Sender.{Frame}
use v4l2_capture.Pipeline.{
  Settings, blank_frame, moved_frame, Shared, Producer, frame_test, Consumer, stop_test,
  Transmitter, consumer_test, sender_exited,
}
use v4l2_capture.Pipeline.Capturing.{CameraAnswer, producer_moves}
use v4l2_capture.Pipeline.Consuming.{SaveAnswer, consumer_moves}
use v4l2_capture.Pipeline.Sending.{NetAnswer, transmitter_moves}

pub record Pipeline : Type 0 where
  pub shared : Shared
  pub producer : Producer
  pub consumer : Consumer
  pub transmitter : Transmitter

-- Which thread takes its next step, and what it meets there.
pub data Event : Type 0 where
  producer_runs : CameraAnswer → Event
  consumer_runs : SaveAnswer → Event
  transmitter_runs : NetAnswer → Event

unfoldable pub step : Settings → Event → Pipeline → Pipeline
step c (producer_runs answer) s =
    let (shared', producer') = producer_moves c answer s.shared s.producer in
    record s { shared = shared'; producer = producer' }
step c (consumer_runs throws) s =
    let (shared', consumer') = consumer_moves c throws s.shared s.consumer in
    record s { shared = shared'; consumer = consumer' }
step c (transmitter_runs net) s =
    let (shared', transmitter') = transmitter_moves c net s.shared s.transmitter in
    record s { shared = shared'; transmitter = transmitter' }

-- An interleaving of the threads.
unfoldable pub run : Settings → List Event → Pipeline → Pipeline
unfolding step
run c [] s = s
run c (e ∷ es) s = run c es (step c e s)

-- The arguments that `run_pipeline` checks.
pub record Arguments : Type 0 where
  pub frame_count : ℤ
  pub ring_capacity : ℤ
  pub tcp_queue_capacity : ℤ
  pub tcp_connect_max_attempts : ℤ
  pub tcp_connect_retry_delay_ms : ℤ
  pub tcp_send_timeout_ms : ℤ
  pub camera_timeout_recovery_threshold : ℤ
  pub camera_invalid_frame_recovery_threshold : ℤ
  pub camera_invalid_frame_recovery_cooldown_frames : ℤ
  pub camera_invalid_frame_recovery_max_count : ℤ
  pub camera_recovery_max_attempts : ℤ
  pub camera_recovery_retry_delay_ms : ℤ

-- The arguments that it passes on, and the descriptor of the connection.
pub record Choices : Type 0 where
  pub pipeline_save : Bool
  pub save_limit : ℤ
  pub tcp_enabled : Bool
  pub connected_tcp_fd : ℤ
  pub ticks_per_ms : ℕ
  pub camera_recovery_enabled : Bool

-- The checks at the top: `true` is an exception.
pub is_refused : Arguments → Bool
is_refused a =
    is_nonpositive a.frame_count
    || is_nonpositive a.ring_capacity
    || is_nonpositive a.tcp_queue_capacity
    || is_nonpositive a.tcp_connect_max_attempts
    || is_negative a.tcp_connect_retry_delay_ms
    || is_nonpositive a.tcp_send_timeout_ms
    || (is_nonpositive a.camera_timeout_recovery_threshold
        || is_nonpositive a.camera_invalid_frame_recovery_threshold
        || is_negative a.camera_invalid_frame_recovery_cooldown_frames
        || is_nonpositive a.camera_invalid_frame_recovery_max_count
        || is_nonpositive a.camera_recovery_max_attempts
        || is_negative a.camera_recovery_retry_delay_ms)

unfoldable pub settings_of : Arguments → Choices → Settings
settings_of a o = record {
  frame_count = to_nat a.frame_count;
  pipeline_save = o.pipeline_save;
  save_limit = o.save_limit;
  tcp_enabled = o.tcp_enabled;
  connected_tcp_fd = o.connected_tcp_fd;
  tcp_send_timeout_ms = to_nat a.tcp_send_timeout_ms;
  ticks_per_ms = o.ticks_per_ms;
  recovery_enabled = o.camera_recovery_enabled;
  recovery_retry_delay_ms = to_nat a.camera_recovery_retry_delay_ms;
}

-- The threads at their start. The sender is not started without a connection.
unfoldable pub started :
    Bool → RingBuffer Frame → RingBuffer Frame → CaptureRecovery → InvalidFrameRecovery → Pipeline
started tcp_enabled ring tcp_ring recovery invalid_frame = record {
  shared = record {
    ring = ring;
    tcp_ring = tcp_ring;
    producer_done = false;
    consumer_done = false;
    stop_requested = false;
  };
  producer = record {
    at = frame_test;
    recovery_controller = recovery;
    invalid_frame_controller = invalid_frame;
    produced = 0;
    captured = 0;
    camera_buffer_error_frames = 0;
    camera_incomplete_frames = 0;
    camera_consecutive_invalid_peak = 0;
    camera_invalid_frame_recoveries = 0;
    camera_invalid_recovery_suppressed_cooldown = 0;
    camera_invalid_recovery_suppressed_budget = 0;
    camera_capture_timeouts = 0;
    camera_temporary_unavailable = 0;
    camera_device_errors = 0;
    camera_recovery_attempts = 0;
    camera_recovery_successes = 0;
    camera_recovery_failures = 0;
    reconnect_count = 0;
    producer_error = false;
    captured_frames = [];
  };
  consumer = record {
    at = stop_test;
    consumed = 0;
    consumed_bytes = 0;
    invalid = 0;
    saved = 0;
    tcp_queued = 0;
    consumer_error = false;
    saved_frames = [];
  };
  transmitter = record {
    at = if tcp_enabled then consumer_test else sender_exited;
    tcp_sent = 0;
    tcp_sent_bytes = 0;
    tcp_send_errors = 0;
    tcp_send_timeouts = 0;
    tcp_send_cancellations = 0;
    sent_frames = [];
    wire = [];
  };
}

infixl 20 ◌>>=◌
abbrev pub ◌>>=◌ {ℓ ℓ'} : {A : Type ℓ} {B : Type ℓ'} → Option A → (A → Option B) → Option B
none >>= f = none
some a >>= f = f a

-- `run_pipeline` up to the start of its threads; `none` is an exception.
unfoldable pub launch : Arguments → Choices → Option Pipeline
unfolding is_refused started
launch a o = if is_refused a then none else do
  ring ← create blank_frame moved_frame (to_nat a.ring_capacity)
  tcp_ring ← create blank_frame moved_frame (to_nat a.tcp_queue_capacity)
  recovery ←
      create_capture_recovery a.camera_timeout_recovery_threshold a.camera_recovery_max_attempts
  invalid_frame ←
      create_invalid_frame_recovery a.camera_invalid_frame_recovery_threshold
        a.camera_invalid_frame_recovery_cooldown_frames a.camera_invalid_frame_recovery_max_count
  some (started o.tcp_enabled ring tcp_ring recovery invalid_frame)
