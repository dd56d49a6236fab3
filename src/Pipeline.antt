-- ===== src/Pipeline.antt =====
-- src/main.cpp, `run_pipeline`: the state that the producer, the consumer and the TCP sender share, and
-- where each of the three threads is. Counters are 64-bit and count single frames, and their texts and
-- times are left out.
pub mod Capturing
pub mod Consuming
pub mod Sending
pub mod Threads
use v4l2_capture.Prelude.{ℕ, Bool, true, false, List, [], ◌∷◌}
use v4l2_capture.Prelude.Int.{ℤ}
use v4l2_capture.Ring.{RingBuffer, push, try_pop_oldest}
use v4l2_capture.Recovery.{CaptureRecovery, InvalidFrameRecovery, Decision}
use v4l2_capture.Sender.{Frame}

-- The parameters of `run_pipeline` that its threads read, the socket, and the ticks of the clock.
pub record Settings : Type 0 where
  pub frame_count : ℕ
  pub pipeline_save : Bool
  pub save_limit : ℤ
  pub tcp_enabled : Bool
  pub connected_tcp_fd : ℤ
  pub tcp_send_timeout_ms : ℕ
  pub ticks_per_ms : ℕ
  pub recovery_enabled : Bool
  pub recovery_retry_delay_ms : ℕ

-- `Frame()`, and what a move from a frame leaves.
abbrev pub blank_frame : Frame
blank_frame = record {
  data_bytes = [];
  width = 0;
  height = 0;
  pixel_format = 0;
  bytesused = 0;
  sequence = 0;
  v4l2_flags = 0;
  capture_timestamp_ns = 0;
}

abbrev pub moved_frame : Frame → Frame
moved_frame f = record f { data_bytes = [] }

pub record Shared : Type 0 where
  pub ring : RingBuffer Frame
  pub tcp_ring : RingBuffer Frame
  pub producer_done : Bool
  pub consumer_done : Bool
  pub stop_requested : Bool

-- Where the producer is: before a test of the loop, in `capture_frame_copy`, after the push of a frame
-- that it has yet to count, in `rebuild_camera` (the flag is `invalid_frame_trigger`), after it failed,
-- in the `catch`, or after the loop.
pub data ProducerAt : Type 0 where
  frame_test capturing : ProducerAt
  counting : Decision → ProducerAt
  rebuilding : Bool → ProducerAt
  sleeping : Bool → ℕ → ProducerAt
  opening : Bool → ProducerAt
  not_rebuilt aborting producer_ending producer_exited : ProducerAt

-- `captured_frames` are the frames pushed, in order.
pub record Producer : Type 0 where
  pub at : ProducerAt
  pub recovery_controller : CaptureRecovery
  pub invalid_frame_controller : InvalidFrameRecovery
  pub produced : ℕ
  pub captured : ℕ
  pub camera_buffer_error_frames : ℕ
  pub camera_incomplete_frames : ℕ
  pub camera_consecutive_invalid_peak : ℕ
  pub camera_invalid_frame_recoveries : ℕ
  pub camera_invalid_recovery_suppressed_cooldown : ℕ
  pub camera_invalid_recovery_suppressed_budget : ℕ
  pub camera_capture_timeouts : ℕ
  pub camera_temporary_unavailable : ℕ
  pub camera_device_errors : ℕ
  pub camera_recovery_attempts : ℕ
  pub camera_recovery_successes : ℕ
  pub camera_recovery_failures : ℕ
  pub reconnect_count : ℕ
  pub producer_error : Bool
  pub captured_frames : List Frame

-- The three reads of the loop's test are one by one. A frame is popped before it is counted, and
-- pushed to the TCP queue before that is counted.
pub data ConsumerAt : Type 0 where
  stop_test done_test ring_test popping consumer_waiting : ConsumerAt
  consuming queueing : Frame → ConsumerAt
  queued closing failing stopping consumer_exited : ConsumerAt

pub record Consumer : Type 0 where
  pub at : ConsumerAt
  pub consumed : ℕ
  pub consumed_bytes : ℕ
  pub invalid : ℕ
  pub saved : ℕ
  pub tcp_queued : ℕ
  pub consumer_error : Bool
  pub saved_frames : List Frame

pub data TransmitterAt : Type 0 where
  consumer_test queue_test taking sender_waiting : TransmitterAt
  sending : Frame → TransmitterAt
  giving_up sender_exited : TransmitterAt

-- `sent_frames` are the frames that were sent whole, in order, and `wire` are the bytes that went out.
pub record Transmitter : Type 0 where
  pub at : TransmitterAt
  pub tcp_sent : ℕ
  pub tcp_sent_bytes : ℕ
  pub tcp_send_errors : ℕ
  pub tcp_send_timeouts : ℕ
  pub tcp_send_cancellations : ℕ
  pub sent_frames : List Frame
  pub wire : List ℕ
