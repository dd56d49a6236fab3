-- ===== src/Pipeline/Capturing.antt =====
-- src/main.cpp, the producer thread of `run_pipeline`: each step is up to one access to a ring buffer or
-- a flag, with the work of its own before or after it; the count of a frame pushed is a step of its own.
use v4l2_capture.Prelude.{ℕ, ◌+◌, ◌-◌, min, Bool, true, false, ltb, if◌then◌else◌, ◌∷◌, [], ◌++◌}
use v4l2_capture.Ring.{push}
use v4l2_capture.Recovery.{CaptureErrorKind, timeout, temporary_unavailable}
use v4l2_capture.Recovery.{
  CaptureRecovery, Decision, nothing, recover, suppressed_by_cooldown, suppressed_by_budget,
  observe,
}
use v4l2_capture.Recovery.{
  should_reinitialize, begin_recovery_attempt, on_capture_success, on_recovery_success,
  on_invalid_frame_recovery_success, on_external_recovery_success,
}
use v4l2_capture.Sender.{
  Frame, Usability, usable, is_frame_usable, has_v4l2_buffer_error, is_incomplete_yuyv_frame,
}
use v4l2_capture.Pipeline.{
  Settings, blank_frame, moved_frame, Shared, Producer, ProducerAt, frame_test, capturing, counting,
  rebuilding, sleeping,
}
use v4l2_capture.Pipeline.{opening, not_rebuilt, aborting, producer_ending, producer_exited}

-- What `capture_frame_copy` gives: a frame, a `CameraCaptureError`, or another exception.
pub data Capture : Type 0 where
  got_frame : Frame → Capture
  capture_error : CaptureErrorKind → Capture
  capture_threw : Capture

-- What the camera does in a step: a call of `capture_frame_copy`, and whether it can be built again.
pub record CameraAnswer : Type 0 where
  pub capture : Capture
  pub rebuilds : Bool

-- `kSliceMs`
abbrev pub slice_limit_ms : ℕ
slice_limit_ms = 50

abbrev pub is_usable : Usability → Bool
is_usable usable = true
is_usable _ = false

-- What follows from the decision, after the frame is pushed and counted.
unfoldable pub decided : Settings → Decision → Producer → Producer
decided c nothing p = record p { at = frame_test }
decided c recover p =
    if c.recovery_enabled
    then record p {
      at = rebuilding true;
      camera_invalid_frame_recoveries = p.camera_invalid_frame_recoveries + 1;
    }
    else record p { at = frame_test }
decided c suppressed_by_cooldown p = record p {
  at = frame_test;
  camera_invalid_recovery_suppressed_cooldown = p.camera_invalid_recovery_suppressed_cooldown + 1;
}
decided c suppressed_by_budget p = record p {
  at = frame_test;
  camera_invalid_recovery_suppressed_budget = p.camera_invalid_recovery_suppressed_budget + 1;
}

-- A frame was captured, and is pushed.
unfoldable pub take_frame : Frame → Producer → Producer
take_frame f p =
    let (decision, controller) =
      observe (is_usable (is_frame_usable f)) p.invalid_frame_controller in
    record p {
      at = counting decision;
      recovery_controller = on_capture_success p.recovery_controller;
      camera_buffer_error_frames =
          if has_v4l2_buffer_error f
          then p.camera_buffer_error_frames + 1
          else p.camera_buffer_error_frames;
      camera_incomplete_frames =
          if is_incomplete_yuyv_frame f
          then p.camera_incomplete_frames + 1
          else p.camera_incomplete_frames;
      invalid_frame_controller = controller;
      camera_consecutive_invalid_peak =
          if ltb p.camera_consecutive_invalid_peak controller.peak_invalid
          then controller.peak_invalid
          else p.camera_consecutive_invalid_peak;
      captured_frames = p.captured_frames ++ (f ∷ []);
    }

-- The frame is counted after the push.
unfoldable pub count_captured : Settings → Decision → Producer → Producer
unfolding decided
count_captured c decision p =
    decided c decision (record p { produced = p.produced + 1; captured = p.captured + 1 })

unfoldable pub count_error : CaptureErrorKind → Producer → Producer
count_error timeout p = record p { camera_capture_timeouts = p.camera_capture_timeouts + 1 }
count_error temporary_unavailable p = record p {
  camera_temporary_unavailable = p.camera_temporary_unavailable + 1;
}
count_error _ p = record p { camera_device_errors = p.camera_device_errors + 1 }

unfoldable pub take_error : Settings → CaptureErrorKind → Producer → Producer
unfolding count_error
take_error c kind p =
    let (should, controller) = should_reinitialize kind p.recovery_controller in
    let counted = record (count_error kind p) { recovery_controller = controller } in
    if should
    then (if c.recovery_enabled
        then record counted { at = rebuilding false }
        else record counted { at = aborting })
    else record counted { at = frame_test }

-- `recovery_controller.begin_recovery_attempt()`, in the test of the loop of `rebuild_camera`.
unfoldable pub begun : Settings → Bool → Bool × CaptureRecovery → Producer → Producer
begun c trigger (false, controller) p = record p {
  at = not_rebuilt;
  recovery_controller = controller;
}
begun c trigger (true, controller) p = record p {
  at = sleeping trigger c.recovery_retry_delay_ms;
  recovery_controller = controller;
  camera_recovery_attempts = p.camera_recovery_attempts + 1;
}

-- One slice of `sleep_interruptibly`, or its end, after `stop_requested` was read.
unfoldable pub slept : Bool → ℕ → Bool → Producer → Producer
slept trigger remaining_ms true p = record p { at = not_rebuilt }
slept trigger remaining_ms false p =
    if ltb 0 remaining_ms
    then record p { at = sleeping trigger (remaining_ms - min remaining_ms slice_limit_ms) }
    else record p { at = opening trigger }

unfoldable pub opened : Bool → Bool → Producer → Producer
opened trigger true p = record p {
  at = frame_test;
  camera_recovery_successes = p.camera_recovery_successes + 1;
  reconnect_count = p.reconnect_count + 1;
  recovery_controller = on_recovery_success p.recovery_controller;
  invalid_frame_controller =
      if trigger
      then on_invalid_frame_recovery_success p.invalid_frame_controller
      else on_external_recovery_success p.invalid_frame_controller;
}
opened trigger false p = record p {
  at = rebuilding trigger;
  camera_recovery_failures = p.camera_recovery_failures + 1;
}

unfoldable pub after_capture : Settings → Capture → Shared → Producer → Shared × Producer
unfolding take_frame take_error
after_capture c (got_frame f) s p =
    (record s { ring = push blank_frame moved_frame f s.ring }, take_frame f p)
after_capture c (capture_error kind) s p = (s, take_error c kind p)
after_capture c capture_threw s p = (s, record p { at = aborting })

unfoldable pub producer_at :
    Settings → CameraAnswer → ProducerAt → Shared → Producer → Shared × Producer
unfolding after_capture count_captured begun slept opened
producer_at c answer frame_test s p =
    if ltb p.produced c.frame_count
    then (if s.stop_requested
        then (s, record p { at = producer_ending })
        else (s, record p { at = capturing }))
    else (s, record p { at = producer_ending })
producer_at c answer capturing s p = after_capture c answer.capture s p
producer_at c answer (counting decision) s p = (s, count_captured c decision p)
producer_at c answer (rebuilding trigger) s p =
    if s.stop_requested
    then (s, record p { at = not_rebuilt })
    else (s, begun c trigger (begin_recovery_attempt p.recovery_controller) p)
producer_at c answer (sleeping trigger remaining_ms) s p =
    (s, slept trigger remaining_ms s.stop_requested p)
producer_at c answer (opening trigger) s p = (s, opened trigger answer.rebuilds p)
producer_at c answer not_rebuilt s p =
    if s.stop_requested then (s, record p { at = frame_test }) else (s, record p { at = aborting })
producer_at c answer aborting s p =
    (record s { stop_requested = true }, record p { at = producer_ending; producer_error = true })
producer_at c answer producer_ending s p =
    (record s { producer_done = true }, record p { at = producer_exited })
producer_at c answer producer_exited s p = (s, p)

unfoldable pub producer_moves : Settings → CameraAnswer → Shared → Producer → Shared × Producer
unfolding producer_at
producer_moves c answer s p = producer_at c answer p.at s p
