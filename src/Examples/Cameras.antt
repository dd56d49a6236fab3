-- ===== src/Examples/Cameras.antt =====
-- A camera with two buffers, whose driver fills the first after an interrupted `poll`.
use v4l2_capture.Prelude.{◌≡◌, refl, true, false, [], ◌∷◌}
use v4l2_capture.Protocol.{pix_fmt_yuyv}
use v4l2_capture.Recovery.{CaptureRecovery}
use v4l2_capture.Camera.{Camera, Driver, eintr, poll_failed, events, dequeued, capture_frame_copy}
use v4l2_capture.Camera.{dequeue_frame, after_dequeue, check_buffer, copy_frame, requeue_buffer}
use v4l2_capture.Camera.Ownership.{capture_frame_copy-keeps_buffers}

abbrev camera : Camera
camera = record {
  is_open = true;
  buffer_lengths = 4 ∷ 4 ∷ [];
  streaming = true;
  current_width = 2;
  current_height = 1;
  current_pixelformat = pix_fmt_yuyv;
  with_driver = true ∷ true ∷ [];
}

abbrev driver : Driver
driver = record {
  polls = poll_failed eintr ∷ events false false true ∷ [];
  dequeue = dequeued (record {
    index = 0;
    bytesused = 4;
    sequence = 7;
    flags = 0;
    memory = 16 ∷ 128 ∷ 235 ∷ 128 ∷ [];
  });
  requeue_works = true;
  capture_timestamp_ns = 9;
}

abbrev controller : CaptureRecovery
controller = record {
  timeout_threshold = 3;
  max_recovery_attempts = 2;
  consecutive_timeouts = 0;
  recovery_attempts = 0;
}

capture_frame_copy_example : (capture_frame_copy driver camera).1 ≡ camera
unfolding capture_frame_copy dequeue_frame after_dequeue check_buffer copy_frame requeue_buffer
capture_frame_copy_example =
    capture_frame_copy-keeps_buffers controller driver camera (capture_frame_copy driver camera).1
      (capture_frame_copy driver camera).0 (λ h. refl) refl tt
