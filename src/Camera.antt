-- ===== src/Camera.antt =====
-- src/camera_device.cpp: how CameraDevice takes a frame from the driver and gives the buffer back. What
-- `poll` and the ioctls VIDIOC_DQBUF and VIDIOC_QBUF answer in a call is a record.
pub mod Ownership
use v4l2_capture.Prelude.{ℕ, Bool, true, false, ◌&&◌, ◌||◌, ◌==◌, leb, ltb, not, if◌then◌else◌}
use v4l2_capture.Prelude.{List, [], ◌∷◌, length, get_or, set, take}
use v4l2_capture.Recovery.{CaptureErrorKind, timeout, temporary_unavailable, device_unavailable}
use v4l2_capture.Recovery.{stream_failure, invalid_buffer_metadata}
use v4l2_capture.Sender.{Frame}

-- The fields of `CameraDevice` that capturing uses: the lengths of the mapped buffers, and beside them
-- which of the buffers the driver has.
pub record Camera : Type 0 where
  pub is_open : Bool
  pub buffer_lengths : List ℕ
  pub streaming : Bool
  pub current_width : ℕ
  pub current_height : ℕ
  pub current_pixelformat : ℕ
  pub with_driver : List Bool

pub data CameraErrno : Type 0 where
  eintr eagain enodev enxio ebadf : CameraErrno
  another : ℕ → CameraErrno

-- `events` has POLLNVAL | POLLHUP, POLLERR and POLLIN.
pub data PollResult : Type 0 where
  poll_failed : CameraErrno → PollResult
  poll_expired : PollResult
  events : Bool → Bool → Bool → PollResult

-- `v4l2_buffer`, and what stands in the mapped memory of the buffer.
pub record Dequeued : Type 0 where
  pub index : ℕ
  pub bytesused : ℕ
  pub sequence : ℕ
  pub flags : ℕ
  pub memory : List ℕ

pub data DequeueResult : Type 0 where
  dequeue_failed : CameraErrno → DequeueResult
  dequeued : Dequeued → DequeueResult

-- What the driver and the clock do in one call.
pub record Driver : Type 0 where
  pub polls : List PollResult
  pub dequeue : DequeueResult
  pub requeue_works : Bool
  pub capture_timestamp_ns : ℕ

-- A frame, a `CameraCaptureError`, or a `std::runtime_error`; `unanswered` is no end: `poll` was
-- interrupted as often as the record has answers.
pub data CaptureResult : Type 0 where
  captured : Frame → CaptureResult
  capture_error : CaptureErrorKind → CaptureResult
  not_open not_streaming format_unknown requeue_failed unanswered : CaptureResult

-- The kind of an error of `poll` or VIDIOC_DQBUF.
kind_of : CameraErrno → CaptureErrorKind
kind_of enodev = device_unavailable
kind_of enxio = device_unavailable
kind_of ebadf = device_unavailable
kind_of _ = stream_failure

-- `VIDIOC_QBUF`; the index was checked.
unfoldable pub requeue_buffer : Bool → ℕ → Camera → Camera
requeue_buffer works index c =
    if works then record c { with_driver = set c.with_driver index true } else c

-- The end of `capture_frame_copy`, with the guard of the buffer.
unfoldable pub copy_frame : Driver → Dequeued → Camera → CaptureResult × Camera
unfolding requeue_buffer
copy_frame d b c =
    if d.requeue_works
    then (
      captured (record {
        data_bytes = take b.bytesused b.memory;
        width = c.current_width;
        height = c.current_height;
        pixel_format = c.current_pixelformat;
        bytesused = b.bytesused;
        sequence = b.sequence;
        v4l2_flags = b.flags;
        capture_timestamp_ns = d.capture_timestamp_ns;
      }),
      requeue_buffer true b.index c,
    )
    else (requeue_failed, requeue_buffer false b.index c)

-- The checks of `dequeue_frame` on the buffer that it was given.
unfoldable pub check_buffer : Driver → Dequeued → Camera → CaptureResult × Camera
unfolding copy_frame requeue_buffer
check_buffer d b c =
    if leb (length c.buffer_lengths) b.index
    then (capture_error invalid_buffer_metadata, c)
    else (if ltb (get_or c.buffer_lengths b.index 0) b.bytesused
        then (capture_error invalid_buffer_metadata, requeue_buffer d.requeue_works b.index c)
        else copy_frame d b c)

unfoldable pub after_dequeue : Driver → DequeueResult → Camera → CaptureResult × Camera
unfolding kind_of check_buffer
after_dequeue d (dequeue_failed eagain) c = (capture_error temporary_unavailable, c)
after_dequeue d (dequeue_failed e) c = (capture_error (kind_of e), c)
after_dequeue d (dequeued b) c =
    check_buffer d b (record c { with_driver = set c.with_driver b.index false })

-- `dequeue_frame` from its loop over `poll` on.
unfoldable pub dequeue_frame : Driver → List PollResult → Camera → CaptureResult × Camera
unfolding kind_of after_dequeue
dequeue_frame d [] c = (unanswered, c)
dequeue_frame d (poll_failed eintr ∷ rest) c = dequeue_frame d rest c
dequeue_frame d (poll_failed e ∷ rest) c = (capture_error (kind_of e), c)
dequeue_frame d (poll_expired ∷ rest) c = (capture_error timeout, c)
dequeue_frame d (events true error readable ∷ rest) c = (capture_error device_unavailable, c)
dequeue_frame d (events false error readable ∷ rest) c =
    if error && not readable
    then (capture_error stream_failure, c)
    else (if not readable then (capture_error stream_failure, c) else after_dequeue d d.dequeue c)

unfoldable pub capture_frame_copy : Driver → Camera → CaptureResult × Camera
unfolding dequeue_frame
capture_frame_copy d c =
    if not c.is_open
    then (not_open, c)
    else (if not c.streaming
        then (not_streaming, c)
        else (if c.current_width == 0 || c.current_height == 0 || c.current_pixelformat == 0
            then (format_unknown, c)
            else dequeue_frame d d.polls c))
