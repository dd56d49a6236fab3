-- ===== src/Sender/Agreement.antt =====
-- `is_frame_usable` and `header_of` of the sender against `validate_header` of the receiver.
use v4l2_capture.Sender.{is_incomplete_yuyv_frame, expected_frame_size_bytes, has_v4l2_buffer_error}
use native.Mathlib.Nat.{mul-le-mul}
use v4l2_capture.Prelude.{ℕ, ◌*◌, ◌%◌, ◌^◌, ◌≤◌, ◌<◌, ◌≡◌, ◌≢◌, length, arith}
use v4l2_capture.Protocol.{make_header, accepted, validate_header, max_dimension, pix_fmt_yuyv}
use v4l2_capture.Protocol.Validation.{IsAcceptable, validate_header_iff}
use v4l2_capture.Sender.{Frame, is_frame_usable, usable, header_of}

sendable-IsAcceptable :
    (f : Frame) (limit : ℕ)
    → is_frame_usable f ≡ usable
    → f.capture_timestamp_ns ≢ 0
    → f.width ≤ max_dimension
    → f.height ≤ max_dimension
    → length f.data_bytes ≤ limit
    → limit < 2 ^ 32
    → (f.pixel_format ≡ pix_fmt_yuyv
        → (f.width % 2 ≡ 0) × (length f.data_bytes ≤ f.width * f.height * 2))
    → IsAcceptable (header_of f) limit
unfolding is_frame_usable is_incomplete_yuyv_frame expected_frame_size_bytes has_v4l2_buffer_error
    header_of make_header
sendable-IsAcceptable f limit u t w h n l y = ground (arith, mul-le-mul w h)

-- A usable frame with a timestamp, within the limits on the dimensions and the payload, and in the
-- YUYV format with an even width and no bytes beyond the picture, is sent with a header that the
-- receiver's checks accept.
pub usable-accepted :
    (f : Frame) (limit : ℕ)
    → is_frame_usable f ≡ usable
    → f.capture_timestamp_ns ≢ 0
    → f.width ≤ max_dimension
    → f.height ≤ max_dimension
    → length f.data_bytes ≤ limit
    → limit < 2 ^ 32
    → (f.pixel_format ≡ pix_fmt_yuyv
        → (f.width % 2 ≡ 0) × (length f.data_bytes ≤ f.width * f.height * 2))
    → validate_header (header_of f) limit ≡ accepted tt
usable-accepted f limit u t w h n l y =
    (validate_header_iff (header_of f) limit).1 (sendable-IsAcceptable f limit u t w h n l y)
