-- ===== src/Examples/Frames.antt =====
-- A frame of two YUYV pixels, and a receiver that listens from the third attempt on.
use v4l2_capture.Prelude.{ℕ, ◌≡◌, refl, [], ◌∷◌, Option, none, some, arith, if◌then◌else◌, ltb}
use v4l2_capture.Protocol.{accepted, validate_header, pix_fmt_yuyv}
use v4l2_capture.Sender.{
  Frame, is_frame_usable, usable, header_of, ConnectStats, connect_to_tcp_receiver_with_retry,
}
use v4l2_capture.Sender.Agreement.{usable-accepted}
use v4l2_capture.Sender.Attempts.{Ended, connect_to_tcp_receiver_with_retry-Ended}

abbrev pub two_pixels : Frame
two_pixels = record {
  data_bytes = 16 ∷ 128 ∷ 235 ∷ 128 ∷ [];
  width = 2;
  height = 1;
  pixel_format = pix_fmt_yuyv;
  bytesused = 4;
  sequence = 7;
  v4l2_flags = 0;
  capture_timestamp_ns = 9;
}

two_pixels-usable : is_frame_usable two_pixels ≡ usable
unfolding is_frame_usable
two_pixels-usable = refl

usable-accepted_example : validate_header (header_of two_pixels) 100 ≡ accepted tt
usable-accepted_example =
    usable-accepted two_pixels 100 two_pixels-usable (λ e. omega arith) (omega arith) (omega arith)
      (omega arith) (omega arith) (λ e. (refl, omega arith))

abbrev third_time : ℕ → Option ℕ
third_time i = if ltb i 3 then none else some 5

abbrev none_yet : ConnectStats
none_yet = record { tcp_connect_attempts = 0; tcp_connect_retries = 0 }

connect_to_tcp_receiver_example :
    let (result, after) = connect_to_tcp_receiver_with_retry third_time 5 none_yet in
    Ended third_time 4 1 0 result after
connect_to_tcp_receiver_example = connect_to_tcp_receiver_with_retry-Ended third_time 4 none_yet
