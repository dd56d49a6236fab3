-- ===== src/Sender.antt =====
-- src/main.cpp: which captured frames are usable, how one is sent over TCP, and the attempts to
-- connect. The answer of each attempt to connect is a function of its number.
pub mod Agreement
pub mod Attempts
use v4l2_capture.Prelude.{
  ℕ, zero, suc, ◌+◌, ◌*◌, ◌%◌, ◌^◌, bit_and, Bool, true, false, ◌&&◌, ◌||◌, ltb, leb, ◌==◌, ◌!=◌,
}
use v4l2_capture.Prelude.{if◌then◌else◌, List, [], ◌∷◌, ◌++◌, Option, none, some, length}
use v4l2_capture.Prelude.Int.{ℤ, pos, is_negative, is_nonpositive, to_nat}
use v4l2_capture.Protocol.{
  FrameHeader, make_header, compute_crc32, serialize_header, pix_fmt_yuyv, u32_max,
}
use v4l2_capture.Send.{Round, Outcome, sent_all, send_all_until}

-- The fields of `Frame` that the code here reads.
pub record Frame : Type 0 where
  pub data_bytes : List ℕ
  pub width : ℕ
  pub height : ℕ
  pub pixel_format : ℕ
  pub bytesused : ℕ
  pub sequence : ℕ
  pub v4l2_flags : ℕ
  pub capture_timestamp_ns : ℕ

-- `V4L2_BUF_FLAG_ERROR` of linux/videodev2.h.
abbrev pub buf_flag_error : ℕ
buf_flag_error = 0x40

pub expected_frame_size_bytes : Frame → ℕ
expected_frame_size_bytes f =
    if f.pixel_format == pix_fmt_yuyv then f.width * f.height % 2 ^ 64 * 2 % 2 ^ 64 else 0

pub has_v4l2_buffer_error : Frame → Bool
has_v4l2_buffer_error f = bit_and f.v4l2_flags buf_flag_error != 0

pub is_incomplete_yuyv_frame : Frame → Bool
unfolding expected_frame_size_bytes
is_incomplete_yuyv_frame f =
    f.pixel_format == pix_fmt_yuyv && ltb (length f.data_bytes) (expected_frame_size_bytes f)

-- `usable`, or the reason.
pub data Usability : Type 0 where
  usable buffer_error empty_data unknown_format : Usability
  incomplete : ℕ → ℕ → Usability

unfoldable pub is_frame_usable : Frame → Usability
unfolding has_v4l2_buffer_error is_incomplete_yuyv_frame
is_frame_usable f =
    if has_v4l2_buffer_error f
    then buffer_error
    else (if length f.data_bytes == 0
        then empty_data
        else (if f.width == 0 || f.height == 0 || f.pixel_format == 0
            then unknown_format
            else (if is_incomplete_yuyv_frame f
                then incomplete (length f.data_bytes) (expected_frame_size_bytes f)
                else usable)))

-- How `send_frame_over_tcp` ends: with the number of bytes, or an exception.
pub data FrameSent : Type 0 where
  sent : ℕ → FrameSent
  payload_too_large missing_timestamp : FrameSent
  send_threw : Outcome → FrameSent

-- The header that goes out for a frame.
pub header_of : Frame → FrameHeader
header_of f =
    make_header f.sequence f.capture_timestamp_ns f.width f.height f.pixel_format
      (length f.data_bytes % 2 ^ 32) (compute_crc32 f.data_bytes)

-- The second call of `send_all_until`, after the first.
abbrev pub after_header_sent : Outcome × List ℕ → Outcome × List ℕ → ℕ → FrameSent × List ℕ
after_header_sent (sent_all, wire) (sent_all, payload) size = (sent size, wire ++ payload)
after_header_sent (sent_all, wire) (o, payload) size = (send_threw o, wire ++ payload)
after_header_sent (o, wire) _ size = (send_threw o, wire)

-- Both calls have the same deadline; each is given the rounds that it may make. The bytes that went
-- out are beside the result.
pub send_frame_over_tcp : ℕ → ℤ → Frame → ℕ → ℕ → List Round → List Round → FrameSent × List ℕ
unfolding header_of
send_frame_over_tcp ticks_per_ms fd f send_timeout_ms now header_rounds payload_rounds =
    if ltb u32_max (length f.data_bytes)
    then (payload_too_large, [])
    else (if f.capture_timestamp_ns == 0
        then (missing_timestamp, [])
        else (let wire = serialize_header (header_of f) in
            let deadline = now + send_timeout_ms * ticks_per_ms in
            after_header_sent
              (send_all_until ticks_per_ms fd (some wire) (length wire) deadline true (pos 50)
                header_rounds)
              (send_all_until ticks_per_ms fd (some f.data_bytes) (length f.data_bytes) deadline
                true (pos 50) payload_rounds)
              (length wire + length f.data_bytes)))

-- The statistics that the attempts to connect write.
pub record ConnectStats : Type 0 where
  pub tcp_connect_attempts : ℕ
  pub tcp_connect_retries : ℕ

-- An attempt gives a descriptor or throws; after the last one `none` is the exception.
abbrev pub after_attempt :
    Option ℕ → ℕ → ConnectStats → Option ℕ × ConnectStats → Option ℕ × ConnectStats
after_attempt (some fd) left stats retried = (some fd, stats)
after_attempt none zero stats retried = (none, stats)
after_attempt none (suc left) stats retried = retried

-- The loop over the attempts from number `attempt` on, with the attempts left.
pub connect_loop : (ℕ → Option ℕ) → ℕ → ℕ → ConnectStats → Option ℕ × ConnectStats
connect_loop connect zero attempt stats = (none, stats)
connect_loop connect (suc left) attempt stats =
    let begun = record stats { tcp_connect_attempts = attempt } in
    after_attempt (connect attempt) left begun (
      connect_loop connect left (attempt + 1)
        (record begun { tcp_connect_retries = stats.tcp_connect_retries + 1 }))

pub connect_to_tcp_receiver_with_retry : (ℕ → Option ℕ) → ℕ → ConnectStats → Option ℕ × ConnectStats
unfolding connect_loop
connect_to_tcp_receiver_with_retry connect max_attempts stats =
    connect_loop connect max_attempts 1 stats
