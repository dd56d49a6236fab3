-- ===== src/Loopback.antt =====
-- src/tcp_sender.cpp: the test sender. It makes YUYV test frames, can damage one of them or a header,
-- and sends them over one connection. Its arguments are `int`s up to 1000000.
pub mod Faults
pub mod Wire
pub mod Delivery
use v4l2_capture.Prelude.{
  ℕ, zero, suc, ◌+◌, ◌*◌, ◌/◌, ◌%◌, ◌^◌, ◌-◌, bit_xor, Bool, true, false, ◌==◌, ◌!=◌, leb, ltb,
}
use v4l2_capture.Prelude.{
  if◌then◌else◌, List, [], ◌∷◌, ◌++◌, Option, none, some, length, get_or, set,
}
use v4l2_capture.Prelude.Int.{ℤ, pos, is_nonpositive, to_nat}
use v4l2_capture.Protocol.{
  FrameHeader, make_header, compute_crc32, serialize_header, pix_fmt_yuyv,
  default_max_payload_bytes,
}
use v4l2_capture.Send.{Round, Outcome, sent_all, send_all_until, send_all_with_timeout}

-- The inner loop of `make_test_yuyv_payload`, with the pairs of pixels left.
pub test_row : ℕ → ℕ → ℕ → ℕ → List ℕ
test_row zero x y frame_id = []
test_row (suc n) x y frame_id =
    (x + frame_id * 3) % 256
    ∷ 128
    ∷ (x + y + frame_id * 3) % 256
    ∷ 128
    ∷ test_row n (x + 2) y frame_id

pub test_rows : ℕ → ℕ → ℕ → ℕ → List ℕ
unfolding test_row
test_rows zero pairs y frame_id = []
test_rows (suc n) pairs y frame_id =
    test_row pairs 0 y frame_id ++ test_rows n pairs (y + 1) frame_id

-- `none` is a `std::invalid_argument`.
pub make_test_yuyv_payload : ℤ → ℤ → ℕ → Option (List ℕ)
unfolding test_rows
make_test_yuyv_payload width height frame_id =
    if is_nonpositive width
    then none
    else (if is_nonpositive height
        then none
        else (if to_nat width % 2 != 0
            then none
            else some (test_rows (to_nat height) (to_nat width / 2) 0 frame_id)))

-- The values of `--header-fault`; another text is `unsupported`.
pub data Fault : Type 0 where
  bad_magic bad_version bad_header_size zero_width oversized_payload : Fault
  yuyv_size_mismatch unsupported : Fault

-- `none` is an exception. The version is a 16-bit integer.
unfoldable pub apply_header_fault : Fault → FrameHeader → Option FrameHeader
apply_header_fault bad_magic h = some (record h { magic = bit_xor h.magic 1 })
apply_header_fault bad_version h = some (record h { version = (h.version + 1) % 2 ^ 16 })
apply_header_fault bad_header_size h = some (record h { header_size = 1 })
apply_header_fault zero_width h = some (record h { width = 0 })
apply_header_fault oversized_payload h =
    some (record h { payload_size = (default_max_payload_bytes + 1) % 2 ^ 32 })
apply_header_fault yuyv_size_mismatch h =
    if leb h.payload_size 2 then none else some (record h { payload_size = h.payload_size - 2 })
apply_header_fault unsupported h = none

-- `payload[payload.size() / 2] ^= 0x01`, on a payload that is not empty.
pub corrupt : List ℕ → Option (List ℕ)
corrupt payload =
    if length payload == 0
    then none
    else some (set payload (length payload / 2) (bit_xor (get_or payload (length payload / 2) 0) 1))

-- What the sender is told to send.
pub record Orders : Type 0 where
  pub fd : ℤ
  pub frames : ℕ
  pub width : ℤ
  pub height : ℤ
  pub send_timeout_ms : ℕ
  pub ticks_per_ms : ℕ
  pub corrupt_frame_id : Option ℕ
  pub header_fault : Option Fault

-- What the clocks and the connection do for a frame.
pub record Weather : Type 0 where
  pub now_ns : ℕ
  pub now : ℕ
  pub header_rounds : List Round
  pub payload_rounds : List Round

-- The header made for a frame.
pub test_header : Orders → ℕ → ℕ → List ℕ → FrameHeader
test_header o i now_ns payload =
    make_header i now_ns (to_nat o.width) (to_nat o.height) pix_fmt_yuyv (length payload % 2 ^ 32)
      (compute_crc32 payload)

-- How the loop of `main` ends: it is done, or an exception comes out.
pub data LoopResult : Type 0 where
  done : LoopResult
  fault_needs_one_frame invalid_argument bad_fault empty_payload : LoopResult
  send_threw : Outcome → LoopResult

-- The second send of a frame, after the first, with what comes next.
unfoldable pub after_header :
    Outcome × List ℕ → Outcome × List ℕ → LoopResult × List ℕ → LoopResult × List ℕ
after_header (sent_all, front) (sent_all, back) (result, rest) = (result, front ++ (back ++ rest))
after_header (sent_all, front) (o, back) _ = (send_threw o, front ++ back)
after_header (o, front) _ _ = (send_threw o, front)

-- The one send of a damaged header.
pub after_fault : Outcome × List ℕ → LoopResult × List ℕ
after_fault (sent_all, wire) = (done, wire)
after_fault (o, wire) = (send_threw o, wire)

-- The payload that goes out for frame `i`.
unfoldable pub damaged : Option ℕ → ℕ → List ℕ → Option (List ℕ)
unfolding corrupt
damaged none i payload = some payload
damaged (some k) i payload = if i == k then corrupt payload else some payload

unfoldable pub send_frame :
    Orders → Weather → FrameHeader → Option (List ℕ) → LoopResult × List ℕ → LoopResult × List ℕ
unfolding after_header
send_frame o w h none rest = (empty_payload, [])
send_frame o w h (some payload) rest =
    let wire = serialize_header h in
    let deadline = w.now + o.send_timeout_ms * o.ticks_per_ms in
    after_header
      (send_all_until o.ticks_per_ms o.fd (some wire) (length wire) deadline false (pos 50)
        w.header_rounds)
      (send_all_until o.ticks_per_ms o.fd (some payload) (length payload) deadline false (pos 50)
        w.payload_rounds)
      rest

send_fault : Orders → Weather → Option FrameHeader → LoopResult × List ℕ
unfolding after_fault
send_fault o w none = (bad_fault, [])
send_fault o w (some h) =
    let wire = serialize_header h in
    after_fault (
      send_all_with_timeout o.ticks_per_ms o.fd (some wire) (length wire) (pos o.send_timeout_ms)
        w.now false (pos 50) w.header_rounds)

-- One round of the loop, with what the next rounds give.
unfoldable pub one_frame :
    Orders
    → Weather
    → ℕ
    → Option Fault
    → Option (List ℕ)
    → LoopResult × List ℕ
    → LoopResult × List ℕ
unfolding send_frame send_fault
one_frame o w i fault none rest = (invalid_argument, [])
one_frame o w i (some fault) (some payload) rest =
    send_fault o w (apply_header_fault fault (test_header o i w.now_ns payload))
one_frame o w i none (some payload) rest =
    send_frame o w (test_header o i w.now_ns payload) (damaged o.corrupt_frame_id i payload) rest

-- The loop of `main` from frame `i` on, with the frames left: how it ends, and the bytes that went out.
unfoldable pub send_frames : Orders → (ℕ → Weather) → ℕ → ℕ → LoopResult × List ℕ
unfolding one_frame
send_frames o weather zero i = (done, [])
send_frames o weather (suc n) i =
    one_frame o (weather i) i o.header_fault (make_test_yuyv_payload o.width o.height i)
      (send_frames o weather n (i + 1))

-- The check of the arguments, and the loop.
pub send_test_frames : Orders → (ℕ → Weather) → LoopResult × List ℕ
unfolding send_frames
send_test_frames o weather = elim o.header_fault [
  | none ↦ send_frames o weather o.frames 0
  | some fault ↦
      if o.frames != 1 then (fault_needs_one_frame, []) else send_frames o weather o.frames 0
]
