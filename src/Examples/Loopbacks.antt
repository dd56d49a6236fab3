-- ===== src/Examples/Loopbacks.antt =====
-- A header of the test sender for a picture of two pixels, with its magic damaged.
use native.Mathlib.Nat.{le_refl}
use mathlib.Core.Option.{some-injective}
use v4l2_capture.Prelude.{ℕ, false, true, List, [], ◌∷◌, ◌++◌, none, length, ap, sym, ◌∙◌}
use v4l2_capture.Prelude.Int.{pos}
use v4l2_capture.Protocol.{serialize_header}
use v4l2_capture.Protocol.RoundTrip.{length-serialize_header}
use v4l2_capture.Send.{
  Round, Outcome, took, poll_expired, sent_all, send_all_until, send_loop, round,
}
use v4l2_capture.Server.{session_loop, over, fresh}
use v4l2_capture.Loopback.{
  Orders, Weather, LoopResult, done, test_header, make_test_yuyv_payload, damaged, after_header,
  send_frame, one_frame, send_frames,
}
use v4l2_capture.Loopback.Wire.{Obedient, test_frames}
use v4l2_capture.Loopback.Delivery.{
  IsSendable, pixels, payload_made, length-pixels, session_loop-send_frames,
}
use v4l2_capture.Examples.Connections.{memory, memory-Streams, options, fuel}
use v4l2_capture.Prelude.{◌≡◌, ◌≢◌, refl, some, bit_xor, arith}
use v4l2_capture.Protocol.{
  FrameHeader, make_header, accepted, validate_header, default_max_payload_bytes, pix_fmt_yuyv,
}
use v4l2_capture.Protocol.Validation.{validate_header_iff}
use v4l2_capture.Loopback.{bad_magic, apply_header_fault}
use v4l2_capture.Loopback.Faults.{apply_header_fault-refused}

abbrev two_by_one : FrameHeader
two_by_one = make_header 0 9 2 1 pix_fmt_yuyv 4 7

two_by_one-accepted : validate_header two_by_one default_max_payload_bytes ≡ accepted tt
unfolding make_header
two_by_one-accepted = (validate_header_iff two_by_one default_max_payload_bytes).1 (ground arith)

magic_flipped :
    apply_header_fault bad_magic two_by_one
    ≡ some (record two_by_one { magic = bit_xor two_by_one.magic 1 })
unfolding apply_header_fault
magic_flipped = refl

two_by_one-yuyv : two_by_one.pixel_format ≡ pix_fmt_yuyv
unfolding make_header
two_by_one-yuyv = refl

apply_header_fault-refused_example :
    validate_header
      (record two_by_one { magic = bit_xor two_by_one.magic 1 })
      default_max_payload_bytes
    ≢ accepted tt
apply_header_fault-refused_example =
    apply_header_fault-refused bad_magic two_by_one
      (record two_by_one { magic = bit_xor two_by_one.magic 1 }) two_by_one-accepted two_by_one-yuyv
      magic_flipped

-- One frame of two pixels, taken whole by the kernel.
abbrev taking_all : ℕ → Round
taking_all n = record {
  stop_before = false;
  now_before = 0;
  send_answer = took n;
  stop_after = false;
  now_after = 0;
  poll_answer = poll_expired;
}

abbrev orders : Orders
orders = record {
  fd = pos 4;
  frames = 1;
  width = pos 2;
  height = pos 1;
  send_timeout_ms = 100;
  ticks_per_ms = 1;
  corrupt_frame_id = none;
  header_fault = none;
}

abbrev fair : ℕ → Weather
fair i = record {
  now_ns = 9;
  now = 0;
  header_rounds = taking_all 44 ∷ [];
  payload_rounds = taking_all 4 ∷ [];
}

sendable : IsSendable orders default_max_payload_bytes
sendable = ground arith

four_bytes :
    (i : ℕ) (payload bytes : List ℕ)
    → make_test_yuyv_payload (pos 2) (pos 1) i ≡ some payload
    → damaged none i payload ≡ some bytes
    → length bytes ≡ 4
unfolding damaged
four_bytes i payload bytes made same =
    ap length (
      sym (some-injective _ _ same)
      ∙ some-injective _ _ (sym made ∙ payload_made orders default_max_payload_bytes i sendable))
    ∙ length-pixels orders default_max_payload_bytes i sendable

obedient : Obedient orders fair
unfolding round
obedient i payload bytes made same =
    let len = four_bytes i payload bytes made same in
    (
      (omega (arith, length-serialize_header (test_header orders i 9 payload)), tt),
      (omega (arith, len), tt),
    )

header_sent :
    (bytes : List ℕ)
    → length bytes ≡ 44
    → (send_all_until 1
        (pos 4)
        (some bytes)
        (length bytes)
        100
        false
        (pos 50)
        (taking_all 44 ∷ [])).0
      ≡ sent_all
unfolding send_all_until send_loop round
header_sent bytes e = rw e refl

payload_sent :
    (bytes : List ℕ)
    → length bytes ≡ 4
    → (send_all_until 1
        (pos 4)
        (some bytes)
        (length bytes)
        100
        false
        (pos 50)
        (taking_all 4 ∷ [])).0
      ≡ sent_all
unfolding send_all_until send_loop round
payload_sent bytes e = rw e refl

after_both :
    (first second : Outcome × List ℕ) (rest : LoopResult × List ℕ)
    → first.0 ≡ sent_all
    → second.0 ≡ sent_all
    → (after_header first second rest).0 ≡ rest.0
unfolding after_header
after_both (o, a) (o', b) rest e e' = rw (e, e') refl

finished : (send_frames orders fair 1 0).0 ≡ done
unfolding send_frames one_frame send_frame damaged
finished = rw (payload_made orders default_max_payload_bytes 0 sendable) (
    after_both _ _ (done, [])
      (header_sent (serialize_header (test_header orders 0 9 (pixels orders 0)))
        (length-serialize_header (test_header orders 0 9 (pixels orders 0))))
      (payload_sent (pixels orders 0) (length-pixels orders default_max_payload_bytes 0 sendable)))

abbrev wire_of_one : List ℕ
wire_of_one = (send_frames orders fair 1 0).1

session_loop-send_frames_example :
    let (v, r') = session_loop memory 2 fuel options wire_of_one fresh in
    (v ≡ over true) × (r'.frames ≡ [] ++ test_frames orders fair 1 0)
session_loop-send_frames_example =
    session_loop-send_frames memory memory-Streams orders 4 fair 1 wire_of_one options 2 fuel
      wire_of_one fresh refl refl obedient sendable (omega arith) (λ k. (omega arith, omega arith))
      (λ i. (finished i, wire_of_one)) refl (λ k. refl) (λ e x. x) (omega arith) (le_refl fuel) refl
