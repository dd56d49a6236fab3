-- ===== src/Examples/Nodes.antt =====
-- A connection of the ROS 2 node whose bytes all wait in a list, and a frame of the fixture on it.
use native.Mathlib.Nat.{le_refl}
use v4l2_capture.Prelude.{
  ℕ, zero, suc, ◌+◌, ◌<◌, ◌≡◌, refl, sym, List, [], ◌∷◌, ◌++◌, take, drop, take-append-drop, length,
  length-take, true, false, arith,
}
use v4l2_capture.Protocol.{
  FrameHeader, accepted, default_max_payload_bytes, serialize_header, validate_header,
}
use v4l2_capture.Fixture.{fixture_header, make_fixture_payload}
use v4l2_capture.Fixture.Verified.{
  length-make_fixture_payload, fixture_header-Fits, fixture_payload_size,
}
use v4l2_capture.Receiver.{received}
use v4l2_capture.Prelude.{◌*◌, some}
use v4l2_capture.Protocol.{pix_fmt_yuyv}
use v4l2_capture.Fixture.Verified.{fixture_format}
use v4l2_capture.Node.Images.{image_data-accepted}
use v4l2_capture.Node.{image_data, image_step}
use v4l2_capture.Node.{
  Link, revents, Parameters, rgb8, leave, sizeof_frame_header, read_exact_interruptible,
  handle_client, receiver_loop, client,
}
use v4l2_capture.Node.Reading.{Behaves, Reads, read_exact_interruptible-Reads}
use v4l2_capture.Node.Alignment.{handle_client-loses_frame}
use v4l2_capture.Node.Accounts.{fresh, EndsBalanced, receiver_loop_balances}
use v4l2_capture.Protocol.Validation.{validate_header_iff}
use v4l2_capture.Fixture.Verified.{fixture_header-IsAcceptable}

false-ne-true : ¬ (false ≡ true)
false-ne-true e = ground arith

abbrev memory : Link
memory = record {
  World = List ℕ;
  stop_requested = λ w. (false, w);
  poll = λ w. (revents false false true, w);
  recv = λ w k. (received (take k w), drop k w);
}

nothing_taken : (k : ℕ) (s : List ℕ) → 0 < k → take k s ≡ [] → s ≡ []
nothing_taken zero s h e = absurd (omega arith)
nothing_taken (suc k) [] h e = refl
nothing_taken (suc k) (x ∷ s) h e = cc

abbrev memory-Behaves : Behaves memory
memory-Behaves = record {
  may_stop = ⊥;
  may_fail = λ e. ⊥;
  left = λ w. w;
  patience = λ w. 0;
  stop_reads = λ w. (refl, le_refl 0, λ e. absurd (false-ne-true e));
  poll_answers = λ w. (refl, le_refl 0);
  recv_answers = λ w k h.
      (omega (arith, length-take k w), sym (take-append-drop k w), le_refl 0, nothing_taken k w h);
}

abbrev h0 : FrameHeader
h0 = fixture_header 0

abbrev p0 : List ℕ
p0 = make_fixture_payload 0

abbrev parameters : Parameters
parameters = record {
  max_payload_bytes = default_max_payload_bytes;
  max_frames = 0;
  max_sessions = 1;
  publish_images = true;
  output_encoding = rgb8;
  clock = λ n. 1800000000000000000 + n;
  publishes = λ n. true;
}

h0-accepted : validate_header h0 default_max_payload_bytes ≡ accepted tt
h0-accepted =
    (validate_header_iff h0 default_max_payload_bytes).1
      (fixture_header-IsAcceptable 0 (omega arith))

read_exact_interruptible_example :
    let (r, u) = read_exact_interruptible memory 2 (1 ∷ 2 ∷ 3 ∷ []) 2 in
    Reads memory memory-Behaves (1 ∷ 2 ∷ 3 ∷ []) 2 [] r u
read_exact_interruptible_example =
    read_exact_interruptible-Reads memory memory-Behaves 2 (1 ∷ 2 ∷ 3 ∷ []) 2 (omega arith)

more_than_four : 4 < h0.payload_size
more_than_four = omega (arith, fixture_payload_size 0, length-make_fixture_payload 0)

handle_client-loses_frame_example :
    handle_client memory 1
      (sizeof_frame_header + h0.payload_size)
      parameters
      (serialize_header h0 ++ p0)
      fresh
    ≡ (leave, record fresh { peer_disconnects = fresh.peer_disconnects + 1 })
handle_client-loses_frame_example =
    handle_client-loses_frame memory memory-Behaves 0 (sizeof_frame_header + h0.payload_size)
      parameters (serialize_header h0 ++ p0) fresh h0 p0 (λ x. x, λ e x. x)
      (fixture_header-Fits 0 (omega arith)) h0-accepted (sym (fixture_payload_size 0))
      more_than_four refl refl (omega arith)

receiver_loop_balances_example :
    let (end, n) =
      receiver_loop memory 70 parameters ((false, client (serialize_header h0 ++ p0)) ∷ []) fresh in
    EndsBalanced parameters end n
receiver_loop_balances_example =
    receiver_loop_balances memory 70 parameters ((false, client (serialize_header h0 ++ p0)) ∷ [])

h0-yuyv : h0.pixel_format ≡ pix_fmt_yuyv
h0-yuyv = fixture_format 0

image_data-accepted_example :
    (image : List ℕ) × (image_data rgb8 h0 p0 ≡ some image)
    × (length image ≡ h0.height * image_step rgb8 h0)
image_data-accepted_example =
    image_data-accepted rgb8 h0 p0 default_max_payload_bytes h0-accepted h0-yuyv
      (sym (fixture_payload_size 0))
