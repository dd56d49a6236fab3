-- ===== src/Loopback/Delivery.antt =====
-- The test sender against the receiver of src/tcp_receiver.cpp.
use native.Mathlib.Nat.{mul-le-mul}
use v4l2_capture.Prelude.{
  ℕ, zero, suc, ◌+◌, ◌*◌, ◌/◌, ◌%◌, ◌^◌, ◌≤◌, ◌<◌, ◌≡◌, refl, ap, ◌∙◌, true, false, arith, ◌!=◌,
  All,
}
use v4l2_capture.Prelude.{List, [], ◌∷◌, ◌++◌, none, some, length, length-append}
use v4l2_capture.Prelude.Int.{ℤ, pos, negsuc, to_nat, is_nonpositive}
use v4l2_capture.Protocol.{FrameHeader, make_header, max_dimension, wire_header_size}
use v4l2_capture.Protocol.RoundTrip.{Fits}
use v4l2_capture.Protocol.Crc.{compute_crc32-bound}
use v4l2_capture.Protocol.Validation.{IsAcceptable, validate_header_iff}
use v4l2_capture.Send.{Errno}
use v4l2_capture.Receiver.{Sockets}
use v4l2_capture.Receiver.Reading.{Streams}
use v4l2_capture.Server.{Options, Receiver, over, session_loop}
use v4l2_capture.Server.Sessions.{Sound, session_loop-delivers}
use v4l2_capture.Loopback.{
  Orders, Weather, test_row, test_rows, test_header, make_test_yuyv_payload, damaged, done,
  send_frames,
}
use v4l2_capture.Loopback.Wire.{frame_or_none, test_frames, Obedient, send_frames-encode}

-- Pictures that the protocol has room for, sent as they are.
pub record IsSendable (o : Orders) (limit : ℕ) : Type 0 where
  pub width_in : (0 < to_nat o.width) × (to_nat o.width ≤ max_dimension)
  pub height_in : (0 < to_nat o.height) × (to_nat o.height ≤ max_dimension)
  pub even : to_nat o.width % 2 ≡ 0
  pub size : to_nat o.width * to_nat o.height * 2 ≤ limit
  pub limit_in : limit < 2 ^ 32
  pub undamaged : o.corrupt_frame_id ≡ none

is_positive : (z : ℤ) → 0 < to_nat z → is_nonpositive z ≡ false
is_positive (pos zero) h = absurd (omega (arith, h))
is_positive (pos (suc n)) h = refl
is_positive (negsuc n) h = absurd (omega (arith, h))

length-test_row : (n x y i : ℕ) → length (test_row n x y i) ≡ 4 * n
unfolding test_row
length-test_row zero x y i = refl
length-test_row (suc n) x y i = omega (arith, length-test_row n (x + 2) y i)

length-test_rows : (n pairs y i : ℕ) → length (test_rows n pairs y i) ≡ 4 * (n * pairs)
unfolding test_rows
length-test_rows zero pairs y i = omega arith
length-test_rows (suc n) pairs y i = omega (
  arith,
  length-append (test_row pairs 0 y i) (test_rows n pairs (y + 1) i),
  length-test_row pairs 0 y i,
  length-test_rows n pairs (y + 1) i,
)

-- The payload of a test frame.
abbrev pub pixels : Orders → ℕ → List ℕ
pixels o i = test_rows (to_nat o.height) (to_nat o.width / 2) 0 i

pub length-pixels :
    (o : Orders) (limit i : ℕ)
    → IsSendable o limit
    → length (pixels o i) ≡ to_nat o.width * to_nat o.height * 2
length-pixels o limit i v =
    length-test_rows (to_nat o.height) (to_nat o.width / 2) 0 i
    ∙ halves (to_nat o.width) (to_nat o.width / 2) (to_nat o.height) (omega (arith, v.even))
  where
    halves : (w k h : ℕ) → w ≡ 2 * k → 4 * (h * k) ≡ w * h * 2
    halves w k h e = rw e (omega arith)

pub payload_made :
    (o : Orders) (limit i : ℕ)
    → IsSendable o limit
    → make_test_yuyv_payload o.width o.height i ≡ some (pixels o i)
unfolding make_test_yuyv_payload
payload_made o limit i v =
    let even : (to_nat o.width % 2 != 0) ≡ false = ground (arith, v.even) in
    rw (is_positive o.width v.width_in.0, is_positive o.height v.height_in.0, even) refl

test_header-IsAcceptable :
    (o : Orders) (limit i now_ns : ℕ)
    → IsSendable o limit
    → 0 < now_ns
    → IsAcceptable (test_header o i now_ns (pixels o i)) limit
unfolding test_header make_header
test_header-IsAcceptable o limit i now_ns v on =
    let len = length-pixels o limit i v in
    let whole : length (pixels o i) % 2 ^ 32 ≡ to_nat o.width * to_nat o.height * 2 =
      omega (arith, len, v.size, v.limit_in) in
    record {
      limit_positive =
          omega (arith, v.size, area (to_nat o.width) (to_nat o.height) v.width_in.0 v.height_in.0);
      magic_right = refl;
      size_right = refl;
      version_right = refl;
      stamped = λ z. absurd (omega (arith, z, on));
      width_in = v.width_in;
      height_in = v.height_in;
      format_given = λ z. absurd (omega (arith, z));
      payload_in = (
        omega (arith, whole, area (to_nat o.width) (to_nat o.height) v.width_in.0 v.height_in.0),
        omega (arith, whole, v.size),
      );
      yuyv_exact = λ y. (v.even, whole);
    }
  where
    area : (w h : ℕ) → 0 < w → 0 < h → 1 * 1 ≤ w * h
    area w h p q = mul-le-mul p q

test_header-Sound :
    (o : Orders) (limit i now_ns : ℕ)
    → IsSendable o limit
    → i < 2 ^ 64
    → (0 < now_ns) × (now_ns < 2 ^ 64)
    → Fits (test_header o i now_ns (pixels o i))
      × Sound limit (test_header o i now_ns (pixels o i), pixels o i)
unfolding test_header make_header
test_header-Sound o limit i now_ns v small (on, in_time) =
    let len = length-pixels o limit i v in
    (
      record {
        magic = omega arith;
        header_size = omega arith;
        version = omega arith;
        frame_id = small;
        capture_timestamp_ns = in_time;
        width = omega (arith, v.width_in.1);
        height = omega (arith, v.height_in.1);
        pixel_format = omega arith;
        payload_size = omega arith;
        payload_crc32 = compute_crc32-bound (pixels o i);
      },
      (
        (validate_header_iff (test_header o i now_ns (pixels o i)) limit).1
            (test_header-IsAcceptable o limit i now_ns v on),
        omega (arith, len, v.size, v.limit_in),
        refl,
      ),
    )

one_test_frame :
    (o : Orders) (limit i now_ns : ℕ)
    → IsSendable o limit
    → frame_or_none o i now_ns (make_test_yuyv_payload o.width o.height i)
      ≡ (test_header o i now_ns (pixels o i), pixels o i) ∷ []
unfolding damaged
one_test_frame o limit i now_ns v =
    ap (λ m. frame_or_none o i now_ns m) (payload_made o limit i v) ∙ rw v.undamaged refl

test_frames-Sound :
    (o : Orders) (limit : ℕ) (weather : ℕ → Weather) (n i : ℕ)
    → IsSendable o limit
    → i + n < 2 ^ 64
    → ((k : ℕ) → (0 < (weather k).now_ns) × ((weather k).now_ns < 2 ^ 64))
    → All (λ (x : FrameHeader × List ℕ). Fits x.0 × Sound limit x) (test_frames o weather n i)
      × (length (test_frames o weather n i) ≡ n)
unfolding test_frames
test_frames-Sound o limit weather zero i v small clock = (tt, refl)
test_frames-Sound o limit weather (suc n) i v small clock =
    let (all, len) = test_frames-Sound o limit weather n (i + 1) v (omega (arith, small)) clock in
    rw (one_test_frame o limit i (weather i).now_ns v) (
      (test_header-Sound o limit i (weather i).now_ns v (omega (arith, small)) (clock i), all),
      omega (arith, len),
    )

module _ (sockets : Sockets) (streams : Streams sockets) where
  open sockets use {Socket}
  open streams use {may_fail, left, patience}

  -- The test sender and the receiver agree. The sender is connected and ordered neither a header fault
  -- nor a frame to damage; its pictures have an even width, a width and a height from 1 to 16384, and a
  -- payload within the receiver's limit, itself below 2^32; it sends fewer than 2^64 frames, with clock
  -- readings from 1 to 2^64 - 1, and `send` never takes more than it is offered. When its run comes to
  -- its end, a session of the receiver on the bytes that it put on the wire, with no limit on the
  -- frames, files that can all be saved, a connection that does not fail, and fuel for more rounds than
  -- frames and for the largest read, reports exactly the test frames, in order, on top of those that it
  -- had, and is closed normally.
  pub session_loop-send_frames :
      (o : Orders) (fd : ℕ) (weather : ℕ → Weather) (n : ℕ) (wire : List ℕ) (options : Options)
      (rounds reads : ℕ) (s : Socket) (r : Receiver)
      → o.fd ≡ pos fd
      → o.header_fault ≡ none
      → Obedient o weather
      → IsSendable o options.max_payload_bytes
      → n < 2 ^ 64
      → ((k : ℕ) → (0 < (weather k).now_ns) × ((weather k).now_ns < 2 ^ 64))
      → send_frames o weather n 0 ≡ (done, wire)
      → options.max_frames ≡ 0
      → ((k : ℕ) → options.save_works k ≡ true)
      → ((e : Errno) → ¬ may_fail e)
      → n < rounds
      → wire_header_size + options.max_payload_bytes + patience s ≤ reads
      → left s ≡ wire
      → let (v, r') = session_loop sockets rounds reads options s r in
        (v ≡ over true) × (r'.frames ≡ r.frames ++ test_frames o weather n 0)
  session_loop-send_frames o fd weather n wire options rounds reads s r e no_fault ob v small clock
        sent unlimited works fine enough f on_wire =
      let (all, len) =
        test_frames-Sound o options.max_payload_bytes weather n 0 v (omega arith) clock in
      session_loop-delivers sockets streams options rounds reads s r (test_frames o weather n 0)
        unlimited works fine (omega (arith, len)) f all
        (on_wire ∙ send_frames-encode o fd weather n 0 wire e no_fault ob sent)
