-- ===== src/Examples/Connections.antt =====
-- A connection whose bytes all wait in a list, with the frames of the fixture on it.
use native.Mathlib.Nat.{le_refl}
use v4l2_capture.Prelude.{
  ℕ, zero, suc, ◌+◌, ◌≤◌, ◌<◌, ◌≡◌, refl, sym, List, [], ◌∷◌, ◌++◌, take, drop, take-append-drop,
  length-take, true, arith,
}
use v4l2_capture.Protocol.{
  FrameHeader, accepted, wire_header_size, default_max_payload_bytes, serialize_header,
  validate_header,
}
use v4l2_capture.Protocol.Validation.{validate_header_iff}
use v4l2_capture.Fixture.{fixture_header, make_fixture_payload}
use v4l2_capture.Fixture.Verified.{
  fixture_header-Fits, fixture_header-IsAcceptable, fixture_payload_size, fixture_crc,
}
use v4l2_capture.Receiver.{Sockets, received, frame, read_exact, receive_frame}
use v4l2_capture.Receiver.Reading.{Streams, Reads, read_exact-Reads}
use v4l2_capture.Receiver.Frames.{Says, receive_frame-Says, receive_frame-sent}
use v4l2_capture.Server.{Options, client, interrupted, fresh, serve, session_loop}
use v4l2_capture.Server.Accounts.{IsBalanced, Codes, serve_balances, exit_code-serve}
use v4l2_capture.Prelude.{◌≢◌, All}
use v4l2_capture.Server.{stuck, go_on}
use v4l2_capture.Server.Sessions.{Sound}
use v4l2_capture.Server.Sessions.{encode, session_loop-Ends}

abbrev pub memory : Sockets
memory = record { Socket = List ℕ; recv = λ s k. (received (take k s), drop k s) }

pub nothing_taken : (k : ℕ) (s : List ℕ) → 0 < k → take k s ≡ [] → s ≡ []
nothing_taken zero s h e = absurd (omega arith)
nothing_taken (suc k) [] h e = refl
nothing_taken (suc k) (x ∷ s) h e = cc

abbrev pub memory-Streams : Streams memory
memory-Streams = record {
  may_fail = λ _. ⊥;
  left = λ s. s;
  patience = λ _. 0;
  recv_answers = λ s k h.
      (omega (arith, length-take k s), sym (take-append-drop k s), le_refl 0, nothing_taken k s h);
}

abbrev pub options : Options
options = record {
  max_frames = 0;
  max_sessions = 1;
  max_payload_bytes = default_max_payload_bytes;
  save_payloads = true;
  clock = λ n. 1800000000000000000 + n;
  save_works = λ n. true;
}

abbrev pub fuel : ℕ
fuel = wire_header_size + default_max_payload_bytes + 0

abbrev h0 : FrameHeader
h0 = fixture_header 0

abbrev p0 : List ℕ
p0 = make_fixture_payload 0

abbrev stream : List ℕ
stream = encode ((h0, p0) ∷ [])

h0-accepted : validate_header h0 default_max_payload_bytes ≡ accepted tt
h0-accepted =
    (validate_header_iff h0 default_max_payload_bytes).1
      (fixture_header-IsAcceptable 0 (omega arith))

read_exact-Reads_example :
    let (r, u) = read_exact memory 2 (1 ∷ 2 ∷ 3 ∷ []) 2 in
    Reads memory memory-Streams (1 ∷ 2 ∷ 3 ∷ []) 2 [] r u
read_exact-Reads_example = read_exact-Reads memory memory-Streams 2 (1 ∷ 2 ∷ 3 ∷ []) 2 (omega arith)

receive_frame-Says_example :
    let (result, u) = receive_frame memory fuel stream default_max_payload_bytes in
    Says memory memory-Streams default_max_payload_bytes stream result u
receive_frame-Says_example =
    receive_frame-Says memory memory-Streams default_max_payload_bytes fuel stream (le_refl fuel)

stream-encoded : stream ≡ serialize_header h0 ++ (p0 ++ [])
unfolding encode
stream-encoded = refl

receive_frame-sent_example :
    let (result, u) = receive_frame memory fuel stream default_max_payload_bytes in
    (result ≡ frame h0 p0) × (u ≡ []) × (0 ≤ 0)
receive_frame-sent_example =
    receive_frame-sent memory memory-Streams default_max_payload_bytes fuel stream h0 p0 []
      (le_refl fuel) (λ e x. x) (fixture_header-Fits 0 (omega arith)) h0-accepted
      (sym (fixture_payload_size 0)) (sym (fixture_crc 0)) stream-encoded

session_loop-Ends_example :
    let (v, r') = session_loop memory 500 fuel options (1 ∷ 2 ∷ []) fresh in
    (v ≢ stuck) × (v ≢ go_on) × All (Sound default_max_payload_bytes) r'.frames
session_loop-Ends_example =
    session_loop-Ends memory memory-Streams options 500 fuel (1 ∷ 2 ∷ []) fresh (omega arith)
      (le_refl fuel) tt

serve_balances_example :
    IsBalanced options 0 (serve memory fuel options (interrupted ∷ client stream ∷ []) fresh).1
serve_balances_example = serve_balances memory fuel options (interrupted ∷ client stream ∷ [])

exit_code-serve_example :
    let (end, r) = serve memory fuel options (interrupted ∷ client stream ∷ []) fresh in
    Codes true end r
exit_code-serve_example =
    exit_code-serve memory fuel options (interrupted ∷ client stream ∷ []) true
