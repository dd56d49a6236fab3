-- ===== src/Receiver.antt =====
-- src/tcp_receiver.cpp: reading frames from TCP connections, one connection after the other.
-- `recv` and its sockets are a parameter; the clock and the file system answer by functions of the
-- number of frames received. Counters are 64-bit and count single frames and sessions.
pub mod Reading
pub mod Frames
use v4l2_capture.Prelude.{
  ℕ, zero, suc, ◌+◌, ◌-◌, Bool, true, false, ◌&&◌, ◌||◌, ltb, leb, ◌==◌, ◌!=◌,
}
use v4l2_capture.Prelude.{if◌then◌else◌, List, [], ◌∷◌, ◌++◌, Option, none, some, length}
use v4l2_capture.Protocol.{FrameHeader, Reason, Checked, accepted, refused, wire_header_size}
use v4l2_capture.Protocol.{deserialize_header, validate_header, compute_crc32}
use v4l2_capture.Send.{Errno, eintr, eagain, ewouldblock, other}

-- `recv` gives bytes (none of them when the peer has closed), or an error.
pub data Answer : Type 0 where
  received : List ℕ → Answer
  recv_error : Errno → Answer

pub record Sockets : Type 1 where
  pub Socket : Type 0
  pub recv : Socket → ℕ → Answer × Socket

-- What `read_exact` does: it returns true with the buffer filled, or false, or throws. `unfinished`
-- is no result: the model's fuel is used up.
pub data ReadResult : Type 0 where
  filled : List ℕ → ReadResult
  end_of_stream : ReadResult
  recv_failed : Errno → ReadResult
  unfinished : ReadResult

-- What one round of the session's loop meets.
pub data FrameResult : Type 0 where
  closed : FrameResult
  undecodable : Reason → FrameResult
  invalid : FrameHeader → Reason → FrameResult
  cut_short crc_mismatch : FrameHeader → FrameResult
  frame : FrameHeader → List ℕ → FrameResult
  failed : Errno → FrameResult
  out_of_fuel : FrameResult

module _ (sockets : Sockets) where
  open sockets use {Socket, recv}

  -- What the loop does with an answer of `recv`, given how it goes on.
  pub after_recv :
      Answer → Socket → List ℕ → (Socket → List ℕ → ReadResult × Socket) → ReadResult × Socket
  after_recv (received []) s out continue = (end_of_stream, s)
  after_recv (received (b ∷ bytes)) s out continue = continue s (out ++ (b ∷ bytes))
  after_recv (recv_error eintr) s out continue = continue s out
  after_recv (recv_error e) s out continue = (recv_failed e, s)

  -- The loop of `read_exact`; `out` is what the buffer holds, and its length is `total`.
  pub read_loop : ℕ → Socket → ℕ → List ℕ → ReadResult × Socket
  read_loop zero s size out = if ltb (length out) size then (unfinished, s) else (filled out, s)
  read_loop (suc fuel) s size out =
      if ltb (length out) size
      then (let (answer, s') = recv s (size - length out) in
          after_recv answer s' out (λ t more. read_loop fuel t size more))
      else (filled out, s)

  pub read_exact : ℕ → Socket → ℕ → ReadResult × Socket
  unfolding read_loop after_recv
  read_exact fuel s size = read_loop fuel s size []

  check_payload : FrameHeader → ReadResult → FrameResult
  check_payload h (filled payload) =
      if compute_crc32 payload != h.payload_crc32 then crc_mismatch h else frame h payload
  check_payload h end_of_stream = cut_short h
  check_payload h (recv_failed e) = failed e
  check_payload h unfinished = out_of_fuel

  read_payload : ℕ → Socket → FrameHeader → Checked (Unit {0}) → FrameResult × Socket
  unfolding check_payload
  read_payload fuel s h (refused reason) = (invalid h reason, s)
  read_payload fuel s h (accepted _) =
      let (result, s') = read_exact fuel s h.payload_size in (check_payload h result, s')

  check_header : ℕ → Socket → ℕ → Checked FrameHeader → FrameResult × Socket
  unfolding read_payload
  check_header fuel s limit (refused reason) = (undecodable reason, s)
  check_header fuel s limit (accepted h) = read_payload fuel s h (validate_header h limit)

  after_header : ℕ → ℕ → ReadResult → Socket → FrameResult × Socket
  unfolding check_header
  after_header fuel limit (filled wire) s = check_header fuel s limit (deserialize_header wire)
  after_header fuel limit end_of_stream s = (closed, s)
  after_header fuel limit (recv_failed e) s = (failed e, s)
  after_header fuel limit unfinished s = (out_of_fuel, s)

  -- Header, checks, payload and checksum of one frame.
  pub receive_frame : ℕ → Socket → ℕ → FrameResult × Socket
  unfolding after_header
  receive_frame fuel s limit =
      let (result, s') = read_exact fuel s wire_header_size in after_header fuel limit result s'
