-- ===== src/Node.antt =====
-- ros2_ws/src/v4l2_ros2_adapter/src/tcp_diagnostics_node.cpp: the TCP side of the ROS 2 node. The
-- stop flag, `poll` and `recv` are a parameter, and so are the clock and whether a message can be
-- published. Counters are 64-bit and count single frames, sessions and bytes.
pub mod Reading
pub mod Alignment
pub mod Accounts
pub mod Images
use v4l2_capture.Prelude.{
  ℕ, zero, suc, ◌+◌, ◌-◌, ◌*◌, ◌/◌, ◌%◌, ◌^◌, Bool, true, false, ◌&&◌, ◌||◌, ltb, leb, ◌==◌, ◌!=◌,
}
use v4l2_capture.Prelude.{if◌then◌else◌, List, [], ◌∷◌, ◌++◌, Option, none, some, length}
use v4l2_capture.Protocol.{FrameHeader, Reason, Checked, accepted, refused, pix_fmt_yuyv}
use v4l2_capture.Protocol.{decode, validate_header, compute_crc32}
use v4l2_capture.Send.{Errno, eintr, eagain, ewouldblock, other}
use v4l2_capture.Receiver.{Answer, received, recv_error}
use v4l2_capture.Yuyv.{convert_yuyv_to_rgb8, convert_yuyv_to_mono8}

-- What `poll` says of a socket: `revents` has the flags POLLNVAL, POLLERR, and POLLIN or POLLHUP.
pub data Readiness : Type 0 where
  poll_expired : Readiness
  poll_failed : Errno → Readiness
  revents : Bool → Bool → Bool → Readiness

pub record Link : Type 1 where
  pub World : Type 0
  pub stop_requested : World → Bool × World
  pub poll : World → Readiness × World
  pub recv : World → ℕ → Answer × World

-- The texts that `error` is set to.
pub data ReadError : Type 0 where
  client_poll_failed : Errno → ReadError
  socket_invalid socket_error : ReadError
  closed_after : ℕ → ReadError
  recv_failed : Errno → ReadError

-- `unfinished` is no result: the model's fuel is used up.
pub data ReadResult : Type 0 where
  read_ok : List ℕ → ReadResult
  peer_closed stopped : ReadResult
  read_error : ReadError → ReadResult
  unfinished : ReadResult

-- A call of `recv` returned; `continue` is the next round.
pub after_recv : {W : Type 0} → Answer → W → List ℕ → (W → List ℕ → ReadResult × W) → ReadResult × W
after_recv (received []) w out continue =
    if length out == 0 then (peer_closed, w) else (read_error (closed_after (length out)), w)
after_recv (received (b ∷ bytes)) w out continue = continue w (out ++ (b ∷ bytes))
after_recv (recv_error eintr) w out continue = continue w out
after_recv (recv_error e) w out continue = (read_error (recv_failed e), w)

-- A call of `poll` returned; `take` reads, and `retry` is the next round.
pub after_poll :
    {W : Type 0} → Readiness → W → (W → ReadResult × W) → (W → ReadResult × W) → ReadResult × W
after_poll poll_expired w retry take = retry w
after_poll (poll_failed eintr) w retry take = retry w
after_poll (poll_failed e) w retry take = (read_error (client_poll_failed e), w)
after_poll (revents true broken readable) w retry take = (read_error socket_invalid, w)
after_poll (revents false true readable) w retry take = (read_error socket_error, w)
after_poll (revents false false false) w retry take = retry w
after_poll (revents false false true) w retry take = take w

-- The stop flag was read.
abbrev pub unless_stopped : {W : Type 0} → Bool × W → (W → ReadResult × W) → ReadResult × W
unless_stopped (true, w) go = (stopped, w)
unless_stopped (false, w) go = go w

-- `sizeof(FrameHeader)`: its ten fields take 44 bytes with no gap between them, and the size is
-- rounded up to the 8 bytes that a `std::uint64_t` is aligned to on the x86-64 and AArch64 ABIs.
abbrev pub sizeof_frame_header : ℕ
sizeof_frame_header = (44 + 7) / 8 * 8

-- The node's counters. `frames` has the frames counted, in order, and `images` those published.
pub record Counters : Type 0 where
  pub received_frames : ℕ
  pub received_bytes : ℕ
  pub crc_errors : ℕ
  pub header_errors : ℕ
  pub rejected_frames : ℕ
  pub accepted_sessions : ℕ
  pub completed_sessions : ℕ
  pub peer_disconnects : ℕ
  pub latency_clock_errors : ℕ
  pub published_images : ℕ
  pub image_publish_errors : ℕ
  pub latencies : List ℕ
  pub frames : List (FrameHeader × List ℕ)
  pub images : List (List ℕ)

pub data Encoding : Type 0 where
  rgb8 mono8 yuv422_yuy2 : Encoding

-- The parameters that the handlers read, `clock n` and `publishes n` for frame `n`.
pub record Parameters : Type 0 where
  pub max_payload_bytes : ℕ
  pub max_frames : ℕ
  pub max_sessions : ℕ
  pub publish_images : Bool
  pub output_encoding : Encoding
  pub clock : ℕ → ℕ
  pub publishes : ℕ → Bool

-- `image.data`; none is the exception of a conversion.
pub image_data : Encoding → FrameHeader → List ℕ → Option (List ℕ)
image_data rgb8 h payload = convert_yuyv_to_rgb8 payload h.width h.height
image_data mono8 h payload = convert_yuyv_to_mono8 payload h.width h.height
image_data yuv422_yuy2 h payload = some payload

-- `image.step`, a 32-bit product.
pub image_step : Encoding → FrameHeader → ℕ
image_step rgb8 h = h.width * 3 % 2 ^ 32
image_step mono8 h = h.width
image_step yuv422_yuy2 h = h.width * 2 % 2 ^ 32

image_failed : Counters → Counters
image_failed n = record n { image_publish_errors = n.image_publish_errors + 1 }

-- Both messages are published, or one of the calls throws.
publish_image : Parameters → Option (List ℕ) → Counters → Counters
unfolding image_failed
publish_image p none n = image_failed n
publish_image p (some image) n =
    if p.publishes n.received_frames
    then record n { published_images = n.published_images + 1; images = n.images ++ (image ∷ []) }
    else image_failed n

pub publish_frame : Parameters → FrameHeader → List ℕ → Counters → Counters
unfolding publish_image image_data image_failed
publish_frame p h payload n =
    if p.publish_images
    then (if h.pixel_format != pix_fmt_yuyv
        then image_failed n
        else publish_image p (image_data p.output_encoding h payload) n)
    else n

-- What one round of the loop of `handle_client` meets.
pub data Event : Type 0 where
  header_closed header_stopped : Event
  header_failed : ReadError → Event
  header_refused : FrameHeader → Reason → Event
  payload_closed payload_stopped : FrameHeader → Event
  payload_failed : FrameHeader → ReadError → Event
  crc_mismatch : FrameHeader → Event
  frame : FrameHeader → List ℕ → Event
  out_of_fuel : Event

sample : Parameters → FrameHeader → Counters → Counters
sample p h n =
    let now = p.clock n.received_frames in
    if leb h.capture_timestamp_ns now
    then record n { latencies = n.latencies ++ ((now - h.capture_timestamp_ns) ∷ []) }
    else record n { latency_clock_errors = n.latency_clock_errors + 1 }

count : FrameHeader → List ℕ → Counters → Counters
count h payload n = record n {
  received_frames = n.received_frames + 1;
  received_bytes = n.received_bytes + h.payload_size;
  frames = n.frames ++ ((h, payload) ∷ []);
}

-- The session goes on, or `handle_client` returns; `starved` is neither.
pub data Flow : Type 0 where
  go_on leave starved : Flow

-- What follows from an event.
pub settle : Parameters → Event → Counters → Flow × Counters
unfolding sample count publish_frame
settle p header_closed n = (leave, record n { peer_disconnects = n.peer_disconnects + 1 })
settle p header_stopped n = (leave, n)
settle p (header_failed e) n = (leave, record n { peer_disconnects = n.peer_disconnects + 1 })
settle p (header_refused h reason) n = (
  leave,
  record n { header_errors = n.header_errors + 1; rejected_frames = n.rejected_frames + 1 },
)
settle p (payload_closed h) n = (leave, record n { peer_disconnects = n.peer_disconnects + 1 })
settle p (payload_stopped h) n = (leave, n)
settle p (payload_failed h e) n = (leave, record n { peer_disconnects = n.peer_disconnects + 1 })
settle p (crc_mismatch h) n =
    (go_on, record n { crc_errors = n.crc_errors + 1; rejected_frames = n.rejected_frames + 1 })
settle p (frame h payload) n = (go_on, publish_frame p h payload (count h payload (sample p h n)))
settle p out_of_fuel n = (starved, n)

pub after_event : Flow × Counters → (Counters → Flow × Counters) → Flow × Counters
after_event (go_on, n) continue = continue n
after_event (leave, n) continue = (leave, n)
after_event (starved, n) continue = (starved, n)

-- `max_frames_ > 0 && received_frames_ >= max_frames_`
abbrev pub frame_limit_reached : Parameters → Counters → Bool
frame_limit_reached p n = ltb 0 p.max_frames && leb p.max_frames n.received_frames

abbrev pub session_limit_reached : Parameters → Counters → Bool
session_limit_reached p n = ltb 0 p.max_sessions && leb p.max_sessions n.accepted_sessions

-- What `poll` and `accept` give in a round of `receiver_loop`; the stop flag is read after an error of
-- theirs.
pub data Listening (W : Type 0) : Type 0 where
  quiet : Listening W
  listen_failed : Bool → Listening W
  client : W → Listening W

-- How `receiver_loop` ends; `listening` is no end, and `no_fuel` is the model's.
pub data LoopEnd : Type 0 where
  finished failed listening no_fuel : LoopEnd

pub after_client : Flow × Counters → (Counters → LoopEnd × Counters) → LoopEnd × Counters
after_client (leave, n) continue =
    continue (record n { completed_sessions = n.completed_sessions + 1 })
after_client (go_on, n) continue = (no_fuel, n)
after_client (starved, n) continue = (no_fuel, n)

module _ (link : Link) where
  open link use {World, stop_requested, poll, recv}

  pub read_loop : ℕ → World → ℕ → List ℕ → ReadResult × World
  unfolding after_recv after_poll
  read_loop zero w size out = if ltb (length out) size then (unfinished, w) else (read_ok out, w)
  read_loop (suc fuel) w size out =
      if ltb (length out) size
      then unless_stopped (stop_requested w) (λ w1.
        let (ready, w2) = poll w1 in
        after_poll ready w2 (λ w3. read_loop fuel w3 size out)
          (λ w3.
            let (answer, w4) = recv w3 (size - length out) in
            after_recv answer w4 out (λ w5 more. read_loop fuel w5 size more)))
      else (read_ok out, w)

  pub read_exact_interruptible : ℕ → World → ℕ → ReadResult × World
  unfolding read_loop
  read_exact_interruptible fuel w size = read_loop fuel w size []

  check_payload : FrameHeader → ReadResult → Event
  check_payload h (read_ok payload) =
      if compute_crc32 payload != h.payload_crc32 then crc_mismatch h else frame h payload
  check_payload h peer_closed = payload_closed h
  check_payload h stopped = payload_stopped h
  check_payload h (read_error e) = payload_failed h e
  check_payload h unfinished = out_of_fuel

  read_payload : ℕ → World → FrameHeader → Checked (Unit {0}) → Event × World
  unfolding check_payload
  read_payload fuel w h (refused reason) = (header_refused h reason, w)
  read_payload fuel w h (accepted _) =
      let (result, w') = read_exact_interruptible fuel w h.payload_size in
      (check_payload h result, w')

  -- The bytes read stand in the memory of `header`. On a little-endian host its fields are read from
  -- the offsets that the wire format has them at.
  after_header : ℕ → ℕ → ReadResult → World → Event × World
  unfolding read_payload
  after_header fuel limit (read_ok memory) w =
      let h = decode memory in read_payload fuel w h (validate_header h (limit % 2 ^ 32))
  after_header fuel limit peer_closed w = (header_closed, w)
  after_header fuel limit stopped w = (header_stopped, w)
  after_header fuel limit (read_error e) w = (header_failed e, w)
  after_header fuel limit unfinished w = (out_of_fuel, w)

  pub receive_one : ℕ → World → ℕ → Event × World
  unfolding after_header
  receive_one fuel w limit =
      let (result, w') = read_exact_interruptible fuel w sizeof_frame_header in
      after_header fuel limit result w'

  pub handle_client : ℕ → ℕ → Parameters → World → Counters → Flow × Counters
  unfolding settle after_event
  handle_client zero reads p w n = (starved, n)
  handle_client (suc rounds) reads p w n =
      let (stop, w1) = stop_requested w in
      if stop || frame_limit_reached p n
      then (leave, n)
      else (let (event, w2) = receive_one reads w1 p.max_payload_bytes in
          after_event (settle p event n) (λ n'. handle_client rounds reads p w2 n'))

  pub receiver_loop : ℕ → Parameters → List (Bool × Listening World) → Counters → LoopEnd × Counters
  unfolding handle_client
  receiver_loop fuel p [] n = (listening, n)
  receiver_loop fuel p ((true, event) ∷ rest) n = (finished, n)
  receiver_loop fuel p ((false, quiet) ∷ rest) n =
      let more = receiver_loop fuel p rest n in
      if frame_limit_reached p n || session_limit_reached p n then (finished, n) else more
  receiver_loop fuel p ((false, listen_failed stop) ∷ rest) n =
      if frame_limit_reached p n || session_limit_reached p n || stop
      then (finished, n)
      else (failed, n)
  receiver_loop fuel p ((false, client w) ∷ rest) n =
      if frame_limit_reached p n || session_limit_reached p n
      then (finished, n)
      else after_client
          (handle_client fuel fuel p w (record n { accepted_sessions = n.accepted_sessions + 1 }))
          (λ n'. receiver_loop fuel p rest n')
