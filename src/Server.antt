-- ===== src/Server.antt =====
-- The accept loop and the session loop of `main` in src/tcp_receiver.cpp, with the statistics that
-- they keep. The clock and the file system answer by functions of the number of frames received.
-- The counters are 64-bit and go up by one for a frame or a session.
pub mod Accounts
pub mod Sessions
use v4l2_capture.Prelude.{ℕ, zero, suc, ◌+◌, ◌-◌, Bool, true, false, ◌&&◌, ◌||◌, ltb, leb, ◌==◌}
use v4l2_capture.Prelude.{if◌then◌else◌, List, [], ◌∷◌, ◌++◌, Option, none, some, length}
use v4l2_capture.Protocol.{FrameHeader, Reason}
use v4l2_capture.Receiver.{
  Sockets, FrameResult, closed, undecodable, invalid, cut_short, crc_mismatch,
}
use v4l2_capture.Receiver.{frame, failed, out_of_fuel, receive_frame}

-- `last_error`, by what it tells.
pub data LastError : Type 0 where
  decode_failed : Reason → LastError
  header_invalid : Reason → LastError
  payload_cut payload_crc : ℕ → LastError

-- The counters of `main`. `latencies` has the samples in nanoseconds, `frames` the frames reported
-- and `saved` the files written, in order.
pub record Receiver : Type 0 where
  pub received_frames : ℕ
  pub received_bytes : ℕ
  pub saved_files : ℕ
  pub crc_errors : ℕ
  pub header_errors : ℕ
  pub rejected_frames : ℕ
  pub accepted_sessions : ℕ
  pub completed_sessions : ℕ
  pub peer_disconnects : ℕ
  pub latency_clock_errors : ℕ
  pub latencies : List ℕ
  pub last_error : Option LastError
  pub fatal_protocol_error : Bool
  pub frames : List (FrameHeader × List ℕ)
  pub saved : List (ℕ × FrameHeader × List ℕ)

-- `max_frames` is 0 for no limit. `clock n` is the system time after frame `n`, and `save_works n`
-- tells whether file `n` can be written.
pub record Options : Type 0 where
  pub max_frames : ℕ
  pub max_sessions : ℕ
  pub max_payload_bytes : ℕ
  pub save_payloads : Bool
  pub clock : ℕ → ℕ
  pub save_works : ℕ → Bool

-- After a round the session goes on, or is over (well or not), or `main` has caught an exception.
pub data Verdict : Type 0 where
  go_on : Verdict
  over : Bool → Verdict
  thrown : Verdict
  stuck : Verdict

reject : Receiver → Receiver
reject r = record r { rejected_frames = r.rejected_frames + 1; fatal_protocol_error = true }

-- The latency sample of a frame, or the count of a clock that runs behind.
sample : Options → FrameHeader → Receiver → Receiver
sample o h r =
    let now = o.clock r.received_frames in
    if leb h.capture_timestamp_ns now
    then record r { latencies = r.latencies ++ ((now - h.capture_timestamp_ns) ∷ []) }
    else record r { latency_clock_errors = r.latency_clock_errors + 1 }

count : FrameHeader → List ℕ → Receiver → Receiver
count h payload r = record r {
  received_frames = r.received_frames + 1;
  received_bytes = r.received_bytes + length payload;
  frames = r.frames ++ ((h, payload) ∷ []);
}

save_frame : Options → FrameHeader → List ℕ → Receiver → Verdict × Receiver
save_frame o h payload r =
    if o.save_payloads
    then (if o.save_works r.received_frames
        then (
          go_on,
          record r {
            saved_files = r.saved_files + 1;
            saved = r.saved ++ ((r.received_frames, h, payload) ∷ []);
          },
        )
        else (thrown, r))
    else (go_on, r)

-- The branches of the loop body.
pub settle : Options → FrameResult → Receiver → Verdict × Receiver
unfolding reject sample count save_frame
settle o closed r = (over true, record r { peer_disconnects = r.peer_disconnects + 1 })
settle o (undecodable reason) r = (
  over false,
  record (reject r) {
    header_errors = r.header_errors + 1;
    last_error = some (decode_failed reason);
  },
)
settle o (invalid h reason) r = (
  over false,
  record (reject r) {
    header_errors = r.header_errors + 1;
    last_error = some (header_invalid reason);
  },
)
settle o (cut_short h) r = (
  over false,
  record r {
    peer_disconnects = r.peer_disconnects + 1;
    last_error = some (payload_cut h.frame_id);
  },
)
settle o (crc_mismatch h) r = (
  over false,
  record (reject r) { crc_errors = r.crc_errors + 1; last_error = some (payload_crc h.frame_id) },
)
settle o (frame h payload) r = save_frame o h payload (count h payload (sample o h r))
settle o (failed e) r = (thrown, r)
settle o out_of_fuel r = (stuck, r)

-- `max_frames <= 0 || received_frames < max_frames`
abbrev pub wants_more : Options → Receiver → Bool
wants_more o r = o.max_frames == 0 || ltb r.received_frames o.max_frames

-- `accept` gives a connection, is interrupted, or fails.
pub data Accepted (S : Type 0) : Type 0 where
  client : S → Accepted S
  interrupted : Accepted S
  accept_failed : Accepted S

pub go_on_with : Verdict × Receiver → (Receiver → Verdict × Receiver) → Verdict × Receiver
go_on_with (go_on, r) continue = continue r
go_on_with (over ok, r) continue = (over ok, r)
go_on_with (thrown, r) continue = (thrown, r)
go_on_with (stuck, r) continue = (stuck, r)

-- How the accept loop ends; `waiting` is no end: no more connections are given.
pub data ServerEnd : Type 0 where
  finished exception waiting no_fuel : ServerEnd

pub after_session : Verdict × Receiver → (Receiver → ServerEnd × Receiver) → ServerEnd × Receiver
after_session (over ok, r) continue =
    let r' = if ok then record r { completed_sessions = r.completed_sessions + 1 } else r in
    if r.fatal_protocol_error then (finished, r') else continue r'
after_session (thrown, r) continue = (exception, r)
after_session (go_on, r) continue = (no_fuel, r)
after_session (stuck, r) continue = (no_fuel, r)

module _ (sockets : Sockets) where
  open sockets use {Socket}

  -- The loop over the frames of a session, with fuel for its rounds and for the reads in them.
  pub session_loop : ℕ → ℕ → Options → Socket → Receiver → Verdict × Receiver
  session_loop zero reads o s r = if wants_more o r then (stuck, r) else (over true, r)
  session_loop (suc rounds) reads o s r =
      if wants_more o r
      then (let (result, s') = receive_frame sockets reads s o.max_payload_bytes in
          go_on_with (settle o result r) (λ r'. session_loop rounds reads o s' r'))
      else (over true, r)

  pub serve : ℕ → Options → List (Accepted Socket) → Receiver → ServerEnd × Receiver
  serve fuel o [] r =
      if ltb r.accepted_sessions o.max_sessions && wants_more o r
      then (waiting, r)
      else (finished, r)
  serve fuel o (interrupted ∷ rest) r =
      let more = serve fuel o rest r in
      if ltb r.accepted_sessions o.max_sessions && wants_more o r then more else (finished, r)
  serve fuel o (accept_failed ∷ rest) r =
      if ltb r.accepted_sessions o.max_sessions && wants_more o r
      then (exception, r)
      else (finished, r)
  serve fuel o (client s ∷ rest) r =
      if ltb r.accepted_sessions o.max_sessions && wants_more o r
      then after_session
          (session_loop fuel fuel o s (record r { accepted_sessions = r.accepted_sessions + 1 }))
          (λ r'. serve fuel o rest r')
      else (finished, r)

-- What `main` returns: an exception of the loops, or of `write_receiver_stats_json` (the Boolean is
-- whether the file was written), is caught. There is no code while the receiver waits.
pub exit_code : Bool → ServerEnd → Receiver → Option ℕ
exit_code written exception r = some 1
exit_code false finished r = some 1
exit_code true finished r =
    if ltb 0 r.header_errors then some 3 else (if ltb 0 r.crc_errors then some 2 else some 0)
exit_code written waiting r = none
exit_code written no_fuel r = none

abbrev pub fresh : Receiver
fresh = record {
  received_frames = 0;
  received_bytes = 0;
  saved_files = 0;
  crc_errors = 0;
  header_errors = 0;
  rejected_frames = 0;
  accepted_sessions = 0;
  completed_sessions = 0;
  peer_disconnects = 0;
  latency_clock_errors = 0;
  latencies = [];
  last_error = none;
  fatal_protocol_error = false;
  frames = [];
  saved = [];
}
