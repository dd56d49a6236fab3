-- ===== src/Pipeline/Sending.antt =====
-- src/main.cpp, the TCP sender thread of `run_pipeline`.
use v4l2_capture.Prelude.{ℕ, ◌+◌, true, if◌then◌else◌, List, ◌∷◌, [], ◌++◌, Option, none, some}
use v4l2_capture.Ring.{RingBuffer, try_pop_oldest, empty}
use v4l2_capture.Send.{Round, timed_out, cancelled}
use v4l2_capture.Sender.{
  Frame, FrameSent, sent, payload_too_large, missing_timestamp, send_threw, send_frame_over_tcp,
}
use v4l2_capture.Pipeline.{
  Settings, blank_frame, moved_frame, Shared, Transmitter, TransmitterAt, consumer_test, queue_test,
  taking, sender_waiting,
}
use v4l2_capture.Pipeline.{sending, giving_up, sender_exited}

-- What a call of `send_frame_over_tcp` meets: the clock, and the rounds of its two loops.
pub record NetAnswer : Type 0 where
  pub now : ℕ
  pub header_rounds : List Round
  pub payload_rounds : List Round

unfoldable pub send_error : Transmitter → Transmitter
send_error t = record t { at = giving_up; tcp_send_errors = t.tcp_send_errors + 1 }

-- `send_frame_over_tcp` returned, or threw one of the exceptions.
unfoldable pub after_send : Frame → FrameSent → Transmitter → Transmitter
unfolding send_error
after_send f (sent bytes) t = record t {
  at = consumer_test;
  tcp_sent_bytes = t.tcp_sent_bytes + bytes;
  tcp_sent = t.tcp_sent + 1;
  sent_frames = t.sent_frames ++ (f ∷ []);
}
after_send f (send_threw (timed_out done size)) t = record (send_error t) {
  tcp_send_timeouts = t.tcp_send_timeouts + 1;
}
after_send f (send_threw (cancelled done size)) t = record t {
  at = sender_exited;
  tcp_send_cancellations = t.tcp_send_cancellations + 1;
}
after_send f (send_threw _) t = send_error t
after_send f payload_too_large t = send_error t
after_send f missing_timestamp t = send_error t

unfoldable pub taken : Option Frame × RingBuffer Frame → Shared → Transmitter → Shared × Transmitter
taken (none, ring) s t = (record s { tcp_ring = ring }, record t { at = sender_waiting })
taken (some f, ring) s t = (record s { tcp_ring = ring }, record t { at = sending f })

unfoldable pub transmitter_at :
    Settings → NetAnswer → TransmitterAt → Shared → Transmitter → Shared × Transmitter
unfolding after_send taken
transmitter_at c net consumer_test s t =
    if s.consumer_done then (s, record t { at = queue_test }) else (s, record t { at = taking })
transmitter_at c net queue_test s t =
    if empty s.tcp_ring then (s, record t { at = sender_exited }) else (s, record t { at = taking })
transmitter_at c net taking s t = taken (try_pop_oldest blank_frame moved_frame s.tcp_ring) s t
transmitter_at c net sender_waiting s t = (s, record t { at = consumer_test })
transmitter_at c net (sending f) s t =
    let (result, bytes) =
      send_frame_over_tcp c.ticks_per_ms c.connected_tcp_fd f c.tcp_send_timeout_ms net.now
        net.header_rounds net.payload_rounds in
    (s, after_send f result (record t { wire = t.wire ++ bytes }))
transmitter_at c net giving_up s t =
    (record s { stop_requested = true }, record t { at = sender_exited })
transmitter_at c net sender_exited s t = (s, t)

unfoldable pub transmitter_moves :
    Settings → NetAnswer → Shared → Transmitter → Shared × Transmitter
unfolding transmitter_at
transmitter_moves c net s t = transmitter_at c net t.at s t
