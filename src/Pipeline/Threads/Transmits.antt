-- ===== src/Pipeline/Threads/Transmits.antt =====
-- What a step of the TCP sender does to its counters, to the frame in its hand and to its queue.
use v4l2_capture.Prelude.{ℕ, ◌+◌, ◌≤◌, ◌<◌, ◌≡◌, ◌⊎◌, refl, ap, sym, Bool, true, false}
use v4l2_capture.Prelude.{List, [], ◌∷◌, ◌++◌, length, length-append, arith, Option, none, some}
use v4l2_capture.Ring.{RingBuffer, try_pop_oldest, empty}
use v4l2_capture.Send.{Outcome, timed_out, cancelled}
use v4l2_capture.Sender.{
  Frame, FrameSent, sent, payload_too_large, missing_timestamp, send_threw, send_frame_over_tcp,
}
use v4l2_capture.Pipeline.{
  Settings, blank_frame, moved_frame, Shared, Transmitter, TransmitterAt, consumer_test, queue_test,
  taking, sender_waiting,
}
use v4l2_capture.Pipeline.{sending, giving_up, sender_exited}
use v4l2_capture.Pipeline.Sending.{
  NetAnswer, send_error, after_send, taken, transmitter_at, transmitter_moves,
}
use v4l2_capture.Pipeline.Threads.Produces.{frames_of}

-- The frame that is being sent.
abbrev pub sending_now : TransmitterAt → List Frame
sending_now (sending f) = f ∷ []
sending_now _ = []

-- The test that the queue is empty comes after one that the consumer is done.
abbrev pub has_seen_consumer : TransmitterAt → Bool
has_seen_consumer queue_test = true
has_seen_consumer _ = false

abbrev pub sender_gone : TransmitterAt → Bool
sender_gone sender_exited = true
sender_gone _ = false

abbrev pub is_giving_up : TransmitterAt → Bool
is_giving_up giving_up = true
is_giving_up _ = false

-- An error of the sender stops the pipeline.
abbrev pub Halts : Shared → Transmitter → Type 0
Halts s t = 0 < t.tcp_send_errors → (is_giving_up t.at ≡ true) ⊎ (s.stop_requested ≡ true)

-- Why the sender is gone.
abbrev pub MayEnd : Shared → Transmitter → Type 0
MayEnd s t =
    (s.stop_requested ≡ true)
    ⊎ (0 < t.tcp_send_cancellations)
    ⊎ ((s.consumer_done ≡ true) × (s.tcp_ring.size ≡ 0))

-- What the sender does with the queue and the frame in hand.
pub data Parcel : Type 0 where
  no_parcel : Parcel
  takes : Option Frame → Parcel
  delivers loses : Frame → Parcel

abbrev pub taken_out : Parcel → List Frame
taken_out (takes o) = frames_of o
taken_out _ = []

abbrev pub queue_after : Parcel → RingBuffer Frame → RingBuffer Frame
queue_after (takes o) r = (try_pop_oldest blank_frame moved_frame r).1
queue_after _ r = r

abbrev pub Taken : Parcel → RingBuffer Frame → Type 0
Taken (takes o) r = (try_pop_oldest blank_frame moved_frame r).0 ≡ o
Taken _ r = Unit

-- The frames sent and the one in hand.
abbrev pub Forwards : Parcel → Transmitter → Transmitter → Type 0
Forwards no_parcel t t' =
    (sending_now t.at ≡ []) × (sending_now t'.at ≡ []) × (t'.sent_frames ≡ t.sent_frames)
Forwards (takes o) t t' =
    (sending_now t.at ≡ []) × (sending_now t'.at ≡ frames_of o) × (t'.sent_frames ≡ t.sent_frames)
Forwards (delivers f) t t' =
    (sending_now t.at ≡ f ∷ [])
    × (sending_now t'.at ≡ [])
    × (t'.sent_frames ≡ t.sent_frames ++ (f ∷ []))
Forwards (loses f) t t' =
    (sending_now t.at ≡ f ∷ []) × (sending_now t'.at ≡ []) × (t'.sent_frames ≡ t.sent_frames)

-- Frames that were taken from the queue: each was sent, or failed, or was cancelled, or is in hand.
abbrev pub dealt_with : Transmitter → ℕ
dealt_with t = t.tcp_sent + t.tcp_send_errors + t.tcp_send_cancellations + length (sending_now t.at)

pub record Sends (d : Parcel) (t t' : Transmitter) : Type 0 where
  pub forwards : Forwards d t t'
  pub balance : dealt_with t' ≡ dealt_with t + length (taken_out d)
  pub listed : t.tcp_sent ≡ length t.sent_frames → t'.tcp_sent ≡ length t'.sent_frames
  pub timeouts : t.tcp_send_timeouts ≤ t.tcp_send_errors → t'.tcp_send_timeouts ≤ t'.tcp_send_errors

pub record Transmits (c : Settings) (d : Parcel) (s : Shared) (t : Transmitter) (s' : Shared)
    (t' : Transmitter) : Type 0 where
  pub sends : Sends d t t'
  pub out : Taken d s.tcp_ring
  pub ring : s'.ring ≡ s.ring
  pub tcp_ring : s'.tcp_ring ≡ queue_after d s.tcp_ring
  pub producer_done : s'.producer_done ≡ s.producer_done
  pub consumer_done : s'.consumer_done ≡ s.consumer_done
  pub seen : has_seen_consumer t'.at ≡ true → s'.consumer_done ≡ true
  pub halts : Halts s' t'
  pub ended : c.tcp_enabled ≡ true → sender_gone t'.at ≡ true → MayEnd s' t'
  pub stop : s.stop_requested ≡ true → s'.stop_requested ≡ true

failed-Transmits :
    (c : Settings) (f : Frame) (o : Outcome) (bytes : List ℕ) (s : Shared) (t : Transmitter)
    → t.at ≡ sending f
    → Halts s t
    → let t' = after_send f (send_threw o) (record t { wire = bytes }) in
      (d : Parcel) × Transmits c d s t s t'
unfolding after_send send_error
failed-Transmits c f (timed_out done size) bytes s t e ha = (loses f, ground arith)
failed-Transmits c f (cancelled done size) bytes s t e ha = (loses f, ground arith)
failed-Transmits c f _ bytes s t e ha = (loses f, ground arith)

after_send-Transmits :
    (c : Settings) (f : Frame) (result : FrameSent) (bytes : List ℕ) (s : Shared) (t : Transmitter)
    → t.at ≡ sending f
    → Halts s t
    → let t' = after_send f result (record t { wire = bytes }) in
      (d : Parcel) × Transmits c d s t s t'
unfolding after_send send_error
after_send-Transmits c f (sent n) bytes s t e ha =
    (delivers f, ground (arith, length-append t.sent_frames (f ∷ [])))
after_send-Transmits c f (send_threw o) bytes s t e ha = failed-Transmits c f o bytes s t e ha
after_send-Transmits c f payload_too_large bytes s t e ha = (loses f, ground arith)
after_send-Transmits c f missing_timestamp bytes s t e ha = (loses f, ground arith)

taken-Transmits :
    (c : Settings) (out : Option Frame) (ring : RingBuffer Frame) (s : Shared) (t : Transmitter)
    → t.at ≡ taking
    → Halts s t
    → (out, ring) ≡ try_pop_oldest blank_frame moved_frame s.tcp_ring
    → let (s', t') = taken (out, ring) s t in (d : Parcel) × Transmits c d s t s' t'
unfolding taken
taken-Transmits c none ring s t e ha r = (
  takes none,
  record {
    sends = ground arith;
    out = sym (ap (λ x. x.0) r);
    ring = refl;
    tcp_ring = ap (λ x. x.1) r;
    producer_done = refl;
    consumer_done = refl;
    seen = λ w. ground arith;
    halts = λ w. ground arith;
    ended = λ w v. ground arith;
    stop = λ w. w;
  },
)
taken-Transmits c (some f) ring s t e ha r = (
  takes (some f),
  record {
    sends = ground arith;
    out = sym (ap (λ x. x.0) r);
    ring = refl;
    tcp_ring = ap (λ x. x.1) r;
    producer_done = refl;
    consumer_done = refl;
    seen = λ w. ground arith;
    halts = λ w. ground arith;
    ended = λ w v. ground arith;
    stop = λ w. w;
  },
)

transmitter_at-Transmits :
    (c : Settings) (net : NetAnswer) (at : TransmitterAt) (s : Shared) (t : Transmitter)
    → t.at ≡ at
    → Halts s t
    → (has_seen_consumer at ≡ true → s.consumer_done ≡ true)
    → (c.tcp_enabled ≡ true → sender_gone at ≡ true → MayEnd s t)
    → let (s', t') = transmitter_at c net at s t in (d : Parcel) × Transmits c d s t s' t'
unfolding transmitter_at empty
transmitter_at-Transmits c net taking s t e ha sd en =
    taken-Transmits c (try_pop_oldest blank_frame moved_frame s.tcp_ring).0
      (try_pop_oldest blank_frame moved_frame s.tcp_ring).1 s t e ha refl
transmitter_at-Transmits c net (sending f) s t e ha sd en =
    let (result, bytes) =
      send_frame_over_tcp c.ticks_per_ms c.connected_tcp_fd f c.tcp_send_timeout_ms net.now
        net.header_rounds net.payload_rounds in
    after_send-Transmits c f result (t.wire ++ bytes) s t e ha
transmitter_at-Transmits c net consumer_test s t e ha sd en = (no_parcel, ground arith)
transmitter_at-Transmits c net queue_test s t e ha sd en = (no_parcel, ground arith)
transmitter_at-Transmits c net sender_waiting s t e ha sd en = (no_parcel, ground arith)
transmitter_at-Transmits c net giving_up s t e ha sd en = (no_parcel, ground arith)
transmitter_at-Transmits c net sender_exited s t e ha sd en = (no_parcel, ground arith)

pub transmitter_moves-Transmits :
    (c : Settings) (net : NetAnswer) (s : Shared) (t : Transmitter)
    → Halts s t
    → (has_seen_consumer t.at ≡ true → s.consumer_done ≡ true)
    → (c.tcp_enabled ≡ true → sender_gone t.at ≡ true → MayEnd s t)
    → let (s', t') = transmitter_moves c net s t in (d : Parcel) × Transmits c d s t s' t'
unfolding transmitter_moves
transmitter_moves-Transmits c net s t ha sd en =
    transmitter_at-Transmits c net t.at s t refl ha sd en
