-- ===== src/Pipeline/Threads/Drains.antt =====
-- The steps that the consumer and the TCP sender have left when the thread before them is done.
use v4l2_capture.Prelude.{
  ℕ, zero, suc, ◌+◌, ◌-◌, ◌*◌, ◌≤◌, ◌<◌, ◌≡◌, refl, true, ◌==◌, if-cases, Bool-cases, inl, inr,
}
use v4l2_capture.Prelude.{arith, Option, none, some}
use v4l2_capture.Ring.{RingBuffer, try_pop_oldest, empty}
use v4l2_capture.Ring.Inv.{IsValid}
use v4l2_capture.Sender.{Frame, FrameSent, send_frame_over_tcp}
use v4l2_capture.Pipeline.{
  Settings, blank_frame, moved_frame, Shared, Consumer, ConsumerAt, stop_test, done_test, ring_test,
  popping, consumer_waiting,
}
use v4l2_capture.Pipeline.{
  consuming, queueing, queued, closing, failing, stopping, consumer_exited, Transmitter,
  TransmitterAt, consumer_test, queue_test, taking, sender_waiting, sending, giving_up,
  sender_exited,
}
use v4l2_capture.Pipeline.Consuming.{
  SaveAnswer, passed_on, save, consume, popped, consumer_at, consumer_moves,
}
use v4l2_capture.Pipeline.Sending.{
  NetAnswer, send_error, after_send, taken, transmitter_at, transmitter_moves,
}
use v4l2_capture.Pipeline.Threads.Rings.{Pops, try_pop_oldest-Pops}

-- The most steps that the consumer takes from a place, with a number of frames in the ring that no one
-- adds to.
pub consumer_steps_left : ConsumerAt → ℕ → ℕ
consumer_steps_left stop_test n = 7 * n + 4
consumer_steps_left done_test n = 7 * n + 3
consumer_steps_left ring_test n = 7 * n + 2
consumer_steps_left popping zero = 6
consumer_steps_left popping (suc n) = 7 * n + 8
consumer_steps_left consumer_waiting n = 7 * n + 5
consumer_steps_left (consuming f) n = 7 * n + 7
consumer_steps_left (queueing f) n = 7 * n + 6
consumer_steps_left queued n = 7 * n + 5
consumer_steps_left closing n = 1
consumer_steps_left failing n = 2
consumer_steps_left stopping n = 1
consumer_steps_left consumer_exited n = 0

popping-left : (n : ℕ) → 0 < n → consumer_steps_left popping n ≤ 7 * n + 1
unfolding consumer_steps_left
popping-left zero h = absurd (omega (arith, h))
popping-left (suc n) h = omega arith

passed_on-left :
    (c : Settings) (f : Frame) (k : Consumer) (n : ℕ)
    → consumer_steps_left (passed_on c f k).at n ≤ 7 * n + 6
unfolding passed_on consumer_steps_left
passed_on-left c f k n =
    if-cases (λ (k' : Consumer). consumer_steps_left k'.at n ≤ 7 * n + 6) c.tcp_enabled _ _
      (λ _. omega arith) (λ _. omega arith)

consume-left :
    (c : Settings) (throws : SaveAnswer) (f : Frame) (k : Consumer) (n : ℕ)
    → consumer_steps_left (consume c throws f k).at n ≤ 7 * n + 6
unfolding consume save consumer_steps_left
consume-left c throws f k n = ground (arith, passed_on-left c f)

popped-left :
    (out : Option Frame) (ring : RingBuffer Frame) (s : Shared) (k : Consumer)
    → Pops s.ring out ring
    → let (s', k') = popped (out, ring) s k in
      consumer_steps_left k'.at s'.ring.size < consumer_steps_left popping s.ring.size
unfolding popped consumer_steps_left
popped-left none ring s k (e, e', _) = rw (e, e') (omega arith)
popped-left (some f) ring s k (e, _) =
    let e' : s.ring.size ≡ suc ring.size = omega (arith, e) in rw e' (omega arith)

-- A step of the consumer leaves it fewer, when the producer is done.
consumer_at-left :
    (c : Settings) (throws : SaveAnswer) (at : ConsumerAt) (s : Shared) (k : Consumer)
    → k.at ≡ at
    → IsValid s.ring
    → s.producer_done ≡ true
    → let (s', k') = consumer_at c throws at s k in
      consumer_steps_left k'.at s'.ring.size ≤ consumer_steps_left at s.ring.size - 1
unfolding consumer_at consumer_steps_left empty
consumer_at-left c throws popping s k e v done =
    let h =
      popped-left (try_pop_oldest blank_frame moved_frame s.ring).0
        (try_pop_oldest blank_frame moved_frame s.ring).1 s k
        (try_pop_oldest-Pops blank_frame moved_frame s.ring v) in
    omega (arith, h)
consumer_at-left c throws stop_test s k e v done = ground arith
consumer_at-left c throws done_test s k e v done = rw done (omega arith)
consumer_at-left c throws ring_test s k e v done = elim (Bool-cases (s.ring.size == 0)) [
  | inl z ↦ rw z (omega arith)
  | inr z ↦ rw z (omega (arith, popping-left s.ring.size (ground arith)))
]
consumer_at-left c throws consumer_waiting s k e v done = omega arith
consumer_at-left c throws (consuming f) s k e v done =
    omega (arith, consume-left c throws f k s.ring.size)
consumer_at-left c throws queued s k e v done = omega arith
consumer_at-left c throws (queueing f) s k e v done = omega arith
consumer_at-left c throws closing s k e v done = omega arith
consumer_at-left c throws failing s k e v done = omega arith
consumer_at-left c throws stopping s k e v done = omega arith
consumer_at-left c throws consumer_exited s k e v done = rw e (omega arith)

-- The same of the TCP sender and its queue.
pub transmitter_steps_left : TransmitterAt → ℕ → ℕ
transmitter_steps_left consumer_test n = 4 * n + 2
transmitter_steps_left queue_test n = 4 * n + 1
transmitter_steps_left taking zero = 4
transmitter_steps_left taking (suc n) = 4 * n + 4
transmitter_steps_left sender_waiting n = 4 * n + 3
transmitter_steps_left (sending f) n = 4 * n + 3
transmitter_steps_left giving_up n = 1
transmitter_steps_left sender_exited n = 0

taking-left : (n : ℕ) → 0 < n → transmitter_steps_left taking n ≤ 4 * n
unfolding transmitter_steps_left
taking-left zero h = absurd (omega (arith, h))
taking-left (suc n) h = omega arith

after_send-left :
    (f : Frame) (result : FrameSent) (t : Transmitter) (n : ℕ)
    → transmitter_steps_left (after_send f result t).at n ≤ 4 * n + 2
unfolding after_send send_error transmitter_steps_left
after_send-left f result t n = ground arith

taken-left :
    (out : Option Frame) (ring : RingBuffer Frame) (s : Shared) (t : Transmitter)
    → Pops s.tcp_ring out ring
    → let (s', t') = taken (out, ring) s t in
      transmitter_steps_left t'.at s'.tcp_ring.size < transmitter_steps_left taking s.tcp_ring.size
unfolding taken transmitter_steps_left
taken-left none ring s t (e, e', _) = rw (e, e') (omega arith)
taken-left (some f) ring s t (e, _) =
    let e' : s.tcp_ring.size ≡ suc ring.size = omega (arith, e) in rw e' (omega arith)

transmitter_at-left :
    (c : Settings) (net : NetAnswer) (at : TransmitterAt) (s : Shared) (t : Transmitter)
    → t.at ≡ at
    → IsValid s.tcp_ring
    → s.consumer_done ≡ true
    → let (s', t') = transmitter_at c net at s t in
      transmitter_steps_left t'.at s'.tcp_ring.size ≤ transmitter_steps_left at s.tcp_ring.size - 1
unfolding transmitter_at transmitter_steps_left empty
transmitter_at-left c net taking s t e v done =
    let h =
      taken-left (try_pop_oldest blank_frame moved_frame s.tcp_ring).0
        (try_pop_oldest blank_frame moved_frame s.tcp_ring).1 s t
        (try_pop_oldest-Pops blank_frame moved_frame s.tcp_ring v) in
    omega (arith, h)
transmitter_at-left c net (sending f) s t e v done = omega (
  arith,
  after_send-left f
      (send_frame_over_tcp c.ticks_per_ms c.connected_tcp_fd f c.tcp_send_timeout_ms net.now
        net.header_rounds net.payload_rounds).0
      _ s.tcp_ring.size,
)
transmitter_at-left c net consumer_test s t e v done = rw done (omega arith)
transmitter_at-left c net queue_test s t e v done = elim (Bool-cases (s.tcp_ring.size == 0)) [
  | inl z ↦ rw z (omega arith)
  | inr z ↦ rw z (omega (arith, taking-left s.tcp_ring.size (ground arith)))
]
transmitter_at-left c net sender_waiting s t e v done = omega arith
transmitter_at-left c net giving_up s t e v done = omega arith
transmitter_at-left c net sender_exited s t e v done = rw e (omega arith)

pub consumer_moves-left :
    (c : Settings) (throws : SaveAnswer) (s : Shared) (k : Consumer)
    → IsValid s.ring
    → s.producer_done ≡ true
    → let (s', k') = consumer_moves c throws s k in
      consumer_steps_left k'.at s'.ring.size ≤ consumer_steps_left k.at s.ring.size - 1
unfolding consumer_moves
consumer_moves-left c throws s k v done = consumer_at-left c throws k.at s k refl v done

pub transmitter_moves-left :
    (c : Settings) (net : NetAnswer) (s : Shared) (t : Transmitter)
    → IsValid s.tcp_ring
    → s.consumer_done ≡ true
    → let (s', t') = transmitter_moves c net s t in
      transmitter_steps_left t'.at s'.tcp_ring.size
      ≤ transmitter_steps_left t.at s.tcp_ring.size - 1
unfolding transmitter_moves
transmitter_moves-left c net s t v done = transmitter_at-left c net t.at s t refl v done

pub consumer_steps_left-most : (at : ConsumerAt) (n : ℕ) → consumer_steps_left at n ≤ 7 * n + 7
unfolding consumer_steps_left
consumer_steps_left-most at n = ground arith

pub transmitter_steps_left-most :
    (at : TransmitterAt) (n : ℕ) → transmitter_steps_left at n ≤ 4 * n + 4
unfolding transmitter_steps_left
transmitter_steps_left-most at n = ground arith

-- Only a thread that has left has no step left.
pub consumer_steps_left-none :
    (at : ConsumerAt) (n : ℕ) → consumer_steps_left at n ≡ 0 → at ≡ consumer_exited
unfolding consumer_steps_left
consumer_steps_left-none at n e = ground arith

pub transmitter_steps_left-none :
    (at : TransmitterAt) (n : ℕ) → transmitter_steps_left at n ≡ 0 → at ≡ sender_exited
unfolding transmitter_steps_left
transmitter_steps_left-none at n e = ground arith
