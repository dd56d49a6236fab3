-- ===== src/Pipeline/Threads/Accounts.antt =====
-- The counters of the threads, the two ring buffers and the frames that a thread has in hand, in any
-- interleaving of the three threads.
use v4l2_capture.Prelude.{◌+◌, ◌^◌, ◌≤◌, ◌<◌, ◌≡◌, ◌⊎◌, true}
use v4l2_capture.Prelude.{List, [], ◌∷◌, length, arith, Option, none, some}
use mathlib.Core.Path.{subst}
use v4l2_capture.Prelude.Int.{to_nat}
use v4l2_capture.Ring.{RingBuffer, try_pop_oldest}
use v4l2_capture.Ring.Inv.{IsValid, push-IsValid, try_pop_oldest-IsValid}
use v4l2_capture.Sender.{Frame}
use v4l2_capture.Pipeline.{
  Settings, blank_frame, moved_frame, Shared, Producer, Consumer, Transmitter,
}
use v4l2_capture.Pipeline.Threads.{
  Pipeline, Event, producer_runs, consumer_runs, transmitter_runs, step, run,
}
use v4l2_capture.Pipeline.Threads.Rings.{push-counts, Pops, try_pop_oldest-Pops}
use v4l2_capture.Pipeline.Threads.Produces.{
  is_over, room, uncounted, producer_gone, Produces, producer_moves-Produces,
}
use v4l2_capture.Pipeline.Threads.Deeds.{
  Stops, has_seen_done, has_left, MayLeave, queueing_now, consuming_now, unqueued, held,
  consumer_gone, has_failed, Deed, no_deed, pops, judges, queues, Consumes,
}
use v4l2_capture.Pipeline.Threads.Consumes.{consumer_moves-Consumes}
use v4l2_capture.Pipeline.Threads.Transmits.{
  Halts, has_seen_consumer, sender_gone, MayEnd, dealt_with, Parcel, takes, Transmits,
  transmitter_moves-Transmits,
}

-- The counts. A frame captured, or pushed and yet to be counted, is in the ring, dropped by it, consumed,
-- or popped and yet to be counted. If frames are sent at all, one consumed is invalid, queued, pushed to
-- the TCP queue and yet to be counted, or held. One queued, or yet to be counted, is in the TCP ring,
-- dropped by it, sent, lost to an error or a cancellation, or being sent.
pub record IsBalanced (c : Settings) (s : Shared) (p : Producer) (k : Consumer) (t : Transmitter)
    : Type 0 where
  pub ring_valid : IsValid s.ring
  pub tcp_ring_valid : IsValid s.tcp_ring
  pub within : p.produced + uncounted p.at + room p.at ≤ c.frame_count
  pub produced : p.captured ≡ p.produced
  pub captured :
      p.captured + uncounted p.at
      ≡ k.consumed + length (consuming_now k.at) + s.ring.size + s.ring.dropped_count
  pub consumed :
      c.tcp_enabled ≡ true → k.consumed ≡ k.invalid + k.tcp_queued + unqueued k.at + held k
  pub in_turn : k.tcp_queued + unqueued k.at + length (queueing_now k.at) ≤ k.consumed
  pub queued :
      k.tcp_queued + unqueued k.at ≡ dealt_with t + s.tcp_ring.size + s.tcp_ring.dropped_count
  pub listed : t.tcp_sent ≡ length t.sent_frames
  pub timeouts : t.tcp_send_timeouts ≤ t.tcp_send_errors
  pub saved : length k.saved_frames ≤ k.saved
  pub limit : length k.saved_frames ≤ to_nat c.save_limit
  pub producer_done : s.producer_done ≡ producer_gone p.at
  pub consumer_done : s.consumer_done ≡ consumer_gone k.at
  pub reason : is_over p.at ≡ true → (s.stop_requested ≡ true) ⊎ (c.frame_count ≤ p.produced)
  pub consumer_seen : has_seen_done k.at ≡ true → s.producer_done ≡ true
  pub consumer_left : has_left k.at ≡ true → MayLeave s
  pub sender_seen : has_seen_consumer t.at ≡ true → s.consumer_done ≡ true
  pub sender_ended : c.tcp_enabled ≡ true → sender_gone t.at ≡ true → MayEnd s t
  pub stops : Stops s k
  pub halts : Halts s t
  pub failed : k.consumer_error ≡ true → has_failed k.at ≡ true

pop_lem :
    (r : RingBuffer Frame) (o : Option Frame)
    → IsValid r
    → (try_pop_oldest blank_frame moved_frame r).0 ≡ o
    → let r' = (try_pop_oldest blank_frame moved_frame r).1 in Pops r o r' × IsValid r'
pop_lem r o v e = (
  subst (λ x. Pops r x (try_pop_oldest blank_frame moved_frame r).1) e
      (try_pop_oldest-Pops blank_frame moved_frame r v),
  try_pop_oldest-IsValid blank_frame moved_frame r v,
)

Produces-IsBalanced :
    (c : Settings) (o : Option Frame) (s s' : Shared) (p p' : Producer) (k : Consumer)
    (t : Transmitter)
    → c.frame_count < 2 ^ 64
    → IsBalanced c s p k t
    → Produces c o s p s' p'
    → IsBalanced c s' p' k t
Produces-IsBalanced c none s s' p p' k t bound b e = ground arith
Produces-IsBalanced c (some f) s s' p p' k t bound b e = ground (
  arith,
  push-counts blank_frame moved_frame f s.ring b.ring_valid,
  push-IsValid blank_frame moved_frame f s.ring b.ring_valid,
)

Consumes-IsBalanced :
    (c : Settings) (d : Deed) (s s' : Shared) (p : Producer) (k k' : Consumer) (t : Transmitter)
    → c.frame_count < 2 ^ 64
    → IsBalanced c s p k t
    → Consumes c d s k s' k'
    → IsBalanced c s' p k' t
Consumes-IsBalanced c no_deed s s' p k k' t bound b e = ground arith
Consumes-IsBalanced c (pops none) s s' p k k' t bound b e =
    let (counts, valid) = pop_lem s.ring _ b.ring_valid e.out in ground arith
Consumes-IsBalanced c (pops (some f)) s s' p k k' t bound b e =
    let (counts, valid) = pop_lem s.ring _ b.ring_valid e.out in ground arith
Consumes-IsBalanced c (judges f) s s' p k k' t bound b e = ground arith
Consumes-IsBalanced c (queues f) s s' p k k' t bound b e = ground (
  arith,
  push-counts blank_frame moved_frame f s.tcp_ring b.tcp_ring_valid,
  push-IsValid blank_frame moved_frame f s.tcp_ring b.tcp_ring_valid,
)

Transmits-IsBalanced :
    (c : Settings) (d : Parcel) (s s' : Shared) (p : Producer) (k : Consumer) (t t' : Transmitter)
    → IsBalanced c s p k t
    → Transmits c d s t s' t'
    → IsBalanced c s' p k t'
Transmits-IsBalanced c (takes none) s s' p k t t' b e =
    let (counts, valid) = pop_lem s.tcp_ring _ b.tcp_ring_valid e.out in ground arith
Transmits-IsBalanced c (takes (some f)) s s' p k t t' b e =
    let (counts, valid) = pop_lem s.tcp_ring _ b.tcp_ring_valid e.out in ground arith
Transmits-IsBalanced c _ s s' p k t t' b e = ground arith

abbrev pub Balanced : Settings → Pipeline → Type 0
Balanced c s = IsBalanced c s.shared s.producer s.consumer s.transmitter

pub step-Balanced :
    (c : Settings) (e : Event) (s : Pipeline)
    → c.frame_count < 2 ^ 64
    → Balanced c s
    → Balanced c (step c e s)
unfolding step
step-Balanced c (producer_runs answer) s bound b =
    Produces-IsBalanced c _ s.shared _ s.producer _ s.consumer s.transmitter bound b
      (producer_moves-Produces c answer s.shared s.producer b.within b.producer_done b.reason).1
step-Balanced c (consumer_runs throws) s bound b =
    Consumes-IsBalanced c _ s.shared _ s.producer s.consumer _ s.transmitter bound b
      (consumer_moves-Consumes c throws s.shared s.consumer b.failed b.stops b.consumer_done
        b.consumer_seen b.consumer_left).1
step-Balanced c (transmitter_runs net) s bound b =
    Transmits-IsBalanced c _ s.shared _ s.producer s.consumer s.transmitter _ b
      (transmitter_moves-Transmits c net s.shared s.transmitter b.halts b.sender_seen
        b.sender_ended).1

pub run-Balanced :
    (c : Settings) (events : List Event) (s : Pipeline)
    → c.frame_count < 2 ^ 64
    → Balanced c s
    → Balanced c (run c events s)
unfolding run
run-Balanced c [] s bound b = b
run-Balanced c (e ∷ events) s bound b =
    run-Balanced c events (step c e s) bound (step-Balanced c e s bound b)
