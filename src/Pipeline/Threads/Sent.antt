-- ===== src/Pipeline/Threads/Sent.antt =====
-- What the TCP sender sends of a run, against what the producer captured.
use mathlib.Core.List.{Sublist, filter-append, sublist-append_left}
use mathlib.Core.List.Sublist as Sublist
use mathlib.Core.Path.{subst}
use mathlib.Core.Bool.{Bool-discrete}
use v4l2_capture.Prelude.{
  ◌^◌, ◌<◌, ◌≡◌, ◌∙◌, sym, refl, Bool, true, arith, List, [], ◌∷◌, ◌++◌, append_assoc, Option, some,
}
use v4l2_capture.Prelude.{length, false}
use v4l2_capture.Ring.{RingBuffer}
use v4l2_capture.Ring.Refine.{length-snapshot}
use v4l2_capture.Recovery.{CaptureRecovery, InvalidFrameRecovery}
use v4l2_capture.Pipeline.{blank_frame, moved_frame}
use v4l2_capture.Pipeline.Threads.{started}
use v4l2_capture.Pipeline.Threads.Complete.{IsFresh, launch-started}
use v4l2_capture.Sender.{Frame, is_frame_usable}
use v4l2_capture.Pipeline.{Settings, Shared, Producer, Consumer, Transmitter}
use v4l2_capture.Pipeline.Capturing.{is_usable}
use v4l2_capture.Pipeline.Threads.{
  Pipeline, Event, producer_runs, consumer_runs, transmitter_runs, step, run, Arguments, Choices,
  settings_of, launch,
}
use v4l2_capture.Pipeline.Threads.Produces.{frames_of, Produces, producer_moves-Produces}
use v4l2_capture.Pipeline.Threads.Deeds.{queueing_now, consuming_now, Deed, Consumes}
use v4l2_capture.Pipeline.Threads.Consumes.{consumer_moves-Consumes}
use v4l2_capture.Pipeline.Threads.Transmits.{
  sending_now, Parcel, Transmits, transmitter_moves-Transmits,
}
use v4l2_capture.Pipeline.Threads.Accounts.{Balanced, IsBalanced, step-Balanced}
use v4l2_capture.Pipeline.Threads.Complete.{AreInts, launch-Balanced}
use v4l2_capture.Pipeline.Threads.Order.{
  frames_in, usable_frames, frames_of_pipeline, equal-Sublist, consumed-Sublist, sent-Sublist,
  pushed-Sublist, line-append,
}

InOrder : Shared → Producer → Consumer → Transmitter → Type 0
InOrder s p k t = Sublist (frames_of_pipeline s k t) (usable_frames p.captured_frames)

Produces-InOrder :
    (c : Settings) (o : Option Frame) (s s' : Shared) (p p' : Producer) (k : Consumer)
    (t : Transmitter)
    → IsBalanced c s p k t
    → Produces c o s p s' p'
    → InOrder s p k t
    → InOrder s' p' k t
unfolding InOrder
Produces-InOrder c o s s' p p' k t b e h =
    let fresh = usable_frames (consuming_now k.at ++ frames_in s.ring) in
    let new = usable_frames (frames_of o) in
    rw (e.ring, e.tcp_ring, e.captures.frames)
      (Sublist.trans
        (Sublist.append (Sublist.refl t.sent_frames) (
          Sublist.append (Sublist.refl (sending_now t.at)) (
            Sublist.append (Sublist.refl (frames_in s.tcp_ring)) (
              Sublist.trans
                (Sublist.append (Sublist.refl (queueing_now k.at))
                  (pushed-Sublist o (consuming_now k.at) s.ring b.ring_valid))
                (equal-Sublist (sym (append_assoc (queueing_now k.at) fresh new)))))))
        (Sublist.trans
          (equal-Sublist (
            line-append t.sent_frames (sending_now t.at) (frames_in s.tcp_ring)
              (queueing_now k.at ++ fresh) new))
          (Sublist.trans (Sublist.append h (Sublist.refl new)) (
            equal-Sublist (
              sym (
                filter-append (λ f. Bool-discrete (is_usable (is_frame_usable f)) true)
                  p.captured_frames (frames_of o)))))))

Consumes-InOrder :
    (c : Settings) (d : Deed) (s s' : Shared) (p : Producer) (k k' : Consumer) (t : Transmitter)
    → IsBalanced c s p k t
    → Consumes c d s k s' k'
    → InOrder s p k t
    → InOrder s' p k' t
unfolding InOrder
Consumes-InOrder c d s s' p k k' t b e h =
    Sublist.trans
      (Sublist.append (Sublist.refl t.sent_frames) (
        Sublist.append (Sublist.refl (sending_now t.at))
          (consumed-Sublist d s s' k k' c b.ring_valid b.tcp_ring_valid e)))
      h

Transmits-InOrder :
    (c : Settings) (d : Parcel) (s s' : Shared) (p : Producer) (k : Consumer) (t t' : Transmitter)
    → IsBalanced c s p k t
    → Transmits c d s t s' t'
    → InOrder s p k t
    → InOrder s' p k t'
unfolding InOrder
Transmits-InOrder c d s s' p k t t' b e h = rw e.ring (
    Sublist.trans
      (sent-Sublist d s s' t t' c
        (queueing_now k.at ++ usable_frames (consuming_now k.at ++ frames_in s.ring))
        b.tcp_ring_valid e)
      h)

step-InOrder :
    (c : Settings) (e : Event) (s : Pipeline)
    → Balanced c s
    → InOrder s.shared s.producer s.consumer s.transmitter
    → let s' = step c e s in InOrder s'.shared s'.producer s'.consumer s'.transmitter
unfolding step
step-InOrder c (producer_runs answer) s b h =
    Produces-InOrder c _ s.shared _ s.producer _ s.consumer s.transmitter b
      (producer_moves-Produces c answer s.shared s.producer b.within b.producer_done b.reason).1 h
step-InOrder c (consumer_runs throws) s b h =
    Consumes-InOrder c _ s.shared _ s.producer s.consumer _ s.transmitter b
      (consumer_moves-Consumes c throws s.shared s.consumer b.failed b.stops b.consumer_done
        b.consumer_seen b.consumer_left).1
      h
step-InOrder c (transmitter_runs net) s b h =
    Transmits-InOrder c _ s.shared _ s.producer s.consumer s.transmitter _ b
      (transmitter_moves-Transmits c net s.shared s.transmitter b.halts b.sender_seen
        b.sender_ended).1
      h

run-InOrder :
    (c : Settings) (events : List Event) (s : Pipeline)
    → c.frame_count < 2 ^ 64
    → Balanced c s
    → InOrder s.shared s.producer s.consumer s.transmitter
    → let s' = run c events s in InOrder s'.shared s'.producer s'.consumer s'.transmitter
unfolding run
run-InOrder c [] s bound b h = h
run-InOrder c (e ∷ events) s bound b h =
    run-InOrder c events (step c e s) bound (step-Balanced c e s bound b) (step-InOrder c e s b h)

no_frames : (r : RingBuffer Frame) → IsFresh r → frames_in r ≡ []
no_frames r (v, z, _) =
    nil_of_length (frames_in r) (length-snapshot blank_frame moved_frame r v ∙ z)
  where
    nil_of_length : (l : List Frame) → length l ≡ 0 → l ≡ []
    nil_of_length [] e = refl
    nil_of_length (x ∷ l) e = absurd (omega (arith, e))

started-InOrder :
    (on : Bool) (ring tcp_ring : RingBuffer Frame) (r : CaptureRecovery) (i : InvalidFrameRecovery)
    → IsFresh ring
    → IsFresh tcp_ring
    → let s = started on ring tcp_ring r i in InOrder s.shared s.producer s.consumer s.transmitter
unfolding started InOrder
started-InOrder true ring tcp_ring r i v w =
    rw (no_frames ring v, no_frames tcp_ring w) (Sublist.refl [])
started-InOrder false ring tcp_ring r i v w =
    rw (no_frames ring v, no_frames tcp_ring w) (Sublist.refl [])

-- In every interleaving of the threads, after every step, the frames that were sent are usable frames
-- among those captured, in the order in which they were captured, none of them twice: frames are left
-- out on the way, but none is made up, repeated or moved.
pub run-sent_frames :
    (a : Arguments) (o : Choices) (s : Pipeline) (events : List Event)
    → AreInts a
    → launch a o ≡ some s
    → let s' = run (settings_of a o) events s in
      Sublist s'.transmitter.sent_frames (usable_frames s'.producer.captured_frames)
unfolding settings_of InOrder
run-sent_frames a o s events ints e =
    let (ring, tcp_ring, r, i, v, w, same) = launch-started a o s ints e in
    let starts =
      subst (λ (x : Pipeline). InOrder x.shared x.producer x.consumer x.transmitter) same
        (started-InOrder o.tcp_enabled ring tcp_ring r i v w) in
    Sublist.trans (sublist-append_left _ _) (
      run-InOrder (settings_of a o) events s (omega (arith, ints.0)) (launch-Balanced a o s ints e)
        starts)
