-- ===== src/Pipeline/Threads/Order.antt =====
-- The order of the frames that are sent, on their way and in the two buffers, against those captured.
use mathlib.Core.List.{Sublist, filter, filter-append}
use mathlib.Core.List.Sublist as Sublist
use mathlib.Core.Bool.{Bool-discrete}
use mathlib.Core.Path.{subst}
use v4l2_capture.Prelude.{ℕ, ◌≡◌, ◌∙◌, sym, refl, ap, true, ◌==◌, inl, inr, if-cases}
use v4l2_capture.Prelude.{List, [], ◌∷◌, ◌++◌, append_assoc, append-nil, length, Option, none, some}
use v4l2_capture.Ring.{RingBuffer, push, try_pop_oldest, snapshot}
use v4l2_capture.Ring.Inv.{IsValid}
use v4l2_capture.Ring.Refine.{contents, put, take_oldest, tail, push_refines, pop_refines, Queue}
use v4l2_capture.Sender.{Frame, is_frame_usable}
use v4l2_capture.Pipeline.{Settings, blank_frame, moved_frame, Shared, Consumer, Transmitter}
use v4l2_capture.Pipeline.Capturing.{is_usable}
use v4l2_capture.Pipeline.Threads.Produces.{frames_of, pushed}
use v4l2_capture.Pipeline.Threads.Deeds.{
  queueing_now, consuming_now, Deed, no_deed, pops, judges, queues, Consumes,
}
use v4l2_capture.Pipeline.Threads.Transmits.{
  sending_now, Parcel, no_parcel, takes, delivers, loses, Transmits,
}

abbrev pub frames_in : RingBuffer Frame → List Frame
frames_in r = snapshot blank_frame moved_frame r

-- The frames that `is_frame_usable` lets through.
abbrev pub usable_frames : List Frame → List Frame
usable_frames fs = filter (λ f. Bool-discrete (is_usable (is_frame_usable f)) true) fs

tail-Sublist {ℓ} : {A : Type ℓ} (l : List A) → Sublist (tail l) l
tail-Sublist [] = Sublist.refl []
tail-Sublist (x ∷ l) = Sublist.cons x (Sublist.refl l)

put-Sublist {ℓ} :
    {A : Type ℓ} (size : ℕ) (x : A) (q : Queue A)
    → Sublist (put size x q).items (q.items ++ (x ∷ []))
unfolding put
put-Sublist size x q =
    if-cases (λ (q' : Queue _). Sublist q'.items (q.items ++ (x ∷ []))) (length q.items == size) _ _
      (λ _. Sublist.append (tail-Sublist q.items) (Sublist.refl (x ∷ []))) (λ _. Sublist.refl _)

-- A push keeps the new frame, and may leave out the oldest.
push-Sublist :
    (f : Frame) (r : RingBuffer Frame)
    → IsValid r
    → Sublist (frames_in (push blank_frame moved_frame f r)) (frames_in r ++ (f ∷ []))
push-Sublist f r v =
    subst (λ (q : Queue Frame). Sublist q.items (frames_in r ++ (f ∷ [])))
      (sym (push_refines blank_frame moved_frame f r v))
      (put-Sublist (length r.buffer) f (contents blank_frame moved_frame r))

take_oldest-items :
    (fs : List Frame) (n : ℕ)
    → let (out, q) = take_oldest (record { items = fs; forgotten = n }) in
      fs ≡ frames_of out ++ q.items
unfolding take_oldest
take_oldest-items [] n = refl
take_oldest-items (f ∷ fs) n = refl

-- A pop takes out the oldest.
pop-frames :
    (r : RingBuffer Frame) (o : Option Frame)
    → IsValid r
    → (try_pop_oldest blank_frame moved_frame r).0 ≡ o
    → frames_in r ≡ frames_of o ++ frames_in (try_pop_oldest blank_frame moved_frame r).1
pop-frames r o v e =
    subst (λ (x : Option Frame × Queue Frame). frames_in r ≡ frames_of x.0 ++ x.1.items)
      (sym (pop_refines blank_frame moved_frame r v)
        ∙ ap
            (λ x.
              (x, contents blank_frame moved_frame (try_pop_oldest blank_frame moved_frame r).1))
            e)
      (take_oldest-items (frames_in r) r.dropped_count)

-- Every frame captured that can still be sent, in the order in which they are sent.
abbrev pub line : List Frame → List Frame → List Frame → List Frame → List Frame → List Frame
line sent sending waiting queueing fresh =
    sent ++ (sending ++ (waiting ++ (queueing ++ usable_frames fresh)))

abbrev pub frames_of_pipeline : Shared → Consumer → Transmitter → List Frame
frames_of_pipeline s k t =
    line t.sent_frames (sending_now t.at) (frames_in s.tcp_ring) (queueing_now k.at)
      (consuming_now k.at ++ frames_in s.ring)

pub equal-Sublist {ℓ} : {A : Type ℓ} {l m : List A} → l ≡ m → Sublist l m
equal-Sublist {l = l} e = subst (λ n. Sublist l n) e (Sublist.refl l)

taken_usable :
    (f : Frame) (fs : List Frame)
    → is_usable (is_frame_usable f) ≡ true
    → f ∷ usable_frames fs ≡ usable_frames (f ∷ fs)
taken_usable f fs u = rw u refl

-- The consumer's part of the line.
pub consumed-Sublist :
    (d : Deed) (s s' : Shared) (k k' : Consumer) (c : Settings)
    → IsValid s.ring
    → IsValid s.tcp_ring
    → Consumes c d s k s' k'
    → Sublist
        (frames_in s'.tcp_ring
          ++ (queueing_now k'.at ++ usable_frames (consuming_now k'.at ++ frames_in s'.ring)))
        (frames_in s.tcp_ring
          ++ (queueing_now k.at ++ usable_frames (consuming_now k.at ++ frames_in s.ring)))
consumed-Sublist no_deed s s' k k' c v w e =
    rw (e.ring, e.tcp_ring, e.hand.0, e.hand.1, e.hand.2, e.hand.3) (Sublist.refl _)
consumed-Sublist (pops o) s s' k k' c v w e =
    rw (e.ring, e.tcp_ring, e.hand.0, e.hand.1, e.hand.2, e.hand.3, pop-frames s.ring o v e.out)
      (Sublist.refl _)
consumed-Sublist (judges f) s s' k k' c v w e =
    let fresh = frames_in s.ring in
    rw (e.ring, e.tcp_ring, e.hand.0, e.hand.1, e.hand.3)
      (Sublist.append (Sublist.refl (frames_in s.tcp_ring)) (elim e.hand.2 [
        | inl gone ↦ rw gone (
            Sublist.filter (λ g. Bool-discrete (is_usable (is_frame_usable g)) true)
              (Sublist.cons f (Sublist.refl fresh)))
        | inr (kept, u) ↦ rw kept (equal-Sublist (taken_usable f fresh u))
      ]))
consumed-Sublist (queues f) s s' k k' c v w e =
    rw (e.ring, e.tcp_ring, e.hand.0, e.hand.1, e.hand.2, e.hand.3)
      (Sublist.trans
        (Sublist.append (push-Sublist f s.tcp_ring w)
          (Sublist.refl (usable_frames (frames_in s.ring))))
        (equal-Sublist
          (append_assoc (frames_in s.tcp_ring) (f ∷ []) (usable_frames (frames_in s.ring)))))

-- The sender's part.
pub sent-Sublist :
    (d : Parcel) (s s' : Shared) (t t' : Transmitter) (c : Settings) (rest : List Frame)
    → IsValid s.tcp_ring
    → Transmits c d s t s' t'
    → Sublist
        (t'.sent_frames ++ (sending_now t'.at ++ (frames_in s'.tcp_ring ++ rest)))
        (t.sent_frames ++ (sending_now t.at ++ (frames_in s.tcp_ring ++ rest)))
sent-Sublist no_parcel s s' t t' c rest v e =
    rw (e.tcp_ring, e.sends.forwards.0, e.sends.forwards.1, e.sends.forwards.2) (Sublist.refl _)
sent-Sublist (takes o) s s' t t' c rest v e =
    rw
      (
        e.tcp_ring,
        e.sends.forwards.0,
        e.sends.forwards.1,
        e.sends.forwards.2,
        pop-frames s.tcp_ring o v e.out,
      )
      (equal-Sublist (
        ap (λ l. t.sent_frames ++ l)
          (sym (
            append_assoc (frames_of o)
              (frames_in (try_pop_oldest blank_frame moved_frame s.tcp_ring).1) rest))))
sent-Sublist (delivers f) s s' t t' c rest v e =
    rw (e.tcp_ring, e.sends.forwards.0, e.sends.forwards.1, e.sends.forwards.2)
      (equal-Sublist (append_assoc t.sent_frames (f ∷ []) (frames_in s.tcp_ring ++ rest)))
sent-Sublist (loses f) s s' t t' c rest v e =
    rw (e.tcp_ring, e.sends.forwards.0, e.sends.forwards.1, e.sends.forwards.2)
      (Sublist.append (Sublist.refl t.sent_frames)
        (Sublist.cons f (Sublist.refl (frames_in s.tcp_ring ++ rest))))

-- The producer's part: a new frame is the last, after those popped and those in the ring.
pub pushed-Sublist :
    (o : Option Frame) (popped : List Frame) (r : RingBuffer Frame)
    → IsValid r
    → Sublist
        (usable_frames (popped ++ frames_in (pushed o r)))
        (usable_frames (popped ++ frames_in r) ++ usable_frames (frames_of o))
pushed-Sublist none popped r v =
    equal-Sublist (sym (append-nil (usable_frames (popped ++ frames_in r))))
pushed-Sublist (some f) popped r v =
    let keeps = λ (g : Frame). Bool-discrete (is_usable (is_frame_usable g)) true in
    Sublist.trans (Sublist.filter keeps (Sublist.append (Sublist.refl popped) (push-Sublist f r v)))
      (equal-Sublist (
        ap (λ l. filter keeps l) (sym (append_assoc popped (frames_in r) (f ∷ [])))
        ∙ filter-append keeps (popped ++ frames_in r) (f ∷ [])))

pub line-append :
    (a b c d e : List Frame) → a ++ (b ++ (c ++ (d ++ e))) ≡ (a ++ (b ++ (c ++ d))) ++ e
line-append a b c d e =
    ap (λ l. a ++ l) (ap (λ l. b ++ l) (sym (append_assoc c d e)) ∙ sym (append_assoc b (c ++ d) e))
    ∙ sym (append_assoc a (b ++ (c ++ d)) e)
