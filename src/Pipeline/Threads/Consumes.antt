-- ===== src/Pipeline/Threads/Consumes.antt =====
-- The steps of the consumer: each is one of its deeds.
use v4l2_capture.Prelude.{
  ◌+◌, ◌≤◌, ◌≡◌, refl, ap, true, false, Bool-cases, sym, ◌∙◌, if-cases, ltb, ◌&&◌, inl, inr,
}
use v4l2_capture.Prelude.{[], ◌∷◌, ◌++◌, length, length-append, arith, Option, none, some}
use v4l2_capture.Prelude.Int.{to_nat}
use v4l2_capture.Ring.{RingBuffer, try_pop_oldest, empty}
use v4l2_capture.Sender.{Frame, is_frame_usable}
use v4l2_capture.Pipeline.{
  Settings, blank_frame, moved_frame, Shared, Consumer, ConsumerAt, stop_test, done_test, ring_test,
  popping, consumer_waiting,
}
use v4l2_capture.Pipeline.{consuming, queueing, queued, closing, failing, stopping, consumer_exited}
use v4l2_capture.Pipeline.Capturing.{is_usable}
use v4l2_capture.Pipeline.Consuming.{
  to_u64, SaveAnswer, passed_on, save, consume, popped, consumer_at, consumer_moves,
}
use v4l2_capture.Pipeline.Threads.Deeds.{
  queueing_now, consuming_now, consumer_gone, has_failed, has_seen_done, has_left, MayLeave,
  is_failing, Stops, Deed, HandAfter, Counts, Consumes, no_deed, pops, judges, queues,
}

-- A frame that is taken and counted.
abbrev Keeps : Settings → Frame → Consumer → Consumer → Type 0
Keeps c f k k' =
    Counts c (judges f) k k'
    × HandAfter (judges f) k.at k'.at
    × (consumer_gone k'.at ≡ false)
    × (has_seen_done k'.at ≡ false)
    × (has_left k'.at ≡ false)
    × (k'.consumer_error ≡ true → (has_failed k'.at ≡ true) × (is_failing k'.at ≡ true))

-- A usable frame, counted, and saved or not.
record Saved (c : Settings) (k k' : Consumer) : Type 0 where
  consumed : k'.consumed ≡ k.consumed + 1
  queued : k'.tcp_queued ≡ k.tcp_queued
  invalid : k'.invalid ≡ k.invalid
  sound : k'.consumer_error ≡ false
  saved : length k.saved_frames ≤ k.saved → length k'.saved_frames ≤ k'.saved
  limit :
      length k.saved_frames ≤ k.saved
      → length k.saved_frames ≤ to_nat c.save_limit
      → length k'.saved_frames ≤ to_nat c.save_limit

passed_on-Keeps :
    (c : Settings) (f : Frame) (k k1 : Consumer)
    → k.at ≡ consuming f
    → k.consumer_error ≡ false
    → is_usable (is_frame_usable f) ≡ true
    → Saved c k k1
    → let k' = passed_on c f k1 in Keeps c f k k'
unfolding passed_on
passed_on-Keeps c f k k1 e sound u h = elim (Bool-cases c.tcp_enabled) [
  | inl t ↦ rw t (
    ground arith,
    (ap queueing_now e, ap consuming_now e, inr (refl, u), refl),
    refl,
    refl,
    refl,
    λ w. ground arith,
  )
  | inr t ↦ rw t (
    ground arith,
    (ap queueing_now e, ap consuming_now e, inl refl, refl),
    refl,
    refl,
    refl,
    λ w. ground arith,
  )
]

save-Keeps :
    (c : Settings) (throws : SaveAnswer) (f : Frame) (k k1 : Consumer)
    → k.at ≡ consuming f
    → k.consumer_error ≡ false
    → is_usable (is_frame_usable f) ≡ true
    → Saved c k k1
    → k1.saved ≡ k.saved
    → k1.saved_frames ≡ k.saved_frames
    → let k' = save c throws f k1 in Keeps c f k k'
unfolding save
save-Keeps c throws f k k1 e sound u h same frames =
    if-cases (Keeps c f k) (ltb k1.saved (to_nat c.save_limit)) _ _
      (λ less.
        if-cases (Keeps c f k) throws _ _
          (λ _. (
            ground arith,
            (ap queueing_now e, ap consuming_now e, inl refl, refl),
            refl,
            refl,
            refl,
            λ w. (refl, refl),
          ))
          (λ _.
            passed_on-Keeps c f k
              (record k1 { saved = k1.saved + 1; saved_frames = k1.saved_frames ++ (f ∷ []) }) e
              sound u (ground (arith, length-append k1.saved_frames (f ∷ []), ap length frames))))
      (λ _. passed_on-Keeps c f k (record k1 { saved = k1.saved + 1 }) e sound u (ground arith))

consume-Keeps :
    (c : Settings) (throws : SaveAnswer) (f : Frame) (k : Consumer)
    → k.at ≡ consuming f
    → k.consumer_error ≡ false
    → let k' = consume c throws f k in Keeps c f k k'
unfolding consume
consume-Keeps c throws f k e sound =
    if-cases (Keeps c f k) (is_usable (is_frame_usable f)) _ _
      (λ u.
        if-cases (Keeps c f k) (c.pipeline_save && ltb k.saved (to_u64 c.save_limit)) _ _
          (λ _.
            save-Keeps c throws f k
              (record k {
                consumed = k.consumed + 1;
                consumed_bytes = k.consumed_bytes + f.bytesused;
              })
              e sound u (ground arith) refl refl)
          (λ _.
            passed_on-Keeps c f k
              (record k {
                consumed = k.consumed + 1;
                consumed_bytes = k.consumed_bytes + f.bytesused;
              })
              e sound u (ground arith)))
      (λ _. (
        ground arith,
        (ap queueing_now e, ap consuming_now e, inl refl, refl),
        refl,
        refl,
        refl,
        λ w. ground arith,
      ))

consume-Consumes :
    (c : Settings) (throws : SaveAnswer) (f : Frame) (s : Shared) (k : Consumer)
    → k.at ≡ consuming f
    → k.consumer_error ≡ false
    → s.consumer_done ≡ false
    → Consumes c (judges f) s k s (consume c throws f k)
consume-Consumes c throws f s k e sound live =
    let (counts, hand, here, unseen, within, failed) = consume-Keeps c throws f k e sound in
    record {
      counts = counts;
      hand = hand;
      out = tt;
      ring = refl;
      tcp_ring = refl;
      producer_done = refl;
      failed = λ w. (failed w).0;
      done = live ∙ sym here;
      seen = λ w. ground arith;
      stops = λ w. inl (failed w).1;
      left = λ w. ground arith;
      over = λ w. ground arith;
      stays = λ w. w;
      stop = λ w. w;
    }

popped-Consumes :
    (c : Settings) (out : Option Frame) (ring : RingBuffer Frame) (s : Shared) (k : Consumer)
    → k.at ≡ popping
    → k.consumer_error ≡ false
    → s.consumer_done ≡ false
    → (out, ring) ≡ try_pop_oldest blank_frame moved_frame s.ring
    → let (s', k') = popped (out, ring) s k in Consumes c (pops out) s k s' k'
unfolding popped
popped-Consumes c none ring s k e sound live r = record {
  counts = ground arith;
  hand = (ap queueing_now e, ap consuming_now e, refl, refl);
  out = sym (ap (λ x. x.0) r);
  ring = ap (λ x. x.1) r;
  tcp_ring = refl;
  producer_done = refl;
  failed = λ w. ground arith;
  done = live;
  seen = λ w. ground arith;
  stops = λ w. ground arith;
  left = λ w. ground arith;
  over = λ w. ground arith;
  stays = λ w. w;
  stop = λ w. w;
}
popped-Consumes c (some f) ring s k e sound live r = record {
  counts = ground arith;
  hand = (ap queueing_now e, ap consuming_now e, refl, refl);
  out = sym (ap (λ x. x.0) r);
  ring = ap (λ x. x.1) r;
  tcp_ring = refl;
  producer_done = refl;
  failed = λ w. ground arith;
  done = live;
  seen = λ w. ground arith;
  stops = λ w. ground arith;
  left = λ w. ground arith;
  over = λ w. ground arith;
  stays = λ w. w;
  stop = λ w. w;
}

consumer_at-Consumes :
    (c : Settings) (throws : SaveAnswer) (at : ConsumerAt) (s : Shared) (k : Consumer)
    → k.at ≡ at
    → (k.consumer_error ≡ true → has_failed at ≡ true)
    → Stops s k
    → s.consumer_done ≡ consumer_gone at
    → (has_seen_done at ≡ true → s.producer_done ≡ true)
    → (has_left at ≡ true → MayLeave s)
    → let (s', k') = consumer_at c throws at s k in (d : Deed) × Consumes c d s k s' k'
unfolding consumer_at empty
consumer_at-Consumes c throws popping s k e h st live sd lf = (
  pops (try_pop_oldest blank_frame moved_frame s.ring).0,
  popped-Consumes c (try_pop_oldest blank_frame moved_frame s.ring).0
      (try_pop_oldest blank_frame moved_frame s.ring).1 s k e (ground arith) live refl,
)
consumer_at-Consumes c throws (consuming f) s k e h st live sd lf =
    (judges f, consume-Consumes c throws f s k e (ground arith) live)
consumer_at-Consumes c throws (queueing f) s k e h st live sd lf = (queues f, ground arith)
consumer_at-Consumes c throws queued s k e h st live sd lf = (no_deed, ground arith)
consumer_at-Consumes c throws stop_test s k e h st live sd lf = (no_deed, ground arith)
consumer_at-Consumes c throws done_test s k e h st live sd lf = (no_deed, ground arith)
consumer_at-Consumes c throws ring_test s k e h st live sd lf = (no_deed, ground arith)
consumer_at-Consumes c throws consumer_waiting s k e h st live sd lf = (no_deed, ground arith)
consumer_at-Consumes c throws closing s k e h st live sd lf = (no_deed, ground arith)
consumer_at-Consumes c throws failing s k e h st live sd lf = (no_deed, ground arith)
consumer_at-Consumes c throws stopping s k e h st live sd lf = (no_deed, ground arith)
consumer_at-Consumes c throws consumer_exited s k e h st live sd lf = (no_deed, ground arith)

pub consumer_moves-Consumes :
    (c : Settings) (throws : SaveAnswer) (s : Shared) (k : Consumer)
    → (k.consumer_error ≡ true → has_failed k.at ≡ true)
    → Stops s k
    → s.consumer_done ≡ consumer_gone k.at
    → (has_seen_done k.at ≡ true → s.producer_done ≡ true)
    → (has_left k.at ≡ true → MayLeave s)
    → let (s', k') = consumer_moves c throws s k in (d : Deed) × Consumes c d s k s' k'
unfolding consumer_moves
consumer_moves-Consumes c throws s k h st live sd lf =
    consumer_at-Consumes c throws k.at s k refl h st live sd lf
