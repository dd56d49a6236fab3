-- ===== src/Pipeline/Threads/Ends.antt =====
-- The end of a run of the pipeline, once the producer is done.
use mathlib.Core.Path.{subst}
use v4l2_capture.Prelude.{ℕ, ◌+◌, ◌-◌, ◌*◌, ◌^◌, ◌≤◌, ◌<◌, ◌≡◌, ◌∙◌, sym, ap, true}
use v4l2_capture.Prelude.{List, [], ◌∷◌, arith, some}
use v4l2_capture.Pipeline.{Settings, consumer_exited, sender_exited}
use v4l2_capture.Pipeline.Threads.{
  Pipeline, Event, producer_runs, consumer_runs, transmitter_runs, step, run, Arguments, Choices,
  settings_of, launch,
}
use v4l2_capture.Pipeline.Threads.Produces.{producer_moves-Produces}
use v4l2_capture.Pipeline.Threads.Deeds.{consumer_gone}
use v4l2_capture.Pipeline.Threads.Consumes.{consumer_moves-Consumes}
use v4l2_capture.Pipeline.Threads.Transmits.{transmitter_moves-Transmits}
use v4l2_capture.Pipeline.Threads.Accounts.{Balanced, step-Balanced, run-Balanced}
use v4l2_capture.Pipeline.Threads.Complete.{AreInts, launch-Balanced}
use v4l2_capture.Pipeline.Threads.Drains.{
  consumer_steps_left, transmitter_steps_left, consumer_moves-left, transmitter_moves-left,
}
use v4l2_capture.Pipeline.Threads.Drains.{
  consumer_steps_left-most, transmitter_steps_left-most, consumer_steps_left-none,
  transmitter_steps_left-none,
}

-- How often a thread moves in a run.
abbrev pub consumer_turn : Event → ℕ
consumer_turn (consumer_runs throws) = 1
consumer_turn _ = 0

abbrev pub transmitter_turn : Event → ℕ
transmitter_turn (transmitter_runs net) = 1
transmitter_turn _ = 0

unfoldable pub turns : (Event → ℕ) → List Event → ℕ
turns turn [] = 0
turns turn (e ∷ es) = turn e + turns turn es

-- A step of any thread, when the producer is done.
step-consumer_left :
    (c : Settings) (e : Event) (s : Pipeline)
    → Balanced c s
    → s.shared.producer_done ≡ true
    → let s' = step c e s in
      (s'.shared.producer_done ≡ true)
      × (consumer_steps_left s'.consumer.at s'.shared.ring.size
          ≤ consumer_steps_left s.consumer.at s.shared.ring.size - consumer_turn e)
unfolding step
step-consumer_left c (producer_runs answer) s b done =
    let (o, p) =
      producer_moves-Produces c answer s.shared s.producer b.within b.producer_done b.reason in
    (p.stays done, rw (p.ring, p.over (sym b.producer_done ∙ done)) (omega arith))
step-consumer_left c (consumer_runs throws) s b done =
    let (d, k) =
      consumer_moves-Consumes c throws s.shared s.consumer b.failed b.stops b.consumer_done
        b.consumer_seen b.consumer_left in
    (k.producer_done ∙ done, consumer_moves-left c throws s.shared s.consumer b.ring_valid done)
step-consumer_left c (transmitter_runs net) s b done =
    let (d, t) =
      transmitter_moves-Transmits c net s.shared s.transmitter b.halts b.sender_seen
        b.sender_ended in
    (t.producer_done ∙ done, rw t.ring (omega arith))

run-consumer_left :
    (c : Settings) (es : List Event) (s : Pipeline)
    → c.frame_count < 2 ^ 64
    → Balanced c s
    → s.shared.producer_done ≡ true
    → let s' = run c es s in
      (s'.shared.producer_done ≡ true)
      × (consumer_steps_left s'.consumer.at s'.shared.ring.size
          ≤ consumer_steps_left s.consumer.at s.shared.ring.size - turns consumer_turn es)
unfolding run turns
run-consumer_left c [] s bound b done = (done, omega arith)
run-consumer_left c (e ∷ es) s bound b done =
    let (done', less) = step-consumer_left c e s b done in
    let (done'', rest) =
      run-consumer_left c es (step c e s) bound (step-Balanced c e s bound b) done' in
    (done'', omega (arith, less, rest))

step-transmitter_left :
    (c : Settings) (e : Event) (s : Pipeline)
    → Balanced c s
    → s.shared.consumer_done ≡ true
    → let s' = step c e s in
      (s'.shared.consumer_done ≡ true)
      × (transmitter_steps_left s'.transmitter.at s'.shared.tcp_ring.size
          ≤ transmitter_steps_left s.transmitter.at s.shared.tcp_ring.size - transmitter_turn e)
unfolding step
step-transmitter_left c (producer_runs answer) s b done =
    let (o, p) =
      producer_moves-Produces c answer s.shared s.producer b.within b.producer_done b.reason in
    (p.consumer_done ∙ done, rw p.tcp_ring (omega arith))
step-transmitter_left c (consumer_runs throws) s b done =
    let (d, k) =
      consumer_moves-Consumes c throws s.shared s.consumer b.failed b.stops b.consumer_done
        b.consumer_seen b.consumer_left in
    (k.stays done, rw (k.tcp_ring, k.over (sym b.consumer_done ∙ done)) (omega arith))
step-transmitter_left c (transmitter_runs net) s b done =
    let (d, t) =
      transmitter_moves-Transmits c net s.shared s.transmitter b.halts b.sender_seen
        b.sender_ended in
    (
      t.consumer_done ∙ done,
      transmitter_moves-left c net s.shared s.transmitter b.tcp_ring_valid done,
    )

run-transmitter_left :
    (c : Settings) (es : List Event) (s : Pipeline)
    → c.frame_count < 2 ^ 64
    → Balanced c s
    → s.shared.consumer_done ≡ true
    → let s' = run c es s in
      (s'.shared.consumer_done ≡ true)
      × (transmitter_steps_left s'.transmitter.at s'.shared.tcp_ring.size
          ≤ transmitter_steps_left s.transmitter.at s.shared.tcp_ring.size
            - turns transmitter_turn es)
unfolding run turns
run-transmitter_left c [] s bound b done = (done, omega arith)
run-transmitter_left c (e ∷ es) s bound b done =
    let (done', less) = step-transmitter_left c e s b done in
    let (done'', rest) =
      run-transmitter_left c es (step c e s) bound (step-Balanced c e s bound b) done' in
    (done'', omega (arith, less, rest))

-- The two threads one after the other.
threads_end :
    (c : Settings) (es more : List Event) (s s' : Pipeline)
    → c.frame_count < 2 ^ 64
    → Balanced c s
    → run c es s ≡ s'
    → s.shared.producer_done ≡ true
    → 7 * s.shared.ring.size + 7 ≤ turns consumer_turn es
    → 4 * s'.shared.tcp_ring.size + 4 ≤ turns transmitter_turn more
    → (s'.consumer.at ≡ consumer_exited) × ((run c more s').transmitter.at ≡ sender_exited)
threads_end c es more s s' bound b ran done enough enough' =
    let b' = subst (λ x. Balanced c x) ran (run-Balanced c es s bound b) in
    let (_, less) =
      subst
        (λ (x : Pipeline).
          (x.shared.producer_done ≡ true)
          × (consumer_steps_left x.consumer.at x.shared.ring.size
              ≤ consumer_steps_left s.consumer.at s.shared.ring.size - turns consumer_turn es))
        ran (run-consumer_left c es s bound b done) in
    let gone =
      consumer_steps_left-none s'.consumer.at s'.shared.ring.size
        (omega (arith, less, consumer_steps_left-most s.consumer.at s.shared.ring.size)) in
    let (_, less') =
      run-transmitter_left c more s' bound b' (b'.consumer_done ∙ ap consumer_gone gone) in
    (
      gone,
      transmitter_steps_left-none (run c more s').transmitter.at
          (run c more s').shared.tcp_ring.size
          (omega
            (arith, less', transmitter_steps_left-most s'.transmitter.at s'.shared.tcp_ring.size)),
    )

-- The pipeline cannot hang behind its producer: from any moment of a run at which the producer is done,
-- whatever the order of the steps, the consumer has left once it had 7 steps for each frame in the ring
-- and 7 more, and from then on the TCP sender once it had 4 for each frame in its queue and 4 more.
pub run-ends :
    (a : Arguments) (o : Choices) (s s1 s2 : Pipeline) (before es more : List Event)
    → AreInts a
    → launch a o ≡ some s
    → run (settings_of a o) before s ≡ s1
    → run (settings_of a o) es s1 ≡ s2
    → s1.shared.producer_done ≡ true
    → 7 * s1.shared.ring.size + 7 ≤ turns consumer_turn es
    → 4 * s2.shared.tcp_ring.size + 4 ≤ turns transmitter_turn more
    → (s2.consumer.at ≡ consumer_exited)
      × ((run (settings_of a o) more s2).transmitter.at ≡ sender_exited)
unfolding settings_of
run-ends a o s s1 s2 before es more ints e ran ran' done enough enough' =
    threads_end (settings_of a o) es more s1 s2 (omega (arith, ints.0))
      (subst (λ x. Balanced (settings_of a o) x) ran
        (run-Balanced (settings_of a o) before s (omega (arith, ints.0))
          (launch-Balanced a o s ints e)))
      ran' done enough enough'
