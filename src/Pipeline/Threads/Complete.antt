-- ===== src/Pipeline/Threads/Complete.antt =====
-- A run of the pipeline from its start: the counts after its steps, and at its end.
use v4l2_capture.Prelude.{ℕ, ◌+◌, ◌^◌, ◌<◌, ◌≡◌, refl, Bool, true, false}
use v4l2_capture.Prelude.{List, arith, Option, none, some}
use mathlib.Core.Path.{subst}
use mathlib.Core.Option.{some-injective}
use v4l2_capture.Prelude.{if◌then◌else◌}
use v4l2_capture.Prelude.Int.{to_nat}
use v4l2_capture.Ring.{RingBuffer, create}
use v4l2_capture.Ring.Inv.{IsValid, create-IsValid}
use v4l2_capture.Recovery.{
  CaptureRecovery, InvalidFrameRecovery, create_capture_recovery, create_invalid_frame_recovery,
}
use v4l2_capture.Sender.{Frame}
use v4l2_capture.Pipeline.{
  Settings, blank_frame, moved_frame, producer_exited, consumer_exited, sender_exited,
}
use v4l2_capture.Pipeline.Threads.{
  Pipeline, Event, run, started, Arguments, Choices, is_refused, settings_of, ◌>>=◌, launch,
}
use v4l2_capture.Pipeline.Threads.Accounts.{Balanced, run-Balanced}

bind_some {ℓ ℓ'} :
    {A : Type ℓ} {B : Type ℓ'} (m : Option A) (f : A → Option B) (b : B)
    → (m >>= f) ≡ some b
    → (a : A) × (m ≡ some a) × (f a ≡ some b)
bind_some none f b e = absurd (ground arith)
bind_some (some a) f b e = (a, refl, e)

-- The arguments are C++ `int`s.
abbrev pub AreInts : Arguments → Type 0
AreInts a =
    (to_nat a.frame_count < 2 ^ 31)
    × (to_nat a.ring_capacity < 2 ^ 31)
    × (to_nat a.tcp_queue_capacity < 2 ^ 31)

abbrev pub IsFresh : RingBuffer Frame → Type 0
IsFresh r = IsValid r × (r.size ≡ 0) × (r.dropped_count ≡ 0)

started-Balanced :
    (c : Settings) (on : Bool) (ring tcp_ring : RingBuffer Frame) (r : CaptureRecovery)
    (i : InvalidFrameRecovery)
    → c.tcp_enabled ≡ on
    → IsFresh ring
    → IsFresh tcp_ring
    → Balanced c (started on ring tcp_ring r i)
unfolding started
started-Balanced c true ring tcp_ring r i e v w = ground arith
started-Balanced c false ring tcp_ring r i e v w = ground arith

unless_some {ℓ} :
    {A : Type ℓ} (b : Bool) (m : Option A) (a : A) → (if b then none else m) ≡ some a → m ≡ some a
unless_some true m a e = absurd (ground arith)
unless_some false m a e = e

-- At the end of a run without a stop nothing is on its way.
complete_lem :
    (c : Settings) (s : Pipeline)
    → Balanced c s
    → c.tcp_enabled ≡ true
    → s.producer.at ≡ producer_exited
    → s.consumer.at ≡ consumer_exited
    → s.transmitter.at ≡ sender_exited
    → s.shared.stop_requested ≡ false
    → s.transmitter.tcp_send_cancellations ≡ 0
    → (s.producer.captured ≡ c.frame_count)
      × (s.shared.ring.size ≡ 0)
      × (s.shared.tcp_ring.size ≡ 0)
      × (s.transmitter.tcp_send_errors ≡ 0)
      × (c.frame_count
          ≡ s.consumer.invalid + s.transmitter.tcp_sent + s.shared.ring.dropped_count
            + s.shared.tcp_ring.dropped_count)
complete_lem c s b on p k t go none_cancelled = ground arith

create-IsFresh :
    (n : ℕ) (r : RingBuffer Frame)
    → n < 2 ^ 31
    → create blank_frame moved_frame n ≡ some r
    → IsFresh r
create-IsFresh n r small made =
    let (v, _, z, d) = create-IsValid blank_frame moved_frame n r (omega arith) made in (v, z, d)

-- What is launched starts with two fresh buffers.
pub launch-started :
    (a : Arguments) (o : Choices) (s : Pipeline)
    → AreInts a
    → launch a o ≡ some s
    → (ring : RingBuffer Frame) × (tcp_ring : RingBuffer Frame) × (r : CaptureRecovery)
      × (i : InvalidFrameRecovery) × IsFresh ring
      × IsFresh tcp_ring
      × (started o.tcp_enabled ring tcp_ring r i ≡ s)
unfolding launch
launch-started a o s (_, small, small') e =
    let (ring, made, e2) = bind_some _ _ s (unless_some (is_refused a) _ s e) in
    let (tcp_ring, made', e3) =
      bind_some (create blank_frame moved_frame (to_nat a.tcp_queue_capacity)) _ s e2 in
    let (recovery, _, e4) =
      bind_some
        (create_capture_recovery a.camera_timeout_recovery_threshold a.camera_recovery_max_attempts)
        _ s e3 in
    let (invalid_frame, _, e5) =
      bind_some
        (create_invalid_frame_recovery a.camera_invalid_frame_recovery_threshold
          a.camera_invalid_frame_recovery_cooldown_frames a.camera_invalid_frame_recovery_max_count)
        (λ i. some (started o.tcp_enabled ring tcp_ring recovery i)) s e4 in
    (
      ring,
      tcp_ring,
      recovery,
      invalid_frame,
      create-IsFresh _ ring small made,
      create-IsFresh _ tcp_ring small' made',
      some-injective _ _ e5,
    )

pub launch-Balanced :
    (a : Arguments) (o : Choices) (s : Pipeline)
    → AreInts a
    → launch a o ≡ some s
    → Balanced (settings_of a o) s
unfolding settings_of
launch-Balanced a o s ints e =
    let (ring, tcp_ring, r, i, v, w, same) = launch-started a o s ints e in
    subst (λ x. Balanced (settings_of a o) x) same
      (started-Balanced (settings_of a o) o.tcp_enabled ring tcp_ring r i refl v w)

-- In every interleaving of the threads, whatever the camera, the disk and the network do, the counters
-- account for every frame after every step of a thread: those captured are no more than asked for, and,
-- with one that is pushed and yet to be counted, they are in the ring, dropped by it, consumed, or popped
-- and yet to be counted; if TCP is on, those consumed are invalid, queued for TCP, pushed to its queue
-- and yet to be counted, or held by the consumer; those queued, with one yet to be counted, are in the
-- TCP queue, dropped by it, sent, failed, cancelled or being sent; and no more frames are saved than the
-- limit.
pub run_balances :
    (a : Arguments) (o : Choices) (s : Pipeline) (events : List Event)
    → AreInts a
    → launch a o ≡ some s
    → let c = settings_of a o in Balanced c (run c events s)
unfolding settings_of
run_balances a o s events ints e =
    run-Balanced (settings_of a o) events s (omega (arith, ints.0)) (launch-Balanced a o s ints e)

-- A run over a connection that ends without a stop or a cancelled send is complete: when the three
-- threads have left, as many frames were captured as asked for, both buffers are empty, no send has
-- failed, and every frame was dropped by a full buffer, found invalid, or sent.
pub run_completes :
    (a : Arguments) (o : Choices) (s s' : Pipeline) (events : List Event)
    → AreInts a
    → launch a o ≡ some s
    → o.tcp_enabled ≡ true
    → run (settings_of a o) events s ≡ s'
    → s'.producer.at ≡ producer_exited
    → s'.consumer.at ≡ consumer_exited
    → s'.transmitter.at ≡ sender_exited
    → s'.shared.stop_requested ≡ false
    → s'.transmitter.tcp_send_cancellations ≡ 0
    → (s'.producer.captured ≡ to_nat a.frame_count)
      × (s'.shared.ring.size ≡ 0)
      × (s'.shared.tcp_ring.size ≡ 0)
      × (s'.transmitter.tcp_send_errors ≡ 0)
      × (to_nat a.frame_count
          ≡ s'.consumer.invalid + s'.transmitter.tcp_sent + s'.shared.ring.dropped_count
            + s'.shared.tcp_ring.dropped_count)
unfolding settings_of
run_completes a o s s' events ints e on ran p k t go none_cancelled =
    complete_lem (settings_of a o) s'
      (subst (λ x. Balanced (settings_of a o) x) ran (run_balances a o s events ints e)) on p k t go
      none_cancelled
