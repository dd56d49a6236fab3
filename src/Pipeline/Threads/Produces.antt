-- ===== src/Pipeline/Threads/Produces.antt =====
-- What a step of the producer does to its counters and to what the other threads see.
use v4l2_capture.Prelude.{ℕ, ◌+◌, ◌≤◌, ◌≡◌, refl, ap, Bool, true, false, if-cases, ◌⊎◌}
use v4l2_capture.Prelude.{List, [], ◌∷◌, ◌++◌, append-nil, length, arith, Option, none, some}
use v4l2_capture.Ring.{RingBuffer, push}
use v4l2_capture.Recovery.{
  CaptureErrorKind, Decision, nothing, recover, suppressed_by_cooldown, suppressed_by_budget,
  observe,
}
use v4l2_capture.Recovery.{begin_recovery_attempt, CaptureRecovery}
use v4l2_capture.Sender.{Frame, is_frame_usable}
use v4l2_capture.Pipeline.{
  Settings, blank_frame, moved_frame, Shared, Producer, ProducerAt, frame_test, capturing, counting,
  rebuilding, sleeping,
}
use v4l2_capture.Pipeline.{opening, not_rebuilt, aborting, producer_ending, producer_exited}
use v4l2_capture.Pipeline.Capturing.{
  CameraAnswer, Capture, got_frame, capture_error, capture_threw, is_usable, decided, take_frame,
  count_captured, take_error, count_error, begun, slept, opened, producer_at, after_capture,
  producer_moves,
}

-- A frame that `capture_frame_copy` may still give before the loop's test.
abbrev pub room : ProducerAt → ℕ
room capturing = 1
room _ = 0

-- A frame that is pushed and not yet counted.
abbrev pub uncounted : ProducerAt → ℕ
uncounted (counting decision) = 1
uncounted _ = 0

abbrev pub producer_gone : ProducerAt → Bool
producer_gone producer_exited = true
producer_gone _ = false

-- The loop is over.
abbrev pub is_over : ProducerAt → Bool
is_over producer_ending = true
is_over producer_exited = true
is_over _ = false

abbrev pub frames_of : Option Frame → List Frame
frames_of none = []
frames_of (some f) = f ∷ []

abbrev pub pushed : Option Frame → RingBuffer Frame → RingBuffer Frame
pushed none r = r
pushed (some f) r = push blank_frame moved_frame f r

-- The producer's part of the counts.
pub record Captures (o : Option Frame) (p p' : Producer) : Type 0 where
  pub captured : p'.captured + uncounted p'.at ≡ p.captured + uncounted p.at + length (frames_of o)
  pub produced : p'.produced + uncounted p'.at ≡ p.produced + uncounted p.at + length (frames_of o)
  pub same : p.captured ≡ p.produced → p'.captured ≡ p'.produced
  pub frames : p'.captured_frames ≡ p.captured_frames ++ frames_of o

-- A step of the producer's own, without a frame, in the loop.
abbrev Quiet : Producer → Producer → Type 0
Quiet p p' =
    Captures none p p' × (room p'.at ≡ 0) × (producer_gone p'.at ≡ false) × (is_over p'.at ≡ false)

pub record Produces (c : Settings) (o : Option Frame) (s : Shared) (p : Producer) (s' : Shared)
    (p' : Producer) : Type 0 where
  pub captures : Captures o p p'
  pub ring : s'.ring ≡ pushed o s.ring
  pub tcp_ring : s'.tcp_ring ≡ s.tcp_ring
  pub within : p'.produced + uncounted p'.at + room p'.at ≤ c.frame_count
  pub done : s'.producer_done ≡ producer_gone p'.at
  pub stays : s.producer_done ≡ true → s'.producer_done ≡ true
  pub reason : is_over p'.at ≡ true → (s'.stop_requested ≡ true) ⊎ (c.frame_count ≤ p'.produced)
  pub over : producer_gone p.at ≡ true → o ≡ none
  pub consumer_done : s'.consumer_done ≡ s.consumer_done
  pub stop : s.stop_requested ≡ true → s'.stop_requested ≡ true

decided-Captures :
    (c : Settings) (d : Decision) (p : Producer)
    → let p' = decided c d p in
      (p'.captured ≡ p.captured)
      × (p'.produced ≡ p.produced)
      × (uncounted p'.at ≡ 0)
      × (p'.captured_frames ≡ p.captured_frames)
      × (room p'.at ≡ 0)
      × (producer_gone p'.at ≡ false)
      × (is_over p'.at ≡ false)
unfolding decided
decided-Captures c nothing p = ground arith
decided-Captures c recover p = ground arith
decided-Captures c suppressed_by_cooldown p = ground arith
decided-Captures c suppressed_by_budget p = ground arith

take_frame-Captures :
    (f : Frame) (p : Producer)
    → uncounted p.at ≡ 0
    → let p' = take_frame f p in
      Captures (some f) p p'
      × (p'.captured ≡ p.captured)
      × (p'.produced ≡ p.produced)
      × (uncounted p'.at ≡ 1)
      × (room p'.at ≡ 0)
      × (producer_gone p'.at ≡ false)
      × (is_over p'.at ≡ false)
unfolding take_frame
take_frame-Captures f p e =
    let (d, controller) = observe (is_usable (is_frame_usable f)) p.invalid_frame_controller in
    ground arith

count_captured-Captures :
    (c : Settings) (d : Decision) (p : Producer)
    → uncounted p.at ≡ 1
    → Quiet p (count_captured c d p)
unfolding count_captured
count_captured-Captures c d p e = ground (
  arith,
  append-nil p.captured_frames,
  decided-Captures c d (record p { produced = p.produced + 1; captured = p.captured + 1 }),
)

take_error-Captures :
    (c : Settings) (kind : CaptureErrorKind) (p : Producer)
    → uncounted p.at ≡ 0
    → let p' = take_error c kind p in Quiet p p'
unfolding take_error count_error
take_error-Captures c kind p z = ground (arith, append-nil p.captured_frames)

begun-Captures :
    (c : Settings) (trigger may : Bool) (controller : CaptureRecovery) (p : Producer)
    → uncounted p.at ≡ 0
    → let p' = begun c trigger (may, controller) p in Quiet p p'
unfolding begun
begun-Captures c trigger true controller p z = ground (arith, append-nil p.captured_frames)
begun-Captures c trigger false controller p z = ground (arith, append-nil p.captured_frames)

slept-Captures :
    (trigger : Bool) (remaining_ms : ℕ) (stop : Bool) (p : Producer)
    → uncounted p.at ≡ 0
    → let p' = slept trigger remaining_ms stop p in Quiet p p'
unfolding slept
slept-Captures trigger remaining_ms true p z = ground (arith, append-nil p.captured_frames)
slept-Captures trigger remaining_ms false p z = ground (arith, append-nil p.captured_frames)

opened-Captures :
    (trigger rebuilds : Bool) (p : Producer)
    → uncounted p.at ≡ 0
    → let p' = opened trigger rebuilds p in Quiet p p'
unfolding opened
opened-Captures trigger true p z = ground (arith, append-nil p.captured_frames)
opened-Captures trigger false p z = ground (arith, append-nil p.captured_frames)

quiet :
    (c : Settings) (s : Shared) (p p' : Producer)
    → p.produced + uncounted p.at ≤ c.frame_count
    → s.producer_done ≡ false
    → Quiet p p'
    → producer_gone p.at ≡ false
    → Produces c none s p s p'
quiet c s p p' h d q live = ground arith

after_capture-Produces :
    (c : Settings) (capture : Capture) (s : Shared) (p : Producer)
    → p.produced + 1 ≤ c.frame_count
    → s.producer_done ≡ false
    → uncounted p.at ≡ 0
    → producer_gone p.at ≡ false
    → let (s', p') = after_capture c capture s p in (o : Option Frame) × Produces c o s p s' p'
unfolding after_capture
after_capture-Produces c (got_frame f) s p h d z live =
    (some f, ground (arith, take_frame-Captures f p z))
after_capture-Produces c (capture_error kind) s p h d z live =
    (none, quiet c s p _ (omega (arith, z)) d (take_error-Captures c kind p z) live)
after_capture-Produces c capture_threw s p h d z live =
    (none, ground (arith, append-nil p.captured_frames))

-- The producer's step from each place.
producer_at-Produces :
    (c : Settings) (answer : CameraAnswer) (at : ProducerAt) (s : Shared) (p : Producer)
    → p.at ≡ at
    → p.produced + uncounted at + room at ≤ c.frame_count
    → s.producer_done ≡ producer_gone at
    → (is_over at ≡ true → (s.stop_requested ≡ true) ⊎ (c.frame_count ≤ p.produced))
    → let (s', p') = producer_at c answer at s p in (o : Option Frame) × Produces c o s p s' p'
unfolding producer_at
producer_at-Produces c answer frame_test s p e h d w =
    (none, ground (arith, append-nil p.captured_frames))
producer_at-Produces c answer capturing s p e h d w =
    after_capture-Produces c answer.capture s p (omega (arith, h)) d (ap uncounted e)
      (ap producer_gone e)
producer_at-Produces c answer (counting decision) s p e h d w = (
  none,
  quiet c s p _ (omega (arith, h, ap uncounted e)) d
      (count_captured-Captures c decision p (ap uncounted e)) (ap producer_gone e),
)
producer_at-Produces c answer (rebuilding trigger) s p e h d w = (
  none,
  if-cases (λ (x : Shared × Producer). Produces c none s p x.0 x.1) s.stop_requested _ _
      (λ _. ground (arith, append-nil p.captured_frames))
      (λ _.
        quiet c s p _ (omega (arith, ap uncounted e)) d
          (begun-Captures c trigger (begin_recovery_attempt p.recovery_controller).0
            (begin_recovery_attempt p.recovery_controller).1 p (ap uncounted e))
          (ap producer_gone e)),
)
producer_at-Produces c answer (sleeping trigger remaining_ms) s p e h d w = (
  none,
  quiet c s p _ (omega (arith, ap uncounted e)) d
      (slept-Captures trigger remaining_ms s.stop_requested p (ap uncounted e))
      (ap producer_gone e),
)
producer_at-Produces c answer (opening trigger) s p e h d w = (
  none,
  quiet c s p _ (omega (arith, ap uncounted e)) d
      (opened-Captures trigger answer.rebuilds p (ap uncounted e)) (ap producer_gone e),
)
producer_at-Produces c answer not_rebuilt s p e h d w =
    (none, ground (arith, append-nil p.captured_frames))
producer_at-Produces c answer aborting s p e h d w =
    (none, ground (arith, append-nil p.captured_frames))
producer_at-Produces c answer producer_ending s p e h d w =
    (none, ground (arith, append-nil p.captured_frames))
producer_at-Produces c answer producer_exited s p e h d w =
    (none, ground (arith, append-nil p.captured_frames))

pub producer_moves-Produces :
    (c : Settings) (answer : CameraAnswer) (s : Shared) (p : Producer)
    → p.produced + uncounted p.at + room p.at ≤ c.frame_count
    → s.producer_done ≡ producer_gone p.at
    → (is_over p.at ≡ true → (s.stop_requested ≡ true) ⊎ (c.frame_count ≤ p.produced))
    → let (s', p') = producer_moves c answer s p in (o : Option Frame) × Produces c o s p s' p'
unfolding producer_moves
producer_moves-Produces c answer s p h d w = producer_at-Produces c answer p.at s p refl h d w
