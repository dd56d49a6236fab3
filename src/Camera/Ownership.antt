-- ===== src/Camera/Ownership.antt =====
-- Which buffers the driver has before and after a call of `capture_frame_copy`.
use mathlib.Core.Path.{subst}
use v4l2_capture.Prelude.{
  ℕ, zero, suc, ◌<◌, ◌≡◌, refl, sym, ap, ◌∙◌, Bool, true, false, ◌&&◌, ◌||◌, ◌==◌, leb, ltb, not,
  if-cases, arith,
}
use v4l2_capture.Prelude.{List, [], ◌∷◌, length, get_or, set}
use v4l2_capture.Recovery.{CaptureRecovery, should_reinitialize}
use v4l2_capture.Camera.{
  Camera, eintr, eagain, PollResult, poll_failed, poll_expired, events, Dequeued, DequeueResult,
  dequeue_failed, dequeued, Driver,
}
use v4l2_capture.Camera.{
  CaptureResult, captured, capture_error, requeue_buffer, copy_frame, check_buffer, after_dequeue,
  dequeue_frame, capture_frame_copy,
}

-- The driver gives a buffer that it has, if it is one of the buffers.
abbrev pub Has : Camera → DequeueResult → Type 0
Has c (dequeue_failed e) = Unit
Has c (dequeued b) = b.index < length c.buffer_lengths → get_or c.with_driver b.index false ≡ true

-- After this the producer of src/main.cpp captures again without a rebuild of the camera: a frame, or an
-- error for which the controller asks for none.
abbrev pub GoesOn : CaptureRecovery → CaptureResult → Type 0
GoesOn r (captured f) = Unit
GoesOn r (capture_error kind) = (should_reinitialize kind r).0 ≡ false
GoesOn r _ = ⊥

set-set : (l : List Bool) (i : ℕ) → get_or l i false ≡ true → set (set l i false) i true ≡ l
set-set [] i h = refl
set-set (x ∷ l) zero h = ap (λ y. y ∷ l) (sym h)
set-set (x ∷ l) (suc i) h = ap (λ m. x ∷ m) (set-set l i h)

Keeps : CaptureRecovery → Camera → CaptureResult × Camera → Type 0
Keeps r c x = GoesOn r x.0 → x.1 ≡ c

given_back :
    (c : Camera) (i : ℕ)
    → get_or c.with_driver i false ≡ true
    → record c { with_driver = set (set c.with_driver i false) i true } ≡ c
given_back c i h = ap (λ l. record c { with_driver = l }) (set-set c.with_driver i h)

copy_frame-Keeps :
    (r : CaptureRecovery) (d : Driver) (b : Dequeued) (c : Camera)
    → get_or c.with_driver b.index false ≡ true
    → Keeps r c (copy_frame d b (record c { with_driver = set c.with_driver b.index false }))
unfolding copy_frame requeue_buffer Keeps
copy_frame-Keeps r d b c h =
    if-cases (Keeps r c) d.requeue_works _ _ (λ _ g. given_back c b.index h) (λ _ g. absurd g)

check_buffer-Keeps :
    (r : CaptureRecovery) (d : Driver) (b : Dequeued) (c : Camera)
    → Has c (dequeued b)
    → Keeps r c (check_buffer d b (record c { with_driver = set c.with_driver b.index false }))
unfolding check_buffer Keeps should_reinitialize
check_buffer-Keeps r d b c has =
    if-cases (Keeps r c) (leb (length c.buffer_lengths) b.index) _ _ (λ _ g. absurd (ground arith))
      (λ inside.
        if-cases (Keeps r c) (ltb (get_or c.buffer_lengths b.index 0) b.bytesused) _ _
          (λ _ g. absurd (ground arith)) (λ _. copy_frame-Keeps r d b c (has (ground arith))))

after_dequeue-Keeps :
    (r : CaptureRecovery) (d : Driver) (q : DequeueResult) (c : Camera)
    → Has c q
    → Keeps r c (after_dequeue d q c)
unfolding after_dequeue Keeps
after_dequeue-Keeps r d (dequeue_failed eagain) c has = λ g. refl
after_dequeue-Keeps r d (dequeue_failed e) c has = λ g. refl
after_dequeue-Keeps r d (dequeued b) c has = check_buffer-Keeps r d b c has

dequeue_frame-Keeps :
    (r : CaptureRecovery) (d : Driver) (ps : List PollResult) (c : Camera)
    → Has c d.dequeue
    → Keeps r c (dequeue_frame d ps c)
unfolding dequeue_frame Keeps
dequeue_frame-Keeps r d [] c has = λ g. refl
dequeue_frame-Keeps r d (poll_failed eintr ∷ rest) c has = dequeue_frame-Keeps r d rest c has
dequeue_frame-Keeps r d (poll_failed e ∷ rest) c has = λ g. refl
dequeue_frame-Keeps r d (poll_expired ∷ rest) c has = λ g. refl
dequeue_frame-Keeps r d (events true error readable ∷ rest) c has = λ g. refl
dequeue_frame-Keeps r d (events false error readable ∷ rest) c has =
    if-cases (Keeps r c) (error && not readable) _ _ (λ _ g. refl)
      (λ _.
        if-cases (Keeps r c) (not readable) _ _ (λ _ g. refl)
          (λ _. after_dequeue-Keeps r d d.dequeue c has))

capture_frame_copy-Keeps :
    (r : CaptureRecovery) (d : Driver) (c : Camera)
    → Has c d.dequeue
    → Keeps r c (capture_frame_copy d c)
unfolding capture_frame_copy Keeps
capture_frame_copy-Keeps r d c has =
    if-cases (Keeps r c) (not c.is_open) _ _ (λ _ g. refl)
      (λ _.
        if-cases (Keeps r c) (not c.streaming) _ _ (λ _ g. refl)
          (λ _.
            if-cases (Keeps r c)
              (c.current_width == 0 || c.current_height == 0 || c.current_pixelformat == 0) _ _
              (λ _ g. refl) (λ _. dequeue_frame-Keeps r d d.polls c has)))

-- No buffer is lost while the producer goes on: whatever `poll` and the ioctls answer, when a capture
-- ends with a frame, or with an error for which the recovery controller asks for no rebuild, the driver
-- has exactly the buffers again that it had, and the camera is as it was.
pub capture_frame_copy-keeps_buffers :
    (r : CaptureRecovery) (d : Driver) (c c' : Camera) (result : CaptureResult)
    → Has c d.dequeue
    → capture_frame_copy d c ≡ (result, c')
    → GoesOn r result
    → c' ≡ c
unfolding Keeps
capture_frame_copy-keeps_buffers r d c c' result has e goes =
    sym (ap (λ x. x.1) e)
    ∙ capture_frame_copy-Keeps r d c has (subst (λ x. GoesOn r x) (sym (ap (λ x. x.0) e)) goes)
