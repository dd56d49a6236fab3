-- ===== src/Node/Accounts.antt =====
-- The counters of the node over any clients.
use v4l2_capture.Prelude.{ℕ, zero, suc, ◌+◌, ◌-◌, ◌≤◌, ◌≡◌, Bool, true, false, ◌!=◌, ◌||◌}
use v4l2_capture.Prelude.{
  if◌then◌else◌, Bool-cases, if-cases, inl, inr, List, [], ◌∷◌, ◌++◌, length, length-append, arith,
  Option, none, some,
}
use v4l2_capture.Protocol.{FrameHeader, pix_fmt_yuyv}
use v4l2_capture.Node.{
  Link, Counters, Parameters, Event, frame, Flow, go_on, leave, starved, settle, after_event,
}
use v4l2_capture.Node.{
  frame_limit_reached, session_limit_reached, Listening, quiet, listen_failed, client, LoopEnd,
  no_fuel,
}
use v4l2_capture.Node.{
  after_client, receive_one, handle_client, receiver_loop, image_failed, publish_image,
  publish_frame, sample, count,
}

pub declared_bytes : List (FrameHeader × List ℕ) → ℕ
declared_bytes [] = 0
declared_bytes ((h, _) ∷ rest) = h.payload_size + declared_bytes rest

declared_bytes-append :
    (xs : List (FrameHeader × List ℕ)) (h : FrameHeader) (payload : List ℕ)
    → declared_bytes (xs ++ ((h, payload) ∷ [])) ≡ declared_bytes xs + h.payload_size
unfolding declared_bytes
declared_bytes-append [] h payload = omega arith
declared_bytes-append ((h', _) ∷ xs) h payload = omega (arith, declared_bytes-append xs h payload)

-- The counters agree with the frames counted, the samples, the images and each other. `live` sessions
-- are open, `due` frames are counted that are not yet shown, and `closing` sessions end with an error.
pub record IsBalanced (p : Parameters) (live due closing : ℕ) (n : Counters) : Type 0 where
  pub received : n.received_frames ≡ length n.frames
  pub bytes : n.received_bytes ≡ declared_bytes n.frames
  pub timed : length n.latencies + n.latency_clock_errors ≡ n.received_frames
  pub published : n.published_images ≡ length n.images
  pub shown :
      n.published_images + n.image_publish_errors + (if p.publish_images then due else 0)
      ≡ (if p.publish_images then n.received_frames else 0)
  pub rejected : n.rejected_frames ≡ n.crc_errors + n.header_errors
  pub faults : n.header_errors + n.peer_disconnects ≤ n.completed_sessions + closing
  pub sessions : n.completed_sessions + live ≡ n.accepted_sessions

image_failed-IsBalanced :
    (p : Parameters) (live : ℕ) (n : Counters)
    → p.publish_images ≡ true
    → IsBalanced p live 1 0 n
    → IsBalanced p live 0 0 (image_failed n)
unfolding image_failed
image_failed-IsBalanced p live n e b = ground arith

publish_image-IsBalanced :
    (p : Parameters) (live : ℕ) (image : Option (List ℕ)) (n : Counters)
    → p.publish_images ≡ true
    → IsBalanced p live 1 0 n
    → IsBalanced p live 0 0 (publish_image p image n)
unfolding publish_image
publish_image-IsBalanced p live none n e b = image_failed-IsBalanced p live n e b
publish_image-IsBalanced p live (some image) n e b =
    if-cases (λ n'. IsBalanced p live 0 0 n') (p.publishes n.received_frames) _ _
      (λ _. ground (arith, length-append n.images (image ∷ [])))
      (λ _. image_failed-IsBalanced p live n e b)

publish_frame-IsBalanced :
    (p : Parameters) (live : ℕ) (h : FrameHeader) (payload : List ℕ) (n : Counters)
    → IsBalanced p live 1 0 n
    → IsBalanced p live 0 0 (publish_frame p h payload n)
unfolding publish_frame
publish_frame-IsBalanced p live h payload n b =
    if-cases (λ n'. IsBalanced p live 0 0 n') p.publish_images _ _
      (λ e.
        if-cases (λ n'. IsBalanced p live 0 0 n') (h.pixel_format != pix_fmt_yuyv) _ _
          (λ _. image_failed-IsBalanced p live n e b)
          (λ _. publish_image-IsBalanced p live _ n e b))
      (λ e. ground arith)

counted-IsBalanced :
    (p : Parameters) (live : ℕ) (h : FrameHeader) (payload : List ℕ) (n : Counters)
    → IsBalanced p live 0 0 n
    → IsBalanced p live 1 0 (count h payload (sample p h n))
unfolding count sample
counted-IsBalanced p live h payload n b = ground (
  arith,
  declared_bytes-append n.frames h payload,
  length-append n.frames ((h, payload) ∷ []),
  length-append n.latencies ((p.clock n.received_frames - h.capture_timestamp_ns) ∷ []),
)

-- A session that goes on has had no error that ends it.
abbrev closings : Flow → ℕ
closings go_on = 0
closings leave = 1
closings starved = 1

settle-IsBalanced :
    (p : Parameters) (live : ℕ) (event : Event) (n : Counters)
    → IsBalanced p live 0 0 n
    → let (flow, n') = settle p event n in IsBalanced p live 0 (closings flow) n'
unfolding settle
settle-IsBalanced p live (frame h payload) n b =
    publish_frame-IsBalanced p live h payload _ (counted-IsBalanced p live h payload n b)
settle-IsBalanced p live _ n b = ground arith

after_event-IsBalanced :
    (p : Parameters) (live : ℕ) (flow : Flow) (n : Counters) (continue : Counters → Flow × Counters)
    → IsBalanced p live 0 (closings flow) n
    → ((n' : Counters) → IsBalanced p live 0 0 n' → IsBalanced p live 0 1 (continue n').1)
    → IsBalanced p live 0 1 (after_event (flow, n) continue).1
unfolding after_event
after_event-IsBalanced p live go_on n continue b ih = ih n b
after_event-IsBalanced p live leave n continue b ih = b
after_event-IsBalanced p live starved n continue b ih = b

closing :
    (p : Parameters) (live : ℕ) (n : Counters) → IsBalanced p live 0 0 n → IsBalanced p live 0 1 n
closing p live n b = ground arith

pub fresh : Counters
fresh = record {
  received_frames = 0;
  received_bytes = 0;
  crc_errors = 0;
  header_errors = 0;
  rejected_frames = 0;
  accepted_sessions = 0;
  completed_sessions = 0;
  peer_disconnects = 0;
  latency_clock_errors = 0;
  published_images = 0;
  image_publish_errors = 0;
  latencies = [];
  frames = [];
  images = [];
}

fresh-IsBalanced : (p : Parameters) → IsBalanced p 0 0 0 fresh
unfolding fresh declared_bytes
fresh-IsBalanced p = ground arith

accepted-IsBalanced :
    (p : Parameters) (n : Counters)
    → IsBalanced p 0 0 0 n
    → IsBalanced p 1 0 0 (record n { accepted_sessions = n.accepted_sessions + 1 })
accepted-IsBalanced p n b = ground arith

-- The counters at the end of the loop: one session is open if the model's fuel is used up.
abbrev pub open_sessions : LoopEnd → ℕ
open_sessions no_fuel = 1
open_sessions _ = 0

abbrev pub EndsBalanced : Parameters → LoopEnd → Counters → Type 0
EndsBalanced p end n = IsBalanced p (open_sessions end) 0 (open_sessions end) n

after_client-EndsBalanced :
    (p : Parameters) (flow : Flow) (n : Counters) (continue : Counters → LoopEnd × Counters)
    → IsBalanced p 1 0 1 n
    → ((n' : Counters)
        → IsBalanced p 0 0 0 n'
        → let (end, n'') = continue n' in EndsBalanced p end n'')
    → let (end, n'') = after_client (flow, n) continue in EndsBalanced p end n''
unfolding after_client
after_client-EndsBalanced p leave n continue b ih = ih _ (ground arith)
after_client-EndsBalanced p go_on n continue b ih = b
after_client-EndsBalanced p starved n continue b ih = b

module _ (link : Link) where
  open link use {World, stop_requested}

  handle_client-IsBalanced :
      (rounds reads : ℕ) (p : Parameters) (live : ℕ) (w : World) (n : Counters)
      → IsBalanced p live 0 0 n
      → IsBalanced p live 0 1 (handle_client link rounds reads p w n).1
  unfolding handle_client
  handle_client-IsBalanced zero reads p live w n b = closing p live n b
  handle_client-IsBalanced (suc rounds) reads p live w n b =
      let (stop, w1) = stop_requested w in
      elim (Bool-cases (stop || frame_limit_reached p n)) [
        | inl e ↦ rw e (closing p live n b)
        | inr e ↦ rw e (
            after_event-IsBalanced p live _ _ _
              (settle-IsBalanced p live (receive_one link reads w1 p.max_payload_bytes).0 n b)
              (λ n' b'. handle_client-IsBalanced rounds reads p live _ n' b'))
      ]

  receiver_loop-EndsBalanced :
      (fuel : ℕ) (p : Parameters) (events : List (Bool × Listening World)) (n : Counters)
      → IsBalanced p 0 0 0 n
      → let (end, n') = receiver_loop link fuel p events n in EndsBalanced p end n'
  unfolding receiver_loop
  receiver_loop-EndsBalanced fuel p [] n b = b
  receiver_loop-EndsBalanced fuel p ((true, event) ∷ rest) n b = b
  receiver_loop-EndsBalanced fuel p ((false, quiet) ∷ rest) n b =
      elim (Bool-cases (frame_limit_reached p n || session_limit_reached p n)) [
        | inl e ↦ rw e b
        | inr e ↦ rw e (receiver_loop-EndsBalanced fuel p rest n b)
      ]
  receiver_loop-EndsBalanced fuel p ((false, listen_failed stop) ∷ rest) n b =
      elim (Bool-cases (frame_limit_reached p n || session_limit_reached p n || stop)) [
        | inl e ↦ rw e b
        | inr e ↦ rw e b
      ]
  receiver_loop-EndsBalanced fuel p ((false, client w) ∷ rest) n b =
      elim (Bool-cases (frame_limit_reached p n || session_limit_reached p n)) [
        | inl e ↦ rw e b
        | inr e ↦ rw e (
            after_client-EndsBalanced p _ _ _
              (handle_client-IsBalanced fuel fuel p 1 w _ (accepted-IsBalanced p n b))
              (λ n' b'. receiver_loop-EndsBalanced fuel p rest n' b'))
      ]

  -- Whatever clients connect and whatever they send, the counters balance at the end of the node's
  -- receiver loop: each frame counted has a latency sample or a clock error, and an image or an image
  -- error if images are published; the bytes are those of the frames; a rejected frame has a checksum
  -- or a header error; a session ends with at most one header error or disconnect, and every accepted
  -- session is completed unless the model's fuel is used up in it.
  pub receiver_loop_balances :
      (fuel : ℕ) (p : Parameters) (events : List (Bool × Listening World))
      → let (end, n) = receiver_loop link fuel p events fresh in EndsBalanced p end n
  receiver_loop_balances fuel p events =
      receiver_loop-EndsBalanced fuel p events fresh (fresh-IsBalanced p)
