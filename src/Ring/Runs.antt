-- ===== src/Ring/Runs.antt =====
-- Sequences of calls on a `RingBuffer`, as the threads of the pipeline make them under its mutex,
-- against the queue, and the account of the items that went through.
use v4l2_capture.Prelude.{ℕ, suc, ◌+◌, ◌-◌, ◌^◌, ◌≤◌, ◌<◌, ◌≡◌, refl, ap, ap₂, ◌∙◌, ◌==◌}
use v4l2_capture.Prelude.{List, [], ◌∷◌, Option, none, some, arith, length, length-append}
use v4l2_capture.Prelude.{inl, inr, Bool-cases}
use v4l2_capture.Ring.{RingBuffer, create, push, try_pop_oldest}
use v4l2_capture.Ring.Inv.{
  IsValid, create-IsValid, push-IsValid, try_pop_oldest-IsValid, length-push, length-pop,
}
use v4l2_capture.Ring.Refine.{
  Queue, put, take_oldest, tail, contents, push_refines, pop_refines, length-snapshot,
}

-- A call, with the item that a `push` is given.
pub data Call {ℓ} (T : Type ℓ) : Type ℓ where
  pushes : T → Call T
  pops : Call T

module _ {ℓ} {T : Type ℓ} where
  -- The queue after the calls, and what each `pop` handed out, in order.
  unfoldable pub run_queue : ℕ → List (Call T) → Queue T → List (Option T) × Queue T
  run_queue cap [] q = ([], q)
  run_queue cap (pushes x ∷ cs) q = run_queue cap cs (put cap x q)
  run_queue cap (pops ∷ cs) q =
      let (out, q') = take_oldest q in let (outs, q'') = run_queue cap cs q' in (out ∷ outs, q'')

  abbrev pub pushed : List (Call T) → ℕ
  pushed [] = 0
  pushed (pushes x ∷ cs) = suc (pushed cs)
  pushed (pops ∷ cs) = pushed cs

  abbrev pub popped : List (Option T) → ℕ
  popped [] = 0
  popped (none ∷ os) = popped os
  popped (some x ∷ os) = suc (popped os)

module _ {ℓ} {T : Type ℓ} (blank : T) (moved : T → T) where
  unfoldable pub run : List (Call T) → RingBuffer T → List (Option T) × RingBuffer T
  run [] r = ([], r)
  run (pushes x ∷ cs) r = run cs (push blank moved x r)
  run (pops ∷ cs) r =
      let (out, r') = try_pop_oldest blank moved r in
      let (outs, r'') = run cs r' in (out ∷ outs, r'')

  -- No sequence of calls tells a valid buffer from the queue that it stands for: each `pop` hands
  -- out what the queue hands out, and the buffer ends as the queue ends.
  pub run_refines :
      (cs : List (Call T)) (r : RingBuffer T)
      → IsValid r
      → let (outs, r') = run cs r in
        (outs, contents blank moved r') ≡ run_queue (length r.buffer) cs (contents blank moved r)
  unfolding run run_queue
  run_refines [] r v = refl
  run_refines (pushes x ∷ cs) r v =
      run_refines cs (push blank moved x r) (push-IsValid blank moved x r v)
      ∙ ap₂ (λ k q. run_queue k cs q) (length-push blank moved x r) (push_refines blank moved x r v)
  run_refines (pops ∷ cs) r v =
      ap (λ p. (out ∷ p.0, p.1)) (run_refines cs left (try_pop_oldest-IsValid blank moved r v))
      ∙ ap₂ after (length-pop blank moved r) (pop_refines blank moved r v)
    where
      out : Option T
      out = (try_pop_oldest blank moved r).0

      left : RingBuffer T
      left = (try_pop_oldest blank moved r).1

      after : ℕ → Option T × Queue T → List (Option T) × Queue T
      after k (o, q) = (o ∷ (run_queue k cs q).0, (run_queue k cs q).1)

module _ {ℓ} {T : Type ℓ} where
  length-tail : (xs : List T) → length (tail xs) ≡ length xs - 1
  length-tail [] = refl
  length-tail (x ∷ xs) = omega arith

  put_account :
      (cap : ℕ) (x : T) (q : Queue T)
      → length q.items ≤ cap
      → 0 < cap
      → q.forgotten + 1 < 2 ^ 64
      → let q' = put cap x q in
        (length q'.items ≤ cap)
        × (length q'.items + q'.forgotten ≡ length q.items + q.forgotten + 1)
        × (q'.forgotten ≤ q.forgotten + 1)
  unfolding put
  put_account cap x q h p w = elim (Bool-cases (length q.items == cap)) [
    | inl e ↦ rw (e, length-append, length-tail) (ground arith)
    | inr e ↦ rw (e, length-append) (ground arith)
  ]

  take_account :
      (xs : List T) (n : ℕ) (os : List (Option T))
      → let (out, q') = take_oldest (record { items = xs; forgotten = n }) in
        (popped (out ∷ os) + length q'.items ≡ popped os + length xs)
        × (length q'.items ≤ length xs)
        × (q'.forgotten ≡ n)
  unfolding take_oldest
  take_account [] n os = omega arith
  take_account (x ∷ xs) n os = omega arith

  run_queue_account :
      (cap : ℕ) (cs : List (Call T)) (q : Queue T)
      → length q.items ≤ cap
      → 0 < cap
      → q.forgotten + pushed cs < 2 ^ 64
      → let (outs, q') = run_queue cap cs q in
        length q.items + q.forgotten + pushed cs ≡ popped outs + length q'.items + q'.forgotten
  unfolding run_queue
  run_queue_account cap [] q h p w = omega arith
  run_queue_account cap (pushes x ∷ cs) q h p w = omega (
    arith,
    run_queue_account cap cs (put cap x q) (put_account cap x q h p (omega arith)).0 p
        (omega (arith, put_account cap x q h p (omega arith))),
    put_account cap x q h p (omega arith),
  )
  run_queue_account cap (pops ∷ cs) q h p w = omega (
    arith,
    take_account q.items q.forgotten (run_queue cap cs (take_oldest q).1).0,
    run_queue_account cap cs (take_oldest q).1 (omega (arith, take_account q.items q.forgotten []))
        p (omega (arith, take_account q.items q.forgotten [])),
  )

module _ {ℓ} {T : Type ℓ} (blank : T) (moved : T → T) where
  pub run-IsValid :
      (cs : List (Call T)) (r : RingBuffer T) → IsValid r → IsValid (run blank moved cs r).1
  unfolding run
  run-IsValid [] r v = v
  run-IsValid (pushes x ∷ cs) r v =
      run-IsValid cs (push blank moved x r) (push-IsValid blank moved x r v)
  run-IsValid (pops ∷ cs) r v =
      run-IsValid cs (try_pop_oldest blank moved r).1 (try_pop_oldest-IsValid blank moved r v)

  -- From an empty buffer, every item pushed is popped, dropped or still held: while fewer than
  -- 2^64 items are pushed, their number is the sum of the three counts.
  pub run_account :
      (cs : List (Call T)) (cap : ℕ) (r : RingBuffer T)
      → create blank moved cap ≡ some r
      → cap ≤ 2 ^ 63
      → pushed cs < 2 ^ 64
      → let (outs, r') = run blank moved cs r in
        pushed cs ≡ popped outs + r'.size + r'.dropped_count
  run_account cs cap r e h w =
      let (v, len, none_held, none_lost) = create-IsValid blank moved cap r h e in
      let end : RingBuffer T = (run blank moved cs r).1 in
      omega (
        arith,
        run_queue_account (length r.buffer) cs (contents blank moved r),
        ap (λ p. popped p.0) (run_refines blank moved cs r v),
        ap (λ p. length p.1.items) (run_refines blank moved cs r v),
        ap (λ p. p.1.forgotten) (run_refines blank moved cs r v),
        length-snapshot blank moved r v,
        length-snapshot blank moved end (run-IsValid cs r v),
        v.read_in,
      )
