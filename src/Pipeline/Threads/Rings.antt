-- ===== src/Pipeline/Threads/Rings.antt =====
-- The sizes and the drops of the two ring buffers in a push and a pop.
use v4l2_capture.Prelude.{
  ◌+◌, ◌^◌, ◌<◌, ◌≡◌, refl, Option, none, some, arith, length, ◌==◌, Bool-cases, inl, inr,
}
use v4l2_capture.Ring.{RingBuffer, push, try_pop_oldest}
use v4l2_capture.Ring.Inv.{pop_none, IsValid, push_room, push_full, pop_some}
use native.Mathlib.Decide.{dec_lt}

-- What a pop does to the size.
abbrev pub Pops {ℓ} : {T : Type ℓ} → RingBuffer T → Option T → RingBuffer T → Type 0
Pops r none r' = (r.size ≡ 0) × (r'.size ≡ 0) × (r'.dropped_count ≡ r.dropped_count)
Pops r (some x) r' = (r.size ≡ r'.size + 1) × (r'.dropped_count ≡ r.dropped_count)

module _ {ℓ} {T : Type ℓ} (blank : T) (moved : T → T) where
  -- A push adds one to what the buffer holds and has dropped.
  pub push-counts :
      (x : T) (r : RingBuffer T)
      → IsValid r
      → r.dropped_count + 1 < 2 ^ 64
      → let r' = push blank moved x r in r'.size + r'.dropped_count ≡ r.size + r.dropped_count + 1
  push-counts x r v h = elim (dec_lt r.size (length r.buffer)) [
    | yes room ↦ rw (push_room blank moved x r v room) (omega arith)
    | no full ↦ rw (push_full blank moved x r v (omega arith)) (omega arith)
  ]

  pub try_pop_oldest-Pops :
      (r : RingBuffer T) → IsValid r → let (out, r') = try_pop_oldest blank moved r in Pops r out r'
  try_pop_oldest-Pops r v = elim (Bool-cases (r.size == 0)) [
    | inl e ↦
        let zero_size : r.size ≡ 0 = ground arith in
        rw (pop_none blank moved r zero_size) (zero_size, zero_size, refl)
    | inr e ↦ rw (pop_some blank moved r v (λ z. ground arith)) (ground arith, refl)
  ]
