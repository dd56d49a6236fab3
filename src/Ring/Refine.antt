-- ===== src/Ring/Refine.antt =====
-- `RingBuffer` against a queue with a bound on its items that forgets its oldest item.
use native.Mathlib.Decide.{dec_lt}
use native.Mathlib.Nat.{mod-eq_of_lt}
use v4l2_capture.Prelude.{ℕ, zero, suc, ◌+◌, ◌-◌, ◌%◌, ◌≤◌, ◌<◌, ◌≡◌, refl, ap, ◌∙◌}
use v4l2_capture.Prelude.{List, [], ◌∷◌, ◌++◌, true, false, Option, none, some, ◌==◌, if◌then◌else◌}
use v4l2_capture.Prelude.{arith, length, get_or, set}
use v4l2_capture.Ring.{RingBuffer, size_add, push, try_pop_oldest, snapshot_loop, snapshot}
use v4l2_capture.Ring.Inv.{
  IsValid, pop_some, push_room, push_full, push-IsValid, try_pop_oldest-IsValid,
}
use v4l2_capture.Ring.Slots.{slots, length-slots, slots-set_next, slots-set_full, slots-pop}

-- The queue: what it holds, oldest first, and how many items it has forgotten.
pub record Queue {ℓ} (T : Type ℓ) : Type ℓ where
  pub items : List T
  pub forgotten : ℕ

module _ {ℓ} {T : Type ℓ} where
  abbrev pub tail : List T → List T
  tail [] = []
  tail (x ∷ xs) = xs

  unfoldable pub put : ℕ → T → Queue T → Queue T
  put cap x q =
      if length q.items == cap
      then record { items = tail q.items ++ (x ∷ []); forgotten = size_add q.forgotten 1 }
      else record { items = q.items ++ (x ∷ []); forgotten = q.forgotten }

  unfoldable pub take_oldest : Queue T → Option T × Queue T
  take_oldest q = elim q.items [
    | [] ↦ (none, q)
    | x ∷ xs ↦ (some x, record { items = xs; forgotten = q.forgotten })
  ]

module _ {ℓ} {T : Type ℓ} (blank : T) (moved : T → T) where
  -- What a buffer stands for.
  abbrev pub contents : RingBuffer T → Queue T
  contents r = record { items = snapshot blank moved r; forgotten = r.dropped_count }

  snapshot_loop-slots :
      (r : RingBuffer T) (i n : ℕ)
      → IsValid r
      → i + n ≤ r.size
      → snapshot_loop blank moved r i n ≡ slots blank r.buffer r.read_index i n
  unfolding snapshot_loop slots
  snapshot_loop-slots r i zero v h = refl
  snapshot_loop-slots r i (suc n) v h =
      let e : size_add r.read_index i ≡ r.read_index + i = omega arith in
      let f : size_add i 1 ≡ i + 1 = omega arith in
      rw (e, f)
        (ap (λ t. get_or r.buffer ((r.read_index + i) % length r.buffer) blank ∷ t)
          (snapshot_loop-slots r (i + 1) n v (omega arith)))

  snapshot-slots :
      (r : RingBuffer T)
      → IsValid r
      → snapshot blank moved r ≡ slots blank r.buffer r.read_index 0 r.size
  unfolding snapshot
  snapshot-slots r v = snapshot_loop-slots r 0 r.size v (omega arith)

  pub length-snapshot : (r : RingBuffer T) → IsValid r → length (snapshot blank moved r) ≡ r.size
  length-snapshot r v = rw (snapshot-slots r v) (length-slots blank r.buffer r.read_index 0 r.size)

  snapshot-push_room :
      (x : T) (r : RingBuffer T)
      → IsValid r
      → r.size < length r.buffer
      → snapshot blank moved (push blank moved x r) ≡ snapshot blank moved r ++ (x ∷ [])
  snapshot-push_room x r v h =
      snapshot-slots (push blank moved x r) (push-IsValid blank moved x r v)
      ∙ rw (push_room blank moved x r v h, snapshot-slots r v, v.write_at)
          (ap
              (λ (k : ℕ).
                slots blank (set r.buffer ((r.read_index + r.size) % length r.buffer) x)
                  r.read_index 0 k)
              (omega arith)
            ∙ slots-set_next blank r.buffer r.read_index r.size x v.read_in h)

  snapshot-push_full :
      (x : T) (r : RingBuffer T) (n : ℕ)
      → IsValid r
      → r.size ≡ length r.buffer
      → length r.buffer ≡ suc n
      → snapshot blank moved (push blank moved x r) ≡ tail (snapshot blank moved r) ++ (x ∷ [])
  unfolding slots
  snapshot-push_full x r n v h e =
      snapshot-slots (push blank moved x r) (push-IsValid blank moved x r v)
      ∙ rw (push_full blank moved x r v h, snapshot-slots r v, h ∙ e)
          (slots-set_full blank r.buffer r.read_index n x v.read_in e)

  -- `push` on a valid buffer is `put` on the queue that it stands for: the new item is the last,
  -- and a full buffer forgets its oldest item and counts it.
  pub push_refines :
      (x : T) (r : RingBuffer T)
      → IsValid r
      → contents (push blank moved x r) ≡ put (length r.buffer) x (contents r)
  unfolding put
  push_refines x r v = elim (dec_lt r.size (length r.buffer)) [
    | yes h ↦
        let t : (r.size == length r.buffer) ≡ false = ground arith in
        rw (length-snapshot r v, t)
          (λ i. record {
            items = snapshot-push_room x r v h i;
            forgotten = ap RingBuffer.dropped_count (push_room blank moved x r v h) i;
          })
    | no h ↦
        let full : r.size ≡ length r.buffer = omega arith in
        let t : (r.size == length r.buffer) ≡ true = ground arith in
        rw (length-snapshot r v, t)
          (λ i. record {
            items = snapshot-push_full x r (length r.buffer - 1) v full (omega arith) i;
            forgotten = ap RingBuffer.dropped_count (push_full blank moved x r v full) i;
          })
  ]

  snapshot-cons :
      (r : RingBuffer T) (n : ℕ)
      → IsValid r
      → r.size ≡ suc n
      → snapshot blank moved r
        ≡ get_or r.buffer r.read_index blank ∷ slots blank r.buffer r.read_index 1 n
  unfolding slots
  snapshot-cons r n v e =
      rw (snapshot-slots r v, e)
        (ap (λ (k : ℕ). get_or r.buffer k blank ∷ slots blank r.buffer r.read_index 1 n)
          (ap (λ (k : ℕ). k % length r.buffer) (omega arith) ∙ mod-eq_of_lt v.read_in))

  snapshot-pop :
      (r : RingBuffer T) (n : ℕ)
      → IsValid r
      → r.size ≡ suc n
      → snapshot blank moved (try_pop_oldest blank moved r).1
        ≡ slots blank r.buffer r.read_index 1 n
  snapshot-pop r n v e =
      snapshot-slots (try_pop_oldest blank moved r).1 (try_pop_oldest-IsValid blank moved r v)
      ∙ rw (pop_some blank moved r v (omega arith)) (
          ap
            (λ (k : ℕ).
              slots blank (set r.buffer r.read_index m) ((r.read_index + 1) % length r.buffer) 0 k)
            (omega arith)
          ∙ slots-pop blank r.buffer r.read_index n m v.read_in (omega arith))
    where
      m : T
      m = moved (get_or r.buffer r.read_index blank)

  pop_refines-some :
      (r : RingBuffer T) (n : ℕ)
      → IsValid r
      → r.size ≡ suc n
      → let (out, r') = try_pop_oldest blank moved r in
        (out, contents r') ≡ take_oldest (contents r)
  unfolding take_oldest
  pop_refines-some r n v e = rw (snapshot-cons r n v e) (λ i. (
    ap (λ p. p.0) (pop_some blank moved r v (omega arith)) i,
    record {
      items = snapshot-pop r n v e i;
      forgotten = ap (λ p. p.1.dropped_count) (pop_some blank moved r v (omega arith)) i;
    },
  ))

  pop_refines-none :
      (r : RingBuffer T)
      → IsValid r
      → r.size ≡ 0
      → let (out, r') = try_pop_oldest blank moved r in
        (out, contents r') ≡ take_oldest (contents r)
  unfolding take_oldest slots try_pop_oldest
  pop_refines-none r v e =
      let t : (r.size == 0) ≡ true = ground arith in
      let s : snapshot blank moved r ≡ [] = rw (snapshot-slots r v, e) in rw (t, s)

  -- `try_pop_oldest` on a valid buffer hands out the oldest item of its queue and leaves the rest;
  -- on an empty one it hands out nothing.
  pub pop_refines :
      (r : RingBuffer T)
      → IsValid r
      → let (out, r') = try_pop_oldest blank moved r in
        (out, contents r') ≡ take_oldest (contents r)
  pop_refines r v = elim (dec_lt 0 r.size) [
    | yes h ↦ pop_refines-some r (r.size - 1) v (omega arith)
    | no h ↦ pop_refines-none r v (omega arith)
  ]
