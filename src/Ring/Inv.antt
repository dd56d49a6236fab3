-- ===== src/Ring/Inv.antt =====
-- The representation invariant of `RingBuffer`, which relates the indices and the size, and the
-- operations on it.
use v4l2_capture.Prelude.{ℕ, ◌+◌, ◌%◌, ◌^◌, ◌≤◌, ◌<◌, ◌≡◌, some, arith, length, length-set}
use v4l2_capture.Prelude.{length-replicate, get_or, none}
use native.Mathlib.Nat.{mod-add-mod}
use v4l2_capture.Prelude.{◌≢◌, ◌∙◌, ap, ◌-◌, set, false, true, ◌==◌}
use native.Mathlib.Decide.{dec_lt}
use v4l2_capture.Ring.{RingBuffer, size_add, create, push, try_pop_oldest}

pub record IsValid {ℓ} {T : Type ℓ} (r : RingBuffer T) : Type 0 where
  pub bounded : length r.buffer ≤ 2 ^ 63
  pub read_in : r.read_index < length r.buffer
  pub size_in : r.size ≤ length r.buffer
  pub write_at : r.write_index ≡ (r.read_index + r.size) % length r.buffer

-- `(read + size + 1) % cap` in the two forms that the code computes it.
pub mod_step : (read size cap : ℕ) → ((read + size) % cap + 1) % cap ≡ (read + (size + 1)) % cap
mod_step read size cap = mod-add-mod (read + size) cap 1 ∙ ap (λ (t : ℕ). t % cap) (omega arith)

pub mod_full : (read cap : ℕ) → read < cap → (read + cap) % cap ≡ read
mod_full read cap h = grind arith

pub mod_pop :
    (read size cap : ℕ) → size ≢ 0 → ((read + 1) % cap + (size - 1)) % cap ≡ (read + size) % cap
mod_pop read size cap h =
    mod-add-mod (read + 1) cap (size - 1) ∙ ap (λ (t : ℕ). t % cap) (omega arith)

module _ {ℓ} {T : Type ℓ} where
  write-lt : (r : RingBuffer T) → IsValid r → r.write_index < length r.buffer
  write-lt r v = omega arith

  write_full :
      (r : RingBuffer T) → IsValid r → r.size ≡ length r.buffer → r.write_index ≡ r.read_index
  write_full r v h =
      v.write_at
      ∙ ap (λ (n : ℕ). (r.read_index + n) % length r.buffer) h
      ∙ mod_full r.read_index (length r.buffer) v.read_in

  no_wrap :
      (r : RingBuffer T)
      → IsValid r
      → (size_add r.read_index 1 ≡ r.read_index + 1)
        × (size_add r.write_index 1 ≡ r.write_index + 1)
        × (size_add r.size 1 ≡ r.size + 1)
  no_wrap r v = omega (arith, write-lt r v)

module _ {ℓ} {T : Type ℓ} (blank : T) (moved : T → T) where
  pub length-push :
      (x : T) (r : RingBuffer T) → length (push blank moved x r).buffer ≡ length r.buffer
  unfolding push
  length-push x r = ground (arith, length-set r.buffer r.write_index x)

  pub length-pop :
      (r : RingBuffer T) → length (try_pop_oldest blank moved r).1.buffer ≡ length r.buffer
  unfolding try_pop_oldest
  length-pop r =
      ground (arith, length-set r.buffer r.read_index (moved (get_or r.buffer r.read_index blank)))

  -- `push_locked` on a buffer with room, and on a full one, without wrap-around.
  pub push_room :
      (x : T) (r : RingBuffer T)
      → IsValid r
      → r.size < length r.buffer
      → push blank moved x r ≡ record r {
        buffer = set r.buffer r.write_index x;
        write_index = (r.write_index + 1) % length r.buffer;
        size = r.size + 1;
      }
  unfolding push
  push_room x r v h =
      let e : (r.size == length r.buffer) ≡ false = ground arith in
      let w : size_add r.write_index 1 ≡ r.write_index + 1 = (no_wrap r v).1 in
      let s : size_add r.size 1 ≡ r.size + 1 = (no_wrap r v).2 in rw (e, w, s)

  pub push_full :
      (x : T) (r : RingBuffer T)
      → IsValid r
      → r.size ≡ length r.buffer
      → push blank moved x r ≡ record r {
        buffer = set r.buffer r.read_index x;
        read_index = (r.read_index + 1) % length r.buffer;
        write_index = (r.read_index + 1) % length r.buffer;
        dropped_count = size_add r.dropped_count 1;
      }
  unfolding push
  push_full x r v h =
      let e : (r.size == length r.buffer) ≡ true = ground arith in
      let w : r.write_index ≡ r.read_index = write_full r v h in
      let s : size_add r.read_index 1 ≡ r.read_index + 1 = (no_wrap r v).0 in simp (e, w, s)

  pub push-IsValid : (x : T) (r : RingBuffer T) → IsValid r → IsValid (push blank moved x r)
  push-IsValid x r v = elim (dec_lt r.size (length r.buffer)) [
    | yes h ↦ rw (push_room x r v h) (
        ground (
          arith,
          length-set r.buffer r.write_index x,
          mod_step r.read_index r.size (length r.buffer),
        ))
    | no h ↦ rw (push_full x r v (omega arith)) (
        ground (
          arith,
          length-set r.buffer r.read_index x,
          mod_full ((r.read_index + 1) % length r.buffer) (length r.buffer),
        ))
  ]

  pub pop_some :
      (r : RingBuffer T)
      → IsValid r
      → r.size ≢ 0
      → try_pop_oldest blank moved r ≡ (
        some (get_or r.buffer r.read_index blank),
        record r {
          buffer = set r.buffer r.read_index (moved (get_or r.buffer r.read_index blank));
          read_index = (r.read_index + 1) % length r.buffer;
          size = r.size - 1;
        },
      )
  unfolding try_pop_oldest
  pop_some r v h =
      let e : (r.size == 0) ≡ false = ground arith in
      let s : size_add r.read_index 1 ≡ r.read_index + 1 = (no_wrap r v).0 in rw (e, s)

  pub pop_none : (r : RingBuffer T) → r.size ≡ 0 → try_pop_oldest blank moved r ≡ (none, r)
  unfolding try_pop_oldest
  pop_none r h = let e : (r.size == 0) ≡ true = ground arith in rw e

  pub try_pop_oldest-IsValid :
      (r : RingBuffer T) → IsValid r → IsValid (try_pop_oldest blank moved r).1
  unfolding try_pop_oldest
  try_pop_oldest-IsValid r v = ground (
    arith,
    length-set r.buffer r.read_index (moved (get_or r.buffer r.read_index blank)),
    mod_pop r.read_index r.size (length r.buffer),
  )

  pub create-IsValid :
      (cap : ℕ) (r : RingBuffer T)
      → cap ≤ 2 ^ 63
      → create blank moved cap ≡ some r
      → IsValid r × (length r.buffer ≡ cap) × (r.size ≡ 0) × (r.dropped_count ≡ 0)
  unfolding create
  create-IsValid cap r h e = ground (arith, length-replicate cap blank)
