-- ===== src/Ring.antt =====
-- include/ring_buffer.hpp: a bounded buffer that drops its oldest item when it is full. Every
-- operation runs under the mutex, so each is one step from a state to a state.
pub mod Inv
pub mod Refine
pub mod Runs
pub mod Slots
use v4l2_capture.Prelude.{ℕ, zero, suc, ◌+◌, ◌-◌, ◌%◌, ◌^◌, List, [], ◌∷◌, Bool, Option, none, some}
use v4l2_capture.Prelude.{◌==◌, if◌then◌else◌, length, get_or, set, replicate}

-- `RingBuffer<T>`, without its mutex.
pub record RingBuffer {ℓ} (T : Type ℓ) : Type ℓ where
  pub buffer : List T
  pub read_index : ℕ
  pub write_index : ℕ
  pub size : ℕ
  pub dropped_count : ℕ

-- `size_t` addition wraps.
abbrev pub size_add : ℕ → ℕ → ℕ
size_add a b = (a + b) % 2 ^ 64

-- `buffer_.size()`
abbrev pub capacity {ℓ} : {T : Type ℓ} → RingBuffer T → ℕ
capacity r = length r.buffer

unfoldable pub empty {ℓ} : {T : Type ℓ} → RingBuffer T → Bool
empty r = r.size == 0

-- `blank` is `T()`, and `moved` is what moving from an item leaves in its place.
module _ {ℓ} {T : Type ℓ} (blank : T) (moved : T → T) where
  -- `none` is the `std::invalid_argument` of a zero capacity.
  unfoldable pub create : ℕ → Option (RingBuffer T)
  create cap =
      if cap == 0
      then none
      else some (record {
        buffer = replicate cap blank;
        read_index = 0;
        write_index = 0;
        size = 0;
        dropped_count = 0;
      })

  -- `push_locked`, which both overloads of `push` call.
  unfoldable pub push : T → RingBuffer T → RingBuffer T
  push item r =
      let stored = record r { buffer = set r.buffer r.write_index item } in
      let counted =
        if r.size == length r.buffer
        then record stored {
          read_index = size_add r.read_index 1 % length r.buffer;
          dropped_count = size_add r.dropped_count 1;
        }
        else record stored { size = size_add r.size 1 } in
      record counted { write_index = size_add r.write_index 1 % length r.buffer }

  -- The option is what goes out through `out`; `none` is the result `false`.
  unfoldable pub try_pop_oldest : RingBuffer T → Option T × RingBuffer T
  try_pop_oldest r = if r.size == 0 then (none, r) else (
    some (get_or r.buffer r.read_index blank),
    record r {
      buffer = set r.buffer r.read_index (moved (get_or r.buffer r.read_index blank));
      read_index = size_add r.read_index 1 % length r.buffer;
      size = r.size - 1;
    },
  )

  -- The loop of `snapshot` with the rounds left: it copies the slots from offset `i` on.
  pub snapshot_loop : RingBuffer T → ℕ → ℕ → List T
  snapshot_loop r i zero = []
  snapshot_loop r i (suc n) =
      get_or r.buffer (size_add r.read_index i % length r.buffer) blank
      ∷ snapshot_loop r (size_add i 1) n

  pub snapshot : RingBuffer T → List T
  unfolding snapshot_loop
  snapshot r = snapshot_loop r 0 r.size
