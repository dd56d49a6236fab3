-- ===== src/Ring/Slots.antt =====
-- The items of a buffer read round its end: `slots buf read i n` are the `n` items from offset `i`
-- past the index `read` on, which is what `RingBuffer::snapshot` copies.
use native.Mathlib.Decide.{dec_lt}
use native.Mathlib.Nat.{mod-lt, mod-add-mod, mod-eq_of_lt, mod-eq-sub-mod}
use v4l2_capture.Prelude.{
  ℕ, zero, suc, ◌+◌, ◌-◌, ◌%◌, ◌≤◌, ◌<◌, ◌≡◌, ◌≢◌, refl, sym, ◌⊎◌, inl, inr, ap, ap₂, ◌∙◌, List, [],
  ◌∷◌, ◌++◌,
}
use v4l2_capture.Prelude.{arith, length, length-set, get_or, set, get_or-set_self, get_or-set_ne}

module _ {ℓ} {T : Type ℓ} (blank : T) where
  unfoldable pub slots : List T → ℕ → ℕ → ℕ → List T
  slots buf read i zero = []
  slots buf read i (suc n) = get_or buf ((read + i) % length buf) blank ∷ slots buf read (i + 1) n

  pub length-slots : (buf : List T) (read i n : ℕ) → length (slots buf read i n) ≡ n
  unfolding slots
  length-slots buf read i zero = refl
  length-slots buf read i (suc n) = ap suc (length-slots buf read (i + 1) n)

  -- The index may be advanced instead of the offset.
  pub slots-shift :
      (buf : List T) (read i n : ℕ)
      → slots buf ((read + 1) % length buf) i n ≡ slots buf read (i + 1) n
  unfolding slots
  slots-shift buf read i zero = refl
  slots-shift buf read i (suc n) =
      ap₂ ◌∷◌
        (ap (λ (k : ℕ). get_or buf k blank)
          (mod-add-mod (read + 1) (length buf) i ∙ ap (λ (k : ℕ). k % length buf) (omega arith)))
        (slots-shift buf read (i + 1) n)

  pub slots-suc :
      (buf : List T) (read i n : ℕ)
      → slots buf read i (suc n)
        ≡ slots buf read i n ++ (get_or buf ((read + (i + n)) % length buf) blank ∷ [])
  unfolding slots
  slots-suc buf read i zero =
      ap (λ (k : ℕ). get_or buf ((read + k) % length buf) blank ∷ []) (omega arith)
  slots-suc buf read i (suc n) =
      ap (λ t. get_or buf ((read + i) % length buf) blank ∷ t)
        (slots-suc buf read (i + 1) n
          ∙ ap
              (λ (k : ℕ).
                slots buf read (i + 1) n ++ (get_or buf ((read + k) % length buf) blank ∷ []))
              (omega arith))

mod_twice :
    (x cap : ℕ) → x < cap + cap → ((x < cap) × (x % cap ≡ x)) ⊎ ((cap ≤ x) × (x % cap ≡ x - cap))
mod_twice x cap h = elim (dec_lt x cap) [
  | yes p ↦ inl (p, mod-eq_of_lt p)
  | no p ↦
      inr (omega arith, mod-eq-sub-mod {n = x} {m = cap} (omega arith) ∙ mod-eq_of_lt (omega arith))
]

-- Two offsets less than a round apart are two indices.
pub offsets-ne :
    {read i j cap : ℕ}
    → read < cap
    → i < j
    → j < i + cap
    → j ≤ cap
    → (read + j) % cap ≢ (read + i) % cap
offsets-ne {read} {i} {j} {cap} h p q r =
    omega (arith, mod_twice (read + j) cap (omega arith), mod_twice (read + i) cap (omega arith))

module _ {ℓ} {T : Type ℓ} (blank : T) where
  -- A write at an index that is not among the slots leaves them alone.
  slots-set_ne :
      (buf : List T) (read i n w : ℕ) (x : T)
      → ((k : ℕ) → i ≤ k → k < i + n → w ≢ (read + k) % length buf)
      → slots blank (set buf w x) read i n ≡ slots blank buf read i n
  unfolding slots
  slots-set_ne buf read i zero w x h = refl
  slots-set_ne buf read i (suc n) w x h = rw (length-set buf w x) (
      ap₂ ◌∷◌ (get_or-set_ne buf x blank (h i (omega arith) (omega arith)))
        (slots-set_ne buf read (i + 1) n w x (λ k p q. h k (omega arith) (omega arith))))

  -- A write just past the slots extends them by the item.
  pub slots-set_next :
      (buf : List T) (read n : ℕ) (x : T)
      → read < length buf
      → n < length buf
      → slots blank (set buf ((read + n) % length buf) x) read 0 (suc n)
        ≡ slots blank buf read 0 n ++ (x ∷ [])
  slots-set_next buf read n x h p =
      slots-suc blank (set buf w x) read 0 n ∙ ap₂ ◌++◌ before (ap (λ t. t ∷ []) here)
    where
      w : ℕ
      w = (read + n) % length buf

      before : slots blank (set buf w x) read 0 n ≡ slots blank buf read 0 n
      before =
          slots-set_ne buf read 0 n w x
            (λ k a b. offsets-ne h (omega arith) (omega arith) (omega arith))

      here : get_or (set buf w x) ((read + (0 + n)) % length (set buf w x)) blank ≡ x
      here = rw length-set (
          ap (λ (k : ℕ). get_or (set buf w x) ((read + k) % length buf) blank) (omega arith)
          ∙ get_or-set_self buf w x blank (mod-lt (read + n) (omega arith)))

  -- A write at the read index is not seen from the next offset on.
  pub slots-set_read :
      (buf : List T) (read n : ℕ) (x : T)
      → read < length buf
      → n < length buf
      → slots blank (set buf read x) read 1 n ≡ slots blank buf read 1 n
  slots-set_read buf read n x h p = slots-set_ne buf read 1 n read x (λ k a b e.
      offsets-ne {i = 0} {j = k} h (omega arith) (omega arith) (omega arith)
        (sym e ∙ sym (ap (λ (t : ℕ). t % length buf) (omega arith) ∙ mod-eq_of_lt h)))

  -- On a full buffer, the slots after a write at the read index and a step of that index.
  pub slots-set_full :
      (buf : List T) (read n : ℕ) (x : T)
      → read < length buf
      → length buf ≡ suc n
      → slots blank (set buf read x) ((read + 1) % length buf) 0 (suc n)
        ≡ slots blank buf read 1 n ++ (x ∷ [])
  slots-set_full buf read n x h e =
      ap (λ (k : ℕ). slots blank (set buf read x) ((read + 1) % k) 0 (suc n))
        (sym (length-set buf read x))
      ∙ slots-shift blank (set buf read x) read 0 (suc n)
      ∙ ap (λ (k : ℕ). slots blank (set buf read x) read k (suc n)) (omega arith)
      ∙ slots-suc blank (set buf read x) read 1 n
      ∙ ap₂ ◌++◌ (slots-set_read buf read n x h (omega arith)) (ap (λ t. t ∷ []) here)
    where
      back : (read + (1 + n)) % length (set buf read x) ≡ read
      back = rw (length-set buf read x) (
          ap (λ (t : ℕ). t % length buf) (omega arith)
          ∙ mod-eq-sub-mod {n = read + length buf} {m = length buf} (omega arith)
          ∙ ap (λ (t : ℕ). t % length buf) (omega arith)
          ∙ mod-eq_of_lt h)

      here : get_or (set buf read x) ((read + (1 + n)) % length (set buf read x)) blank ≡ x
      here = rw back (get_or-set_self buf read x blank h)

  -- The slots after a write at the read index and a step of that index.
  pub slots-pop :
      (buf : List T) (read n : ℕ) (x : T)
      → read < length buf
      → n < length buf
      → slots blank (set buf read x) ((read + 1) % length buf) 0 n ≡ slots blank buf read 1 n
  slots-pop buf read n x h p =
      ap (λ (k : ℕ). slots blank (set buf read x) ((read + 1) % k) 0 n)
        (sym (length-set buf read x))
      ∙ slots-shift blank (set buf read x) read 0 n
      ∙ ap (λ (k : ℕ). slots blank (set buf read x) read k n) (omega arith)
      ∙ slots-set_read buf read n x h p
