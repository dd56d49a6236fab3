-- ===== src/Protocol/Crc.antt =====
-- `compute_crc32`: its range, its shift-and-divide form, and payloads with a damaged byte.
use v4l2_capture.Prelude.{ℕ, zero, suc, ◌-◌, ◌/◌, ◌%◌, ◌^◌, ◌≤◌, ◌<◌, ◌≡◌, ◌≢◌, refl, sym, ap, ◌∙◌}
use v4l2_capture.Prelude.{
  Bool-cases, inl, inr, bit_and, bit_xor, ◌==◌, if◌then◌else◌, List, [], ◌∷◌, ◌++◌, All, All-append,
  arith,
}
use v4l2_capture.Prelude.Bits.{
  bit_xor-lt, bit_xor-cancel, bit_and-mask, bit_xor-zero, bit_xor_comm, bit_xor-top,
}
use v4l2_capture.Protocol.{u32_max, crc_polynomial, crc_bit, crc_bits, crc_loop, compute_crc32}

-- The division step of the CRC without masks.
abbrev pub divide_bit : ℕ → ℕ
divide_bit crc = if crc % 2 == 0 then crc / 2 else bit_xor (crc / 2) crc_polynomial

crc_bit-divide_bit : (crc : ℕ) → crc_bit crc ≡ divide_bit crc
unfolding crc_bit
crc_bit-divide_bit crc = elim (Bool-cases (crc % 2 == 0)) [
  | inl e ↦
      let low : bit_and crc 1 ≡ 0 = ground (arith, bit_and-mask 1 crc) in
      rw (e, low) (bit_xor-zero (crc / 2))
  | inr e ↦ let low : bit_and crc 1 ≡ 1 = ground (arith, bit_and-mask 1 crc) in rw (e, low)
]

crc_bit-lt : (crc : ℕ) → crc < 2 ^ 32 → crc_bit crc < 2 ^ 32
crc_bit-lt crc h =
    rw (crc_bit-divide_bit crc) (ground (arith, bit_xor-lt 32 (crc / 2) crc_polynomial))

odd_high : (crc : ℕ) → crc < 2 ^ 32 → 2 ^ 31 ≤ bit_xor (crc / 2) crc_polynomial
odd_high crc h = bit_xor-top 31 (crc / 2) crc_polynomial (omega arith) (omega arith) (omega arith)

odd_half :
    (a b : ℕ)
    → a < 2 ^ 32
    → b < 2 ^ 32
    → bit_xor (a / 2) crc_polynomial ≡ bit_xor (b / 2) crc_polynomial
    → a / 2 ≡ b / 2
odd_half a b ha hb e =
    sym (bit_xor-cancel 32 (a / 2) crc_polynomial (omega arith) (omega arith))
    ∙ ap (λ (t : ℕ). bit_xor t crc_polynomial) e
    ∙ bit_xor-cancel 32 (b / 2) crc_polynomial (omega arith) (omega arith)

-- A round loses nothing: the top bit tells which branch was taken.
crc_bit-injective : (a b : ℕ) → a < 2 ^ 32 → b < 2 ^ 32 → crc_bit a ≡ crc_bit b → a ≡ b
crc_bit-injective a b ha hb e = ground (
  arith,
  sym (crc_bit-divide_bit a) ∙ e ∙ crc_bit-divide_bit b,
  odd_high a ha,
  odd_high b hb,
  odd_half a b ha hb,
)

crc_bits-lt : (n crc : ℕ) → crc < 2 ^ 32 → crc_bits n crc < 2 ^ 32
unfolding crc_bits
crc_bits-lt zero crc h = h
crc_bits-lt (suc n) crc h = crc_bits-lt n (crc_bit crc) (crc_bit-lt crc h)

crc_bits-injective : (n a b : ℕ) → a < 2 ^ 32 → b < 2 ^ 32 → crc_bits n a ≡ crc_bits n b → a ≡ b
unfolding crc_bits
crc_bits-injective zero a b ha hb e = e
crc_bits-injective (suc n) a b ha hb e =
    crc_bit-injective a b ha hb
      (crc_bits-injective n (crc_bit a) (crc_bit b) (crc_bit-lt a ha) (crc_bit-lt b hb) e)

abbrev pub IsByte : ℕ → Type 0
IsByte b = b < 256

xor_byte-lt : (crc b : ℕ) → crc < 2 ^ 32 → IsByte b → bit_xor crc b < 2 ^ 32
xor_byte-lt crc b h hb = bit_xor-lt 32 crc b h (omega arith)

crc_loop-lt : (xs : List ℕ) (crc : ℕ) → All IsByte xs → crc < 2 ^ 32 → crc_loop xs crc < 2 ^ 32
unfolding crc_loop
crc_loop-lt [] crc v h = h
crc_loop-lt (x ∷ xs) crc (hx, v) h = crc_loop-lt xs _ v (crc_bits-lt 8 _ (xor_byte-lt crc x h hx))

crc_loop-injective :
    (xs : List ℕ) (a b : ℕ)
    → All IsByte xs
    → a < 2 ^ 32
    → b < 2 ^ 32
    → crc_loop xs a ≡ crc_loop xs b
    → a ≡ b
unfolding crc_loop
crc_loop-injective [] a b v ha hb e = e
crc_loop-injective (x ∷ xs) a b (hx, v) ha hb e =
    sym (bit_xor-cancel 32 a x ha (omega arith))
    ∙ ap (λ (t : ℕ). bit_xor t x)
        (crc_bits-injective 8 (bit_xor a x) (bit_xor b x) (xor_byte-lt a x ha hx)
          (xor_byte-lt b x hb hx)
          (crc_loop-injective xs _ _ v (crc_bits-lt 8 _ (xor_byte-lt a x ha hx))
            (crc_bits-lt 8 _ (xor_byte-lt b x hb hx)) e))
    ∙ bit_xor-cancel 32 b x hb (omega arith)

crc_loop-append :
    (xs ys : List ℕ) (crc : ℕ) → crc_loop (xs ++ ys) crc ≡ crc_loop ys (crc_loop xs crc)
unfolding crc_loop
crc_loop-append [] ys crc = refl
crc_loop-append (x ∷ xs) ys crc = crc_loop-append xs ys (crc_bits 8 (bit_xor crc x))

-- The CRC by division: the register takes a byte in its low bits, and eight times its lowest bit
-- is shifted out, with the polynomial subtracted if that bit was set.
abbrev pub divide_bits : ℕ → ℕ → ℕ
divide_bits zero crc = crc
divide_bits (suc n) crc = divide_bits n (divide_bit crc)

unfoldable pub divide : List ℕ → ℕ → ℕ
divide [] crc = crc
divide (b ∷ bytes) crc = divide bytes (divide_bits 8 (bit_xor crc b))

crc_bits-divide_bits : (n crc : ℕ) → crc_bits n crc ≡ divide_bits n crc
unfolding crc_bits
crc_bits-divide_bits zero crc = refl
crc_bits-divide_bits (suc n) crc =
    crc_bits-divide_bits n (crc_bit crc) ∙ ap (divide_bits n) (crc_bit-divide_bit crc)

crc_loop-divide : (xs : List ℕ) (crc : ℕ) → crc_loop xs crc ≡ divide xs crc
unfolding crc_loop divide
crc_loop-divide [] crc = refl
crc_loop-divide (x ∷ xs) crc =
    crc_loop-divide xs (crc_bits 8 (bit_xor crc x))
    ∙ ap (divide xs) (crc_bits-divide_bits 8 (bit_xor crc x))

-- The masks of the code compute the division by the reflected polynomial, started at all ones and
-- complemented, and the result is a 32-bit number.
pub compute_crc32-divide :
    (xs : List ℕ) → (compute_crc32 xs ≡ u32_max - divide xs u32_max) × (compute_crc32 xs < 2 ^ 32)
unfolding compute_crc32
compute_crc32-divide xs = (ap (λ (t : ℕ). u32_max - t) (crc_loop-divide xs u32_max), omega arith)

bit_xor-left_injective :
    (s x y : ℕ) → s < 2 ^ 32 → IsByte x → IsByte y → bit_xor s x ≡ bit_xor s y → x ≡ y
bit_xor-left_injective s x y h hx hy e =
    sym (bit_xor-cancel 32 x s (omega arith) h)
    ∙ ap (λ (t : ℕ). bit_xor t s)
        (bit_xor_comm 32 x s (omega arith) h ∙ e ∙ bit_xor_comm 32 s y h (omega arith))
    ∙ bit_xor-cancel 32 y s (omega arith) h

crc_loop-damaged :
    (front back : List ℕ) (x y s : ℕ)
    → All IsByte front
    → All IsByte back
    → IsByte x
    → IsByte y
    → s < 2 ^ 32
    → crc_loop (front ++ (x ∷ back)) s ≡ crc_loop (front ++ (y ∷ back)) s
    → x ≡ y
crc_loop-damaged front back x y s vf vb hx hy hs e = bit_xor-left_injective t x y ht hx hy (
    crc_bits-injective 8 _ _ (xor_byte-lt t x ht hx) (xor_byte-lt t y ht hy) (
      crc_loop-injective back _ _ vb (crc_bits-lt 8 _ (xor_byte-lt t x ht hx))
        (crc_bits-lt 8 _ (xor_byte-lt t y ht hy)) after))
  where
    t : ℕ
    t = crc_loop front s

    ht : t < 2 ^ 32
    ht = crc_loop-lt front s vf hs

    after : crc_loop back (crc_bits 8 (bit_xor t x)) ≡ crc_loop back (crc_bits 8 (bit_xor t y))
    after =
        unfold crc_loop in
        sym (crc_loop-append front (x ∷ back) s) ∙ e ∙ crc_loop-append front (y ∷ back) s

-- One damaged byte, at any place of a payload of any length, changes the checksum.
pub compute_crc32-damaged :
    (front back : List ℕ) (x y : ℕ)
    → All IsByte front
    → All IsByte back
    → IsByte x
    → IsByte y
    → x ≢ y
    → compute_crc32 (front ++ (x ∷ back)) ≢ compute_crc32 (front ++ (y ∷ back))
unfolding compute_crc32
compute_crc32-damaged front back x y vf vb hx hy ne e = ne (
    crc_loop-damaged front back x y u32_max vf vb hx hy (omega arith)
      (omega (arith, below front x back vf hx vb, below front y back vf hy vb)))
  where
    below :
        (f : List ℕ) (z : ℕ) (b : List ℕ)
        → All IsByte f
        → IsByte z
        → All IsByte b
        → crc_loop (f ++ (z ∷ b)) u32_max < 2 ^ 32
    below f z b vf hz vb =
        crc_loop-lt (f ++ (z ∷ b)) u32_max (All-append IsByte f (z ∷ b) vf (hz, vb)) (omega arith)

pub compute_crc32-bound : (bytes : List ℕ) → compute_crc32 bytes < 2 ^ 32
unfolding compute_crc32
compute_crc32-bound bytes = omega arith
