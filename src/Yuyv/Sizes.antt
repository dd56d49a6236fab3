-- ===== src/Yuyv/Sizes.antt =====
-- The sizes and the elements of the converted images.
use native.Mathlib.Nat.{mul-le-mul, mul_assoc}
use v4l2_capture.Prelude.{ℕ, ◌+◌, ◌-◌, ◌*◌, ◌/◌, ◌%◌, ◌≤◌, ◌≡◌, refl, ◌∙◌, ap}
use v4l2_capture.Prelude.{List, [], ◌∷◌, ◌++◌, some, length, All, All-append, arith}
use v4l2_capture.Prelude.Int.{ℤ, pos, negsuc}
use v4l2_capture.Protocol.{max_dimension}
use v4l2_capture.Protocol.Crc.{IsByte}
use v4l2_capture.Yuyv.{
  clamp_u8, shift_right_8, minus, write_pixel, rgb_loop, expected_size, convert_yuyv_to_rgb8,
}

clamp_u8-IsByte : (v : ℤ) → IsByte (clamp_u8 v)
unfolding clamp_u8
clamp_u8-IsByte (negsuc n) = omega arith
clamp_u8-IsByte (pos n) = ground arith

write_pixel-IsByte : (y u v : ℕ) → All IsByte (write_pixel y u v)
unfolding write_pixel
write_pixel-IsByte y u v =
    let red = shift_right_8 (minus (298 * (y - 16) + 409 * v + 128) (409 * 128)) in
    let green =
      shift_right_8 (minus (298 * (y - 16) + 100 * 128 + 208 * 128 + 128) (100 * u + 208 * v)) in
    let blue = shift_right_8 (minus (298 * (y - 16) + 516 * u + 128) (516 * 128)) in
    (clamp_u8-IsByte red, (clamp_u8-IsByte green, (clamp_u8-IsByte blue, tt)))

rgb_loop-IsByte : (payload : List ℕ) → All IsByte (rgb_loop payload)
unfolding rgb_loop
rgb_loop-IsByte (y0 ∷ u ∷ y1 ∷ v ∷ rest) =
    All-append IsByte (write_pixel y0 u v) (write_pixel y1 u v ++ rgb_loop rest)
      (write_pixel-IsByte y0 u v)
      (All-append IsByte (write_pixel y1 u v) (rgb_loop rest) (write_pixel-IsByte y1 u v)
        (rgb_loop-IsByte rest))
rgb_loop-IsByte _ = tt

length-write_pixel : (y u v : ℕ) → length (write_pixel y u v) ≡ 3
unfolding write_pixel
length-write_pixel y u v = refl

length-rgb_loop :
    (n : ℕ) (payload : List ℕ) → length payload ≡ 4 * n → length (rgb_loop payload) ≡ 6 * n
unfolding rgb_loop write_pixel
length-rgb_loop n [] e = omega arith
length-rgb_loop n (a ∷ []) e = absurd (omega arith)
length-rgb_loop n (a ∷ b ∷ []) e = absurd (omega arith)
length-rgb_loop n (a ∷ b ∷ c ∷ []) e = absurd (omega arith)
length-rgb_loop n (a ∷ b ∷ c ∷ d ∷ rest) e =
    omega (arith, length-rgb_loop (n - 1) rest (omega arith))

-- Sizes up to the largest dimensions do not wrap.
pub expected_size-exact :
    (width height : ℕ)
    → width ≤ max_dimension
    → height ≤ max_dimension
    → expected_size width height ≡ width * height * 2
expected_size-exact width height p q = omega (arith, mul-le-mul p q)

-- An even width makes pairs of pixels.
pub pairs_of_pixels : (width height : ℕ) → width % 2 ≡ 0 → width * height ≡ 2 * (width / 2 * height)
pairs_of_pixels width height even =
    let double : width ≡ 2 * (width / 2) = omega arith in
    ap (λ (w : ℕ). w * height) double ∙ omega (arith, mul_assoc 2 (width / 2) height)

-- A payload of an even width up to 16384, a height up to 16384 and the right size is converted: to
-- three bytes for each pixel, so the vector is filled exactly.
pub convert_yuyv_to_rgb8-size :
    (payload : List ℕ) (width height : ℕ)
    → width ≤ max_dimension
    → height ≤ max_dimension
    → width % 2 ≡ 0
    → length payload ≡ width * height * 2
    → (rgb : List ℕ) × (convert_yuyv_to_rgb8 payload width height ≡ some rgb)
      × (length rgb ≡ width * height * 3)
      × All IsByte rgb
unfolding convert_yuyv_to_rgb8
convert_yuyv_to_rgb8-size payload width height p q even len =
    let pairs = pairs_of_pixels width height even in
    let size = expected_size-exact width height p q in
    (
      rgb_loop payload,
      ground arith,
      omega (arith, length-rgb_loop (width / 2 * height) payload (omega arith)),
      rgb_loop-IsByte payload,
    )
