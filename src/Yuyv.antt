-- ===== src/Yuyv.antt =====
-- ros2_ws/src/v4l2_ros2_adapter/include/v4l2_ros2_adapter/yuyv_conversion.hpp: a YUYV payload as RGB
-- or grey bytes. The vector is filled from its first byte to its last, so the model appends; `none` is
-- the exception. A quantity of type `int` is an integer, shifted right with its sign.
pub mod Sizes
pub mod Luma
use v4l2_capture.Prelude.{
  ℕ, zero, suc, ◌+◌, ◌-◌, ◌*◌, ◌/◌, ◌%◌, ◌^◌, Bool, true, false, ltb, leb, ◌!=◌,
}
use v4l2_capture.Prelude.{if◌then◌else◌, List, [], ◌∷◌, ◌++◌, Option, none, some, length}
use v4l2_capture.Prelude.Int.{ℤ, pos, negsuc}

pub clamp_u8 : ℤ → ℕ
clamp_u8 (negsuc n) = 0
clamp_u8 (pos n) = if ltb 255 n then 255 else n

-- `a - b`
pub minus : ℕ → ℕ → ℤ
minus a b = if leb b a then pos (a - b) else negsuc (b - a - 1)

-- `v >> 8`
pub shift_right_8 : ℤ → ℤ
shift_right_8 (pos n) = pos (n / 2 ^ 8)
shift_right_8 (negsuc n) = negsuc (n / 2 ^ 8)

-- `write_pixel`: with d = u - 128 and e = v - 128, the negative terms are gathered on the right.
pub write_pixel : ℕ → ℕ → ℕ → List ℕ
unfolding clamp_u8 minus shift_right_8
write_pixel y u v =
    let c = y - 16 in
    let red = shift_right_8 (minus (298 * c + 409 * v + 128) (409 * 128)) in
    let green = shift_right_8 (minus (298 * c + 100 * 128 + 208 * 128 + 128) (100 * u + 208 * v)) in
    let blue = shift_right_8 (minus (298 * c + 516 * u + 128) (516 * 128)) in
    clamp_u8 red ∷ clamp_u8 green ∷ clamp_u8 blue ∷ []

-- The loop, four bytes a round. A rest of fewer bytes cannot be left: the size is checked before.
pub rgb_loop : List ℕ → List ℕ
unfolding write_pixel
rgb_loop (y0 ∷ u ∷ y1 ∷ v ∷ rest) = write_pixel y0 u v ++ (write_pixel y1 u v ++ rgb_loop rest)
rgb_loop _ = []

pub mono_loop : List ℕ → List ℕ
mono_loop (y0 ∷ u ∷ y1 ∷ v ∷ rest) = y0 ∷ y1 ∷ mono_loop rest
mono_loop _ = []

-- The size that both functions ask for, as a 64-bit product.
abbrev pub expected_size : ℕ → ℕ → ℕ
expected_size width height = width * height % 2 ^ 64 * 2 % 2 ^ 64

pub convert_yuyv_to_rgb8 : List ℕ → ℕ → ℕ → Option (List ℕ)
unfolding rgb_loop
convert_yuyv_to_rgb8 payload width height =
    if length payload != expected_size width height
    then none
    else (if width % 2 != 0 then none else some (rgb_loop payload))

pub convert_yuyv_to_mono8 : List ℕ → ℕ → ℕ → Option (List ℕ)
unfolding mono_loop
convert_yuyv_to_mono8 payload width height =
    if length payload != expected_size width height
    then none
    else (if width % 2 != 0 then none else some (mono_loop payload))
