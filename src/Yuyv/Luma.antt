-- ===== src/Yuyv/Luma.antt =====
-- The bytes of the grey image of a YUYV payload.
use v4l2_capture.Prelude.{ℕ, zero, suc, ◌-◌, ◌*◌, ◌/◌, ◌%◌, ◌≤◌, ◌≡◌, refl, sym, ap, ◌∙◌}
use v4l2_capture.Prelude.{List, [], ◌∷◌, some, length, get_or, arith}
use v4l2_capture.Protocol.{max_dimension}
use v4l2_capture.Yuyv.{mono_loop, convert_yuyv_to_mono8}
use v4l2_capture.Yuyv.Sizes.{expected_size-exact, pairs_of_pixels}

length-mono_loop :
    (n : ℕ) (payload : List ℕ) → length payload ≡ 4 * n → length (mono_loop payload) ≡ 2 * n
unfolding mono_loop
length-mono_loop n [] e = omega arith
length-mono_loop n (a ∷ []) e = absurd (omega arith)
length-mono_loop n (a ∷ b ∷ []) e = absurd (omega arith)
length-mono_loop n (a ∷ b ∷ c ∷ []) e = absurd (omega arith)
length-mono_loop n (a ∷ b ∷ c ∷ d ∷ rest) e =
    omega (arith, length-mono_loop (n - 1) rest (omega arith))

get_or-mono_loop :
    (payload : List ℕ) (n i : ℕ)
    → length payload ≡ 4 * n
    → get_or (mono_loop payload) i 0 ≡ get_or payload (2 * i) 0
unfolding mono_loop
get_or-mono_loop [] n i e = refl
get_or-mono_loop (a ∷ []) n i e = absurd (omega arith)
get_or-mono_loop (a ∷ b ∷ []) n i e = absurd (omega arith)
get_or-mono_loop (a ∷ b ∷ c ∷ []) n i e = absurd (omega arith)
get_or-mono_loop (a ∷ b ∷ c ∷ d ∷ rest) n zero e = refl
get_or-mono_loop (a ∷ b ∷ c ∷ d ∷ rest) n (suc zero) e = refl
get_or-mono_loop (a ∷ b ∷ c ∷ d ∷ rest) n (suc (suc i)) e =
    let four : 2 * suc (suc i) ≡ suc (suc (suc (suc (2 * i)))) = omega arith in
    get_or-mono_loop rest (n - 1) i (omega arith)
    ∙ sym (ap (λ (k : ℕ). get_or (a ∷ b ∷ c ∷ d ∷ rest) k 0) four)

-- A payload of an even width up to 16384, a height up to 16384 and the right size is converted to one
-- byte for each pixel, and pixel `i` is byte 2i of the payload, its luma.
pub convert_yuyv_to_mono8-luma :
    (payload : List ℕ) (width height : ℕ)
    → width ≤ max_dimension
    → height ≤ max_dimension
    → width % 2 ≡ 0
    → length payload ≡ width * height * 2
    → (mono : List ℕ) × (convert_yuyv_to_mono8 payload width height ≡ some mono)
      × (length mono ≡ width * height)
      × ((i : ℕ) → get_or mono i 0 ≡ get_or payload (2 * i) 0)
unfolding convert_yuyv_to_mono8
convert_yuyv_to_mono8-luma payload width height p q even len =
    let pairs = pairs_of_pixels width height even in
    let size = expected_size-exact width height p q in
    (
      mono_loop payload,
      ground arith,
      omega (arith, length-mono_loop (width / 2 * height) payload (omega arith)),
      λ i. get_or-mono_loop payload (width / 2 * height) i (omega arith),
    )
