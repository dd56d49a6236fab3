-- ===== src/Node/Images.antt =====
-- The image that the node publishes for a frame.
use native.Mathlib.Nat.{mul-le-mul}
use v4l2_capture.Prelude.{ℕ, ◌*◌, ◌%◌, ◌^◌, ◌≤◌, ◌≡◌, refl, ◌∙◌, List, some, length, arith}
use v4l2_capture.Protocol.{FrameHeader, accepted, validate_header, pix_fmt_yuyv, max_dimension}
use v4l2_capture.Protocol.Validation.{IsAcceptable, validate_header_iff}
use v4l2_capture.Yuyv.Sizes.{convert_yuyv_to_rgb8-size}
use v4l2_capture.Yuyv.Luma.{convert_yuyv_to_mono8-luma}
use v4l2_capture.Node.{Encoding, rgb8, mono8, yuv422_yuy2, image_data, image_step}

-- An image of `step` bytes in each of its rows.
HasImage : Encoding → FrameHeader → List ℕ → Type 0
HasImage e h payload =
    (image : List ℕ) × (image_data e h payload ≡ some image)
    × (length image ≡ h.height * image_step e h)

no_wrap : (w k : ℕ) → w ≤ max_dimension → k ≤ 3 → w * k % 2 ^ 32 ≡ w * k
no_wrap w k p q = ground (arith, mul-le-mul p q)

image_data-acceptable :
    (e : Encoding) (h : FrameHeader) (payload : List ℕ) (limit : ℕ)
    → IsAcceptable h limit
    → h.pixel_format ≡ pix_fmt_yuyv
    → length payload ≡ h.payload_size
    → HasImage e h payload
unfolding HasImage image_data image_step
image_data-acceptable rgb8 h payload limit v y size =
    let (even, exact) = v.yuyv_exact y in
    let (image, made, len, _) =
      convert_yuyv_to_rgb8-size payload h.width h.height v.width_in.1 v.height_in.1 even
        (size ∙ exact) in
    (image, made, rw (no_wrap h.width 3 v.width_in.1 (omega arith)) (omega (arith, len)))
image_data-acceptable mono8 h payload limit v y size =
    let (even, exact) = v.yuyv_exact y in
    let (image, made, len, _) =
      convert_yuyv_to_mono8-luma payload h.width h.height v.width_in.1 v.height_in.1 even
        (size ∙ exact) in
    (image, made, omega (arith, len))
image_data-acceptable yuv422_yuy2 h payload limit v y size =
    let (even, exact) = v.yuyv_exact y in
    (payload, refl, rw (no_wrap h.width 2 v.width_in.1 (omega arith)) (omega (arith, size, exact)))

-- The conversion of a YUYV frame never fails in the node: when its header passes `validate_header` and
-- its payload has the declared size, there is an image in each of the three encodings, and its size is
-- its height times its `step`, the 32-bit product.
pub image_data-accepted :
    (e : Encoding) (h : FrameHeader) (payload : List ℕ) (limit : ℕ)
    → validate_header h limit ≡ accepted tt
    → h.pixel_format ≡ pix_fmt_yuyv
    → length payload ≡ h.payload_size
    → (image : List ℕ) × (image_data e h payload ≡ some image)
      × (length image ≡ h.height * image_step e h)
unfolding HasImage
image_data-accepted e h payload limit ok y size =
    image_data-acceptable e h payload limit ((validate_header_iff h limit).0 ok) y size
