-- ===== src/Protocol/Validation.antt =====
-- `validate_header`: the headers it accepts, and the reasons for which it refuses others.
use native.Mathlib.Nat.{mul-le-mul}
use v4l2_capture.Prelude.{ℕ, ◌*◌, ◌%◌, ◌^◌, ◌≤◌, ◌<◌, ◌≡◌, ◌≢◌, ◌↔◌, arith}
use v4l2_capture.Prelude.{◌⊎◌}
use v4l2_capture.Protocol.{null_wire_header, wire_header_size_mismatch, max_payload_not_positive}
use v4l2_capture.Protocol.{invalid_magic, unsupported_header_size, unsupported_version}
use v4l2_capture.Protocol.{zero_capture_timestamp, zero_width_or_height, dimension_exceeds_limit}
use v4l2_capture.Protocol.{missing_pixel_format, zero_payload_size, payload_exceeds_limit}
use v4l2_capture.Protocol.{yuyv_width_odd, yuyv_payload_mismatch}
use v4l2_capture.Protocol.{FrameHeader, Reason, accepted, refused, validate_header}
use v4l2_capture.Protocol.{
  magic_value, wire_header_size, version_value, max_dimension, pix_fmt_yuyv,
}
use v4l2_capture.Protocol.{yuyv_payload_overflows}

-- The checks that docs/tcp_protocol.md lists, with no order and no wrap-around.
pub record IsAcceptable (h : FrameHeader) (limit : ℕ) : Type 0 where
  pub limit_positive : 0 < limit
  pub magic_right : h.magic ≡ magic_value
  pub size_right : h.header_size ≡ wire_header_size
  pub version_right : h.version ≡ version_value
  pub stamped : h.capture_timestamp_ns ≢ 0
  pub width_in : (0 < h.width) × (h.width ≤ max_dimension)
  pub height_in : (0 < h.height) × (h.height ≤ max_dimension)
  pub format_given : h.pixel_format ≢ 0
  pub payload_in : (0 < h.payload_size) × (h.payload_size ≤ limit)
  pub yuyv_exact :
      h.pixel_format ≡ pix_fmt_yuyv → (h.width % 2 ≡ 0) × (h.payload_size ≡ h.width * h.height * 2)

-- With bounded dimensions the 64-bit product does not wrap, and fits the 32-bit field.
area_bound : (w h : ℕ) → w ≤ max_dimension → h ≤ max_dimension → w * h * 2 ≤ 2 ^ 29
area_bound w h p q = omega (arith, mul-le-mul p q)

accepted-IsAcceptable :
    (h : FrameHeader) (limit : ℕ) → validate_header h limit ≡ accepted tt → IsAcceptable h limit
unfolding validate_header
accepted-IsAcceptable h limit e = ground (arith, area_bound h.width h.height)

IsAcceptable-accepted :
    (h : FrameHeader) (limit : ℕ) → IsAcceptable h limit → validate_header h limit ≡ accepted tt
unfolding validate_header
IsAcceptable-accepted h limit v = ground (arith, area_bound h.width h.height)

-- A header is accepted exactly when it passes every check of the protocol's description: the order
-- of the checks, the 64-bit product and its cut to 32 bits make no difference.
pub validate_header_iff :
    (h : FrameHeader) (limit : ℕ) → (validate_header h limit ≡ accepted tt) ↔ IsAcceptable h limit
validate_header_iff h limit = (accepted-IsAcceptable h limit, IsAcceptable-accepted h limit)

-- The overflow check of YUYV payloads never fires: the dimension check comes first.
pub validate_header-never_overflows :
    (h : FrameHeader) (limit : ℕ) → validate_header h limit ≢ refused yuyv_payload_overflows
unfolding validate_header
validate_header-never_overflows h limit e = ground (arith, area_bound h.width h.height)

-- What a reason says of a header.
abbrev pub Explains : Reason → FrameHeader → ℕ → Type 0
Explains null_wire_header h limit = ⊥
Explains (wire_header_size_mismatch n) h limit = ⊥
Explains max_payload_not_positive h limit = limit ≡ 0
Explains invalid_magic h limit = h.magic ≢ magic_value
Explains (unsupported_header_size n) h limit = (n ≡ h.header_size) × (n ≢ wire_header_size)
Explains (unsupported_version n) h limit = (n ≡ h.version) × (n ≢ version_value)
Explains zero_capture_timestamp h limit = h.capture_timestamp_ns ≡ 0
Explains zero_width_or_height h limit = (h.width ≡ 0) ⊎ (h.height ≡ 0)
Explains dimension_exceeds_limit h limit = (max_dimension < h.width) ⊎ (max_dimension < h.height)
Explains missing_pixel_format h limit = h.pixel_format ≡ 0
Explains zero_payload_size h limit = h.payload_size ≡ 0
Explains (payload_exceeds_limit got allowed) h limit =
    (got ≡ h.payload_size) × (allowed ≡ limit) × (allowed < got)
Explains yuyv_width_odd h limit = (h.pixel_format ≡ pix_fmt_yuyv) × (h.width % 2 ≡ 1)
Explains yuyv_payload_overflows h limit = ⊥
Explains (yuyv_payload_mismatch got expected) h limit =
    (h.pixel_format ≡ pix_fmt_yuyv)
    × (got ≡ h.payload_size)
    × (expected ≡ h.width * h.height * 2)
    × (got ≢ expected)

-- The reason given for a refusal is true of the header, with the numbers that it shows.
pub refused-Explains :
    (r : Reason) (h : FrameHeader) (limit : ℕ)
    → validate_header h limit ≡ refused r
    → Explains r h limit
unfolding validate_header
refused-Explains invalid_magic h limit e = ground (arith, area_bound h.width h.height)
refused-Explains _ h limit e = ground (arith, area_bound h.width h.height)
