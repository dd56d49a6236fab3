-- ===== src/Examples/Wire.antt =====
-- Headers, checksums, images and the fixture of include/frame_protocol.hpp and its users.
use v4l2_capture.Prelude.{
  ℕ, ◌-◌, ◌*◌, ◌^◌, ◌<◌, ◌≡◌, ◌≢◌, ◌↔◌, refl, List, [], ◌∷◌, ◌++◌, All, length, get_or, some, arith,
}
use v4l2_capture.Protocol.{
  FrameHeader, accepted, refused, zero_width_or_height, serialize_header, deserialize_header,
  validate_header, compute_crc32, u32_max,
}
use v4l2_capture.Protocol.RoundTrip.{Fits, deserialize-serialize}
use v4l2_capture.Protocol.Crc.{IsByte, divide, compute_crc32-divide, compute_crc32-damaged}
use v4l2_capture.Protocol.Validation.{IsAcceptable, validate_header_iff, Explains, refused-Explains}
use v4l2_capture.Fixture.Settles.{Settled, verify_fixture-Settled}
use v4l2_capture.Fixture.{write_fixture, verify_fixture, verified}
use v4l2_capture.Fixture.Verified.{verify_fixture-write_fixture}
use v4l2_capture.Yuyv.{convert_yuyv_to_rgb8, convert_yuyv_to_mono8}
use v4l2_capture.Yuyv.Sizes.{convert_yuyv_to_rgb8-size}
use v4l2_capture.Yuyv.Luma.{convert_yuyv_to_mono8-luma}

abbrev header : FrameHeader
header = record {
  magic = 0x56345450;
  header_size = 44;
  version = 3;
  frame_id = 7;
  capture_timestamp_ns = 9;
  width = 2;
  height = 1;
  pixel_format = 0x56595559;
  payload_size = 4;
  payload_crc32 = 0x1234;
}

abbrev flat : FrameHeader
flat = record header { height = 0 }

header-Fits : Fits header
header-Fits = record {
  magic = omega arith;
  header_size = omega arith;
  version = omega arith;
  frame_id = omega arith;
  capture_timestamp_ns = omega arith;
  width = omega arith;
  height = omega arith;
  pixel_format = omega arith;
  payload_size = omega arith;
  payload_crc32 = omega arith;
}

deserialize-serialize_example : deserialize_header (serialize_header header) ≡ accepted header
deserialize-serialize_example = deserialize-serialize header header-Fits

validate_header_iff_example : (validate_header header 100 ≡ accepted tt) ↔ IsAcceptable header 100
validate_header_iff_example = validate_header_iff header 100

flat-refused : validate_header flat 100 ≡ refused zero_width_or_height
unfolding validate_header
flat-refused = refl

refused-Explains_example : Explains zero_width_or_height flat 100
refused-Explains_example = refused-Explains zero_width_or_height flat 100 flat-refused

compute_crc32-divide_example :
    (compute_crc32 (1 ∷ 2 ∷ []) ≡ u32_max - divide (1 ∷ 2 ∷ []) u32_max)
    × (compute_crc32 (1 ∷ 2 ∷ []) < 2 ^ 32)
compute_crc32-divide_example = compute_crc32-divide (1 ∷ 2 ∷ [])

compute_crc32-damaged_example :
    compute_crc32 ((1 ∷ []) ++ (2 ∷ (3 ∷ []))) ≢ compute_crc32 ((1 ∷ []) ++ (9 ∷ (3 ∷ [])))
compute_crc32-damaged_example =
    compute_crc32-damaged (1 ∷ []) (3 ∷ []) 2 9 (omega arith, tt) (omega arith, tt) (omega arith)
      (omega arith) (λ e. omega arith)

verify_fixture_example : verify_fixture 32 (write_fixture 32) ≡ verified 32 (32 * 108)
verify_fixture_example = verify_fixture-write_fixture 32 (omega arith)

verify_fixture-Settled_example : Settled 1 3 (verify_fixture 1 (67 ∷ 52 ∷ 86 ∷ []))
verify_fixture-Settled_example = verify_fixture-Settled 1 (67 ∷ 52 ∷ 86 ∷ [])

convert_yuyv_to_rgb8_example :
    (rgb : List ℕ) × (convert_yuyv_to_rgb8 (16 ∷ 128 ∷ 235 ∷ 128 ∷ []) 2 1 ≡ some rgb)
    × (length rgb ≡ 2 * 1 * 3)
    × All IsByte rgb
convert_yuyv_to_rgb8_example =
    convert_yuyv_to_rgb8-size (16 ∷ 128 ∷ 235 ∷ 128 ∷ []) 2 1 (omega arith) (omega arith) refl refl

convert_yuyv_to_mono8_example :
    (mono : List ℕ) × (convert_yuyv_to_mono8 (16 ∷ 128 ∷ 235 ∷ 128 ∷ []) 2 1 ≡ some mono)
    × (length mono ≡ 2 * 1)
    × ((i : ℕ) → get_or mono i 0 ≡ get_or (16 ∷ 128 ∷ 235 ∷ 128 ∷ []) (2 * i) 0)
convert_yuyv_to_mono8_example =
    convert_yuyv_to_mono8-luma (16 ∷ 128 ∷ 235 ∷ 128 ∷ []) 2 1 (omega arith) (omega arith) refl refl
