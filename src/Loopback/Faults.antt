-- ===== src/Loopback/Faults.antt =====
-- The damage that the test sender can do, against the checks of the receiver.
use v4l2_capture.Prelude.{ℕ, ◌≡◌, ◌≢◌, bit_xor, arith}
use v4l2_capture.Prelude.{some}
use v4l2_capture.Protocol.{
  FrameHeader, accepted, validate_header, default_max_payload_bytes, pix_fmt_yuyv, magic_value,
}
use v4l2_capture.Protocol.Validation.{IsAcceptable, validate_header_iff}
use v4l2_capture.Loopback.{
  Fault, bad_magic, bad_version, bad_header_size, zero_width, oversized_payload, yuyv_size_mismatch,
  unsupported, apply_header_fault,
}

flipped : (n m : ℕ) → n ≡ magic_value → m ≡ magic_value → bit_xor n 1 ≢ m
flipped n m e d x = ground arith

faulty :
    (fault : Fault) (h h' : FrameHeader)
    → IsAcceptable h default_max_payload_bytes
    → h.pixel_format ≡ pix_fmt_yuyv
    → apply_header_fault fault h ≡ some h'
    → ¬ IsAcceptable h' default_max_payload_bytes
unfolding apply_header_fault
faulty bad_magic h h' v y e w = flipped h.magic h'.magic v.magic_right w.magic_right (ground arith)
faulty bad_version h h' v y e w = ground arith
faulty bad_header_size h h' v y e w = ground arith
faulty zero_width h h' v y e w = ground arith
faulty oversized_payload h h' v y e w = ground arith
faulty yuyv_size_mismatch h h' v y e w = ground arith
faulty unsupported h h' v y e w = ground arith

-- Every fault that the test sender can put into a YUYV header that the receiver would accept under the
-- default limit on payloads makes a header that the receiver refuses under that limit.
pub apply_header_fault-refused :
    (fault : Fault) (h h' : FrameHeader)
    → validate_header h default_max_payload_bytes ≡ accepted tt
    → h.pixel_format ≡ pix_fmt_yuyv
    → apply_header_fault fault h ≡ some h'
    → validate_header h' default_max_payload_bytes ≢ accepted tt
apply_header_fault-refused fault h h' ok y e bad =
    faulty fault h h' ((validate_header_iff h default_max_payload_bytes).0 ok) y e
      ((validate_header_iff h' default_max_payload_bytes).0 bad)
