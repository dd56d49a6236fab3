-- ===== src/Protocol/RoundTrip.antt =====
-- `serialize_header` followed by `deserialize_header`.
use v4l2_capture.Protocol.{refused, Reason, decode, read_u16_le, read_u32_le, read_u64_le}
use v4l2_capture.Prelude.{◌++◌}
use v4l2_capture.Prelude.{◌≢◌, List}
use v4l2_capture.Prelude.{ℕ, bit_and, ◌<◌, ◌^◌, ◌≡◌, refl, All, length, arith}
use v4l2_capture.Prelude.Bits.{bit_and-mask}
use v4l2_capture.Protocol.{
  FrameHeader, wire_header_size, serialize_header, deserialize_header, accepted,
}
use v4l2_capture.Protocol.{write_u16_le, write_u32_le, write_u64_le}
use v4l2_capture.Protocol.Crc.{IsByte}
use v4l2_capture.Protocol.Fields.{read_u16_le_bytes, read_u32_le-Holds, read_u64_le-Holds}

-- Every field is a number of its C++ type.
pub record Fits (h : FrameHeader) : Type 0 where
  pub magic : h.magic < 2 ^ 32
  pub header_size : h.header_size < 2 ^ 16
  pub version : h.version < 2 ^ 16
  pub frame_id : h.frame_id < 2 ^ 64
  pub capture_timestamp_ns : h.capture_timestamp_ns < 2 ^ 64
  pub width : h.width < 2 ^ 32
  pub height : h.height < 2 ^ 32
  pub pixel_format : h.pixel_format < 2 ^ 32
  pub payload_size : h.payload_size < 2 ^ 32
  pub payload_crc32 : h.payload_crc32 < 2 ^ 32

pub length-serialize_header : (h : FrameHeader) → length (serialize_header h) ≡ wire_header_size
unfolding serialize_header write_u16_le write_u32_le write_u64_le
length-serialize_header h = refl

-- Every header whose fields fit their types is read back from its 44 bytes as it was.
pub deserialize-serialize :
    (h : FrameHeader) → Fits h → deserialize_header (serialize_header h) ≡ accepted h
unfolding deserialize_header serialize_header write_u16_le write_u32_le write_u64_le
deserialize-serialize h f = λ i. accepted (record {
  magic = read_u32_le-Holds (serialize_header h) 0 h.magic f.magic (omega arith) i;
  header_size = read_u16_le_bytes (serialize_header h) 4 h.header_size f.header_size refl refl i;
  version = read_u16_le_bytes (serialize_header h) 6 h.version f.version refl refl i;
  frame_id = read_u64_le-Holds (serialize_header h) 8 h.frame_id f.frame_id (omega arith) i;
  capture_timestamp_ns =
      read_u64_le-Holds (serialize_header h) 16 h.capture_timestamp_ns f.capture_timestamp_ns
        (omega arith) i;
  width = read_u32_le-Holds (serialize_header h) 24 h.width f.width (omega arith) i;
  height = read_u32_le-Holds (serialize_header h) 28 h.height f.height (omega arith) i;
  pixel_format =
      read_u32_le-Holds (serialize_header h) 32 h.pixel_format f.pixel_format (omega arith) i;
  payload_size =
      read_u32_le-Holds (serialize_header h) 36 h.payload_size f.payload_size (omega arith) i;
  payload_crc32 =
      read_u32_le-Holds (serialize_header h) 40 h.payload_crc32 f.payload_crc32 (omega arith) i;
})

bit_and-IsByte : (v : ℕ) → IsByte (bit_and v 0xff)
bit_and-IsByte v = omega (arith, bit_and-mask 8 v)

pub serialize_header-IsByte : (h : FrameHeader) → All IsByte (serialize_header h)
unfolding serialize_header write_u16_le write_u32_le write_u64_le
serialize_header-IsByte h = omega (arith, bit_and-IsByte)

pub deserialize_header-never_refuses :
    (wire : List ℕ)
    → length wire ≡ wire_header_size
    → (r : Reason) → deserialize_header wire ≢ refused r
unfolding deserialize_header
deserialize_header-never_refuses wire e r h = ground arith

pub accepted-injective : {A : Type 0} → {x y : A} → accepted x ≡ accepted y → x ≡ y
accepted-injective e = cc

pub accepted-refused : {A : Type 0} → {x : A} → {r : Reason} → accepted x ≢ refused r
accepted-refused e = cc

-- What stands behind the 44 bytes does not change what is read from them.
pub decode-serialize_more :
    (h : FrameHeader) (more : List ℕ) → Fits h → decode (serialize_header h ++ more) ≡ h
unfolding serialize_header write_u16_le write_u32_le write_u64_le deserialize_header decode
    read_u16_le read_u32_le read_u64_le
decode-serialize_more h more f = accepted-injective (deserialize-serialize h f)
