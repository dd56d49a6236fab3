-- ===== src/Protocol.antt =====
-- include/frame_protocol.hpp: the 44 bytes of a frame header on the wire, the CRC of a payload, and
-- the checks that a receiver makes before it takes a payload. A byte is a number below 256, and a
-- fixed-width integer a number below 2^w.
pub mod Fields
pub mod RoundTrip
pub mod Crc
pub mod Validation
use v4l2_capture.Prelude.{
  ℕ, zero, suc, ◌+◌, ◌-◌, ◌*◌, ◌/◌, ◌%◌, ◌^◌, bit_and, bit_or, bit_xor, Bool, true, false,
}
use v4l2_capture.Prelude.{
  ◌||◌, ◌!=◌, ◌==◌, ltb, if◌then◌else◌, List, [], ◌∷◌, length, get_or, set, replicate,
}

abbrev pub magic_value : ℕ
magic_value = 0x56345450

abbrev pub version_value : ℕ
version_value = 3

abbrev pub wire_header_size : ℕ
wire_header_size = 44

abbrev pub default_max_payload_bytes : ℕ
default_max_payload_bytes = 16 * 1024 * 1024

abbrev pub max_dimension : ℕ
max_dimension = 16384

abbrev pub u32_max : ℕ
u32_max = 0xffff_ffff

-- `V4L2_PIX_FMT_YUYV` of linux/videodev2.h: the characters Y, U, Y, V, the first one lowest.
abbrev pub pix_fmt_yuyv : ℕ
pix_fmt_yuyv = b'Y' + b'U' * 2 ^ 8 + b'Y' * 2 ^ 16 + b'V' * 2 ^ 24

pub record FrameHeader : Type 0 where
  pub magic : ℕ  -- uint32_t
  pub header_size : ℕ  -- uint16_t
  pub version : ℕ  -- uint16_t
  pub frame_id : ℕ  -- uint64_t
  pub capture_timestamp_ns : ℕ  -- uint64_t
  pub width : ℕ  -- uint32_t
  pub height : ℕ  -- uint32_t
  pub pixel_format : ℕ  -- uint32_t
  pub payload_size : ℕ  -- uint32_t
  pub payload_crc32 : ℕ  -- uint32_t

-- `std::array<std::uint8_t, 44>`
abbrev pub WireHeader : Type 0
WireHeader = List ℕ

pub write_u16_le : WireHeader → ℕ → ℕ → WireHeader
write_u16_le out offset value =
    let low = set out (offset + 0) (bit_and value 0xff) in
    set low (offset + 1) (bit_and (value / 2 ^ 8) 0xff)

-- The loop of `write_u32_le` and `write_u64_le`, from byte `i` on, with the rounds left.
pub write_loop : ℕ → ℕ → WireHeader → ℕ → ℕ → WireHeader
write_loop zero i out offset value = out
write_loop (suc n) i out offset value =
    write_loop n (i + 1) (set out (offset + i) (bit_and (value / 2 ^ (i * 8)) 0xff)) offset value

pub write_u32_le : WireHeader → ℕ → ℕ → WireHeader
unfolding write_loop
write_u32_le out offset value = write_loop 4 0 out offset value

pub write_u64_le : WireHeader → ℕ → ℕ → WireHeader
unfolding write_loop
write_u64_le out offset value = write_loop 8 0 out offset value

-- Reading past the end of an array is not modelled: a byte that is not there reads as 0.
pub read_u16_le : WireHeader → ℕ → ℕ
read_u16_le bytes offset =
    bit_or (get_or bytes (offset + 0) 0) (get_or bytes (offset + 1) 0 * 2 ^ 8) % 2 ^ 16

-- The loop of `read_u32_le` and `read_u64_le` on a `w`-bit value.
pub read_loop : ℕ → ℕ → ℕ → WireHeader → ℕ → ℕ → ℕ
read_loop zero w i bytes offset value = value
read_loop (suc n) w i bytes offset value =
    read_loop n w (i + 1) bytes offset
      (bit_or value (get_or bytes (offset + i) 0 * 2 ^ (i * 8) % 2 ^ w))

pub read_u32_le : WireHeader → ℕ → ℕ
unfolding read_loop
read_u32_le bytes offset = read_loop 4 32 0 bytes offset 0

pub read_u64_le : WireHeader → ℕ → ℕ
unfolding read_loop
read_u64_le bytes offset = read_loop 8 64 0 bytes offset 0

pub serialize_header : FrameHeader → WireHeader
serialize_header h =
    let wire = replicate wire_header_size 0 in
    let wire = write_u32_le wire 0 h.magic in
    let wire = write_u16_le wire 4 h.header_size in
    let wire = write_u16_le wire 6 h.version in
    let wire = write_u64_le wire 8 h.frame_id in
    let wire = write_u64_le wire 16 h.capture_timestamp_ns in
    let wire = write_u32_le wire 24 h.width in
    let wire = write_u32_le wire 28 h.height in
    let wire = write_u32_le wire 32 h.pixel_format in
    let wire = write_u32_le wire 36 h.payload_size in write_u32_le wire 40 h.payload_crc32

-- The reasons for which a header is refused, with the numbers that the messages show.
pub data Reason : Type 0 where
  null_wire_header : Reason
  wire_header_size_mismatch : ℕ → Reason
  max_payload_not_positive invalid_magic : Reason
  unsupported_header_size unsupported_version : ℕ → Reason
  zero_capture_timestamp zero_width_or_height dimension_exceeds_limit : Reason
  missing_pixel_format zero_payload_size : Reason
  payload_exceeds_limit : ℕ → ℕ → Reason
  yuyv_width_odd yuyv_payload_overflows : Reason
  yuyv_payload_mismatch : ℕ → ℕ → Reason

-- `true` with the output parameter set, or `false` with the reason set.
pub data Checked {ℓ} (A : Type ℓ) : Type ℓ where
  accepted : A → Checked A
  refused : Reason → Checked A

pub decode : WireHeader → FrameHeader
decode bytes = record {
  magic = read_u32_le bytes 0;
  header_size = read_u16_le bytes 4;
  version = read_u16_le bytes 6;
  frame_id = read_u64_le bytes 8;
  capture_timestamp_ns = read_u64_le bytes 16;
  width = read_u32_le bytes 24;
  height = read_u32_le bytes 28;
  pixel_format = read_u32_le bytes 32;
  payload_size = read_u32_le bytes 36;
  payload_crc32 = read_u32_le bytes 40;
}

-- `deserialize_header` on the bytes at a pointer that is not null.
pub deserialize_header : List ℕ → Checked FrameHeader
unfolding decode
deserialize_header bytes =
    if length bytes != wire_header_size
    then refused (wire_header_size_mismatch (length bytes))
    else accepted (decode bytes)

abbrev pub crc_polynomial : ℕ
crc_polynomial = 0xEDB88320

-- One round of the loop over the bits: `0u - (crc & 1u)` is 0 or all ones.
pub crc_bit : ℕ → ℕ
crc_bit crc =
    let mask = (2 ^ 32 + 0 - bit_and crc 1) % 2 ^ 32 in
    bit_xor (crc / 2) (bit_and crc_polynomial mask)

pub crc_bits : ℕ → ℕ → ℕ
crc_bits zero crc = crc
crc_bits (suc n) crc = crc_bits n (crc_bit crc)

pub crc_loop : List ℕ → ℕ → ℕ
crc_loop [] crc = crc
crc_loop (b ∷ bytes) crc = crc_loop bytes (crc_bits 8 (bit_xor crc b))

-- `~crc` on 32 bits.
pub compute_crc32 : List ℕ → ℕ
unfolding crc_bit crc_bits crc_loop
compute_crc32 bytes = u32_max - crc_loop bytes u32_max

unfoldable pub make_header : ℕ → ℕ → ℕ → ℕ → ℕ → ℕ → ℕ → FrameHeader
make_header frame_id capture_timestamp_ns width height pixel_format payload_size payload_crc32 =
    record {
      magic = magic_value;
      header_size = wire_header_size;
      version = version_value;
      frame_id = frame_id;
      capture_timestamp_ns = capture_timestamp_ns;
      width = width;
      height = height;
      pixel_format = pixel_format;
      payload_size = payload_size;
      payload_crc32 = payload_crc32;
    }

-- The checks that only a YUYV header gets; a sum of 64-bit products is cut at 2^64.
check_yuyv : FrameHeader → Checked (Unit {0})
check_yuyv h =
    let expected = h.width * h.height % 2 ^ 64 * 2 % 2 ^ 64 in
    if h.width % 2 != 0
    then refused yuyv_width_odd
    else (if ltb u32_max expected
        then refused yuyv_payload_overflows
        else (if h.payload_size != expected % 2 ^ 32
            then refused (yuyv_payload_mismatch h.payload_size expected)
            else accepted tt))

unfoldable pub validate_header : FrameHeader → ℕ → Checked (Unit {0})
unfolding check_yuyv
validate_header h max_payload_bytes =
    if max_payload_bytes == 0
    then refused max_payload_not_positive
    else (if h.magic != magic_value
        then refused invalid_magic
        else (if h.header_size != wire_header_size
            then refused (unsupported_header_size h.header_size)
            else (if h.version != version_value
                then refused (unsupported_version h.version)
                else (if h.capture_timestamp_ns == 0
                    then refused zero_capture_timestamp
                    else (if h.width == 0 || h.height == 0
                        then refused zero_width_or_height
                        else (if ltb max_dimension h.width || ltb max_dimension h.height
                            then refused dimension_exceeds_limit
                            else (if h.pixel_format == 0
                                then refused missing_pixel_format
                                else (if h.payload_size == 0
                                    then refused zero_payload_size
                                    else (if ltb max_payload_bytes h.payload_size
                                        then refused
                                            (payload_exceeds_limit h.payload_size max_payload_bytes)
                                        else (if h.pixel_format == pix_fmt_yuyv
                                            then check_yuyv h
                                            else accepted tt))))))))))

pub is_valid_header : FrameHeader → Bool
is_valid_header h = elim (validate_header h u32_max) [ accepted _ ↦ true | refused _ ↦ false ]
