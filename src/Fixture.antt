-- ===== src/Fixture.antt =====
-- src/protocol_fixture.cpp: the file of deterministic frames that one program writes and another
-- verifies. A file is the list of its bytes; opening it and the statistics are left out.
pub mod Verified
pub mod Settles
use v4l2_capture.Prelude.{
  ℕ, zero, suc, ◌+◌, ◌-◌, ◌*◌, ◌^◌, ◌%◌, bit_and, Bool, true, false, ◌||◌, ◌==◌, ◌!=◌,
  if◌then◌else◌,
}
use v4l2_capture.Prelude.{List, [], ◌∷◌, ◌++◌, length, take, drop, bytes_eq}
use v4l2_capture.Protocol.{
  FrameHeader, Reason, Checked, accepted, refused, wire_header_size, default_max_payload_bytes,
  pix_fmt_yuyv,
}
use v4l2_capture.Protocol.{
  serialize_header, deserialize_header, validate_header, compute_crc32, make_header,
}

abbrev pub fixture_width : ℕ
fixture_width = 8

abbrev pub fixture_height : ℕ
fixture_height = 4

abbrev pub fixture_timestamp_base : ℕ
fixture_timestamp_base = 1700000000000000000

abbrev pub fixture_timestamp_step : ℕ
fixture_timestamp_step = 33333333

-- The inner loop over `x`, with the rounds left. The sums are taken modulo 2^32, which `& 0xff` does
-- not see.
pub payload_row : ℕ → ℕ → ℕ → ℕ → List ℕ
payload_row zero x y seed = []
payload_row (suc n) x y seed =
    bit_and ((x + y * 17 + seed * 3) % 2 ^ 32) 0xff
    ∷ bit_and ((96 + y * 7 + seed) % 2 ^ 32) 0xff
    ∷ bit_and ((x + y * 29 + seed * 5 + 1) % 2 ^ 32) 0xff
    ∷ bit_and ((160 + x * 5 + seed * 2) % 2 ^ 32) 0xff
    ∷ payload_row n (x + 2) y seed

pub payload_rows : ℕ → ℕ → ℕ → List ℕ
unfolding payload_row
payload_rows zero y seed = []
payload_rows (suc n) y seed = payload_row 4 0 y seed ++ payload_rows n (y + 1) seed

pub make_fixture_payload : ℕ → List ℕ
unfolding payload_rows
make_fixture_payload frame_id = payload_rows fixture_height 0 (bit_and frame_id 0xffff_ffff)

pub fixture_timestamp : ℕ → ℕ
fixture_timestamp frame_id = (fixture_timestamp_base + frame_id * fixture_timestamp_step) % 2 ^ 64

pub fixture_header : ℕ → FrameHeader
fixture_header frame_id =
    let payload = make_fixture_payload frame_id in
    make_header frame_id (fixture_timestamp frame_id) fixture_width fixture_height pix_fmt_yuyv
      (length payload % 2 ^ 32) (compute_crc32 payload)

-- The loop of `write_fixture`, from a frame on, with the frames left: what it writes.
pub write_frames : ℕ → ℕ → List ℕ
unfolding fixture_header
write_frames zero frame_id = []
write_frames (suc n) frame_id =
    serialize_header (fixture_header frame_id)
    ++ (make_fixture_payload frame_id ++ write_frames n (frame_id + 1))

pub write_fixture : ℕ → List ℕ
unfolding write_frames
write_fixture frames = write_frames frames 0

-- What `verify_fixture` throws, with the frame, or the number of frames verified.
pub data Verdict : Type 0 where
  truncated_header truncated_payload crc_mismatch payload_mismatch fields_mismatch : ℕ → Verdict
  decode_failed validation_failed : ℕ → Reason → Verdict
  frame_count_mismatch : ℕ → ℕ → Verdict
  verified : ℕ → ℕ → Verdict
  unfinished : Verdict

-- The checks on the payload and the rest of the file, given how the loop goes on after the frame.
pub check_payload : FrameHeader → ℕ → List ℕ → (List ℕ → ℕ → Verdict) → Verdict
check_payload h frame_id bytes continue =
    let payload = take h.payload_size bytes in
    let go_on = continue (drop h.payload_size bytes) (wire_header_size + length payload) in
    if length payload != h.payload_size
    then truncated_payload frame_id
    else (if compute_crc32 payload != h.payload_crc32
        then crc_mismatch frame_id
        else (if bytes_eq payload (make_fixture_payload frame_id)
            then go_on
            else payload_mismatch frame_id))

abbrev pub fields_differ : FrameHeader → ℕ → Bool
fields_differ h frame_id =
    h.frame_id != frame_id
    || h.capture_timestamp_ns != fixture_timestamp frame_id
    || h.width != fixture_width
    || h.height != fixture_height
    || h.pixel_format != pix_fmt_yuyv

pub check_valid : FrameHeader → Checked (Unit {0}) → ℕ → List ℕ → (List ℕ → ℕ → Verdict) → Verdict
unfolding check_payload
check_valid h (refused reason) frame_id bytes continue = validation_failed frame_id reason
check_valid h (accepted _) frame_id bytes continue =
    let rest = check_payload h frame_id bytes continue in
    if fields_differ h frame_id then fields_mismatch frame_id else rest

pub check_header : Checked FrameHeader → ℕ → List ℕ → (List ℕ → ℕ → Verdict) → Verdict
unfolding check_valid
check_header (refused reason) frame_id bytes continue = decode_failed frame_id reason
check_header (accepted h) frame_id bytes continue =
    check_valid h (validate_header h default_max_payload_bytes) frame_id bytes continue

-- The loop of `verify_fixture` with fuel, and the comparison with the number of frames expected.
pub verify_loop : ℕ → ℕ → ℕ → ℕ → List ℕ → Verdict
unfolding check_header
verify_loop zero frames frame_id total bytes = unfinished
verify_loop (suc fuel) frames frame_id total [] =
    if frame_id != frames then frame_count_mismatch frame_id frames else verified frame_id total
verify_loop (suc fuel) frames frame_id total (b ∷ bytes) =
    let wire = take wire_header_size (b ∷ bytes) in
    if length wire != wire_header_size
    then truncated_header frame_id
    else check_header (deserialize_header wire) frame_id (drop wire_header_size (b ∷ bytes))
        (λ rest size. verify_loop fuel frames (frame_id + 1) (total + size) rest)

-- Every round takes a header at least, so the number of bytes is fuel enough.
pub verify_fixture : ℕ → List ℕ → Verdict
unfolding verify_loop
verify_fixture frames bytes = verify_loop (suc (length bytes)) frames 0 0 bytes
