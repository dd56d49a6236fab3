-- ===== src/Fixture/Verified.antt =====
-- `verify_fixture` on the file that `write_fixture` writes.
use mathlib.Core.Path.{subst}
use v4l2_capture.Prelude.{ℕ, zero, suc, ◌+◌, ◌*◌, ◌≤◌, ◌<◌, ◌≡◌, refl, ap, ◌∙◌, false}
use v4l2_capture.Prelude.{
  List, [], ◌∷◌, ◌++◌, length, take, drop, bytes_eq_refl, take-length_append, drop-length_append,
  length-append, arith,
}
use v4l2_capture.Protocol.{
  pix_fmt_yuyv, FrameHeader, accepted, wire_header_size, default_max_payload_bytes,
}
use v4l2_capture.Protocol.{serialize_header, deserialize_header, compute_crc32, make_header}
use v4l2_capture.Protocol.RoundTrip.{Fits, deserialize-serialize, length-serialize_header}
use v4l2_capture.Protocol.Validation.{IsAcceptable, validate_header_iff}
use v4l2_capture.Protocol.Crc.{compute_crc32-bound}
use v4l2_capture.Fixture.{
  make_fixture_payload, fixture_timestamp, fixture_header, write_frames, write_fixture,
}
use v4l2_capture.Fixture.{
  Verdict, verified, check_payload, check_valid, check_header, fields_differ, verify_loop,
  verify_fixture,
}

pub length-make_fixture_payload : (frame_id : ℕ) → length (make_fixture_payload frame_id) ≡ 64
unfolding make_fixture_payload
length-make_fixture_payload frame_id = refl

pub fixture_header-Fits : (f : ℕ) → f < 1000000 → Fits (fixture_header f)
unfolding fixture_header fixture_timestamp make_header
fixture_header-Fits f h = record {
  magic = omega arith;
  header_size = omega arith;
  version = omega arith;
  frame_id = omega arith;
  capture_timestamp_ns = omega arith;
  width = omega arith;
  height = omega arith;
  pixel_format = omega arith;
  payload_size = omega (arith, length-make_fixture_payload f);
  payload_crc32 = compute_crc32-bound (make_fixture_payload f);
}

pub fixture_header-IsAcceptable :
    (f : ℕ) → f < 1000000 → IsAcceptable (fixture_header f) default_max_payload_bytes
unfolding fixture_header fixture_timestamp make_header
fixture_header-IsAcceptable f h = ground (arith, length-make_fixture_payload f)

fields_same : (f : ℕ) → f < 1000000 → fields_differ (fixture_header f) f ≡ false
unfolding fixture_header make_header
fields_same f h = ground arith

check_payload-same :
    (h : FrameHeader) (f : ℕ) (rest : List ℕ) (continue : List ℕ → ℕ → Verdict)
    → h.payload_size ≡ length (make_fixture_payload f)
    → h.payload_crc32 ≡ compute_crc32 (make_fixture_payload f)
    → check_payload h f (make_fixture_payload f ++ rest) continue
      ≡ continue rest (wire_header_size + length (make_fixture_payload f))
unfolding check_payload
check_payload-same h f rest continue size crc =
    rw
      (
        size,
        take-length_append (make_fixture_payload f) rest,
        drop-length_append (make_fixture_payload f) rest,
        crc,
      )
      (ground (arith, bytes_eq_refl (make_fixture_payload f)))

pub fixture_payload_size :
    (f : ℕ) → (fixture_header f).payload_size ≡ length (make_fixture_payload f)
unfolding fixture_header make_header
fixture_payload_size f = omega (arith, length-make_fixture_payload f)

pub fixture_format : (f : ℕ) → (fixture_header f).pixel_format ≡ pix_fmt_yuyv
unfolding fixture_header make_header
fixture_format f = refl

pub fixture_crc :
    (f : ℕ) → (fixture_header f).payload_crc32 ≡ compute_crc32 (make_fixture_payload f)
unfolding fixture_header make_header
fixture_crc f = refl

-- One round on a frame as it was written.
check_header-same :
    (f : ℕ) (rest : List ℕ) (continue : List ℕ → ℕ → Verdict)
    → f < 1000000
    → check_header (accepted (fixture_header f)) f (make_fixture_payload f ++ rest) continue
      ≡ continue rest 108
unfolding check_header check_valid
check_header-same f rest continue h =
    rw
      (
        (validate_header_iff (fixture_header f) default_max_payload_bytes).1
            (fixture_header-IsAcceptable f h),
        fields_same f h,
      )
      (check_payload-same (fixture_header f) f rest continue (fixture_payload_size f)
          (fixture_crc f)
        ∙ ap (λ (k : ℕ). continue rest k) (omega (arith, length-make_fixture_payload f)))

verify_loop-wire :
    (fuel frames f total : ℕ) (wire bytes : List ℕ) (h : FrameHeader)
    → length wire ≡ wire_header_size
    → deserialize_header wire ≡ accepted h
    → verify_loop (suc fuel) frames f total (wire ++ bytes)
      ≡ check_header
          (accepted h)
          f
          bytes
          (λ rest size. verify_loop fuel frames (f + 1) (total + size) rest)
unfolding verify_loop
verify_loop-wire fuel frames f total [] bytes h len d = absurd (omega arith)
verify_loop-wire fuel frames f total (w ∷ ws) bytes h len d =
    let taken =
      subst (λ (n : ℕ). take n ((w ∷ ws) ++ bytes) ≡ w ∷ ws) len
        (take-length_append (w ∷ ws) bytes) in
    let dropped =
      subst (λ (n : ℕ). drop n ((w ∷ ws) ++ bytes) ≡ bytes) len
        (drop-length_append (w ∷ ws) bytes) in
    rw (taken, dropped, d) (ground (arith, len))

verify_loop-end :
    (fuel f total frames : ℕ)
    → f ≡ frames
    → verify_loop (suc fuel) frames f total [] ≡ verified frames total
unfolding verify_loop
verify_loop-end fuel f total frames e = rw e (ground arith)

verify_loop-written :
    (n fuel f total frames : ℕ)
    → n < fuel
    → f + n ≡ frames
    → frames ≤ 1000000
    → verify_loop fuel frames f total (write_frames n f) ≡ verified frames (total + n * 108)
unfolding write_frames
verify_loop-written n zero f total frames h e small = absurd (omega arith)
verify_loop-written zero (suc fuel) f total frames h e small =
    verify_loop-end fuel f total frames (omega arith)
    ∙ ap (λ (k : ℕ). verified frames k) (omega arith)
verify_loop-written (suc n) (suc fuel) f total frames h e small =
    verify_loop-wire fuel frames f total (serialize_header (fixture_header f)) _ (fixture_header f)
      (length-serialize_header (fixture_header f))
      (deserialize-serialize (fixture_header f) (fixture_header-Fits f (omega arith)))
    ∙ check_header-same f (write_frames n (f + 1)) _ (omega arith)
    ∙ verify_loop-written n fuel (f + 1) (total + 108) frames (omega arith) (omega arith) small
    ∙ ap (λ (k : ℕ). verified frames k) (omega arith)

length-write_frames : (n f : ℕ) → n ≤ length (write_frames n f)
unfolding write_frames
length-write_frames zero f = omega arith
length-write_frames (suc n) f = omega (
  arith,
  length-write_frames n (f + 1),
  length-serialize_header (fixture_header f),
  length-append (serialize_header (fixture_header f))
      (make_fixture_payload f ++ write_frames n (f + 1)),
  length-append (make_fixture_payload f) (write_frames n (f + 1)),
)

-- What `write_fixture` writes, up to the million frames that the options allow, `verify_fixture`
-- accepts as the same number of frames of 108 bytes each.
pub verify_fixture-write_fixture :
    (frames : ℕ)
    → frames ≤ 1000000
    → verify_fixture frames (write_fixture frames) ≡ verified frames (frames * 108)
unfolding verify_fixture write_fixture
verify_fixture-write_fixture frames small =
    verify_loop-written frames (suc (length (write_frames frames 0))) 0 0 frames
      (omega (arith, length-write_frames frames 0)) (omega arith) small
    ∙ ap (λ (k : ℕ). verified frames k) (omega arith)
