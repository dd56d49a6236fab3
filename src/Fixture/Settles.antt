-- ===== src/Fixture/Settles.antt =====
-- `verify_fixture` on a file of any bytes.
use v4l2_capture.Prelude.{
  ℕ, zero, suc, ◌+◌, ◌-◌, ◌*◌, ◌≤◌, ◌<◌, ◌≡◌, ◌≢◌, refl, true, ◌!=◌, if-cases,
}
use v4l2_capture.Prelude.{
  List, [], ◌∷◌, length, length-take, length-drop, take, drop, bytes_eq, arith,
}
use v4l2_capture.Protocol.{
  FrameHeader, Checked, accepted, refused, wire_header_size, default_max_payload_bytes,
}
use v4l2_capture.Protocol.{deserialize_header, validate_header, compute_crc32}
use v4l2_capture.Fixture.{
  Verdict, truncated_header, truncated_payload, crc_mismatch, payload_mismatch, fields_mismatch,
  decode_failed, validation_failed, frame_count_mismatch, verified, unfinished,
}
use v4l2_capture.Fixture.{
  make_fixture_payload, check_payload, check_valid, check_header, fields_differ, verify_loop,
  verify_fixture,
}
use v4l2_capture.Fixture.Verified.{length-make_fixture_payload}

-- Every frame before the one at fault has its 108 bytes in the file, of `size` bytes, and the frame at
-- fault has a header, unless that is cut. `unfinished` is the verdict of no file.
pub Settled : ℕ → ℕ → Verdict → Type 0
Settled frames size (verified n total) = (n ≡ frames) × (total ≡ size) × (size ≡ frames * 108)
Settled frames size (frame_count_mismatch n m) = (m ≡ frames) × (n ≢ frames) × (size ≡ n * 108)
Settled frames size (truncated_header n) = (n * 108 < size) × (size < n * 108 + wire_header_size)
Settled frames size (truncated_payload n) = n * 108 + wire_header_size ≤ size
Settled frames size (decode_failed n reason) = n * 108 + wire_header_size ≤ size
Settled frames size (validation_failed n reason) = n * 108 + wire_header_size ≤ size
Settled frames size (fields_mismatch n) = n * 108 + wire_header_size ≤ size
Settled frames size (crc_mismatch n) = n * 108 + wire_header_size ≤ size
Settled frames size (payload_mismatch n) = n * 108 + wire_header_size ≤ size
Settled frames size unfinished = ⊥

length-bytes_eq : (xs ys : List ℕ) → bytes_eq xs ys ≡ true → length xs ≡ length ys
length-bytes_eq [] [] e = refl
length-bytes_eq [] (y ∷ ys) e = absurd (ground arith)
length-bytes_eq (x ∷ xs) [] e = absurd (ground arith)
length-bytes_eq (x ∷ xs) (y ∷ ys) e =
    let tail : bytes_eq xs ys ≡ true = ground arith in omega (arith, length-bytes_eq xs ys tail)

module _ (frames size : ℕ) where
  check_payload-Settled :
      (h : FrameHeader) (frame_id : ℕ) (bytes : List ℕ) (continue : List ℕ → ℕ → Verdict)
      → frame_id * 108 + wire_header_size ≤ size
      → ((rest : List ℕ) (n : ℕ)
          → length rest ≡ length bytes - 64
          → n ≡ 108
          → 64 ≤ length bytes
          → Settled frames size (continue rest n))
      → Settled frames size (check_payload h frame_id bytes continue)
  unfolding check_payload Settled
  check_payload-Settled h frame_id bytes continue header go =
      let payload = take h.payload_size bytes in
      if-cases (Settled frames size) (length payload != h.payload_size) _ _ (λ _. header)
        (λ whole.
          if-cases (Settled frames size) (compute_crc32 payload != h.payload_crc32) _ _
            (λ _. header)
            (λ _.
              if-cases (Settled frames size) (bytes_eq payload (make_fixture_payload frame_id)) _ _
                (λ same.
                  let len : length payload ≡ length (make_fixture_payload frame_id) =
                    length-bytes_eq payload (make_fixture_payload frame_id) same in
                  let exact : length payload ≡ h.payload_size = ground arith in
                  let n : h.payload_size ≡ 64 =
                    omega (arith, len, exact, length-make_fixture_payload frame_id) in
                  go (drop h.payload_size bytes) (wire_header_size + length payload)
                    (omega (arith, n, length-drop h.payload_size bytes)) (omega (arith, n, exact))
                    (omega (arith, n, exact, length-take h.payload_size bytes)))
                (λ _. header)))

  check_valid-Settled :
      (h : FrameHeader) (v : Checked (Unit {0})) (frame_id : ℕ) (bytes : List ℕ)
      (continue : List ℕ → ℕ → Verdict)
      → frame_id * 108 + wire_header_size ≤ size
      → Settled frames size (check_payload h frame_id bytes continue)
      → Settled frames size (check_valid h v frame_id bytes continue)
  unfolding check_valid Settled
  check_valid-Settled h (refused reason) frame_id bytes continue header rest = header
  check_valid-Settled h (accepted _) frame_id bytes continue header rest =
      if-cases (Settled frames size) (fields_differ h frame_id) _ _ (λ _. header) (λ _. rest)

  check_header-Settled :
      (d : Checked FrameHeader) (frame_id : ℕ) (bytes : List ℕ) (continue : List ℕ → ℕ → Verdict)
      → frame_id * 108 + wire_header_size ≤ size
      → ((rest : List ℕ) (n : ℕ)
          → length rest ≡ length bytes - 64
          → n ≡ 108
          → 64 ≤ length bytes
          → Settled frames size (continue rest n))
      → Settled frames size (check_header d frame_id bytes continue)
  unfolding check_header Settled
  check_header-Settled (refused reason) frame_id bytes continue header go = header
  check_header-Settled (accepted h) frame_id bytes continue header go =
      check_valid-Settled h (validate_header h default_max_payload_bytes) frame_id bytes continue
        header (check_payload-Settled h frame_id bytes continue header go)

  -- The loop, after `frame_id` frames of 108 bytes each.
  verify_loop-Settled :
      (fuel frame_id total : ℕ) (bytes : List ℕ)
      → length bytes < fuel
      → size ≡ frame_id * 108 + length bytes
      → total ≡ frame_id * 108
      → Settled frames size (verify_loop fuel frames frame_id total bytes)
  unfolding verify_loop Settled
  verify_loop-Settled zero frame_id total bytes f e t = absurd (omega (arith, f))
  verify_loop-Settled (suc fuel) frame_id total [] f e t =
      if-cases (Settled frames size) (frame_id != frames) _ _
        (λ d. (refl, ground arith, omega (arith, e)))
        (λ d.
          let same : frame_id ≡ frames = ground arith in
          (same, omega (arith, t, e), omega (arith, same, e)))
  verify_loop-Settled (suc fuel) frame_id total (b ∷ bytes) f e t =
      let wire = take wire_header_size (b ∷ bytes) in
      let len = length-take wire_header_size (b ∷ bytes) in
      if-cases (Settled frames size) (length wire != wire_header_size) _ _
        (λ d.
          let short : length wire ≢ wire_header_size = ground arith in
          (omega (arith, e), omega (arith, e, len, short)))
        (λ d.
          let whole : length wire ≡ wire_header_size = ground arith in
          let rest = length-drop wire_header_size (b ∷ bytes) in
          check_header-Settled (deserialize_header wire) frame_id
            (drop wire_header_size (b ∷ bytes)) _ (omega (arith, e, len, whole))
            (λ more n left step enough.
              verify_loop-Settled fuel (frame_id + 1) (total + n) more
                (omega (arith, left, rest, f, enough)) (omega (arith, left, rest, e, enough))
                (omega (arith, t, step))))

-- `verify_fixture` comes to a verdict on every file. If it verifies frames, they are as many as asked
-- for, and the file has exactly 108 bytes for each, all of which it counts; a wrong number of frames is
-- reported for a whole number of frames of 108 bytes, and a cut header for a file that ends inside a
-- header, after whole frames; and every other fault lies in a frame with a whole header, after whole
-- frames.
pub verify_fixture-Settled :
    (frames : ℕ) (bytes : List ℕ) → Settled frames (length bytes) (verify_fixture frames bytes)
unfolding verify_fixture
verify_fixture-Settled frames bytes =
    verify_loop-Settled frames (length bytes) (suc (length bytes)) 0 0 bytes (omega arith)
      (omega arith) (omega arith)
