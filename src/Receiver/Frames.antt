-- ===== src/Receiver/Frames.antt =====
-- `receive_frame`, the body of the session's loop up to the checksum: its results against the bytes of
-- the stream.
use v4l2_capture.Prelude.{ℕ, ◌+◌, ◌≤◌, ◌<◌, ◌≡◌, ◌≢◌, refl, sym, ap, ◌∙◌, inl, inr, ◌!=◌}
use v4l2_capture.Prelude.{
  List, [], ◌++◌, Bool-cases, arith, length, length-append, append-injective,
}
use v4l2_capture.Protocol.{FrameHeader, Checked, accepted, refused, wire_header_size}
use v4l2_capture.Protocol.{serialize_header, deserialize_header, validate_header, compute_crc32}
use v4l2_capture.Protocol.RoundTrip.{
  Fits, deserialize-serialize, length-serialize_header, deserialize_header-never_refuses,
  accepted-injective, accepted-refused,
}
use v4l2_capture.Protocol.Validation.{validate_header_iff}
use v4l2_capture.Send.{Errno}
use v4l2_capture.Receiver.{Sockets, ReadResult, filled, end_of_stream, recv_failed, unfinished}
use v4l2_capture.Receiver.{
  FrameResult, closed, undecodable, invalid, cut_short, crc_mismatch, frame,
}
use v4l2_capture.Receiver.{
  failed, out_of_fuel, check_payload, read_payload, check_header, after_header, receive_frame,
}
use v4l2_capture.Receiver.Reading.{Streams, Reads, read_exact-Reads}
use v4l2_capture.Prelude.{ap₂}

-- A header stands at the front of the stream, and passes the checks.
pub record Headed (before : List ℕ) (h : FrameHeader) (after : List ℕ) : Type 0 where
  pub wire : List ℕ
  pub wire_size : length wire ≡ wire_header_size
  pub decoded : deserialize_header wire ≡ accepted h
  pub split : before ≡ wire ++ after

module _ (sockets : Sockets) (streams : Streams sockets) (limit : ℕ) where
  open sockets use {Socket, recv}
  open streams use {may_fail, left, patience}

  -- What a result says of the stream before and after.
  abbrev pub Says : Socket → FrameResult → Socket → Type 0
  Says s closed u = (length (left s) < wire_header_size) × (left u ≡ [])
  Says s (undecodable reason) u = ⊥
  Says s (invalid h reason) u =
      Headed (left s) h (left u) × (validate_header h limit ≡ refused reason)
  Says s (cut_short h) u =
      (some_bytes : List ℕ) × Headed (left s) h some_bytes
      × (validate_header h limit ≡ accepted tt)
      × (length some_bytes < h.payload_size)
      × (left u ≡ [])
  Says s (crc_mismatch h) u =
      (payload : List ℕ) × Headed (left s) h (payload ++ left u)
      × (validate_header h limit ≡ accepted tt)
      × (length payload ≡ h.payload_size)
      × (compute_crc32 payload ≢ h.payload_crc32)
  Says s (frame h payload) u =
      Headed (left s) h (payload ++ left u)
      × (validate_header h limit ≡ accepted tt)
      × (length payload ≡ h.payload_size)
      × (compute_crc32 payload ≡ h.payload_crc32)
      × (patience u ≤ patience s)
  Says s (failed e) u = may_fail e
  Says s out_of_fuel u = ⊥

  check_payload-Says :
      (s t u : Socket) (h : FrameHeader) (result : ReadResult)
      → Headed (left s) h (left t)
      → patience t ≤ patience s
      → validate_header h limit ≡ accepted tt
      → Reads sockets streams t h.payload_size [] result u
      → Says s (check_payload sockets h result) u
  unfolding check_payload
  check_payload-Says s t u h (filled payload) hd p v (len, split, q) =
      elim (Bool-cases (compute_crc32 payload != h.payload_crc32)) [
        | inl e ↦ rw e (payload, rw (← split) hd, v, len, ground arith)
        | inr e ↦ rw e (rw (← split) hd, v, len, ground arith, omega arith)
      ]
  check_payload-Says s t u h end_of_stream hd p v (short, over) = (left t, hd, v, omega arith, over)
  check_payload-Says s t u h (recv_failed e) hd p v (a, b) = b
  check_payload-Says s t u h unfinished hd p v x = x

  read_payload-Says :
      (fuel : ℕ) (s t : Socket) (h : FrameHeader) (checked : Checked (Unit {0}))
      → limit + patience t ≤ fuel
      → Headed (left s) h (left t)
      → patience t ≤ patience s
      → validate_header h limit ≡ checked
      → let (result, u) = read_payload sockets fuel t h checked in Says s result u
  unfolding read_payload
  read_payload-Says fuel s t h (refused reason) f hd p v = (hd, v)
  read_payload-Says fuel s t h (accepted x) f hd p v = check_payload-Says s t _ h _ hd p v (
      read_exact-Reads sockets streams fuel t h.payload_size
        (let (_, small) = ((validate_header_iff h limit).0 v).payload_in in omega arith))

  check_header-Says :
      (fuel : ℕ) (s t : Socket) (wire : List ℕ) (decoded : Checked FrameHeader)
      → limit + patience t ≤ fuel
      → length wire ≡ wire_header_size
      → left s ≡ wire ++ left t
      → patience t ≤ patience s
      → deserialize_header wire ≡ decoded
      → let (result, u) = check_header sockets fuel t limit decoded in Says s result u
  unfolding check_header
  check_header-Says fuel s t wire (accepted h) f len split p d =
      read_payload-Says fuel s t h _ f
        (record { wire = wire; wire_size = len; decoded = d; split = split }) p refl
  check_header-Says fuel s t wire (refused reason) f len split p d =
      absurd (deserialize_header-never_refuses wire len reason d)

  after_header-Says :
      (fuel : ℕ) (s t : Socket) (result : ReadResult)
      → wire_header_size + limit + patience s ≤ fuel
      → Reads sockets streams s wire_header_size [] result t
      → let (r, u) = after_header sockets fuel limit result t in Says s r u
  unfolding after_header
  after_header-Says fuel s t (filled wire) f (len, split, p) =
      check_header-Says fuel s t wire _ (omega arith) len split p refl
  after_header-Says fuel s t end_of_stream f (short, over) = (omega arith, over)
  after_header-Says fuel s t (recv_failed e) f (a, b) = b
  after_header-Says fuel s t unfinished f x = x

  -- With fuel for the header, the largest payload and the interruptions, a round always has a result,
  -- and the result is right: a frame is the header, which passes the checks, and the payload that
  -- stand first in the stream, the payload has the size and the checksum of the header, and nothing
  -- beyond it is taken; a rejected header or checksum is wrong; `closed` and `cut_short` mean that
  -- the stream ends before the header or the payload does; an error is one that `recv` may report.
  pub receive_frame-Says :
      (fuel : ℕ) (s : Socket)
      → wire_header_size + limit + patience s ≤ fuel
      → let (result, u) = receive_frame sockets fuel s limit in Says s result u
  unfolding receive_frame
  receive_frame-Says fuel s f =
      after_header-Says fuel s _ _ f
        (read_exact-Reads sockets streams fuel s wire_header_size (omega arith))

  -- A header found at the front of a sent frame is the header that was sent.
  sent_header :
      (before after payload rest : List ℕ) (h k : FrameHeader)
      → Fits h
      → before ≡ serialize_header h ++ (payload ++ rest)
      → Headed before k after
      → (h ≡ k) × (payload ++ rest ≡ after)
  sent_header before after payload rest h k fits e hd =
      let (same, tails) =
        append-injective (serialize_header h) hd.wire _ _
          (length-serialize_header h ∙ sym hd.wire_size) (sym e ∙ hd.split) in
      (
        accepted-injective
            (sym (deserialize-serialize h fits) ∙ ap deserialize_header same ∙ hd.decoded),
        tails,
      )

  sent-Says :
      (s u : Socket) (h : FrameHeader) (payload rest : List ℕ) (result : FrameResult)
      → ((e : Errno) → ¬ may_fail e)
      → Fits h
      → validate_header h limit ≡ accepted tt
      → length payload ≡ h.payload_size
      → compute_crc32 payload ≡ h.payload_crc32
      → left s ≡ serialize_header h ++ (payload ++ rest)
      → Says s result u
      → (result ≡ frame h payload) × (left u ≡ rest) × (patience u ≤ patience s)
  sent-Says s u h payload rest closed fine fits v len crc e (short, _) = absurd (
      omega (
        arith,
        ap length e,
        length-append (serialize_header h) (payload ++ rest),
        length-serialize_header h,
      ))
  sent-Says s u h payload rest (undecodable r) fine fits v len crc e says = absurd says
  sent-Says s u h payload rest (invalid k r) fine fits v len crc e (hd, refusal) =
      let (same, _) = sent_header _ _ payload rest h k fits e hd in
      absurd (accepted-refused (sym v ∙ ap (λ h. validate_header h limit) same ∙ refusal))
  sent-Says s u h payload rest (cut_short k) fine fits v len crc e (some_bytes, hd, ok, short, _) =
      let (same, tails) = sent_header _ _ payload rest h k fits e hd in
      absurd (
        omega
          (arith, ap length tails, length-append payload rest, ap FrameHeader.payload_size same))
  sent-Says s u h payload rest (crc_mismatch k) fine fits v len crc e (got, hd, ok, size, wrong) =
      let (same, tails) = sent_header _ _ payload rest h k fits e hd in
      let (eq, _) =
        append-injective payload got rest (left u)
          (len ∙ ap FrameHeader.payload_size same ∙ sym size) tails in
      absurd (wrong (ap compute_crc32 (sym eq) ∙ crc ∙ ap FrameHeader.payload_crc32 same))
  sent-Says s u h payload rest (frame k got) fine fits v len crc e (hd, ok, size, right, p) =
      let (same, tails) = sent_header _ _ payload rest h k fits e hd in
      let (eq, over) =
        append-injective payload got rest (left u)
          (len ∙ ap FrameHeader.payload_size same ∙ sym size) tails in
      (ap₂ frame (sym same) (sym eq), sym over, p)
  sent-Says s u h payload rest (failed x) fine fits v len crc e says = absurd (fine x says)
  sent-Says s u h payload rest out_of_fuel fine fits v len crc e says = absurd says

  -- A frame that a peer sends as `serialize_header` writes it, acceptable and with the right size and
  -- checksum, is received as it was sent, on a connection that does not fail and however it cuts the
  -- stream, and the bytes after it are left for the next round, with no
  -- more interruptions to come than before.
  pub receive_frame-sent :
      (fuel : ℕ) (s : Socket) (h : FrameHeader) (payload rest : List ℕ)
      → wire_header_size + limit + patience s ≤ fuel
      → ((e : Errno) → ¬ may_fail e)
      → Fits h
      → validate_header h limit ≡ accepted tt
      → length payload ≡ h.payload_size
      → compute_crc32 payload ≡ h.payload_crc32
      → left s ≡ serialize_header h ++ (payload ++ rest)
      → let (result, u) = receive_frame sockets fuel s limit in
        (result ≡ frame h payload) × (left u ≡ rest) × (patience u ≤ patience s)
  receive_frame-sent fuel s h payload rest f fine fits v len crc e =
      sent-Says s _ h payload rest _ fine fits v len crc e (receive_frame-Says fuel s f)
