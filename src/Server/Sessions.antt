-- ===== src/Server/Sessions.antt =====
-- A session over a stream socket: its end, and the frames that it reports.
use v4l2_capture.Prelude.{ℕ, zero, suc, ◌+◌, ◌≤◌, ◌<◌, ◌≡◌, ◌≢◌, refl, sym, ap, ◌∙◌, true}
use v4l2_capture.Prelude.{
  if-cases, List, [], ◌∷◌, ◌++◌, length, length-append, append-nil, append_assoc, All, All-append,
  arith,
}
use v4l2_capture.Protocol.{FrameHeader, accepted, wire_header_size}
use v4l2_capture.Protocol.{serialize_header, validate_header, compute_crc32}
use v4l2_capture.Protocol.RoundTrip.{Fits}
use v4l2_capture.Send.{Errno}
use v4l2_capture.Receiver.{
  Sockets, FrameResult, closed, undecodable, invalid, cut_short, crc_mismatch,
}
use v4l2_capture.Receiver.{frame, failed, out_of_fuel}
use v4l2_capture.Receiver.Reading.{Streams}
use v4l2_capture.Receiver.Frames.{Headed, Says, receive_frame-Says, receive_frame-sent}
use v4l2_capture.Server.{Receiver, Options, Verdict, go_on, over, thrown, stuck, settle, wants_more}
use v4l2_capture.Server.{go_on_with, session_loop, count, sample, save_frame}

-- A frame that passes every check of the receiver.
abbrev pub Sound : ℕ → FrameHeader × List ℕ → Type 0
Sound limit (h, payload) =
    (validate_header h limit ≡ accepted tt)
    × (length payload ≡ h.payload_size)
    × (compute_crc32 payload ≡ h.payload_crc32)

-- The bytes of frames that are sent one after the other.
unfoldable pub encode : List (FrameHeader × List ℕ) → List ℕ
encode [] = []
encode ((h, payload) ∷ rest) = serialize_header h ++ (payload ++ encode rest)

-- Only a frame is reported.
settle-frame :
    (o : Options) (h : FrameHeader) (payload : List ℕ) (r : Receiver)
    → (settle o (frame h payload) r).1.frames ≡ r.frames ++ ((h, payload) ∷ [])
unfolding settle count sample save_frame
settle-frame o h payload r = ground arith

settle-frame-kept :
    (o : Options) (h : FrameHeader) (payload : List ℕ) (r : Receiver)
    → ((n : ℕ) → o.save_works n ≡ true)
    → (settle o (frame h payload) r).0 ≡ go_on
unfolding settle count sample save_frame
settle-frame-kept o h payload r works =
    ground (arith, works ((count h payload (sample o h r)).received_frames))

settle-frame-stuck :
    (o : Options) (h : FrameHeader) (payload : List ℕ) (r : Receiver)
    → (settle o (frame h payload) r).0 ≢ stuck
unfolding settle count sample save_frame
settle-frame-stuck o h payload r e = ground arith

module _ (sockets : Sockets) (streams : Streams sockets) (o : Options) where
  open sockets use {Socket}
  open streams use {may_fail, left, patience}

  -- What a round leaves: sound frames, and fewer bytes to come when it goes on.
  Settled : Socket → Socket → Verdict × Receiver → Type 0
  Settled s u (v, r) =
      (v ≢ stuck)
      × All (Sound o.max_payload_bytes) r.frames
      × (v ≡ go_on → (length (left u) < length (left s)) × (patience u ≤ patience s))

  settle-Settled :
      (s u : Socket) (result : FrameResult) (r : Receiver)
      → Says sockets streams o.max_payload_bytes s result u
      → All (Sound o.max_payload_bytes) r.frames
      → Settled s u (settle o result r)
  unfolding settle Settled
  settle-Settled s u (frame h payload) r (hd, v, len, crc, p) all = (
    settle-frame-stuck o h payload r,
    rw (settle-frame o h payload r)
        (All-append _ r.frames ((h, payload) ∷ []) all ((v, len, crc), tt)),
    λ _. (
      omega (
        arith,
        ap length hd.split,
        length-append hd.wire (payload ++ left u),
        length-append payload (left u),
        hd.wire_size,
      ),
      p,
    ),
  )
  settle-Settled s u closed r says all = (λ e. cc, all, λ e. cc)
  settle-Settled s u (undecodable x) r says all = absurd says
  settle-Settled s u (invalid h x) r says all = (λ e. cc, all, λ e. cc)
  settle-Settled s u (cut_short h) r says all = (λ e. cc, all, λ e. cc)
  settle-Settled s u (crc_mismatch h) r says all = (λ e. cc, all, λ e. cc)
  settle-Settled s u (failed e) r says all = (λ e. cc, all, λ e. cc)
  settle-Settled s u out_of_fuel r says all = absurd says

  -- How a session may end: by itself or by an exception, with sound frames.
  abbrev pub Ends : Verdict × Receiver → Type 0
  Ends (v, r) = (v ≢ stuck) × (v ≢ go_on) × All (Sound o.max_payload_bytes) r.frames

  go_on_with-Ends :
      (s u : Socket) (vr : Verdict × Receiver) (continue : Receiver → Verdict × Receiver)
      → Settled s u vr
      → ((r' : Receiver)
          → (length (left u) < length (left s))
          → patience u ≤ patience s
          → All (Sound o.max_payload_bytes) r'.frames
          → Ends (continue r'))
      → Ends (go_on_with vr continue)
  unfolding go_on_with Settled
  go_on_with-Ends s u (go_on, r) continue (a, b, c) ih = let (x, y) = c refl in ih r x y b
  go_on_with-Ends s u (over ok, r) continue (a, b, c) ih = (a, λ e. cc, b)
  go_on_with-Ends s u (thrown, r) continue (a, b, c) ih = (a, λ e. cc, b)
  go_on_with-Ends s u (stuck, r) continue (a, b, c) ih = (a, λ e. cc, b)

  -- A session over a stream socket ends, with fuel for the bytes to come: it is closed or an exception
  -- ends it, it never goes on for ever. And every frame that is reported passes all checks of
  -- `validate_header`, and its payload has the size and the checksum of its header, when the frames
  -- reported before are so.
  pub session_loop-Ends :
      (rounds reads : ℕ) (s : Socket) (r : Receiver)
      → length (left s) < rounds
      → wire_header_size + o.max_payload_bytes + patience s ≤ reads
      → All (Sound o.max_payload_bytes) r.frames
      → let (v, r') = session_loop sockets rounds reads o s r in
        (v ≢ stuck) × (v ≢ go_on) × All (Sound o.max_payload_bytes) r'.frames
  unfolding session_loop
  session_loop-Ends zero reads s r n f all = absurd (omega arith)
  session_loop-Ends (suc rounds) reads s r n f all =
      if-cases Ends (wants_more o r) _ _
        (λ _.
          go_on_with-Ends s _ _ _
            (settle-Settled s _ _ r
              (receive_frame-Says sockets streams o.max_payload_bytes reads s f) all)
            (λ r' fewer calmer all'.
              session_loop-Ends rounds reads _ r' (omega arith) (omega arith) all'))
        (λ _. (λ e. cc, λ e. cc, all))

  nothing-Headed :
      (s : Socket) (h : FrameHeader) (after : List ℕ) → left s ≡ [] → ¬ Headed (left s) h after
  nothing-Headed s h after e hd =
      omega (arith, ap length (sym e ∙ hd.split), length-append hd.wire after, hd.wire_size)

  -- At the end of the stream the session is closed.
  closed_at_end :
      (s u : Socket) (result : FrameResult)
      → ((e : Errno) → ¬ may_fail e)
      → left s ≡ []
      → Says sockets streams o.max_payload_bytes s result u
      → result ≡ closed
  closed_at_end s u closed fine e says = refl
  closed_at_end s u (undecodable x) fine e says = absurd says
  closed_at_end s u (invalid h x) fine e (hd, _) = absurd (nothing-Headed s h _ e hd)
  closed_at_end s u (cut_short h) fine e (_, hd, _, _, _) = absurd (nothing-Headed s h _ e hd)
  closed_at_end s u (crc_mismatch h) fine e (_, hd, _, _, _) = absurd (nothing-Headed s h _ e hd)
  closed_at_end s u (frame h p) fine e (hd, _, _, _, _) = absurd (nothing-Headed s h _ e hd)
  closed_at_end s u (failed x) fine e says = absurd (fine x says)
  closed_at_end s u out_of_fuel fine e says = absurd says

  -- What a session that was sent `frames` reports.
  abbrev pub Delivered : Receiver → List (FrameHeader × List ℕ) → Verdict × Receiver → Type 0
  Delivered r sent (v, r') = (v ≡ over true) × (r'.frames ≡ r.frames ++ sent)

  wants_more-unlimited : (r : Receiver) → o.max_frames ≡ 0 → wants_more o r ≡ true
  wants_more-unlimited r e = ground arith

  deliver_end :
      (r : Receiver) (result : FrameResult) (continue : Receiver → Verdict × Receiver)
      → result ≡ closed
      → Delivered r [] (go_on_with (settle o result r) continue)
  unfolding settle go_on_with
  deliver_end r result continue e = rw e (refl, sym (append-nil r.frames))

  deliver_on :
      (r : Receiver) (x : FrameHeader × List ℕ) (sent : List (FrameHeader × List ℕ))
      (vr : Verdict × Receiver) (continue : Receiver → Verdict × Receiver)
      → vr.0 ≡ go_on
      → vr.1.frames ≡ r.frames ++ (x ∷ [])
      → ((r' : Receiver) → Delivered r' sent (continue r'))
      → Delivered r (x ∷ sent) (go_on_with vr continue)
  unfolding go_on_with
  deliver_on r x sent (go_on, r') continue e same ih =
      let (v, frames) = ih r' in
      (v, frames ∙ ap (λ l. l ++ sent) same ∙ append_assoc r.frames (x ∷ []) sent)
  deliver_on r x sent (over ok, r') continue e same ih = cc
  deliver_on r x sent (thrown, r') continue e same ih = cc
  deliver_on r x sent (stuck, r') continue e same ih = cc

  deliver_frame :
      (r : Receiver) (h : FrameHeader) (p : List ℕ) (sent : List (FrameHeader × List ℕ))
      (result : FrameResult) (continue : Receiver → Verdict × Receiver)
      → ((n : ℕ) → o.save_works n ≡ true)
      → result ≡ frame h p
      → ((r' : Receiver) → Delivered r' sent (continue r'))
      → Delivered r ((h, p) ∷ sent) (go_on_with (settle o result r) continue)
  deliver_frame r h p sent result continue works e ih = rw e (
      deliver_on r (h, p) sent _ continue (settle-frame-kept o h p r works) (settle-frame o h p r)
        ih)

  pub session_loop-delivers :
      (rounds reads : ℕ) (s : Socket) (r : Receiver) (sent : List (FrameHeader × List ℕ))
      → o.max_frames ≡ 0
      → ((n : ℕ) → o.save_works n ≡ true)
      → ((e : Errno) → ¬ may_fail e)
      → length sent < rounds
      → wire_header_size + o.max_payload_bytes + patience s ≤ reads
      → All (λ (x : FrameHeader × List ℕ). Fits x.0 × Sound o.max_payload_bytes x) sent
      → left s ≡ encode sent
      → let (v, r') = session_loop sockets rounds reads o s r in
        (v ≡ over true) × (r'.frames ≡ r.frames ++ sent)
  unfolding session_loop encode
  session_loop-delivers zero reads s r sent unlimited works fine n f all e = absurd (omega arith)
  session_loop-delivers (suc rounds) reads s r [] unlimited works fine n f all e =
      rw (wants_more-unlimited r unlimited) (
        deliver_end r _ _ (
          closed_at_end s _ _ fine e
            (receive_frame-Says sockets streams o.max_payload_bytes reads s f)))
  session_loop-delivers (suc rounds) reads s r ((h, p) ∷ sent) unlimited works fine n f
        ((fits, (v, len, crc)), all) e =
      let (got, rest, calmer) =
        receive_frame-sent sockets streams o.max_payload_bytes reads s h p (encode sent) f fine fits
          v len crc e in
      rw (wants_more-unlimited r unlimited) (
        deliver_frame r h p sent _ _ works got (λ r'.
          session_loop-delivers rounds reads _ r' sent unlimited works fine (omega arith)
            (omega arith) all rest))
