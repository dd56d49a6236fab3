-- ===== src/Node/Alignment.antt =====
-- A frame of the protocol at the node, which reads `sizeof(FrameHeader)` bytes for its header.
use v4l2_capture.Prelude.{
  ◌%◌, ◌^◌, ℕ, suc, ◌+◌, ◌-◌, ◌≤◌, ◌<◌, ◌≡◌, refl, sym, ap, ◌∙◌, false, Bool-cases, inl, inr,
}
use v4l2_capture.Prelude.{
  List, [], ◌++◌, take, drop, append_assoc, arith, length, length-append, length-take, length-drop,
  append-injective, take-append-drop,
}
use v4l2_capture.Protocol.{FrameHeader, Checked, accepted, serialize_header, validate_header}
use v4l2_capture.Protocol.RoundTrip.{Fits, length-serialize_header, decode-serialize_more}
use v4l2_capture.Node.{
  Link, ReadError, closed_after, ReadResult, read_ok, peer_closed, stopped, read_error, unfinished,
  sizeof_frame_header,
}
use v4l2_capture.Node.{
  client_poll_failed, socket_invalid, socket_error, recv_failed, read_exact_interruptible, Event,
  payload_failed, receive_one, after_header, read_payload, check_payload,
}
use v4l2_capture.Node.{
  Counters, Parameters, Flow, leave, settle, after_event, handle_client, frame_limit_reached,
}
use v4l2_capture.Node.Reading.{Behaves, Reads, read_exact_interruptible-Reads}

module _ (link : Link) (behaves : Behaves link) where
  open link use {World, stop_requested}
  open behaves use {may_stop, may_fail, left, patience, stop_reads}

  -- On an undisturbed connection a read takes bytes, or tells how many came before the end.
  abbrev pub Undisturbed : Type 0
  Undisturbed = (¬ may_stop) × ((e : ReadError) → ¬ may_fail e)

  taken :
      (w u : World) (size : ℕ) (front back : List ℕ) (r : ReadResult)
      → Undisturbed
      → 0 < length front
      → left w ≡ front ++ back
      → length front ≡ size
      → Reads link behaves w size [] r u
      → (r ≡ read_ok front) × (left u ≡ back) × (patience u ≤ patience w)
  taken w u size front back (read_ok bytes) (calm, fine) pos e len (n, split, p) =
      let (same, rest) = append-injective bytes front (left u) back (n ∙ sym len) (sym split ∙ e) in
      (ap read_ok same, rest, p)
  taken w u size front back peer_closed (calm, fine) pos e len (none_left, _, _) =
      absurd (omega (arith, ap length none_left, ap length e, length-append front back))
  taken w u size front back stopped (calm, fine) pos e len h = absurd (calm h)
  taken w u size front back (read_error (closed_after n)) (calm, fine) pos e len (m, _, short, _) =
      absurd (omega (arith, ap length e, length-append front back))
  taken w u size front back (read_error (client_poll_failed x)) (calm, fine) pos e len h =
      absurd (fine _ h)
  taken w u size front back (read_error socket_invalid) (calm, fine) pos e len h = absurd (fine _ h)
  taken w u size front back (read_error socket_error) (calm, fine) pos e len h = absurd (fine _ h)
  taken w u size front back (read_error (recv_failed x)) (calm, fine) pos e len h =
      absurd (fine _ h)
  taken w u size front back unfinished (calm, fine) pos e len h = absurd h

  ended :
      (w u : World) (size : ℕ) (r : ReadResult)
      → Undisturbed
      → 0 < length (left w)
      → length (left w) < size
      → Reads link behaves w size [] r u
      → r ≡ read_error (closed_after (length (left w)))
  ended w u size (read_ok bytes) (calm, fine) pos short (n, split, p) =
      absurd (omega (arith, ap length split, length-append bytes (left u)))
  ended w u size peer_closed (calm, fine) pos short (none_left, _, _) =
      absurd (omega (arith, ap length none_left))
  ended w u size stopped (calm, fine) pos short h = absurd (calm h)
  ended w u size (read_error (closed_after n)) (calm, fine) pos short (m, _, _, _) =
      ap (λ (k : ℕ). read_error (closed_after k)) m
  ended w u size (read_error (client_poll_failed x)) (calm, fine) pos short h = absurd (fine _ h)
  ended w u size (read_error socket_invalid) (calm, fine) pos short h = absurd (fine _ h)
  ended w u size (read_error socket_error) (calm, fine) pos short h = absurd (fine _ h)
  ended w u size (read_error (recv_failed x)) (calm, fine) pos short h = absurd (fine _ h)
  ended w u size unfinished (calm, fine) pos short h = absurd h

  -- The header that is read is the one sent, and the first four bytes of the payload are gone.
  header_read :
      (fuel : ℕ) (w : World) (h : FrameHeader) (payload : List ℕ)
      → Undisturbed
      → sizeof_frame_header + patience w ≤ fuel
      → 4 ≤ length payload
      → left w ≡ serialize_header h ++ payload
      → let (r, u) = read_exact_interruptible link fuel w sizeof_frame_header in
        (r ≡ read_ok (serialize_header h ++ take 4 payload))
        × (left u ≡ drop 4 payload)
        × (patience u ≤ patience w)
  header_read fuel w h payload calm f four e =
      taken w _ sizeof_frame_header (serialize_header h ++ take 4 payload) (drop 4 payload) _ calm
        (omega (arith, size)) split size
        (read_exact_interruptible-Reads link behaves fuel w sizeof_frame_header f)
    where
      size : length (serialize_header h ++ take 4 payload) ≡ sizeof_frame_header
      size = omega (
        arith,
        length-append (serialize_header h) (take 4 payload),
        length-serialize_header h,
        length-take 4 payload,
      )

      split : left w ≡ (serialize_header h ++ take 4 payload) ++ drop 4 payload
      split =
          e
          ∙ ap (λ l. serialize_header h ++ l) (sym (take-append-drop 4 payload))
          ∙ sym (append_assoc (serialize_header h) (take 4 payload) (drop 4 payload))

  check_payload-ended :
      (h : FrameHeader) (r : ReadResult) (n : ℕ)
      → r ≡ read_error (closed_after n)
      → check_payload link h r ≡ payload_failed h (closed_after n)
  unfolding check_payload
  check_payload-ended h r n e = rw e refl

  -- The rest of the payload is too short for the read that follows.
  read_payload-ended :
      (fuel : ℕ) (w : World) (h : FrameHeader) (c : Checked Unit) (n : ℕ)
      → Undisturbed
      → c ≡ accepted tt
      → length (left w) ≡ n
      → 0 < n
      → n < h.payload_size
      → h.payload_size + patience w ≤ fuel
      → let (e, u) = read_payload link fuel w h c in e ≡ payload_failed h (closed_after n)
  unfolding read_payload
  read_payload-ended fuel w h c n calm e len pos short f = rw e (
      check_payload-ended h _ n (
        ended w _ h.payload_size _ calm (omega (arith, len)) (omega (arith, len))
          (read_exact_interruptible-Reads link behaves fuel w h.payload_size f)
        ∙ ap (λ (k : ℕ). read_error (closed_after k)) len))

  after_header-ended :
      (fuel limit : ℕ) (w : World) (h : FrameHeader) (more : List ℕ) (r : ReadResult) (n : ℕ)
      → Undisturbed
      → Fits h
      → validate_header h (limit % 2 ^ 32) ≡ accepted tt
      → r ≡ read_ok (serialize_header h ++ more)
      → length (left w) ≡ n
      → 0 < n
      → n < h.payload_size
      → h.payload_size + patience w ≤ fuel
      → let (e, u) = after_header link fuel limit r w in e ≡ payload_failed h (closed_after n)
  unfolding after_header
  after_header-ended fuel limit w h more r n calm fits ok e len pos short f =
      rw (e, decode-serialize_more h more fits)
        (read_payload-ended fuel w h _ n calm ok len pos short f)

  -- An acceptable header and its payload of more than four bytes, with nothing behind them: the frame
  -- is sent whole, and the node reports that the peer closed four bytes before its end.
  pub receive_one-short :
      (fuel limit : ℕ) (w : World) (h : FrameHeader) (payload : List ℕ)
      → Undisturbed
      → Fits h
      → validate_header h (limit % 2 ^ 32) ≡ accepted tt
      → length payload ≡ h.payload_size
      → 4 < h.payload_size
      → left w ≡ serialize_header h ++ payload
      → sizeof_frame_header + h.payload_size + patience w ≤ fuel
      → let (event, u) = receive_one link fuel w limit in
        event ≡ payload_failed h (closed_after (h.payload_size - 4))
  unfolding receive_one
  receive_one-short fuel limit w h payload calm fits ok size four e f =
      let (r, rest, p) = header_read fuel w h payload calm (omega arith) (omega (arith, size)) e in
      after_header-ended fuel limit _ h (take 4 payload) _ (h.payload_size - 4) calm fits ok r
        (omega (arith, ap length rest, length-drop 4 payload, size)) (omega arith) (omega arith)
        (omega arith)

  after_event-failed :
      (p : Parameters) (event : Event) (h : FrameHeader) (x : ReadError) (n : Counters)
      (continue : Counters → Flow × Counters)
      → event ≡ payload_failed h x
      → after_event (settle p event n) continue
        ≡ (leave, record n { peer_disconnects = n.peer_disconnects + 1 })
  unfolding after_event settle
  after_event-failed p event h x n continue e = rw e refl

  -- A frame that is acceptable to `validate_header`, with more than four bytes of payload, sent whole by a
  -- peer that closes after it, is lost, where the connection does not fail, the node is not stopped, its
  -- frame limit is not reached, and the fuel is enough for the reads: `handle_client` counts neither a
  -- frame nor a rejected one, but a disconnect only, and the session is over.
  pub handle_client-loses_frame :
      (rounds reads : ℕ) (p : Parameters) (w : World) (n : Counters) (h : FrameHeader)
      (payload : List ℕ)
      → Undisturbed
      → Fits h
      → validate_header h (p.max_payload_bytes % 2 ^ 32) ≡ accepted tt
      → length payload ≡ h.payload_size
      → 4 < h.payload_size
      → left w ≡ serialize_header h ++ payload
      → frame_limit_reached p n ≡ false
      → sizeof_frame_header + h.payload_size + patience w ≤ reads
      → handle_client link (suc rounds) reads p w n
        ≡ (leave, record n { peer_disconnects = n.peer_disconnects + 1 })
  unfolding handle_client
  handle_client-loses_frame rounds reads p w n h payload calm fits ok size four e more f =
      let (same, less, asked) = stop_reads w in
      elim (Bool-cases (stop_requested w).0) [
        | inl set ↦ absurd (calm.0 (asked set))
        | inr unset ↦
            rw (unset, more)
              (after_event-failed p _ h _ n _ (
                receive_one-short reads p.max_payload_bytes _ h payload calm fits ok size four
                  (same ∙ e) (omega arith)))
      ]
