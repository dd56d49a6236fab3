-- ===== src/Loopback/Wire.antt =====
-- What the test sender puts on the wire.
use v4l2_capture.Prelude.{sym, ℕ, zero, suc, ◌+◌, ◌*◌, ◌≡◌, refl, ap, ap₂, ◌∙◌, false, arith}
use v4l2_capture.Prelude.{List, [], ◌∷◌, ◌++◌, Option, none, some, length}
use v4l2_capture.Prelude.Int.{pos}
use v4l2_capture.Protocol.{FrameHeader, serialize_header}
use v4l2_capture.Send.{Round, Outcome, sent_all, send_all_until}
use v4l2_capture.Send.Delivery.{Obeys, send_all_until_delivers}
use v4l2_capture.Server.Sessions.{encode}
use v4l2_capture.Loopback.{
  Orders, Weather, test_header, LoopResult, done, after_header, damaged, make_test_yuyv_payload,
  send_frame, one_frame, send_frames,
}

-- The kernel takes no more than it is given.
abbrev pub Takes : Orders → Weather → List ℕ → List Round → Type 0
Takes o w bytes rounds =
    Obeys
      (record {
        bytes = bytes;
        deadline = w.now + o.send_timeout_ms * o.ticks_per_ms;
        stop_given = false;
        poll_slice = 50;
        ticks_per_ms = o.ticks_per_ms;
      })
      0 rounds

-- The frames that the sender is to send, where they can be made: their headers, with the checksums of
-- the payloads before the damage, and the payloads.
abbrev pub frame_with : FrameHeader → Option (List ℕ) → List (FrameHeader × List ℕ)
frame_with h none = []
frame_with h (some bytes) = (h, bytes) ∷ []

abbrev pub frame_or_none : Orders → ℕ → ℕ → Option (List ℕ) → List (FrameHeader × List ℕ)
frame_or_none o i now_ns none = []
frame_or_none o i now_ns (some payload) =
    frame_with (test_header o i now_ns payload) (damaged o.corrupt_frame_id i payload)

unfoldable pub test_frames : Orders → (ℕ → Weather) → ℕ → ℕ → List (FrameHeader × List ℕ)
test_frames o weather zero i = []
test_frames o weather (suc n) i =
    frame_or_none o i (weather i).now_ns (make_test_yuyv_payload o.width o.height i)
    ++ test_frames o weather n (i + 1)

-- The kernel does so in both sends of every frame.
abbrev pub Obedient : Orders → (ℕ → Weather) → Type 0
Obedient o weather =
    (i : ℕ) (payload bytes : List ℕ)
    → make_test_yuyv_payload o.width o.height i ≡ some payload
    → damaged o.corrupt_frame_id i payload ≡ some bytes
    → Takes o (weather i) (serialize_header (test_header o i (weather i).now_ns payload))
        (weather i).header_rounds
      × Takes o (weather i) bytes (weather i).payload_rounds

after_header-done :
    (front back : List ℕ) (first second : Outcome × List ℕ) (rest : LoopResult × List ℕ)
    → (first.0 ≡ sent_all → first.1 ≡ front)
    → (second.0 ≡ sent_all → second.1 ≡ back)
    → (after_header first second rest).0 ≡ done
    → (rest.0 ≡ done) × ((after_header first second rest).1 ≡ front ++ (back ++ rest.1))
unfolding after_header
after_header-done front back (sent_all, a) (sent_all, b) rest f g e =
    (e, ap₂ (λ x y. x ++ (y ++ rest.1)) (f refl) (g refl))
after_header-done front back (sent_all, a) (o, b) rest f g e = absurd (ground arith)
after_header-done front back (o, a) second rest f g e = absurd (ground arith)

no_payload :
    (o : Orders) (w : Weather) (h : FrameHeader) (rest : LoopResult × List ℕ)
    → ¬ ((send_frame o w h none rest).0 ≡ done)
unfolding send_frame
no_payload o w h rest e = ground arith

sent_whole :
    (o : Orders) (fd : ℕ) (w : Weather) (bytes : List ℕ) (rounds : List Round)
    → o.fd ≡ pos fd
    → Takes o w bytes rounds
    → let (result, wire) =
        send_all_until o.ticks_per_ms o.fd
          (some bytes)
          (length bytes)
          (w.now + o.send_timeout_ms * o.ticks_per_ms)
          false
          (pos 50)
          rounds in
      result ≡ sent_all → wire ≡ bytes
sent_whole o fd w bytes rounds e takes =
    rw e
      (send_all_until_delivers o.ticks_per_ms fd 49 bytes
        (w.now + o.send_timeout_ms * o.ticks_per_ms) false rounds takes).2.0

send_frame-done :
    (o : Orders) (fd : ℕ) (w : Weather) (h : FrameHeader) (bytes : List ℕ)
    (rest : LoopResult × List ℕ)
    → o.fd ≡ pos fd
    → Takes o w (serialize_header h) w.header_rounds
    → Takes o w bytes w.payload_rounds
    → (send_frame o w h (some bytes) rest).0 ≡ done
    → (rest.0 ≡ done)
      × ((send_frame o w h (some bytes) rest).1 ≡ serialize_header h ++ (bytes ++ rest.1))
unfolding send_frame
send_frame-done o fd w h bytes rest e first second d =
    after_header-done (serialize_header h) bytes _ _ rest
      (sent_whole o fd w (serialize_header h) w.header_rounds e first)
      (sent_whole o fd w bytes w.payload_rounds e second) d

-- A frame that was sent stands before what comes after it.
send_frame-encode :
    (o : Orders) (fd : ℕ) (w : Weather) (h : FrameHeader) (m : Option (List ℕ))
    (rest : LoopResult × List ℕ) (frames : List (FrameHeader × List ℕ))
    → o.fd ≡ pos fd
    → ((bytes : List ℕ)
        → m ≡ some bytes
        → Takes o w (serialize_header h) w.header_rounds × Takes o w bytes w.payload_rounds)
    → (rest.0 ≡ done → rest.1 ≡ encode frames)
    → (send_frame o w h m rest).0 ≡ done
    → (send_frame o w h m rest).1 ≡ encode (frame_with h m ++ frames)
unfolding encode
send_frame-encode o fd w h none rest frames e t later d = absurd (no_payload o w h rest d)
send_frame-encode o fd w h (some bytes) rest frames e t later d =
    let (takes, takes') = t bytes refl in
    let (fine, wire) = send_frame-done o fd w h bytes rest e takes takes' d in
    wire ∙ ap (λ l. serialize_header h ++ (bytes ++ l)) (later fine)

one_frame-encode :
    (o : Orders) (fd : ℕ) (w : Weather) (i : ℕ) (payload : Option (List ℕ))
    (rest : LoopResult × List ℕ) (frames : List (FrameHeader × List ℕ))
    → o.fd ≡ pos fd
    → ((p bytes : List ℕ)
        → payload ≡ some p
        → damaged o.corrupt_frame_id i p ≡ some bytes
        → Takes o w (serialize_header (test_header o i w.now_ns p)) w.header_rounds
          × Takes o w bytes w.payload_rounds)
    → (rest.0 ≡ done → rest.1 ≡ encode frames)
    → (one_frame o w i none payload rest).0 ≡ done
    → (one_frame o w i none payload rest).1 ≡ encode (frame_or_none o i w.now_ns payload ++ frames)
unfolding one_frame
one_frame-encode o fd w i none rest frames e t later d = absurd (ground arith)
one_frame-encode o fd w i (some p) rest frames e t later d =
    send_frame-encode o fd w (test_header o i w.now_ns p) (damaged o.corrupt_frame_id i p) rest
      frames e (λ bytes made. t p bytes refl made) later d

send_frames-encode_if :
    (o : Orders) (fd : ℕ) (weather : ℕ → Weather) (n i : ℕ)
    → o.fd ≡ pos fd
    → o.header_fault ≡ none
    → Obedient o weather
    → let (result, wire) = send_frames o weather n i in
      result ≡ done → wire ≡ encode (test_frames o weather n i)
unfolding send_frames test_frames encode test_header
send_frames-encode_if o fd weather zero i e no_fault ob = λ d. refl
send_frames-encode_if o fd weather (suc n) i e no_fault ob = rw no_fault (
    one_frame-encode o fd (weather i) i (make_test_yuyv_payload o.width o.height i)
      (send_frames o weather n (i + 1)) (test_frames o weather n (i + 1)) e (ob i)
      (send_frames-encode_if o fd weather n (i + 1) e no_fault ob))

-- A run of the test sender without a header fault that comes to its end has put exactly its frames on
-- the wire, one after the other: each header with the checksum of the payload as it was made, and the
-- payload, which is the damaged one where a frame was to be damaged.
pub send_frames-encode :
    (o : Orders) (fd : ℕ) (weather : ℕ → Weather) (n i : ℕ) (wire : List ℕ)
    → o.fd ≡ pos fd
    → o.header_fault ≡ none
    → Obedient o weather
    → send_frames o weather n i ≡ (done, wire)
    → wire ≡ encode (test_frames o weather n i)
send_frames-encode o fd weather n i wire e no_fault ob sent =
    sym (ap (λ x. x.1) sent)
    ∙ send_frames-encode_if o fd weather n i e no_fault ob (ap (λ x. x.0) sent)
