-- ===== src/Server/Accounts.antt =====
-- The statistics of the receiver over any connections, and the exit code of its `main`.
use v4l2_capture.Prelude.{ℕ, zero, suc, ◌+◌, ◌-◌, ◌≤◌, ◌<◌, ◌≡◌, ◌↔◌, refl, ◌∙◌, Bool, true, false}
use v4l2_capture.Prelude.{
  if◌then◌else◌, ◌&&◌, ltb, Bool-cases, if-cases, inl, inr, List, [], ◌∷◌, ◌++◌, length,
  length-append, arith,
}
use v4l2_capture.Server.{count, sample, save_frame}
use v4l2_capture.Protocol.{FrameHeader}
use v4l2_capture.Receiver.{Sockets, FrameResult, undecodable}
use v4l2_capture.Receiver.{frame, receive_frame}
use v4l2_capture.Server.{Receiver, Options, Verdict, go_on, over, thrown, stuck, settle, wants_more}
use v4l2_capture.Server.{Accepted, client, interrupted, accept_failed, go_on_with, ServerEnd}
use v4l2_capture.Server.{finished, exception, waiting, no_fuel}
use v4l2_capture.Prelude.{◌⊎◌, some, none}
use v4l2_capture.Server.{after_session, session_loop, serve, exit_code, fresh}

pub payload_bytes : List (FrameHeader × List ℕ) → ℕ
payload_bytes [] = 0
payload_bytes ((_, payload) ∷ rest) = length payload + payload_bytes rest

payload_bytes-append :
    (xs : List (FrameHeader × List ℕ)) (h : FrameHeader) (payload : List ℕ)
    → payload_bytes (xs ++ ((h, payload) ∷ [])) ≡ payload_bytes xs + length payload
unfolding payload_bytes
payload_bytes-append [] h payload = omega arith
payload_bytes-append ((_, p) ∷ xs) h payload = omega (arith, payload_bytes-append xs h payload)

-- The counters agree with the frames reported, the samples, the files and each other; one rejected
-- frame ends the service, and `live` sessions are open.
pub record IsBalanced (o : Options) (live : ℕ) (r : Receiver) : Type 0 where
  pub received : r.received_frames ≡ length r.frames
  pub bytes : r.received_bytes ≡ payload_bytes r.frames
  pub timed : length r.latencies + r.latency_clock_errors ≡ r.received_frames
  pub files : r.saved_files ≡ length r.saved
  pub filed : r.saved_files ≤ (if o.save_payloads then r.received_frames else 0)
  pub rejected : r.rejected_frames ≡ r.crc_errors + r.header_errors
  pub stopped : r.rejected_frames ≡ (if r.fatal_protocol_error then 1 else 0)
  pub sessions : r.completed_sessions + live ≤ r.accepted_sessions

save_frame-IsBalanced :
    (o : Options) (live : ℕ) (h : FrameHeader) (payload : List ℕ) (r : Receiver)
    → r.saved_files < r.received_frames
    → IsBalanced o live r
    → let (_, r') = save_frame o h payload r in IsBalanced o live r'
unfolding save_frame
save_frame-IsBalanced o live h payload r lt b =
    ground (arith, length-append r.saved ((r.received_frames, h, payload) ∷ []))

counted-IsBalanced :
    (o : Options) (live : ℕ) (h : FrameHeader) (payload : List ℕ) (r : Receiver)
    → IsBalanced o live r
    → let r' = count h payload (sample o h r) in
      (r'.saved_files < r'.received_frames) × IsBalanced o live r'
unfolding count sample
counted-IsBalanced o live h payload r b = ground (
  arith,
  payload_bytes-append r.frames h payload,
  length-append r.frames ((h, payload) ∷ []),
  length-append r.latencies ((o.clock r.received_frames - h.capture_timestamp_ns) ∷ []),
)

settle-IsBalanced :
    (o : Options) (live : ℕ) (result : FrameResult) (r : Receiver)
    → r.fatal_protocol_error ≡ false
    → IsBalanced o live r
    → let (_, r') = settle o result r in IsBalanced o live r'
unfolding settle
settle-IsBalanced o live (frame h payload) r e b =
    let (fewer, balanced) = counted-IsBalanced o live h payload r b in
    save_frame-IsBalanced o live h payload _ fewer balanced
settle-IsBalanced o live (undecodable x) r e b = ground arith
settle-IsBalanced o live _ r e b = ground arith

-- After each verdict but `over`, a session that goes on has met no protocol error.
settle-fatal :
    (o : Options) (result : FrameResult) (r : Receiver)
    → r.fatal_protocol_error ≡ false
    → let (v, r') = settle o result r in v ≡ go_on → r'.fatal_protocol_error ≡ false
unfolding settle count sample save_frame
settle-fatal o result r e v = ground arith

-- What a session leaves: balanced statistics, and no open error if it is to go on.
go_on_with-IsBalanced :
    (o : Options) (live : ℕ) (v : Verdict) (r : Receiver) (continue : Receiver → Verdict × Receiver)
    → (v ≡ go_on → r.fatal_protocol_error ≡ false)
    → IsBalanced o live r
    → ((r' : Receiver)
        → r'.fatal_protocol_error ≡ false
        → IsBalanced o live r'
        → IsBalanced o live (continue r').1)
    → IsBalanced o live (go_on_with (v, r) continue).1
unfolding go_on_with
go_on_with-IsBalanced o live go_on r continue e b ih = ih r (e refl) b
go_on_with-IsBalanced o live (over ok) r continue e b ih = b
go_on_with-IsBalanced o live thrown r continue e b ih = b
go_on_with-IsBalanced o live stuck r continue e b ih = b

fresh-IsBalanced : (o : Options) → IsBalanced o 0 fresh
unfolding payload_bytes
fresh-IsBalanced o = ground arith

-- What each code of `main` says of the end of the loop and of the statistics.
pub record Codes (written : Bool) (end : ServerEnd) (r : Receiver) : Type 0 where
  pub threw :
      (exit_code written end r ≡ some 1)
      ↔ ((end ≡ exception) ⊎ ((end ≡ finished) × (written ≡ false)))
  pub clean :
      (exit_code written end r ≡ some 0)
      ↔ ((end ≡ finished) × (written ≡ true) × (r.rejected_frames ≡ 0))
  pub bad_header :
      (exit_code written end r ≡ some 3)
      ↔ ((end ≡ finished) × (written ≡ true) × (r.rejected_frames ≡ 1) × (r.header_errors ≡ 1))
  pub bad_crc :
      (exit_code written end r ≡ some 2)
      ↔ ((end ≡ finished) × (written ≡ true) × (r.rejected_frames ≡ 1) × (r.crc_errors ≡ 1))
  pub running : (exit_code written end r ≡ none) ↔ ((end ≡ waiting) ⊎ (end ≡ no_fuel))

exit_code_lem :
    (o : Options) (live : ℕ) (written : Bool) (end : ServerEnd) (r : Receiver)
    → IsBalanced o live r
    → Codes written end r
unfolding exit_code
exit_code_lem o live written finished r b = ground arith
exit_code_lem o live written exception r b = ground arith
exit_code_lem o live written waiting r b = ground arith
exit_code_lem o live written no_fuel r b = ground arith

module _ (sockets : Sockets) where
  open sockets use {Socket}

  -- A session keeps the statistics balanced.
  pub session_loop-IsBalanced :
      (rounds reads : ℕ) (o : Options) (live : ℕ) (s : Socket) (r : Receiver)
      → r.fatal_protocol_error ≡ false
      → IsBalanced o live r
      → IsBalanced o live (session_loop sockets rounds reads o s r).1
  unfolding session_loop
  session_loop-IsBalanced zero reads o live s r e b = elim (Bool-cases (wants_more o r)) [
    | inl w ↦ rw w b
    | inr w ↦ rw w b
  ]
  session_loop-IsBalanced (suc rounds) reads o live s r e b =
      let (result, s') = receive_frame sockets reads s o.max_payload_bytes in
      elim (Bool-cases (wants_more o r)) [
        | inl w ↦ rw w (
            go_on_with-IsBalanced o live _ _ _ (settle-fatal o result r e)
              (settle-IsBalanced o live result r e b)
              (λ r' e' b'. session_loop-IsBalanced rounds reads o live s' r' e' b'))
        | inr w ↦ rw w b
      ]

  -- `completed_sessions` goes up for a session that ended well.
  closed_session :
      (o : Options) (ok : Bool) (r : Receiver)
      → IsBalanced o 1 r
      → IsBalanced o 0
          (if ok then record r { completed_sessions = r.completed_sessions + 1 } else r)
  closed_session o true r b = ground arith
  closed_session o false r b = ground arith

  closed_fatal :
      (ok : Bool) (r : Receiver)
      → (if ok
          then record r { completed_sessions = r.completed_sessions + 1 }
          else r).fatal_protocol_error
        ≡ r.fatal_protocol_error
  closed_fatal true r = refl
  closed_fatal false r = refl

  accepted-IsBalanced :
      (o : Options) (r : Receiver)
      → IsBalanced o 0 r
      → IsBalanced o 1 (record r { accepted_sessions = r.accepted_sessions + 1 })
  accepted-IsBalanced o r b = ground arith

  after_session-IsBalanced :
      (o : Options) (v : Verdict) (r : Receiver) (continue : Receiver → ServerEnd × Receiver)
      → IsBalanced o 1 r
      → ((r' : Receiver)
          → r'.fatal_protocol_error ≡ false
          → IsBalanced o 0 r'
          → IsBalanced o 0 (continue r').1)
      → IsBalanced o 0 (after_session (v, r) continue).1
  unfolding after_session
  after_session-IsBalanced o (over ok) r continue b ih =
      if-cases (λ (x : ServerEnd × Receiver). IsBalanced o 0 x.1) r.fatal_protocol_error _ _
        (λ _. closed_session o ok r b) (λ e. ih _ (closed_fatal ok r ∙ e) (closed_session o ok r b))
  after_session-IsBalanced o _ r continue b ih = ground arith

  pub serve-IsBalanced :
      (fuel : ℕ) (o : Options) (connections : List (Accepted Socket)) (r : Receiver)
      → r.fatal_protocol_error ≡ false
      → IsBalanced o 0 r
      → IsBalanced o 0 (serve sockets fuel o connections r).1
  unfolding serve
  serve-IsBalanced fuel o [] r e b = ground arith
  serve-IsBalanced fuel o (interrupted ∷ rest) r e b =
      let h = serve-IsBalanced fuel o rest r e b in ground arith
  serve-IsBalanced fuel o (accept_failed ∷ rest) r e b = ground arith
  serve-IsBalanced fuel o (client s ∷ rest) r e b =
      elim (Bool-cases (ltb r.accepted_sessions o.max_sessions && wants_more o r)) [
        | inl w ↦ rw w (
            after_session-IsBalanced o _ _ _
              (session_loop-IsBalanced fuel fuel o 1 s _ e (accepted-IsBalanced o r b))
              (λ r' e' b'. serve-IsBalanced fuel o rest r' e' b'))
        | inr w ↦ rw w b
      ]

  -- Whatever the connections bring, and however the accept loop ends, the statistics of a receiver
  -- that starts afresh balance.
  pub serve_balances :
      (fuel : ℕ) (o : Options) (connections : List (Accepted Socket))
      → IsBalanced o 0 (serve sockets fuel o connections fresh).1
  serve_balances fuel o connections =
      serve-IsBalanced fuel o connections fresh refl (fresh-IsBalanced o)

  -- The exit code of a receiver that starts afresh: it is 1 exactly when the loops ended in an
  -- exception, or the statistics could not be written after them; when the loops finished and the
  -- statistics were written, it is 0 exactly when no frame was rejected, 3 when the rejected frame had a
  -- bad header, and 2 when it had a bad checksum. There is none exactly while the receiver waits for a
  -- connection or the fuel of the model is out.
  pub exit_code-serve :
      (fuel : ℕ) (o : Options) (connections : List (Accepted Socket)) (written : Bool)
      → let (end, r) = serve sockets fuel o connections fresh in Codes written end r
  exit_code-serve fuel o connections written =
      exit_code_lem o 0 written (serve sockets fuel o connections fresh).0
        (serve sockets fuel o connections fresh).1 (serve_balances fuel o connections)
