-- ===== src/Node/Reading.antt =====
-- `read_exact_interruptible` over a stream socket, with a stop flag that another thread may set.
use native.Mathlib.Nat.{le_refl}
use v4l2_capture.Prelude.{
  ℕ, zero, suc, ◌+◌, ◌-◌, ◌≤◌, ◌<◌, ◌≡◌, refl, sym, ap, ◌∙◌, inl, inr, Bool, true, false,
}
use v4l2_capture.Prelude.{
  List, [], ◌∷◌, ◌++◌, append_assoc, Bool-cases, ltb, ltb→lt, ◌==◌, arith, length, length-append,
}
use v4l2_capture.Send.{eintr, eagain, ewouldblock, other}
use v4l2_capture.Receiver.{Answer, received, recv_error}
use v4l2_capture.Receiver.Reading.{Answers}
use v4l2_capture.Node.{
  Link, Readiness, poll_expired, poll_failed, revents, ReadError, client_poll_failed,
  socket_invalid, socket_error,
}
use v4l2_capture.Node.{
  closed_after, recv_failed, ReadResult, read_ok, peer_closed, stopped, read_error, unfinished,
}
use v4l2_capture.Node.{after_recv, after_poll, unless_stopped, read_loop, read_exact_interruptible}

-- What `poll` may answer: it reports an error of the connection, or the socket is not ready yet and
-- that does not go on for ever, or it is ready.
abbrev pub Polls : (ReadError → Type 0) → ℕ → Readiness → ℕ → Type 0
Polls may_fail patience poll_expired patience' = patience' < patience
Polls may_fail patience (poll_failed eintr) patience' = patience' < patience
Polls may_fail patience (poll_failed e) patience' = may_fail (client_poll_failed e)
Polls may_fail patience (revents true broken readable) patience' = may_fail socket_invalid
Polls may_fail patience (revents false true readable) patience' = may_fail socket_error
Polls may_fail patience (revents false false false) patience' = patience' < patience
Polls may_fail patience (revents false false true) patience' = patience' ≤ patience

-- The documented behaviour of the calls on a connected stream socket. The stop flag can be set if
-- `may_stop` holds, and reading it and polling take no bytes.
pub record Behaves (link : Link) : Type 1 where
  pub may_stop : Type 0
  pub may_fail : ReadError → Type 0
  pub left : Link.World link → List ℕ
  pub patience : Link.World link → ℕ
  pub stop_reads :
      (w : Link.World link)
      → let (stop, w') = Link.stop_requested link w in
        (left w' ≡ left w) × (patience w' ≤ patience w) × (stop ≡ true → may_stop)
  pub poll_answers :
      (w : Link.World link)
      → let (ready, w') = Link.poll link w in
        (left w' ≡ left w) × Polls may_fail (patience w) ready (patience w')
  pub recv_answers :
      (w : Link.World link) (k : ℕ)
      → 0 < k
      → let (answer, w') = Link.recv link w k in
        Answers
          (λ e. may_fail (recv_failed e))
          k
          (left w)
          (patience w)
          answer
          (left w')
          (patience w')

module _ (link : Link) (behaves : Behaves link) where
  open link use {World, stop_requested, poll, recv}
  open behaves use {may_stop, may_fail, left, patience, stop_reads, poll_answers, recv_answers}

  -- How a read of `size` bytes that has `out` already may end.
  abbrev pub Reads : World → ℕ → List ℕ → ReadResult → World → Type 0
  Reads w size out (read_ok bytes) w' =
      (length bytes ≡ size) × (out ++ left w ≡ bytes ++ left w') × (patience w' ≤ patience w)
  Reads w size out peer_closed w' = (out ++ left w ≡ []) × (0 < size) × (left w' ≡ [])
  Reads w size out stopped w' = may_stop
  Reads w size out (read_error (closed_after n)) w' =
      (n ≡ length (out ++ left w)) × (0 < n) × (n < size) × (left w' ≡ [])
  Reads w size out (read_error e) w' = may_fail e
  Reads w size out unfinished w' = ⊥

  -- A read that goes on from `v`, where the bytes of `w` are had or still to come.
  Reads-from :
      (w v u : World) (size : ℕ) (out more : List ℕ) (r : ReadResult)
      → out ++ left w ≡ more ++ left v
      → patience v ≤ patience w
      → Reads v size more r u
      → Reads w size out r u
  Reads-from w v u size out more (read_ok xs) e p (len, split, q) = (len, e ∙ split, omega arith)
  Reads-from w v u size out more peer_closed e p (none_left, pos, over) = (e ∙ none_left, pos, over)
  Reads-from w v u size out more stopped e p h = h
  Reads-from w v u size out more (read_error (closed_after n)) e p (len, pos, short, over) =
      (len ∙ ap length (sym e), pos, short, over)
  Reads-from w v u size out more (read_error (client_poll_failed x)) e p h = h
  Reads-from w v u size out more (read_error socket_invalid) e p h = h
  Reads-from w v u size out more (read_error socket_error) e p h = h
  Reads-from w v u size out more (read_error (recv_failed x)) e p h = h
  Reads-from w v u size out more unfinished e p h = h

  Continues : ℕ → ℕ → (World → List ℕ → ReadResult × World) → Type 0
  Continues size fuel continue =
      (v : World) (more : List ℕ)
      → length more ≤ size
      → size + patience v ≤ fuel + length more
      → let (r, u) = continue v more in Reads v size more r u

  after_recv-Reads :
      (w w' : World) (size fuel : ℕ) (out : List ℕ) (answer : Answer)
      (continue : World → List ℕ → ReadResult × World)
      → length out < size
      → size + patience w ≤ suc fuel + length out
      → Answers
          (λ e. may_fail (recv_failed e))
          (size - length out)
          (left w)
          (patience w)
          answer
          (left w')
          (patience w')
      → Continues size fuel continue
      → let (r, u) = after_recv answer w' out continue in Reads w size out r u
  unfolding after_recv Continues
  after_recv-Reads w w' size fuel [] (received []) continue h f (a, b, c, d) ih =
      (d refl, h, sym b ∙ d refl)
  after_recv-Reads w w' size fuel (o ∷ out) (received []) continue h f (a, b, c, d) ih =
      let none_left : left w ≡ [] = d refl in
      let some_read : (length (o ∷ out) == 0) ≡ false = ground arith in
      rw some_read (
        omega (arith, ap length none_left, length-append (o ∷ out) (left w)),
        omega arith,
        h,
        sym b ∙ none_left,
      )
  after_recv-Reads w w' size fuel out (received (x ∷ xs)) continue h f (a, b, c, d) ih =
      Reads-from w w' _ size out (out ++ (x ∷ xs)) _
        (ap (λ l. out ++ l) b ∙ sym (append_assoc out (x ∷ xs) (left w'))) c
        (ih w' (out ++ (x ∷ xs)) (omega (arith, length-append out (x ∷ xs)))
          (omega (arith, length-append out (x ∷ xs))))
  after_recv-Reads w w' size fuel out (recv_error eintr) continue h f (a, b) ih =
      Reads-from w w' _ size out out _ (ap (λ l. out ++ l) a) (omega arith)
        (ih w' out (omega arith) (omega arith))
  after_recv-Reads w w' size fuel out (recv_error eagain) continue h f a ih = a
  after_recv-Reads w w' size fuel out (recv_error ewouldblock) continue h f a ih = a
  after_recv-Reads w w' size fuel out (recv_error (other n)) continue h f a ih = a

  after_poll-Reads :
      (w w' : World) (size : ℕ) (out : List ℕ) (ready : Readiness)
      (retry take : World → ReadResult × World)
      → left w' ≡ left w
      → Polls may_fail (patience w) ready (patience w')
      → (patience w' < patience w → let (r, u) = retry w' in Reads w size out r u)
      → (patience w' ≤ patience w → let (r, u) = take w' in Reads w size out r u)
      → let (r, u) = after_poll ready w' retry take in Reads w size out r u
  unfolding after_poll
  after_poll-Reads w w' size out poll_expired retry take e p again now = again p
  after_poll-Reads w w' size out (poll_failed eintr) retry take e p again now = again p
  after_poll-Reads w w' size out (poll_failed eagain) retry take e p again now = p
  after_poll-Reads w w' size out (poll_failed ewouldblock) retry take e p again now = p
  after_poll-Reads w w' size out (poll_failed (other n)) retry take e p again now = p
  after_poll-Reads w w' size out (revents true b r) retry take e p again now = p
  after_poll-Reads w w' size out (revents false true r) retry take e p again now = p
  after_poll-Reads w w' size out (revents false false false) retry take e p again now = again p
  after_poll-Reads w w' size out (revents false false true) retry take e p again now = now p

  unless_stopped-Reads :
      (w : World) (size : ℕ) (out : List ℕ) (stop : Bool) (w' : World)
      (go : World → ReadResult × World)
      → (stop ≡ true → may_stop)
      → (let (r, u) = go w' in Reads w size out r u)
      → let (r, u) = unless_stopped (stop, w') go in Reads w size out r u
  unless_stopped-Reads w size out true w' go s h = s refl
  unless_stopped-Reads w size out false w' go s h = h

  read_loop-Reads :
      (fuel : ℕ) (w : World) (size : ℕ) (out : List ℕ)
      → length out ≤ size
      → size + patience w ≤ fuel + length out
      → let (r, u) = read_loop link fuel w size out in Reads w size out r u
  unfolding read_loop Continues
  read_loop-Reads zero w size out h f = elim (Bool-cases (ltb (length out) size)) [
    | inl e ↦ absurd (omega (arith, ltb→lt (length out) size e))
    | inr e ↦ rw e (ground arith, refl, le_refl _)
  ]
  read_loop-Reads (suc fuel) w size out h f = elim (Bool-cases (ltb (length out) size)) [
    | inr e ↦ rw e (ground arith, refl, le_refl _)
    | inl e ↦
        let (same, calm, asked) = stop_reads w in
        let w1 = (stop_requested w).1 in
        let (same', polled) = poll_answers w1 in
        let w2 = (poll w1).1 in
        let here = same' ∙ same in
        let less = ltb→lt (length out) size e in
        rw e (
          unless_stopped-Reads w size out _ w1 _ asked (
            Reads-from w w1 _ size out out _ (ap (λ l. out ++ l) (sym same)) calm (
              after_poll-Reads w1 w2 size out _ _ _ same' polled
                (λ p.
                  Reads-from w1 w2 _ size out out _ (ap (λ l. out ++ l) (sym same')) (omega arith)
                    (read_loop-Reads fuel w2 size out h (omega arith)))
                (λ p. Reads-from w1 w2 _ size out out _ (ap (λ l. out ++ l) (sym same')) p (
                  after_recv-Reads w2 _ size fuel out _ _ less (omega arith)
                    (recv_answers w2 (size - length out) (omega arith))
                    (λ v more q r. read_loop-Reads fuel v size more q r))))))
  ]

  -- With fuel for its bytes and for the times that the socket is not ready, a read ends: it takes
  -- exactly the next bytes of the stream, or it says that the peer had closed before the first of
  -- them, or after how many, or it was stopped, or it reports an error of the connection.
  pub read_exact_interruptible-Reads :
      (fuel : ℕ) (w : World) (size : ℕ)
      → size + patience w ≤ fuel
      → let (r, u) = read_exact_interruptible link fuel w size in Reads w size [] r u
  unfolding read_exact_interruptible
  read_exact_interruptible-Reads fuel w size f =
      read_loop-Reads fuel w size [] (omega arith) (omega arith)
