-- ===== src/Receiver/Reading.antt =====
-- `read_exact` over a stream socket, however `recv` cuts the stream into pieces.
use native.Mathlib.Nat.{le_refl}
use v4l2_capture.Prelude.{ℕ, zero, suc, ◌+◌, ◌-◌, ◌≤◌, ◌<◌, ◌≡◌, ◌≢◌, refl, sym, ap, ◌∙◌, inl, inr}
use v4l2_capture.Prelude.{
  List, [], ◌∷◌, ◌++◌, append-nil, append_assoc, Bool-cases, ltb, ltb→lt, arith, length,
  length-append,
}
use v4l2_capture.Send.{Errno, eintr, eagain, ewouldblock, other}
use v4l2_capture.Receiver.{Answer, received, recv_error, Sockets, ReadResult, filled, end_of_stream}
use v4l2_capture.Receiver.{recv_failed, unfinished, after_recv, read_loop, read_exact}

-- What `recv` with room for `k` bytes may answer on a stream that has the bytes `before` to come,
-- and `after` from then on; `may_fail` has the errors that the connection can report, and `patience` bounds how often it is still interrupted.
abbrev pub Answers : (Errno → Type 0) → ℕ → List ℕ → ℕ → Answer → List ℕ → ℕ → Type 0
Answers may_fail k before patience (received bytes) after patience' =
    (length bytes ≤ k)
    × (before ≡ bytes ++ after)
    × (patience' ≤ patience)
    × (bytes ≡ [] → before ≡ [])
Answers may_fail k before patience (recv_error eintr) after patience' =
    (before ≡ after) × (patience' < patience)
Answers may_fail k before patience (recv_error e) after patience' = may_fail e

-- The documented behaviour of `recv` on a connected stream socket: it gives at least one and at most
-- as many bytes as there is room for, in the order of the stream; none means that the peer has
-- closed the connection and all was received; and it is not interrupted for ever.
pub record Streams (sockets : Sockets) : Type 1 where
  pub may_fail : Errno → Type 0
  pub left : Sockets.Socket sockets → List ℕ
  pub patience : Sockets.Socket sockets → ℕ
  pub recv_answers :
      (s : Sockets.Socket sockets) (k : ℕ)
      → 0 < k
      → let (answer, s') = Sockets.recv sockets s k in
        Answers may_fail k (left s) (patience s) answer (left s') (patience s')

module _ (sockets : Sockets) (streams : Streams sockets) where
  open sockets use {Socket, recv}
  open streams use {may_fail, left, patience, recv_answers}

  -- How a read of `size` bytes that has `out` already may end.
  abbrev pub Reads : Socket → ℕ → List ℕ → ReadResult → Socket → Type 0
  Reads s size out (filled bytes) s' =
      (length bytes ≡ size) × (out ++ left s ≡ bytes ++ left s') × (patience s' ≤ patience s)
  Reads s size out end_of_stream s' = (length out + length (left s) < size) × (left s' ≡ [])
  Reads s size out (recv_failed e) s' = (e ≢ eintr) × may_fail e
  Reads s size out unfinished s' = ⊥

  Reads-received :
      (s t u : Socket) (size : ℕ) (out bytes : List ℕ) (r : ReadResult)
      → left s ≡ bytes ++ left t
      → patience t ≤ patience s
      → Reads t size (out ++ bytes) r u
      → Reads s size out r u
  Reads-received s t u size out bytes (filled xs) e p (len, split, q) =
      (len, ap (λ l. out ++ l) e ∙ sym (append_assoc out bytes (left t)) ∙ split, omega arith)
  Reads-received s t u size out bytes end_of_stream e p (short, over) =
      (omega (arith, ap length e, length-append out bytes, length-append bytes (left t)), over)
  Reads-received s t u size out bytes (recv_failed x) e p h = h
  Reads-received s t u size out bytes unfinished e p h = h

  after_recv-Reads :
      (s s' : Socket) (size fuel : ℕ) (out : List ℕ) (answer : Answer)
      (continue : Socket → List ℕ → ReadResult × Socket)
      → length out < size
      → size + patience s ≤ suc fuel + length out
      → Answers may_fail (size - length out) (left s) (patience s) answer (left s') (patience s')
      → ((t : Socket) (more : List ℕ)
          → length more ≤ size
          → size + patience t ≤ fuel + length more
          → let (r, u) = continue t more in Reads t size more r u)
      → let (r, u) = after_recv sockets answer s' out continue in Reads s size out r u
  unfolding after_recv
  after_recv-Reads s s' size fuel out (received []) continue h f (a, b, c, d) ih =
      (omega (arith, ap length (d refl), h), sym b ∙ d refl)
  after_recv-Reads s s' size fuel out (received (x ∷ xs)) continue h f (a, b, c, d) ih =
      Reads-received s s' _ size out (x ∷ xs) _ b c (
        ih s' (out ++ (x ∷ xs)) (omega (arith, length-append out (x ∷ xs)))
          (omega (arith, length-append out (x ∷ xs))))
  after_recv-Reads s s' size fuel out (recv_error eintr) continue h f (a, b) ih =
      Reads-received s s' _ size out [] _ a (omega arith)
        (rw (append-nil out) (ih s' out (omega arith) (omega arith)))
  after_recv-Reads s s' size fuel out (recv_error eagain) continue h f a ih = (λ e. cc, a)
  after_recv-Reads s s' size fuel out (recv_error ewouldblock) continue h f a ih = (λ e. cc, a)
  after_recv-Reads s s' size fuel out (recv_error (other n)) continue h f a ih = (λ e. cc, a)

  read_loop-Reads :
      (fuel : ℕ) (s : Socket) (size : ℕ) (out : List ℕ)
      → length out ≤ size
      → size + patience s ≤ fuel + length out
      → let (r, u) = read_loop sockets fuel s size out in Reads s size out r u
  unfolding read_loop
  read_loop-Reads zero s size out h f = elim (Bool-cases (ltb (length out) size)) [
    | inl e ↦ absurd (omega (arith, ltb→lt (length out) size e))
    | inr e ↦ rw e (ground arith, refl, le_refl _)
  ]
  read_loop-Reads (suc fuel) s size out h f = elim (Bool-cases (ltb (length out) size)) [
    | inr e ↦ rw e (ground arith, refl, le_refl _)
    | inl e ↦ rw e (
        after_recv-Reads s _ size fuel out _ _ (ltb→lt (length out) size e) f
          (recv_answers s (size - length out) (omega (arith, ltb→lt (length out) size e)))
          (λ t more p q. read_loop-Reads fuel t size more p q))
  ]

  -- `read_exact` with enough fuel never runs out of it. It fills the buffer with the next bytes of
  -- the stream and leaves the rest, or says that the stream ends before, or reports an error that is
  -- no interruption.
  pub read_exact-Reads :
      (fuel : ℕ) (s : Socket) (size : ℕ)
      → size + patience s ≤ fuel
      → let (r, u) = read_exact sockets fuel s size in Reads s size [] r u
  unfolding read_exact
  read_exact-Reads fuel s size f = read_loop-Reads fuel s size [] (omega arith) (omega arith)
