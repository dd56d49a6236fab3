-- ===== src/Send.antt =====
-- src/tcp_send.cpp and include/tcp_send.hpp: sending a buffer over a socket that does not block,
-- until a deadline. What `send`, `poll`, `getsockopt`, the clock and the stop flag answer in one
-- round of the loop is a value `Round`; a run of the loop is given the rounds that it may make.
-- Times are ticks of the steady clock.
pub mod Delivery
pub mod Deadline
use v4l2_capture.Prelude.{
  ℕ, zero, suc, ◌+◌, ◌-◌, ◌*◌, ◌/◌, min, Bool, true, false, ◌&&◌, ◌||◌, ltb, leb, ◌==◌,
}
use v4l2_capture.Prelude.{
  if◌then◌else◌, List, [], ◌∷◌, ◌++◌, Option, none, some, length, take, drop,
}
use v4l2_capture.Prelude.Int.{ℤ, pos, is_negative, is_nonpositive, to_nat}

pub data Errno : Type 0 where
  eintr eagain ewouldblock : Errno
  other : ℕ → Errno

pub data SendAnswer : Type 0 where
  took : ℕ → SendAnswer
  send_error : Errno → SendAnswer

-- `ready` has the flags POLLNVAL and POLLERR | POLLHUP, and what `getsockopt(SO_ERROR)` tells.
pub data PollAnswer : Type 0 where
  poll_error : Errno → PollAnswer
  poll_expired : PollAnswer
  ready : Bool → Bool → Option ℕ → PollAnswer

pub record Round : Type 0 where
  pub stop_before : Bool
  pub now_before : ℕ
  pub send_answer : SendAnswer
  pub stop_after : Bool
  pub now_after : ℕ
  pub poll_answer : PollAnswer

-- How `send_all_until` ends: it returns, or throws. `unfinished` is no end: the rounds are used up.
pub data Outcome : Type 0 where
  sent_all : Outcome
  timed_out cancelled : ℕ → ℕ → Outcome
  peer_closed : Outcome
  send_failed poll_failed : Errno → Outcome
  poll_invalid : Outcome
  unavailable : Option ℕ → Outcome
  bad_descriptor null_data bad_slice bad_timeout : Outcome
  unfinished : Outcome

abbrev pub int_max : ℕ
int_max = 0x7fff_ffff

-- `stop_requested` may be null, and then nothing cancels.
abbrev pub cancellation_requested : Bool → Bool → Bool
cancellation_requested given flag = given && flag

-- A clock has some number of ticks in a millisecond; the cast to milliseconds rounds down.
pub remaining_wait_ms : ℕ → ℕ → ℕ → ℕ → ℕ
remaining_wait_ms ticks_per_ms deadline poll_slice now =
    if leb deadline now
    then 0
    else (let remaining = (deadline - now) / ticks_per_ms in
        let bounded = min poll_slice (if ltb 0 remaining then remaining else 1) in
        if ltb int_max bounded then int_max else bounded)

-- What one round does: it ends the loop, or goes on with so many more bytes sent.
pub data Next : Type 0 where
  stop : Outcome → Next
  go : ℕ → Next

pub record Job : Type 0 where
  pub bytes : List ℕ
  pub deadline : ℕ
  pub stop_given : Bool
  pub poll_slice : ℕ
  pub ticks_per_ms : ℕ

-- The error that `getsockopt` reports, if the call succeeds and there is one.
abbrev nonzero : Option ℕ → Option ℕ
nonzero none = none
nonzero (some zero) = none
nonzero (some (suc e)) = some (suc e)

-- The part of a round after `poll` returned.
after_poll : PollAnswer → Next
after_poll (poll_error eintr) = go 0
after_poll (poll_error e) = stop (poll_failed e)
after_poll poll_expired = go 0
after_poll (ready invalid broken socket_error) =
    if invalid
    then stop poll_invalid
    else (if broken then stop (unavailable (nonzero socket_error)) else go 0)

-- The part after `send` would have blocked.
wait_writable : Job → ℕ → Round → Next
unfolding after_poll remaining_wait_ms
wait_writable j sent r =
    if cancellation_requested j.stop_given r.stop_after
    then stop (cancelled sent (length j.bytes))
    else (if remaining_wait_ms j.ticks_per_ms j.deadline j.poll_slice r.now_after == 0
        then stop (timed_out sent (length j.bytes))
        else after_poll r.poll_answer)

after_send : Job → ℕ → Round → SendAnswer → Next
unfolding wait_writable
after_send j sent r (took zero) = stop peer_closed
after_send j sent r (took (suc n)) = go (suc n)
after_send j sent r (send_error eintr) = go 0
after_send j sent r (send_error eagain) = wait_writable j sent r
after_send j sent r (send_error ewouldblock) = wait_writable j sent r
after_send j sent r (send_error (other e)) = stop (send_failed (other e))

unfoldable pub round : Job → ℕ → Round → Next
unfolding after_send
round j sent r =
    if cancellation_requested j.stop_given r.stop_before
    then stop (cancelled sent (length j.bytes))
    else (if leb j.deadline r.now_before
        then stop (timed_out sent (length j.bytes))
        else after_send j sent r r.send_answer)

-- The loop of `send_all_until`, with the bytes that the kernel took.
unfoldable pub send_loop : Job → ℕ → List Round → Outcome × List ℕ
send_loop j sent [] = if ltb sent (length j.bytes) then (unfinished, []) else (sent_all, [])
send_loop j sent (r ∷ rs) =
    if ltb sent (length j.bytes)
    then elim (round j sent r) [
      | stop o ↦ (o, [])
      | go n ↦ let (o, wire) = send_loop j (sent + n) rs in (o, take n (drop sent j.bytes) ++ wire)
    ]
    else (sent_all, [])

-- The buffer is `none` where the pointer is null; its size is given beside it.
unfoldable pub send_all_until :
    ℕ → ℤ → Option (List ℕ) → ℕ → ℕ → Bool → ℤ → List Round → Outcome × List ℕ
send_all_until ticks_per_ms fd buffer size deadline stop_given poll_slice rounds =
    if is_negative fd then (bad_descriptor, []) else elim buffer [
      | none ↦
          if ltb 0 size
          then (null_data, [])
          else (if is_nonpositive poll_slice then (bad_slice, []) else (sent_all, []))
      | some bytes ↦
          if is_nonpositive poll_slice
          then (bad_slice, [])
          else send_loop
              (record {
                bytes = bytes;
                deadline = deadline;
                stop_given = stop_given;
                poll_slice = to_nat poll_slice;
                ticks_per_ms = ticks_per_ms;
              })
              0 rounds
    ]

pub send_all_with_timeout :
    ℕ → ℤ → Option (List ℕ) → ℕ → ℤ → ℕ → Bool → ℤ → List Round → Outcome × List ℕ
unfolding send_all_until
send_all_with_timeout ticks_per_ms fd buffer size timeout now stop_given poll_slice rounds =
    if is_nonpositive timeout
    then (bad_timeout, [])
    else send_all_until ticks_per_ms fd buffer size (now + to_nat timeout * ticks_per_ms) stop_given
        poll_slice rounds
