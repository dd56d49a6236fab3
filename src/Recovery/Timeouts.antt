-- ===== src/Recovery/Timeouts.antt =====
-- `CaptureRecoveryController`: its answer to a capture error, and the attempts of one incident.
use v4l2_capture.Prelude.{
  ℕ, zero, suc, ◌+◌, ◌-◌, ◌<◌, ◌≡◌, ◌≢◌, ◌↔◌, ◌⊎◌, true, false, min, some, arith, if◌then◌else◌,
}
use v4l2_capture.Prelude.Int.{ℤ}
use v4l2_capture.Recovery.{CaptureErrorKind, timeout, temporary_unavailable}
use v4l2_capture.Recovery.{CaptureRecovery}
use v4l2_capture.Recovery.{create_capture_recovery, should_reinitialize, begin_recovery_attempt}
use v4l2_capture.Recovery.{on_capture_success, on_recovery_success}

-- Between two captures: fewer timeouts in a row than the threshold, and no attempt counted.
pub record IsReady (c : CaptureRecovery) : Type 0 where
  pub timeouts_short : c.consecutive_timeouts < c.timeout_threshold
  pub none_begun : c.recovery_attempts ≡ 0
  pub attempts_allowed : 0 < c.max_recovery_attempts

pub create-IsReady :
    (t m : ℤ) {c : CaptureRecovery} → create_capture_recovery t m ≡ some c → IsReady c
unfolding create_capture_recovery
create-IsReady t m e = ground arith

-- An error that asks for no rebuild, and every success, leave the controller ready.
pub IsReady-kept :
    (k : CaptureErrorKind) (c : CaptureRecovery)
    → IsReady c
    → ((should_reinitialize k c).0 ≡ false → IsReady (should_reinitialize k c).1)
      × IsReady (on_capture_success c)
      × IsReady (on_recovery_success (should_reinitialize k c).1)
unfolding should_reinitialize on_capture_success on_recovery_success
IsReady-kept timeout c v = ground arith
IsReady-kept _ c v = ground arith

-- A capture error asks for a rebuild exactly when it is the timeout that completes the threshold,
-- or says that the device, the stream or the buffer is bad.
pub should_reinitialize_iff :
    (k : CaptureErrorKind) (c : CaptureRecovery)
    → IsReady c
    → ((should_reinitialize k c).0 ≡ true) ↔ (
        ((k ≡ timeout) × (c.consecutive_timeouts + 1 ≡ c.timeout_threshold))
        ⊎ ((k ≢ timeout) × (k ≢ temporary_unavailable)))
unfolding should_reinitialize
should_reinitialize_iff timeout c v = ground arith
should_reinitialize_iff _ c v = ground arith

-- How many of `n` calls of `begin_recovery_attempt` in a row are granted, and the state after them.
pub attempts_granted : ℕ → CaptureRecovery → ℕ × CaptureRecovery
attempts_granted zero c = (0, c)
attempts_granted (suc n) c =
    let (ok, c') = begin_recovery_attempt c in
    let (granted, c'') = attempts_granted n c' in (if ok then suc granted else granted, c'')

-- One incident is granted what is left of the allowed attempts, however often it asks.
pub attempts_granted_lem :
    (n : ℕ) (c : CaptureRecovery)
    → (attempts_granted n c).0 ≡ min n (c.max_recovery_attempts - c.recovery_attempts)
unfolding attempts_granted begin_recovery_attempt
attempts_granted_lem zero c = omega arith
attempts_granted_lem (suc n) c = ground (arith, attempts_granted_lem n (begin_recovery_attempt c).1)
