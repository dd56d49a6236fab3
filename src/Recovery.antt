-- ===== src/Recovery.antt =====
-- include/camera_capture_error.hpp and include/capture_recovery.hpp: the policy objects that decide
-- when the camera stream is rebuilt. Their counters are `int`s that only count up from 0.
pub mod Timeouts
pub mod Bursts
use v4l2_capture.Prelude.{
  ℕ, suc, ◌+◌, ◌-◌, Bool, true, false, Option, none, some, ltb, leb, if◌then◌else◌,
}
use v4l2_capture.Prelude.Int.{ℤ, is_nonpositive, is_negative, to_nat}

-- `CameraCaptureErrorKind`
pub data CaptureErrorKind : Type 0 where
  timeout temporary_unavailable device_unavailable stream_failure : CaptureErrorKind
  invalid_buffer_metadata : CaptureErrorKind

-- `CaptureRecoveryController`
pub record CaptureRecovery : Type 0 where
  pub timeout_threshold : ℕ
  pub max_recovery_attempts : ℕ
  pub consecutive_timeouts : ℕ
  pub recovery_attempts : ℕ

-- `none` is a `std::invalid_argument`.
unfoldable pub create_capture_recovery : ℤ → ℤ → Option CaptureRecovery
create_capture_recovery threshold attempts =
    if is_nonpositive threshold
    then none
    else (if is_nonpositive attempts
        then none
        else some (record {
          timeout_threshold = to_nat threshold;
          max_recovery_attempts = to_nat attempts;
          consecutive_timeouts = 0;
          recovery_attempts = 0;
        }))

unfoldable pub should_reinitialize : CaptureErrorKind → CaptureRecovery → Bool × CaptureRecovery
should_reinitialize timeout c =
    let c' = record c { consecutive_timeouts = c.consecutive_timeouts + 1 } in
    (leb c'.timeout_threshold c'.consecutive_timeouts, c')
should_reinitialize temporary_unavailable c = (false, c)
should_reinitialize device_unavailable c = (true, c)
should_reinitialize stream_failure c = (true, c)
should_reinitialize invalid_buffer_metadata c = (true, c)

pub begin_recovery_attempt : CaptureRecovery → Bool × CaptureRecovery
begin_recovery_attempt c =
    if leb c.max_recovery_attempts c.recovery_attempts
    then (false, c)
    else (true, record c { recovery_attempts = c.recovery_attempts + 1 })

unfoldable pub on_capture_success : CaptureRecovery → CaptureRecovery
on_capture_success c = record c { consecutive_timeouts = 0; recovery_attempts = 0 }

pub on_recovery_success : CaptureRecovery → CaptureRecovery
on_recovery_success c = record c { consecutive_timeouts = 0; recovery_attempts = 0 }

-- `InvalidFrameDecision`
pub data Decision : Type 0 where
  nothing recover suppressed_by_cooldown suppressed_by_budget : Decision

-- `InvalidFrameRecoveryController`; the counts of suppressions have the suffix `_count`.
pub record InvalidFrameRecovery : Type 0 where
  pub threshold : ℕ
  pub cooldown_frames : ℕ
  pub max_recoveries : ℕ
  pub consecutive_invalid : ℕ
  pub peak_invalid : ℕ
  pub cooldown_remaining : ℕ
  pub recoveries_completed : ℕ
  pub cooldown_count : ℕ
  pub budget_count : ℕ

unfoldable pub create_invalid_frame_recovery : ℤ → ℤ → ℤ → Option InvalidFrameRecovery
create_invalid_frame_recovery threshold cooldown max =
    if is_nonpositive threshold
    then none
    else (if is_negative cooldown
        then none
        else (if is_nonpositive max
            then none
            else some (record {
              threshold = to_nat threshold;
              cooldown_frames = to_nat cooldown;
              max_recoveries = to_nat max;
              consecutive_invalid = 0;
              peak_invalid = 0;
              cooldown_remaining = 0;
              recoveries_completed = 0;
              cooldown_count = 0;
              budget_count = 0;
            })))

-- `observe` on an invalid frame, the cooldown counted down already.
unfoldable pub observe_invalid : InvalidFrameRecovery → Decision × InvalidFrameRecovery
observe_invalid c =
    let streak = c.consecutive_invalid + 1 in
    let counted = record c {
      consecutive_invalid = streak;
      peak_invalid = if ltb c.peak_invalid streak then streak else c.peak_invalid;
    } in
    let reset = record counted { consecutive_invalid = 0 } in
    if ltb streak c.threshold
    then (nothing, counted)
    else (if ltb 0 c.cooldown_remaining
        then (suppressed_by_cooldown, record reset { cooldown_count = c.cooldown_count + 1 })
        else (if leb c.max_recoveries c.recoveries_completed
            then (suppressed_by_budget, record reset { budget_count = c.budget_count + 1 })
            else (recover, reset)))

unfoldable pub observe : Bool → InvalidFrameRecovery → Decision × InvalidFrameRecovery
unfolding observe_invalid
observe frame_valid c =
    let cooled = record c {
      cooldown_remaining =
          if ltb 0 c.cooldown_remaining then c.cooldown_remaining - 1 else c.cooldown_remaining;
    } in
    if frame_valid
    then (nothing, record cooled { consecutive_invalid = 0 })
    else observe_invalid cooled

pub on_invalid_frame_recovery_success : InvalidFrameRecovery → InvalidFrameRecovery
on_invalid_frame_recovery_success c = record c {
  consecutive_invalid = 0;
  cooldown_remaining = c.cooldown_frames;
  recoveries_completed = c.recoveries_completed + 1;
}

pub on_external_recovery_success : InvalidFrameRecovery → InvalidFrameRecovery
on_external_recovery_success c = record c {
  consecutive_invalid = 0;
  cooldown_remaining = c.cooldown_frames;
}
