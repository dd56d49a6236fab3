-- ===== src/Examples/Policies.antt =====
-- The recovery policies of include/capture_recovery.hpp at small thresholds.
use v4l2_capture.Prelude.{
  ◌+◌, ◌-◌, ◌≤◌, ◌<◌, ◌≡◌, ◌≢◌, ◌↔◌, ◌⊎◌, refl, min, [], ◌∷◌, All, true, false, some, arith,
}
use v4l2_capture.Prelude.Int.{pos}
use v4l2_capture.Recovery.{CaptureRecovery, timeout, temporary_unavailable, should_reinitialize}
use v4l2_capture.Recovery.{
  InvalidFrameRecovery, create_invalid_frame_recovery, observe, observe_invalid, recover,
  on_invalid_frame_recovery_success, on_external_recovery_success,
}
use v4l2_capture.Recovery.Timeouts.{
  IsReady, should_reinitialize_iff, attempts_granted, attempts_granted_lem,
}
use v4l2_capture.Recovery.Bursts.{
  IsValid, observe-recover_iff, observe_all, IsQuiet, rebuilds_are_spaced, Reach, Step, rebuilds,
  rebuilds-within_budget,
}

abbrev camera : CaptureRecovery
camera = record {
  timeout_threshold = 3;
  max_recovery_attempts = 5;
  consecutive_timeouts = 2;
  recovery_attempts = 0;
}

camera-IsReady : IsReady camera
camera-IsReady = record {
  timeouts_short = omega arith;
  none_begun = refl;
  attempts_allowed = omega arith;
}

should_reinitialize_iff_example : ((should_reinitialize timeout camera).0 ≡ true) ↔ (
    ((timeout ≡ timeout) × (camera.consecutive_timeouts + 1 ≡ camera.timeout_threshold))
    ⊎ ((timeout ≢ timeout) × (timeout ≢ temporary_unavailable)))
should_reinitialize_iff_example = should_reinitialize_iff timeout camera camera-IsReady

attempts_granted_example : (attempts_granted 9 camera).0 ≡ min 9 (5 - 0)
attempts_granted_example = attempts_granted_lem 9 camera

abbrev frames : InvalidFrameRecovery
frames = record {
  threshold = 2;
  cooldown_frames = 3;
  max_recoveries = 1;
  consecutive_invalid = 1;
  peak_invalid = 1;
  cooldown_remaining = 0;
  recoveries_completed = 0;
  cooldown_count = 0;
  budget_count = 0;
}

abbrev new : InvalidFrameRecovery
new = record {
  threshold = 2;
  cooldown_frames = 3;
  max_recoveries = 1;
  consecutive_invalid = 0;
  peak_invalid = 0;
  cooldown_remaining = 0;
  recoveries_completed = 0;
  cooldown_count = 0;
  budget_count = 0;
}

frames-IsValid : IsValid frames
frames-IsValid = record {
  streak_short = omega arith;
  streak_peak = omega arith;
  peak_within = omega arith;
  cooldown_within = omega arith;
  budget_within = omega arith;
}

observe-recover_example : ((observe false frames).0 ≡ recover) ↔ (
    (false ≡ false)
    × (frames.consecutive_invalid + 1 ≡ frames.threshold)
    × (frames.cooldown_remaining ≤ 1)
    × (frames.recoveries_completed < frames.max_recoveries))
observe-recover_example = observe-recover_iff false frames frames-IsValid

rebuilds_are_spaced_example :
    All IsQuiet (observe_all (false ∷ false ∷ []) (on_invalid_frame_recovery_success frames)).0
    × All IsQuiet (observe_all (false ∷ false ∷ []) (on_external_recovery_success frames)).0
rebuilds_are_spaced_example = rebuilds_are_spaced frames (false ∷ false ∷ []) (omega arith)

-- Two invalid frames, the second of which has the stream rebuilt.
abbrev after_one : InvalidFrameRecovery
after_one = (observe false new).1

recovers : (observe false after_one).0 ≡ recover
unfolding observe observe_invalid
recovers = refl

abbrev one_rebuild : Reach new (on_invalid_frame_recovery_success (observe false after_one).1)
one_rebuild = Reach.next (Reach.next Reach.here (Step.frame false)) (Step.rebuilt false recovers)

created : create_invalid_frame_recovery (pos 2) (pos 3) (pos 1) ≡ some new
unfolding create_invalid_frame_recovery
created = refl

rebuilds-within_budget_example :
    let d = on_invalid_frame_recovery_success (observe false after_one).1 in
    IsValid d × (d.recoveries_completed ≡ rebuilds one_rebuild) × (rebuilds one_rebuild ≤ 1)
rebuilds-within_budget_example = rebuilds-within_budget (pos 2) (pos 3) 1 created one_rebuild
