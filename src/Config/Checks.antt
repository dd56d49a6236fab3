-- ===== src/Config/Checks.antt =====
-- `validate_app_config`: the combinations that make sense, and the ranges.
use v4l2_capture.Prelude.{ℕ, ◌+◌, ◌≡◌, refl, Bool, true, false, ◌&&◌, ◌||◌, ltb}
use v4l2_capture.Prelude.{if◌then◌else◌, List, [], ◌∷◌, Option, none, some, All}
use v4l2_capture.Prelude.Int.{is_nonpositive, is_negative, to_nat}
use v4l2_capture.Config.{Text, codes, AppConfig, ConfigError, Result, ok, err}
use v4l2_capture.Config.{
  format_needs_all, buffers_need_format, one_capture_mode, tcp_needs_host_and_port,
  tcp_needs_pipeline, capture_needs_buffers,
}
use v4l2_capture.Config.{
  device_empty, output_dir_empty, stats_output_empty, bad_tcp_port, bad_capacity,
  bad_connect_attempts, bad_retry_delay,
}
use v4l2_capture.Config.{
  bad_send_timeout, bad_timeout_threshold, bad_invalid_threshold, bad_cooldown, bad_recovery_budget,
  bad_recovery_attempts,
}
use v4l2_capture.Config.{bad_recovery_delay, bad_log_level}
use v4l2_capture.Config.Values.{one_of}

abbrev pub has_value : {A : Type 0} → Option A → Bool
has_value none = false
has_value (some a) = true

abbrev pub is_empty : Text → Bool
is_empty [] = true
is_empty (c ∷ text) = false

abbrev pub not : Bool → Bool
not true = false
not false = true

abbrev pub one_if : Bool → ℕ
one_if b = if b then 1 else 0

abbrev pub wants_set_format : AppConfig → Bool
wants_set_format c = has_value c.width || has_value c.height || has_value c.pixel_format

-- A mode is on when its number is positive.
abbrev pub capture_mode_count : AppConfig → ℕ
capture_mode_count c =
    one_if c.capture_one
    + one_if c.save_one
    + one_if (not (is_nonpositive c.capture_frames))
    + one_if (not (is_nonpositive c.pipeline_frames))

abbrev pub tcp_enabled : AppConfig → Bool
tcp_enabled c = has_value c.tcp_host || not (is_nonpositive c.tcp_port)

-- The tests of the function, in order, each with what it throws.
abbrev pub checks : AppConfig → List (Bool × ConfigError)
checks c =
    (
      wants_set_format c
          && not (has_value c.width && has_value c.height && has_value c.pixel_format),
      format_needs_all,
    )
    ∷ (has_value c.mmap_buffers && not (wants_set_format c), buffers_need_format)
    ∷ (ltb 1 (capture_mode_count c), one_capture_mode)
    ∷ (
      tcp_enabled c && not (has_value c.tcp_host && not (is_nonpositive c.tcp_port)),
      tcp_needs_host_and_port,
    )
    ∷ (tcp_enabled c && is_nonpositive c.pipeline_frames, tcp_needs_pipeline)
    ∷ (ltb 0 (capture_mode_count c) && not (has_value c.mmap_buffers), capture_needs_buffers)
    ∷ (is_empty c.device, device_empty)
    ∷ (is_empty c.output_dir, output_dir_empty)
    ∷ (is_empty c.stats_output, stats_output_empty)
    ∷ (is_negative c.tcp_port || ltb 65535 (to_nat c.tcp_port), bad_tcp_port)
    ∷ (is_nonpositive c.ring_capacity || is_nonpositive c.tcp_queue_capacity, bad_capacity)
    ∷ (is_nonpositive c.tcp_connect_max_attempts, bad_connect_attempts)
    ∷ (is_negative c.tcp_connect_retry_delay_ms, bad_retry_delay)
    ∷ (is_nonpositive c.tcp_send_timeout_ms, bad_send_timeout)
    ∷ (is_nonpositive c.camera_timeout_recovery_threshold, bad_timeout_threshold)
    ∷ (is_nonpositive c.camera_invalid_frame_recovery_threshold, bad_invalid_threshold)
    ∷ (is_negative c.camera_invalid_frame_recovery_cooldown_frames, bad_cooldown)
    ∷ (is_nonpositive c.camera_invalid_frame_recovery_max_count, bad_recovery_budget)
    ∷ (is_nonpositive c.camera_recovery_max_attempts, bad_recovery_attempts)
    ∷ (is_negative c.camera_recovery_retry_delay_ms, bad_recovery_delay)
    ∷ (
      not (one_of c.log_level (codes "DEBUG" ∷ codes "INFO" ∷ codes "WARN" ∷ codes "ERROR" ∷ [])),
      bad_log_level,
    )
    ∷ []

-- The first test that is true throws.
unfoldable pub throw_first : List (Bool × ConfigError) → Result (Unit {0})
throw_first [] = ok tt
throw_first ((test, e) ∷ rest) = let more = throw_first rest in if test then err e else more

unfoldable pub validate_app_config : AppConfig → Result (Unit {0})
unfolding throw_first
validate_app_config config = throw_first (checks config)

pub throw_first-pass :
    (tests : List (Bool × ConfigError))
    → All (λ (t : Bool × ConfigError). t.0 ≡ false) tests
    → throw_first tests ≡ ok tt
unfolding throw_first
throw_first-pass [] h = refl
throw_first-pass ((test, e) ∷ rest) (passed, h) = rw (passed, throw_first-pass rest h) refl

pub throw_first-ok :
    (tests : List (Bool × ConfigError))
    → throw_first tests ≡ ok tt
    → All (λ (t : Bool × ConfigError). t.0 ≡ false) tests
unfolding throw_first
throw_first-ok [] h = tt
throw_first-ok ((true, x) ∷ rest) h = cc
throw_first-ok ((false, x) ∷ rest) h = (refl, throw_first-ok rest h)
