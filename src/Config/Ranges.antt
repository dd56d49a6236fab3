-- ===== src/Config/Ranges.antt =====
-- The ranges that `validate_app_config` tests, and what a single key, option or flag does to them.
use v4l2_capture.Prelude.{ℕ, ◌≤◌, ◌<◌, ◌≡◌, refl, false, [], ◌∷◌, arith}
use v4l2_capture.Prelude.Int.{ℤ, pos, is_nonpositive, is_negative, to_nat}
use v4l2_capture.Config.{Text, AppConfig, Result, ok, err, ◌>>=◌}
use v4l2_capture.Config.Values.{
  parse_positive_int, parse_non_negative_int, parse_u32_value, parse_bool, default_max_value,
}
use v4l2_capture.Config.Values.{parse_positive_int-bounds, parse_non_negative_int-bounds}
use v4l2_capture.Config.Keys.{
  camera_invalid_frame_recovery_cooldown_frames_key, camera_invalid_frame_recovery_max_count_key,
  camera_invalid_frame_recovery_threshold_key,
}
use v4l2_capture.Config.Keys.{
  camera_recovery_enabled_key, camera_recovery_max_attempts_key, camera_recovery_retry_delay_ms_key,
}
use v4l2_capture.Config.Keys.{
  camera_timeout_recovery_threshold_key, capture_frames_key, capture_one_key,
}
use v4l2_capture.Config.Keys.{consumer_delay_ms_key, device_key, format_key}
use v4l2_capture.Config.Keys.{frames_key, height_key, list_formats_key}
use v4l2_capture.Config.Keys.{log_level_key, mmap_buffers_key, output_dir_key}
use v4l2_capture.Config.Keys.{pipeline_save_key, ring_capacity_key, save_limit_key}
use v4l2_capture.Config.Keys.{save_one_key, stats_output_key, tcp_connect_max_attempts_key}
use v4l2_capture.Config.Keys.{tcp_connect_retry_delay_ms_key, tcp_host_key, tcp_port_key}
use v4l2_capture.Config.Keys.{tcp_queue_capacity_key, tcp_send_timeout_ms_key, timeout_ms_key}
use v4l2_capture.Config.Keys.{width_key}
use v4l2_capture.Config.Keys.{Key, apply_key}
use v4l2_capture.Config.Args.{
  camera_invalid_frame_recovery_cooldown_frames_option,
  camera_invalid_frame_recovery_max_count_option, camera_invalid_frame_recovery_threshold_option,
}
use v4l2_capture.Config.Args.{
  camera_recovery_max_attempts_option, camera_recovery_retry_delay_ms_option,
  camera_timeout_recovery_threshold_option,
}
use v4l2_capture.Config.Args.{config_option, consumer_delay_ms_option, device_option}
use v4l2_capture.Config.Args.{format_option, frames_option, height_option}
use v4l2_capture.Config.Args.{log_level_option, mmap_buffers_option, output_option}
use v4l2_capture.Config.Args.{pipeline_frames_option, ring_capacity_option, save_limit_option}
use v4l2_capture.Config.Args.{
  stats_output_option, tcp_connect_max_attempts_option, tcp_connect_retry_delay_ms_option,
}
use v4l2_capture.Config.Args.{tcp_host_option, tcp_port_option, tcp_queue_capacity_option}
use v4l2_capture.Config.Args.{tcp_send_timeout_ms_option, timeout_ms_option, width_option}
use v4l2_capture.Config.Args.{ValueOption, Flag, apply_option, apply_flag}

-- The ranges that the numbers of a loaded configuration have.
pub record InRange (c : AppConfig) : Type 0 where
  pub tcp_port : (is_negative c.tcp_port ≡ false) × (to_nat c.tcp_port ≤ 65535)
  pub ring_capacity : is_nonpositive c.ring_capacity ≡ false
  pub tcp_queue_capacity : is_nonpositive c.tcp_queue_capacity ≡ false
  pub tcp_connect_max_attempts : is_nonpositive c.tcp_connect_max_attempts ≡ false
  pub tcp_connect_retry_delay_ms : is_negative c.tcp_connect_retry_delay_ms ≡ false
  pub tcp_send_timeout_ms : is_nonpositive c.tcp_send_timeout_ms ≡ false
  pub timeout_threshold : is_nonpositive c.camera_timeout_recovery_threshold ≡ false
  pub invalid_threshold : is_nonpositive c.camera_invalid_frame_recovery_threshold ≡ false
  pub cooldown : is_negative c.camera_invalid_frame_recovery_cooldown_frames ≡ false
  pub recovery_budget : is_nonpositive c.camera_invalid_frame_recovery_max_count ≡ false
  pub recovery_attempts : is_nonpositive c.camera_recovery_max_attempts ≡ false
  pub recovery_delay : is_negative c.camera_recovery_retry_delay_ms ≡ false

-- What holds of a result, if there is one.
abbrev pub Holds : {A : Type 0} → (A → Type 0) → Result A → Type 0
Holds P (ok a) = P a
Holds P (err e) = Unit

pub bind-Holds :
    {A B : Type 0} (P : A → Type 0) (Q : B → Type 0) (r : Result A) (f : A → Result B)
    → Holds P r
    → ((a : A) → P a → Holds Q (f a))
    → Holds Q (r >>= f)
bind-Holds P Q (ok a) f h k = k a h
bind-Holds P Q (err e) f h k = tt

abbrev Positive : ℕ → ℤ → Type 0
Positive max_value v = (is_nonpositive v ≡ false) × (is_negative v ≡ false) × (to_nat v ≤ max_value)

pub anything : {A : Type 0} → (r : Result A) → Holds (λ _. Unit {0}) r
anything (ok a) = tt
anything (err e) = tt

abbrev NonNegative : ℕ → ℤ → Type 0
NonNegative max_value v = (is_negative v ≡ false) × (to_nat v ≤ max_value)

Holds-of : {A : Type 0} (P : A → Type 0) (r : Result A) → ((a : A) → r ≡ ok a → P a) → Holds P r
Holds-of P (ok a) h = h a refl
Holds-of P (err e) h = tt

parse_positive_int-Holds :
    (value : Text) (max_value : ℕ) → Holds (Positive max_value) (parse_positive_int value max_value)
parse_positive_int-Holds value max_value =
    Holds-of _ _ (λ v e. positive v (parse_positive_int-bounds value max_value v e))
  where
    positive : (v : ℤ) → (n : ℕ) × (v ≡ pos n) × (0 < n) × (n ≤ max_value) → Positive max_value v
    positive v (n, e, p, q) = rw e (ground arith)

parse_non_negative_int-Holds :
    (value : Text) (max_value : ℕ)
    → Holds (NonNegative max_value) (parse_non_negative_int value max_value)
parse_non_negative_int-Holds value max_value =
    Holds-of _ _ (λ v e. non_negative v (parse_non_negative_int-bounds value max_value v e))
  where
    non_negative :
        (v : ℤ) → (n : ℕ) × (v ≡ pos n) × (0 ≤ n) × (n ≤ max_value) → NonNegative max_value v
    non_negative v (n, e, p, q) = rw e (ground arith)

pub apply_key-InRange :
    (k : Key) (config : AppConfig) (value : Text)
    → InRange config
    → Holds InRange (apply_key k config value)
unfolding apply_key
apply_key-InRange device_key config value b = ground arith
apply_key-InRange list_formats_key config value b =
    bind-Holds _ InRange (parse_bool value) _ (anything (parse_bool value)) (λ v p. ground arith)
apply_key-InRange width_key config value b =
    bind-Holds _ InRange (parse_u32_value value) _ (anything (parse_u32_value value))
      (λ v p. ground arith)
apply_key-InRange height_key config value b =
    bind-Holds _ InRange (parse_u32_value value) _ (anything (parse_u32_value value))
      (λ v p. ground arith)
apply_key-InRange format_key config value b = ground arith
apply_key-InRange mmap_buffers_key config value b =
    bind-Holds _ InRange (parse_u32_value value) _ (anything (parse_u32_value value))
      (λ v p. ground arith)
apply_key-InRange capture_one_key config value b =
    bind-Holds _ InRange (parse_bool value) _ (anything (parse_bool value)) (λ v p. ground arith)
apply_key-InRange save_one_key config value b =
    bind-Holds _ InRange (parse_bool value) _ (anything (parse_bool value)) (λ v p. ground arith)
apply_key-InRange capture_frames_key config value b =
    bind-Holds (NonNegative default_max_value) InRange
      (parse_non_negative_int value default_max_value) _
      (parse_non_negative_int-Holds value default_max_value) (λ v p. ground arith)
apply_key-InRange frames_key config value b =
    bind-Holds (NonNegative default_max_value) InRange
      (parse_non_negative_int value default_max_value) _
      (parse_non_negative_int-Holds value default_max_value) (λ v p. ground arith)
apply_key-InRange ring_capacity_key config value b =
    bind-Holds (Positive default_max_value) InRange (parse_positive_int value default_max_value) _
      (parse_positive_int-Holds value default_max_value) (λ v p. ground arith)
apply_key-InRange consumer_delay_ms_key config value b =
    bind-Holds (NonNegative default_max_value) InRange
      (parse_non_negative_int value default_max_value) _
      (parse_non_negative_int-Holds value default_max_value) (λ v p. ground arith)
apply_key-InRange pipeline_save_key config value b =
    bind-Holds _ InRange (parse_bool value) _ (anything (parse_bool value)) (λ v p. ground arith)
apply_key-InRange save_limit_key config value b =
    bind-Holds (Positive default_max_value) InRange (parse_positive_int value default_max_value) _
      (parse_positive_int-Holds value default_max_value) (λ v p. ground arith)
apply_key-InRange output_dir_key config value b = ground arith
apply_key-InRange stats_output_key config value b = ground arith
apply_key-InRange tcp_host_key config [] b = ground arith
apply_key-InRange tcp_host_key config (c ∷ value) b = ground arith
apply_key-InRange tcp_port_key config value b =
    bind-Holds (NonNegative 65535) InRange (parse_non_negative_int value 65535) _
      (parse_non_negative_int-Holds value 65535) (λ v p. ground arith)
apply_key-InRange tcp_queue_capacity_key config value b =
    bind-Holds (Positive default_max_value) InRange (parse_positive_int value default_max_value) _
      (parse_positive_int-Holds value default_max_value) (λ v p. ground arith)
apply_key-InRange tcp_connect_max_attempts_key config value b =
    bind-Holds (Positive 1000) InRange (parse_positive_int value 1000) _
      (parse_positive_int-Holds value 1000) (λ v p. ground arith)
apply_key-InRange tcp_connect_retry_delay_ms_key config value b =
    bind-Holds (NonNegative 60000) InRange (parse_non_negative_int value 60000) _
      (parse_non_negative_int-Holds value 60000) (λ v p. ground arith)
apply_key-InRange tcp_send_timeout_ms_key config value b =
    bind-Holds (Positive 600000) InRange (parse_positive_int value 600000) _
      (parse_positive_int-Holds value 600000) (λ v p. ground arith)
apply_key-InRange timeout_ms_key config value b =
    bind-Holds (Positive default_max_value) InRange (parse_positive_int value default_max_value) _
      (parse_positive_int-Holds value default_max_value) (λ v p. ground arith)
apply_key-InRange camera_recovery_enabled_key config value b =
    bind-Holds _ InRange (parse_bool value) _ (anything (parse_bool value)) (λ v p. ground arith)
apply_key-InRange camera_timeout_recovery_threshold_key config value b =
    bind-Holds (Positive 1000) InRange (parse_positive_int value 1000) _
      (parse_positive_int-Holds value 1000) (λ v p. ground arith)
apply_key-InRange camera_invalid_frame_recovery_threshold_key config value b =
    bind-Holds (Positive 1000) InRange (parse_positive_int value 1000) _
      (parse_positive_int-Holds value 1000) (λ v p. ground arith)
apply_key-InRange camera_invalid_frame_recovery_cooldown_frames_key config value b =
    bind-Holds (NonNegative 1000000) InRange (parse_non_negative_int value 1000000) _
      (parse_non_negative_int-Holds value 1000000) (λ v p. ground arith)
apply_key-InRange camera_invalid_frame_recovery_max_count_key config value b =
    bind-Holds (Positive 1000) InRange (parse_positive_int value 1000) _
      (parse_positive_int-Holds value 1000) (λ v p. ground arith)
apply_key-InRange camera_recovery_max_attempts_key config value b =
    bind-Holds (Positive 1000) InRange (parse_positive_int value 1000) _
      (parse_positive_int-Holds value 1000) (λ v p. ground arith)
apply_key-InRange camera_recovery_retry_delay_ms_key config value b =
    bind-Holds (NonNegative 600000) InRange (parse_non_negative_int value 600000) _
      (parse_non_negative_int-Holds value 600000) (λ v p. ground arith)
apply_key-InRange log_level_key config value b = ground arith

pub apply_option-InRange :
    (k : ValueOption) (config : AppConfig) (value : Text)
    → InRange config
    → Holds InRange (apply_option k config value)
unfolding apply_option
apply_option-InRange config_option config value b = ground arith
apply_option-InRange device_option config value b = ground arith
apply_option-InRange width_option config value b =
    bind-Holds _ InRange (parse_u32_value value) _ (anything (parse_u32_value value))
      (λ v p. ground arith)
apply_option-InRange height_option config value b =
    bind-Holds _ InRange (parse_u32_value value) _ (anything (parse_u32_value value))
      (λ v p. ground arith)
apply_option-InRange format_option config value b = ground arith
apply_option-InRange mmap_buffers_option config value b =
    bind-Holds _ InRange (parse_u32_value value) _ (anything (parse_u32_value value))
      (λ v p. ground arith)
apply_option-InRange frames_option config value b =
    bind-Holds (Positive default_max_value) InRange (parse_positive_int value default_max_value) _
      (parse_positive_int-Holds value default_max_value) (λ v p. ground arith)
apply_option-InRange pipeline_frames_option config value b =
    bind-Holds (Positive default_max_value) InRange (parse_positive_int value default_max_value) _
      (parse_positive_int-Holds value default_max_value) (λ v p. ground arith)
apply_option-InRange ring_capacity_option config value b =
    bind-Holds (Positive default_max_value) InRange (parse_positive_int value default_max_value) _
      (parse_positive_int-Holds value default_max_value) (λ v p. ground arith)
apply_option-InRange consumer_delay_ms_option config value b =
    bind-Holds (NonNegative default_max_value) InRange
      (parse_non_negative_int value default_max_value) _
      (parse_non_negative_int-Holds value default_max_value) (λ v p. ground arith)
apply_option-InRange save_limit_option config value b =
    bind-Holds (Positive default_max_value) InRange (parse_positive_int value default_max_value) _
      (parse_positive_int-Holds value default_max_value) (λ v p. ground arith)
apply_option-InRange output_option config value b = ground arith
apply_option-InRange stats_output_option config value b = ground arith
apply_option-InRange tcp_host_option config value b = ground arith
apply_option-InRange tcp_port_option config value b =
    bind-Holds (Positive 65535) InRange (parse_positive_int value 65535) _
      (parse_positive_int-Holds value 65535) (λ v p. ground arith)
apply_option-InRange tcp_queue_capacity_option config value b =
    bind-Holds (Positive default_max_value) InRange (parse_positive_int value default_max_value) _
      (parse_positive_int-Holds value default_max_value) (λ v p. ground arith)
apply_option-InRange tcp_connect_max_attempts_option config value b =
    bind-Holds (Positive 1000) InRange (parse_positive_int value 1000) _
      (parse_positive_int-Holds value 1000) (λ v p. ground arith)
apply_option-InRange tcp_connect_retry_delay_ms_option config value b =
    bind-Holds (NonNegative 60000) InRange (parse_non_negative_int value 60000) _
      (parse_non_negative_int-Holds value 60000) (λ v p. ground arith)
apply_option-InRange tcp_send_timeout_ms_option config value b =
    bind-Holds (Positive 600000) InRange (parse_positive_int value 600000) _
      (parse_positive_int-Holds value 600000) (λ v p. ground arith)
apply_option-InRange timeout_ms_option config value b =
    bind-Holds (Positive default_max_value) InRange (parse_positive_int value default_max_value) _
      (parse_positive_int-Holds value default_max_value) (λ v p. ground arith)
apply_option-InRange camera_timeout_recovery_threshold_option config value b =
    bind-Holds (Positive 1000) InRange (parse_positive_int value 1000) _
      (parse_positive_int-Holds value 1000) (λ v p. ground arith)
apply_option-InRange camera_invalid_frame_recovery_threshold_option config value b =
    bind-Holds (Positive 1000) InRange (parse_positive_int value 1000) _
      (parse_positive_int-Holds value 1000) (λ v p. ground arith)
apply_option-InRange camera_invalid_frame_recovery_cooldown_frames_option config value b =
    bind-Holds (NonNegative 1000000) InRange (parse_non_negative_int value 1000000) _
      (parse_non_negative_int-Holds value 1000000) (λ v p. ground arith)
apply_option-InRange camera_invalid_frame_recovery_max_count_option config value b =
    bind-Holds (Positive 1000) InRange (parse_positive_int value 1000) _
      (parse_positive_int-Holds value 1000) (λ v p. ground arith)
apply_option-InRange camera_recovery_max_attempts_option config value b =
    bind-Holds (Positive 1000) InRange (parse_positive_int value 1000) _
      (parse_positive_int-Holds value 1000) (λ v p. ground arith)
apply_option-InRange camera_recovery_retry_delay_ms_option config value b =
    bind-Holds (NonNegative 600000) InRange (parse_non_negative_int value 600000) _
      (parse_non_negative_int-Holds value 600000) (λ v p. ground arith)
apply_option-InRange log_level_option config value b = ground arith

pub apply_flag-InRange :
    (k : Flag) (config : AppConfig) → InRange config → InRange (apply_flag k config)
unfolding apply_flag
apply_flag-InRange k config b = ground arith
