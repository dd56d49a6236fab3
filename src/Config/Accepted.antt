-- ===== src/Config/Accepted.antt =====
-- `validate_app_config`: which configurations it accepts.
use v4l2_capture.Prelude.{
  ◌≤◌, ◌<◌, ◌≡◌, ◌≢◌, ◌↔◌, refl, Bool, true, false, List, [], ◌∷◌, Option, arith, All,
}
use v4l2_capture.Prelude.Int.{is_nonpositive}
use v4l2_capture.Config.{Text, codes, AppConfig, ConfigError, ok}
use v4l2_capture.Config.Values.{one_of}
use v4l2_capture.Config.Checks.{
  has_value, is_empty, capture_mode_count, checks, validate_app_config, throw_first-ok,
  throw_first-pass,
}
use v4l2_capture.Config.Ranges.{InRange}

abbrev pub Some : {A : Type 0} → Option A → Type 0
Some o = has_value o ≡ true

-- How the options depend on one another: the three parts of a format come together, buffers need a
-- format, the four modes exclude each other and need buffers, TCP needs its host, its port and the
-- pipeline, the three paths are not empty, and the log level is one of four.
pub record IsConsistent (c : AppConfig) : Type 0 where
  pub format_together :
      (has_value c.width ≡ has_value c.height) × (has_value c.height ≡ has_value c.pixel_format)
  pub buffers_after_format : Some c.mmap_buffers → Some c.width
  pub one_mode : capture_mode_count c ≤ 1
  pub mode_has_buffers : 0 < capture_mode_count c → Some c.mmap_buffers
  pub host_has_port : Some c.tcp_host → is_nonpositive c.tcp_port ≡ false
  pub port_has_host : is_nonpositive c.tcp_port ≡ false → Some c.tcp_host
  pub tcp_in_pipeline : Some c.tcp_host → is_nonpositive c.pipeline_frames ≡ false
  pub device_given : c.device ≢ []
  pub output_dir_given : c.output_dir ≢ []
  pub stats_output_given : c.stats_output ≢ []
  pub log_level_known :
      one_of c.log_level (codes "DEBUG" ∷ codes "INFO" ∷ codes "WARN" ∷ codes "ERROR" ∷ []) ≡ true

given : (t : Text) → t ≢ [] → is_empty t ≡ false
given [] h = absurd (h refl)
given (x ∷ t) h = refl

not_empty : (t : Text) → is_empty t ≡ false → t ≢ []
not_empty [] h e = absurd (ground arith)
not_empty (x ∷ t) h e = cc

Passes : List (Bool × ConfigError) → Type 0
Passes tests = All (λ (t : Bool × ConfigError). t.0 ≡ false) tests

Passes-IsConsistent : (c : AppConfig) → Passes (checks c) → IsConsistent c
unfolding Passes
Passes-IsConsistent c h =
    ground (arith, not_empty c.device, not_empty c.output_dir, not_empty c.stats_output)

Passes-InRange : (c : AppConfig) → Passes (checks c) → InRange c
unfolding Passes
Passes-InRange c h = ground arith

IsConsistent-Passes : (c : AppConfig) → IsConsistent c → InRange c → Passes (checks c)
unfolding Passes
IsConsistent-Passes c v b = ground (
  arith,
  given c.device v.device_given,
  given c.output_dir v.output_dir_given,
  given c.stats_output v.stats_output_given,
)

-- `validate_app_config` accepts a configuration exactly when its options fit together (the format, the
-- buffers, the mode, TCP, the paths and the log level) and its numbers are in range: a port between 0
-- and 65535; positive queue capacities, numbers of attempts, thresholds and rebuild budget, and a
-- positive time to send; retry delays and a cooldown that are not negative. Of the other numbers it
-- tests no range.
pub validate_app_config_iff :
    (c : AppConfig) → (validate_app_config c ≡ ok tt) ↔ (IsConsistent c × InRange c)
unfolding validate_app_config Passes
validate_app_config_iff c = (
  λ e. let h = throw_first-ok (checks c) e in (Passes-IsConsistent c h, Passes-InRange c h),
  λ h. throw_first-pass (checks c) (IsConsistent-Passes c h.0 h.1),
)
