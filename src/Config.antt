-- ===== src/Config.antt =====
-- src/app_config.cpp: the configuration from a file and from the command line, and its check. A
-- text is a list of byte values; `throw` is the result `err`, with what the message tells.
pub mod Values
pub mod Keys
pub mod Args
pub mod Checks
pub mod Load
pub mod Ranges
pub mod Usable
pub mod Accepted
use Prim.Native.Char.{code}
use Prim.Native.String.{String}
use v4l2_capture.Prelude.{ℕ, Bool, true, false, List, [], ◌∷◌, Option, none}
use v4l2_capture.Prelude.Int.{ℤ, pos}

abbrev pub Text : Type 0
Text = List ℕ

abbrev pub codes : String → Text
codes String.[] = []
codes (String.◌∷◌ c s) = code c ∷ codes s

pub record AppConfig : Type 0 where
  pub config_path : Text
  pub device : Text
  pub list_formats : Bool
  pub capture_one : Bool
  pub save_one : Bool
  pub capture_frames : ℤ
  pub pipeline_frames : ℤ
  pub ring_capacity : ℤ
  pub consumer_delay_ms : ℤ
  pub pipeline_save : Bool
  pub save_limit : ℤ
  pub timeout_ms : ℤ
  pub camera_recovery_enabled : Bool
  pub camera_timeout_recovery_threshold : ℤ
  pub camera_invalid_frame_recovery_threshold : ℤ
  pub camera_invalid_frame_recovery_cooldown_frames : ℤ
  pub camera_invalid_frame_recovery_max_count : ℤ
  pub camera_recovery_max_attempts : ℤ
  pub camera_recovery_retry_delay_ms : ℤ
  pub output_dir : Text
  pub stats_output : Text
  pub tcp_host : Option Text
  pub tcp_port : ℤ
  pub tcp_queue_capacity : ℤ
  pub tcp_connect_max_attempts : ℤ
  pub tcp_connect_retry_delay_ms : ℤ
  pub tcp_send_timeout_ms : ℤ
  pub width : Option ℕ
  pub height : Option ℕ
  pub pixel_format : Option Text
  pub mmap_buffers : Option ℕ
  pub log_level : Text

abbrev pub default_config : AppConfig
default_config = record {
  config_path = codes "config/v4l2_tcp_pipeline.conf";
  device = codes "/dev/video10";
  list_formats = false;
  capture_one = false;
  save_one = false;
  capture_frames = pos 0;
  pipeline_frames = pos 0;
  ring_capacity = pos 8;
  consumer_delay_ms = pos 0;
  pipeline_save = false;
  save_limit = pos 5;
  timeout_ms = pos 2000;
  camera_recovery_enabled = true;
  camera_timeout_recovery_threshold = pos 3;
  camera_invalid_frame_recovery_threshold = pos 30;
  camera_invalid_frame_recovery_cooldown_frames = pos 300;
  camera_invalid_frame_recovery_max_count = pos 3;
  camera_recovery_max_attempts = pos 5;
  camera_recovery_retry_delay_ms = pos 1000;
  output_dir = codes "output";
  stats_output = codes "output/stats/pipeline_stats.json";
  tcp_host = none;
  tcp_port = pos 0;
  tcp_queue_capacity = pos 8;
  tcp_connect_max_attempts = pos 5;
  tcp_connect_retry_delay_ms = pos 500;
  tcp_send_timeout_ms = pos 2000;
  width = none;
  height = none;
  pixel_format = none;
  mmap_buffers = none;
  log_level = codes "INFO";
}

-- The exceptions of the file; those of `validate_app_config` come last.
pub data ConfigError : Type 0 where
  invalid_integer : Text → ConfigError
  invalid_bool : Text → ConfigError
  unknown_key : Text → ConfigError
  file_not_found : Text → ConfigError
  missing_equals : ℕ → ConfigError
  empty_key : ℕ → ConfigError
  at_line : ℕ → ConfigError → ConfigError
  config_needs_path : ConfigError
  unknown_argument : Text → ConfigError
  format_needs_all buffers_need_format one_capture_mode : ConfigError
  tcp_needs_host_and_port tcp_needs_pipeline capture_needs_buffers : ConfigError
  device_empty output_dir_empty stats_output_empty : ConfigError
  bad_tcp_port bad_capacity bad_connect_attempts bad_retry_delay bad_send_timeout : ConfigError
  bad_timeout_threshold bad_invalid_threshold bad_cooldown bad_recovery_budget : ConfigError
  bad_recovery_attempts bad_recovery_delay bad_log_level : ConfigError

pub data Result (A : Type 0) : Type 0 where
  ok : A → Result A
  err : ConfigError → Result A

infixl 20 ◌>>=◌
abbrev pub ◌>>=◌ : {A B : Type 0} → Result A → (A → Result B) → Result B
ok a >>= f = f a
err e >>= f = err e
