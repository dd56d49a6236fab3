-- ===== src/Config/Args.antt =====
-- `apply_cli_args` and `find_config_arg`: the arguments of the command line after the program's name.
use v4l2_capture.Prelude.{true, false, if◌then◌else◌, List, [], ◌∷◌, Option, none, some, bytes_eq}
use v4l2_capture.Config.{
  Text, codes, AppConfig, unknown_argument, config_needs_path, Result, ok, err, ◌>>=◌,
}
use v4l2_capture.Config.Values.{
  parse_positive_int, parse_non_negative_int, parse_u32_value, default_max_value,
}
use v4l2_capture.Config.Keys.{lookup_text}

-- The arguments that take the next one as their value, and those that do not.
pub data ValueOption : Type 0 where
  config_option device_option width_option height_option format_option mmap_buffers_option :
      ValueOption
  frames_option pipeline_frames_option ring_capacity_option consumer_delay_ms_option : ValueOption
  save_limit_option output_option stats_output_option tcp_host_option tcp_port_option : ValueOption
  tcp_queue_capacity_option tcp_connect_max_attempts_option tcp_connect_retry_delay_ms_option :
      ValueOption
  tcp_send_timeout_ms_option timeout_ms_option camera_timeout_recovery_threshold_option :
      ValueOption
  camera_invalid_frame_recovery_threshold_option : ValueOption
  camera_invalid_frame_recovery_cooldown_frames_option : ValueOption
  camera_invalid_frame_recovery_max_count_option camera_recovery_max_attempts_option : ValueOption
  camera_recovery_retry_delay_ms_option log_level_option : ValueOption

pub data Flag : Type 0 where
  list_formats_flag capture_one_flag save_one_flag pipeline_save_flag camera_recovery_flag : Flag
  no_camera_recovery_flag help_flag : Flag

pub data Argument : Type 0 where
  takes_value : ValueOption → Argument
  stands_alone : Flag → Argument

abbrev pub argument_table : List (Text × Argument)
argument_table =
    (codes "--config", takes_value config_option)
    ∷ (codes "--device", takes_value device_option)
    ∷ (codes "-d", takes_value device_option)
    ∷ (codes "--list-formats", stands_alone list_formats_flag)
    ∷ (codes "--width", takes_value width_option)
    ∷ (codes "--height", takes_value height_option)
    ∷ (codes "--format", takes_value format_option)
    ∷ (codes "--mmap-buffers", takes_value mmap_buffers_option)
    ∷ (codes "--capture-one", stands_alone capture_one_flag)
    ∷ (codes "--save-one", stands_alone save_one_flag)
    ∷ (codes "--frames", takes_value frames_option)
    ∷ (codes "--capture-frames", takes_value frames_option)
    ∷ (codes "--pipeline-frames", takes_value pipeline_frames_option)
    ∷ (codes "--ring-capacity", takes_value ring_capacity_option)
    ∷ (codes "--consumer-delay-ms", takes_value consumer_delay_ms_option)
    ∷ (codes "--pipeline-save", stands_alone pipeline_save_flag)
    ∷ (codes "--save-limit", takes_value save_limit_option)
    ∷ (codes "--output", takes_value output_option)
    ∷ (codes "--stats-output", takes_value stats_output_option)
    ∷ (codes "--tcp-host", takes_value tcp_host_option)
    ∷ (codes "--tcp-port", takes_value tcp_port_option)
    ∷ (codes "--tcp-queue-capacity", takes_value tcp_queue_capacity_option)
    ∷ (codes "--tcp-connect-max-attempts", takes_value tcp_connect_max_attempts_option)
    ∷ (codes "--tcp-connect-retry-delay-ms", takes_value tcp_connect_retry_delay_ms_option)
    ∷ (codes "--tcp-send-timeout-ms", takes_value tcp_send_timeout_ms_option)
    ∷ (codes "--timeout-ms", takes_value timeout_ms_option)
    ∷ (codes "--camera-recovery", stands_alone camera_recovery_flag)
    ∷ (codes "--no-camera-recovery", stands_alone no_camera_recovery_flag)
    ∷ (
      codes "--camera-timeout-recovery-threshold",
      takes_value camera_timeout_recovery_threshold_option,
    )
    ∷ (
      codes "--camera-invalid-frame-recovery-threshold",
      takes_value camera_invalid_frame_recovery_threshold_option,
    )
    ∷ (
      codes "--camera-invalid-frame-recovery-cooldown-frames",
      takes_value camera_invalid_frame_recovery_cooldown_frames_option,
    )
    ∷ (
      codes "--camera-invalid-frame-recovery-max-count",
      takes_value camera_invalid_frame_recovery_max_count_option,
    )
    ∷ (codes "--camera-recovery-max-attempts", takes_value camera_recovery_max_attempts_option)
    ∷ (codes "--camera-recovery-retry-delay-ms", takes_value camera_recovery_retry_delay_ms_option)
    ∷ (codes "--log-level", takes_value log_level_option)
    ∷ (codes "--help", stands_alone help_flag)
    ∷ (codes "-h", stands_alone help_flag)
    ∷ []

unfoldable pub apply_option : ValueOption → AppConfig → Text → Result AppConfig
unfolding parse_positive_int parse_non_negative_int parse_u32_value
apply_option config_option config value = ok (record config { config_path = value })
apply_option device_option config value = ok (record config { device = value })
apply_option width_option config value = do
  v ← parse_u32_value value
  ok (record config { width = some v })
apply_option height_option config value = do
  v ← parse_u32_value value
  ok (record config { height = some v })
apply_option format_option config value = ok (record config { pixel_format = some value })
apply_option mmap_buffers_option config value = do
  v ← parse_u32_value value
  ok (record config { mmap_buffers = some v })
apply_option frames_option config value = do
  v ← parse_positive_int value default_max_value
  ok (record config { capture_frames = v })
apply_option pipeline_frames_option config value = do
  v ← parse_positive_int value default_max_value
  ok (record config { pipeline_frames = v })
apply_option ring_capacity_option config value = do
  v ← parse_positive_int value default_max_value
  ok (record config { ring_capacity = v })
apply_option consumer_delay_ms_option config value = do
  v ← parse_non_negative_int value default_max_value
  ok (record config { consumer_delay_ms = v })
apply_option save_limit_option config value = do
  v ← parse_positive_int value default_max_value
  ok (record config { save_limit = v })
apply_option output_option config value = ok (record config { output_dir = value })
apply_option stats_output_option config value = ok (record config { stats_output = value })
apply_option tcp_host_option config value = ok (record config { tcp_host = some value })
apply_option tcp_port_option config value = do
  v ← parse_positive_int value 65535
  ok (record config { tcp_port = v })
apply_option tcp_queue_capacity_option config value = do
  v ← parse_positive_int value default_max_value
  ok (record config { tcp_queue_capacity = v })
apply_option tcp_connect_max_attempts_option config value = do
  v ← parse_positive_int value 1000
  ok (record config { tcp_connect_max_attempts = v })
apply_option tcp_connect_retry_delay_ms_option config value = do
  v ← parse_non_negative_int value 60000
  ok (record config { tcp_connect_retry_delay_ms = v })
apply_option tcp_send_timeout_ms_option config value = do
  v ← parse_positive_int value 600000
  ok (record config { tcp_send_timeout_ms = v })
apply_option timeout_ms_option config value = do
  v ← parse_positive_int value default_max_value
  ok (record config { timeout_ms = v })
apply_option camera_timeout_recovery_threshold_option config value = do
  v ← parse_positive_int value 1000
  ok (record config { camera_timeout_recovery_threshold = v })
apply_option camera_invalid_frame_recovery_threshold_option config value = do
  v ← parse_positive_int value 1000
  ok (record config { camera_invalid_frame_recovery_threshold = v })
apply_option camera_invalid_frame_recovery_cooldown_frames_option config value = do
  v ← parse_non_negative_int value 1000000
  ok (record config { camera_invalid_frame_recovery_cooldown_frames = v })
apply_option camera_invalid_frame_recovery_max_count_option config value = do
  v ← parse_positive_int value 1000
  ok (record config { camera_invalid_frame_recovery_max_count = v })
apply_option camera_recovery_max_attempts_option config value = do
  v ← parse_positive_int value 1000
  ok (record config { camera_recovery_max_attempts = v })
apply_option camera_recovery_retry_delay_ms_option config value = do
  v ← parse_non_negative_int value 600000
  ok (record config { camera_recovery_retry_delay_ms = v })
apply_option log_level_option config value = ok (record config { log_level = value })

unfoldable pub apply_flag : Flag → AppConfig → AppConfig
apply_flag list_formats_flag config = record config { list_formats = true }
apply_flag capture_one_flag config = record config { capture_one = true }
apply_flag save_one_flag config = record config { save_one = true }
apply_flag pipeline_save_flag config = record config { pipeline_save = true }
apply_flag camera_recovery_flag config = record config { camera_recovery_enabled = true }
apply_flag no_camera_recovery_flag config = record config { camera_recovery_enabled = false }
apply_flag help_flag config = config

-- What the loop does with an argument that others follow: it goes on after the argument, or after
-- the value of the argument.
abbrev pub apply_argument :
    Option Argument
    → AppConfig
    → Text
    → Text
    → (AppConfig → Result AppConfig)
    → (AppConfig → Result AppConfig)
    → Result AppConfig
apply_argument none config arg value after_arg after_value = err (unknown_argument arg)
apply_argument (some (stands_alone flag)) config arg value after_arg after_value =
    after_arg (apply_flag flag config)
apply_argument (some (takes_value option)) config arg value after_arg after_value = do
  c ← apply_option option config value
  after_value c

-- The last argument. One that takes a value has none, and is refused.
abbrev pub apply_last : Option Argument → AppConfig → Text → Result AppConfig
apply_last none config arg = err (unknown_argument arg)
apply_last (some (stands_alone flag)) config arg = ok (apply_flag flag config)
apply_last (some (takes_value option)) config arg = err (unknown_argument arg)

-- The loop over `argv`.
unfoldable pub apply_cli_args : AppConfig → List Text → Result AppConfig
unfolding lookup_text apply_option apply_flag
apply_cli_args config [] = ok config
apply_cli_args config (arg ∷ []) = apply_last (lookup_text argument_table arg) config arg
apply_cli_args config (arg ∷ value ∷ rest) =
    apply_argument (lookup_text argument_table arg) config arg value
      (λ c. apply_cli_args c (value ∷ rest)) (λ c. apply_cli_args c rest)

-- The value of the first `--config`.
unfoldable pub find_config_arg : List Text → Result (Option Text)
find_config_arg [] = ok none
find_config_arg (arg ∷ []) =
    if bytes_eq arg (codes "--config") then err config_needs_path else ok none
find_config_arg (arg ∷ value ∷ rest) =
    let more = find_config_arg (value ∷ rest) in
    if bytes_eq arg (codes "--config") then ok (some value) else more
