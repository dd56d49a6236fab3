-- ===== src/Config/Keys.antt =====
-- `apply_key_value`: one entry of the configuration file.
use v4l2_capture.Prelude.{if◌then◌else◌, List, [], ◌∷◌, Option, none, some, bytes_eq}
use v4l2_capture.Config.{Text, codes, AppConfig, unknown_key, Result, ok, err, ◌>>=◌}
use v4l2_capture.Config.Values.{
  parse_positive_int, parse_non_negative_int, parse_u32_value, parse_bool, default_max_value,
}

-- The tests of the chain; two keys share a branch in two places.
pub data Key : Type 0 where
  device_key list_formats_key width_key height_key format_key mmap_buffers_key capture_one_key : Key
  save_one_key capture_frames_key frames_key ring_capacity_key consumer_delay_ms_key : Key
  pipeline_save_key save_limit_key output_dir_key stats_output_key tcp_host_key tcp_port_key : Key
  tcp_queue_capacity_key tcp_connect_max_attempts_key tcp_connect_retry_delay_ms_key : Key
  tcp_send_timeout_ms_key timeout_ms_key camera_recovery_enabled_key : Key
  camera_timeout_recovery_threshold_key camera_invalid_frame_recovery_threshold_key : Key
  camera_invalid_frame_recovery_cooldown_frames_key : Key
  camera_invalid_frame_recovery_max_count_key camera_recovery_max_attempts_key : Key
  camera_recovery_retry_delay_ms_key log_level_key : Key

-- The first of the keys that equals a text.
unfoldable pub lookup_text : {K : Type 0} → List (Text × K) → Text → Option K
lookup_text [] text = none
lookup_text ((t, key) ∷ rest) text =
    let more = lookup_text rest text in if bytes_eq text t then some key else more

abbrev pub key_table : List (Text × Key)
key_table =
    (codes "device", device_key)
    ∷ (codes "list_formats", list_formats_key)
    ∷ (codes "width", width_key)
    ∷ (codes "height", height_key)
    ∷ (codes "format", format_key)
    ∷ (codes "pixel_format", format_key)
    ∷ (codes "mmap_buffers", mmap_buffers_key)
    ∷ (codes "capture_one", capture_one_key)
    ∷ (codes "save_one", save_one_key)
    ∷ (codes "capture_frames", capture_frames_key)
    ∷ (codes "frames", frames_key)
    ∷ (codes "pipeline_frames", frames_key)
    ∷ (codes "ring_capacity", ring_capacity_key)
    ∷ (codes "consumer_delay_ms", consumer_delay_ms_key)
    ∷ (codes "pipeline_save", pipeline_save_key)
    ∷ (codes "save_limit", save_limit_key)
    ∷ (codes "output_dir", output_dir_key)
    ∷ (codes "stats_output", stats_output_key)
    ∷ (codes "tcp_host", tcp_host_key)
    ∷ (codes "tcp_port", tcp_port_key)
    ∷ (codes "tcp_queue_capacity", tcp_queue_capacity_key)
    ∷ (codes "tcp_connect_max_attempts", tcp_connect_max_attempts_key)
    ∷ (codes "tcp_connect_retry_delay_ms", tcp_connect_retry_delay_ms_key)
    ∷ (codes "tcp_send_timeout_ms", tcp_send_timeout_ms_key)
    ∷ (codes "timeout_ms", timeout_ms_key)
    ∷ (codes "camera_recovery_enabled", camera_recovery_enabled_key)
    ∷ (codes "camera_timeout_recovery_threshold", camera_timeout_recovery_threshold_key)
    ∷ (codes "camera_invalid_frame_recovery_threshold", camera_invalid_frame_recovery_threshold_key)
    ∷ (
      codes "camera_invalid_frame_recovery_cooldown_frames",
      camera_invalid_frame_recovery_cooldown_frames_key,
    )
    ∷ (codes "camera_invalid_frame_recovery_max_count", camera_invalid_frame_recovery_max_count_key)
    ∷ (codes "camera_recovery_max_attempts", camera_recovery_max_attempts_key)
    ∷ (codes "camera_recovery_retry_delay_ms", camera_recovery_retry_delay_ms_key)
    ∷ (codes "log_level", log_level_key)
    ∷ []

-- The branches of the chain. An empty `tcp_host` clears it.
unfoldable pub apply_key : Key → AppConfig → Text → Result AppConfig
unfolding parse_positive_int parse_non_negative_int parse_u32_value parse_bool
apply_key device_key config value = ok (record config { device = value })
apply_key list_formats_key config value = do
  v ← parse_bool value
  ok (record config { list_formats = v })
apply_key width_key config value = do
  v ← parse_u32_value value
  ok (record config { width = some v })
apply_key height_key config value = do
  v ← parse_u32_value value
  ok (record config { height = some v })
apply_key format_key config value = ok (record config { pixel_format = some value })
apply_key mmap_buffers_key config value = do
  v ← parse_u32_value value
  ok (record config { mmap_buffers = some v })
apply_key capture_one_key config value = do
  v ← parse_bool value
  ok (record config { capture_one = v })
apply_key save_one_key config value = do v ← parse_bool value; ok (record config { save_one = v })
apply_key capture_frames_key config value = do
  v ← parse_non_negative_int value default_max_value
  ok (record config { capture_frames = v })
apply_key frames_key config value = do
  v ← parse_non_negative_int value default_max_value
  ok (record config { pipeline_frames = v })
apply_key ring_capacity_key config value = do
  v ← parse_positive_int value default_max_value
  ok (record config { ring_capacity = v })
apply_key consumer_delay_ms_key config value = do
  v ← parse_non_negative_int value default_max_value
  ok (record config { consumer_delay_ms = v })
apply_key pipeline_save_key config value = do
  v ← parse_bool value
  ok (record config { pipeline_save = v })
apply_key save_limit_key config value = do
  v ← parse_positive_int value default_max_value
  ok (record config { save_limit = v })
apply_key output_dir_key config value = ok (record config { output_dir = value })
apply_key stats_output_key config value = ok (record config { stats_output = value })
apply_key tcp_host_key config [] = ok (record config { tcp_host = none })
apply_key tcp_host_key config (c ∷ value) = ok (record config { tcp_host = some (c ∷ value) })
apply_key tcp_port_key config value = do
  v ← parse_non_negative_int value 65535
  ok (record config { tcp_port = v })
apply_key tcp_queue_capacity_key config value = do
  v ← parse_positive_int value default_max_value
  ok (record config { tcp_queue_capacity = v })
apply_key tcp_connect_max_attempts_key config value = do
  v ← parse_positive_int value 1000
  ok (record config { tcp_connect_max_attempts = v })
apply_key tcp_connect_retry_delay_ms_key config value = do
  v ← parse_non_negative_int value 60000
  ok (record config { tcp_connect_retry_delay_ms = v })
apply_key tcp_send_timeout_ms_key config value = do
  v ← parse_positive_int value 600000
  ok (record config { tcp_send_timeout_ms = v })
apply_key timeout_ms_key config value = do
  v ← parse_positive_int value default_max_value
  ok (record config { timeout_ms = v })
apply_key camera_recovery_enabled_key config value = do
  v ← parse_bool value
  ok (record config { camera_recovery_enabled = v })
apply_key camera_timeout_recovery_threshold_key config value = do
  v ← parse_positive_int value 1000
  ok (record config { camera_timeout_recovery_threshold = v })
apply_key camera_invalid_frame_recovery_threshold_key config value = do
  v ← parse_positive_int value 1000
  ok (record config { camera_invalid_frame_recovery_threshold = v })
apply_key camera_invalid_frame_recovery_cooldown_frames_key config value = do
  v ← parse_non_negative_int value 1000000
  ok (record config { camera_invalid_frame_recovery_cooldown_frames = v })
apply_key camera_invalid_frame_recovery_max_count_key config value = do
  v ← parse_positive_int value 1000
  ok (record config { camera_invalid_frame_recovery_max_count = v })
apply_key camera_recovery_max_attempts_key config value = do
  v ← parse_positive_int value 1000
  ok (record config { camera_recovery_max_attempts = v })
apply_key camera_recovery_retry_delay_ms_key config value = do
  v ← parse_non_negative_int value 600000
  ok (record config { camera_recovery_retry_delay_ms = v })
apply_key log_level_key config value = ok (record config { log_level = value })

abbrev pub apply_found : Option Key → AppConfig → Text → Text → Result AppConfig
apply_found none config key value = err (unknown_key key)
apply_found (some k) config key value = apply_key k config value

unfoldable pub apply_key_value : AppConfig → Text → Text → Result AppConfig
unfolding lookup_text apply_key
apply_key_value config key value = apply_found (lookup_text key_table key) config key value
