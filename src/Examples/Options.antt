-- ===== src/Examples/Options.antt =====
-- A configuration of src/app_config.cpp: a file that selects the pipeline, and arguments that add the
-- format, the buffers and TCP.
use v4l2_capture.Prelude.{List, [], ◌∷◌, Option, some, ◌≡◌, refl}
use v4l2_capture.Prelude.Int.{pos}
use v4l2_capture.Config.{Text, codes, AppConfig, ok, err, default_config, capture_needs_buffers}
use v4l2_capture.Config.Load.{load_unchecked, load_app_config}
use v4l2_capture.Config.Ranges.{InRange, Holds}
use v4l2_capture.Config.Accepted.{IsConsistent}
use v4l2_capture.Prelude.{◌↔◌}
use v4l2_capture.Config.Usable.{load_app_config_iff}

abbrev file : Text → Option (List Text)
file path = some (codes "pipeline_frames = 5  # a comment" ∷ codes "" ∷ [])

abbrev arguments : List Text
arguments =
    codes "--width"
    ∷ codes "640"
    ∷ codes "--height"
    ∷ codes "480"
    ∷ codes "--format"
    ∷ codes "YUYV"
    ∷ codes "--mmap-buffers"
    ∷ codes "4"
    ∷ codes "--tcp-host"
    ∷ codes "127.0.0.1"
    ∷ codes "--tcp-port"
    ∷ codes "9000"
    ∷ []

abbrev usable : AppConfig
usable = record default_config {
  pipeline_frames = pos 5;
  width = some 640;
  height = some 480;
  pixel_format = some (codes "YUYV");
  mmap_buffers = some 4;
  tcp_host = some (codes "127.0.0.1");
  tcp_port = pos 9000;
}

-- The file alone selects the pipeline without buffers, which is refused.
refused : load_app_config file [] ≡ err capture_needs_buffers
unfolding load_app_config
refused = refl

loaded : load_app_config file arguments ≡ ok usable
unfolding load_app_config
loaded = refl

load_app_config_iff_example :
    Holds InRange (load_unchecked file arguments)
    × ((load_app_config file arguments ≡ ok usable)
        ↔ ((load_unchecked file arguments ≡ ok usable) × IsConsistent usable))
load_app_config_iff_example = load_app_config_iff file arguments usable
