-- ===== src/Config/Load.antt =====
-- `load_config_file_into` and `load_app_config`. The lines of the file are a parameter: what
-- `std::getline` gives, or none when the file cannot be opened.
use v4l2_capture.Prelude.{
  ℕ, ◌+◌, Bool, true, false, ◌==◌, if◌then◌else◌, List, [], ◌∷◌, Option, none, some,
}
use v4l2_capture.Config.{Text, AppConfig, Result, ok, err, ◌>>=◌, default_config}
use v4l2_capture.Config.{file_not_found, missing_equals, empty_key, at_line}
use v4l2_capture.Config.Values.{trim}
use v4l2_capture.Config.Keys.{apply_key_value}
use v4l2_capture.Config.Args.{apply_cli_args, find_config_arg}
use v4l2_capture.Config.Checks.{is_empty, validate_app_config}

-- What stands before and after the first character `c`; none if there is none.
unfoldable pub split_at : ℕ → Text → Option (Text × Text)
split_at c [] = none
split_at c (d ∷ text) =
    let more = split_at c text in
    if d == c then some ([], text) else (elim more [ none ↦ none | some p ↦ some (d ∷ p.0, p.1) ])

-- The comment from `#` on is cut off, and the blanks around the rest.
unfoldable pub strip_comment : Text → Text
unfolding split_at trim
strip_comment line = elim (split_at 35 line) [ none ↦ trim line | some p ↦ trim (p.0) ]

abbrev pub at : {A : Type 0} → ℕ → Result A → Result A
at line_no (ok a) = ok a
at line_no (err e) = err (at_line line_no e)

-- The key and the value of a line.
abbrev pub apply_entry : Option (Text × Text) → AppConfig → ℕ → Result AppConfig
apply_entry none config line_no = err (missing_equals line_no)
apply_entry (some (key, value)) config line_no =
    if is_empty (trim key)
    then err (empty_key line_no)
    else at line_no (apply_key_value config (trim key) (trim value))

-- One round of the loop on a line.
unfoldable pub apply_line : AppConfig → ℕ → Text → Result AppConfig
unfolding split_at strip_comment apply_key_value
apply_line config line_no line =
    let line = strip_comment line in
    if is_empty line then ok config else apply_entry (split_at 61 line) config line_no

unfoldable pub apply_lines : AppConfig → ℕ → List Text → Result AppConfig
unfolding apply_line
apply_lines config line_no [] = ok config
apply_lines config line_no (line ∷ rest) = do
  c ← apply_line config (line_no + 1) line
  apply_lines c (line_no + 1) rest

unfoldable pub load_config_file_into :
    AppConfig → Text → Bool → Option (List Text) → Result AppConfig
unfolding apply_lines
load_config_file_into config path required none =
    if required then err (file_not_found path) else ok config
load_config_file_into config path required (some lines) = apply_lines config 0 lines

-- `file path` has the lines of the file at `path`; `args` are the arguments after the program.
module _ (file : Text → Option (List Text)) where
  -- The configuration from the file that is to be read.
  unfoldable pub load_file : Option Text → Result AppConfig
  unfolding load_config_file_into
  load_file none =
      load_config_file_into default_config default_config.config_path false
        (file default_config.config_path)
  load_file (some path) =
      load_config_file_into (record default_config { config_path = path }) path true (file path)

  unfoldable pub load_unchecked : List Text → Result AppConfig
  unfolding find_config_arg load_file apply_cli_args
  load_unchecked args = do
    path ← find_config_arg args
    config ← load_file path
    apply_cli_args config args

  unfoldable pub load_app_config : List Text → Result AppConfig
  unfolding load_unchecked validate_app_config
  load_app_config args = do config ← load_unchecked args; _ ← validate_app_config config; ok config
