-- ===== src/Config/Usable.antt =====
-- `load_app_config`: which configurations it returns.
use mathlib.Core.Path.{subst}
use v4l2_capture.Prelude.{
  ℕ, ◌+◌, ◌≡◌, Bool, true, false, if-cases, List, [], ◌∷◌, Option, none, some, arith,
}
use v4l2_capture.Config.{Text, AppConfig, Result, ok, err, ◌>>=◌, default_config}
use v4l2_capture.Prelude.{refl, ◌↔◌}
use v4l2_capture.Config.Accepted.{IsConsistent, validate_app_config_iff}
use v4l2_capture.Config.Values.{trim}
use v4l2_capture.Config.Keys.{Key, key_table, lookup_text, apply_found, apply_key_value}
use v4l2_capture.Config.Args.{
  Argument, takes_value, stands_alone, argument_table, apply_option, apply_argument, apply_last,
  apply_cli_args, find_config_arg,
}
use v4l2_capture.Config.Checks.{is_empty, validate_app_config}
use v4l2_capture.Config.Load.{
  split_at, strip_comment, at, apply_entry, apply_line, apply_lines, load_config_file_into,
  load_file, load_unchecked, load_app_config,
}
use v4l2_capture.Config.Ranges.{
  InRange, Holds, bind-Holds, anything, apply_key-InRange, apply_option-InRange, apply_flag-InRange,
}

apply_found-InRange :
    (found : Option Key) (config : AppConfig) (key value : Text)
    → InRange config
    → Holds InRange (apply_found found config key value)
apply_found-InRange none config key value b = tt
apply_found-InRange (some k) config key value b = apply_key-InRange k config value b

apply_key_value-InRange :
    (config : AppConfig) (key value : Text)
    → InRange config
    → Holds InRange (apply_key_value config key value)
unfolding apply_key_value
apply_key_value-InRange config key value b =
    apply_found-InRange (lookup_text key_table key) config key value b

at-Holds : {A : Type 0} (P : A → Type 0) (n : ℕ) (r : Result A) → Holds P r → Holds P (at n r)
at-Holds P n (ok a) h = h
at-Holds P n (err e) h = tt

apply_entry-InRange :
    (entry : Option (Text × Text)) (config : AppConfig) (line_no : ℕ)
    → InRange config
    → Holds InRange (apply_entry entry config line_no)
apply_entry-InRange none config line_no b = tt
apply_entry-InRange (some (key, value)) config line_no b =
    if-cases (Holds InRange) (is_empty (trim key)) _ _ (λ _. tt)
      (λ _. at-Holds InRange line_no _ (apply_key_value-InRange config (trim key) (trim value) b))

apply_line-InRange :
    (config : AppConfig) (line_no : ℕ) (line : Text)
    → InRange config
    → Holds InRange (apply_line config line_no line)
unfolding apply_line
apply_line-InRange config line_no line b =
    if-cases (Holds InRange) (is_empty (strip_comment line)) _ _ (λ _. b)
      (λ _. apply_entry-InRange (split_at 61 (strip_comment line)) config line_no b)

apply_lines-InRange :
    (config : AppConfig) (line_no : ℕ) (lines : List Text)
    → InRange config
    → Holds InRange (apply_lines config line_no lines)
unfolding apply_lines
apply_lines-InRange config line_no [] b = b
apply_lines-InRange config line_no (line ∷ rest) b =
    bind-Holds InRange InRange (apply_line config (line_no + 1) line) _
      (apply_line-InRange config (line_no + 1) line b)
      (λ c b'. apply_lines-InRange c (line_no + 1) rest b')

load_config_file_into-InRange :
    (config : AppConfig) (path : Text) (required : Bool) (lines : Option (List Text))
    → InRange config
    → Holds InRange (load_config_file_into config path required lines)
unfolding load_config_file_into
load_config_file_into-InRange config path true none b = tt
load_config_file_into-InRange config path false none b = b
load_config_file_into-InRange config path required (some lines) b =
    apply_lines-InRange config 0 lines b

apply_last-InRange :
    (argument : Option Argument) (config : AppConfig) (arg : Text)
    → InRange config
    → Holds InRange (apply_last argument config arg)
apply_last-InRange none config arg b = tt
apply_last-InRange (some (takes_value option)) config arg b = tt
apply_last-InRange (some (stands_alone flag)) config arg b = apply_flag-InRange flag config b

apply_argument-InRange :
    (argument : Option Argument) (config : AppConfig) (arg value : Text)
    (after_arg after_value : AppConfig → Result AppConfig)
    → InRange config
    → ((c : AppConfig) → InRange c → Holds InRange (after_arg c))
    → ((c : AppConfig) → InRange c → Holds InRange (after_value c))
    → Holds InRange (apply_argument argument config arg value after_arg after_value)
apply_argument-InRange none config arg value f g b p q = tt
apply_argument-InRange (some (stands_alone flag)) config arg value f g b p q =
    p _ (apply_flag-InRange flag config b)
apply_argument-InRange (some (takes_value option)) config arg value f g b p q =
    bind-Holds InRange InRange (apply_option option config value) _
      (apply_option-InRange option config value b) q

apply_cli_args-InRange :
    (config : AppConfig) (args : List Text)
    → InRange config
    → Holds InRange (apply_cli_args config args)
unfolding apply_cli_args
apply_cli_args-InRange config [] b = b
apply_cli_args-InRange config (arg ∷ []) b =
    apply_last-InRange (lookup_text argument_table arg) config arg b
apply_cli_args-InRange config (arg ∷ value ∷ rest) b =
    apply_argument-InRange (lookup_text argument_table arg) config arg value _ _ b
      (λ c b'. apply_cli_args-InRange c (value ∷ rest) b')
      (λ c b'. apply_cli_args-InRange c rest b')

default-InRange : (path : Text) → InRange (record default_config { config_path = path })
default-InRange path = ground arith

load_file-InRange :
    (file : Text → Option (List Text)) (path : Option Text) → Holds InRange (load_file file path)
unfolding load_file
load_file-InRange file none =
    load_config_file_into-InRange default_config default_config.config_path false
      (file default_config.config_path) (default-InRange default_config.config_path)
load_file-InRange file (some path) =
    load_config_file_into-InRange (record default_config { config_path = path }) path true
      (file path) (default-InRange path)

load_unchecked-InRange :
    (file : Text → Option (List Text)) (args : List Text) → Holds InRange (load_unchecked file args)
unfolding load_unchecked load_file
load_unchecked-InRange file args =
    bind-Holds _ InRange (find_config_arg args) _ (anything (find_config_arg args)) (λ path _.
      bind-Holds InRange InRange (load_file file path) _ (load_file-InRange file path)
        (λ config b. apply_cli_args-InRange config args b))

loaded-InRange :
    (r : Result AppConfig) (config : AppConfig) → r ≡ ok config → Holds InRange r → InRange config
loaded-InRange r config e h = subst (Holds InRange) e h

-- What the last two steps of `load_app_config` make of what was parsed.
validated : (r : Result AppConfig) → Result AppConfig
validated r = r >>= (λ c. validate_app_config c >>= (λ _. ok c))

checked_ok :
    (v : Result (Unit {0})) (c config : AppConfig)
    → (v >>= (λ _. ok c)) ≡ ok config
    → (v ≡ ok tt) × (ok c ≡ ok config)
checked_ok (ok tt) c config e = (refl, e)
checked_ok (err x) c config e = cc

validated_ok :
    (r : Result AppConfig) (config : AppConfig)
    → validated r ≡ ok config
    → (r ≡ ok config) × (validate_app_config config ≡ ok tt)
unfolding validated
validated_ok (ok c) config e =
    let (passed, same) = checked_ok (validate_app_config c) c config e in
    (same, subst (λ (d : AppConfig). validate_app_config d ≡ ok tt) (cc same) passed)
validated_ok (err x) config e = cc

validated_back :
    (r : Result AppConfig) (config : AppConfig)
    → r ≡ ok config
    → validate_app_config config ≡ ok tt
    → validated r ≡ ok config
unfolding validated
validated_back r config e passed = rw (e, passed) refl

-- Every configuration that the file and the arguments parse to has the numbers that
-- `validate_app_config` tests in the ranges that it asks for, so that `load_app_config` returns a
-- configuration exactly when they parse to it and its options fit together (the format, the buffers,
-- the mode, TCP, the paths and the log level): after a parse without error the tests on numbers refuse
-- nothing.
pub load_app_config_iff :
    (file : Text → Option (List Text)) (args : List Text) (config : AppConfig)
    → Holds InRange (load_unchecked file args)
      × ((load_app_config file args ≡ ok config)
          ↔ ((load_unchecked file args ≡ ok config) × IsConsistent config))
unfolding load_app_config validated
load_app_config_iff file args config =
    let ranges = load_unchecked-InRange file args in
    (
      ranges,
      (
        λ e.
            let (loaded, passed) = validated_ok (load_unchecked file args) config e in
            (loaded, ((validate_app_config_iff config).0 passed).0),
        λ h. validated_back (load_unchecked file args) config h.0 (
            (validate_app_config_iff config).1
              (h.1, loaded-InRange (load_unchecked file args) config h.0 ranges)),
      ),
    )
