-- ===== src/Examples/Settings.antt =====
-- The example of the configuration at concrete inputs.
use goshield_bootcamp.Programs.Settings.{World, Flags, crashed, main}
use goshield_bootcamp.Programs.Settings.Crash.{main_crashes, is_crash}
use goshield_bootcamp.Config.Json.{Json, load_file, is_full, load_bytes}
use goshield_bootcamp.Config.Environment.{
  apply_env_overrides, apply_env, apply_env_uint8, apply_env_uint32, apply_env_int,
  apply_env_float64,
}
use goshield_bootcamp.Config.Validate.{validate}
use goshield_bootcamp.Config.Defaults.{default_config}
use goshield_bootcamp.Config.Types.{Config}
use goshield_bootcamp.Base.{not, ℕ, ◌≡◌, refl, false, some, none}
use goshield_bootcamp.Examples.Fixed.{fixed}

-- A file that says `"rate_limiter": null`, and nothing else.
abbrev json : Json ℕ ℕ
json = record {
  nil = 0;
  marshal = λ c. some 1;
  marshal_indent = λ c. some 1;
  unmarshal = λ bytes c. (record c { rate_limiter = none }, false);
}

abbrev world : World ℕ ℕ
world = record {
  read_file = λ path. some 5;
  stat = λ path. some (record { mod_time = 3; size = 40 });
  env = record {
    getenv = λ key. "";
    atoi = λ v. none;
    parse_uint = λ bits v. none;
    parse_float = λ v. none;
    parse_bool = λ v. none;
  };
}

abbrev flags : Flags
flags = record { file = "goshield.json"; preset = ""; show_json = false }

abbrev loaded : Config ℕ
loaded = record (default_config fixed) { rate_limiter = none }

main_crashes_example : is_crash (main fixed json world flags).ending ≡ not (is_full loaded)
unfolding default_config load_file load_bytes apply_env_overrides apply_env apply_env_uint8
    apply_env_uint32 apply_env_int apply_env_float64 validate
main_crashes_example = main_crashes fixed json world flags loaded refl refl refl refl

crashes_without_limiter : (main fixed json world flags).ending ≡ crashed
unfolding main default_config load_file load_bytes apply_env_overrides apply_env apply_env_uint8
    apply_env_uint32 apply_env_int apply_env_float64 validate
crashes_without_limiter = refl
