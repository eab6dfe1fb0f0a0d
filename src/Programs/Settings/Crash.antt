-- ===== src/Programs/Settings/Crash.antt =====
-- When the example of the configuration panics (examples/config/main.go).
use goshield_bootcamp.Programs.Settings.{
  Ran, Flags, World, Ending, completed, stopped, exited, summary, crashed, run_watcher, hot_reload,
  environment_examples, checked, prepared, main,
}
use goshield_bootcamp.Config.Watcher.{Watcher}
use goshield_bootcamp.Config.Json.{Json, load_file, is_full}
use goshield_bootcamp.Config.Environment.{
  Env, apply_env_overrides, override_breaker, override_adaptive, override_retry,
  override_rate_limiter, override_timeout, override_bulkhead, override_metrics, override_http,
}
use goshield_bootcamp.Config.Validate.{validate}
use goshield_bootcamp.Config.Types.{Config}
use goshield_bootcamp.Base.Go.{is_err}
use mathlib.Core.Option.{map}
use goshield_bootcamp.Base.Float.{Float64}
use goshield_bootcamp.Base.{
  ◌≡◌, ◌≢◌, refl, inl, inr, ◌∙◌, Bool, Bool-cases, not, ap, true, false, Option, none, some,
  if◌then◌else◌, arith,
}
use Prim.Native.String.{String}
use text.Mathlib.Text.{◌==◌}

abbrev pub is_crash : Ending → Bool
is_crash crashed = true
is_crash _ = false

survives : (e : Ending) → e ≢ crashed → is_crash e ≡ false
survives crashed h = absurd (h refl)
survives completed h = refl
survives (stopped w) h = refl
survives (exited f) h = refl

run_watcher_survives {ℓ κ} :
    (B : Type ℓ) (F : Type κ) (w : Option Watcher)
    → (run_watcher {B = B} {F = F} w).ending ≢ crashed
unfolding run_watcher
run_watcher_survives B F none h = ground arith
run_watcher_survives B F (some w) h = ground arith

module _ {ℓ κ} {B : Type ℓ} {F : Type κ} where
  summary-ending :
      (cfg : Config F) (rest : Ran B F)
      → (summary cfg rest).ending ≡ (if is_full cfg then rest.ending else crashed)
  unfolding summary
  summary-ending cfg rest = ground arith

  hot_reload_survives :
      (world : World B F) (file : String) → (hot_reload world file).ending ≢ crashed
  unfolding hot_reload environment_examples
  hot_reload_survives world file = elim (Bool-cases (file == "")) [
    | inl none' ↦ rw (none') (λ h. ground arith)
    | inr set ↦ rw (set) (run_watcher_survives B F _)
  ]

is_err-map {ℓ κ} :
    {A : Type ℓ} {B : Type κ} (f : A → B) (x : Option A) → is_err (map f x) ≡ is_err x
is_err-map f none = refl
is_err-map f (some x) = refl

is_full-apply_env_overrides {ℓ} :
    {F : Type ℓ} (env : Env F) (c : Config F) → is_full (apply_env_overrides env c) ≡ is_full c
unfolding apply_env_overrides
is_full-apply_env_overrides env c = rw (
  is_err-map (override_breaker env) c.circuit_breaker,
  is_err-map (override_adaptive env) c.adaptive,
  is_err-map (override_retry env) c.retry,
  is_err-map (override_rate_limiter env) c.rate_limiter,
  is_err-map (override_timeout env) c.timeout,
  is_err-map (override_bulkhead env) c.bulkhead,
  is_err-map (override_metrics env) c.metrics,
  is_err-map (override_http env) c.http,
)

module _ {ℓ κ} {B : Type ℓ} {F : Type κ} (float : Float64 F) (json : Json B F)
    (world : World B F) where
  checked-crashes :
      (flags : Flags) (cfg : Config F)
      → flags.show_json ≡ false
      → is_crash (checked float json world flags cfg none).ending ≡ not (is_full cfg)
  unfolding checked
  checked-crashes flags cfg h =
      let e = summary-ending cfg (hot_reload world flags.file) in
      let live =
        survives (hot_reload world flags.file).ending (hot_reload_survives world flags.file) in
      elim (Bool-cases (is_full cfg)) [ inl part ↦ ground arith | inr full ↦ ground arith ]

  -- A configuration file that loads, and that is valid with the overrides of the environment: the
  -- example, unless it dumps JSON, panics exactly if a section of the file is nil, which the
  -- validation lets through.
  pub main_crashes :
      (flags : Flags) (cfg : Config F)
      → (flags.file == "") ≡ false
      → flags.show_json ≡ false
      → load_file json float (world.read_file flags.file) ≡ some cfg
      → validate float (apply_env_overrides world.env cfg) ≡ none
      → is_crash (main float json world flags).ending ≡ not (is_full cfg)
  unfolding main prepared
  main_crashes flags cfg named plain' loads valid =
      let full = is_full-apply_env_overrides world.env cfg in
      rw (named, loads, valid)
        (checked-crashes flags (apply_env_overrides world.env cfg) plain' ∙ ap not full)
