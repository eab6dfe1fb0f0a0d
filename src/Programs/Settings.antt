-- ===== src/Programs/Settings.antt =====
-- The example program of the configuration (examples/config/main.go). What it prints is a list of
-- lines, where a line that formats values holds these; `sections` has the values of the summary.
pub mod Crash
use goshield_bootcamp.Config.Watcher.Lives.{System, beginning, start, stop, close_stop}
use goshield_bootcamp.Config.Watcher.{FileInfo, Watcher, new_watcher, with_interval}
use goshield_bootcamp.Config.Durations.{
  timeout_duration, max_wait_duration, open_duration, interval, of_milliseconds, of_seconds,
}
use goshield_bootcamp.Config.Json.{Json, load_file, to_json, is_full}
use goshield_bootcamp.Config.Environment.{
  Env, apply_env_overrides, override_breaker, override_adaptive, override_retry,
  override_rate_limiter, override_timeout, override_bulkhead, override_metrics, override_http,
}
use goshield_bootcamp.Config.Validate.{validate}
use goshield_bootcamp.Config.Defaults.{default_config, preset_conservative, preset_aggressive}
use goshield_bootcamp.Config.Types.{Config}
use goshield_bootcamp.Base.Go.{Duration, second, is_err}
use mathlib.Core.Option.{map}
use goshield_bootcamp.Base.Float.{Float64}
use goshield_bootcamp.Base.Int.{ℤ, pos}
use goshield_bootcamp.Base.{
  ℕ, ◌*◌, ◌≡◌, ◌≢◌, refl, inl, inr, ◌∙◌, Bool-cases, Bool, true, false, not, Option, none, some,
  List, [], ◌∷◌, if◌then◌else◌, arith,
}
use Prim.Native.String.{String, ◌++◌ as ◌<>◌}
use text.Mathlib.Text.{◌==◌}

-- The flags.
pub record Flags : Type 0 where
  pub file : String
  pub preset : String
  pub show_json : Bool

-- The lines that format values: those of the summary, the JSON and the texts.
pub data Line {ℓ κ} (B : Type ℓ) (F : Type κ) : Type (ℓ ⊔ κ) where
  plain : String → Line B F
  json_line : B → Line B F
  breaker_line : String → ℕ → Duration → Line B F
  adaptive_line : F → F → F → F → Line B F
  retry_line : String → ℤ → Duration → F → Line B F
  limiter_line : String → F → ℤ → Line B F
  timeout_line : Duration → Line B F
  bulkhead_line : ℤ → Duration → Line B F
  metrics_line : Bool → String → String → Line B F
  http_line : String → String → Line B F

-- `log.Fatalf`, by what failed.
pub data Fatal : Type 0 where
  load_failed : Fatal
  invalid : String → Fatal
  serialize_failed : Fatal
  watcher_failed : Fatal

-- How the program ends: it returns, it returns after it has stopped a watcher, it exits with
-- status 1, or it panics on a pointer that is nil.
pub data Ending : Type 0 where
  completed : Ending
  stopped : System → Ending
  exited : Fatal → Ending
  crashed : Ending

pub record Ran {ℓ κ} (B : Type ℓ) (F : Type κ) : Type (ℓ ⊔ κ) where
  pub lines : List (Line B F)
  pub ending : Ending

module _ {ℓ κ} {B : Type ℓ} {F : Type κ} where
  -- A line, and what follows.
  abbrev pub say : Line B F → Ran B F → Ran B F
  say l r = record { lines = l ∷ r.lines; ending = r.ending }

  abbrev pub over : Ending → Ran B F
  over e = record { lines = []; ending = e }

  -- A line that reads the fields of a section.
  abbrev pub say_section {μ} : {X : Type μ} → Option X → (X → Line B F) → Ran B F → Ran B F
  say_section none line r = over crashed
  say_section (some x) line r = say (line x) r

  -- The summary.
  unfoldable pub summary : Config F → Ran B F → Ran B F
  unfolding of_milliseconds of_seconds
  summary cfg rest = say (plain "\n=== GoShield Configuration ===") (
      say_section cfg.circuit_breaker
        (λ c. breaker_line c.name c.failure_rate_threshold (open_duration c))
        (say_section cfg.adaptive
          (λ a.
            adaptive_line a.failure_rate_ema_alpha a.min_adaptive_threshold a.max_adaptive_threshold
              a.timeout_multiplier)
          (say_section cfg.retry
            (λ r. retry_line r.strategy r.max_retries (interval r) r.multiplier)
            (say_section cfg.rate_limiter (λ l. limiter_line l.kind l.rate l.burst)
              (say_section cfg.timeout (λ t. timeout_line (timeout_duration t))
                (say_section cfg.bulkhead
                  (λ b. bulkhead_line b.max_concurrent (max_wait_duration b))
                  (say_section cfg.metrics (λ m. metrics_line m.enabled m.namespace m.endpoint)
                    (say_section cfg.http (λ h. http_line h.addr h.metrics_addr) rest))))))))

-- Start and Stop of a new watcher in one goroutine; `<-w.done` is the last line of Stop.
abbrev pub start_and_stop : Watcher → System
unfolding start stop close_stop
start_and_stop w = close_stop (stop (start (beginning w)))

-- What the program meets: os.ReadFile, os.Stat and the environment.
pub record World {ℓ κ} (B : Type ℓ) (F : Type κ) : Type (ℓ ⊔ κ) where
  pub read_file : String → Option B
  pub stat : String → Option FileInfo
  pub env : Env F

module _ {ℓ κ} {B : Type ℓ} {F : Type κ} where
  abbrev pub say_all : List String → Ran B F → Ran B F
  say_all [] r = r
  say_all (l ∷ ls) r = say (plain l) (say_all ls r)

  unfoldable pub environment_examples : Ending → Ran B F
  environment_examples e =
      say_all
        ("\n--- Environment Variable Examples ---" ∷ "  GOSHIELD_CIRCUIT_BREAKER_TIMEOUT_SECONDS=30"
          ∷ "  GOSHIELD_RATE_LIMITER_RATE=500" ∷ "  GOSHIELD_TIMEOUT_DURATION_MS=10000"
          ∷ "  GOSHIELD_METRICS_ENABLED=false" ∷ "  GOSHIELD_HTTP_ADDR=:9090" ∷ [])
        (over e)

  -- After `NewWatcher`.
  unfoldable pub run_watcher : Option Watcher → Ran B F
  unfolding environment_examples start_and_stop
  run_watcher none = over (exited watcher_failed)
  run_watcher (some w) =
      say_all ("(Watcher started - modify the file to see hot reload)" ∷ "Watcher stopped." ∷ [])
        (environment_examples (stopped (start_and_stop w)))

  unfoldable pub hot_reload : World B F → String → Ran B F
  unfolding run_watcher new_watcher with_interval
  hot_reload world file =
      say_all ("\n--- Hot Reload Demo ---" ∷ "Watch a config file for live changes:" ∷ []) (
        if file == ""
        then say_all
            ("  w, _ := config.NewWatcher(\"goshield.json\", func(cfg *config.Config) {"
              ∷ "      // Reconfigure your components with new settings" ∷ "  })" ∷ "  w.Start()"
              ∷ "  defer w.Stop()" ∷ [])
            (environment_examples completed)
        else say (plain ("Watching " <> file <> " for changes (press Ctrl+C to stop)...")) (
            run_watcher
              (new_watcher true (world.stat file) (with_interval (pos (2 * second)) ∷ []))))

module _ {ℓ κ} {B : Type ℓ} {F : Type κ} (float : Float64 F) (json : Json B F) where
  -- `-json`
  unfoldable pub dump : Option B → Ran B F
  dump none = over (exited serialize_failed)
  dump (some bytes) = say (json_line bytes) (over completed)

  -- From the validation on.
  unfoldable pub checked : World B F → Flags → Config F → Option String → Ran B F
  unfolding dump summary hot_reload to_json
  checked world flags cfg (some e) = over (exited (invalid e))
  checked world flags cfg none = say (plain "✓ Config is valid") (
      if flags.show_json
      then dump (to_json json cfg)
      else summary cfg (hot_reload world flags.file))

  -- From the overrides on.
  unfoldable pub prepared : World B F → Flags → Config F → Ran B F
  unfolding checked apply_env_overrides validate
  prepared world flags loaded =
      let cfg = apply_env_overrides world.env loaded in
      say_all ("\nApplying environment overrides (GOSHIELD_*)..." ∷ "Validating config..." ∷ [])
        (checked world flags cfg (validate float cfg))

  unfoldable pub loading : World B F → Flags → Option (Config F) → Ran B F
  unfolding prepared
  loading world flags none = over (exited load_failed)
  loading world flags (some cfg) = prepared world flags cfg

  -- `main`
  unfoldable pub main : World B F → Flags → Ran B F
  unfolding loading load_file default_config preset_conservative preset_aggressive
  main world flags =
      if flags.file == ""
      then if flags.preset == "conservative"
        then say (plain "Using conservative preset")
            (prepared world flags (preset_conservative float))
        else if flags.preset == "aggressive"
        then say (plain "Using aggressive preset") (prepared world flags (preset_aggressive float))
        else say (plain "Using default config") (prepared world flags (default_config float))
      else say (plain ("Loading config from " <> flags.file))
          (loading world flags (load_file json float (world.read_file flags.file)))
