-- ===== src/Public/Adaptive.antt =====
-- The public adaptive breaker (pkg/breaker/breaker.go), around the internal one
-- (internal/breaker/adaptive.go).
use goshield_bootcamp.Base.Go.{Time, Outcome, Clock, Proc, Cell}
use goshield_bootcamp.Base.Float.{Float64}
use goshield_bootcamp.Breaker.Params.{
  AdaptiveParams, trip_count, get_adaptive_params, default_adaptive_config,
}
use goshield_bootcamp.Breaker.Core.{get_state_unsafe}
use goshield_bootcamp.Breaker.Config.{State}
use goshield_bootcamp.Base.{ℕ}
use Prim.Native.String.{String}
use goshield_bootcamp.Breaker.Adaptive.{
  update_emas, new_adaptive, AdaptiveBreaker, reset_adaptive, execute_adaptive, AdaptiveConfig,
}
use goshield_bootcamp.Breaker.Calls.{force_open, Metrics, get_metrics}

pub record PublicAdaptive {ℓ} (F : Type ℓ) : Type ℓ where
  pub internal : AdaptiveBreaker F

-- `Name` and `State` of internal/breaker/adaptive.go.
abbrev pub adaptive_name {ℓ} : {F : Type ℓ} → AdaptiveBreaker F → String
adaptive_name ab = ab.inner.config.name

unfoldable pub adaptive_state {ℓ} :
    {F : Type ℓ} → Time → AdaptiveBreaker F → State × AdaptiveBreaker F
unfolding get_state_unsafe
adaptive_state now ab =
    let cb = get_state_unsafe now ab.inner in (cb.state, record ab { inner = cb })

-- `ForceOpen` and `GetMetrics` of internal/breaker/adaptive.go.
unfoldable pub adaptive_force_open {ℓ} : {F : Type ℓ} → AdaptiveBreaker F → AdaptiveBreaker F
unfolding force_open
adaptive_force_open ab = record ab { inner = force_open ab.inner }

abbrev pub held_cell {ℓ κ} :
    {F : Type ℓ} {S : Type κ} → Cell S (PublicAdaptive F) → Cell S (AdaptiveBreaker F)
held_cell cell = record {
  get = λ s. (cell.get s).internal;
  put = λ ab s. cell.put (record { internal = ab }) s;
}

module _ {ℓ} {F : Type ℓ} (float : Float64 F) where
  unfoldable pub adaptive_get_metrics : Time → AdaptiveBreaker F → Metrics F × AdaptiveBreaker F
  unfolding get_metrics
  adaptive_get_metrics now ab =
      let (m, cb) = get_metrics float now ab.inner in (m, record ab { inner = cb })

  unfoldable pub new_public_adaptive : AdaptiveConfig F → PublicAdaptive F
  unfolding new_adaptive
  new_public_adaptive c = record { internal = new_adaptive float c }

  unfoldable pub public_default_adaptive_config : String → AdaptiveConfig F
  unfolding default_adaptive_config
  public_default_adaptive_config name = default_adaptive_config float name

  unfoldable pub public_update_emas : PublicAdaptive F → PublicAdaptive F
  unfolding update_emas
  public_update_emas b = record { internal = update_emas float b.internal }

  unfoldable pub public_get_adaptive_params : PublicAdaptive F → AdaptiveParams F
  unfolding get_adaptive_params
  public_get_adaptive_params b = get_adaptive_params float b.internal

  unfoldable pub public_adaptive_reset : PublicAdaptive F → PublicAdaptive F
  unfolding reset_adaptive
  public_adaptive_reset b = record { internal = reset_adaptive float b.internal }

  unfoldable pub public_adaptive_metrics : Time → PublicAdaptive F → Metrics F × PublicAdaptive F
  unfolding adaptive_get_metrics
  public_adaptive_metrics now b =
      let (m, ab) = adaptive_get_metrics now b.internal in (m, record { internal = ab })

module _ {ℓ} {F : Type ℓ} where
  abbrev pub public_adaptive_name : PublicAdaptive F → String
  public_adaptive_name b = adaptive_name b.internal

  unfoldable pub public_adaptive_state : Time → PublicAdaptive F → State × PublicAdaptive F
  unfolding adaptive_state
  public_adaptive_state now b =
      let (s, ab) = adaptive_state now b.internal in (s, record { internal = ab })

  unfoldable pub public_trip_count : PublicAdaptive F → ℕ
  unfolding trip_count
  public_trip_count b = trip_count b.internal

  unfoldable pub public_adaptive_force_open : PublicAdaptive F → PublicAdaptive F
  unfolding adaptive_force_open
  public_adaptive_force_open b = record { internal = adaptive_force_open b.internal }

module _ {ℓ κ μ} {F : Type ℓ} (float : Float64 F) {S : Type κ} {A : Type μ} where
  unfoldable pub public_adaptive_execute :
      Cell S (PublicAdaptive F) → Clock S → Proc S (Outcome A) → Proc S (Outcome A)
  unfolding execute_adaptive
  public_adaptive_execute cell clock fn = execute_adaptive float (held_cell cell) clock fn
