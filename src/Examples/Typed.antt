-- ===== src/Examples/Typed.antt =====
-- The types of what a registry gathers, at a concrete input.
use goshield_bootcamp.Public.Typed.{fresh, with_timeout, gather-IsTyped}
use goshield_bootcamp.Public.Metrics.{register_timeout}
use goshield_bootcamp.Metrics.Sample.{MetricSample, gauge}
use goshield_bootcamp.Metrics.Collectors.{TimeoutNumbers}
use goshield_bootcamp.Metrics.Registry.{Registry, gather, new_registry}
use goshield_bootcamp.Base.Go.{Clock}
use goshield_bootcamp.Base.Int.{ℤ}
use goshield_bootcamp.Base.{ℕ, ◌≡◌, refl, none, some, [], get_elem?}
use goshield_bootcamp.Examples.Fixed.{fixed}
use Prim.Native.String.{String}

abbrev show : ℤ → String
show z = "7"

abbrev clock : Clock ℕ
clock s = (9, s)

abbrev timeouts : ℕ → TimeoutNumbers × ℕ
timeouts s = (record { total_calls = s; total_timeouts = 1; total_successes = 0 }, s)

abbrev registry : Registry ℕ ℕ
registry =
    register_timeout fixed show clock "db" timeouts
      (register_timeout fixed show clock "api" timeouts (new_registry "goshield"))

abbrev sample : ℕ → MetricSample ℕ
unfolding gather new_registry register_timeout
sample i = elim (get_elem? (gather registry 4).0 i) [
  | none ↦ record { name = ""; labels = []; value = 0; kind = gauge; help = ""; timestamp = 0 }
  | some x ↦ x
]

gather-IsTyped_example : (sample 1).kind ≡ (sample 4).kind
unfolding gather new_registry register_timeout
gather-IsTyped_example =
    gather-IsTyped fixed show clock registry
      (with_timeout "db" timeouts (with_timeout "api" timeouts (fresh "goshield"))) 4 1 4 (sample 1)
      (sample 4) refl refl refl
