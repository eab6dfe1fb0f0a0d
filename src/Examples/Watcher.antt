-- ===== src/Examples/Watcher.antt =====
-- The watcher and the JSON of configurations at concrete inputs.
use goshield_bootcamp.Base.Int.{pos}
use mathlib.Core.Path.{subst}
use mathlib.Core.Option.{some-injective}
use goshield_bootcamp.Config.Json.{to_json, load_bytes, is_full, load_bytes-to_json, IsJson, Json}
use goshield_bootcamp.Config.Tags.{Value, Members}
use goshield_bootcamp.Config.Tags.Document.{write_config, read_config, overlay}
use goshield_bootcamp.Base.{
  sym, Bool, ◌<◌, ℕ, ◌≡◌, refl, true, false, Option, none, some, List, [], ◌∷◌, arith, All,
}
use goshield_bootcamp.Config.Watcher.{
  Report, FileInfo, Watcher, IsDeliverable, reports-IsDeliverable, Poll, reports,
}
use goshield_bootcamp.Config.Watcher.Lives.{
  poll, ticks, Step, stop, beginning, stops, System, finish_watch, finishes, closes, IsOneLife,
  close_stop, restart_crashes, begins, Reach, Reach-IsOneLife, start, here, next,
}
use goshield_bootcamp.Config.Types.{Config}
use goshield_bootcamp.Config.Defaults.{default_config}
use goshield_bootcamp.Examples.Fixed.{fixed}

abbrev file : FileInfo
file = record { mod_time = 3; size = 40 }

abbrev idle : Watcher
idle = record {
  interval = pos 5000000000;
  on_error = true;
  last = record { mod_time = 1; size = 30 };
  running = false;
  stop_closed = false;
  done_closed = false;
}

-- The file is gone, then it is there, and then it is as before.
abbrev polls : List (Poll ℕ)
polls =
    record { info = none; loaded = none }
    ∷ record { info = some file; loaded = some (default_config fixed) }
    ∷ record { info = some file; loaded = none }
    ∷ []

reports-IsDeliverable_example : All (IsDeliverable fixed) (reports fixed polls idle)
reports-IsDeliverable_example = reports-IsDeliverable fixed polls idle

abbrev started : System
unfolding start
started = start (beginning idle)

-- The file is gone at a poll, and no callback panics.
abbrev calm : Report ℕ → Bool
calm r = false

abbrev polled : System
unfolding poll
polled = poll fixed calm (record { info = none; loaded = none }) started

abbrev stopping : System
unfolding stop
stopping = stop polled

abbrev closed : System
unfolding close_stop
closed = close_stop stopping

abbrev through : System
unfolding finish_watch
through = finish_watch closed

through_reached : Reach fixed calm (beginning idle) through
unfolding start stop close_stop finish_watch poll
through_reached =
    next {t = closed}
      (next {t = stopping}
        (next {t = polled}
          (next {t = started} (next {t = beginning idle} here refl begins) refl
            (ticks (record { info = none; loaded = none }) (omega arith) refl))
          refl stops)
        refl (closes (omega arith)))
      refl (finishes (omega arith) refl refl)

Reach-IsOneLife_example : IsOneLife through
unfolding start stop close_stop finish_watch polled
Reach-IsOneLife_example =
    Reach-IsOneLife fixed calm (λ r. refl) idle through refl refl refl refl refl through_reached
      (omega arith)

restart_crashes_example :
    (0 < (start through).watching)
    × Step fixed calm (start through) (finish_watch (start through))
    × ((finish_watch (start through)).crashed ≡ true)
unfolding start stop close_stop finish_watch polled
restart_crashes_example =
    restart_crashes fixed calm through (start through) refl refl refl refl here refl

-- A text that is the object itself, and one that is nil.
abbrev Text : Type 0
Text = Option (Members (Members (Value ℕ)))

abbrev json : Json Text ℕ
json = record {
  nil = none;
  marshal = λ c. some (some (write_config c));
  marshal_indent = λ c. some (some (write_config c));
  unmarshal = λ d base. elim d [ none ↦ (base, true) | some doc ↦ (read_config 0 doc base, false) ];
}

json-IsJson : IsJson json 0
json-IsJson = record {
  parse = λ d. d;
  by_marshal = λ c d e. sym (some-injective _ _ e);
  by_indent = λ c d e. sym (some-injective _ _ e);
  by_unmarshal = λ c base d e.
      subst (λ t. json.unmarshal t base ≡ (read_config 0 (write_config c) base, false)) (sym e)
        refl;
  by_nil = λ base. refl;
}

abbrev no_bulkhead : Config ℕ
no_bulkhead = record (default_config fixed) { bulkhead = none }

load_bytes-to_json_example :
    (load_bytes json fixed (some (write_config no_bulkhead))
      ≡ some (overlay no_bulkhead (default_config fixed)))
    × (is_full no_bulkhead ≡ true
        → load_bytes json fixed (some (write_config no_bulkhead)) ≡ some no_bulkhead)
unfolding to_json
load_bytes-to_json_example =
    load_bytes-to_json json 0 json-IsJson fixed no_bulkhead (some (write_config no_bulkhead)) refl
