-- ===== src/Config/Watcher.antt =====
-- The watcher of the configuration file (internal/config/watcher.go). The file system is a
-- parameter: what a poll finds. Channels that are only closed are the question whether they are.
pub mod Lives
use goshield_bootcamp.Base.Go.{second, Duration}
use goshield_bootcamp.Base.Int.{pos}
use Prim.Native.String.{String}
use goshield_bootcamp.Base.{
  ◌*◌, true, arith, Bool-cases, ℕ, ◌≡◌, inl, inr, Bool, false, ◌&&◌, Option, none, some, List, [],
  ◌∷◌, Option-cases, ◌==◌, if◌then◌else◌, All,
}
use goshield_bootcamp.Config.Types.{Config}
use goshield_bootcamp.Config.Validate.{validate}
use goshield_bootcamp.Base.Float.{Float64}

-- What `os.Stat` finds: the time of the last change and the size.
pub record FileInfo : Type 0 where
  pub mod_time : ℕ
  pub size : ℕ

pub record Watcher : Type 0 where
  pub interval : Duration
  -- Whether `onError` is a function, and not nil.
  pub on_error : Bool
  pub last : FileInfo
  pub running : Bool
  pub stop_closed : Bool
  pub done_closed : Bool

-- `WithInterval`
unfoldable pub with_interval : Duration → Watcher → Watcher
with_interval d w = record w { interval = d }

-- `WithOnError`, of a function or of nil.
unfoldable pub with_on_error : Bool → Watcher → Watcher
with_on_error on_error w = record w { on_error = on_error }

-- The loop over the options.
unfoldable pub apply_each : List (Watcher → Watcher) → Watcher → Watcher
apply_each [] w = w
apply_each (opt ∷ opts) w = apply_each opts (opt w)

-- `NewWatcher`; `none` is an error, of the callback that is not there or of the file.
unfoldable pub new_watcher : Bool → Option FileInfo → List (Watcher → Watcher) → Option Watcher
unfolding apply_each
new_watcher on_change none opts = none
new_watcher on_change (some info) opts =
    if on_change
    then some (
        apply_each opts (record {
          interval = pos (5 * second);
          on_error = true;
          last = info;
          running = false;
          stop_closed = false;
          done_closed = false;
        }))
    else none

abbrev pub same_info : FileInfo → FileInfo → Bool
same_info a b = (a.mod_time == b.mod_time) && (a.size == b.size)

-- The callback that a poll makes: of the error in finding, loading or validating the file, or of
-- the new configuration.
pub data Report {ℓ} (F : Type ℓ) : Type ℓ where
  stat_failed : Report F
  load_failed : Report F
  invalid : String → Report F
  changed : Config F → Report F

-- What a poll finds: the file, if it is there, and what LoadFile reads of it.
pub record Poll {ℓ} (F : Type ℓ) : Type ℓ where
  pub info : Option FileInfo
  pub loaded : Option (Config F)

unfoldable pub with_report {ℓ} :
    {F : Type ℓ} → Option (Report F) → List (Report F) → List (Report F)
with_report none rs = rs
with_report (some r) rs = r ∷ rs

module _ {ℓ} {F : Type ℓ} (float : Float64 F) where
  -- After LoadFile.
  unfoldable pub report_loaded : Option (Config F) → Report F
  report_loaded none = load_failed
  report_loaded (some cfg) = elim (validate float cfg) [ some e ↦ invalid e | none ↦ changed cfg ]

  -- `check`, by what `os.Stat` finds.
  unfoldable pub check_info :
      Option FileInfo → Option (Config F) → Watcher → Watcher × Option (Report F)
  unfolding report_loaded
  check_info none loaded w = (w, some stat_failed)
  check_info (some info) loaded w =
      if same_info info w.last
      then (w, none)
      else (record w { last = info }, some (report_loaded loaded))

  unfoldable pub check : Poll F → Watcher → Watcher × Option (Report F)
  unfolding check_info
  check p w = check_info p.info p.loaded w

  -- The reports of polls in turn.
  unfoldable pub reports : List (Poll F) → Watcher → List (Report F)
  unfolding check with_report
  reports [] w = []
  reports (p ∷ ps) w = let (w', r) = check p w in with_report r (reports ps w')

  abbrev pub IsDeliverable : Report F → Type 0
  IsDeliverable (changed cfg) = validate float cfg ≡ none
  IsDeliverable _ = Unit

  abbrev Delivers : Option (Report F) → Type 0
  Delivers none = Unit
  Delivers (some r) = IsDeliverable r

  report_loaded-IsDeliverable : (loaded : Option (Config F)) → IsDeliverable (report_loaded loaded)
  unfolding report_loaded
  report_loaded-IsDeliverable none = tt
  report_loaded-IsDeliverable (some cfg) = elim (Option-cases (validate float cfg)) [
    | inl ok ↦ rw (ok, report_loaded) ok
    | inr (e, bad) ↦ rw (bad, report_loaded) tt
  ]

  check_info-Delivers :
      (info : Option FileInfo) (loaded : Option (Config F)) (w : Watcher)
      → Delivers (check_info info loaded w).1
  unfolding check_info
  check_info-Delivers none loaded w = tt
  check_info-Delivers (some info) loaded w = elim (Bool-cases (same_info info w.last)) [
    | inl same ↦ rw (same, check_info) tt
    | inr differs ↦ rw (differs, check_info) (report_loaded-IsDeliverable loaded)
  ]

  with_report-All :
      (r : Option (Report F)) (rs : List (Report F))
      → Delivers r
      → All IsDeliverable rs
      → All IsDeliverable (with_report r rs)
  unfolding with_report
  with_report-All none rs d a = a
  with_report-All (some r) rs d a = (d, a)

  -- Whatever a watcher finds at its polls, each configuration that it hands to onChange passes the
  -- validation.
  pub reports-IsDeliverable : (ps : List (Poll F)) (w : Watcher) → All IsDeliverable (reports ps w)
  unfolding reports
  reports-IsDeliverable [] w = tt
  reports-IsDeliverable (p ∷ ps) w =
      with_report-All (check p w).1 (reports ps (check p w).0)
        (check_info-Delivers p.info p.loaded w) (reports-IsDeliverable ps (check p w).0)

  same_info_refl : (info : FileInfo) → same_info info info ≡ true
  same_info_refl info = ground arith

  check_info-settled :
      (info : FileInfo) (l l' : Option (Config F)) (w : Watcher)
      → check_info (some info) l' (check_info (some info) l w).0
        ≡ ((check_info (some info) l w).0, none)
  unfolding check_info
  check_info-settled info l l' w = elim (Bool-cases (same_info info w.last)) [
    | inl same ↦ rw (same) (rw (same))
    | inr differs ↦ rw (differs, same_info_refl info)
  ]

  -- A poll that finds the file as the poll before it found it makes no callback and changes
  -- nothing, also if that one failed to load the file or to validate it.
  pub check_settled :
      (p q : Poll F) (w : Watcher) (info : FileInfo)
      → p.info ≡ some info
      → q.info ≡ some info
      → check q (check p w).0 ≡ ((check p w).0, none)
  unfolding check
  check_settled p q w info e e' = rw (e, e') (check_info-settled info p.loaded q.loaded w)
