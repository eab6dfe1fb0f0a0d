-- ===== src/Config/Watcher/Lives.antt =====
-- Start and Stop of the watcher under many goroutines (internal/config/watcher.go): each critical
-- section and each operation of a channel is a step of its own, and so is a poll with its callback.
use goshield_bootcamp.Base.Int.{pos, leb_ℤ}
use goshield_bootcamp.Breaker.Trace.{step}
use goshield_bootcamp.Base.{
  refl, ◌∙◌, Option, none, some, ℕ, ◌+◌, ◌-◌, ◌≤◌, ◌<◌, ◌≡◌, Bool, true, false, arith,
  if◌then◌else◌,
}
use goshield_bootcamp.Config.Watcher.{
  Config, FileInfo, Watcher, Poll, Report, stat_failed, load_failed, invalid, changed, check,
  check_info,
}
use goshield_bootcamp.Base.Float.{Float64}

-- How many goroutines run `watch`, are in Stop before `close(w.stopCh)` and after it; whether the
-- program has panicked, of a channel that is closed twice or in a callback; and the Starts that
-- took effect.
pub record System : Type 0 where
  pub watcher : Watcher
  pub watching : ℕ
  pub closing : ℕ
  pub waiting : ℕ
  pub crashed : Bool
  pub starts : ℕ

abbrev pub beginning : Watcher → System
beginning w = record {
  watcher = w;
  watching = 0;
  closing = 0;
  waiting = 0;
  crashed = false;
  starts = 0;
}

-- The critical section of Start; `go w.watch()` follows if it was not running.
unfoldable pub start : System → System
start s = if s.watcher.running then s else record s {
  watcher = record s.watcher { running = true };
  watching = s.watching + 1;
  starts = s.starts + 1;
}

-- The critical section of Stop.
unfoldable pub stop : System → System
stop s =
    if s.watcher.running
    then record s { watcher = record s.watcher { running = false }; closing = s.closing + 1 }
    else s

-- `close(w.stopCh)`
unfoldable pub close_stop : System → System
close_stop s = record s {
  watcher = record s.watcher { stop_closed = true };
  closing = s.closing - 1;
  waiting = s.waiting + 1;
  crashed = if s.watcher.stop_closed then true else s.crashed;
}

-- `watch` returns: the deferred `close(w.done)`.
unfoldable pub finish_watch : System → System
finish_watch s = record s {
  watcher = record s.watcher { done_closed = true };
  watching = s.watching - 1;
  crashed = if s.watcher.done_closed then true else s.crashed;
}

pub record IsOneLife (s : System) : Type 0 where
  pub alive : s.crashed ≡ false
  pub handled : s.watcher.on_error ≡ true
  pub ticking : leb_ℤ s.watcher.interval (pos 0) ≡ false
  pub unstarted :
      s.starts ≡ 0
      → (s.watching + s.closing + s.waiting ≡ 0)
        × (s.watcher.running ≡ false)
        × (s.watcher.stop_closed ≡ false)
        × (s.watcher.done_closed ≡ false)
  pub one_watch : s.watcher.done_closed ≡ false → s.watching ≡ s.starts
  pub no_watch : s.watcher.done_closed ≡ true → (s.watching ≡ 0) × (s.watcher.stop_closed ≡ true)
  pub one_stop : s.watcher.running ≡ true → (s.closing ≡ 0) × (s.watcher.stop_closed ≡ false)
  pub one_close : s.watcher.stop_closed ≡ true → s.closing ≡ 0
  pub few : s.closing ≤ 1

beginning-IsOneLife :
    (w : Watcher)
    → w.on_error ≡ true
    → leb_ℤ w.interval (pos 0) ≡ false
    → w.running ≡ false
    → w.stop_closed ≡ false
    → w.done_closed ≡ false
    → IsOneLife (beginning w)
beginning-IsOneLife w e i r p d = ground arith

module _ {ℓ} {F : Type ℓ} (float : Float64 F) (panics : Report F → Bool) where
  -- Whether the callback of a report panics: `panics` says it of the functions that are set, and a
  -- call of an `onError` that is nil does.
  abbrev pub report_panics : Watcher → Option (Report F) → Bool
  report_panics w none = false
  report_panics w (some (changed cfg)) = panics (changed cfg)
  report_panics w (some r) = if w.on_error then panics r else true

  -- A tick: `check`, with its callback.
  unfoldable pub poll : Poll F → System → System
  unfolding check
  poll p s =
      let (w, r) = check float p s.watcher in
      record s { watcher = w; crashed = if report_panics w r then true else s.crashed }

  pub data Step (s : System) : System → Type ℓ where
    begins : Step s (start s)
    stops : Step s (stop s)
    closes : 0 < s.closing → Step s (close_stop s)
    -- `time.NewTicker` panics on an interval that is not positive.
    breaks :
        0 < s.watching
        → leb_ℤ s.watcher.interval (pos 0) ≡ true
        → Step s (record s { crashed = true })
    -- `<-w.done`
    gets_through :
        0 < s.waiting → s.watcher.done_closed ≡ true → Step s (record s { waiting = s.waiting - 1 })
    ticks :
        (p : Poll F) → 0 < s.watching → leb_ℤ s.watcher.interval (pos 0) ≡ false → Step s (poll p s)
    finishes :
        0 < s.watching
        → leb_ℤ s.watcher.interval (pos 0) ≡ false
        → s.watcher.stop_closed ≡ true
        → Step s (finish_watch s)

  -- The steps of a program that has not crashed.
  pub data Reach (s : System) : System → Type ℓ where
    here : Reach s s
    next : {t u : System} → Reach s t → t.crashed ≡ false → Step t u → Reach s u

  abbrev Keeps : Watcher → Watcher → Type 0
  Keeps w w' =
      (w'.interval ≡ w.interval)
      × (w'.on_error ≡ w.on_error)
      × (w'.running ≡ w.running)
      × (w'.stop_closed ≡ w.stop_closed)
      × (w'.done_closed ≡ w.done_closed)

  check_info-Keeps :
      (info : Option FileInfo) (l : Option (Config F)) (w : Watcher)
      → Keeps w (check_info float info l w).0
  unfolding check_info
  check_info-Keeps none l w = (refl, refl, refl, refl, refl)
  check_info-Keeps (some i) l w = ground arith

  -- A poll leaves the watcher as it is, but for what it has seen of the file.
  check-Keeps : (p : Poll F) (w : Watcher) → Keeps w (check float p w).0
  unfolding check
  check-Keeps p w = check_info-Keeps p.info p.loaded w

  -- The callbacks are set, and do not panic.
  abbrev pub IsCalm : Type ℓ
  IsCalm = (r : Report F) → panics r ≡ false

  report_panics-calm :
      IsCalm → (w : Watcher) (r : Option (Report F)) → w.on_error ≡ true → report_panics w r ≡ false
  report_panics-calm calm w none h = refl
  report_panics-calm calm w (some stat_failed) h = ground (arith, calm stat_failed)
  report_panics-calm calm w (some load_failed) h = ground (arith, calm load_failed)
  report_panics-calm calm w (some (invalid e)) h = ground (arith, calm (invalid e))
  report_panics-calm calm w (some (changed cfg)) h = calm (changed cfg)

  poll-IsOneLife : IsCalm → (p : Poll F) (s : System) → IsOneLife s → IsOneLife (poll p s)
  unfolding poll
  poll-IsOneLife calm p s v =
      let (i, e, r, c, d) = check-Keeps p s.watcher in
      let quiet =
        report_panics-calm calm (check float p s.watcher).0 (check float p s.watcher).1
          (e ∙ v.handled) in
      ground (arith, v.unstarted, v.one_watch, v.no_watch, v.one_stop, v.one_close)

  Step-IsOneLife : IsCalm → {s t : System} → Step s t → t.starts ≤ 1 → IsOneLife s → IsOneLife t
  unfolding start stop close_stop finish_watch
  Step-IsOneLife calm begins h v = ground arith
  Step-IsOneLife calm stops h v = ground arith
  Step-IsOneLife calm (closes p) h v = ground arith
  Step-IsOneLife calm (gets_through p q) h v = ground arith
  Step-IsOneLife calm (breaks p q) h v = absurd (ground arith)
  Step-IsOneLife calm {s} (ticks poll' p q) h v = poll-IsOneLife calm poll' s v
  Step-IsOneLife calm (finishes p q q') h v = ground arith

  Step-starts : {s t : System} → Step s t → s.starts ≤ t.starts
  unfolding start stop close_stop finish_watch poll
  Step-starts begins = ground arith
  Step-starts stops = ground arith
  Step-starts (closes p) = omega arith
  Step-starts (gets_through p q) = omega arith
  Step-starts (breaks p q) = omega arith
  Step-starts (ticks poll' p q) = omega arith
  Step-starts (finishes p q q') = omega arith

  -- A new watcher with a positive interval, and with callbacks that are set and do not panic, that
  -- is started at most once never panics, whatever the order of its Starts, Stops and polls and
  -- whatever the polls find: as long as it is not through, one goroutine watches for each Start
  -- that took effect, and none when it is; and `stopCh` is closed by one Stop alone.
  pub Reach-IsOneLife :
      IsCalm
      → (w : Watcher) (s : System) → w.on_error ≡ true
      → leb_ℤ w.interval (pos 0) ≡ false
      → w.running ≡ false
      → w.stop_closed ≡ false
      → w.done_closed ≡ false
      → Reach (beginning w) s
      → s.starts ≤ 1
      → IsOneLife s
  Reach-IsOneLife calm w _ e i r p d here h = beginning-IsOneLife w e i r p d
  Reach-IsOneLife calm w s e i r p d (next reach alive step) h =
      Step-IsOneLife calm step h
        (Reach-IsOneLife calm w _ e i r p d reach (omega (arith, Step-starts step)))

  -- A goroutine watches, and both channels are closed.
  record IsDoomed (s : System) : Type 0 where
    watched : 0 < s.watching
    ticking : leb_ℤ s.watcher.interval (pos 0) ≡ false
    stop_closed : s.watcher.stop_closed ≡ true
    done_closed : s.watcher.done_closed ≡ true

  poll-IsDoomed : (p : Poll F) (s : System) → IsDoomed s → IsDoomed (poll p s)
  unfolding poll
  poll-IsDoomed p s v = let (i, e, r, c, d) = check-Keeps p s.watcher in ground arith

  start-IsDoomed :
      (s : System)
      → leb_ℤ s.watcher.interval (pos 0) ≡ false
      → s.watcher.running ≡ false
      → s.watcher.stop_closed ≡ true
      → s.watcher.done_closed ≡ true
      → IsDoomed (start s)
  unfolding start
  start-IsDoomed s i stopped p d = ground arith

  Step-IsDoomed : {s t : System} → Step s t → t.crashed ≡ false → IsDoomed s → IsDoomed t
  unfolding start stop close_stop finish_watch
  Step-IsDoomed begins h v = ground arith
  Step-IsDoomed stops h v = ground arith
  Step-IsDoomed (closes p) h v = ground arith
  Step-IsDoomed (gets_through p q) h v = ground arith
  Step-IsDoomed (breaks p q) h v = absurd (ground arith)
  Step-IsDoomed {s} (ticks poll' p q) h v = poll-IsDoomed poll' s v
  Step-IsDoomed (finishes p q q') h v = absurd (ground arith)

  Reach-IsDoomed : {s t : System} → Reach s t → t.crashed ≡ false → IsDoomed s → IsDoomed t
  Reach-IsDoomed here h v = v
  Reach-IsDoomed (next r alive step) h v = Step-IsDoomed step h (Reach-IsDoomed r alive v)

  -- A watcher with a positive interval that has stopped, with both its channels closed, and that is
  -- started again: in every state that this leads to before a panic, a goroutine watches, it can
  -- return, and its return closes `done` again, which panics.
  pub restart_crashes :
      (s t : System)
      → leb_ℤ s.watcher.interval (pos 0) ≡ false
      → s.watcher.running ≡ false
      → s.watcher.stop_closed ≡ true
      → s.watcher.done_closed ≡ true
      → Reach (start s) t
      → t.crashed ≡ false
      → (0 < t.watching) × Step t (finish_watch t) × ((finish_watch t).crashed ≡ true)
  unfolding start finish_watch
  restart_crashes s t i stopped p d r alive =
      let v = Reach-IsDoomed r alive (start-IsDoomed s i stopped p d) in
      (v.watched, finishes v.watched v.ticking v.stop_closed, ground arith)
