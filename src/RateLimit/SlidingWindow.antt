-- ===== src/RateLimit/SlidingWindow.antt =====
-- The sliding window limiter (internal/ratelimit/ratelimit.go). Each method takes the readings of
-- the clock that it makes under its mutex, in order. `none` is a run-time panic.
pub mod Bound
pub mod Refine
use goshield_bootcamp.RateLimit.Reservation.{
  failed, Round, waiting, crashed, Reservation, Waited, acquired,
}
use goshield_bootcamp.Base.Go.{Duration, since, Time}
use goshield_bootcamp.Base.Int.{ltb_ℤ, ◌-ℤ◌, ◌+ℤ◌, pos_part, neg_part, pos, sub_ℕ, ℤ}
use goshield_bootcamp.Base.{
  ◌+◌, Bool, true, false, Option, none, some, List, [], ◌∷◌, ◌++◌, if◌then◌else◌, length,
}

pub record SlidingWindow : Type 0 where
  pub limit : ℤ
  pub window : Duration
  pub requests : List Time

-- `make` with a negative capacity is a panic.
unfoldable pub new_sliding_window : ℤ → Duration → Option SlidingWindow
new_sliding_window limit window =
    if ltb_ℤ limit (pos 0)
    then none
    else some (record { limit = limit; window = window; requests = [] })

-- `request.Before(now.Add(-window))`
abbrev pub is_before_cutoff : Time → Duration → Time → Bool
is_before_cutoff now window t = ltb_ℤ (pos t) (sub_ℕ (now + neg_part window) (pos_part window))

-- The loop of `cleanup`, and the slice that it leaves.
unfoldable pub drop_before : Time → Duration → List Time → List Time
drop_before now window [] = []
drop_before now window (t ∷ ts) =
    let rest = drop_before now window ts in if is_before_cutoff now window t then rest else t ∷ ts

unfoldable pub cleanup : Time → SlidingWindow → SlidingWindow
unfolding drop_before
cleanup now sw = record sw { requests = drop_before now sw.window sw.requests }

-- `len(sw.requests) < sw.limit`
abbrev pub has_room : SlidingWindow → Bool
has_room sw = ltb_ℤ (pos (length sw.requests)) sw.limit

abbrev pub append_request : Time → SlidingWindow → SlidingWindow
append_request t sw = record sw { requests = sw.requests ++ t ∷ [] }

unfoldable pub allow : Time → Time → SlidingWindow → Bool × SlidingWindow
unfolding cleanup
allow now later sw =
    let sw' = cleanup now sw in
    if has_room sw' then (true, append_request later sw') else (false, sw')

-- `sw.requests[0]`
abbrev pub oldest : SlidingWindow → Option Time
oldest sw = elim sw.requests [ [] ↦ none | t ∷ ts ↦ some t ]

unfoldable pub reserve : Time → Time → SlidingWindow → Option (Reservation × SlidingWindow)
unfolding cleanup
reserve now later sw =
    let sw' = cleanup now sw in
    if has_room sw'
    then some
        (record { ok = true; delay = pos 0; time_to_act = pos later }, append_request later sw')
    else elim (oldest sw') [
      | none ↦ none
      | some t ↦
          let delay = sw'.window -ℤ since later t in
          some (record { ok = true; delay = delay; time_to_act = pos later +ℤ delay }, sw')
    ]

-- The loop of Wait, over the rounds that its environment gives it.
unfoldable pub wait : List Round → SlidingWindow → Waited × SlidingWindow
unfolding cleanup
wait [] sw = (waiting, sw)
wait (r ∷ rs) sw =
    let sw' = cleanup r.now sw in
    let again = wait rs sw' in
    if has_room sw' then (acquired, append_request r.later sw') else elim (oldest sw') [
      | none ↦ (crashed, sw')
      | some t ↦ elim r.done [ some e ↦ (failed e, sw') | none ↦ again ]
    ]

unfoldable pub burst : SlidingWindow → ℤ
burst sw = sw.limit
