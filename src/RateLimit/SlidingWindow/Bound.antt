-- ===== src/RateLimit/SlidingWindow/Bound.antt =====
-- The sliding window limiter keeps its promise (internal/ratelimit/ratelimit.go): in no interval of
-- the length of the window does it admit more than its limit.
use mathlib.Core.Path.{subst}
use mathlib.Core.Option.{some-injective}
use goshield_bootcamp.RateLimit.Reservation.{Reservation, Round, crashed}
use native.Mathlib.Decide.{dec_lt}
use goshield_bootcamp.RateLimit.SlidingWindow.{
  new_sliding_window, reserve, wait, cleanup, is_before_cutoff, drop_before, allow, SlidingWindow,
}
use goshield_bootcamp.Base.Go.{GoError, Time}
use goshield_bootcamp.Base.Int.{◌≤ℤ◌, pos}
use goshield_bootcamp.Base.{
  Option, none, some, ◌∙◌, true, false, length-append, ℕ, ◌+◌, ◌≤◌, ◌<◌, ◌≡◌, refl, ap, inl, inr,
  ◌&&◌, List, [], ◌∷◌, ◌++◌, arith, Bool-cases, if◌then◌else◌, leb, length, All,
}

-- The stamps of the calls that Allow admits along a history of calls.
unfoldable pub stamps : List (Time × Time) → SlidingWindow → List Time
stamps [] sw = []
stamps ((now, later) ∷ calls) sw =
    let rest = stamps calls (allow now later sw).1 in
    if (allow now later sw).0 then later ∷ rest else rest

-- How many of the times lie from `a` to `a + w`.
abbrev pub count_within : ℕ → ℕ → List Time → ℕ
count_within a w [] = 0
count_within a w (t ∷ ts) = (if leb a t && leb t (a + w) then 1 else 0) + count_within a w ts

-- The readings of the clock never go back.
abbrev pub IsMonotonic : Time → List (Time × Time) → Type 0
IsMonotonic last [] = Unit
IsMonotonic last ((now, later) ∷ calls) = (last ≤ now) × (now ≤ later) × IsMonotonic later calls

count_within-append :
    (a w : ℕ) (xs ys : List Time)
    → count_within a w (xs ++ ys) ≡ count_within a w xs + count_within a w ys
count_within-append a w [] ys = omega arith
count_within-append a w (x ∷ xs) ys = omega (arith, count_within-append a w xs ys)

count_within-le-length : (a w : ℕ) (xs : List Time) → count_within a w xs ≤ length xs
count_within-le-length a w [] = omega arith
count_within-le-length a w (x ∷ xs) = ground (arith, count_within-le-length a w xs)

-- All times lie more than `w` before `last`.
abbrev pub IsGone : ℕ → Time → List Time → Type 0
IsGone w last = All (λ t. t + w < last)

pub IsGone-later :
    (w : ℕ) (last last' : Time) (ts : List Time)
    → last ≤ last'
    → IsGone w last ts
    → IsGone w last' ts
IsGone-later w last last' [] h g = tt
IsGone-later w last last' (t ∷ ts) h g = (omega arith, IsGone-later w last last' ts h g.1)

count_within-gone :
    (a w : ℕ) (last : Time) (ts : List Time)
    → last ≤ a + w
    → IsGone w last ts
    → count_within a w ts ≡ 0
count_within-gone a w last [] h g = refl
count_within-gone a w last (t ∷ ts) h g = ground (arith, count_within-gone a w last ts h g.1, g.0)

pub IsGone-append :
    (w : ℕ) (last : Time) (xs ys : List Time)
    → IsGone w last xs
    → IsGone w last ys
    → IsGone w last (xs ++ ys)
IsGone-append w last [] ys g h = h
IsGone-append w last (x ∷ xs) ys g h = (g.0, IsGone-append w last xs ys g.1 h)

-- `cleanup` takes away times that are gone, and nothing else.
pub drop_before_splits :
    (now w : ℕ) (ts : List Time)
    → (gone : List Time) × (ts ≡ gone ++ drop_before now (pos w) ts) × IsGone w now gone
unfolding drop_before
drop_before_splits now w [] = ([], refl, tt)
drop_before_splits now w (t ∷ ts) = elim (Bool-cases (is_before_cutoff now (pos w) t)) [
  | inl b ↦
      let (gone, e, g) = drop_before_splits now w ts in
      (t ∷ gone, rw (b, drop_before) (ap (◌∷◌ t) e), (ground arith, g))
  | inr b ↦ ([], rw (b, drop_before), tt)
]

abbrev pub window_of : ℕ → ℕ → List Time → SlidingWindow
window_of l w ts = record { limit = pos l; window = pos w; requests = ts }

pub allow_granted :
    (now later : Time) (l w : ℕ) (ts : List Time)
    → length (drop_before now (pos w) ts) < l
    → allow now later (window_of l w ts)
      ≡ (true, window_of l w (drop_before now (pos w) ts ++ later ∷ []))
unfolding allow
allow_granted now later l w ts h = ground arith

pub allow_refused :
    (now later : Time) (l w : ℕ) (ts : List Time)
    → l ≤ length (drop_before now (pos w) ts)
    → allow now later (window_of l w ts) ≡ (false, window_of l w (drop_before now (pos w) ts))
unfolding allow
allow_refused now later l w ts h = ground arith

-- One more stamp in an interval means that what is gone lies before it.
admit_bound :
    (a w l : ℕ) (now later : Time) (gone kept : List Time)
    → IsGone w now gone
    → now ≤ later
    → length kept < l
    → count_within a w gone + count_within a w kept ≤ l
    → count_within a w gone + count_within a w (kept ++ later ∷ []) ≤ l
admit_bound a w l now later gone kept g m len c = ground (
  arith,
  count_within-append a w kept (later ∷ []),
  count_within-le-length a w kept,
  λ (h : now ≤ a + w). count_within-gone a w now gone h g,
)

-- What a history adds to the times that are gone and to those that are kept.
stamps_bound :
    (a w l : ℕ) (calls : List (Time × Time)) (last : Time) (gone ts : List Time)
    → IsGone w last gone
    → length ts ≤ l
    → count_within a w gone + count_within a w ts ≤ l
    → IsMonotonic last calls
    → count_within a w gone
        + count_within a w ts
        + count_within a w (stamps calls (window_of l w ts))
      ≤ l
unfolding stamps
stamps_bound a w l [] last gone ts g len c m = omega arith
stamps_bound a w l ((now, later) ∷ calls) last gone ts g len c (m, m', m'') =
    let kept = drop_before now (pos w) ts in
    let (more, e, g') = drop_before_splits now w ts in
    let g₁ = IsGone-append w now gone more (IsGone-later w last now gone m g) g' in
    let g₂ = IsGone-later w now later (gone ++ more) m' g₁ in
    let same : count_within a w ts ≡ count_within a w more + count_within a w kept =
      ap (count_within a w) e ∙ count_within-append a w more kept in
    let c₁ : count_within a w (gone ++ more) + count_within a w kept ≤ l =
      omega (arith, count_within-append a w gone more) in
    elim (dec_lt (length kept) l) [
      | yes room ↦ rw (allow_granted now later l w ts room) (
          omega (
            arith,
            count_within-append a w gone more,
            count_within-append a w kept (later ∷ []),
            stamps_bound a w l calls later (gone ++ more) (kept ++ later ∷ []) g₂
                (omega (arith, length-append {0} kept (later ∷ [])))
                (admit_bound a w l now later (gone ++ more) kept g₁ m' room c₁) m'',
          ))
      | no full ↦ rw (allow_refused now later l w ts (omega arith)) (
          omega (
            arith,
            count_within-append a w gone more,
            stamps_bound a w l calls later (gone ++ more) kept g₂
                (omega (arith, ap length e, length-append {0} more kept)) c₁ m'',
          ))
    ]

-- Of the calls that Allow admits along any history of a new limiter, with a clock that does not go
-- back, no more than the limit have their stamps in any one interval of the window's length, its
-- ends included.
pub count_within-le :
    (a w l : ℕ) (sw : SlidingWindow) (calls : List (Time × Time))
    → new_sliding_window (pos l) (pos w) ≡ some sw
    → IsMonotonic 0 calls
    → count_within a w (stamps calls sw) ≤ l
unfolding new_sliding_window
count_within-le a w l sw calls made m =
    let same : window_of l w [] ≡ sw = some-injective _ _ (ground arith) in
    subst (λ s. count_within a w (stamps calls s) ≤ l) same
      (omega (arith, stamps_bound a w l calls 0 [] [] tt (omega arith) (omega arith) m))

-- Where Reserve returns, it reports OK and leaves the limiter as Allow does, so that a refused
-- reservation is not recorded.
pub reserve-allow :
    (now later : Time) (sw sw' : SlidingWindow) (r : Reservation)
    → reserve now later sw ≡ some (r, sw')
    → (r.ok ≡ true) × (sw' ≡ (allow now later sw).1)
unfolding reserve allow
reserve-allow now later sw sw' r e = ground arith

-- With a limit of 0 or less and no request left in the window after the cleanup, Reserve panics,
-- and so does Wait in its first round.
pub empty_window_crashes :
    (now later : Time) (stop : Option GoError) (rs : List Round) (sw : SlidingWindow)
    → sw.limit ≤ℤ pos 0
    → (cleanup now sw).requests ≡ []
    → (reserve now later sw ≡ none)
      × ((wait (record { now = now; later = later; done = stop } ∷ rs) sw).0 ≡ crashed)
unfolding reserve wait
empty_window_crashes now later stop rs sw h e = ground arith
