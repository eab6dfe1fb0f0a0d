-- ===== src/RateLimit/SlidingWindow/Refine.antt =====
-- The sliding window limiter refines its abstract specification (internal/ratelimit/ratelimit.go):
-- a log of all admit_all that forgets nothing, asked how many of them are still in the window.
use mathlib.Core.List.{append_assoc}
use mathlib.Core.Path.{subst}
use mathlib.Core.Option.{some-injective}
use native.Mathlib.Decide.{dec_lt}
use goshield_bootcamp.RateLimit.SlidingWindow.Bound.{
  allow_granted, allow_refused, window_of, drop_before_splits, IsGone-append, IsGone, IsGone-later,
  IsMonotonic,
}
use goshield_bootcamp.RateLimit.SlidingWindow.{
  drop_before, allow, is_before_cutoff, new_sliding_window, SlidingWindow,
}
use goshield_bootcamp.Base.Go.{Time}
use goshield_bootcamp.Base.Int.{pos}
use goshield_bootcamp.Base.{
  sym, ◌<◌, ℕ, ◌+◌, ◌≤◌, ◌≡◌, refl, ap, ◌∙◌, inl, inr, Bool, true, false, some, List, [], ◌∷◌, ◌++◌,
  arith, leb, ltb, if◌then◌else◌, Bool-cases, length,
}

-- How many stamps of a log are still in the window.
unfoldable pub count_live : Time → ℕ → List Time → ℕ
count_live now w [] = 0
count_live now w (t ∷ ts) = (if leb now (t + w) then 1 else 0) + count_live now w ts

-- A call of the specification: its answer, and the log after it.
unfoldable pub admit_logged : ℕ → ℕ → Time → Time → List Time → Bool × List Time
unfolding count_live
admit_logged l w now later log =
    if ltb (count_live now w log) l then (true, log ++ later ∷ []) else (false, log)

admit_logged_granted :
    (l w now later : ℕ) (log : List Time)
    → count_live now w log < l
    → admit_logged l w now later log ≡ (true, log ++ later ∷ [])
unfolding admit_logged
admit_logged_granted l w now later log h = ground arith

admit_logged_refused :
    (l w now later : ℕ) (log : List Time)
    → l ≤ count_live now w log
    → admit_logged l w now later log ≡ (false, log)
unfolding admit_logged
admit_logged_refused l w now later log h = ground arith

unfoldable pub admit_all : ℕ → ℕ → List (Time × Time) → List Time → List Bool
unfolding admit_logged
admit_all l w [] log = []
admit_all l w ((now, later) ∷ calls) log =
    let (ok, log') = admit_logged l w now later log in ok ∷ admit_all l w calls log'

-- The answers of Allow along a history of calls.
unfoldable pub allow_all : List (Time × Time) → SlidingWindow → List Bool
unfolding allow
allow_all [] sw = []
allow_all ((now, later) ∷ calls) sw = let (ok, sw') = allow now later sw in ok ∷ allow_all calls sw'

-- The stamps rise from `lo` to `hi`.
abbrev IsRising : Time → Time → List Time → Type 0
IsRising lo hi [] = lo ≤ hi
IsRising lo hi (t ∷ ts) = (lo ≤ t) × IsRising t hi ts

IsRising-earlier :
    (lo lo' hi : Time) (ts : List Time) → lo ≤ lo' → IsRising lo' hi ts → IsRising lo hi ts
IsRising-earlier lo lo' hi [] h r = omega arith
IsRising-earlier lo lo' hi (t ∷ ts) h (r, r') = (omega arith, r')

IsRising-later :
    (lo hi hi' : Time) (ts : List Time) → hi ≤ hi' → IsRising lo hi ts → IsRising lo hi' ts
IsRising-later lo hi hi' [] h r = omega arith
IsRising-later lo hi hi' (t ∷ ts) h (r, r') = (r, IsRising-later t hi hi' ts h r')

IsRising-append :
    (lo hi t : Time) (ts : List Time) → hi ≤ t → IsRising lo hi ts → IsRising lo t (ts ++ t ∷ [])
IsRising-append lo hi t [] h r = (omega arith, omega arith)
IsRising-append lo hi t (u ∷ ts) h (r, r') = (r, IsRising-append u hi t ts h r')

IsRising-drop_before :
    (lo hi now w : ℕ) (ts : List Time)
    → IsRising lo hi ts
    → IsRising lo hi (drop_before now (pos w) ts)
unfolding drop_before
IsRising-drop_before lo hi now w [] r = r
IsRising-drop_before lo hi now w (t ∷ ts) (r, r') =
    elim (Bool-cases (is_before_cutoff now (pos w) t)) [
      | inl b ↦
          rw (b, drop_before) (IsRising-earlier lo t hi _ r (IsRising-drop_before t hi now w ts r'))
      | inr b ↦ rw (b, drop_before) (r, r')
    ]

count_live-append :
    (now w : ℕ) (xs ys : List Time)
    → count_live now w (xs ++ ys) ≡ count_live now w xs + count_live now w ys
unfolding count_live
count_live-append now w [] ys = omega arith
count_live-append now w (x ∷ xs) ys = omega (arith, count_live-append now w xs ys)

count_live-gone : (now w : ℕ) (ts : List Time) → IsGone w now ts → count_live now w ts ≡ 0
unfolding count_live
count_live-gone now w [] g = refl
count_live-gone now w (t ∷ ts) (g, g') = ground (arith, count_live-gone now w ts g')

count_live-rising :
    (now w lo hi : ℕ) (ts : List Time)
    → now ≤ lo + w
    → IsRising lo hi ts
    → count_live now w ts ≡ length ts
unfolding count_live
count_live-rising now w lo hi [] h r = refl
count_live-rising now w lo hi (t ∷ ts) h (r, r') =
    ground (arith, count_live-rising now w t hi ts (omega arith) r')

-- What `cleanup` leaves of rising stamps is all in the window.
count_live-drop_before :
    (now w lo hi : ℕ) (ts : List Time)
    → IsRising lo hi ts
    → count_live now w (drop_before now (pos w) ts) ≡ length (drop_before now (pos w) ts)
unfolding drop_before count_live
count_live-drop_before now w lo hi [] r = refl
count_live-drop_before now w lo hi (t ∷ ts) (r, r') =
    elim (Bool-cases (is_before_cutoff now (pos w) t)) [
      | inl b ↦ rw (b, drop_before) (count_live-drop_before now w t hi ts r')
      | inr b ↦
          rw (b, drop_before)
            (count_live-rising now w t hi (t ∷ ts) (ground arith) (omega arith, r'))
    ]

-- The state of the limiter stands for a log: the log has its stamps last, and those before them
-- are gone.
abbrev IsLogOf : ℕ → Time → List Time → List Time → Type 0
IsLogOf w last log ts =
    (gone : List Time) × (log ≡ gone ++ ts) × IsGone w last gone × IsRising 0 last ts

IsLogOf-drop_before :
    (w last now : ℕ) (log ts : List Time)
    → last ≤ now
    → IsLogOf w last log ts
    → IsLogOf w now log (drop_before now (pos w) ts)
IsLogOf-drop_before w last now log ts h (gone, e, g, r) =
    let (more, e', g') = drop_before_splits now w ts in
    (
      gone ++ more,
      e ∙ ap (◌++◌ gone) e' ∙ sym (append_assoc gone more (drop_before now (pos w) ts)),
      IsGone-append w now gone more (IsGone-later w last now gone h g) g',
      IsRising-drop_before 0 now now w ts (IsRising-later 0 last now ts h r),
    )

IsLogOf-later :
    (w last now : ℕ) (log ts : List Time)
    → last ≤ now
    → IsLogOf w last log ts
    → IsLogOf w now log ts
IsLogOf-later w last now log ts h (gone, e, g, r) =
    (gone, e, IsGone-later w last now gone h g, IsRising-later 0 last now ts h r)

IsLogOf-append :
    (w last t : ℕ) (log ts : List Time)
    → last ≤ t
    → IsLogOf w last log ts
    → IsLogOf w t (log ++ t ∷ []) (ts ++ t ∷ [])
IsLogOf-append w last t log ts h (gone, e, g, r) =
    (gone, simp (e, append_assoc), IsGone-later w last t gone h g, IsRising-append 0 last t ts h r)

-- After the cleanup, the limiter holds as many stamps as the log has in the window.
IsLogOf-count :
    (w last now : ℕ) (log ts : List Time)
    → last ≤ now
    → IsLogOf w last log ts
    → count_live now w log ≡ length (drop_before now (pos w) ts)
IsLogOf-count w last now log ts h l =
    let (gone, e, g, r) = IsLogOf-drop_before w last now log ts h l in
    ap (count_live now w) e
    ∙ omega (
      arith,
      count_live-append now w gone (drop_before now (pos w) ts),
      count_live-gone now w gone g,
      count_live-drop_before now w 0 last ts l.3,
    )

-- Each call keeps the relation, and answers as the specification does.
allow_all-IsLogOf :
    (l w : ℕ) (calls : List (Time × Time)) (last : Time) (log ts : List Time)
    → IsLogOf w last log ts
    → IsMonotonic last calls
    → allow_all calls (window_of l w ts) ≡ admit_all l w calls log
unfolding allow_all admit_all admit_logged
allow_all-IsLogOf l w [] last log ts r m = refl
allow_all-IsLogOf l w ((now, later) ∷ calls) last log ts r (m, m', m'') =
    let kept = drop_before now (pos w) ts in
    let same = IsLogOf-count w last now log ts m r in
    let r' = IsLogOf-drop_before w last now log ts m r in
    elim (dec_lt (length kept) l) [
      | yes room ↦
          rw
            (
              allow_granted now later l w ts room,
              admit_logged_granted l w now later log (omega arith),
            )
            (ap (◌∷◌ true) (
              allow_all-IsLogOf l w calls later (log ++ later ∷ []) (kept ++ later ∷ [])
                (IsLogOf-append w now later log kept m' r') m''))
      | no full ↦
          rw
            (
              allow_refused now later l w ts (omega arith),
              admit_logged_refused l w now later log (omega arith),
            )
            (ap (◌∷◌ false) (
              allow_all-IsLogOf l w calls later log kept (IsLogOf-later w now later log kept m' r')
                m''))
    ]

-- Along any history of calls with a clock that does not go back, a new limiter answers each Allow
-- as the specification does, which keeps every admission for good and admits a call as long as
-- fewer admissions than the limit are no older than the window.
pub allow_all-admit_all :
    (l w : ℕ) (sw : SlidingWindow) (calls : List (Time × Time))
    → new_sliding_window (pos l) (pos w) ≡ some sw
    → IsMonotonic 0 calls
    → allow_all calls sw ≡ admit_all l w calls []
unfolding new_sliding_window
allow_all-admit_all l w sw calls made m =
    let same : window_of l w [] ≡ sw = some-injective _ _ (ground arith) in
    subst (λ s. allow_all calls s ≡ admit_all l w calls []) same
      (allow_all-IsLogOf l w calls 0 [] [] ([], refl, tt, omega arith) m)
