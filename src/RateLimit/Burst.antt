-- ===== src/RateLimit/Burst.antt =====
-- What a token bucket lets through at one instant (internal/ratelimit/ratelimit.go).
use goshield_bootcamp.RateLimit.TokenBucket.{
  TokenBucket, new_token_bucket, refresh_tokens, allow_n, allow, cap_at,
}
use goshield_bootcamp.Base.Go.{Time, since}
use goshield_bootcamp.Base.Float.{Float64}
use goshield_bootcamp.Base.Int.{pos}
use goshield_bootcamp.Base.{
  ℕ, zero, suc, ◌+◌, ◌≤◌, ◌<◌, ◌^◌, ◌≡◌, refl, ◌∙◌, ap, Bool, true, false, List, [], ◌∷◌, ◌++◌,
  replicate, leb, ltb, arith,
}

module _ {ℓ} {F : Type ℓ} (float : Float64 F) where
  open float use {of_int, add, sub, mul, lt, le, seconds}

  -- float64 computes exactly with whole numbers up to 2 ^ 53.
  pub record IsWhole : Type ℓ where
    pub add_none : (n : ℕ) → n ≤ 2 ^ 53 → add (of_int (pos n)) (of_int (pos 0)) ≡ of_int (pos n)
    pub sub_one :
        (n : ℕ) → n < 2 ^ 53 → sub (of_int (pos (suc n))) (of_int (pos 1)) ≡ of_int (pos n)
    pub lt_whole :
        (m n : ℕ) → m ≤ 2 ^ 53 → n ≤ 2 ^ 53 → lt (of_int (pos m)) (of_int (pos n)) ≡ ltb m n
    pub le_whole :
        (m n : ℕ) → m ≤ 2 ^ 53 → n ≤ 2 ^ 53 → le (of_int (pos m)) (of_int (pos n)) ≡ leb m n

  -- What Allow answers to each of some requests at one reading of the clock.
  unfoldable pub burst_of : ℕ → Time → TokenBucket F → List Bool
  unfolding allow
  burst_of zero now tb = []
  burst_of (suc n) now tb = let (ok, tb') = allow float now tb in ok ∷ burst_of n now tb'

  -- A number of whole tokens at the reading `now`, in a bucket that adds none in no time.
  record HasTokens (t b : ℕ) (now : Time) (tb : TokenBucket F) : Type ℓ where
    held : tb.tokens ≡ of_int (pos t)
    burst : tb.burst ≡ pos b
    moment : tb.last_time ≡ now
    still : mul (seconds (pos 0)) tb.rate ≡ of_int (pos 0)

  leb_of_le : (m n : ℕ) → m ≤ n → leb m n ≡ true
  leb_of_le m n h = ground arith

  since_itself : (now : Time) → since now now ≡ pos 0
  since_itself now = ground arith

  cap_whole :
      IsWhole
      → (t b : ℕ) → t ≤ b
      → b ≤ 2 ^ 53
      → cap_at float (pos b) (of_int (pos t)) ≡ of_int (pos t)
  cap_whole w t b le' small = let below = w.lt_whole b t small (omega arith) in ground arith

  refresh_tokens-HasTokens :
      IsWhole
      → (t b : ℕ) (now : Time) (tb : TokenBucket F) → t ≤ b
      → b ≤ 2 ^ 53
      → HasTokens t b now tb
      → HasTokens t b now (refresh_tokens float now tb)
  unfolding refresh_tokens
  refresh_tokens-HasTokens w t b now tb le' small h =
      let none' = w.add_none t (omega arith) in
      let moment = since_itself now in
      let capped = cap_whole w t b le' small in
      record {
        held = rw (h.moment, moment, h.still, h.held, none', h.burst) capped;
        burst = h.burst;
        moment = refl;
        still = h.still;
      }

  allow-some :
      IsWhole
      → (t b : ℕ) (now : Time) (tb : TokenBucket F) → suc t ≤ b
      → b ≤ 2 ^ 53
      → HasTokens (suc t) b now tb
      → ((allow float now tb).0 ≡ true) × HasTokens t b now (allow float now tb).1
  unfolding allow allow_n
  allow-some w t b now tb le' small h =
      let r = refresh_tokens-HasTokens w (suc t) b now tb le' small h in
      let enough = w.le_whole 1 (suc t) (omega arith) (omega arith) in
      let left = w.sub_one t (omega arith) in
      let granted : le (of_int (pos 1)) (refresh_tokens float now tb).tokens ≡ true =
        rw (r.held) (enough ∙ leb_of_le 1 (suc t) (omega arith)) in
      rw (granted, allow)
        (
          refl,
          record { held = rw (r.held) left; burst = r.burst; moment = r.moment; still = r.still },
        )

  allow-none :
      IsWhole
      → (b : ℕ) (now : Time) (tb : TokenBucket F) → b ≤ 2 ^ 53
      → HasTokens 0 b now tb
      → ((allow float now tb).0 ≡ false) × HasTokens 0 b now (allow float now tb).1
  unfolding allow allow_n
  allow-none w b now tb small h =
      let r = refresh_tokens-HasTokens w 0 b now tb (omega arith) small h in
      let short = w.le_whole 1 0 (omega arith) (omega arith) in
      let refused : le (of_int (pos 1)) (refresh_tokens float now tb).tokens ≡ false =
        rw (r.held) short in
      rw (refused, allow) (refl, r)

  zero_add : (k : ℕ) → zero + k ≡ k
  zero_add k = omega arith

  suc_add : (t k : ℕ) → suc t + k ≡ suc (t + k)
  suc_add t k = omega arith

  none_left :
      IsWhole
      → (k b : ℕ) (now : Time) (tb : TokenBucket F) → b ≤ 2 ^ 53
      → HasTokens 0 b now tb
      → burst_of k now tb ≡ replicate k false
  unfolding burst_of
  none_left w zero b now tb small h = refl
  none_left w (suc k) b now tb small h =
      let (refused, h') = allow-none w b now tb small h in
      rw (refused) (ap (λ rest. false ∷ rest) (none_left w k b now (allow float now tb).1 small h'))

  some_left :
      IsWhole
      → (t k b : ℕ) (now : Time) (tb : TokenBucket F) → t ≤ b
      → b ≤ 2 ^ 53
      → HasTokens t b now tb
      → burst_of (t + k) now tb ≡ replicate t true ++ replicate k false
  unfolding burst_of
  some_left w zero k b now tb le' small h = rw (zero_add k) (none_left w k b now tb small h)
  some_left w (suc t) k b now tb le' small h =
      let (granted, h') = allow-some w t b now tb le' small h in
      rw (suc_add t k) (
        rw (granted) (
          ap (λ rest. true ∷ rest)
            (some_left w t k b now (allow float now tb).1 (omega arith) small h')))

  new_token_bucket-HasTokens :
      (now : Time) (rate : F) (b : ℕ)
      → mul (seconds (pos 0)) rate ≡ of_int (pos 0)
      → HasTokens b b now (new_token_bucket float now rate (pos b))
  unfolding new_token_bucket
  new_token_bucket-HasTokens now rate b still = record {
    held = refl;
    burst = refl;
    moment = refl;
    still = still;
  }

  -- With a float64 that is exact on whole numbers up to 2 ^ 53, a burst of at most that, and a rate
  -- that gives nothing in no time, as a finite one does: of the requests at the instant at which a
  -- token bucket is made, it allows as many as the burst, one after the other, and no more.
  pub burst_of-new_token_bucket :
      IsWhole
      → (b k : ℕ) (now : Time) (rate : F) → b ≤ 2 ^ 53
      → mul (seconds (pos 0)) rate ≡ of_int (pos 0)
      → burst_of (b + k) now (new_token_bucket float now rate (pos b))
        ≡ replicate b true ++ replicate k false
  burst_of-new_token_bucket w b k now rate small still =
      some_left w b k b now (new_token_bucket float now rate (pos b)) (omega arith) small
        (new_token_bucket-HasTokens now rate b still)
