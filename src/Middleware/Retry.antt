-- ===== src/Middleware/Retry.antt =====
-- The middleware Retry (pkg/middleware/middleware.go).
use goshield_bootcamp.Middleware.Recorder.{
  client_status-append, record_all-client_status, new_recorder, record_all,
}
use goshield_bootcamp.Middleware.Guards.{service_unavailable, followed}
use goshield_bootcamp.Base.Go.{returned, Duration}
use goshield_bootcamp.Base.Int.{pos, negsuc, wrap64, ◌*ℤ◌, ℤ}
use goshield_bootcamp.Base.{
  All, List, ◌∷◌, arith, ℕ, zero, suc, ◌+◌, ◌≡◌, Bool, true, false, [], if◌then◌else◌, leb,
}
use goshield_bootcamp.Middleware.Http.{IsFinal, Event, Served, Handler, Middleware, Http, IsHttp}

-- `for i := 0; i <= maxRetries; i++`
abbrev pub rounds_of : ℤ → ℕ
rounds_of (pos n) = suc n
rounds_of (negsuc n) = 0

module _ {ℓ} {S : Type ℓ} (sleep : Duration → S → S) where
  -- `backoff * time.Duration(i+1)`, asleep unless this is the last round.
  abbrev pub pause : ℕ → ℕ → Duration → S → S
  unfolding ◌*ℤ◌
  pause zero i backoff s = s
  pause (suc left) i backoff s = sleep (wrap64 (backoff *ℤ pos (i + 1))) s

module _ {ℓ} {S : Type ℓ} where
  -- What follows an attempt: the answer stands, or a further round is made.
  unfoldable pub judge : Served S → (S → Served S) → Served S
  unfolding record_all
  judge x retried_by =
      let (rec, passed) = record_all x.events new_recorder in
      let answer : Served S = record { events = passed; exit = x.exit } in
      if leb 500 rec.status_code then followed answer retried_by else answer

  client_status-judge :
      (http : Http)
      → IsHttp http
      → (es : List Event) → All IsFinal es
      → (s : S) (retried_by : S → Served S)
      → http.client_status (judge (record { events = es; exit = returned tt s }) retried_by).events
        ≡ http.client_status es
  unfolding judge
  client_status-judge http h [] f s retried_by =
      ground (arith, record_all-client_status http h [] f)
  client_status-judge http h (e ∷ es) f s retried_by = ground (
    arith,
    record_all-client_status http h (e ∷ es) f,
    client_status-append http h e es (retried_by s).events f.0,
  )

module _ {ℓ κ} {R : Type ℓ} {S : Type κ} (http : Http) (sleep : Duration → S → S) where
  -- The rounds from `i` on, by the rounds left; `tried` says that lastErr is set.
  unfoldable pub retry_loop : Duration → Handler R S → ℕ → ℕ → Bool → R → S → Served S
  unfolding judge
  retry_loop backoff next zero i tried r s = record {
    events = if tried then http.error "Service Unavailable" service_unavailable else [];
    exit = returned tt s;
  }
  retry_loop backoff next (suc left) i tried r s =
      judge (next r s)
        (λ s'. retry_loop backoff next left (i + 1) true r (pause sleep left i backoff s'))

  unfoldable pub retry : ℤ → Duration → Middleware R S
  unfolding retry_loop
  retry max_retries backoff next r s = retry_loop backoff next (rounds_of max_retries) 0 false r s

  -- Whatever the later attempts answer, and with any number of retries from 0 on, a client sees the
  -- status of the first attempt, where that returns and its headers are final.
  pub client_status-retry :
      IsHttp http
      → (max_retries : ℕ) (backoff : Duration) (next : Handler R S) (r : R) (s s' : S)
      → All IsFinal (next r s).events
      → (next r s).exit ≡ returned tt s'
      → http.client_status (retry (pos max_retries) backoff next r s).events
        ≡ http.client_status (next r s).events
  unfolding retry
  client_status-retry h max backoff next r s s' f e =
      let retried_by =
        λ (t : S). retry_loop backoff next max 1 true r (pause sleep max 0 backoff t) in
      rw e (client_status-judge http h (next r s).events f s' retried_by)
