-- ===== src/Timeout/Select/Completes.antt =====
-- How a call of a timeout gets to an answer (internal/timeout/timeout.go).
use goshield_bootcamp.Timeout.Select.{
  Worker, running, sending, through, Caller, selecting, answered, Call, begin, raced_of, cancel,
  timeout_error, Step, takes, sends, gives_up, Reach, here, next, IsSound, Step-IsSound,
  Reach-IsSound,
}
use goshield_bootcamp.Timeout.{Config, conclude, spawn_on_timeout}
use goshield_bootcamp.Base.Go.{returned, Outcome, GoError, context_deadline_exceeded}
use goshield_bootcamp.Base.{◌≡◌, ◌≢◌, refl, ◌⊎◌, inl, inr, none, some, arith}

-- Where the goroutine of the function can get to when the function itself runs no further.
abbrev pub settled {ℓ} : {A : Type ℓ} → Worker A → Worker A
settled (sending r) = through r
settled w = w

module _ {ℓ μ} {S : Type ℓ} {A : Type μ} (c : Config S) where
  caller-cases : (x : Caller A) → (x ≡ selecting) ⊎ ((v : Outcome A) × (x ≡ answered v))
  caller-cases selecting = inl refl
  caller-cases (answered v) = inr (v, refl)

  worker-cases :
      (w : Worker A)
      → (w ≡ running) ⊎ (((r : Outcome A) × (w ≡ sending r)) ⊎ ((r : Outcome A) × (w ≡ through r)))
  worker-cases running = inl refl
  worker-cases (sending r) = inr (inl (r, refl))
  worker-cases (through r) = inr (inr (r, refl))

  abbrev IsOver : Call S A → Outcome A → Type μ
  IsOver l r = (l.worker ≡ through r) × ((v : Outcome A) × (l.caller ≡ answered v))

  Reach-trans : {k l m : Call S A} → Reach c k l → Reach c l m → Reach c k m
  Reach-trans p here = p
  Reach-trans p (next q st) = next (Reach-trans p q) st

  through-IsOver :
      (k : Call S A) (r : Outcome A)
      → IsSound c k
      → k.worker ≡ through r
      → (l : Call S A) × Reach c k l × IsOver l r
  unfolding conclude
  through-IsOver k r v h = elim (caller-cases k.caller) [
    | inr (x, done) ↦ (k, here, (h, (x, done)))
    | inl waits ↦ (
      record k { channel = none; ended = cancel k.ended; caller = answered r },
      next here (takes r r k.program waits (v.waiting waits r h) refl),
      (h, (r, refl)),
    )
  ]

  gives :
      (e : GoError) (p : S)
      → conclude {A = A} c (returned (raced_of e) p)
        ≡ returned (none, some (timeout_error e)) (spawn_on_timeout c p)
  unfolding conclude raced_of
  gives context_deadline_exceeded p = refl
  gives e p = refl

  -- The function has returned, or the context has ended.
  pub data IsReady (k : Call S A) : Type μ where
    ran : k.worker ≢ running → IsReady k
    over : (e : GoError) → k.ended ≡ some e → IsReady k

  abbrev pub Completes : Call S A → Type (ℓ ⊔ μ)
  Completes k =
      (l : Call S A) × Reach c k l
      × (l.worker ≡ settled k.worker)
      × ((v : Outcome A) × (l.caller ≡ answered v))

  sends-Completes :
      (k : Call S A) (r : Outcome A) → IsSound c k → k.worker ≡ sending r → Completes k
  sends-Completes k r v h =
      let st : Step c k (record k { worker = through r; channel = some r }) =
        sends r h (v.free r h) in
      let (l, q, (p, done)) = through-IsOver _ r (Step-IsSound c st v) refl in
      (l, Reach-trans (next here st) q, ground arith, done)

  runs-Completes :
      (k : Call S A) (e : GoError) → k.worker ≡ running → k.ended ≡ some e → Completes k
  runs-Completes k e h ended = elim (caller-cases k.caller) [
    | inr (x, done) ↦ (k, here, ground arith, (x, done))
    | inl waits ↦
        let v : Outcome A = (none, some (timeout_error e)) in
        (
          record k { caller = answered v; program = spawn_on_timeout c k.program },
          next here (gives_up e v (spawn_on_timeout c k.program) waits ended (gives e k.program)),
          ground arith,
          (v, refl),
        )
  ]

  waiting_for : (k : Call S A) → k.worker ≡ running → IsReady k → (e : GoError) × (k.ended ≡ some e)
  waiting_for k h (ran n) = absurd (n h)
  waiting_for k h (over e p) = (e, p)

  -- From every state that a call can reach in which the function has returned or the context has
  -- ended, without a further step of the function itself: the call can answer, and the goroutine of
  -- a function that has returned can get through, whatever has become of the context.
  pub call_completes :
      {s : S} (k : Call S A)
      → Reach c (begin s) k
      → IsReady k
      → (l : Call S A) × Reach c k l
        × (l.worker ≡ settled k.worker)
        × ((v : Outcome A) × (l.caller ≡ answered v))
  call_completes k r ready = elim (worker-cases k.worker) [
    | inl h ↦ let (e, p) = waiting_for k h ready in runs-Completes k e h p
    | inr (inl (x, h)) ↦ sends-Completes k x (Reach-IsSound c r) h
    | inr (inr (x, h)) ↦
        let (l, q, (p, done)) = through-IsOver k x (Reach-IsSound c r) h in
        (l, q, ground arith, done)
  ]
