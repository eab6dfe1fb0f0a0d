-- ===== src/Timeout/Select.antt =====
-- One call of Execute with a duration above 0 (internal/timeout/timeout.go), as the steps of its
-- two goroutines: the one that runs the function and sends its result, and the one that selects.
pub mod Completes
use goshield_bootcamp.Timeout.{
  Config, Raced, finished, expired, cancelled, conclude, spawn_on_timeout,
}
use goshield_bootcamp.Base.Go.{
  returned, Outcome, GoError, operation_timed_out, context_canceled, context_deadline_exceeded,
}
use goshield_bootcamp.Base.{◌≡◌, refl, ◌⊎◌, inl, inr, Option, none, some, arith}

-- The goroutine of the function: it runs, it has the result to send, and it has sent it.
pub data Worker {ℓ} (A : Type ℓ) : Type ℓ where
  running : Worker A
  sending : Outcome A → Worker A
  through : Outcome A → Worker A

pub data Caller {ℓ} (A : Type ℓ) : Type ℓ where
  selecting : Caller A
  answered : Outcome A → Caller A

-- The channel has room for one result; `ended` is the error of the context, once it has one.
pub record Call {ℓ μ} (S : Type ℓ) (A : Type μ) : Type (ℓ ⊔ μ) where
  pub worker : Worker A
  pub channel : Option (Outcome A)
  pub ended : Option GoError
  pub caller : Caller A
  pub program : S

abbrev pub begin {ℓ μ} : {S : Type ℓ} {A : Type μ} → S → Call S A
begin s = record { worker = running; channel = none; ended = none; caller = selecting; program = s }

-- `ctx.Err() == context.DeadlineExceeded`
unfoldable pub raced_of {ℓ} : {A : Type ℓ} → GoError → Raced A
raced_of context_deadline_exceeded = expired
raced_of e = cancelled e

-- The deferred `cancel()`.
abbrev pub cancel : Option GoError → Option GoError
cancel none = some context_canceled
cancel (some e) = some e

-- What is answered for an error of the context.
abbrev pub timeout_error : GoError → GoError
timeout_error context_deadline_exceeded = operation_timed_out
timeout_error e = e

module _ {ℓ μ} {S : Type ℓ} {A : Type μ} (c : Config S) where
  pub data Step (k : Call S A) : Call S A → Type (ℓ ⊔ μ) where
    works : (s : S) → Step k (record k { program = s })
    finishes : (r : Outcome A) → k.worker ≡ running → Step k (record k { worker = sending r })
    sends :
        (r : Outcome A)
        → k.worker ≡ sending r
        → k.channel ≡ none
        → Step k (record k { worker = through r; channel = some r })
    ends : (e : GoError) → k.ended ≡ none → Step k (record k { ended = some e })
    takes :
        (r v : Outcome A) (s : S)
        → k.caller ≡ selecting
        → k.channel ≡ some r
        → conclude c (returned (finished r) k.program) ≡ returned v s
        → Step k
            (record k { channel = none; ended = cancel k.ended; caller = answered v; program = s })
    gives_up :
        (e : GoError) (v : Outcome A) (s : S)
        → k.caller ≡ selecting
        → k.ended ≡ some e
        → conclude c (returned (raced_of e) k.program) ≡ returned v s
        → Step k (record k { caller = answered v; program = s })

  pub data Reach (k : Call S A) : Call S A → Type (ℓ ⊔ μ) where
    here : Reach k k
    next : {l m : Call S A} → Reach k l → Step l m → Reach k m

  -- The answer is the function's, or it is the context's.
  abbrev pub IsAnswer : Call S A → Outcome A → Type μ
  IsAnswer k v =
      (k.worker ≡ through v)
      ⊎ ((e : GoError) × (k.ended ≡ some e) × (v ≡ (none, some (timeout_error e))))

  pub record IsSound (k : Call S A) : Type μ where
    pub free : (r : Outcome A) → k.worker ≡ sending r → k.channel ≡ none
    pub sent : (r : Outcome A) → k.channel ≡ some r → k.worker ≡ through r
    pub idle : k.worker ≡ running → k.channel ≡ none
    pub waiting : k.caller ≡ selecting → (r : Outcome A) → k.worker ≡ through r → k.channel ≡ some r
    pub told : (v : Outcome A) → k.caller ≡ answered v → IsAnswer k v

  begin-IsSound : (s : S) → IsSound (begin s)
  begin-IsSound s = record {
    free = λ r h. refl;
    sent = λ r h. absurd (ground arith);
    idle = λ h. refl;
    waiting = λ h r e. absurd (ground arith);
    told = λ v h. absurd (ground arith);
  }

  -- What the code answers for an error of the context.
  given_up :
      (e : GoError) (p s : S) (v : Outcome A)
      → conclude c (returned (raced_of e) p) ≡ returned v s
      → v ≡ (none, some (timeout_error e))
  unfolding conclude raced_of
  given_up context_deadline_exceeded p s v h = ground arith
  given_up e p s v h = ground arith

  taken : (r v : Outcome A) (p s : S) → conclude c (returned (finished r) p) ≡ returned v s → r ≡ v
  unfolding conclude
  taken r v p s h = ground arith

  pub Step-IsSound : {k l : Call S A} → Step k l → IsSound k → IsSound l
  Step-IsSound (works s) v = record {
    free = v.free;
    sent = v.sent;
    idle = v.idle;
    waiting = v.waiting;
    told = v.told;
  }
  Step-IsSound (finishes r h) v = record {
    free = λ x q. v.idle h;
    sent = λ x q. absurd (ground (arith, v.idle h));
    idle = λ q. v.idle h;
    waiting = λ p x q. absurd (ground arith);
    told = λ x q. elim (v.told x q) [ inl t ↦ absurd (ground arith) | inr t ↦ inr t ];
  }
  Step-IsSound (sends r h e) v = record {
    free = λ x q. absurd (ground arith);
    sent = λ x q. ground arith;
    idle = λ q. absurd (ground arith);
    waiting = λ p x q. ground arith;
    told = λ x q. elim (v.told x q) [ inl t ↦ absurd (ground arith) | inr t ↦ inr t ];
  }
  Step-IsSound (ends e h) v = record {
    free = v.free;
    sent = v.sent;
    idle = v.idle;
    waiting = v.waiting;
    told = λ x q. elim (v.told x q) [ inl t ↦ inl t | inr (e', t, p) ↦ absurd (ground arith) ];
  }
  Step-IsSound (takes r w s h e c') v = record {
    free = λ x q. refl;
    sent = λ x q. absurd (ground arith);
    idle = λ q. refl;
    waiting = λ p x q. absurd (ground arith);
    told = λ x q. inl (ground (arith, v.sent r e, taken r w _ s c'));
  }
  Step-IsSound (gives_up e w s h k' c') v = record {
    free = v.free;
    sent = v.sent;
    idle = v.idle;
    waiting = λ p x q. absurd (ground arith);
    told = λ x q. inr (e, k', ground (arith, given_up e _ s w c'));
  }

  -- In every state that one call of Execute can reach, whatever the function and the context do:
  -- the channel is empty when the goroutine of the function has its result to send, so that it is
  -- never stuck; and the call has answered only what the function returned, or the error of the
  -- context, once it had one, ErrTimeout for that of the deadline.
  pub Reach-IsSound : {s : S} {k : Call S A} → Reach (begin s) k → IsSound k
  Reach-IsSound {s} here = begin-IsSound s
  Reach-IsSound (next r st) = Step-IsSound st (Reach-IsSound r)
