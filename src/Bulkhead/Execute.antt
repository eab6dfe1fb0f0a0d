-- ===== src/Bulkhead/Execute.antt =====
-- `Execute` of the bulkhead (internal/bulkhead/bulkhead.go), over any state of the program in which
-- the bulkhead has its cell. The runtime's choice in the blocking `select` is the parameter
-- `select`.
use goshield_bootcamp.Bulkhead.Core.{
  send, Bulkhead, receive, has_room, count_call, count_rejected, count_completed, count_active,
}
use goshield_bootcamp.Base.Go.{
  returned, Cell, IsCell, panicked, Exit, bulkhead_full, Proc, GoError, bulkhead_timeout, Outcome,
}
use goshield_bootcamp.Base.Int.{pos, leb_ℤ}
use goshield_bootcamp.Base.{
  inl, inr, Option-cases, ap, ◌∙◌, arith, ◌+◌, ℕ, ◌≡◌, Option, none, some, if◌then◌else◌,
}

-- Which case of `select` is taken: the send, the timer, or the end of the context.
pub data Selected : Type 0 where
  sent : Selected
  timed_out : Selected
  cancelled : GoError → Selected

module _ {ℓ} {S : Type ℓ} (cell : Cell S Bulkhead) (select : S → Selected × S) where
  abbrev pub update : (Bulkhead → Bulkhead) → S → S
  update f s = cell.put (f (cell.get s)) s

  -- The send to the semaphore, then the count under the mutex.
  unfoldable pub take_slot : S → S
  unfolding send count_active
  take_slot s = update count_active (update send s)

  unfoldable pub acquire : S → Option GoError × S
  acquire s =
      if leb_ℤ (cell.get s).config.max_wait_duration (pos 0)
      then (if has_room (cell.get s) then (none, take_slot s) else (some bulkhead_full, s))
      else let (choice, s') = select s in
        elim choice [
          | sent ↦ (none, take_slot s')
          | timed_out ↦ (some bulkhead_timeout, s')
          | cancelled e ↦ (some e, s')
        ]

  unfoldable pub release : S → S
  unfolding receive count_completed
  release s = update count_completed (update receive s)

  -- The slots in use: those of the semaphore, and those counted.
  abbrev pub slots : S → ℕ × ℕ
  slots s = ((cell.get s).semaphore, (cell.get s).active_count)

  take_slot-get : IsCell cell → (s : S) → cell.get (take_slot s) ≡ count_active (send (cell.get s))
  unfolding take_slot
  take_slot-get lens s = lens _ _ ∙ ap count_active (lens _ _)

  release-get :
      IsCell cell → (s : S) → cell.get (release s) ≡ count_completed (receive (cell.get s))
  unfolding release
  release-get lens s = lens _ _ ∙ ap count_completed (lens _ _)

  pub slots-acquire :
      IsCell cell
      → ((s : S) → slots (select s).1 ≡ slots s)
      → (s : S)
      → let r = acquire s in
        let (held, active) = slots s in
        slots r.1 ≡ (elim r.0 [ none ↦ (held + 1, active + 1) | some e ↦ (held, active) ])
  unfolding acquire send count_active
  slots-acquire lens sel s =
      ground (arith, take_slot-get lens s, take_slot-get lens (select s).1, sel s)

  pub slots-release :
      IsCell cell
      → (s s₀ : S) → slots s ≡ ((slots s₀).0 + 1, (slots s₀).1 + 1)
      → slots (release s) ≡ slots s₀
  unfolding receive count_completed
  slots-release lens s s₀ h = ground (arith, release-get lens s)

abbrev pub end_of {ℓ μ} : {S : Type ℓ} {A : Type μ} → Exit S A → S
end_of (returned r s) = s
end_of (panicked s) = s

module _ {ℓ μ} {S : Type ℓ} {A : Type μ} (cell : Cell S Bulkhead) (select : S → Selected × S) where
  -- The deferred `release` runs whether `fn` returns or panics.
  unfoldable pub guarded : Proc S (Outcome A) → Proc S (Outcome A)
  guarded fn s = elim (fn s) [
    | returned r s' ↦ returned r (release cell select s')
    | panicked s' ↦ panicked (release cell select s')
  ]

  unfoldable pub execute : Proc S (Outcome A) → Proc S (Outcome A)
  unfolding count_rejected count_call
  execute fn s =
      let (err, s₁) = acquire cell select s in
      elim err [
        | some e ↦ returned (none, some e) (update cell select count_rejected s₁)
        | none ↦ guarded fn (update cell select count_call s₁)
      ]

  abbrev pub IsBalanced : Proc S (Outcome A) → Type ℓ
  IsBalanced fn = (s : S) → slots cell select (end_of (fn s)) ≡ slots cell select s

  pub guarded-end :
      (fn : Proc S (Outcome A)) (s : S)
      → end_of (guarded fn s) ≡ release cell select (end_of (fn s))
  unfolding guarded
  guarded-end fn s = ground arith

  slots-guarded :
      IsCell cell
      → (fn : Proc S (Outcome A)) → IsBalanced fn
      → (s s₀ : S)
      → slots cell select s ≡ ((slots cell select s₀).0 + 1, (slots cell select s₀).1 + 1)
      → slots cell select (end_of (guarded fn s)) ≡ slots cell select s₀
  slots-guarded lens fn b s s₀ h =
      rw (guarded-end fn s) (slots-release cell select lens _ s₀ (b s ∙ h))

  -- If the wrapped function and the runtime give back every slot that they take, so does Execute:
  -- when the call is refused, when the function returns, and when it panics.
  pub execute-IsBalanced :
      IsCell cell
      → ((s : S) → slots cell select (select s).1 ≡ slots cell select s)
      → (fn : Proc S (Outcome A)) → IsBalanced fn
      → IsBalanced (execute fn)
  unfolding execute
  execute-IsBalanced lens sel fn b s =
      let s₁ = (acquire cell select s).1 in
      elim (Option-cases (acquire cell select s).0) [
        | inl ok ↦
            rw (ok, execute)
              (slots-guarded lens fn b _ s (
                ground (
                  arith,
                  slots-acquire cell select lens sel s,
                  lens (count_call (cell.get s₁)) s₁,
                )))
        | inr (e, refused) ↦
            rw (refused, execute)
              (ground (
                arith,
                slots-acquire cell select lens sel s,
                lens (count_rejected (cell.get s₁)) s₁,
              ))
      ]
