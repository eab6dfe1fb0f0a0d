-- ===== src/Bulkhead/Crowd.antt =====
-- The bulkhead under many goroutines (internal/bulkhead/bulkhead.go): each critical section and
-- each channel operation of `Execute` is a step of its own, and any goroutine may take the next
-- one.
use goshield_bootcamp.Base.Go.{u64_mod}
use goshield_bootcamp.Base.Int.{leb_ℤ, pos, negsuc}
use goshield_bootcamp.Bulkhead.Core.{
  get_metrics, Config, new, send, Bulkhead, receive, has_room, count_call, count_rejected,
  count_completed, capacity, count_active,
}
use goshield_bootcamp.Base.{ℕ, ◌+◌, ◌-◌, ◌%◌, ◌≤◌, ◌<◌, ◌≡◌, ◌⊎◌, true, false, arith}

-- How many goroutines have sent to the semaphore and are not yet counted, are counted, are past
-- `totalCalls++`, have received from the semaphore and are still counted, and are through; and how
-- many failed to acquire and are not yet counted as rejected, and are.
pub record System : Type 0 where
  pub bulkhead : Bulkhead
  pub sending : ℕ
  pub counted : ℕ
  pub running : ℕ
  pub leaving : ℕ
  pub completed : ℕ
  pub turned : ℕ
  pub refused : ℕ

abbrev pub start : Config → System
start c = record {
  bulkhead = new c;
  sending = 0;
  counted = 0;
  running = 0;
  leaving = 0;
  completed = 0;
  turned = 0;
  refused = 0;
}

-- `acquire` fails at once if it does not wait and finds no room; if it waits, its timer or its
-- context may end at any moment.
abbrev pub CanFail : Bulkhead → Type 0
CanFail b = (leb_ℤ b.config.max_wait_duration (pos 0) ≡ false) ⊎ (has_room b ≡ false)

pub data Step (s : System) : System → Type 0 where
  sends :
      has_room s.bulkhead ≡ true
      → Step s (record s { bulkhead = send s.bulkhead; sending = s.sending + 1 })
  counts :
      0 < s.sending
      → Step s (record s {
        bulkhead = count_active s.bulkhead;
        sending = s.sending - 1;
        counted = s.counted + 1;
      })
  begins :
      0 < s.counted
      → Step s (record s {
        bulkhead = count_call s.bulkhead;
        counted = s.counted - 1;
        running = s.running + 1;
      })
  receives :
      0 < s.running
      → Step s (record s {
        bulkhead = receive s.bulkhead;
        running = s.running - 1;
        leaving = s.leaving + 1;
      })
  ends :
      0 < s.leaving
      → Step s (record s {
        bulkhead = count_completed s.bulkhead;
        leaving = s.leaving - 1;
        completed = s.completed + 1;
      })
  turns_away : CanFail s.bulkhead → Step s (record s { turned = s.turned + 1 })
  refuses :
      0 < s.turned
      → Step s (record s {
        bulkhead = count_rejected s.bulkhead;
        turned = s.turned - 1;
        refused = s.refused + 1;
      })

pub data Reach (s : System) : System → Type 0 where
  here : Reach s s
  next : {t u : System} → Reach s t → Step t u → Reach s u

pub record IsSafe (s : System) : Type 0 where
  pub held : s.bulkhead.semaphore ≡ s.sending + s.counted + s.running
  pub bounded : s.bulkhead.semaphore ≤ capacity s.bulkhead
  pub active : s.bulkhead.active_count ≡ s.counted + s.running + s.leaving
  pub calls : s.bulkhead.total_calls ≡ (s.running + s.leaving + s.completed) % u64_mod
  pub completions : s.bulkhead.total_completed ≡ s.completed % u64_mod
  pub rejections : s.bulkhead.total_rejected ≡ s.refused % u64_mod
  pub positive : 0 < capacity s.bulkhead

start-IsSafe : (c : Config) → IsSafe (start c)
unfolding new
start-IsSafe c = ground arith

Step-IsSafe : {s t : System} → Step s t → IsSafe s → IsSafe t
unfolding send count_active count_call receive count_completed count_rejected
Step-IsSafe (sends h) v = ground arith
Step-IsSafe (counts h) v = ground arith
Step-IsSafe (begins h) v = ground arith
Step-IsSafe (receives h) v = ground arith
Step-IsSafe (ends h) v = ground arith
Step-IsSafe (turns_away h) v = ground arith
Step-IsSafe (refuses h) v = ground arith

-- In every state that the goroutines can reach from a new bulkhead, the semaphore holds one value
-- for each call between its send and its receive, at most MaxConcurrent of them, so no more than
-- MaxConcurrent functions run at once; and the metrics count, modulo 2 ^ 64, the calls begun,
-- completed and rejected.
pub Reach-IsSafe : (c : Config) (s : System) → Reach (start c) s → IsSafe s
Reach-IsSafe c _ here = start-IsSafe c
Reach-IsSafe c s (next r st) = Step-IsSafe st (Reach-IsSafe c _ r)

-- In every state that the goroutines can reach from a new bulkhead and in which no call is under
-- way, the metrics report MaxConcurrent available slots and no active call, the semaphore is empty,
-- and as many calls are counted as begun as are counted as completed.
pub quiet_metrics :
    (c : Config) (s : System)
    → Reach (start c) s
    → s.sending + s.counted + s.running + s.leaving ≡ 0
    → let m = get_metrics s.bulkhead in
      (m.available_slots ≡ s.bulkhead.config.max_concurrent)
      × (m.active_count ≡ 0)
      × (s.bulkhead.semaphore ≡ 0)
      × (m.total_calls ≡ m.total_completed)
unfolding get_metrics
quiet_metrics c s r q = ground (arith, Reach-IsSafe c s r)

-- From every reachable state in which the semaphore is full and a function runs, with every call
-- that holds a slot counted and none leaving, the goroutines can reach one in which active_count is
-- one above MaxConcurrent and the metrics report -1 available slots.
pub available_negative :
    (c : Config) (s : System)
    → Reach (start c) s
    → s.bulkhead.semaphore ≡ capacity s.bulkhead
    → 0 < s.running
    → s.sending ≡ 0
    → s.leaving ≡ 0
    → (t : System) × Reach (start c) t
      × ((get_metrics t.bulkhead).available_slots ≡ negsuc 0)
      × (t.bulkhead.active_count ≡ capacity t.bulkhead + 1)
unfolding get_metrics receive send count_active
available_negative c s r full run no_sender no_leaver =
    let v = Reach-IsSafe c s r in
    let b = receive s.bulkhead in
    let t₁ : System = record s { bulkhead = b; running = s.running - 1; leaving = s.leaving + 1 } in
    let t₂ : System = record t₁ { bulkhead = send b; sending = s.sending + 1 } in
    let t₃ : System = record t₂ {
      bulkhead = count_active (send b);
      sending = s.sending + 1 - 1;
      counted = s.counted + 1;
    } in
    (
      t₃,
      next {t = t₂} (next {t = t₁} (next r (receives run)) (sends (ground arith)))
          (counts (omega arith)),
      ground arith,
      ground arith,
    )
