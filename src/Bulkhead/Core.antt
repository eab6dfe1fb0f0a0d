-- ===== src/Bulkhead/Core.antt =====
-- The bulkhead and its critical sections (internal/bulkhead/bulkhead.go). The buffered channel
-- `semaphore` is the number of values that it holds.
use goshield_bootcamp.Base.Go.{Duration, inc64}
use goshield_bootcamp.Base.Int.{ℤ, ◌-ℤ◌, pos_part, pos, leb_ℤ}
use goshield_bootcamp.Base.{ℕ, ◌+◌, ◌-◌, Bool, if◌then◌else◌, ltb}

pub record Config : Type 0 where
  pub max_concurrent : ℤ
  pub max_wait_duration : Duration
  pub on_call_rejected : Bool

-- `spawned` counts the goroutines started for OnCallRejected.
pub record Bulkhead : Type 0 where
  pub config : Config
  pub semaphore : ℕ
  pub active_count : ℕ
  pub total_calls : ℕ
  pub total_rejected : ℕ
  pub total_completed : ℕ
  pub spawned : ℕ

unfoldable pub new : Config → Bulkhead
new c = record {
  config = record c {
    max_concurrent = if leb_ℤ c.max_concurrent (pos 0) then pos 10 else c.max_concurrent;
  };
  semaphore = 0;
  active_count = 0;
  total_calls = 0;
  total_rejected = 0;
  total_completed = 0;
  spawned = 0;
}

-- `cap(b.semaphore)`
abbrev pub capacity : Bulkhead → ℕ
capacity b = pos_part b.config.max_concurrent

-- Can `b.semaphore <- struct{}{}` proceed?
abbrev pub has_room : Bulkhead → Bool
has_room b = ltb b.semaphore (capacity b)

unfoldable pub send : Bulkhead → Bulkhead
send b = record b { semaphore = b.semaphore + 1 }

unfoldable pub count_active : Bulkhead → Bulkhead
count_active b = record b { active_count = b.active_count + 1 }

unfoldable pub count_call : Bulkhead → Bulkhead
count_call b = record b { total_calls = inc64 b.total_calls }

unfoldable pub count_rejected : Bulkhead → Bulkhead
count_rejected b = record b {
  total_rejected = inc64 b.total_rejected;
  spawned = if b.config.on_call_rejected then b.spawned + 1 else b.spawned;
}

-- `<-b.semaphore`, which waits for a value: it is called with one there.
unfoldable pub receive : Bulkhead → Bulkhead
receive b = record b { semaphore = b.semaphore - 1 }

-- `activeCount--` follows an `activeCount++`.
unfoldable pub count_completed : Bulkhead → Bulkhead
count_completed b = record b {
  active_count = b.active_count - 1;
  total_completed = inc64 b.total_completed;
}

pub record Metrics : Type 0 where
  pub active_count : ℕ
  pub available_slots : ℤ
  pub total_calls : ℕ
  pub total_rejected : ℕ
  pub total_completed : ℕ

unfoldable pub get_metrics : Bulkhead → Metrics
unfolding ◌-ℤ◌
get_metrics b = record {
  active_count = b.active_count;
  available_slots = b.config.max_concurrent -ℤ pos b.active_count;
  total_calls = b.total_calls;
  total_rejected = b.total_rejected;
  total_completed = b.total_completed;
}
