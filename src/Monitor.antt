-- ===== src/Monitor.antt =====
-- `RuntimeStatus` and `RuntimeMonitor` of zero/runtime.py. The clock's readings and whether the
-- snapshot could be written are arguments; a failed write raises and changes nothing. A call is one
-- step; the code reads the status of `record_cycle_start` and `record_error` just before it takes the
-- lock, so calls of several threads at once are not covered.
pub mod History
mod Tests
use flash_loan.Prelude.{
  ℕ, zero, suc, ◌-◌, Bool, true, false, Option, none, some, List, [], ◌∷◌, Text, codes,
}
use flash_loan.Float.{FloatOps}

-- `x or None` for a number, and `row.get(key, 0) or 0`
abbrev pub or_none : ℕ → Option ℕ
or_none zero = none
or_none (suc n) = some (suc n)

abbrev pub or_zero : Option ℕ → ℕ
or_zero none = 0
or_zero (some n) = n

-- `endpoint or self.status.rpc_endpoint`
abbrev pub or_endpoint : Option Text → Option Text → Option Text
or_endpoint none old = old
or_endpoint (some []) old = old
or_endpoint (some (c ∷ s)) old = some (c ∷ s)

-- `int(x) if x is not None else old`
abbrev pub or_old {ℓ} : {A : Type ℓ} → Option A → Option A → Option A
or_old none old = old
or_old (some x) old = some x

-- `max(0, head - block) if block else None`
abbrev pub lag_of : ℕ → ℕ → Option ℕ
lag_of head zero = none
lag_of head (suc block) = some (head - suc block)

abbrev pub head_of : Option ℕ → ℕ → ℕ
head_of none block = block
head_of (some head) block = head

-- The phases that the monitor writes itself; `heartbeat` may give any text.
abbrev pub idle : Text
idle = codes "idle"

abbrev pub starting : Text
starting = codes "starting"

abbrev pub scanning : Text
scanning = codes "scanning"

abbrev pub sleeping : Text
sleeping = codes "sleeping"

abbrev pub error_phase : Text
error_phase = codes "error"

module _ (fl : FloatOps) where
  open fl use {Float, zero_f}

  pub record RuntimeStatus : Type 0 where
    pub heartbeat_at : Float
    pub process_pid : Option ℕ
    pub process_started_at : Option Float
    pub cycle_started_at : Option Float
    pub cycle_phase : Text
    pub cycle_number : ℕ
    pub last_cycle_completed_at : Option Float
    pub block : Option ℕ
    pub chain_head : Option ℕ
    pub block_lag : Option ℕ
    pub active_workers : ℕ
    pub routes_scanned : ℕ
    pub worker_failures : ℕ
    pub positive_net : ℕ
    pub best_expected_net : Option Float
    pub fork_attempted : ℕ
    pub fork_passed : ℕ
    pub fork_failed : ℕ
    pub elapsed_s : Float
    pub catalog_ms : Float
    pub scan_ms : Float
    pub verify_ms : Float
    pub consecutive_errors : ℕ
    pub last_error : Option Text
    pub rpc_endpoint : Option Text
    pub kill_state : Bool
    pub kill_reason : Option Text

  abbrev pub initial_status : RuntimeStatus
  initial_status = record {
    heartbeat_at = zero_f;
    process_pid = none;
    process_started_at = none;
    cycle_started_at = none;
    cycle_phase = idle;
    cycle_number = 0;
    last_cycle_completed_at = none;
    block = none;
    chain_head = none;
    block_lag = none;
    active_workers = 0;
    routes_scanned = 0;
    worker_failures = 0;
    positive_net = 0;
    best_expected_net = none;
    fork_attempted = 0;
    fork_passed = 0;
    fork_failed = 0;
    elapsed_s = zero_f;
    catalog_ms = zero_f;
    scan_ms = zero_f;
    verify_ms = zero_f;
    consecutive_errors = 0;
    last_error = none;
    rpc_endpoint = none;
    kill_state = false;
    kill_reason = none;
  }

  -- The `result` dict of a cycle: each key may be missing.
  pub record CycleResult : Type 0 where
    pub result_block : Option ℕ
    pub result_workers : Option ℕ
    pub result_scanned : Option ℕ
    pub result_failures : Option ℕ
    pub result_positive : Option ℕ
    pub result_best : Option Float
    pub result_attempted : Option ℕ
    pub result_passed : Option ℕ
    pub result_failed : Option ℕ
    pub result_elapsed : Option Float
    pub result_catalog : Option Float
    pub result_scan : Option Float
    pub result_verify : Option Float

  abbrev pub or_zero_f : Option Float → Float
  or_zero_f none = zero_f
  or_zero_f (some x) = x

  unfoldable pub record_process_start : Float → ℕ → RuntimeStatus → RuntimeStatus
  record_process_start now pid s = record s {
    heartbeat_at = now;
    process_pid = some pid;
    process_started_at = some now;
    cycle_phase = starting;
  }

  unfoldable pub record_cycle_start : Float → Option ℕ → Option Text → RuntimeStatus → RuntimeStatus
  record_cycle_start now block endpoint s = record s {
    heartbeat_at = now;
    cycle_started_at = some now;
    cycle_phase = scanning;
    cycle_number = suc s.cycle_number;
    block = or_old block s.block;
    rpc_endpoint = or_endpoint endpoint s.rpc_endpoint;
  }

  unfoldable pub heartbeat : Float → Option Text → RuntimeStatus → RuntimeStatus
  heartbeat now none s = record s { heartbeat_at = now }
  heartbeat now (some phase) s = record s { heartbeat_at = now; cycle_phase = phase }

  unfoldable pub record_cycle :
      Float → CycleResult → Option ℕ → Option Text → RuntimeStatus → RuntimeStatus
  record_cycle now r chain_head endpoint s =
      let block = or_zero r.result_block in
      let head = head_of chain_head block in
      record s {
        heartbeat_at = now;
        last_cycle_completed_at = some now;
        cycle_phase = sleeping;
        block = or_none block;
        chain_head = or_none head;
        block_lag = lag_of head block;
        active_workers = or_zero r.result_workers;
        routes_scanned = or_zero r.result_scanned;
        worker_failures = or_zero r.result_failures;
        positive_net = or_zero r.result_positive;
        best_expected_net = r.result_best;
        fork_attempted = or_zero r.result_attempted;
        fork_passed = or_zero r.result_passed;
        fork_failed = or_zero r.result_failed;
        elapsed_s = or_zero_f r.result_elapsed;
        catalog_ms = or_zero_f r.result_catalog;
        scan_ms = or_zero_f r.result_scan;
        verify_ms = or_zero_f r.result_verify;
        consecutive_errors = 0;
        last_error = none;
        rpc_endpoint = or_endpoint endpoint s.rpc_endpoint;
      }

  unfoldable pub record_error : Float → Text → Option Text → RuntimeStatus → RuntimeStatus
  record_error now message endpoint s = record s {
    heartbeat_at = now;
    cycle_phase = error_phase;
    consecutive_errors = suc s.consecutive_errors;
    last_error = some message;
    rpc_endpoint = or_endpoint endpoint s.rpc_endpoint;
  }

  unfoldable pub set_kill_state : Float → Bool → Option Text → RuntimeStatus → RuntimeStatus
  set_kill_state now killed reason s = record s {
    heartbeat_at = now;
    kill_state = killed;
    kill_reason = reason;
  }

  -- A call of a method of the monitor, with the reading of the clock.
  pub data Event : Type 0 where
    process_start : Float → ℕ → Event
    cycle_start : Float → Option ℕ → Option Text → Event
    beat : Float → Option Text → Event
    cycle : Float → CycleResult → Option ℕ → Option Text → Event
    failure : Float → Text → Option Text → Event
    kill : Float → Bool → Option Text → Event

  unfoldable pub apply : Event → RuntimeStatus → RuntimeStatus
  apply (process_start now pid) s = record_process_start now pid s
  apply (cycle_start now block endpoint) s = record_cycle_start now block endpoint s
  apply (beat now phase) s = heartbeat now phase s
  apply (cycle now r head endpoint) s = record_cycle now r head endpoint s
  apply (failure now message endpoint) s = record_error now message endpoint s
  apply (kill now killed reason) s = set_kill_state now killed reason s

  -- The monitor's status and what its file holds.
  pub record RuntimeMonitor : Type 0 where
    pub status : RuntimeStatus
    pub snapshot : Option RuntimeStatus

  abbrev pub new_monitor : RuntimeMonitor
  new_monitor = record { status = initial_status; snapshot = none }

  -- `_update` and `_write_locked`: the temporary file replaces the snapshot before the status is
  -- set. False is a write that raised.
  unfoldable pub update : Bool → RuntimeStatus → RuntimeMonitor → RuntimeMonitor
  update false changed m = m
  update true changed m = record { status = changed; snapshot = some changed }

  unfoldable pub run_events : List (Event × Bool) → RuntimeMonitor → RuntimeMonitor
  unfolding apply update
  run_events [] m = m
  run_events ((event, written) ∷ events) m =
      run_events events (update written (apply event m.status) m)
