-- ===== src/Monitor/Tests.antt =====
-- The monitor on whole-number floats: a run in which one write fails.
use flash_loan.Prelude.{◌≡◌, refl, true, false, none, some, [], ◌∷◌, codes}
use flash_loan.Prelude.Int.{pos}
use flash_loan.Float.{whole_floats}
use flash_loan.Monitor.{
  CycleResult, process_start, cycle_start, beat, cycle, failure, kill, run_events, new_monitor,
  apply, update, record_process_start, record_cycle_start, heartbeat, record_cycle, record_error,
  set_kill_state,
}
use flash_loan.Monitor.History.{Calls, Tells, written_calls, run_events-Tells}

abbrev result : CycleResult whole_floats
result = record {
  result_block = some 100;
  result_workers = some 3;
  result_scanned = some 12;
  result_failures = none;
  result_positive = some 1;
  result_best = some (pos 4);
  result_attempted = some 1;
  result_passed = some 1;
  result_failed = some 0;
  result_elapsed = some (pos 2);
  result_catalog = none;
  result_scan = none;
  result_verify = none;
}

abbrev calls : Calls whole_floats
calls =
    (process_start (pos 1) 77, true)
    ∷ (failure (pos 2) (codes "RpcError: down") none, true)
    ∷ (cycle_start (pos 3) (some 100) (some (codes "a")), true)
    ∷ (cycle (pos 4) result (some 103) none, true)
    ∷ (failure (pos 5) (codes "RpcError: down") none, false)
    ∷ (failure (pos 6) (codes "RpcError: down") (some []), true)
    ∷ (beat (pos 7) none, true)
    ∷ (kill (pos 8) true (some (codes "manual")), true)
    ∷ []

run_events_counts :
    (run_events whole_floats calls (new_monitor whole_floats)).status.consecutive_errors ≡ 1
unfolding run_events apply update record_process_start record_cycle_start heartbeat record_cycle
    record_error set_kill_state
run_events_counts = refl

run_events_lag :
    (run_events whole_floats calls (new_monitor whole_floats)).status.block_lag ≡ some 3
unfolding run_events apply update record_process_start record_cycle_start heartbeat record_cycle
    record_error set_kill_state
run_events_lag = refl

run_events-Tells_example :
    Tells whole_floats
      (written_calls whole_floats calls [])
      (run_events whole_floats calls (new_monitor whole_floats))
run_events-Tells_example = run_events-Tells whole_floats calls
