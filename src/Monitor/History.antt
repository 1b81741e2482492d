-- ===== src/Monitor/History.antt =====
-- What the status of `RuntimeMonitor` in zero/runtime.py says of the calls that were made.
use flash_loan.Prelude.{
  ℕ, zero, suc, ◌≡◌, refl, ap, Bool, true, false, not, Option, none, some, List, [], ◌∷◌,
}
use flash_loan.Prelude.Dict.{found}
use flash_loan.Float.{FloatOps}
use flash_loan.Monitor.{
  RuntimeStatus, RuntimeMonitor, Event, process_start, cycle_start, beat, cycle, failure, kill,
  apply, update, run_events, new_monitor, record_process_start, record_cycle_start, heartbeat,
  record_cycle, record_error, set_kill_state,
}

module _ (fl : FloatOps) where
  abbrev pub Calls : Type 0
  Calls = List (Event fl × Bool)

  -- The calls whose write succeeded, the last one first.
  abbrev pub written_calls : Calls → List (Event fl) → List (Event fl)
  written_calls [] before = before
  written_calls ((event, true) ∷ calls) before = written_calls calls (event ∷ before)
  written_calls ((event, false) ∷ calls) before = written_calls calls before

  -- The errors since the last completed cycle.
  abbrev pub errors_since_cycle : List (Event fl) → ℕ
  errors_since_cycle [] = 0
  errors_since_cycle (process_start now pid ∷ es) = errors_since_cycle es
  errors_since_cycle (cycle_start now block endpoint ∷ es) = errors_since_cycle es
  errors_since_cycle (beat now phase ∷ es) = errors_since_cycle es
  errors_since_cycle (cycle now r head endpoint ∷ es) = 0
  errors_since_cycle (failure now message endpoint ∷ es) = suc (errors_since_cycle es)
  errors_since_cycle (kill now killed reason ∷ es) = errors_since_cycle es

  abbrev pub cycles_started : List (Event fl) → ℕ
  cycles_started [] = 0
  cycles_started (process_start now pid ∷ es) = cycles_started es
  cycles_started (cycle_start now block endpoint ∷ es) = suc (cycles_started es)
  cycles_started (beat now phase ∷ es) = cycles_started es
  cycles_started (cycle now r head endpoint ∷ es) = cycles_started es
  cycles_started (failure now message endpoint ∷ es) = cycles_started es
  cycles_started (kill now killed reason ∷ es) = cycles_started es

  abbrev pub last_kill : List (Event fl) → Bool
  last_kill [] = false
  last_kill (process_start now pid ∷ es) = last_kill es
  last_kill (cycle_start now block endpoint ∷ es) = last_kill es
  last_kill (beat now phase ∷ es) = last_kill es
  last_kill (cycle now r head endpoint ∷ es) = last_kill es
  last_kill (failure now message endpoint ∷ es) = last_kill es
  last_kill (kill now killed reason ∷ es) = killed

  abbrev pub is_zero : ℕ → Bool
  is_zero zero = true
  is_zero (suc n) = false

  abbrev pub file_of : List (Event fl) → RuntimeStatus fl → Option (RuntimeStatus fl)
  file_of [] s = none
  file_of (e ∷ es) s = some s

  -- The status of a monitor after the given calls, the last one first: the error streak, the number
  -- of cycles, the kill switch, an error message if and only if there is a streak, and the file.
  abbrev pub Tells : List (Event fl) → RuntimeMonitor fl → Type 0
  Tells es m =
      (m.status.consecutive_errors ≡ errors_since_cycle es)
      × (m.status.cycle_number ≡ cycles_started es)
      × (m.status.kill_state ≡ last_kill es)
      × (is_zero m.status.consecutive_errors ≡ not (found m.status.last_error))
      × (m.snapshot ≡ file_of es m.status)

  apply-Tells :
      (e : Event fl) (es : List (Event fl)) (m : RuntimeMonitor fl)
      → Tells es m
      → Tells (e ∷ es) (update fl true (apply fl e m.status) m)
  unfolding update apply record_process_start record_cycle_start heartbeat record_cycle record_error
      set_kill_state
  apply-Tells (process_start now pid) es m h = (h.0, h.1, h.2, h.3, refl)
  apply-Tells (cycle_start now block endpoint) es m h = (h.0, ap suc h.1, h.2, h.3, refl)
  apply-Tells (beat now none) es m h = (h.0, h.1, h.2, h.3, refl)
  apply-Tells (beat now (some phase)) es m h = (h.0, h.1, h.2, h.3, refl)
  apply-Tells (cycle now r head endpoint) es m h = (refl, h.1, h.2, refl, refl)
  apply-Tells (failure now message endpoint) es m h = (ap suc h.0, h.1, h.2, refl, refl)
  apply-Tells (kill now killed reason) es m h = (h.0, h.1, refl, h.3, refl)

  run-Tells :
      (calls : Calls) (es : List (Event fl)) (m : RuntimeMonitor fl)
      → Tells es m
      → Tells (written_calls calls es) (run_events fl calls m)
  unfolding run_events
  run-Tells [] es m h = h
  run-Tells ((e, true) ∷ calls) es m h =
      run-Tells calls (e ∷ es) (update fl true (apply fl e m.status) m) (apply-Tells e es m h)
  run-Tells ((e, false) ∷ calls) es m h = unfold update in run-Tells calls es m h

  -- After any calls of a new monitor, of which some writes may fail, its status is that of the calls
  -- whose write succeeded, and a call whose write failed leaves no trace: of the written calls it
  -- counts the errors since the last completed cycle and the cycles started and has the last kill
  -- switch, it holds an error message if and only if the count of errors is not zero, and it is what
  -- the file holds as soon as one call is written.
  pub run_events-Tells :
      (calls : Calls) → Tells (written_calls calls []) (run_events fl calls (new_monitor fl))
  run_events-Tells calls = run-Tells calls [] (new_monitor fl) (refl, refl, refl, refl, refl)
