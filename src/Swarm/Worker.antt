-- ===== src/Swarm/Worker.antt =====
-- `WorkAllocator.claim`, `_run_worker` and `_dedupe_routes` of zero/swarm.py: the loop of one worker.
pub mod Termination
pub mod Dedupe
mod Tests
use flash_loan.Prelude.{
  ℕ, zero, suc, ◌+◌, Bool, true, false, ◌&&◌, not, Option, none, some, List, [], ◌∷◌, ◌++◌, Text,
  text_eq, codes, if◌then◌else◌, Eq_text,
}
use flash_loan.Prelude.Dict.{contains}
use flash_loan.Swarm.Leases.{Leases}
use flash_loan.Swarm.Leases
use flash_loan.Swarm.Allocator.{
  WorkerSpec, Route, WorkAllocator, Reply, route, unknown_worker, pop_error, next_route,
}

-- `claim`: with no block or no registry everything may be claimed.
unfoldable pub claim : Option ℕ → Text → Route → Option Leases → Bool × Option Leases
claim block worker_id r none = (true, none)
claim none worker_id r (some leases) = (true, some leases)
claim (some block) worker_id r (some leases) =
    let (won, leases') = Leases.claim block r.route_id worker_id leases in (won, some leases')

-- What a scan of the engine does: a row, no row, or an exception with its message.
pub data Scan (Row : Type 0) : Type 0 where
  row : Row → Scan Row
  no_row : Scan Row
  raised : Text → Scan Row

-- The engine's three scans. They are the engine's code; here any functions of the route.
pub record Scans (Row : Type 0) : Type 0 where
  pub scan_multidex_route : Route → Scan Row
  pub scan_multihop_route : Route → Scan Row
  pub scan_cycle_config : Route → Scan Row

-- A row with the ids that the worker adds.
pub record WorkerRow (Row : Type 0) : Type 0 where
  pub result : Row
  pub worker_id : Text
  pub manager_id : Text
  pub route_id : Text

pub record RouteError : Type 0 where
  pub worker_id : Text
  pub manager_id : Text
  pub route_id : Text
  pub error : Text

pub record Tally (Row : Type 0) : Type 0 where
  pub rows : List (WorkerRow Row)
  pub routes_scanned : ℕ
  pub duplicates_suppressed : ℕ
  pub route_errors : List RouteError

-- How the loop ends. `out_of_fuel` is not an end of the program.
pub data WorkerEnd (Row : Type 0) : Type 0 where
  finished : Tally Row → WorkAllocator → Option Leases → WorkerEnd Row
  failed : WorkerEnd Row
  out_of_fuel : WorkerEnd Row

module _ {Row : Type 0} where
  -- The dispatch on `route_kind`.
  unfoldable pub scan_route : Scans Row → Route → Scan Row
  scan_route scans r =
      if text_eq r.route_kind (codes "multidex_exact")
      then scans.scan_multidex_route r
      else if text_eq r.route_kind (codes "multihop_exact")
      then scans.scan_multihop_route r
      else scans.scan_cycle_config r

  abbrev pub empty_tally : Tally Row
  empty_tally = record {
    rows = [];
    routes_scanned = 0;
    duplicates_suppressed = 0;
    route_errors = [];
  }

  -- What a scan adds to the tally.
  unfoldable pub record_scan : WorkerSpec → Route → Scan Row → Tally Row → Tally Row
  record_scan w r (row result) t = record t {
    routes_scanned = t.routes_scanned + 1;
    rows =
        t.rows
        ++ record {
          result = result;
          worker_id = w.worker_id;
          manager_id = w.manager_id;
          route_id = r.route_id;
        }
          ∷ [];
  }
  record_scan w r no_row t = record t { routes_scanned = t.routes_scanned + 1 }
  record_scan w r (raised message) t = record t {
    routes_scanned = t.routes_scanned + 1;
    route_errors =
        t.route_errors
        ++ record {
          worker_id = w.worker_id;
          manager_id = w.manager_id;
          route_id = r.route_id;
          error = message;
        }
          ∷ [];
  }

  -- One route, after the claim.
  unfoldable pub record_route : Scans Row → WorkerSpec → Route → Bool → Tally Row → Tally Row
  unfolding record_scan
  record_route scans w r false t = record t { duplicates_suppressed = t.duplicates_suppressed + 1 }
  record_route scans w r true t = record_scan w r (scan_route scans r) t

  -- `_run_worker`, on fuel: the loop ends when `next_route` has no route.
  unfoldable pub run_worker :
      ℕ
      → Scans Row
      → WorkerSpec
      → Bool
      → Option ℕ
      → WorkAllocator
      → Option Leases
      → Tally Row
      → WorkerEnd Row
  run_worker zero scans w allow_steal block a leases t = out_of_fuel
  run_worker (suc fuel) scans w allow_steal block a leases t =
      let next = next_route w.worker_id allow_steal a in
      elim next.0 [
        | route none ↦ finished t next.1 leases
        | route (some r) ↦
            let claimed = claim block w.worker_id r leases in
            run_worker fuel scans w allow_steal block next.1 claimed.1
              (record_route scans w r claimed.0 t)
        | unknown_worker ↦ failed
        | pop_error ↦ failed
      ]

-- `_dedupe_routes`, on the ids seen so far: the unique routes and the number dropped. A route with
-- an empty id is always kept.
abbrev pub has_id : Route → Bool
has_id r = elim r.route_id [ [] ↦ false | _ ∷ _ ↦ true ]

-- `seen` after a route that is kept.
abbrev pub remember : Route → List Text → List Text
remember r seen = if has_id r then r.route_id ∷ seen else seen

unfoldable pub dedupe : List Text → List Route → List Route × ℕ
dedupe seen [] = ([], 0)
dedupe seen (r ∷ rs) =
    let skipped = dedupe seen rs in
    let kept = dedupe (remember r seen) rs in
    if has_id r && contains seen r.route_id
    then (skipped.0, skipped.1 + 1)
    else (r ∷ kept.0, kept.1)
