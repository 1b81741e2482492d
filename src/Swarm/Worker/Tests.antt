-- ===== src/Swarm/Worker/Tests.antt =====
-- A worker's loop over three routes, and each theorem at a concrete input.
use flash_loan.Prelude.{
  ℕ, ◌+◌, ◌≡◌, refl, true, some, List, [], ◌∷◌, Text, codes, Eq_text, arith, length,
}
use flash_loan.Prelude.Dict
use flash_loan.Prelude.Dict.{contains, Distinct}
use flash_loan.Swarm.Allocator.{WorkerSpec, Route, WorkAllocator}
use flash_loan.Swarm.Allocator.Queues.{pending}
use flash_loan.Swarm.Worker.{row, no_row, raised, Scans, empty_tally, run_worker, dedupe}
use flash_loan.Swarm.Worker.Termination.{Drained, run_worker-Drained}
use flash_loan.Swarm.Worker.Dedupe.{ids, anonymous, dedupe_lem}

abbrev worker : WorkerSpec
worker = record {
  worker_id = codes "a";
  manager_id = codes "m";
  primary_pair = (codes "WETH", codes "USDC");
  role = codes "scanner";
}

abbrev route_at : Text → Text → Route
route_at id kind = record {
  route_id = id;
  base_symbol = codes "WETH";
  quote_symbol = codes "USDC";
  route_kind = kind;
}

abbrev routes : List Route
routes =
    route_at (codes "1") (codes "")
    ∷ route_at (codes "2") (codes "multihop_exact")
    ∷ route_at (codes "1") (codes "")
    ∷ route_at (codes "") (codes "")
    ∷ []

abbrev allocator : WorkAllocator
allocator = record { primary = (codes "a", routes) ∷ []; overflow = [] }

-- Rows are numbers; the multi-hop scan raises.
abbrev scans : Scans ℕ
scans = record {
  scan_multidex_route = λ r. no_row;
  scan_multihop_route = λ r. raised (codes "boom");
  scan_cycle_config = λ r. row 1;
}

run_worker-Drained_example :
    Drained
      (length (pending allocator))
      (empty_tally {Row = ℕ})
      (run_worker 5 scans worker true (some 7) allocator (some []) (empty_tally {Row = ℕ}))
unfolding Dict.lookup Dict.contains
run_worker-Drained_example =
    run_worker-Drained scans worker (some 7) 5 allocator (some []) (empty_tally {Row = ℕ})
      (omega arith) refl (refl, tt) (omega arith)

dedupe_run : (dedupe [] routes).1 ≡ 1
unfolding dedupe contains
dedupe_run = refl

dedupe_lem_example :
    Distinct (ids (dedupe [] routes).0)
    × (contains (ids (dedupe [] routes).0) (codes "2") ≡ contains (ids routes) (codes "2"))
    × (anonymous (dedupe [] routes).0 ≡ anonymous routes)
    × (length (dedupe [] routes).0 + (dedupe [] routes).1 ≡ length routes)
dedupe_lem_example = dedupe_lem routes (codes "2")
