-- ===== src/Swarm/Block/Tests.antt =====
-- A block with two workers, one of which fails: a run, and the theorem at it.
use flash_loan.Prelude.{◌≡◌, refl, none, some, Option, List, [], ◌∷◌, Text, codes, Eq_text, ℕ}
use flash_loan.Prelude.Dict
use flash_loan.Prelude.Sort
use flash_loan.Prelude.Int.{ℤ, pos}
use flash_loan.Prelude.Succeeds.{Succeeds}
use flash_loan.Float.{whole_floats}
use flash_loan.Swarm.Allocator.{
  WorkerSpec, Route, WorkAllocator, build, empty_queues, group_workers, append_route, place, assign,
  text_lt,
}
use flash_loan.Swarm.Worker.{dedupe}
use flash_loan.Swarm.Book.{add, ranked, candidate_of, candidate_from_row, fill, fill_one}
use flash_loan.Swarm.Block.{
  ScanRow, Surroundings, BlockEnd, raised, row_list, collect, collect_one, count_verdicts,
  verify_candidates, fill_extra, persist_rows, run_block,
}
use flash_loan.Swarm.Block.Reports.{Consistent, run_block-Consistent}

abbrev worker : Text → WorkerSpec
worker id = record {
  worker_id = id;
  manager_id = codes "m";
  primary_pair = (codes "WETH", codes "USDC");
  role = codes "scanner";
}

abbrev workers : List WorkerSpec
workers = worker (codes "a") ∷ worker (codes "b") ∷ []

abbrev route : Text → Route
route id = record {
  route_id = id;
  base_symbol = codes "WETH";
  quote_symbol = codes "USDC";
  route_kind = codes "";
}

abbrev row : Text → ℤ → ScanRow whole_floats
row id net = record {
  scanned = record {
    expected_net_usd = some net;
    candidate =
        some (record { loan_size = some (pos 10); base_asset = codes "0xa"; executable = none });
    route_id = id;
    block = 7;
    size = none;
    loan_notional_usd = none;
    worker_id = codes "a";
    manager_id = codes "m";
    gross_usd = none;
    flash_fee_usd = none;
    gas_usd = none;
    model_reserve_usd = none;
  };
  row_decision = some (codes "PASS");
  row_gross = none;
  row_net = none;
  row_min_profit = none;
  row_reason = none;
}

-- One worker finds three rows, two of one route; the other raises. The verifier passes the greater.
abbrev env : Surroundings whole_floats
env = record {
  work = λ a leases. record {
    outcomes =
        (
          worker (codes "a"),
          row_list
              (row (codes "1") (pos 3) ∷ row (codes "2") (pos 9) ∷ row (codes "1") (pos 8) ∷ []),
        )
        ∷ (worker (codes "b"), raised (codes "RpcError: down"))
        ∷ [];
    leases = ((7, codes "1"), codes "a") ∷ [];
  };
  digest = λ block id size. id;
  now = pos 0;
  extra_candidates = [];
  passes = some (λ c. whole_floats.flt (pos 5) c.expected_net);
  verify_positive = none;
}

abbrev routes : List Route
routes = route (codes "1") ∷ route (codes "2") ∷ route (codes "1") ∷ []

abbrev counts : Option (BlockEnd whole_floats env workers 7) → Option (ℕ × ℕ × ℕ × ℕ × ℕ × ℕ)
counts none = none
counts (some e) = some (
  e.report.detected, e.report.worker_failures, e.report.positive_net,
  e.report.duplicates_suppressed, e.report.fork_verifications_passed,
  e.report.fork_verifications_failed,
)

block_run : counts (run_block whole_floats env workers 7 routes []) ≡ some (3, 1, 2, 2, 1, 1)
unfolding run_block dedupe build empty_queues group_workers append_route place assign collect
    collect_one count_verdicts verify_candidates fill_extra fill fill_one candidate_from_row
    candidate_of add ranked persist_rows text_lt Dict.lookup Dict.insert Dict.contains Sort.sort
    Sort.insert_sorted
block_run = refl

run_block-Consistent_example :
    (a : WorkAllocator) × (build workers (dedupe [] routes).0 ≡ some a)
    × Succeeds
        (λ e.
          Consistent whole_floats env workers 7
            (7, codes "1")
            (dedupe [] routes).1
            (env.work a [])
            e)
        (run_block whole_floats env workers 7 routes [])
run_block-Consistent_example =
    run_block-Consistent whole_floats env workers 7 (7, codes "1") routes []
