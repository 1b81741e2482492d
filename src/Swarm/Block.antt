-- ===== src/Swarm/Block.antt =====
-- `run_block`, `_persist_rows`, `_fork_payload` and `_verify_candidates` of zero/swarm.py: one scan of a
-- block. The outcomes of the workers come in the order in which they complete.
pub mod Collecting
pub mod Reports
mod Tests
use flash_loan.Prelude.{
  ℕ, ◌+◌, Bool, true, false, ◌&&◌, ◌||◌, Option, none, some, List, [], ◌∷◌, ◌++◌, map, Text, codes,
  text_eq, if◌then◌else◌, length,
}
use flash_loan.Prelude.Int.{ℤ, pos, eqb_ℤ}
use flash_loan.Prelude.Sort.{sort, keep}
use flash_loan.Float.{FloatOps}
use flash_loan.Calldata.{ArbitrageCandidate, ExecutionStep, build_uniswap_v3_steps}
use flash_loan.Swarm.Leases.{Leases, expire_before}
use flash_loan.Swarm.Allocator.{WorkerSpec, Route, WorkAllocator, build, text_lt}
use flash_loan.Swarm.Worker.{dedupe}
use flash_loan.Swarm.Book.{RawCandidate, SwarmCandidate, Book, Row, add, ranked, fill, fill_one}

module _ (fl : FloatOps) where
  open fl use {Float}

  -- A scanned row, with the keys that only the ledger reads.
  pub record ScanRow : Type 0 where
    pub scanned : Row fl
    pub row_decision : Option Text
    pub row_gross : Option Float
    pub row_net : Option Float
    pub row_min_profit : Option Float
    pub row_reason : Option Text

  -- An error of a worker or of one of its routes. A worker's own names no route.
  pub record BlockError : Type 0 where
    pub error_block : Option ℕ
    pub worker_id : Text
    pub manager_id : Text
    pub route_id : Option Text
    pub message : Text

  -- How a worker's future ends: an exception, a list of rows, a dict with counts that may be missing,
  -- or anything else.
  pub data WorkerOutcome : Type 0 where
    raised : Text → WorkerOutcome
    row_list : List ScanRow → WorkerOutcome
    row_dict : List ScanRow → Option ℕ → Option ℕ → List BlockError → WorkerOutcome
    something_else : WorkerOutcome

  -- What the loop over the futures collects.
  pub record Collected : Type 0 where
    pub rows : List ScanRow
    pub errors : List BlockError
    pub routes_scanned : ℕ
    pub worker_failures : ℕ
    pub duplicates : ℕ

  abbrev pub or_count : Option ℕ → ℕ → ℕ
  or_count none n = n
  or_count (some k) n = k

  -- `error.setdefault("block", scan_block)`
  abbrev pub with_block : ℕ → BlockError → BlockError
  with_block block e = record e { error_block = some (or_count e.error_block block) }

  unfoldable pub collect_one : ℕ → WorkerSpec → WorkerOutcome → Collected → Collected
  collect_one block w (raised message) c = record c {
    worker_failures = c.worker_failures + 1;
    errors =
        c.errors
        ++ record {
          error_block = some block;
          worker_id = w.worker_id;
          manager_id = w.manager_id;
          route_id = none;
          message = message;
        }
          ∷ [];
  }
  collect_one block w (row_list rows) c = record c {
    rows = c.rows ++ rows;
    routes_scanned = c.routes_scanned + length rows;
  }
  collect_one block w (row_dict rows scanned duplicates errors) c = record {
    rows = c.rows ++ rows;
    errors = c.errors ++ map (with_block block) errors;
    routes_scanned = c.routes_scanned + or_count scanned (length rows);
    worker_failures = c.worker_failures + length errors;
    duplicates = c.duplicates + or_count duplicates 0;
  }
  collect_one block w something_else c = c

  unfoldable pub collect : ℕ → List (WorkerSpec × WorkerOutcome) → Collected → Collected
  collect block [] c = c
  collect block ((w, o) ∷ outcomes) c = collect block outcomes (collect_one block w o c)

  -- A row of the ledger.
  pub record LedgerEntry : Type 0 where
    pub entry_block : ℕ
    pub strategy : Text
    pub decision : Text
    pub asset : Option Text
    pub loan_size : Option Float
    pub gross : Option Float
    pub net : Option Float
    pub min_profit : Option Float
    pub reason : Option Text

  abbrev pub or_text : Option Text → Text → Text
  or_text none t = t
  or_text (some s) t = s

  -- `row.get(key, row.get(other))`
  abbrev pub or_else : Option Float → Option Float → Option Float
  or_else none other = other
  or_else (some x) other = some x

  abbrev pub asset_of : Option (RawCandidate fl) → Option Text
  asset_of none = none
  asset_of (some c) = some c.base_asset

  abbrev pub row_entry : ScanRow → LedgerEntry
  row_entry r = record {
    entry_block = r.scanned.block;
    strategy = codes "swarm_arbitrage";
    decision = or_text r.row_decision (codes "REJECT");
    asset = asset_of r.scanned.candidate;
    loan_size = r.scanned.size;
    gross = or_else r.scanned.gross_usd r.row_gross;
    net = or_else r.scanned.expected_net_usd r.row_net;
    min_profit = r.row_min_profit;
    reason = r.row_reason;
  }

  abbrev pub error_entry : BlockError → LedgerEntry
  error_entry e = record {
    entry_block = or_count e.error_block 0;
    strategy = codes "swarm_worker";
    decision = codes "ERROR";
    asset = none;
    loan_size = none;
    gross = none;
    net = none;
    min_profit = none;
    reason = some e.message;
  }

  -- The keys of the two sorts; `str(None)` is "None".
  abbrev pub row_less : ScanRow → ScanRow → Bool
  row_less a b = text_lt a.scanned.route_id b.scanned.route_id

  abbrev pub error_less : BlockError → BlockError → Bool
  error_less a b =
      text_lt a.worker_id b.worker_id
      || (text_eq a.worker_id b.worker_id
          && text_lt (or_text a.route_id (codes "None")) (or_text b.route_id (codes "None")))

  unfoldable pub persist_rows : List ScanRow → List BlockError → List LedgerEntry
  persist_rows rows errors =
      map row_entry (sort row_less rows) ++ map error_entry (sort error_less errors)

  -- `_fork_payload`, from the fields of the raw candidate; `none` is an exception.
  unfoldable pub fork_payload :
      (RawCandidate fl → Option ArbitrageCandidate)
      → Text
      → ℕ
      → SwarmCandidate fl
      → Option (List ExecutionStep)
  fork_payload normalized router slippage_bps c = elim (normalized c.payload) [
    | none ↦ none
    | some a ↦ build_uniswap_v3_steps a router slippage_bps
  ]

  -- `int(self.verifier(payload)) == 0`, or false if anything raises.
  abbrev pub exit_ok : Option ℤ → Bool
  exit_ok none = false
  exit_ok (some code) = eqb_ℤ code (pos 0)

  abbrev pub verify_one : (List ExecutionStep → Option ℤ) → Option (List ExecutionStep) → Bool
  verify_one verifier none = false
  verify_one verifier (some steps) = exit_ok (verifier steps)

  -- `candidate.get("executable", True)`, and the flag of the configuration
  abbrev pub or_true : Option Bool → Bool
  or_true none = true
  or_true (some b) = b

  -- The loop that counts the verdicts.
  unfoldable pub count_verdicts : (SwarmCandidate fl → Bool) → List (SwarmCandidate fl) → ℕ × ℕ
  count_verdicts passes [] = (0, 0)
  count_verdicts passes (c ∷ cs) =
      let (passed, failed) = count_verdicts passes cs in
      if passes c then (passed + 1, failed) else (passed, failed + 1)

  abbrev pub verdicts_of : (SwarmCandidate fl → Bool) → List (SwarmCandidate fl) → ℕ × ℕ × ℕ
  verdicts_of passes cs =
      let (passed, failed) = count_verdicts passes cs in (length cs, passed, failed)

  -- `_verify_candidates`; with no verifier or with the flag off nothing is attempted.
  unfoldable pub verify_candidates :
      Option (SwarmCandidate fl → Bool) → Option Bool → List (SwarmCandidate fl) → ℕ × ℕ × ℕ
  unfolding count_verdicts
  verify_candidates none enabled cs = (0, 0, 0)
  verify_candidates (some passes) enabled cs =
      if or_true enabled
      then verdicts_of passes (keep (λ c. or_true c.payload.executable) cs)
      else (0, 0, 0)

  -- The extra candidates of a supervisor.
  unfoldable pub fill_extra : List (SwarmCandidate fl) → Book fl × ℕ → Book fl × ℕ
  fill_extra [] acc = acc
  fill_extra (c ∷ cs) acc = fill_extra cs (fill_one fl (some c) acc)

  pub record BlockReport : Type 0 where
    pub block : ℕ
    pub active_workers : ℕ
    pub routes_scanned : ℕ
    pub worker_failures : ℕ
    pub detected : ℕ
    pub positive_net : ℕ
    pub duplicates_suppressed : ℕ
    pub best_expected_net : Option Float
    pub fork_verifications_attempted : ℕ
    pub fork_verifications_passed : ℕ
    pub fork_verifications_failed : ℕ
    pub candidates : List (SwarmCandidate fl)

  -- `ranked[0].expected_net if ranked else None`
  abbrev pub best_of : List (SwarmCandidate fl) → Option Float
  best_of [] = none
  best_of (c ∷ cs) = some c.expected_net

  abbrev pub nothing_collected : ℕ → Collected
  nothing_collected duplicates = record {
    rows = [];
    errors = [];
    routes_scanned = 0;
    worker_failures = 0;
    duplicates = duplicates;
  }

  -- What the workers do with the allocator and the leases, until all futures are done.
  pub record Worked : Type 0 where
    pub outcomes : List (WorkerSpec × WorkerOutcome)
    pub leases : Leases

  -- The rest of the program: the workers that run, the digest of a candidate, the clock, the extra
  -- candidates and the verifier with its flag.
  pub record Surroundings : Type 0 where
    pub work : WorkAllocator → Leases → Worked
    pub digest : ℕ → Text → Float → Text
    pub now : Float
    pub extra_candidates : List (SwarmCandidate fl)
    pub passes : Option (SwarmCandidate fl → Bool)
    pub verify_positive : Option Bool

  module _ (env : Surroundings) (workers : List WorkerSpec) (block : ℕ) where
    -- The book with the rows and the extra candidates, and the duplicates so far.
    abbrev pub book_of : Collected → Book fl × ℕ
    book_of c =
        fill_extra env.extra_candidates
          (fill fl env.digest env.now (map (λ (r : ScanRow). r.scanned) c.rows) ([], c.duplicates))

    abbrev pub report_of : Collected → BlockReport
    report_of c =
        let filled = book_of c in
        let best = ranked fl filled.0 in
        let verified = verify_candidates env.passes env.verify_positive best in
        record {
          block = block;
          active_workers = length workers;
          routes_scanned = c.routes_scanned;
          worker_failures = c.worker_failures;
          detected = length c.rows;
          positive_net = length best;
          duplicates_suppressed = filled.1;
          best_expected_net = best_of best;
          fork_verifications_attempted = verified.0;
          fork_verifications_passed = verified.1;
          fork_verifications_failed = verified.2;
          candidates = best;
        }

    pub record BlockEnd : Type 0 where
      pub report : BlockReport
      pub recorded : List LedgerEntry
      pub leases_left : Leases

    -- After the allocator is made.
    abbrev pub finish : ℕ → Worked → BlockEnd
    finish duplicates worked =
        let c = collect block worked.outcomes (nothing_collected duplicates) in
        record {
          report = report_of c;
          recorded = persist_rows c.rows c.errors;
          leases_left = expire_before (block + 1) worked.leases;
        }

    -- From the allocator; `none` is an exception of its constructor.
    abbrev pub run_with : ℕ → Leases → Option WorkAllocator → Option BlockEnd
    run_with duplicates leases none = none
    run_with duplicates leases (some a) = some (finish duplicates (env.work a leases))

    -- `run_block` on the routes of the catalog.
    unfoldable pub run_block : List Route → Leases → Option BlockEnd
    run_block routes leases =
        let unique = dedupe [] routes in run_with unique.1 leases (build workers unique.0)
