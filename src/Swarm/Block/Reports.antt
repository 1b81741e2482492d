-- ===== src/Swarm/Block/Reports.antt =====
-- The report of `run_block` in zero/swarm.py is consistent with what the workers did.
use flash_loan.Prelude.{
  ℕ, suc, ◌+◌, ◌≤◌, ◌≡◌, ◌∙◌, refl, ap, sym, subst, Bool, false, Option, none, some, List, [], ◌∷◌,
  map, arith, length, length-append, length-map, if◌then◌else◌, ltb, Bool-cases, inl, inr, Eq_key,
}
use flash_loan.Prelude.Dict.{Dict, lookup, values}
use flash_loan.Prelude.Sort.{sort, sort-perm, keep, All, All-sort}
use flash_loan.Prelude.Perms.{length-perm}
use flash_loan.Prelude.Succeeds.{Succeeds}
use flash_loan.Float.{FloatOps}
use flash_loan.Swarm.Leases.{LeaseKey, Leases}
use flash_loan.Swarm.Leases.View.{lookup-expire_before}
use flash_loan.Swarm.Allocator.{WorkerSpec, Route, WorkAllocator, build}
use flash_loan.Swarm.Allocator.Building.{build-places}
use flash_loan.Swarm.Worker.{dedupe}
use flash_loan.Swarm.Book.{SwarmCandidate, Book, ranked, better, fill, fill_one}
use flash_loan.Swarm.Book.Laws.{
  IsEntry, IsBook, fill-IsBook, fill_one-IsBook, length-fill_one, length-fill, candidates,
}
use flash_loan.Swarm.Block.{
  ScanRow, BlockError, Collected, collect, count_verdicts, verify_candidates, or_true, fill_extra,
  persist_rows, row_less, error_less, row_entry, error_entry, nothing_collected, Worked,
  Surroundings, book_of, BlockEnd, finish, run_with, run_block,
}
use flash_loan.Swarm.Block.Collecting.{rows_of, errors_of, duplicates_of, collect-Adds}

length-keep : {A : Type 0} (p : A → Bool) (xs : List A) → length (keep p xs) ≤ length xs
length-keep p [] = omega arith
length-keep p (x ∷ xs) = ground (arith, length-keep p xs)

length-values : {K V : Type 0} (d : Dict K V) → length (values d) ≡ length d
length-values [] = refl
length-values ((k, v) ∷ d) = ap suc (length-values d)

module _ (fl : FloatOps) where
  open fl use {Float, zero_f, fle}

  count_verdicts-total :
      (passes : SwarmCandidate fl → Bool) (cs : List (SwarmCandidate fl))
      → (count_verdicts fl passes cs).0 + (count_verdicts fl passes cs).1 ≡ length cs
  unfolding count_verdicts
  count_verdicts-total passes [] = refl
  count_verdicts-total passes (c ∷ cs) = ground (arith, count_verdicts-total passes cs)

  -- All attempts pass or fail, and no more are made than there are candidates.
  abbrev pub Counted : ℕ → ℕ × ℕ × ℕ → Type 0
  Counted n (attempted, passed, failed) = (attempted ≡ passed + failed) × (attempted ≤ n)

  verify_candidates-Counted :
      (passes : Option (SwarmCandidate fl → Bool)) (enabled : Option Bool)
      (cs : List (SwarmCandidate fl))
      → Counted (length cs) (verify_candidates fl passes enabled cs)
  unfolding verify_candidates
  verify_candidates-Counted none enabled cs = (refl, omega arith)
  verify_candidates-Counted (some passes) enabled cs =
      let tried : List (SwarmCandidate fl) = keep (λ c. or_true fl c.payload.executable) cs in
      elim (Bool-cases (or_true fl enabled)) [
        | inl enabled_on ↦ rw enabled_on (
          omega (arith, count_verdicts-total passes tried),
          length-keep (λ (c : SwarmCandidate fl). or_true fl c.payload.executable) cs,
        )
        | inr off ↦ rw off (refl, omega arith)
      ]

  length-persist_rows :
      (rows : List (ScanRow fl)) (errors : List (BlockError fl))
      → length (persist_rows fl rows errors) ≡ length rows + length errors
  unfolding persist_rows
  length-persist_rows rows errors =
      let sorted_rows : List (ScanRow fl) = sort (row_less fl) rows in
      let sorted_errors : List (BlockError fl) = sort (error_less fl) errors in
      omega (
        arith,
        length-append (map (row_entry fl) sorted_rows) (map (error_entry fl) sorted_errors),
        length-map sorted_rows (row_entry fl),
        length-map sorted_errors (error_entry fl),
        length-perm (sort-perm (row_less fl) rows),
        length-perm (sort-perm (error_less fl) errors),
      )

  fill_extra-IsBook :
      (cs : List (SwarmCandidate fl)) (acc : Book fl × ℕ)
      → IsBook fl acc.0
      → IsBook fl (fill_extra fl cs acc).0
  unfolding fill_extra
  fill_extra-IsBook [] acc h = h
  fill_extra-IsBook (c ∷ cs) acc h =
      fill_extra-IsBook cs (fill_one fl (some c) acc) (fill_one-IsBook fl (some c) acc h)

  length-fill_extra :
      (cs : List (SwarmCandidate fl)) (acc : Book fl × ℕ)
      → length (fill_extra fl cs acc).0 + (fill_extra fl cs acc).1
        ≡ length acc.0 + acc.1 + length cs
  unfolding fill_extra
  length-fill_extra [] acc = omega arith
  length-fill_extra (c ∷ cs) acc =
      omega
        (arith, length-fill_one fl (some c) acc, length-fill_extra cs (fill_one fl (some c) acc))

  length-ranked : (s : Book fl) → length (ranked fl s) ≡ length s
  unfolding ranked
  length-ranked s = length-perm (sort-perm (better fl) (values s)) ∙ length-values s

  -- The expected net is above zero.
  abbrev pub Profitable : SwarmCandidate fl → Type 0
  Profitable c = fle c.expected_net zero_f ≡ false

  values-Profitable : (s : Book fl) → All (IsEntry fl) s → All Profitable (values s)
  values-Profitable [] h = tt
  values-Profitable ((k, c) ∷ s) h = (h.0.1, values-Profitable s h.1)

  ranked-Profitable : (s : Book fl) → IsBook fl s → All Profitable (ranked fl s)
  unfolding ranked
  ranked-Profitable s h = All-sort (better fl) Profitable (values s) (values-Profitable s h.1)

  module _ (env : Surroundings fl) (workers : List WorkerSpec) (block : ℕ) where
    -- The rows that yield a candidate, and the extra ones.
    abbrev pub offered : Collected fl → ℕ
    offered c =
        candidates fl env.digest env.now (map (λ (r : ScanRow fl). r.scanned) c.rows)
        + length env.extra_candidates

    abbrev pub collected_of : ℕ → Worked fl → Collected fl
    collected_of duplicates w = collect fl block w.outcomes (nothing_collected fl duplicates)

    -- The report counts what the workers did: the rows, one failure for each error, and the repeated
    -- routes, the rows that yield a candidate and the extra candidates as ranked or suppressed; the ranking is that of a well-formed book, its candidates
    -- are profitable, those whose verification was tried passed or failed, the ledger has an entry for
    -- each row and error, and no lease of the block or an earlier one is left.
    abbrev pub Consistent : LeaseKey → ℕ → Worked fl → BlockEnd fl env workers block → Type 0
    Consistent k duplicates w e =
        (e.report.detected ≡ rows_of fl w.outcomes)
        × (e.report.worker_failures ≡ errors_of fl w.outcomes)
        × (length e.recorded ≡ e.report.detected + e.report.worker_failures)
        × (e.report.positive_net + e.report.duplicates_suppressed
            ≡ duplicates + duplicates_of fl w.outcomes + offered (collected_of duplicates w))
        × ((s : Book fl) × IsBook fl s × (e.report.candidates ≡ ranked fl s))
        × All Profitable e.report.candidates
        × Counted e.report.positive_net (
          e.report.fork_verifications_attempted, e.report.fork_verifications_passed,
          e.report.fork_verifications_failed,
        )
        × (lookup k e.leases_left ≡ (if ltb k.0 (block + 1) then none else lookup k w.leases))

    finish-Consistent :
        (k : LeaseKey) (duplicates : ℕ) (w : Worked fl)
        → Consistent k duplicates w (finish fl env workers block duplicates w)
    finish-Consistent k duplicates w =
        let c : Collected fl = collected_of duplicates w in
        let h = collect-Adds fl block w.outcomes (nothing_collected fl duplicates) in
        let scans = map (λ (r : ScanRow fl). r.scanned) c.rows in
        let acc = fill fl env.digest env.now scans ([], c.duplicates) in
        let book = book_of fl env workers block c in
        let book_ok =
          fill_extra-IsBook env.extra_candidates acc
            (fill-IsBook fl env.digest env.now scans ([], c.duplicates) (tt, tt)) in
        (
          omega (arith, h.0),
          omega (arith, h.2),
          omega (arith, length-persist_rows c.rows c.errors, h.1, h.2),
          omega (
            arith,
            h.3,
            length-ranked book.0,
            length-fill_extra env.extra_candidates acc,
            length-fill fl env.digest env.now scans ([], c.duplicates),
          ),
          (book.0, book_ok, refl),
          ranked-Profitable book.0 book_ok,
          verify_candidates-Counted env.passes env.verify_positive (ranked fl book.0),
          lookup-expire_before (block + 1) k w.leases,
        )

    run_built :
        (k : LeaseKey) (routes : List Route) (leases : Leases) (a : WorkAllocator)
        → build workers (dedupe [] routes).0 ≡ some a
        → Succeeds
            (λ e. Consistent k (dedupe [] routes).1 (env.work a leases) e)
            (run_block fl env workers block routes leases)
    unfolding run_block
    run_built k routes leases a e =
        subst
          (λ o.
            Succeeds (λ f. Consistent k (dedupe [] routes).1 (env.work a leases) f)
              (run_with fl env workers block (dedupe [] routes).1 leases o))
          (sym e) (finish-Consistent k (dedupe [] routes).1 (env.work a leases))

    -- Whatever routes the catalog has and whatever the workers do with the allocator that is built
    -- from them, the block ends with a report, without an exception of the allocator: it detects the
    -- rows of the workers, has one failure for each error and records an entry for each row and error.
    -- It ranks profitable candidates only, one for each block and route, and the ranked and the
    -- suppressed together are as many as the repeated routes of the catalog and of the workers, the
    -- rows that yield a candidate, and the extra candidates; a row that yields none is neither. Every
    -- verification that was tried passed or failed, and the leases that are left are those of later
    -- blocks.
    pub run_block-Consistent :
        (k : LeaseKey) (routes : List Route) (leases : Leases)
        → (a : WorkAllocator) × (build workers (dedupe [] routes).0 ≡ some a)
          × Succeeds
              (λ e. Consistent k (dedupe [] routes).1 (env.work a leases) e)
              (run_block fl env workers block routes leases)
    run_block-Consistent k routes leases =
        let made = build-places workers (dedupe [] routes).0 in
        (made.0, made.1, run_built k routes leases made.0 made.1)
