-- ===== src/Swarm/Block/Collecting.antt =====
-- What the loop of `run_block` in zero/swarm.py collects from the workers.
use flash_loan.Prelude.{ℕ, ◌+◌, ◌≡◌, List, [], ◌∷◌, map, arith, length, length-append, length-map}
use flash_loan.Float.{FloatOps}
use flash_loan.Swarm.Allocator.{WorkerSpec}
use flash_loan.Swarm.Block.{
  WorkerOutcome, raised, row_list, row_dict, something_else, Collected, or_count, with_block,
  collect_one, collect,
}

module _ (fl : FloatOps) where
  abbrev pub Outcomes : Type 0
  Outcomes = List (WorkerSpec × WorkerOutcome fl)

  -- What the outcomes hold in all.
  abbrev pub rows_of : Outcomes → ℕ
  rows_of [] = 0
  rows_of ((w, raised message) ∷ os) = rows_of os
  rows_of ((w, row_list rows) ∷ os) = length rows + rows_of os
  rows_of ((w, row_dict rows scanned duplicates errors) ∷ os) = length rows + rows_of os
  rows_of ((w, something_else) ∷ os) = rows_of os

  -- One error for each worker that raised, and those of the routes.
  abbrev pub errors_of : Outcomes → ℕ
  errors_of [] = 0
  errors_of ((w, raised message) ∷ os) = 1 + errors_of os
  errors_of ((w, row_list rows) ∷ os) = errors_of os
  errors_of ((w, row_dict rows scanned duplicates errors) ∷ os) = length errors + errors_of os
  errors_of ((w, something_else) ∷ os) = errors_of os

  abbrev pub duplicates_of : Outcomes → ℕ
  duplicates_of [] = 0
  duplicates_of ((w, raised message) ∷ os) = duplicates_of os
  duplicates_of ((w, row_list rows) ∷ os) = duplicates_of os
  duplicates_of ((w, row_dict rows scanned duplicates errors) ∷ os) =
      or_count fl duplicates 0 + duplicates_of os
  duplicates_of ((w, something_else) ∷ os) = duplicates_of os

  -- Everything that the outcomes hold has been added.
  abbrev pub Adds : Outcomes → Collected fl → Collected fl → Type 0
  Adds os c c' =
      (length c'.rows ≡ length c.rows + rows_of os)
      × (length c'.errors ≡ length c.errors + errors_of os)
      × (c'.worker_failures ≡ c.worker_failures + errors_of os)
      × (c'.duplicates ≡ c.duplicates + duplicates_of os)

  pub collect-Adds :
      (block : ℕ) (os : Outcomes) (c : Collected fl) → Adds os c (collect fl block os c)
  unfolding collect collect_one
  collect-Adds block [] c = (omega arith, omega arith, omega arith, omega arith)
  collect-Adds block ((w, raised message) ∷ os) c =
      let h = collect-Adds block os (collect_one fl block w (raised message) c) in
      (h.0, omega (arith, h.1, length-append c.errors (_ ∷ [])), omega (arith, h.2), h.3)
  collect-Adds block ((w, row_list rows) ∷ os) c =
      let h = collect-Adds block os (collect_one fl block w (row_list rows) c) in
      (omega (arith, h.0, length-append c.rows rows), h.1, h.2, h.3)
  collect-Adds block ((w, row_dict rows scanned duplicates errors) ∷ os) c =
      let h =
        collect-Adds block os
          (collect_one fl block w (row_dict rows scanned duplicates errors) c) in
      (
        omega (arith, h.0, length-append c.rows rows),
        omega (
          arith,
          h.1,
          length-append c.errors (map (with_block fl block) errors),
          length-map errors (with_block fl block),
        ),
        omega (arith, h.2),
        omega (arith, h.3),
      )
  collect-Adds block ((w, something_else) ∷ os) c = collect-Adds block os c
