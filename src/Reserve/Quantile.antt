-- ===== src/Reserve/Quantile.antt =====
-- The reserve of zero/reserve.py covers the quantile of the adverse samples it was asked for.
use flash_loan.Prelude.{List}
use flash_loan.Prelude.Sort.{keep}
use flash_loan.Float.{IsFloatOrder}
use flash_loan.Reserve.{ReserveOps}

module _ (ops : ReserveOps) (o : IsFloatOrder ops.decimals) where
  open ops use {decimals}
  open decimals use {Float, flt, fle}

  -- The samples that a value covers.
  abbrev pub covered : Float → List Float → List Float
  covered v = keep (λ a. fle a v)
