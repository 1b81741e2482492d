-- ===== src/Gate.antt =====
-- zero/gate.py: the risk gate that every candidate passes before the ledger. The clock is an argument.
pub mod Thresholds
mod Tests
use flash_loan.Prelude.{Bool, true, false, Option, none, some, if◌then◌else◌}
use flash_loan.Float.{FloatOps, fmax}

pub data Decision : Type 0 where
  pass : Decision
  negative_gross below_min_profit stale : Decision

module _ (fl : FloatOps) where
  open fl use {Float, zero_f, flt, fle, fsub, fmul}

  pub record Gate : Type 0 where
    pub floor_usd : Float
    pub gas_multiple : Float
    pub min_roi : Float
    pub max_age_ms : Float

  -- Python's `max` of three: a later one only if it is greater.
  unfoldable pub min_profit : Gate → Float → Float → Float
  min_profit g gas_cost_usd loan_size_usd =
      fmax fl (fmax fl g.floor_usd (fmul g.gas_multiple gas_cost_usd))
        (fmul g.min_roi loan_size_usd)

  -- `age_ms > self.max_age_ms`, if the time of discovery is known.
  abbrev pub is_stale : Gate → Option Float → Float → Bool
  is_stale g none now = false
  is_stale g (some discovered) now = flt g.max_age_ms (fsub now discovered)

  -- The decision with its reason, and the least profit.
  unfoldable pub evaluate :
      Gate → Float → Float → Float → Float → Option Float → Float → Decision × Float
  evaluate g net_profit gross_profit gas_cost_usd loan_size_usd discovered_at_ms now_ms =
      let least = min_profit g gas_cost_usd loan_size_usd in
      if fle gross_profit zero_f
      then (negative_gross, least)
      else if flt net_profit least
      then (below_min_profit, least)
      else if is_stale g discovered_at_ms now_ms
      then (stale, least)
      else (pass, least)
