-- ===== src/Policy.antt =====
-- zero/execution_policy.py: the risk gate in front of execution, as functions on its state.
pub mod Safety
pub mod Breakers
pub mod Stops
mod Tests
use flash_loan.Prelude.{
  ℕ, ◌+◌, max, ◌≡◌, Bool, true, false, Option, none, some, List, [], ◌∷◌, Text, ltb, leb,
  if◌then◌else◌, ◌==◌, ◌&&◌, Eq_key,
}
use flash_loan.Prelude.Int.{ℤ, pos, negsuc, pos_part, neg_part}
use flash_loan.Prelude.Dict.{contains}
use flash_loan.Float.{FloatOps, fmax}

pub data Reason : Type 0 where
  ok kill_state revert_limit_reached daily_loss_limit_reached duplicate_candidate : Reason
  stale_block deadline_expired non_positive_net gas_limit_exceeded loan_limit_exceeded : Reason

pub record PolicyDecision : Type 0 where
  pub allowed : Bool
  pub reason : Reason

-- `(block, candidate_id)`
abbrev pub Key : Type 0
Key = ℕ × Text

abbrev pub day_eq : ℤ → ℤ → Bool
day_eq a b = pos_part a == pos_part b && neg_part a == neg_part b

module _ (fl : FloatOps) where
  open fl use {Float, zero_f, flt, fle, fadd, utc_day}

  pub record ExecutionRequest : Type 0 where
    pub block : ℕ
    pub candidate_id : Text
    pub loan_notional_usd : Float
    pub gas_usd : Float
    pub expected_net_usd : Float
    pub deadline_ts : Float

  pub record ExecutionPolicy : Type 0 where
    pub max_block_lag : ℕ
    pub max_gas_usd : Float
    pub max_loan_notional_usd : Float
    pub max_consecutive_reverts : ℕ
    pub max_daily_modeled_loss_usd : Float
    pub seen : List Key
    pub consecutive_reverts : ℕ
    pub daily_modeled_loss_usd : Float
    pub day : Option ℤ
    pub killed : Bool
    pub kill_reason : Option Text

  -- `__init__`, with the clamps on its arguments.
  unfoldable pub init : ℤ → Float → Float → ℤ → Float → ExecutionPolicy
  init lag gas loan reverts loss = record {
    max_block_lag = pos_part lag;
    max_gas_usd = fmax fl zero_f gas;
    max_loan_notional_usd = fmax fl zero_f loan;
    max_consecutive_reverts = max 1 (pos_part reverts);
    max_daily_modeled_loss_usd = fmax fl zero_f loss;
    seen = [];
    consecutive_reverts = 0;
    daily_modeled_loss_usd = zero_f;
    day = none;
    killed = false;
    kill_reason = none;
  }

  -- `_roll_day`, by the day that is stored.
  unfoldable pub roll_to : Option ℤ → ℤ → ExecutionPolicy → ExecutionPolicy
  roll_to none today p = record p { day = some today }
  roll_to (some d) today p =
      if day_eq today d then p else record p { day = some today; daily_modeled_loss_usd = zero_f }

  unfoldable pub roll_day : Float → ExecutionPolicy → ExecutionPolicy
  unfolding roll_to
  roll_day now p = roll_to p.day (utc_day now) p

  unfoldable pub set_kill : Bool → Option Text → ExecutionPolicy → ExecutionPolicy
  set_kill killed reason p = record p { killed = killed; kill_reason = reason }

  unfoldable pub record_outcome : Bool → Float → Float → ExecutionPolicy → ExecutionPolicy
  record_outcome success loss now p0 =
      let p = roll_day now p0 in
      if success then record p { consecutive_reverts = 0 } else record p {
        consecutive_reverts = p.consecutive_reverts + 1;
        daily_modeled_loss_usd = fadd p.daily_modeled_loss_usd (fmax fl zero_f loss);
      }

  abbrev pub key_of : ExecutionRequest → Key
  key_of r = (r.block, r.candidate_id)

  abbrev pub deny : Reason → ExecutionPolicy → PolicyDecision × ExecutionPolicy
  deny why p = (record { allowed = false; reason = why }, p)

  -- The checks of `authorize` after the day has rolled. Blocks are natural numbers, so
  -- `head - block > lag` is `block + lag < head`.
  unfoldable pub check :
      ExecutionRequest → ℕ → Float → ExecutionPolicy → PolicyDecision × ExecutionPolicy
  check r head now p =
      if p.killed
      then deny kill_state p
      else if leb p.max_consecutive_reverts p.consecutive_reverts
      then deny revert_limit_reached p
      else if fle p.max_daily_modeled_loss_usd p.daily_modeled_loss_usd
      then deny daily_loss_limit_reached p
      else if contains p.seen (key_of r)
      then deny duplicate_candidate p
      else if ltb (r.block + p.max_block_lag) head
      then deny stale_block p
      else if flt r.deadline_ts now
      then deny deadline_expired p
      else if fle r.expected_net_usd zero_f
      then deny non_positive_net p
      else if flt p.max_gas_usd r.gas_usd
      then deny gas_limit_exceeded p
      else if flt p.max_loan_notional_usd r.loan_notional_usd
      then deny loan_limit_exceeded p
      else (record { allowed = true; reason = ok }, record p { seen = key_of r ∷ p.seen })

  unfoldable pub authorize :
      ExecutionRequest → ℕ → Float → ExecutionPolicy → PolicyDecision × ExecutionPolicy
  authorize r head now p = check r head now (roll_day now p)

  -- The calls that a client makes on one policy object, in any order.
  pub data Call : Type 0 where
    authorize_call : ExecutionRequest → ℕ → Float → Call
    outcome_call : Bool → Float → Float → Call
    kill_call : Bool → Option Text → Call

  unfoldable pub step : Call → ExecutionPolicy → ExecutionPolicy
  step (authorize_call r head now) p = (authorize r head now p).1
  step (outcome_call success loss now) p = record_outcome success loss now p
  step (kill_call killed reason) p = set_kill killed reason p

  -- What one call grants.
  unfoldable pub grant : Call → ExecutionPolicy → List Key
  grant (authorize_call r head now) p =
      if (authorize r head now p).0.allowed then key_of r ∷ [] else []
  grant (outcome_call success loss now) p = []
  grant (kill_call killed reason) p = []
