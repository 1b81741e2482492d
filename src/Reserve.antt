-- ===== src/Reserve.antt =====
-- `AdaptiveReserve` of zero/reserve.py. The numbers are `Decimal`s, taken as an interface: those of
-- the constructor and of a row are what `Decimal(str(...))` makes of them.
pub mod Bounds
pub mod Quantile
mod Tests
use flash_loan.Prelude.{
  ℕ, zero, suc, ◌-◌, ◌≤◌, ◌≡◌, max, Bool, true, false, ◌&&◌, ◌||◌, not, Option, none, some, List,
  [], ◌∷◌, map, if◌then◌else◌, length, take, get_elem?,
}
use flash_loan.Prelude.Int.{ℤ, pos, ltb_ℤ, pos_part}
use flash_loan.Prelude.Results.{Result, ok, error}
use flash_loan.Prelude.Sort.{sort}
use flash_loan.Float.{FloatOps, fmax}

pub record ReserveOps : Type 1 where
  pub decimals : FloatOps
  pub one_d : decimals.Float
  pub neg_d : decimals.Float → decimals.Float
  -- `ceil(quantile * n)`
  pub ceil_times : decimals.Float → ℕ → ℕ

-- `min(a, b)`: the second only if it is less.
abbrev pub fmin : (fl : FloatOps) → fl.Float → fl.Float → fl.Float
fmin fl a b = if fl.flt b a then b else a

-- The messages of the constructor's `ValueError`s.
pub data ReserveError : Type 0 where
  lookback_not_positive min_samples_negative quantile_outside bound_negative cap_below_floor
        bootstrap_negative :
      ReserveError

module _ (ops : ReserveOps) where
  open ops use {decimals, one_d, neg_d, ceil_times}
  open decimals use {Float, zero_f, flt, fle, fsub}

  pub record AdaptiveReserve : Type 0 where
    pub lookback : ℤ
    pub min_samples : ℤ
    pub quantile : Float
    pub floor : Float
    pub cap : Float
    pub bootstrap : Float

  -- `__init__`
  unfoldable pub check_reserve : AdaptiveReserve → Result ReserveError AdaptiveReserve
  check_reserve r =
      if not (ltb_ℤ (pos 0) r.lookback)
      then error lookback_not_positive
      else if ltb_ℤ r.min_samples (pos 0)
      then error min_samples_negative
      else if not (flt zero_f r.quantile && fle r.quantile one_d)
      then error quantile_outside
      else if flt r.floor zero_f || flt r.cap zero_f
      then error bound_negative
      else if flt r.cap r.floor
      then error cap_below_floor
      else if flt r.bootstrap zero_f
      then error bootstrap_negative
      else ok r

  -- `_clamp`
  unfoldable pub clamp : AdaptiveReserve → Float → Float
  clamp r value = fmin decimals r.cap (fmax decimals r.floor value)

  -- A row of the ledger's fork verifications, with the keys that may be missing as options.
  pub record ForkRow : Type 0 where
    pub predicted_net : Option Float
    pub realized_net : Option Float
    pub model_error : Option Float
    pub success : Option Bool

  abbrev pub or_zero_d : Option Float → Float
  or_zero_d none = zero_f
  or_zero_d (some x) = x

  abbrev pub or_false : Option Bool → Bool
  or_false none = false
  or_false (some b) = b

  -- `error`, from `model_error`
  abbrev pub error_of : Option Float → Float → Float → Float
  error_of none predicted realized = fsub realized predicted
  error_of (some e) predicted realized = e

  unfoldable pub adverse_sample : ForkRow → Float
  adverse_sample row =
      let predicted = or_zero_d row.predicted_net in
      let realized = or_zero_d row.realized_net in
      let adverse = fmax decimals zero_f (neg_d (error_of row.model_error predicted realized)) in
      if not (or_false row.success) && flt zero_f predicted && fle realized zero_f
      then fmax decimals adverse predicted
      else adverse

  pub record ReserveEstimate : Type 0 where
    pub value_usd : Float
    pub samples : ℕ

  -- `rows[:self.lookback]`, of a positive lookback
  abbrev pub limited : AdaptiveReserve → List ForkRow → List ForkRow
  limited r rows = take (pos_part r.lookback) rows

  abbrev pub rank : AdaptiveReserve → ℕ → ℕ
  rank r n = max 1 (ceil_times r.quantile n)

  -- `adverse[rank - 1]`, clamped; `none` is an `IndexError`.
  abbrev pub pick : AdaptiveReserve → ℕ → Option Float → Option ReserveEstimate
  pick r n none = none
  pick r n (some value) = some (record { value_usd = clamp r value; samples = n })

  -- The estimate from the sorted adverse samples.
  abbrev pub estimate_sorted : AdaptiveReserve → List Float → ℕ → Option ReserveEstimate
  estimate_sorted r [] n = some (record { value_usd = clamp r r.floor; samples = 0 })
  estimate_sorted r (a ∷ adverse) n =
      pick r n (get_elem? (a ∷ adverse) (rank r (length (a ∷ adverse)) - 1))

  unfoldable pub estimate : AdaptiveReserve → List ForkRow → Option ReserveEstimate
  estimate r rows =
      let n = length (limited r rows) in
      if ltb_ℤ (pos n) r.min_samples
      then some (record { value_usd = clamp r (fmax decimals r.floor r.bootstrap); samples = n })
      else estimate_sorted r (sort flt (map adverse_sample (limited r rows))) n
