-- ===== src/Liquidation.antt =====
-- `ReservePosition` and `LiquidationState` of zero/liquidations.py: what a borrower holds, how much of
-- a debt may be repaid, and how the state is read from Aave. What Aave answers is an interface.
pub mod Quote
pub mod Factor
pub mod Sizing
pub mod Stages
pub mod Promise
pub mod Verdicts
pub mod Scan
pub mod Best
pub mod Optimum
pub mod Calls
pub mod Swaps
pub mod Encoding
mod Tests
mod EncodingTests
mod ScanTests
use flash_loan.Prelude.{
  ℕ, ◌*◌, Bool, true, false, ◌&&◌, ◌||◌, not, Option, none, some, List, [], ◌∷◌, Text, lower,
  text_eq, ltb, leb, ◌==◌, if◌then◌else◌,
}
use flash_loan.Prelude.Int.{ℤ, pos, min_ℤ}
use flash_loan.Prelude.Results.{Result, ok, error, ◌>>=◌}
use flash_loan.Decimal.{DecimalOps, divide}
use flash_loan.RouteQuote.{LegError}

-- The exceptions of zero/liquidations.py and zero/liquidation_quote.py, in the order of the code.
pub data LiquidationError : Type 0 where
  no_position : Text → LiquidationError
  division_error block_mismatch wrong_start wrong_end : LiquidationError
  quote_failed : LegError → LiquidationError

module _ (d : DecimalOps) where
  open d use {decimals, of_int, of_cents, pow10, floor_d}
  open decimals use {Float, zero_f, flt, fle, fmul, fdiv}

  pub record ReservePosition : Type 0 where
    pub asset : Text
    pub decimal_places : ℕ
    pub price_usd : Float
    pub collateral_raw : ℕ
    pub debt_raw : ℕ
    pub usage_as_collateral_enabled : Bool
    pub liquidation_threshold_bps : ℕ
    pub liquidation_bonus_bps : ℕ
    pub liquidation_protocol_fee_bps : ℕ

  -- `(Decimal(raw) / (Decimal(10) ** decimals)) * price`
  abbrev pub usd_of : ℕ → ReservePosition → Float
  usd_of raw p = fmul (fdiv (of_int (pos raw)) (pow10 p.decimal_places)) p.price_usd

  abbrev pub collateral_usd : ReservePosition → Float
  collateral_usd p = usd_of p.collateral_raw p

  abbrev pub debt_usd : ReservePosition → Float
  debt_usd p = usd_of p.debt_raw p

  pub record LiquidationState : Type 0 where
    pub block : ℤ
    pub borrower : Text
    pub pool : Text
    pub data_provider : Text
    pub health_factor : Float
    pub total_collateral_usd : Float
    pub total_debt_usd : Float
    pub positions : List ReservePosition

  abbrev pub liquidatable : LiquidationState → Bool
  liquidatable s = flt s.health_factor (of_int (pos 1)) && flt zero_f s.total_debt_usd

  -- The loop of `position`; the error names the asset as it was asked for.
  unfoldable pub find_position :
      Text → Text → List ReservePosition → Result LiquidationError ReservePosition
  find_position asked target [] = error (no_position asked)
  find_position asked target (row ∷ rows) =
      if text_eq (lower row.asset) target then ok row else find_position asked target rows

  unfoldable pub position : LiquidationState → Text → Result LiquidationError ReservePosition
  unfolding find_position
  position s asset = find_position asset (lower asset) s.positions

  -- `close_factor_bps`, from the two positions
  abbrev pub close_factor : LiquidationState → ReservePosition → ReservePosition → ℕ
  close_factor s collateral debt =
      if not (liquidatable s)
      then 0
      else if flt (of_cents (pos 95)) s.health_factor
          && fle (of_int (pos 2000)) (collateral_usd collateral)
          && fle (of_int (pos 2000)) (debt_usd debt)
      then 5000
      else 10000

  unfoldable pub close_factor_bps : LiquidationState → Text → Text → Result LiquidationError ℕ
  unfolding position
  close_factor_bps s collateral_asset debt_asset = position s collateral_asset >>= λ collateral.
      position s debt_asset >>= λ debt. ok (close_factor s collateral debt)

  -- `min(debt_raw, raw)` for a factor between none and all
  abbrev pub part_of_debt : LiquidationState → ReservePosition → ℕ → Result LiquidationError ℤ
  part_of_debt s debt factor =
      let max_usd = fdiv (fmul s.total_debt_usd (of_int (pos factor))) (of_int (pos 10000)) in
      divide d division_error max_usd debt.price_usd >>= λ tokens.
      ok (min_ℤ (pos debt.debt_raw) (floor_d (fmul tokens (pow10 debt.decimal_places))))

  abbrev pub debt_for_factor : LiquidationState → ReservePosition → ℕ → Result LiquidationError ℤ
  debt_for_factor s debt factor =
      if factor == 0
      then ok (pos 0)
      else if factor == 10000
      then ok (pos debt.debt_raw)
      else part_of_debt s debt factor

  unfoldable pub max_debt_to_cover_raw : LiquidationState → Text → Text → Result LiquidationError ℤ
  unfolding position close_factor_bps
  max_debt_to_cover_raw s collateral_asset debt_asset = position s debt_asset >>= λ debt.
      close_factor_bps s collateral_asset debt_asset >>= λ factor. debt_for_factor s debt factor

  -- What `aave` answers at a block. Its reads stand in zero/aave.py.
  pub record UserReserve : Type 0 where
    pub a_token_balance_raw : Option ℕ
    pub user_debt_raw : Option ℕ
    pub collateral_enabled : Option Bool

  pub record ReserveConfiguration : Type 0 where
    pub config_decimals : ℕ
    pub config_threshold_bps : ℕ
    pub config_bonus_bps : ℕ

  pub record AccountData : Type 0 where
    pub account_health : Float
    pub account_collateral : Float
    pub account_debt : Float

  pub record Aave : Type 0 where
    pub pool_address : ℤ → Text
    pub data_provider_address : ℤ → Text
    pub oracle_address : ℤ → Text
    pub account_data : Text → Text → ℤ → AccountData
    pub reserves_list : Text → ℤ → List Text
    pub user_reserve_data : Text → Text → Text → ℤ → UserReserve
    pub reserve_configuration : Text → Text → ℤ → ReserveConfiguration
    pub liquidation_protocol_fee : Text → Text → ℤ → ℕ
    pub asset_price : Text → Text → ℤ → Float

  -- `user.get(key, 0)` and `user.get(key, False)`
  abbrev pub or_no_amount : Option ℕ → ℕ
  or_no_amount none = 0
  or_no_amount (some n) = n

  abbrev pub or_disabled : Option Bool → Bool
  or_disabled none = false
  or_disabled (some b) = b

  module _ (aave : Aave) (borrower : Text) (block : ℤ) where
    abbrev pub position_of : Text → UserReserve → ReservePosition
    position_of asset user =
        let provider = aave.data_provider_address block in
        let cfg = aave.reserve_configuration provider asset block in
        record {
          asset = lower asset;
          decimal_places = cfg.config_decimals;
          price_usd = aave.asset_price (aave.oracle_address block) asset block;
          collateral_raw = or_no_amount user.a_token_balance_raw;
          debt_raw = or_no_amount user.user_debt_raw;
          usage_as_collateral_enabled = or_disabled user.collateral_enabled;
          liquidation_threshold_bps = cfg.config_threshold_bps;
          liquidation_bonus_bps = cfg.config_bonus_bps;
          liquidation_protocol_fee_bps = aave.liquidation_protocol_fee provider asset block;
        }

    -- The loop over the reserves.
    unfoldable pub positions_of : List Text → List ReservePosition
    positions_of [] = []
    positions_of (asset ∷ assets) =
        let user = aave.user_reserve_data (aave.data_provider_address block) asset borrower block in
        let rest = positions_of assets in
        if (or_no_amount user.a_token_balance_raw == 0) && (or_no_amount user.user_debt_raw == 0)
        then rest
        else position_of asset user ∷ rest

    unfoldable pub build_liquidation_state : LiquidationState
    unfolding positions_of
    build_liquidation_state =
        let pool = aave.pool_address block in
        let account = aave.account_data pool borrower block in
        record {
          block = block;
          borrower = lower borrower;
          pool = lower pool;
          data_provider = lower (aave.data_provider_address block);
          health_factor = account.account_health;
          total_collateral_usd = account.account_collateral;
          total_debt_usd = account.account_debt;
          positions = positions_of (aave.reserves_list pool block);
        }
