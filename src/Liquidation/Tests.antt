-- ===== src/Liquidation/Tests.antt =====
-- A borrower with 80 of a collateral at 2 and a debt of 100 at 1, in thousandths; runs, and each
-- theorem at it.
use flash_loan.Prelude.{◌≡◌, refl, true, false, none, some, Option, [], ◌∷◌, codes, arith}
use flash_loan.Prelude.Int
use flash_loan.Prelude.Int.{ℤ, pos, ◌+ℤ◌}
use flash_loan.Prelude.Dict
use flash_loan.Prelude.Results.{Result, ok, error, IfOk, Outcome}
use flash_loan.Prelude.Sort.{All}
use flash_loan.Decimal.{milli, milli_sign}
use flash_loan.Routes.Tests.{pool}
use flash_loan.RouteQuote
use flash_loan.RouteQuote.{VenueQuote, Adapter, Registry}
use flash_loan.Liquidation.{
  LiquidationState, ReservePosition, LiquidationError, block_mismatch, find_position, position,
  close_factor_bps, max_debt_to_cover_raw,
}
use flash_loan.Liquidation.Factor.{Missing}
use flash_loan.Liquidation.Sizing.{IsReserve, TakesFrom, collateral_for_debt-TakesFrom}
use flash_loan.Liquidation.Promise.{Accepts}
use flash_loan.Liquidation.Verdicts.{Rejects, quote_liquidation-Accepts, quote_liquidation-Rejects}
use flash_loan.Liquidation.Quote.{
  UnwindRoute, LiquidationCandidate, ceil_div, ends_in, all_ready, unwind, price_unwind,
  after_sizing, liquidator_collateral, collateral_bought, debt_needed, sizes_for,
  collateral_for_debt, quote_liquidation,
}

abbrev held : ReservePosition milli
held = record {
  asset = codes "c";
  decimal_places = 0;
  price_usd = pos 2000;
  collateral_raw = 80;
  debt_raw = 0;
  usage_as_collateral_enabled = true;
  liquidation_threshold_bps = 8000;
  liquidation_bonus_bps = 10500;
  liquidation_protocol_fee_bps = 1000;
}

abbrev owed : ReservePosition milli
owed = record {
  asset = codes "d";
  decimal_places = 0;
  price_usd = pos 1000;
  collateral_raw = 0;
  debt_raw = 100;
  usage_as_collateral_enabled = false;
  liquidation_threshold_bps = 8000;
  liquidation_bonus_bps = 10500;
  liquidation_protocol_fee_bps = 1000;
}

abbrev pub state : LiquidationState milli
state = record {
  block = pos 7;
  borrower = codes "b";
  pool = codes "p";
  data_provider = codes "q";
  health_factor = pos 970;
  total_collateral_usd = pos 160000;
  total_debt_usd = pos 100000;
  positions = held ∷ owed ∷ [];
}

-- A venue that gives twice what it takes, and ten.
abbrev adapter : Adapter
adapter = record {
  exact_quote_supported = true;
  execution_supported = true;
  quote_exact_input = λ p token amount block.
      RouteQuote.ok (record {
        amount_out = amount +ℤ amount +ℤ pos 10;
        gas_estimate = pos 100;
        fee_used = none;
      });
}

abbrev pub registry : Registry
registry = (codes "v", adapter) ∷ []

abbrev route : UnwindRoute
route = record {
  legs =
      record {
        pool = pool (codes "1") (codes "c") (codes "d");
        token_in = codes "c";
        token_out = codes "d";
      }
      ∷ [];
}

state-IsReserve : All (IsReserve milli state) state.positions
state-IsReserve = ((omega arith, refl), ((omega arith, refl), tt))

abbrev pub summary :
    Result LiquidationError (Option (LiquidationCandidate milli)) → Option (ℤ × ℤ × ℤ × ℤ × ℤ)
summary (error e) = none
summary (ok none) = none
summary (ok (some c)) = some (
  c.debt_to_cover_raw, c.collateral_received_raw, c.unwind_out_raw, c.expected_net_usd,
  c.min_profit_raw,
)

-- The debt of 100 buys 52, of which one is the protocol's fee.
quote_run :
    summary (
      quote_liquidation milli state
        (codes "D")
        (codes "C")
        route
        (pos 7)
        registry
        9
        (pos 2000)
        (pos 1000))
    ≡ some (pos 100, pos 51, pos 112, pos 8000, pos 4)
unfolding quote_liquidation ends_in all_ready unwind price_unwind after_sizing liquidator_collateral
    collateral_bought debt_needed sizes_for collateral_for_debt ceil_div find_position position
    close_factor_bps max_debt_to_cover_raw Dict.lookup RouteQuote.quote_leg RouteQuote.quote_with
    Int.◌+ℤ◌ Int.◌-ℤ◌ Int.◌*ℤ◌ Int.floor_div
quote_run = refl

-- Another block is an error.
block_run :
    quote_liquidation milli state
      (codes "d")
      (codes "c")
      route
      (pos 8)
      registry
      9
      (pos 2000)
      (pos 1000)
    ≡ error block_mismatch
unfolding quote_liquidation
block_run = refl

collateral_for_debt-TakesFrom_example :
    Outcome
      (Missing milli state)
      (TakesFrom milli state milli_sign (codes "c"))
      (collateral_for_debt milli state (codes "d") (codes "c"))
collateral_for_debt-TakesFrom_example =
    collateral_for_debt-TakesFrom milli state milli_sign (codes "d") (codes "c") state-IsReserve

quote_liquidation-Accepts_example :
    IfOk
      (Accepts milli state (codes "d") (codes "c") route (pos 7) registry 9 (pos 2000) (pos 1000))
      (quote_liquidation milli state
        (codes "d")
        (codes "c")
        route
        (pos 7)
        registry
        9
        (pos 2000)
        (pos 1000))
quote_liquidation-Accepts_example =
    quote_liquidation-Accepts milli state (codes "d") (codes "c") route (pos 7) registry 9
      (pos 2000) (pos 1000)

quote_liquidation-Rejects_example :
    Outcome
      (Rejects milli state (codes "d") (codes "c") route (pos 8) registry)
      (λ (c : Option (LiquidationCandidate milli)). Unit {0})
      (quote_liquidation milli state
        (codes "d")
        (codes "c")
        route
        (pos 8)
        registry
        9
        (pos 2000)
        (pos 1000))
quote_liquidation-Rejects_example =
    quote_liquidation-Rejects milli state (codes "d") (codes "c") route (pos 8) registry 9
      (pos 2000) (pos 1000)
