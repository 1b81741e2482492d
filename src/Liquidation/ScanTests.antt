-- ===== src/Liquidation/ScanTests.antt =====
-- The search over one borrower with one venue that discovers one pool, and the theorem at it.
use flash_loan.Prelude.{◌≡◌, refl, none, some, Option, List, [], ◌∷◌, Text, codes, Eq_text}
use flash_loan.Prelude.Int
use flash_loan.Prelude.Int.{ℤ, pos}
use flash_loan.Prelude.Dict
use flash_loan.Prelude.Results.{Result, ok, error, Outcome}
use flash_loan.Decimal.{milli, milli_order}
use flash_loan.Rpc.Batch.{answer_error}
use flash_loan.Routes.{PoolRef, make_leg}
use flash_loan.Routes.Tests.{pool}
use flash_loan.RouteQuote.{quote_leg, quote_with}
use flash_loan.Liquidation.{find_position, position, close_factor_bps, max_debt_to_cover_raw}
use flash_loan.Liquidation.Tests.{state, registry}
use flash_loan.Liquidation.Quote.{
  LiquidationCandidate, ceil_div, ends_in, all_ready, unwind, price_unwind, after_sizing,
  liquidator_collateral, collateral_bought, debt_needed, sizes_for, collateral_for_debt,
  quote_liquidation,
}
use flash_loan.Liquidation.Scan.{
  ScanError, unique_borrowers, read_answer, read_factors, hot_of, hot_borrowers, pool_loop,
  venue_loop, debt_loop, collateral_loop, best_candidate,
}
use flash_loan.Liquidation.Optimum.{Chosen, Raises, best_candidate-Chosen}

abbrev discover_pair : Text → Text → Text → Option (List PoolRef)
discover_pair venue a b = some (pool (codes "1") (codes "c") (codes "d") ∷ [])

abbrev net_of : Result ScanError (Option (LiquidationCandidate milli)) → Option ℤ
net_of (error e) = none
net_of (ok none) = none
net_of (ok (some c)) = some c.expected_net_usd

best_run :
    net_of (best_candidate milli state (pos 7) registry discover_pair 9 (pos 2000) (pos 1000))
    ≡ some (pos 8000)
unfolding best_candidate collateral_loop debt_loop venue_loop pool_loop make_leg Dict.contains
    quote_liquidation ends_in all_ready unwind price_unwind after_sizing liquidator_collateral
    collateral_bought debt_needed sizes_for collateral_for_debt ceil_div find_position position
    close_factor_bps max_debt_to_cover_raw Dict.lookup quote_leg quote_with Int.◌+ℤ◌ Int.◌-ℤ◌
    Int.◌*ℤ◌ Int.floor_div
best_run = refl

borrowers_run :
    unique_borrowers [] (codes "0xA" ∷ codes "0xb" ∷ codes "0xa" ∷ [])
    ≡ codes "0xa" ∷ codes "0xb" ∷ []
unfolding unique_borrowers Dict.contains
borrowers_run = refl

-- An error tells nothing, so the borrower is scanned.
hot_run :
    hot_borrowers milli
      (pos 1000)
      (codes "a" ∷ [])
      (read_factors milli (λ n. pos n) (codes "a" ∷ []) (answer_error (codes "down") ∷ []))
    ≡ codes "a" ∷ []
unfolding hot_borrowers hot_of read_factors read_answer
hot_run = refl

best_candidate-Chosen_example :
    Outcome
      (Raises milli milli_order state (pos 7) registry discover_pair 9 (pos 2000) (pos 1000))
      (Chosen milli milli_order state (pos 7) registry discover_pair 9 (pos 2000) (pos 1000))
      (best_candidate milli state (pos 7) registry discover_pair 9 (pos 2000) (pos 1000))
best_candidate-Chosen_example =
    best_candidate-Chosen milli milli_order state (pos 7) registry discover_pair 9 (pos 2000)
      (pos 1000)
