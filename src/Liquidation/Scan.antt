-- ===== src/Liquidation/Scan.antt =====
-- `scan_liquidation_watchlist` of zero/liquidation_swarm.py up to the best candidate of a borrower: the
-- watchlist without repetitions, the filter by health factor, and the search over the collaterals,
-- debts, venues and pools. What a venue discovers is a function of the two assets.
use flash_loan.Prelude.{
  ℕ, Bool, true, ◌&&◌, ◌||◌, not, Option, none, some, List, [], ◌∷◌, Text, lower, text_eq, ltb, leb,
  ◌==◌, if◌then◌else◌, length, get_or, Eq_text,
}
use flash_loan.Prelude.Int.{ℤ}
use flash_loan.Prelude.Dict.{contains}
use flash_loan.Prelude.Results.{Result, ok, error, ◌>>=◌}
use flash_loan.Decimal.{DecimalOps}
use flash_loan.Rpc.{decode_uints}
use flash_loan.Rpc.Batch.{Answer, answer_error, answer_bytes}
use flash_loan.Routes.{PoolRef, RouteLeg, make_leg}
use flash_loan.RouteQuote.{Registry, adapter_ready}
use flash_loan.Liquidation.{LiquidationError, ReservePosition, LiquidationState, liquidatable}
use flash_loan.Liquidation.Quote.{LiquidationCandidate, quote_liquidation}

-- The watchlist in lower case, the first of each borrower.
unfoldable pub unique_borrowers : List Text → List Text → List Text
unique_borrowers seen [] = []
unique_borrowers seen (value ∷ values) =
    let borrower = lower value in
    let skipped = unique_borrowers seen values in
    let rest = unique_borrowers (borrower ∷ seen) values in
    if contains seen borrower then skipped else borrower ∷ rest

-- The exception of a leg that the pool does not have.
pub data ScanError : Type 0 where
  leg_error : ScanError

module _ (d : DecimalOps) where
  open d use {decimals}
  open decimals use {Float, flt}

  -- The health factor of the words of an account, if there is one: `words[5] / 1e18`.
  abbrev pub factor_of : (ℕ → Float) → List ℕ → Option Float
  factor_of scaled words =
      if leb 6 (length words) && ltb 0 (get_or words 5 0)
      then some (scaled (get_or words 5 0))
      else none

  -- From the decoded words; `none` is the exception.
  abbrev pub factor_read : (ℕ → Float) → Option (List ℕ) → Option (Option Float)
  factor_read scaled none = none
  factor_read scaled (some words) = some (factor_of scaled words)

  -- An error and an empty answer tell nothing.
  unfoldable pub read_answer : (ℕ → Float) → Answer → Option (Option Float)
  unfolding decode_uints
  read_answer scaled (answer_error message) = some none
  read_answer scaled (answer_bytes []) = some none
  read_answer scaled (answer_bytes (b ∷ bytes)) = factor_read scaled (decode_uints (b ∷ bytes))

  abbrev pub cons_factor :
      Text
      → Option (Option Float)
      → Option (List (Text × Option Float))
      → Option (List (Text × Option Float))
  cons_factor borrower none rest = none
  cons_factor borrower (some hf) none = none
  cons_factor borrower (some hf) (some rest) = some ((borrower, hf) ∷ rest)

  -- The loop over the borrowers and the answers; `zip` ends with the shorter list.
  unfoldable pub read_factors :
      (ℕ → Float) → List Text → List Answer → Option (List (Text × Option Float))
  unfolding read_answer
  read_factors scaled [] answers = some []
  read_factors scaled (b ∷ bs) [] = cons_factor b (some none) (read_factors scaled bs [])
  read_factors scaled (b ∷ bs) (a ∷ answers) =
      cons_factor b (read_answer scaled a) (read_factors scaled bs answers)

  -- `hfs[b] is None or hfs[b] < hot_band`
  abbrev pub is_hot : Float → Option Float → Bool
  is_hot band none = true
  is_hot band (some hf) = flt hf band

  unfoldable pub hot_of : Float → List (Text × Option Float) → List Text
  hot_of band [] = []
  hot_of band ((b, hf) ∷ rest) =
      let others = hot_of band rest in if is_hot band hf then b ∷ others else others

  -- The borrowers to scan: all of them if the filter raised.
  unfoldable pub hot_borrowers : Float → List Text → Option (List (Text × Option Float)) → List Text
  unfolding hot_of
  hot_borrowers band borrowers none = borrowers
  hot_borrowers band borrowers (some factors) = hot_of band factors

  abbrev pub Candidate : Type 0
  Candidate = LiquidationCandidate d

  -- `best is None or candidate.expected_net_usd > best.expected_net_usd`
  abbrev pub better : Option Candidate → Candidate → Option Candidate
  better none c = some c
  better (some best) c = if flt best.expected_net_usd c.expected_net_usd then some c else some best

  -- A quote that raises and one that finds nothing are skipped.
  abbrev pub after_quote :
      Option Candidate → Result LiquidationError (Option Candidate) → Option Candidate
  after_quote best (error e) = best
  after_quote best (ok none) = best
  after_quote best (ok (some c)) = better best c

  module _ (s : LiquidationState d) (block : ℤ) (registry : Registry)
      (discover_pair : Text → Text → Text → Option (List PoolRef)) (flash_premium_bps : ℕ)
      (gas_usd reserve_usd : Float) where
    -- One pool: the leg may raise, the quote may not.
    abbrev pub try_leg :
        Text → Text → Option RouteLeg → Option Candidate → Result ScanError (Option Candidate)
    try_leg collateral debt none best = error leg_error
    try_leg collateral debt (some leg) best = ok (
        after_quote best (
          quote_liquidation d s debt collateral (record { legs = leg ∷ [] }) block registry
            flash_premium_bps gas_usd reserve_usd))

    unfoldable pub pool_loop :
        Text → Text → List PoolRef → Option Candidate → Result ScanError (Option Candidate)
    pool_loop collateral debt [] best = ok best
    pool_loop collateral debt (p ∷ ps) best =
        try_leg collateral debt (make_leg p collateral debt) best >>= pool_loop collateral debt ps

    -- A venue whose discovery raises is skipped.
    abbrev pub discovered :
        Text → Text → Option (List PoolRef) → Option Candidate → Result ScanError (Option Candidate)
    discovered collateral debt none best = ok best
    discovered collateral debt (some ps) best = pool_loop collateral debt ps best

    unfoldable pub venue_loop :
        Text → Text → Registry → Option Candidate → Result ScanError (Option Candidate)
    unfolding pool_loop
    venue_loop collateral debt [] best = ok best
    venue_loop collateral debt ((venue, adapter) ∷ venues) best =
        (if not (adapter_ready (some adapter))
          then ok best
          else discovered collateral debt (discover_pair venue collateral debt) best)
        >>= venue_loop collateral debt venues

    unfoldable pub debt_loop :
        ReservePosition d
        → List (ReservePosition d)
        → Option Candidate
        → Result ScanError (Option Candidate)
    unfolding venue_loop
    debt_loop collateral [] best = ok best
    debt_loop collateral (debt ∷ debts) best =
        (if (debt.debt_raw == 0) || text_eq debt.asset collateral.asset
          then ok best
          else venue_loop collateral.asset debt.asset registry best)
        >>= debt_loop collateral debts

    unfoldable pub collateral_loop :
        List (ReservePosition d) → Option Candidate → Result ScanError (Option Candidate)
    unfolding debt_loop
    collateral_loop [] best = ok best
    collateral_loop (collateral ∷ collaterals) best =
        (if (collateral.collateral_raw == 0) || not collateral.usage_as_collateral_enabled
          then ok best
          else debt_loop collateral s.positions best)
        >>= collateral_loop collaterals

    -- The best candidate of a borrower's state.
    unfoldable pub best_candidate : Result ScanError (Option Candidate)
    unfolding collateral_loop
    best_candidate = if not (liquidatable d s) then ok none else collateral_loop s.positions none
