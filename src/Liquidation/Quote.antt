-- ===== src/Liquidation/Quote.antt =====
-- `UnwindRoute`, `_collateral_for_debt` and `quote_liquidation` of zero/liquidation_quote.py.
use flash_loan.Prelude.{
  ℕ, Bool, true, false, ◌&&◌, ◌||◌, not, Option, none, some, List, [], ◌∷◌, map, Text, lower,
  text_eq, leb, ◌==◌, if◌then◌else◌, length, Eq_text,
}
use flash_loan.Prelude.Int.{ℤ, pos, ◌+ℤ◌, ◌-ℤ◌, ◌*ℤ◌, ltb_ℤ, eqb_ℤ, floor_div, max_ℤ}
use flash_loan.Prelude.Dict.{lookup}
use flash_loan.Prelude.Results.{Result, ok, error, ◌>>=◌}
use flash_loan.Decimal.{DecimalOps, divide}
use flash_loan.Routes.{RouteLeg, contiguous, no_repeats, leg_id}
use flash_loan.RouteQuote.{Registry, LegError, VenueQuote, quote_leg, adapter_ready, is_positive}
use flash_loan.Liquidation.{
  LiquidationError, block_mismatch, wrong_start, wrong_end, quote_failed, division_error,
  ReservePosition, LiquidationState, liquidatable, position, max_debt_to_cover_raw,
}

-- `_ceil_div` by 10_000
unfoldable pub ceil_div : ℤ → ℤ
ceil_div numerator = floor_div (numerator +ℤ pos 10000 -ℤ pos 1) 10000

pub record UnwindRoute : Type 0 where
  pub legs : List RouteLeg

-- `UnwindRoute(legs)`; `none` is a `ValueError`.
unfoldable pub make_unwind : (Text → Text) → List RouteLeg → Option UnwindRoute
make_unwind digest legs =
    if not (leb 1 (length legs) && leb (length legs) 3)
    then none
    else if not (contiguous legs)
    then none
    else if not (no_repeats (map (leg_id digest) legs))
    then none
    else some (record { legs = legs })

-- `route.token_in.lower() == asset.lower()`, of a route with legs
abbrev pub starts_in : Text → List RouteLeg → Bool
starts_in asset [] = false
starts_in asset (l ∷ ls) = text_eq (lower l.token_in) (lower asset)

-- `route.token_out.lower() == asset.lower()`
unfoldable pub ends_in : Text → List RouteLeg → Bool
ends_in asset [] = false
ends_in asset (l ∷ []) = text_eq (lower l.token_out) (lower asset)
ends_in asset (l ∷ r ∷ ls) = ends_in asset (r ∷ ls)

-- The loop that looks at each adapter.
unfoldable pub all_ready : Registry → List RouteLeg → Bool
all_ready registry [] = true
all_ready registry (l ∷ ls) =
    adapter_ready (lookup l.pool.venue_id registry) && all_ready registry ls

-- The loop that quotes the legs: `none` if a leg gives nothing.
abbrev pub take_unwind :
    Result LegError VenueQuote
    → (ℤ → Result LiquidationError (Option ℤ))
    → Result LiquidationError (Option ℤ)
take_unwind (error e) rest = error (quote_failed e)
take_unwind (ok q) rest = if is_positive q.amount_out then rest q.amount_out else ok none

unfoldable pub unwind : Registry → ℤ → List RouteLeg → ℤ → Result LiquidationError (Option ℤ)
unwind registry block [] amount = ok (some amount)
unwind registry block (l ∷ ls) amount =
    take_unwind (quote_leg registry l.pool amount l.token_in block) (unwind registry block ls)

module _ (d : DecimalOps) where
  open d use {decimals, of_int, pow10, floor_d, ceil_d}
  open decimals use {Float, zero_f, fle, fadd, fsub, fmul, fdiv}

  -- What the liquidator gets of the collateral, after the protocol's fee on the bonus; a bonus of
  -- zero raises.
  unfoldable pub liquidator_collateral : ReservePosition d → ℤ → Result LiquidationError ℤ
  liquidator_collateral collateral total =
      let bonus_bps = collateral.liquidation_bonus_bps in
      let bonus = total -ℤ floor_div (total *ℤ pos 10000) bonus_bps in
      let fee = ceil_div (bonus *ℤ pos collateral.liquidation_protocol_fee_bps) in
      if bonus_bps == 0 then error division_error else ok (max_ℤ (pos 0) (total -ℤ fee))

  -- The collateral that the debt buys with the bonus, before the cap.
  unfoldable pub collateral_bought :
      ReservePosition d → ReservePosition d → ℤ → Result LiquidationError ℤ
  collateral_bought debt collateral debt_to_cover =
      let debt_tokens = fdiv (of_int debt_to_cover) (pow10 debt.decimal_places) in
      divide d division_error (fmul debt_tokens debt.price_usd) collateral.price_usd >>= λ base.
      let tokens =
        fdiv (fmul base (of_int (pos collateral.liquidation_bonus_bps))) (of_int (pos 10000)) in
      ok (floor_d (fmul tokens (pow10 collateral.decimal_places)))

  -- The debt that buys all of the collateral.
  unfoldable pub debt_needed : ReservePosition d → ReservePosition d → Result LiquidationError ℤ
  debt_needed debt collateral =
      let tokens =
        fdiv (of_int (pos collateral.collateral_raw)) (pow10 collateral.decimal_places) in
      divide d division_error (fmul tokens collateral.price_usd) debt.price_usd >>= λ needed.
      divide d division_error (fmul needed (of_int (pos 10000)))
        (of_int (pos collateral.liquidation_bonus_bps))
      >>= λ scaled. ok (ceil_d (fmul scaled (pow10 debt.decimal_places)))

  -- The debt to cover and the collateral received, from what the debt buys.
  unfoldable pub sizes_for :
      ReservePosition d → ReservePosition d → ℤ → ℤ → Result LiquidationError (ℤ × ℤ)
  unfolding debt_needed liquidator_collateral
  sizes_for debt collateral debt_to_cover total =
      if ltb_ℤ (pos collateral.collateral_raw) total
      then (debt_needed debt collateral >>= λ needed.
          liquidator_collateral collateral (pos collateral.collateral_raw) >>= λ received.
          ok (needed, received))
      else liquidator_collateral collateral total >>= λ received. ok (debt_to_cover, received)

  -- `_collateral_for_debt`
  unfoldable pub collateral_for_debt :
      LiquidationState d → Text → Text → Result LiquidationError (ℤ × ℤ)
  unfolding position max_debt_to_cover_raw collateral_bought sizes_for
  collateral_for_debt s debt_asset collateral_asset = position d s debt_asset >>= λ debt.
      position d s collateral_asset >>= λ collateral.
      max_debt_to_cover_raw d s collateral_asset debt_asset >>= λ cover.
      if not (is_positive cover) || (collateral.collateral_raw == 0)
      then ok (pos 0, pos 0)
      else collateral_bought debt collateral cover >>= sizes_for debt collateral cover

  pub record LiquidationCandidate : Type 0 where
    pub block : ℤ
    pub borrower : Text
    pub debt_asset : Text
    pub collateral_asset : Text
    pub debt_to_cover_raw : ℤ
    pub collateral_received_raw : ℤ
    pub unwind_out_raw : ℤ
    pub flash_fee_raw : ℤ
    pub min_profit_raw : ℤ
    pub gross_usd : Float
    pub flash_fee_usd : Float
    pub gas_usd : Float
    pub reserve_usd : Float
    pub expected_net_usd : Float
    pub executable : Bool
    pub route : UnwindRoute

  module _ (s : LiquidationState d) (debt_asset collateral_asset : Text) (route : UnwindRoute)
      (block : ℤ) (registry : Registry) (flash_premium_bps : ℕ) (gas_usd reserve_usd : Float) where
    -- The economics of an unwind, from the sizes and the amount that the legs give.
    unfoldable pub price_unwind :
        ℤ → ℤ → ℤ → ReservePosition d → Result LiquidationError (Option LiquidationCandidate)
    price_unwind cover received amount debt =
        let scale = pow10 debt.decimal_places in
        let flash_fee_raw = ceil_div (cover *ℤ pos flash_premium_bps) in
        let gross_usd = fmul (fdiv (of_int (amount -ℤ cover)) scale) debt.price_usd in
        let flash_fee_usd = fmul (fdiv (of_int flash_fee_raw) scale) debt.price_usd in
        let expected = fsub (fsub (fsub gross_usd flash_fee_usd) gas_usd) reserve_usd in
        if fle expected zero_f
        then ok none
        else divide d division_error (fadd gas_usd reserve_usd) debt.price_usd >>= λ tokens. ok (
            some (record {
              block = block;
              borrower = s.borrower;
              debt_asset = lower debt_asset;
              collateral_asset = lower collateral_asset;
              debt_to_cover_raw = cover;
              collateral_received_raw = received;
              unwind_out_raw = amount;
              flash_fee_raw = flash_fee_raw;
              min_profit_raw = ceil_d (fmul tokens scale) +ℤ pos 1;
              gross_usd = gross_usd;
              flash_fee_usd = flash_fee_usd;
              gas_usd = gas_usd;
              reserve_usd = reserve_usd;
              expected_net_usd = expected;
              executable = true;
              route = route;
            }))

    -- After the unwind: `none` if a leg gave nothing.
    abbrev pub after_unwind :
        ℤ → ℤ → Option ℤ → Result LiquidationError (Option LiquidationCandidate)
    after_unwind cover received none = ok none
    after_unwind cover received (some amount) =
        position d s debt_asset >>= price_unwind cover received amount

    unfoldable pub after_sizing : ℤ × ℤ → Result LiquidationError (Option LiquidationCandidate)
    unfolding unwind position price_unwind
    after_sizing (cover, received) =
        if not (is_positive cover) || not (is_positive received)
        then ok none
        else unwind registry block route.legs received >>= after_unwind cover received

    unfoldable pub quote_liquidation : Result LiquidationError (Option LiquidationCandidate)
    unfolding ends_in all_ready collateral_for_debt after_sizing
    quote_liquidation =
        if not (eqb_ℤ block s.block)
        then error block_mismatch
        else if not (liquidatable d s)
        then ok none
        else if not (starts_in collateral_asset route.legs)
        then error wrong_start
        else if not (ends_in debt_asset route.legs)
        then error wrong_end
        else if not (all_ready registry route.legs)
        then ok none
        else collateral_for_debt s debt_asset collateral_asset >>= after_sizing
