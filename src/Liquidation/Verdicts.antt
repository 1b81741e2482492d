-- ===== src/Liquidation/Verdicts.antt =====
-- What `quote_liquidation` of zero/liquidation_quote.py gives, and which errors it raises.
use flash_loan.Prelude.{
  ℕ, ◌≡◌, refl, ap, Bool, true, false, ◌||◌, not, Option, none, some, Text, inl, inr, arith,
  Bool-cases,
}
use flash_loan.Prelude.Int.{ℤ, pos, ◌+ℤ◌, eqb_ℤ}
use flash_loan.Prelude.Results.{
  Result, ok, error, ◌>>=◌, Outcome, >>=-Outcome, Outcome-imp, Outcome-eq, if-Outcome, IfOk,
  Outcome-IfOk,
}
use flash_loan.Decimal.{DecimalOps, divide}
use flash_loan.RouteQuote.{Registry, is_positive}
use flash_loan.Liquidation.{
  LiquidationError, no_position, block_mismatch, wrong_start, wrong_end, quote_failed,
  division_error, ReservePosition, LiquidationState, liquidatable, position,
}
use flash_loan.Liquidation.Factor.{NotHeld, HeldIn, Missing, position-Found, divide_eq}
use flash_loan.Liquidation.Promise.{
  Ready, Accepts, healthy, not_ready, no_size, no_output, no_net, ceil_div-IsShareUp,
}
use flash_loan.Liquidation.Stages.{
  FromAdapter, OnlyAdapter, Positive, unwind-OnlyAdapter, collateral_for_debt-Missing,
}
use flash_loan.Liquidation.Quote.{
  UnwindRoute, LiquidationCandidate, starts_in, ends_in, all_ready, unwind, price_unwind,
  after_unwind, after_sizing, collateral_for_debt, quote_liquidation,
}

module _ (d : DecimalOps) (s : LiquidationState d) (debt_asset collateral_asset : Text)
    (route : UnwindRoute) (block : ℤ) (registry : Registry) where
  open d use {decimals}
  open decimals use {Float, zero_f, fle, fadd, fmul, fdiv}

  -- What an error says.
  abbrev pub Rejects : LiquidationError → Type 0
  Rejects (no_position asset) = NotHeld d s asset s.positions
  Rejects division_error = liquidatable d s ≡ true
  Rejects block_mismatch = eqb_ℤ block s.block ≡ false
  Rejects wrong_start = (liquidatable d s ≡ true) × (starts_in collateral_asset route.legs ≡ false)
  Rejects wrong_end = (liquidatable d s ≡ true) × (ends_in debt_asset route.legs ≡ false)
  Rejects (quote_failed e) = (all_ready registry route.legs ≡ true) × FromAdapter e

  Missing-Rejects : liquidatable d s ≡ true → (e : LiquidationError) → Missing d s e → Rejects e
  Missing-Rejects ill (no_position asset) m = m
  Missing-Rejects ill division_error m = ill
  Missing-Rejects ill block_mismatch m = absurd m
  Missing-Rejects ill wrong_start m = absurd m
  Missing-Rejects ill wrong_end m = absurd m
  Missing-Rejects ill (quote_failed e) m = absurd m

  Only-Rejects :
      all_ready registry route.legs ≡ true
      → (e : LiquidationError) → OnlyAdapter registry block e
      → Rejects e
  Only-Rejects ready (no_position asset) m = absurd m
  Only-Rejects ready division_error m = absurd m
  Only-Rejects ready block_mismatch m = absurd m
  Only-Rejects ready wrong_start m = absurd m
  Only-Rejects ready wrong_end m = absurd m
  Only-Rejects ready (quote_failed e) m = (ready, m)

  module _ (premium : ℕ) (gas_usd reserve_usd : Float)
      (ready : Ready d s debt_asset collateral_asset route block registry) where
    abbrev Accepted : Option (LiquidationCandidate d) → Type 0
    Accepted =
        Accepts d s debt_asset collateral_asset route block registry premium gas_usd reserve_usd

    module _ (cover received : ℤ)
        (sizes : collateral_for_debt d s debt_asset collateral_asset ≡ ok (cover, received))
        (covers : is_positive cover ≡ true) (receives : is_positive received ≡ true) where
      price-Accepts :
          (amount : ℤ) (debt : ReservePosition d)
          → HeldIn d s debt_asset s.positions debt
          → unwind registry block route.legs received ≡ ok (some amount)
          → Outcome Rejects Accepted (
              price_unwind d s debt_asset collateral_asset route block registry premium gas_usd
                reserve_usd cover received amount debt)
      unfolding price_unwind
      price-Accepts amount debt held u =
          if-Outcome Rejects Accepted (fle _ zero_f) (ok none) _
            (λ low.
              no_net cover received amount _ debt sizes u held
                (ceil_div-IsShareUp cover premium covers) low)
            (λ above.
              >>=-Outcome Rejects (λ q. q ≡ fdiv (fadd gas_usd reserve_usd) debt.price_usd) Accepted
                (divide d division_error (fadd gas_usd reserve_usd) debt.price_usd) _
                (Outcome-imp (Missing d s) Rejects _ _
                  (divide d division_error (fadd gas_usd reserve_usd) debt.price_usd)
                  (Missing-Rejects ready.1) (λ _ e. e)
                  (divide_eq d s (fadd gas_usd reserve_usd) debt.price_usd))
                (λ tokens e. (
                  ready,
                  (refl, refl, refl, refl, refl, refl),
                  (sizes, covers, receives, u),
                  (
                    debt,
                    held,
                    ceil_div-IsShareUp cover premium covers,
                    refl,
                    refl,
                    refl,
                    refl,
                    ap (λ t. d.ceil_d (fmul t (d.pow10 debt.decimal_places)) +ℤ pos 1) e,
                  ),
                  (above, refl),
                )))

      after_unwind-Accepts :
          (out : Result LiquidationError (Option ℤ))
          → unwind registry block route.legs received ≡ out
          → Outcome (OnlyAdapter registry block) (Positive registry block) out
          → Outcome Rejects Accepted (
              out
              >>= after_unwind d s debt_asset collateral_asset route block registry premium gas_usd
                  reserve_usd cover received)
      after_unwind-Accepts (error e) u o = Only-Rejects ready.4 e o
      after_unwind-Accepts (ok none) u o = no_output cover received sizes u
      after_unwind-Accepts (ok (some amount)) u o =
          >>=-Outcome Rejects (HeldIn d s debt_asset s.positions) Accepted (position d s debt_asset)
            _
            (Outcome-imp (Missing d s) Rejects _ (HeldIn d s debt_asset s.positions)
              (position d s debt_asset) (Missing-Rejects ready.1) (λ _ h. h)
              (position-Found d s debt_asset))
            (λ debt held. price-Accepts amount debt held u)

    after_sizing-Accepts :
        (sizes : ℤ × ℤ)
        → collateral_for_debt d s debt_asset collateral_asset ≡ ok sizes
        → Outcome Rejects Accepted (
            after_sizing d s debt_asset collateral_asset route block registry premium gas_usd
              reserve_usd sizes)
    unfolding after_sizing
    after_sizing-Accepts (cover, received) e =
        elim (Bool-cases (not (is_positive cover) || not (is_positive received))) [
          | inl nothing ↦ rw nothing (no_size cover received e (ground (arith, nothing)))
          | inr something ↦ rw something (
              after_unwind-Accepts cover received e (ground (arith, something))
                (ground (arith, something)) (unwind registry block route.legs received) refl
                (unwind-OnlyAdapter registry block route.legs received ready.4
                  (ground (arith, something))))
        ]

  false_of : (b : Bool) → not b ≡ true → b ≡ false
  false_of true h = absurd (cc)
  false_of false h = refl

  of_not : (b : Bool) → not b ≡ false → b ≡ true
  of_not true h = refl
  of_not false h = absurd (cc)

  quote_verdict :
      (premium : ℕ) (gas_usd reserve_usd : Float)
      → Outcome Rejects
          (Accepts d s debt_asset collateral_asset route block registry premium gas_usd reserve_usd)
          (quote_liquidation d s debt_asset collateral_asset route block registry premium gas_usd
            reserve_usd)
  unfolding quote_liquidation
  quote_verdict premium gas_usd reserve_usd =
      let Q =
        Accepts d s debt_asset collateral_asset route block registry premium gas_usd reserve_usd in
      if-Outcome Rejects Q (not (eqb_ℤ block s.block)) (error block_mismatch) _
        (λ other. ground arith)
        (λ same.
          if-Outcome Rejects Q (not (liquidatable d s)) (ok none) _
            (λ well. healthy (ground (arith, well)))
            (λ ill.
              if-Outcome Rejects Q (not (starts_in collateral_asset route.legs)) (error wrong_start)
                _ (λ off. (ground (arith, ill), ground (arith, off)))
                (λ on.
                  if-Outcome Rejects Q (not (ends_in debt_asset route.legs)) (error wrong_end) _
                    (λ off. (ground (arith, ill), ground (arith, off)))
                    (λ there.
                      if-Outcome Rejects Q (not (all_ready registry route.legs)) (ok none) _
                        (λ off. not_ready (false_of (all_ready registry route.legs) off))
                        (λ all_of.
                          let ready : Ready d s debt_asset collateral_asset route block registry = (
                            of_not (eqb_ℤ block s.block) same,
                            of_not (liquidatable d s) ill,
                            of_not (starts_in collateral_asset route.legs) on,
                            of_not (ends_in debt_asset route.legs) there,
                            of_not (all_ready registry route.legs) all_of,
                          ) in
                          >>=-Outcome Rejects _ Q
                            (collateral_for_debt d s debt_asset collateral_asset) _
                            (Outcome-eq Rejects (λ (z : ℤ × ℤ). Unit {0})
                              (collateral_for_debt d s debt_asset collateral_asset)
                              (Outcome-imp (Missing d s) Rejects _ (λ _. Unit {0})
                                (collateral_for_debt d s debt_asset collateral_asset)
                                (Missing-Rejects ready.1) (λ _ _. tt)
                                (collateral_for_debt-Missing d s debt_asset collateral_asset)))
                            (λ sizes h.
                              after_sizing-Accepts premium gas_usd reserve_usd ready sizes h.1))))))

  -- Every candidate is of the block of the state and a liquidatable account, and names them, the
  -- borrower, the pair and the route, which leads from the collateral to the debt asset over venues
  -- that can all quote and execute. Its debt and collateral are the positive sizes of the pair, the
  -- amount out is what the legs give for that collateral, the flash fee is the premium on the debt
  -- rounded up, and the gross profit, the fee in dollars and the least profit are in the price of the
  -- debt that the borrower holds. The expected net, which is the gross profit less the fee, the gas
  -- and the reserve, is above zero. If there is neither an exception nor a candidate, the account is
  -- healthy, a venue is not ready, a size is not positive, a leg gives nothing, or that net is not
  -- above zero.
  pub quote_liquidation-Accepts :
      (premium : ℕ) (gas_usd reserve_usd : Float)
      → IfOk
          (Accepts d s debt_asset collateral_asset route block registry premium gas_usd reserve_usd)
          (quote_liquidation d s debt_asset collateral_asset route block registry premium gas_usd
            reserve_usd)
  quote_liquidation-Accepts premium gas_usd reserve_usd =
      Outcome-IfOk Rejects
        (Accepts d s debt_asset collateral_asset route block registry premium gas_usd reserve_usd)
        (quote_liquidation d s debt_asset collateral_asset route block registry premium gas_usd
          reserve_usd)
        (quote_verdict premium gas_usd reserve_usd)

  -- Each exception of a quote has its cause: the block is not the state's, a route of a liquidatable
  -- account does not start in the collateral or end in the debt asset, an asset is not held, a
  -- division by zero of a liquidatable account, or what an adapter itself raised while all
  -- adapters of the route are ready. An unknown venue and a venue without quotes are never one.
  pub quote_liquidation-Rejects :
      (premium : ℕ) (gas_usd reserve_usd : Float)
      → Outcome Rejects
          (λ (c : Option (LiquidationCandidate d)). Unit {0})
          (quote_liquidation d s debt_asset collateral_asset route block registry premium gas_usd
            reserve_usd)
  quote_liquidation-Rejects premium gas_usd reserve_usd =
      Outcome-imp Rejects Rejects
        (Accepts d s debt_asset collateral_asset route block registry premium gas_usd reserve_usd)
        (λ _. Unit {0}) _ (λ e h. h) (λ _ _. tt) (quote_verdict premium gas_usd reserve_usd)
