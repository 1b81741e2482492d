-- ===== src/Liquidation/Stages.antt =====
-- The errors of each stage of `quote_liquidation` in zero/liquidation_quote.py.
use flash_loan.Prelude.{
  ◌≡◌, Bool, true, false, ◌||◌, not, Option, none, some, List, [], ◌∷◌, Text, inl, inr, arith,
  if◌then◌else◌, Bool-cases, ◌==◌, Eq_text,
}
use flash_loan.Prelude.Int.{ℤ, pos, ltb_ℤ}
use flash_loan.Prelude.Dict.{lookup}
use flash_loan.Prelude.Results.{Result, ok, error, Outcome, >>=-Outcome}
use flash_loan.Decimal.{DecimalOps, divide}
use flash_loan.Routes.{PoolRef, RouteLeg}
use flash_loan.RouteQuote.{
  Registry, Adapter, LegError, VenueQuote, quote_leg, quote_with, adapter_ready, answer_of,
  is_positive, amount_not_positive, unknown_venue, quotes_disabled, adapter_error,
}
use flash_loan.Liquidation.{
  LiquidationError, no_position, block_mismatch, wrong_start, wrong_end, quote_failed,
  division_error, ReservePosition, LiquidationState, position, max_debt_to_cover_raw,
}
use flash_loan.Liquidation.Factor.{
  Missing, position-Found, divide-Outcome, max_debt_to_cover_raw-Repayable,
}
use flash_loan.Liquidation.Sizing.{debt_needed-Outcome}
use flash_loan.Liquidation.Quote.{
  all_ready, unwind, take_unwind, collateral_for_debt, collateral_bought, sizes_for, debt_needed,
  liquidator_collateral,
}

-- An exception that comes from the adapter of a venue.
abbrev pub FromAdapter : LegError → Type 0
FromAdapter amount_not_positive = ⊥
FromAdapter unknown_venue = ⊥
FromAdapter quotes_disabled = ⊥
FromAdapter (adapter_error message) = Unit

answer-FromAdapter :
    (r : Result Text VenueQuote) → Outcome FromAdapter (λ (q : VenueQuote). Unit {0}) (answer_of r)
answer-FromAdapter (ok q) = tt
answer-FromAdapter (error message) = tt

quote_with-FromAdapter :
    (found : Option Adapter) (pool : PoolRef) (amount : ℤ) (token : Text) (block : ℤ)
    → adapter_ready found ≡ true
    → Outcome FromAdapter (λ (q : VenueQuote). Unit {0}) (quote_with found pool amount token block)
unfolding quote_with
quote_with-FromAdapter none pool amount token block h = absurd (cc)
quote_with-FromAdapter (some a) pool amount token block h =
    let supported : not a.exact_quote_supported ≡ false = ground arith in
    rw supported (answer-FromAdapter (a.quote_exact_input pool token amount block))

module _ (registry : Registry) (block : ℤ) where
  -- The errors of an unwind whose adapters are ready.
  abbrev pub OnlyAdapter : LiquidationError → Type 0
  OnlyAdapter (no_position asset) = ⊥
  OnlyAdapter division_error = ⊥
  OnlyAdapter block_mismatch = ⊥
  OnlyAdapter wrong_start = ⊥
  OnlyAdapter wrong_end = ⊥
  OnlyAdapter (quote_failed e) = FromAdapter e

  -- The amount that comes out of the legs is above zero.
  abbrev pub Positive : Option ℤ → Type 0
  Positive none = Unit
  Positive (some amount) = is_positive amount ≡ true

  quote_leg-FromAdapter :
      (pool : PoolRef) (amount : ℤ) (token : Text)
      → adapter_ready (lookup pool.venue_id registry) ≡ true
      → is_positive amount ≡ true
      → Outcome FromAdapter
          (λ (q : VenueQuote). Unit {0})
          (quote_leg registry pool amount token block)
  unfolding quote_leg
  quote_leg-FromAdapter pool amount token h k =
      rw k (quote_with-FromAdapter (lookup pool.venue_id registry) pool amount token block h)

  take_unwind-OnlyAdapter :
      (r : Result LegError VenueQuote) (rest : ℤ → Result LiquidationError (Option ℤ))
      → Outcome FromAdapter (λ (q : VenueQuote). Unit {0}) r
      → ((amount : ℤ) → is_positive amount ≡ true → Outcome OnlyAdapter Positive (rest amount))
      → Outcome OnlyAdapter Positive (take_unwind r rest)
  take_unwind-OnlyAdapter (error e) rest h k = h
  take_unwind-OnlyAdapter (ok q) rest h k = elim (Bool-cases (is_positive q.amount_out)) [
    | inl gives ↦ rw gives (k q.amount_out gives)
    | inr gives_none ↦ rw gives_none tt
  ]

  pub unwind-OnlyAdapter :
      (ls : List RouteLeg) (amount : ℤ)
      → all_ready registry ls ≡ true
      → is_positive amount ≡ true
      → Outcome OnlyAdapter Positive (unwind registry block ls amount)
  unfolding unwind all_ready
  unwind-OnlyAdapter [] amount h k = k
  unwind-OnlyAdapter (l ∷ ls) amount h k =
      take_unwind-OnlyAdapter (quote_leg registry l.pool amount l.token_in block)
        (unwind registry block ls) (quote_leg-FromAdapter l.pool amount l.token_in (ground arith) k)
        (λ out gives. unwind-OnlyAdapter ls out (ground arith) gives)

module _ (d : DecimalOps) (s : LiquidationState d) where
  open d use {decimals}
  open decimals use {Float, zero_f, fle, fsub}

  liquidator-Missing :
      (c : ReservePosition d) (total : ℤ)
      → Outcome (Missing d s) (λ (r : ℤ). Unit {0}) (liquidator_collateral d c total)
  unfolding liquidator_collateral
  liquidator-Missing c total = elim (Bool-cases (c.liquidation_bonus_bps == 0)) [
    | inl no_bonus ↦ rw no_bonus tt
    | inr bonus ↦ rw bonus tt
  ]

  sizes_for-Missing :
      (debt c : ReservePosition d) (cover total : ℤ)
      → Outcome (Missing d s) (λ (z : ℤ × ℤ). Unit {0}) (sizes_for d debt c cover total)
  unfolding sizes_for
  sizes_for-Missing debt c cover total = elim (Bool-cases (ltb_ℤ (pos c.collateral_raw) total)) [
    | inl above ↦ rw above (
        >>=-Outcome (Missing d s) _ (λ _. Unit {0}) (debt_needed d debt c) _
          (debt_needed-Outcome d s debt c)
          (λ needed _.
            >>=-Outcome (Missing d s) _ (λ _. Unit {0})
              (liquidator_collateral d c (pos c.collateral_raw)) _
              (liquidator-Missing c (pos c.collateral_raw)) (λ received _. tt)))
    | inr within ↦ rw within (
        >>=-Outcome (Missing d s) _ (λ _. Unit {0}) (liquidator_collateral d c total) _
          (liquidator-Missing c total) (λ received _. tt))
  ]

  guarded-Missing :
      (b : Bool) (r : Result LiquidationError (ℤ × ℤ))
      → Outcome (Missing d s) (λ (z : ℤ × ℤ). Unit {0}) r
      → Outcome (Missing d s) (λ (z : ℤ × ℤ). Unit {0}) (if b then ok (pos 0, pos 0) else r)
  guarded-Missing true r h = tt
  guarded-Missing false r h = h

  bought-Missing :
      (debt c : ReservePosition d) (cover : ℤ)
      → Outcome (Missing d s) (λ (t : ℤ). Unit {0}) (collateral_bought d debt c cover)
  unfolding collateral_bought
  bought-Missing debt c cover =
      >>=-Outcome (Missing d s) _ (λ _. Unit {0}) (divide d division_error _ c.price_usd) _
        (divide-Outcome d s _ _) (λ base _. tt)

  pub collateral_for_debt-Missing :
      (debt_asset collateral_asset : Text)
      → Outcome
          (Missing d s)
          (λ (z : ℤ × ℤ). Unit {0})
          (collateral_for_debt d s debt_asset collateral_asset)
  unfolding collateral_for_debt
  collateral_for_debt-Missing debt_asset collateral_asset =
      >>=-Outcome (Missing d s) _ (λ _. Unit {0}) (position d s debt_asset) _
        (position-Found d s debt_asset)
        (λ debt _.
          >>=-Outcome (Missing d s) _ (λ _. Unit {0}) (position d s collateral_asset) _
            (position-Found d s collateral_asset)
            (λ c _.
              >>=-Outcome (Missing d s) _ (λ _. Unit {0})
                (max_debt_to_cover_raw d s collateral_asset debt_asset) _
                (max_debt_to_cover_raw-Repayable d s collateral_asset debt_asset)
                (λ cover _. guarded-Missing (not (is_positive cover) || (c.collateral_raw == 0)) _ (
                  >>=-Outcome (Missing d s) _ (λ _. Unit {0}) (collateral_bought d debt c cover) _
                    (bought-Missing debt c cover)
                    (λ total _. sizes_for-Missing debt c cover total)))))
