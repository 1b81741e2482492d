-- ===== src/Liquidation/Factor.antt =====
-- How much of a debt zero/liquidations.py lets a liquidator repay.
use flash_loan.Prelude.{
  ℕ, ◌≡◌, refl, true, false, ◌||◌, List, [], ◌∷◌, Text, lower, text_eq, inl, inr, arith, Bool-cases,
  ◌==◌, ◌⊎◌,
}
use flash_loan.Prelude.Int.{ℤ, pos, ◌≤ℤ◌, min_ℤ}
use flash_loan.Prelude.Results.{Outcome, >>=-Outcome, Outcome-imp}
use flash_loan.Prelude.Sort.{In}
use flash_loan.Decimal.{DecimalOps, divide}
use flash_loan.Liquidation.{
  LiquidationError, no_position, division_error, block_mismatch, wrong_start, wrong_end,
  quote_failed, ReservePosition, LiquidationState, liquidatable, find_position, position,
  close_factor, close_factor_bps, debt_for_factor, max_debt_to_cover_raw,
}

module _ (d : DecimalOps) (s : LiquidationState d) where
  open d use {decimals}
  open decimals use {Float}

  -- No row of the positions has the asset.
  abbrev pub NotHeld : Text → List (ReservePosition d) → Type 0
  NotHeld asset [] = Unit
  NotHeld asset (p ∷ ps) = (text_eq (lower p.asset) (lower asset) ≡ false) × NotHeld asset ps

  -- A missing position is reported only of an asset that is not held.
  abbrev pub Missing : LiquidationError → Type 0
  Missing (no_position asset) = NotHeld asset s.positions
  Missing division_error = Unit
  Missing block_mismatch = ⊥
  Missing wrong_start = ⊥
  Missing wrong_end = ⊥
  Missing (quote_failed e) = ⊥

  -- A position in the asset, among the given ones.
  abbrev pub HeldIn : Text → List (ReservePosition d) → ReservePosition d → Type 0
  HeldIn asset ps p = (text_eq (lower p.asset) (lower asset) ≡ true) × In p ps

  find-Found :
      (asset : Text) (ps : List (ReservePosition d)) (Q : LiquidationError → Type 0)
      → (NotHeld asset ps → Q (no_position asset))
      → Outcome Q (HeldIn asset ps) (find_position d asset (lower asset) ps)
  unfolding find_position
  find-Found asset [] Q h = h tt
  find-Found asset (p ∷ ps) Q h = elim (Bool-cases (text_eq (lower p.asset) (lower asset))) [
    | inl same ↦ rw same (same, inl refl)
    | inr other ↦ rw other (
        Outcome-imp Q Q (HeldIn asset ps) (HeldIn asset (p ∷ ps))
          (find_position d asset (lower asset) ps) (λ e m. m) (λ q k. (k.0, inr k.1))
          (find-Found asset ps Q (λ k. h (other, k))))
  ]

  pub position-Found :
      (asset : Text) → Outcome Missing (HeldIn asset s.positions) (position d s asset)
  unfolding position
  position-Found asset = find-Found asset s.positions Missing (λ h. h)

  pub divide-Outcome :
      (a b : Float) → Outcome Missing (λ (q : Float). Unit {0}) (divide d division_error a b)
  divide-Outcome a b =
      elim (Bool-cases (decimals.flt decimals.zero_f b || decimals.flt b decimals.zero_f)) [
        | inl apart ↦ rw apart tt
        | inr zero_d ↦ rw zero_d tt
      ]

  pub divide_eq :
      (a b : Float) → Outcome Missing (λ q. q ≡ decimals.fdiv a b) (divide d division_error a b)
  divide_eq a b =
      elim (Bool-cases (decimals.flt decimals.zero_f b || decimals.flt b decimals.zero_f)) [
        | inl apart ↦ rw apart refl
        | inr zero_d ↦ rw zero_d tt
      ]

  -- Nothing of a healthy account.
  abbrev pub HealthyNone : ℤ → Type 0
  HealthyNone cover = (liquidatable d s ≡ true) ⊎ (cover ≡ pos 0)

  -- What may be repaid: at most the debt of a position of the borrower in the asset, and nothing of a healthy
  -- account.
  abbrev pub Repayable : Text → ℤ → Type 0
  Repayable asset cover =
      (debt : ReservePosition d) × HeldIn asset s.positions debt
      × (cover ≤ℤ pos debt.debt_raw)
      × HealthyNone cover

  abbrev HealthyZero : ℕ → Type 0
  HealthyZero factor = (liquidatable d s ≡ true) ⊎ (factor ≡ 0)

  close_factor-HealthyZero :
      (collateral debt : ReservePosition d) → HealthyZero (close_factor d s collateral debt)
  close_factor-HealthyZero collateral debt = elim (Bool-cases (liquidatable d s)) [
    | inl ill ↦ inl ill
    | inr healthy ↦ inr (rw healthy refl)
  ]

  close_factor_bps-HealthyZero :
      (collateral_asset debt_asset : Text)
      → Outcome Missing HealthyZero (close_factor_bps d s collateral_asset debt_asset)
  unfolding close_factor_bps
  close_factor_bps-HealthyZero collateral_asset debt_asset =
      >>=-Outcome Missing _ HealthyZero (position d s collateral_asset) _
        (position-Found collateral_asset)
        (λ collateral _.
          >>=-Outcome Missing _ HealthyZero (position d s debt_asset) _ (position-Found debt_asset)
            (λ debt _. close_factor-HealthyZero collateral debt))

  min-le : (a b : ℤ) → min_ℤ a b ≤ℤ a
  min-le a b = ground arith

  le-self : (n : ℕ) → pos n ≤ℤ pos n
  le-self n = omega arith

  debt_for_factor-Bounded :
      (debt : ReservePosition d) (factor : ℕ)
      → HealthyZero factor
      → Outcome Missing
          (λ cover. (cover ≤ℤ pos debt.debt_raw) × HealthyNone cover)
          (debt_for_factor d s debt factor)
  debt_for_factor-Bounded debt factor h = elim (Bool-cases (factor == 0)) [
    | inl none_of ↦ rw none_of (omega arith, inr refl)
    | inr some_of ↦ elim h [
      | inr nothing ↦ absurd (ground arith)
      | inl ill ↦ elim (Bool-cases (factor == 10000)) [
        | inl all_of ↦ rw (some_of, all_of) (le-self debt.debt_raw, inl ill)
        | inr part ↦
            rw (some_of, part)
              (>>=-Outcome Missing _ _ (divide d division_error _ debt.price_usd) _
                (divide-Outcome _ _)
                (λ tokens _. (
                  min-le (pos debt.debt_raw)
                      (d.floor_d (decimals.fmul tokens (d.pow10 debt.decimal_places))),
                  inl ill,
                )))
      ]
    ]
  ]

  -- If the debt to cover is given, it is at most the debt of the position in the debt asset, and
  -- nothing if the account is not liquidatable. The only errors are an asset that is not held and a
  -- division by a price of zero.
  pub max_debt_to_cover_raw-Repayable :
      (collateral_asset debt_asset : Text)
      → Outcome Missing
          (Repayable debt_asset)
          (max_debt_to_cover_raw d s collateral_asset debt_asset)
  unfolding max_debt_to_cover_raw
  max_debt_to_cover_raw-Repayable collateral_asset debt_asset =
      >>=-Outcome Missing _ (Repayable debt_asset) (position d s debt_asset) _
        (position-Found debt_asset)
        (λ debt same.
          >>=-Outcome Missing HealthyZero (Repayable debt_asset)
            (close_factor_bps d s collateral_asset debt_asset) _
            (close_factor_bps-HealthyZero collateral_asset debt_asset)
            (λ factor h.
              Outcome-imp Missing Missing _ (Repayable debt_asset) (debt_for_factor d s debt factor)
                (λ e m. m) (λ cover b. (debt, same, b.0, b.1))
                (debt_for_factor-Bounded debt factor h)))
