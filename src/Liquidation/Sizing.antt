-- ===== src/Liquidation/Sizing.antt =====
-- The collateral that zero/liquidation_quote.py expects for a debt is at most what the borrower has.
use flash_loan.Prelude.{
  ℕ, ◌+◌, ◌-◌, ◌*◌, ◌/◌, ◌≤◌, ◌≡◌, true, false, ◌||◌, not, Text, lower, text_eq, inl, inr, arith,
  if◌then◌else◌, Bool-cases, ◌==◌,
}
use native.Mathlib.Nat.{div-le_of_le-mul, mul-le-mul_left}
use flash_loan.Prelude.Int.{ℤ, pos, negsuc, ◌+ℤ◌, ◌-ℤ◌, ◌*ℤ◌, ◌≤ℤ◌, ltb_ℤ, max_ℤ, floor_div}
use flash_loan.Prelude.Results.{ok, ◌>>=◌, Outcome, >>=-Outcome, Outcome-imp}
use flash_loan.Prelude.Sort.{All, All-In, In}
use flash_loan.Decimal.{DecimalOps, IsDecimalSign, divide}
use flash_loan.RouteQuote.{is_positive}
use flash_loan.Liquidation.{
  division_error, ReservePosition, LiquidationState, position, max_debt_to_cover_raw,
}
use flash_loan.Liquidation.Factor.{
  Missing, position-Found, divide-Outcome, max_debt_to_cover_raw-Repayable,
}
use flash_loan.Liquidation.Quote.{
  ceil_div, liquidator_collateral, collateral_bought, debt_needed, sizes_for, collateral_for_debt,
}

pub not_positive : (n : ℕ) → is_positive (negsuc n) ≡ false
not_positive n = ground arith

pub pos_mul : (a b : ℕ) → pos a *ℤ pos b ≡ pos (a * b)
unfolding ◌*ℤ◌
pos_mul a b = ground arith

less_base : (t b : ℕ) → 10000 ≤ b → t * 10000 / b ≤ t
less_base t b h = div-le_of_le-mul b {m = t * 10000} {n = t} (omega (arith, mul-le-mul_left t h))

pub ceil_pos : (n : ℕ) → ceil_div (pos n) ≡ pos ((n + 9999) / 10000)
unfolding ceil_div floor_div ◌+ℤ◌ ◌-ℤ◌
ceil_pos n = ground arith

left_over : (t k : ℕ) → max_ℤ (pos 0) (pos t -ℤ pos k) ≤ℤ pos t
unfolding ◌-ℤ◌
left_over t k = ground arith

bonus_pos : (t k : ℕ) → k ≤ t → pos t -ℤ pos k ≡ pos (t - k)
unfolding ◌-ℤ◌
bonus_pos t k h = ground arith

-- What is left of the total after a fee on the bonus.
received_le :
    (t b f : ℕ)
    → 10000 ≤ b
    → max_ℤ (pos 0) (pos t -ℤ ceil_div ((pos t -ℤ floor_div (pos t *ℤ pos 10000) b) *ℤ pos f))
      ≤ℤ pos t
unfolding floor_div
received_le t b f h =
    rw
      (
        pos_mul t 10000,
        bonus_pos t (t * 10000 / b) (less_base t b h),
        pos_mul (t - t * 10000 / b) f,
        ceil_pos ((t - t * 10000 / b) * f),
      )
      (left_over t (((t - t * 10000 / b) * f + 9999) / 10000))

module _ (d : DecimalOps) (s : LiquidationState d) where
  open d use {decimals, of_int, pow10}
  open decimals use {Float, zero_f, flt, fmul, fdiv}

  -- The bonus is at least the whole in basis points, and the price is not below zero.
  abbrev pub IsReserve : ReservePosition d → Type 0
  IsReserve p = (10000 ≤ p.liquidation_bonus_bps) × (flt p.price_usd zero_f ≡ false)

  liquidator-le :
      (c : ReservePosition d) (t : ℕ)
      → IsReserve c
      → Outcome (Missing d s) (λ r. r ≤ℤ pos t) (liquidator_collateral d c (pos t))
  unfolding liquidator_collateral
  liquidator-le c t h = elim (Bool-cases (c.liquidation_bonus_bps == 0)) [
    | inl no_bonus ↦ rw no_bonus tt
    | inr bonus ↦
        rw bonus (received_le t c.liquidation_bonus_bps c.liquidation_protocol_fee_bps h.0)
  ]

  -- The second of the sizes is at most the collateral of the position.
  abbrev pub FitsIn : ReservePosition d → ℤ × ℤ → Type 0
  FitsIn c sizes = sizes.1 ≤ℤ pos c.collateral_raw

  pub debt_needed-Outcome :
      (debt c : ReservePosition d)
      → Outcome (Missing d s) (λ (n : ℤ). Unit {0}) (debt_needed d debt c)
  unfolding debt_needed
  debt_needed-Outcome debt c =
      >>=-Outcome (Missing d s) (λ _. Unit {0}) (λ _. Unit {0})
        (divide d division_error _ debt.price_usd) _ (divide-Outcome d s _ _)
        (λ needed _.
          >>=-Outcome (Missing d s) (λ _. Unit {0}) (λ _. Unit {0}) (divide d division_error _ _) _
            (divide-Outcome d s _ _) (λ scaled _. tt))

  sizes_for-FitsIn :
      (debt c : ReservePosition d) (cover total : ℤ)
      → IsReserve c
      → ltb_ℤ total (pos 0) ≡ false
      → Outcome (Missing d s) (FitsIn c) (sizes_for d debt c cover total)
  unfolding sizes_for
  sizes_for-FitsIn debt c cover (negsuc n) h up = absurd (ground arith)
  sizes_for-FitsIn debt c cover (pos t) h up =
      elim (Bool-cases (ltb_ℤ (pos c.collateral_raw) (pos t))) [
        | inl above ↦ rw above (
            >>=-Outcome (Missing d s) _ (FitsIn c) (debt_needed d debt c) _
              (debt_needed-Outcome debt c)
              (λ needed _.
                >>=-Outcome (Missing d s) _ (FitsIn c)
                  (liquidator_collateral d c (pos c.collateral_raw)) _
                  (liquidator-le c c.collateral_raw h) (λ received le. le)))
        | inr within ↦ rw within (
            >>=-Outcome (Missing d s) _ (FitsIn c) (liquidator_collateral d c (pos t)) _
              (liquidator-le c t h) (λ received le. ground (arith, le, within)))
      ]

  module _ (sign : IsDecimalSign d) where
    divide_sign :
        (a b : Float)
        → flt a zero_f ≡ false
        → flt b zero_f ≡ false
        → Outcome (Missing d s) (λ q. flt q zero_f ≡ false) (divide d division_error a b)
    divide_sign a b h k = elim (Bool-cases (flt zero_f b || flt b zero_f)) [
      | inl apart ↦ rw apart (sign.div_sign a b h k)
      | inr same ↦ rw same tt
    ]

    -- What a debt that is not below zero buys is not below zero.
    bought_sign :
        (debt c : ReservePosition d) (n : ℕ)
        → IsReserve debt
        → IsReserve c
        → Outcome
            (Missing d s)
            (λ total. ltb_ℤ total (pos 0) ≡ false)
            (collateral_bought d debt c (pos n))
    unfolding collateral_bought
    bought_sign debt c n h k =
        >>=-Outcome (Missing d s) (λ base. flt base zero_f ≡ false)
          (λ total. ltb_ℤ total (pos 0) ≡ false) (divide d division_error _ c.price_usd) _
          (divide_sign _ c.price_usd
            (sign.mul_sign _ debt.price_usd
              (sign.div_sign (of_int (pos n)) (pow10 debt.decimal_places) (sign.int_sign n)
                (sign.pow_sign debt.decimal_places))
              h.1)
            k.1)
          (λ base up. sign.floor_sign _ (
            sign.mul_sign _ (pow10 c.decimal_places)
              (sign.div_sign _ (of_int (pos 10000))
                (sign.mul_sign base (of_int (pos c.liquidation_bonus_bps)) up
                  (sign.int_sign c.liquidation_bonus_bps))
                (sign.int_sign 10000))
              (sign.pow_sign c.decimal_places)))

    -- A reserve in the asset, among the positions of the borrower.
    abbrev Holds : Text → ReservePosition d → Type 0
    Holds asset p =
        (text_eq (lower p.asset) (lower asset) ≡ true) × (In p s.positions × IsReserve p)

    position-Holds :
        (asset : Text)
        → All IsReserve s.positions
        → Outcome (Missing d s) (Holds asset) (position d s asset)
    position-Holds asset h =
        Outcome-imp (Missing d s) (Missing d s) _ (Holds asset) (position d s asset) (λ e m. m)
          (λ p k. (k.0, (k.1, All-In IsReserve s.positions h k.1))) (position-Found d s asset)

    -- A position of the borrower in the asset, of which the sizes take at most the collateral.
    abbrev pub TakesFrom : Text → ℤ × ℤ → Type 0
    TakesFrom asset sizes =
        (c : ReservePosition d) × In c s.positions
        × (text_eq (lower c.asset) (lower asset) ≡ true)
        × FitsIn c sizes

    bought-TakesFrom :
        (debt c : ReservePosition d) (asset : Text) (cover : ℤ)
        → IsReserve debt
        → Holds asset c
        → Outcome (Missing d s) (TakesFrom asset) (
            if not (is_positive cover) || (c.collateral_raw == 0)
            then ok (pos 0, pos 0)
            else collateral_bought d debt c cover >>= sizes_for d debt c cover)
    bought-TakesFrom debt c asset (negsuc n) hd hc =
        rw (not_positive n) (c, hc.1.0, hc.0, omega arith)
    bought-TakesFrom debt c asset (pos n) hd hc =
        elim (Bool-cases (not (is_positive (pos n)) || (c.collateral_raw == 0))) [
          | inl nothing ↦ rw nothing (c, hc.1.0, hc.0, omega arith)
          | inr something ↦ rw something (
              >>=-Outcome (Missing d s) _ (TakesFrom asset) (collateral_bought d debt c (pos n)) _
                (bought_sign debt c n hd hc.1.1)
                (λ total up.
                  Outcome-imp (Missing d s) (Missing d s) (FitsIn c) (TakesFrom asset)
                    (sizes_for d debt c (pos n) total) (λ e m. m)
                    (λ sizes fits. (c, hc.1.0, hc.0, fits))
                    (sizes_for-FitsIn debt c (pos n) total hc.1.1 up)))
        ]

    -- If no price is below zero and every bonus is at least the whole, the collateral that a
    -- liquidator is said to receive is at most the collateral of a position of the borrower in that asset. The only errors are an
    -- asset that is not held and a division by zero.
    pub collateral_for_debt-TakesFrom :
        (debt_asset collateral_asset : Text)
        → All IsReserve s.positions
        → Outcome
            (Missing d s)
            (TakesFrom collateral_asset)
            (collateral_for_debt d s debt_asset collateral_asset)
    unfolding collateral_for_debt
    collateral_for_debt-TakesFrom debt_asset collateral_asset h =
        >>=-Outcome (Missing d s) _ (TakesFrom collateral_asset) (position d s debt_asset) _
          (position-Holds debt_asset h)
          (λ debt hd.
            >>=-Outcome (Missing d s) _ (TakesFrom collateral_asset) (position d s collateral_asset)
              _ (position-Holds collateral_asset h)
              (λ c hc.
                >>=-Outcome (Missing d s) _ (TakesFrom collateral_asset)
                  (max_debt_to_cover_raw d s collateral_asset debt_asset) _
                  (max_debt_to_cover_raw-Repayable d s collateral_asset debt_asset)
                  (λ cover _. bought-TakesFrom debt c collateral_asset cover hd.1.1 hc)))
