-- ===== src/Liquidation/Promise.antt =====
-- What a candidate of zero/liquidation_quote.py promises.
use flash_loan.Prelude.{
  ℕ, ◌+◌, ◌*◌, ◌/◌, ◌≤◌, ◌<◌, ◌≡◌, ◌∙◌, ap, true, false, ◌&&◌, Option, none, some, Text, lower,
  arith,
}
use flash_loan.Prelude.Int.{ℤ, pos, negsuc, ◌+ℤ◌, ◌-ℤ◌, ◌*ℤ◌, eqb_ℤ}
use flash_loan.Prelude.Results.{ok}
use flash_loan.Decimal.{DecimalOps}
use flash_loan.RouteQuote.{Registry, is_positive}
use flash_loan.Liquidation.{ReservePosition, LiquidationState, liquidatable}
use flash_loan.Liquidation.Factor.{HeldIn}
use flash_loan.Liquidation.Sizing.{pos_mul, ceil_pos, not_positive}
use flash_loan.Liquidation.Quote.{
  UnwindRoute, LiquidationCandidate, ceil_div, starts_in, ends_in, all_ready, unwind,
  collateral_for_debt,
}

-- The share of an amount in basis points, rounded up.
abbrev pub IsShareUp : ℤ → ℕ → ℤ → Type 0
IsShareUp (pos n) bps fee =
    (f : ℕ) × (fee ≡ pos f) × (n * bps ≤ 10000 * f) × (10000 * f < n * bps + 10000)
IsShareUp (negsuc n) bps fee = ⊥

pub ceil_div-IsShareUp :
    (amount : ℤ) (bps : ℕ)
    → is_positive amount ≡ true
    → IsShareUp amount bps (ceil_div (amount *ℤ pos bps))
ceil_div-IsShareUp (negsuc n) bps h = absurd (cc (h, not_positive n))
ceil_div-IsShareUp (pos n) bps h = (
  (n * bps + 9999) / 10000,
  ap ceil_div (pos_mul n bps) ∙ ceil_pos (n * bps),
  omega arith,
  omega arith,
)

module _ (d : DecimalOps) (s : LiquidationState d) (debt_asset collateral_asset : Text)
    (route : UnwindRoute) (block : ℤ) (registry : Registry) where
  open d use {decimals, of_int, pow10, ceil_d}
  open decimals use {Float, zero_f, fle, fadd, fsub, fmul, fdiv}

  -- The conditions under which there is a quote at all.
  abbrev pub Ready : Type 0
  Ready =
      (eqb_ℤ block s.block ≡ true)
      × (liquidatable d s ≡ true)
      × (starts_in collateral_asset route.legs ≡ true)
      × (ends_in debt_asset route.legs ≡ true)
      × (all_ready registry route.legs ≡ true)

  -- The candidate is of this block, borrower, pair and route, and may be carried out.
  abbrev pub Names : LiquidationCandidate d → Type 0
  Names c =
      (c.block ≡ block)
      × (c.borrower ≡ s.borrower)
      × (c.debt_asset ≡ lower debt_asset)
      × (c.collateral_asset ≡ lower collateral_asset)
      × (c.route ≡ route)
      × (c.executable ≡ true)

  -- Its sizes are those of the pair, both positive, and the legs give the amount out for the
  -- collateral.
  abbrev pub Sizes : LiquidationCandidate d → Type 0
  Sizes c =
      (collateral_for_debt d s debt_asset collateral_asset
        ≡ ok (c.debt_to_cover_raw, c.collateral_received_raw))
      × (is_positive c.debt_to_cover_raw ≡ true)
      × (is_positive c.collateral_received_raw ≡ true)
      × (unwind registry block route.legs c.collateral_received_raw ≡ ok (some c.unwind_out_raw))

  -- What a raw amount of a position is worth.
  abbrev pub worth : ReservePosition d → ℤ → Float
  worth p raw = fmul (fdiv (of_int raw) (pow10 p.decimal_places)) p.price_usd

  -- In the prices of the debt that the borrower holds: the gross profit is the worth of what the legs
  -- give above the debt, the fee is the premium on the debt rounded up, and the least profit covers
  -- the gas and the reserve.
  abbrev pub Priced : ℕ → Float → Float → LiquidationCandidate d → Type 0
  Priced premium gas_usd reserve_usd c =
      (debt : ReservePosition d) × HeldIn d s debt_asset s.positions debt
      × IsShareUp c.debt_to_cover_raw premium c.flash_fee_raw
      × (c.gross_usd ≡ worth debt (c.unwind_out_raw -ℤ c.debt_to_cover_raw))
      × (c.flash_fee_usd ≡ worth debt c.flash_fee_raw)
      × (c.gas_usd ≡ gas_usd)
      × (c.reserve_usd ≡ reserve_usd)
      × (c.min_profit_raw
          ≡ ceil_d
              (fmul (fdiv (fadd gas_usd reserve_usd) debt.price_usd) (pow10 debt.decimal_places))
            +ℤ pos 1)

  -- What is left after the fee, the gas and the reserve, above zero.
  abbrev pub Nets : LiquidationCandidate d → Type 0
  Nets c =
      (fle c.expected_net_usd zero_f ≡ false)
      × (c.expected_net_usd
          ≡ fsub (fsub (fsub c.gross_usd c.flash_fee_usd) c.gas_usd) c.reserve_usd)

  -- Why there is no candidate: the account is healthy, a venue of the route is not ready, a size is
  -- not positive, a leg gives nothing, or nothing is left after the fee, the gas and the reserve.
  pub data Declines (premium : ℕ) (gas_usd reserve_usd : Float) : Type 0 where
    healthy : liquidatable d s ≡ false → Declines premium gas_usd reserve_usd
    not_ready : all_ready registry route.legs ≡ false → Declines premium gas_usd reserve_usd
    no_size :
        (cover received : ℤ)
        → collateral_for_debt d s debt_asset collateral_asset ≡ ok (cover, received)
        → (is_positive cover && is_positive received) ≡ false
        → Declines premium gas_usd reserve_usd
    no_output :
        (cover received : ℤ)
        → collateral_for_debt d s debt_asset collateral_asset ≡ ok (cover, received)
        → unwind registry block route.legs received ≡ ok none
        → Declines premium gas_usd reserve_usd
    no_net :
        (cover received amount fee : ℤ) (debt : ReservePosition d)
        → collateral_for_debt d s debt_asset collateral_asset ≡ ok (cover, received)
        → unwind registry block route.legs received ≡ ok (some amount)
        → HeldIn d s debt_asset s.positions debt
        → IsShareUp cover premium fee
        → fle
            (fsub (fsub (fsub (worth debt (amount -ℤ cover)) (worth debt fee)) gas_usd) reserve_usd)
            zero_f
          ≡ true
        → Declines premium gas_usd reserve_usd

  -- What a candidate promises, and why there is none.
  abbrev pub Accepts : ℕ → Float → Float → Option (LiquidationCandidate d) → Type 0
  Accepts premium gas_usd reserve_usd none = Declines premium gas_usd reserve_usd
  Accepts premium gas_usd reserve_usd (some c) =
      Ready × Names c × Sizes c × Priced premium gas_usd reserve_usd c × Nets c
