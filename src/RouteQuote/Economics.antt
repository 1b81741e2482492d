-- ===== src/RouteQuote/Economics.antt =====
-- `evaluate_route_economics` of zero/route_quote.py, over decimals as an interface.
use flash_loan.Prelude.{ℕ, ◌≡◌, ◌∙◌, ap, ◌+◌, ◌*◌, ◌/◌, ◌≤◌, ◌<◌, Bool, arith}
use flash_loan.Prelude.Int
use flash_loan.Prelude.Int.{ℤ, pos, negsuc, ◌+ℤ◌, ◌-ℤ◌, ◌*ℤ◌, floor_div}
use flash_loan.Prelude.Results.{Result, ok, error}
use flash_loan.Decimal.{DecimalOps}
use flash_loan.RouteQuote.{RouteQuote}

-- Its two `ValueError`s.
pub data EconomicsError : Type 0 where
  negative_decimals negative_premium : EconomicsError

-- The premium in basis points, rounded to the nearest unit.
unfoldable pub flash_fee : ℤ → ℕ → ℤ
flash_fee amount_in_raw premium_bps =
    floor_div ((amount_in_raw *ℤ pos premium_bps) +ℤ pos 5000) 10000

module _ (d : DecimalOps) where
  open d use {decimals, of_int, pow10}
  open decimals use {Float, zero_f, flt, fsub, fmul, fdiv}

  pub record RouteEconomics : Type 0 where
    pub gross_raw : ℤ
    pub flash_fee_raw : ℤ
    pub gross_usd : Float
    pub flash_fee_usd : Float
    pub gas_usd : Float
    pub reserve_usd : Float
    pub expected_net_usd : Float

  abbrev pub positive : RouteEconomics → Bool
  positive e = flt zero_f e.expected_net_usd

  -- `(Decimal(raw) / scale) * base_price_usd`
  abbrev pub usd_of : ℕ → Float → ℤ → Float
  usd_of base_decimals base_price_usd raw =
      fmul (fdiv (of_int raw) (pow10 base_decimals)) base_price_usd

  unfoldable pub evaluate_route_economics :
      RouteQuote → ℤ → Float → ℤ → Float → Float → Result EconomicsError RouteEconomics
  unfolding flash_fee
  evaluate_route_economics quote (negsuc n) base_price_usd premium_bps gas_usd reserve_usd =
      error negative_decimals
  evaluate_route_economics quote (pos n) base_price_usd (negsuc m) gas_usd reserve_usd =
      error negative_premium
  evaluate_route_economics quote (pos n) base_price_usd (pos bps) gas_usd reserve_usd =
      let gross = quote.amount_out_raw -ℤ quote.amount_in_raw in
      let fee = flash_fee quote.amount_in_raw bps in
      let gross_usd = usd_of n base_price_usd gross in
      let fee_usd = usd_of n base_price_usd fee in
      ok (record {
        gross_raw = gross;
        flash_fee_raw = fee;
        gross_usd = gross_usd;
        flash_fee_usd = fee_usd;
        gas_usd = gas_usd;
        reserve_usd = reserve_usd;
        expected_net_usd = fsub (fsub (fsub gross_usd fee_usd) gas_usd) reserve_usd;
      })

mul_pos : (a b : ℕ) → pos a *ℤ pos b ≡ pos (a * b)
unfolding Int.◌*ℤ◌
mul_pos a b = ground arith

add_pos : (a b : ℕ) → pos a +ℤ pos b ≡ pos (a + b)
unfolding Int.◌+ℤ◌
add_pos a b = ground arith

-- The fee of an amount is the nearest to its share: half of a unit rounds up.
pub flash_fee-nearest :
    (a bps : ℕ)
    → (f : ℕ) × (flash_fee (pos a) bps ≡ pos f)
      × (10000 * f ≤ a * bps + 5000)
      × (a * bps + 5000 < 10000 * f + 10000)
unfolding flash_fee Int.floor_div
flash_fee-nearest a bps = (
  (a * bps + 5000) / 10000,
  ap (λ x. floor_div (x +ℤ pos 5000) 10000) (mul_pos a bps)
      ∙ ap (λ x. floor_div x 10000) (add_pos (a * bps) 5000),
  omega arith,
  omega arith,
)
