-- ===== src/Decimal.antt =====
-- Python's `Decimal` as an interface: the order and the arithmetic of `FloatOps` and the conversions
-- that the program uses. A `Decimal` stands for a finite one.
use flash_loan.Prelude.{ℕ, suc, ◌*◌, ◌/◌, ◌^◌, ◌≡◌, false, ◌||◌, if◌then◌else◌, arith}
use flash_loan.Prelude.Int.{ℤ, pos, negsuc, ◌+ℤ◌, ◌-ℤ◌, ◌*ℤ◌, floor_div, ltb_ℤ}
use flash_loan.Prelude.Results.{Result, ok, error}
use flash_loan.Float.{FloatOps, IsFloatOrder, whole_floats, whole_order}

pub record DecimalOps : Type 1 where
  pub decimals : FloatOps
  -- `Decimal(n)`, and the literal of a number of hundredths
  pub of_int : ℤ → decimals.Float
  pub of_cents : ℤ → decimals.Float
  -- `Decimal(10) ** n`
  pub pow10 : ℕ → decimals.Float
  -- `int(x.to_integral_value(rounding=ROUND_FLOOR))`, and `ROUND_CEILING`
  pub floor_d : decimals.Float → ℤ
  pub ceil_d : decimals.Float → ℤ

-- Sums aside, the operations keep numbers that are not below zero there.
pub record IsDecimalSign (d : DecimalOps) : Type 0 where
  pub mul_sign :
      (a b : d.decimals.Float)
      → d.decimals.flt a d.decimals.zero_f ≡ false
      → d.decimals.flt b d.decimals.zero_f ≡ false
      → d.decimals.flt (d.decimals.fmul a b) d.decimals.zero_f ≡ false
  pub div_sign :
      (a b : d.decimals.Float)
      → d.decimals.flt a d.decimals.zero_f ≡ false
      → d.decimals.flt b d.decimals.zero_f ≡ false
      → d.decimals.flt (d.decimals.fdiv a b) d.decimals.zero_f ≡ false
  pub int_sign : (n : ℕ) → d.decimals.flt (d.of_int (pos n)) d.decimals.zero_f ≡ false
  pub pow_sign : (n : ℕ) → d.decimals.flt (d.pow10 n) d.decimals.zero_f ≡ false
  pub floor_sign :
      (a : d.decimals.Float)
      → d.decimals.flt a d.decimals.zero_f ≡ false
      → ltb_ℤ (d.floor_d a) (pos 0) ≡ false

-- `a / b`, which raises for a divisor of zero.
abbrev pub divide :
    {E : Type 0} (d : DecimalOps)
    → E
    → d.decimals.Float
    → d.decimals.Float
    → Result E d.decimals.Float
divide d e a b =
    if d.decimals.flt d.decimals.zero_f b || d.decimals.flt b d.decimals.zero_f
    then ok (d.decimals.fdiv a b)
    else error e

-- Numbers of thousandths: an instance in which the model runs.
abbrev milli_div : ℤ → ℤ → ℤ
milli_div (pos a) (pos b) = pos (a * 1000 / b)
milli_div (negsuc a) (pos b) = floor_div (negsuc a *ℤ pos 1000) b
milli_div a (negsuc b) = floor_div (pos 0 -ℤ (a *ℤ pos 1000)) (suc b)

abbrev milli_mul : ℤ → ℤ → ℤ
milli_mul (pos a) (pos b) = pos (a * b / 1000)
milli_mul a b = floor_div (a *ℤ b) 1000

abbrev pub milli : DecimalOps
milli = record {
  decimals = record whole_floats { fmul = milli_mul; fdiv = milli_div };
  of_int = λ n. n *ℤ pos 1000;
  of_cents = λ n. n *ℤ pos 10;
  pow10 = λ n. pos (10 ^ n * 1000);
  floor_d = λ x. floor_div x 1000;
  ceil_d = λ x. floor_div (x +ℤ pos 999) 1000;
}

pub milli_order : IsFloatOrder (milli.decimals)
milli_order = record {
  le_not_lt = whole_order.le_not_lt;
  lt_le = whole_order.lt_le;
  le_trans_f = whole_order.le_trans_f;
}

milli_mul_sign :
    (a b : ℤ)
    → ltb_ℤ a (pos 0) ≡ false
    → ltb_ℤ b (pos 0) ≡ false
    → ltb_ℤ (milli_mul a b) (pos 0) ≡ false
milli_mul_sign (pos a) (pos b) h k = ground arith
milli_mul_sign (negsuc a) b h k = ground arith
milli_mul_sign (pos a) (negsuc b) h k = ground arith

milli_div_sign :
    (a b : ℤ)
    → ltb_ℤ a (pos 0) ≡ false
    → ltb_ℤ b (pos 0) ≡ false
    → ltb_ℤ (milli_div a b) (pos 0) ≡ false
milli_div_sign (pos a) (pos b) h k = ground arith
milli_div_sign (negsuc a) b h k = ground arith
milli_div_sign (pos a) (negsuc b) h k = ground arith

milli_int_sign : (n : ℕ) → ltb_ℤ (pos n *ℤ pos 1000) (pos 0) ≡ false
unfolding ◌*ℤ◌
milli_int_sign n = ground arith

milli_floor_sign : (a : ℤ) → ltb_ℤ a (pos 0) ≡ false → ltb_ℤ (floor_div a 1000) (pos 0) ≡ false
unfolding floor_div
milli_floor_sign (pos a) h = ground arith
milli_floor_sign (negsuc a) h = ground arith

pub milli_sign : IsDecimalSign milli
milli_sign = record {
  mul_sign = milli_mul_sign;
  div_sign = milli_div_sign;
  int_sign = milli_int_sign;
  pow_sign = λ n. ground arith;
  floor_sign = milli_floor_sign;
}
