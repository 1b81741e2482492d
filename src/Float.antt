-- ===== src/Float.antt =====
-- Python's `float` as an interface: the type and the operations that the program calls, with the
-- laws that a theorem needs as records of their own. A `Float` stands for any value but NaN where
-- a law record is assumed.
use flash_loan.Prelude.{◌+◌, ◌/◌, ◌≡◌, Bool, true, false, not, arith}
use flash_loan.Prelude.{inl, inr, Bool-cases, leb, if◌then◌else◌}
use flash_loan.Prelude.Int.{ℤ, pos, negsuc, ◌+ℤ◌, ◌-ℤ◌, ◌*ℤ◌, ltb_ℤ, pos_part, neg_part}

pub record FloatOps : Type 1 where
  pub Float : Type 0
  pub zero_f : Float
  -- `a < b` and `a <= b`
  pub flt : Float → Float → Bool
  pub fle : Float → Float → Bool
  pub fadd : Float → Float → Float
  pub fsub : Float → Float → Float
  pub fmul : Float → Float → Float
  pub fdiv : Float → Float → Float
  -- `int(now // 86_400)`
  pub utc_day : Float → ℤ

-- `max(a, b)`: the second only if it is greater.
abbrev pub fmax : (fl : FloatOps) → fl.Float → fl.Float → fl.Float
fmax fl a b = if fl.flt a b then b else a

-- The order of floats other than NaN.
pub record IsFloatOrder (fl : FloatOps) : Type 0 where
  pub le_not_lt : (a b : fl.Float) → fl.fle a b ≡ not (fl.flt b a)
  pub lt_le : (a b : fl.Float) → fl.flt a b ≡ true → fl.fle a b ≡ true
  pub le_trans_f : (a b c : fl.Float) → fl.fle a b ≡ true → fl.fle b c ≡ true → fl.fle a c ≡ true

-- Adding what is not below zero does not go down (rounding is monotone).
pub record IsFloatSum (fl : FloatOps) : Type 0 where
  pub le_add :
      (a b c : fl.Float)
      → fl.fle a b ≡ true
      → fl.fle fl.zero_f c ≡ true
      → fl.fle a (fl.fadd b c) ≡ true

module _ {fl : FloatOps} (o : IsFloatOrder fl) (a b : fl.Float) where
  pub le_of_not_lt : fl.flt b a ≡ false → fl.fle a b ≡ true
  le_of_not_lt h = ground (arith, o.le_not_lt a b)

  pub not_lt_of_le : fl.fle a b ≡ true → fl.flt b a ≡ false
  not_lt_of_le h = ground (arith, o.le_not_lt a b)

  pub not_lt_of_lt : fl.flt a b ≡ true → fl.flt b a ≡ false
  not_lt_of_lt h = ground (arith, o.le_not_lt a b, o.lt_le a b)

-- `max(0.0, x)` is not below zero.
pub zero-le-fmax :
    (fl : FloatOps) (o : IsFloatOrder fl) (x : fl.Float)
    → fl.fle fl.zero_f (fmax fl fl.zero_f x) ≡ true
zero-le-fmax fl o x = elim (Bool-cases (fl.flt fl.zero_f x)) [
  | inl above ↦ rw above (o.lt_le fl.zero_f x above)
  | inr below ↦ ground (arith, o.le_not_lt fl.zero_f fl.zero_f, o.lt_le fl.zero_f fl.zero_f)
]

-- Whole numbers as floats: an instance in which the laws hold and the model runs.
abbrev pub leb_ℤ : ℤ → ℤ → Bool
leb_ℤ a b = leb (pos_part a + neg_part b) (pos_part b + neg_part a)

abbrev day_of : ℤ → ℤ
day_of (pos n) = pos (n / 86400)
day_of (negsuc n) = negsuc (n / 86400)

abbrev whole_div : ℤ → ℤ → ℤ
whole_div a b = pos (pos_part a / pos_part b)

abbrev pub whole_floats : FloatOps
whole_floats = record {
  Float = ℤ;
  zero_f = pos 0;
  flt = ltb_ℤ;
  fle = leb_ℤ;
  fadd = ◌+ℤ◌;
  fsub = ◌-ℤ◌;
  fmul = ◌*ℤ◌;
  fdiv = whole_div;
  utc_day = day_of;
}

pub whole_le_not_lt : (a b : ℤ) → leb_ℤ a b ≡ not (ltb_ℤ b a)
whole_le_not_lt a b = ground arith

pub whole_lt_le : (a b : ℤ) → ltb_ℤ a b ≡ true → leb_ℤ a b ≡ true
whole_lt_le a b h = ground arith

pub whole_le_trans : (a b c : ℤ) → leb_ℤ a b ≡ true → leb_ℤ b c ≡ true → leb_ℤ a c ≡ true
whole_le_trans a b c h k = ground arith

pub whole_le_add : (a b c : ℤ) → leb_ℤ a b ≡ true → leb_ℤ (pos 0) c ≡ true → leb_ℤ a (b +ℤ c) ≡ true
unfolding ◌+ℤ◌
whole_le_add a b c h k = ground arith

pub whole_order : IsFloatOrder whole_floats
whole_order = record {
  le_not_lt = whole_le_not_lt;
  lt_le = whole_lt_le;
  le_trans_f = whole_le_trans;
}

pub whole_sum : IsFloatSum whole_floats
whole_sum = record { le_add = whole_le_add }
