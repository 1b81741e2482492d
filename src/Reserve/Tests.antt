-- ===== src/Reserve/Tests.antt =====
-- The reserve on whole-number decimals: runs, and each theorem at a concrete input.
use flash_loan.Prelude.{
  ℕ, ◌≡◌, refl, if◌then◌else◌, ◌==◌, true, false, some, none, List, [], ◌∷◌, length, arith,
}
use flash_loan.Prelude.Int.{ℤ, pos, ◌-ℤ◌, pos_part}
use flash_loan.Prelude.Results.{ok}
use flash_loan.Prelude.Succeeds.{Succeeds}
use flash_loan.Float.{whole_floats, whole_order}
use flash_loan.Reserve.{
  ReserveOps, AdaptiveReserve, ForkRow, ReserveEstimate, check_reserve, limited, estimate,
}
use flash_loan.Reserve.Bounds.{IsCeil, Within, estimate-Within}

-- A quantile of 0 or 1 in whole numbers.
abbrev whole_ceil : ℤ → ℕ → ℕ
whole_ceil q n = if pos_part q == 1 then n else 0

abbrev whole_ops : ReserveOps
whole_ops = record {
  decimals = whole_floats;
  one_d = pos 1;
  neg_d = λ x. pos 0 -ℤ x;
  ceil_times = whole_ceil;
}

whole_IsCeil : IsCeil whole_ops
whole_IsCeil = record { ceil_le = λ q n h. ground arith }

abbrev reserve : AdaptiveReserve whole_ops
reserve = record {
  lookback = pos 3;
  min_samples = pos 2;
  quantile = pos 1;
  floor = pos 1;
  cap = pos 25;
  bootstrap = pos 2;
}

-- An error of 4 against us, a failure that predicted 9, a success, and a row past the lookback.
abbrev rows : List (ForkRow whole_ops)
rows =
    record {
      predicted_net = some (pos 5);
      realized_net = some (pos 1);
      model_error = none;
      success = some true;
    }
    ∷ record {
      predicted_net = some (pos 9);
      realized_net = none;
      model_error = some (pos 0);
      success = some false;
    }
    ∷ record {
      predicted_net = some (pos 2);
      realized_net = some (pos 3);
      model_error = some (pos 1);
      success = some true;
    }
    ∷ record {
      predicted_net = some (pos 100);
      realized_net = none;
      model_error = none;
      success = none;
    }
    ∷ []

abbrev nine : ReserveEstimate whole_ops
nine = record { value_usd = pos 9; samples = 3 }

reserve_ok : check_reserve whole_ops reserve ≡ ok reserve
unfolding check_reserve
reserve_ok = refl

estimate-Within_example :
    Succeeds
      (λ e.
        Within whole_ops whole_order reserve e
        × (e.samples ≡ length (limited whole_ops reserve rows)))
      (estimate whole_ops reserve rows)
estimate-Within_example = estimate-Within whole_ops whole_order whole_IsCeil reserve rows reserve_ok
