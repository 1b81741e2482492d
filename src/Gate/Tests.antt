-- ===== src/Gate/Tests.antt =====
-- The gate on whole numbers.
use flash_loan.Prelude.{◌≡◌, refl, none, some, ◌⊎◌, ◌≢◌}
use flash_loan.Prelude.Int
use flash_loan.Prelude.Int.{pos}
use flash_loan.Float.{whole_floats, whole_order}
use flash_loan.Gate.{Gate, pass, below_min_profit, stale, min_profit, evaluate}
use flash_loan.Gate.Thresholds.{IsPassable, evaluate-IsPassable}

abbrev gate : Gate whole_floats
gate = record { floor_usd = pos 2; gas_multiple = pos 4; min_roi = pos 0; max_age_ms = pos 500 }

pass_run :
    evaluate whole_floats gate (pos 9) (pos 10) (pos 2) (pos 1000) (some (pos 100)) (pos 600)
    ≡ (pass, pos 8)
unfolding evaluate min_profit Int.◌-ℤ◌ Int.◌*ℤ◌
pass_run = refl

low_run :
    evaluate whole_floats gate (pos 7) (pos 10) (pos 2) (pos 1000) none (pos 0)
    ≡ (below_min_profit, pos 8)
unfolding evaluate min_profit Int.◌*ℤ◌
low_run = refl

stale_run :
    evaluate whole_floats gate (pos 9) (pos 10) (pos 2) (pos 1000) (some (pos 100)) (pos 601)
    ≡ (stale, pos 8)
unfolding evaluate min_profit Int.◌-ℤ◌ Int.◌*ℤ◌
stale_run = refl

evaluate-IsPassable_example :
    (((evaluate whole_floats gate (pos 9) (pos 10) (pos 2) (pos 1000) (some (pos 100)) (pos 600)).0
        ≡ pass)
      × IsPassable whole_order gate (pos 9) (pos 10) (pos 2) (pos 1000) (some (pos 100)) (pos 600))
    ⊎ (((evaluate whole_floats gate
            (pos 9)
            (pos 10)
            (pos 2)
            (pos 1000)
            (some (pos 100))
            (pos 600)).0
          ≢ pass)
        × (¬ IsPassable whole_order gate
            (pos 9)
            (pos 10)
            (pos 2)
            (pos 1000)
            (some (pos 100))
            (pos 600)))
evaluate-IsPassable_example =
    evaluate-IsPassable whole_order gate (pos 9) (pos 10) (pos 2) (pos 1000) (some (pos 100))
      (pos 600)
