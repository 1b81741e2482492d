-- ===== src/LiveExecutor/Tests.antt =====
-- The gate and the encoder on small inputs, with whole-number floats.
use flash_loan.Prelude.{
  ◌*◌, ◌≡◌, refl, true, false, none, some, Option, List, [], ◌∷◌, Text, codes, ℕ, length,
}
use flash_loan.Prelude.Int.{pos, ◌+ℤ◌, ◌-ℤ◌}
use flash_loan.Prelude.Results.{error, Outcome}
use flash_loan.Float.{whole_floats}
use flash_loan.LiveExecutor.{
  LiveConfig, LiveCandidate, GasEntry, gas_cap_reached, sum_usd, record_gas_spend, check_gate,
  LiveStep, pad_uint, join_padded, words_of, encode_steps,
}
use flash_loan.LiveExecutor.Gas.{Denies, Passes, check_gate-record}

abbrev config : LiveConfig whole_floats
config = record { min_net_usd = pos 2; max_notional_usd = pos 1000; daily_gas_cap_usd = pos 5 }

abbrev candidate : LiveCandidate whole_floats
candidate = record { expected_net_usd = some (pos 3); notional_usd = some (pos 500) }

-- One entry of more than a day ago, and one of today.
abbrev log : List (GasEntry whole_floats)
log = record { at = pos 1; usd = pos 9 } ∷ record { at = pos 90000; usd = pos 2 } ∷ []

-- With three more the cap of five is reached.
cap_run :
    check_gate whole_floats
      (pos 86400)
      false
      candidate
      config
      (pos 100000)
      (record_gas_spend whole_floats (λ x. x) true (pos 86400) (pos 3) (pos 100000) (some log)).0
    ≡ error gas_cap_reached
unfolding check_gate sum_usd ◌+ℤ◌ ◌-ℤ◌
cap_run = refl

check_gate-record_example :
    Outcome
      (Denies whole_floats
        (λ x. x)
        (pos 86400)
        (pos 100000)
        false
        candidate
        config
        (pos 2 +ℤ pos 3))
      (Passes whole_floats
        (λ x. x)
        (pos 86400)
        (pos 100000)
        false
        candidate
        config
        (pos 2 +ℤ pos 3))
      (check_gate whole_floats
        (pos 86400)
        false
        candidate
        config
        (pos 100000)
        (record_gas_spend whole_floats (λ x. x) true (pos 86400) (pos 3) (pos 100000) (some log)).0)
unfolding sum_usd ◌+ℤ◌ ◌-ℤ◌
check_gate-record_example =
    check_gate-record whole_floats (λ x. x) (pos 86400) (pos 100000) false candidate config true
      (pos 3) (some log) refl

abbrev live_step : LiveStep
live_step = record {
  kind = 1;
  target = codes "0xAB";
  token_in = codes "0x1";
  token_out = codes "0x2";
  account = codes "0x3";
  amount = 7;
  limit = 8;
  fee = 500;
  recipient_mode = 0;
}

abbrev text_length : Option Text → ℕ
text_length none = 0
text_length (some t) = length t

-- The offset, the length and nine words.
steps_run : text_length (encode_steps (live_step ∷ [])) ≡ 64 * 11
unfolding encode_steps join_padded words_of pad_uint
steps_run = refl
