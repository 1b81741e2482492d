-- ===== src/Policy/Tests.antt =====
-- The policy on whole-number floats: runs, and each theorem at a concrete input.
use flash_loan.Prelude.{
  inl, inr, ◌&&◌, ◌≡◌, refl, true, false, List, [], ◌∷◌, none, arith, codes, Eq_key,
}
use flash_loan.Prelude.Dict.{contains, Distinct}
use flash_loan.Prelude.Int.{pos, ◌+ℤ◌}
use flash_loan.Float.{whole_floats, whole_order, whole_sum}
use flash_loan.Policy.{
  ExecutionRequest, ExecutionPolicy, Call, authorize_call, outcome_call, init, roll_to, roll_day,
  set_kill, record_outcome, check, authorize, step, grant,
}
use flash_loan.Policy.Safety.{Verdict, authorize-Verdict, granted, granted-Distinct}
use flash_loan.Policy.Stops.{breakers_grant_nothing}
use flash_loan.Policy.Breakers.{
  run, killed_grants_nothing, revert_limit_grants_nothing, daily_loss_grants_nothing,
}

abbrev request : ExecutionRequest whole_floats
request = record {
  block = 100;
  candidate_id = codes "0xab";
  loan_notional_usd = pos 500;
  gas_usd = pos 1;
  expected_net_usd = pos 3;
  deadline_ts = pos 90000;
}

policy : ExecutionPolicy whole_floats
policy = init whole_floats (pos 2) (pos 5) (pos 1000) (pos 2) (pos 10)

-- A request is granted once, refused as a duplicate, and refused when two reverts have come in.
abbrev calls : List (Call whole_floats)
calls =
    authorize_call request 101 (pos 80000)
    ∷ authorize_call request 101 (pos 80000)
    ∷ outcome_call false (pos 4) (pos 80000)
    ∷ []

granted_run : granted whole_floats calls policy ≡ (100, codes "0xab") ∷ []
unfolding policy init granted grant step authorize check roll_day roll_to contains record_outcome
granted_run = refl

authorize-Verdict_example :
    Verdict whole_floats request 101
      (pos 80000)
      (roll_day whole_floats (pos 80000) policy)
      (authorize whole_floats request 101 (pos 80000) policy)
authorize-Verdict_example = authorize-Verdict whole_floats request 101 (pos 80000) policy

granted-Distinct_example :
    Distinct (granted whole_floats calls policy)
    × ((contains policy.seen (100, codes "0xab")
          && contains (granted whole_floats calls policy) (100, codes "0xab"))
        ≡ false)
granted-Distinct_example = granted-Distinct whole_floats calls policy (100, codes "0xab")

killed_stops : granted whole_floats calls (set_kill whole_floats true none policy) ≡ []
unfolding set_kill
killed_stops =
    killed_grants_nothing whole_floats calls (set_kill whole_floats true none policy)
      (tt, (tt, (tt, tt))) refl

abbrev failing : List (Call whole_floats)
failing = outcome_call false (pos 1) (pos 80000) ∷ outcome_call false (pos 1) (pos 80000) ∷ []

failures_stop : granted whole_floats calls (run whole_floats failing policy) ≡ []
unfolding policy init
failures_stop =
    revert_limit_grants_nothing whole_floats failing calls policy (refl, (refl, tt))
      (tt, (tt, (refl, tt))) (omega arith)

abbrev one_loss : List (Call whole_floats)
one_loss = outcome_call false (pos 12) (pos 80000) ∷ []

loss_stops : granted whole_floats calls (run whole_floats one_loss policy) ≡ []
unfolding policy init run step record_outcome roll_day roll_to ◌+ℤ◌
loss_stops =
    daily_loss_grants_nothing whole_floats whole_order whole_sum (pos 0) calls
      (run whole_floats one_loss policy) (refl, (refl, (refl, tt))) (refl, refl)

breakers_grant_nothing_example : granted whole_floats calls (run whole_floats failing policy) ≡ []
unfolding policy init
breakers_grant_nothing_example =
    breakers_grant_nothing whole_floats whole_order whole_sum (pos 0) failing calls policy
      (inr (inl ((refl, (refl, tt)), (tt, (tt, (refl, tt))), omega arith)))
