-- ===== src/Policy/Stops.antt =====
-- The three breakers of zero/execution_policy.py together.
use flash_loan.Prelude.{◌+◌, ◌≤◌, ◌≡◌, ◌⊎◌, inl, inr, true, List, []}
use flash_loan.Prelude.Int.{ℤ}
use flash_loan.Float.{FloatOps, IsFloatOrder, IsFloatSum}
use flash_loan.Policy.{ExecutionPolicy, Call}
use flash_loan.Policy.Safety.{granted}
use flash_loan.Policy.Breakers.{
  run, Every, KeepsKill, NoSuccess, failures, OnDay, Spent, killed_grants_nothing,
  revert_limit_grants_nothing, daily_loss_grants_nothing,
}

module _ (fl : FloatOps) (o : IsFloatOrder fl) (plus : IsFloatSum fl) (d : ℤ) where
  -- After the calls `cs` a breaker is tripped, and none of the calls `ds` resets it.
  abbrev pub Broken : List (Call fl) → List (Call fl) → ExecutionPolicy fl → Type 0
  Broken cs ds p =
      (Every fl (KeepsKill fl) ds × ((run fl cs p).killed ≡ true))
      ⊎ ((Every fl (NoSuccess fl) cs
            × Every fl (NoSuccess fl) ds
            × (p.max_consecutive_reverts ≤ p.consecutive_reverts + failures fl cs))
          ⊎ (Every fl (OnDay fl d) ds × Spent fl d (run fl cs p)))

  -- Nothing is granted by any sequence of calls after another one that has set the kill switch and
  -- while no call lifts it, or that has reported as many failures as the limit with no success
  -- before or since, or that has brought the modeled loss of a UTC day to its limit and on that day.
  pub breakers_grant_nothing :
      (cs ds : List (Call fl)) (p : ExecutionPolicy fl)
      → Broken cs ds p
      → granted fl ds (run fl cs p) ≡ []
  breakers_grant_nothing cs ds p (inl killed) =
      killed_grants_nothing fl ds (run fl cs p) killed.0 killed.1
  breakers_grant_nothing cs ds p (inr (inl failed)) =
      revert_limit_grants_nothing fl cs ds p failed.0 failed.1 failed.2
  breakers_grant_nothing cs ds p (inr (inr spent)) =
      daily_loss_grants_nothing fl o plus d ds (run fl cs p) spent.0 spent.1
