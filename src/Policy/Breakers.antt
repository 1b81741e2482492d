-- ===== src/Policy/Breakers.antt =====
-- The breakers of the policy: while one is tripped, no sequence of calls is granted anything.
use flash_loan.Prelude.{
  ℕ, ◌+◌, ◌≤◌, ◌≡◌, refl, true, false, List, [], ◌∷◌, arith, inl, inr, some, ◌∙◌,
}
use flash_loan.Prelude.Int.{ℤ}
use flash_loan.Float.{FloatOps, fmax, IsFloatOrder, IsFloatSum, zero-le-fmax}
use flash_loan.Policy.{
  ExecutionRequest, ExecutionPolicy, Call, authorize_call, outcome_call, kill_call, roll_to,
  roll_day, set_kill, record_outcome, authorize, step, grant, day_eq,
}
use flash_loan.Policy.Safety.{Within, authorize-Verdict, granted}

module _ (fl : FloatOps) where
  open fl use {Float, zero_f, flt, fle, utc_day}

  -- The state after a sequence of calls.
  unfoldable pub run : List (Call fl) → ExecutionPolicy fl → ExecutionPolicy fl
  run [] p = p
  run (c ∷ cs) p = run cs (step fl c p)

  -- `P` holds of every call.
  abbrev pub Every : (Call fl → Type 0) → List (Call fl) → Type 0
  Every P [] = Unit
  Every P (c ∷ cs) = P c × Every P cs

  -- The call does not lift the kill switch; it reports no success.
  abbrev pub KeepsKill : Call fl → Type 0
  KeepsKill (kill_call killed why) = killed ≡ true
  KeepsKill _ = Unit

  abbrev pub NoSuccess : Call fl → Type 0
  NoSuccess (outcome_call success loss now) = success ≡ false
  NoSuccess _ = Unit

  roll_day-killed : (now : Float) (p : ExecutionPolicy fl) → (roll_day fl now p).killed ≡ p.killed
  unfolding roll_day roll_to
  roll_day-killed now p = ground arith

  roll_day-reverts :
      (now : Float) (p : ExecutionPolicy fl)
      → ((roll_day fl now p).consecutive_reverts ≡ p.consecutive_reverts)
        × ((roll_day fl now p).max_consecutive_reverts ≡ p.max_consecutive_reverts)
  unfolding roll_day roll_to
  roll_day-reverts now p = ground arith

  -- A policy in which `P` holds, where `P` rules out every grant and every call keeps it, grants
  -- nothing.
  module _ (P : ExecutionPolicy fl → Type 0) (Q : Call fl → Type 0)
      (keep : (c : Call fl) (p : ExecutionPolicy fl) → Q c → P p → P (step fl c p))
      (stop : (c : Call fl) (p : ExecutionPolicy fl) → Q c → P p → grant fl c p ≡ []) where
    nothing_granted :
        (cs : List (Call fl)) (p : ExecutionPolicy fl) → Every Q cs → P p → granted fl cs p ≡ []
    unfolding granted
    nothing_granted [] p q h = refl
    nothing_granted (c ∷ cs) p q h =
        rw (stop c p q.0 h) (nothing_granted cs (step fl c p) q.1 (keep c p q.0 h))

  authorize_denied :
      (r : ExecutionRequest fl) (head : ℕ) (now : Float) (p : ExecutionPolicy fl)
      → (¬ Within fl r head now (roll_day fl now p))
      → ((authorize fl r head now p).0.allowed ≡ false)
        × ((authorize fl r head now p).1 ≡ roll_day fl now p)
  authorize_denied r head now p out = elim (authorize-Verdict fl r head now p) [
    | inl (d, q, w) ↦ absurd (out w)
    | inr (d, q, w) ↦ (d, q)
  ]

  killed_keep :
      (c : Call fl) (p : ExecutionPolicy fl)
      → KeepsKill c
      → p.killed ≡ true
      → (step fl c p).killed ≡ true
  unfolding step record_outcome set_kill
  killed_keep (authorize_call r head now) p q h =
      let d = authorize_denied r head now p (λ w. ground (arith, roll_day-killed now p, w.alive)) in
      ground (arith, d.1, roll_day-killed now p)
  killed_keep (outcome_call success loss now) p q h = ground (arith, roll_day-killed now p)
  killed_keep (kill_call killed why) p q h = q

  killed_stop :
      (c : Call fl) (p : ExecutionPolicy fl) → KeepsKill c → p.killed ≡ true → grant fl c p ≡ []
  unfolding grant
  killed_stop (authorize_call r head now) p q h =
      let d = authorize_denied r head now p (λ w. ground (arith, roll_day-killed now p, w.alive)) in
      rw d.0
  killed_stop (outcome_call success loss now) p q h = refl
  killed_stop (kill_call killed why) p q h = refl

  -- Once the kill switch is set, nothing is granted until a call lifts it.
  pub killed_grants_nothing :
      (cs : List (Call fl)) (p : ExecutionPolicy fl)
      → Every KeepsKill cs
      → p.killed ≡ true
      → granted fl cs p ≡ []
  killed_grants_nothing = nothing_granted (λ p. p.killed ≡ true) KeepsKill killed_keep killed_stop

  -- The failures that a sequence of calls reports.
  abbrev pub failures : List (Call fl) → ℕ
  failures [] = 0
  failures (outcome_call success loss now ∷ cs) = failures cs + 1
  failures (authorize_call r head now ∷ cs) = failures cs
  failures (kill_call killed why ∷ cs) = failures cs

  authorize-reverts :
      (r : ExecutionRequest fl) (head : ℕ) (now : Float) (p : ExecutionPolicy fl)
      → ((authorize fl r head now p).1.consecutive_reverts ≡ p.consecutive_reverts)
        × ((authorize fl r head now p).1.max_consecutive_reverts ≡ p.max_consecutive_reverts)
  authorize-reverts r head now p =
      ground (arith, authorize-Verdict fl r head now p, roll_day-reverts now p)

  -- Without a success the streak is as long as the failures reported since.
  run-reverts :
      (cs : List (Call fl)) (p : ExecutionPolicy fl)
      → Every NoSuccess cs
      → ((run cs p).consecutive_reverts ≡ p.consecutive_reverts + failures cs)
        × ((run cs p).max_consecutive_reverts ≡ p.max_consecutive_reverts)
  unfolding run step record_outcome set_kill
  run-reverts [] p q = (omega arith, refl)
  run-reverts (authorize_call r head now ∷ cs) p q =
      ground
        (arith, authorize-reverts r head now p, run-reverts cs (authorize fl r head now p).1 q.1)
  run-reverts (outcome_call success loss now ∷ cs) p q =
      ground
        (arith, roll_day-reverts now p, run-reverts cs (record_outcome fl success loss now p) q.1)
  run-reverts (kill_call killed why ∷ cs) p q =
      ground (arith, run-reverts cs (set_kill fl killed why p) q.1)

  abbrev Tripped : ExecutionPolicy fl → Type 0
  Tripped p = p.max_consecutive_reverts ≤ p.consecutive_reverts

  Tripped-keep :
      (c : Call fl) (p : ExecutionPolicy fl) → NoSuccess c → Tripped p → Tripped (step fl c p)
  unfolding step record_outcome set_kill
  Tripped-keep (authorize_call r head now) p q h = omega (arith, authorize-reverts r head now p)
  Tripped-keep (outcome_call success loss now) p q h = ground (arith, roll_day-reverts now p)
  Tripped-keep (kill_call killed why) p q h = h

  Tripped-stop :
      (c : Call fl) (p : ExecutionPolicy fl) → NoSuccess c → Tripped p → grant fl c p ≡ []
  unfolding grant
  Tripped-stop (authorize_call r head now) p q h =
      rw (authorize_denied r head now p (λ w. omega (arith, roll_day-reverts now p, w.reverts))).0
  Tripped-stop (outcome_call success loss now) p q h = refl
  Tripped-stop (kill_call killed why) p q h = refl

  -- Once the reported failures with no success between reach the limit, nothing is granted until
  -- a success is reported.
  pub revert_limit_grants_nothing :
      (cs ds : List (Call fl)) (p : ExecutionPolicy fl)
      → Every NoSuccess cs
      → Every NoSuccess ds
      → p.max_consecutive_reverts ≤ p.consecutive_reverts + failures cs
      → granted fl ds (run cs p) ≡ []
  revert_limit_grants_nothing cs ds p q q' h =
      nothing_granted Tripped NoSuccess Tripped-keep Tripped-stop ds (run cs p) q'
        (omega (arith, run-reverts cs p q))

  -- The call is made on UTC day `d`.
  abbrev pub OnDay : ℤ → Call fl → Type 0
  OnDay d (authorize_call r head now) = day_eq (utc_day now) d ≡ true
  OnDay d (outcome_call success loss now) = day_eq (utc_day now) d ≡ true
  OnDay d (kill_call killed why) = Unit

  -- The day's modeled loss has reached the limit.
  abbrev pub Spent : ℤ → ExecutionPolicy fl → Type 0
  Spent d p = (p.day ≡ some d) × (fle p.max_daily_modeled_loss_usd p.daily_modeled_loss_usd ≡ true)

  roll_day_same :
      (d : ℤ) (now : Float) (p : ExecutionPolicy fl)
      → day_eq (utc_day now) d ≡ true
      → p.day ≡ some d
      → roll_day fl now p ≡ p
  unfolding roll_day roll_to
  roll_day_same d now p same e = rw (e, same)

  module _ (o : IsFloatOrder fl) (plus : IsFloatSum fl) (d : ℤ) where
    Spent-denied :
        (r : ExecutionRequest fl) (head : ℕ) (now : Float) (p : ExecutionPolicy fl)
        → day_eq (utc_day now) d ≡ true
        → Spent d p
        → ((authorize fl r head now p).0.allowed ≡ false) × ((authorize fl r head now p).1 ≡ p)
    Spent-denied r head now p q h =
        let same = roll_day_same d now p q h.0 in
        let denied = authorize_denied r head now p (λ w. cc (h.1, (rw same at w.loss))) in
        (denied.0, denied.1 ∙ same)

    Spent-keep :
        (c : Call fl) (p : ExecutionPolicy fl) → OnDay d c → Spent d p → Spent d (step fl c p)
    unfolding step record_outcome set_kill
    Spent-keep (authorize_call r head now) p q h = rw (Spent-denied r head now p q h).1 h
    Spent-keep (outcome_call true loss now) p q h = rw (roll_day_same d now p q h.0) h
    Spent-keep (outcome_call false loss now) p q h = rw (roll_day_same d now p q h.0) (
      h.0,
      plus.le_add p.max_daily_modeled_loss_usd p.daily_modeled_loss_usd (fmax fl zero_f loss) h.1
          (zero-le-fmax fl o loss),
    )
    Spent-keep (kill_call killed why) p q h = h

    Spent-stop : (c : Call fl) (p : ExecutionPolicy fl) → OnDay d c → Spent d p → grant fl c p ≡ []
    unfolding grant
    Spent-stop (authorize_call r head now) p q h = rw (Spent-denied r head now p q h).0
    Spent-stop (outcome_call success loss now) p q h = refl
    Spent-stop (kill_call killed why) p q h = refl

    -- Once the modeled loss of a UTC day has reached the limit, nothing is granted on that day,
    -- whatever else is reported: the loss never goes down within a day.
    pub daily_loss_grants_nothing :
        (cs : List (Call fl)) (p : ExecutionPolicy fl)
        → Every (OnDay d) cs
        → Spent d p
        → granted fl cs p ≡ []
    daily_loss_grants_nothing = nothing_granted (Spent d) (OnDay d) Spent-keep Spent-stop
