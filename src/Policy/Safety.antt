-- ===== src/Policy/Safety.antt =====
-- What a policy grants over any sequence of calls: each candidate at most once, and only within
-- every limit.
use flash_loan.Prelude.{
  ◌&&◌, ℕ, ◌+◌, ◌<◌, ◌≤◌, ◌≡◌, refl, true, false, List, [], ◌∷◌, ◌++◌, arith, Eq_key, ◌⊎◌, inl, inr,
  Bool-cases, ap, pair_eq, pair_eq_iff, Eq_nat, Eq_text,
}
use flash_loan.Prelude.Dict.{contains, Distinct}
use flash_loan.Float.{FloatOps}
use flash_loan.Policy.{
  Key, ok, PolicyDecision, ExecutionRequest, ExecutionPolicy, Call, authorize_call, outcome_call,
  kill_call, roll_to, roll_day, set_kill, record_outcome, key_of, check, authorize, step, grant,
}

module _ (fl : FloatOps) where
  open fl use {Float, zero_f, flt, fle}

  -- A request is within every limit of a policy, and was not granted before.
  pub record Within (r : ExecutionRequest fl) (head : ℕ) (now : Float) (p : ExecutionPolicy fl)
      : Type 0 where
    pub alive : p.killed ≡ false
    pub reverts : p.consecutive_reverts < p.max_consecutive_reverts
    pub loss : fle p.max_daily_modeled_loss_usd p.daily_modeled_loss_usd ≡ false
    pub fresh : contains p.seen (key_of fl r) ≡ false
    pub lag : head ≤ r.block + p.max_block_lag
    pub in_time : flt r.deadline_ts now ≡ false
    pub profit : fle r.expected_net_usd zero_f ≡ false
    pub gas : flt p.max_gas_usd r.gas_usd ≡ false
    pub loan : flt p.max_loan_notional_usd r.loan_notional_usd ≡ false

  -- A verdict: a grant within the limits that marks the key as seen, or a denial, outside the
  -- limits, that changes nothing.
  abbrev pub Verdict :
      ExecutionRequest fl
      → ℕ
      → Float
      → ExecutionPolicy fl
      → PolicyDecision × ExecutionPolicy fl
      → Type 0
  Verdict r head now p (d, q) =
      ((d ≡ record { allowed = true; reason = ok })
        × (q ≡ record p { seen = key_of fl r ∷ p.seen })
        × Within r head now p)
      ⊎ ((d.allowed ≡ false) × (q ≡ p) × (¬ Within r head now p))

  check_lem :
      (r : ExecutionRequest fl) (head : ℕ) (now : Float) (p : ExecutionPolicy fl)
      → Verdict r head now p (check fl r head now p)
  unfolding check
  check_lem r head now p = ground arith

  pub roll_day-seen : (now : Float) (p : ExecutionPolicy fl) → (roll_day fl now p).seen ≡ p.seen
  unfolding roll_day roll_to
  roll_day-seen now p = ground arith

  -- A request is granted exactly when it is within every limit of the policy as of that day and
  -- was not granted before; the key is then marked as seen, and a denial only rolls the day.
  pub authorize-Verdict :
      (r : ExecutionRequest fl) (head : ℕ) (now : Float) (p : ExecutionPolicy fl)
      → Verdict r head now (roll_day fl now p) (authorize fl r head now p)
  unfolding authorize
  authorize-Verdict r head now p = check_lem r head now (roll_day fl now p)

  -- The keys that a sequence of calls grants, in order.
  unfoldable pub granted : List (Call fl) → ExecutionPolicy fl → List Key
  granted [] p = []
  granted (c ∷ cs) p = grant fl c p ++ granted cs (step fl c p)

  -- One call either grants nothing and keeps the set of seen keys, or it grants one key that was
  -- not seen and adds it.
  abbrev pub Steps : Call fl → ExecutionPolicy fl → Type 0
  Steps c p =
      ((grant fl c p ≡ []) × ((step fl c p).seen ≡ p.seen))
      ⊎ ((k : Key) × (grant fl c p ≡ k ∷ [])
          × ((step fl c p).seen ≡ k ∷ p.seen)
          × (contains p.seen k ≡ false))

  step-Steps : (c : Call fl) (p : ExecutionPolicy fl) → Steps c p
  unfolding grant step record_outcome set_kill
  step-Steps (authorize_call r head now) p = elim (authorize-Verdict r head now p) [
    | inl (d, q, w) ↦ inr (
      key_of fl r,
      ground arith,
      ground (arith, roll_day-seen now p),
      rw (← roll_day-seen now p) w.fresh,
    )
    | inr (d, q, w) ↦ inl (ground arith, ground (arith, roll_day-seen now p))
  ]
  step-Steps (outcome_call s l now) p = inl (refl, ground (arith, roll_day-seen now p))
  step-Steps (kill_call k why) p = inl (refl, refl)

  contains_cons_self : (ks : List Key) (k : Key) → contains (k ∷ ks) k ≡ true
  unfolding contains
  contains_cons_self ks k = ground (arith, pair_eq_iff Eq_nat Eq_text k k)

  contains_cons_old :
      (ks : List Key) (j k : Key) → contains ks k ≡ true → contains (j ∷ ks) k ≡ true
  unfolding contains
  contains_cons_old ks j k h = ground (arith, Bool-cases (pair_eq Eq_nat Eq_text j k))

  contains_cons_new :
      (ks gs : List Key) (j k : Key)
      → contains ks j ≡ false
      → contains ks k ≡ true
      → contains gs k ≡ false
      → contains (j ∷ gs) k ≡ false
  unfolding contains
  contains_cons_new ks gs j k fresh old rest = elim (Bool-cases (pair_eq Eq_nat Eq_text j k)) [
    | inl same ↦ ground (arith, ap (contains ks) ((pair_eq_iff Eq_nat Eq_text j k).0 same))
    | inr ne ↦ rw ne rest
  ]

  -- What is granted later was not seen before.
  granted_fresh :
      (cs : List (Call fl)) (p : ExecutionPolicy fl) (k : Key)
      → contains p.seen k ≡ true
      → contains (granted cs p) k ≡ false
  unfolding granted
  granted_fresh [] p k h = unfold contains in refl
  granted_fresh (c ∷ cs) p k h = elim (step-Steps c p) [
    | inl (none_granted, same) ↦ rw none_granted (granted_fresh cs (step fl c p) k (rw same h))
    | inr (j, one, added, fresh) ↦ rw one (
        contains_cons_new p.seen (granted cs (step fl c p)) j k fresh h
          (granted_fresh cs (step fl c p) k (rw added (contains_cons_old p.seen j k h))))
  ]

  granted-Distinct' : (cs : List (Call fl)) (p : ExecutionPolicy fl) → Distinct (granted cs p)
  unfolding granted
  granted-Distinct' [] p = tt
  granted-Distinct' (c ∷ cs) p = elim (step-Steps c p) [
    | inl (none_granted, same) ↦ rw none_granted (granted-Distinct' cs (step fl c p))
    | inr (k, one, added, fresh) ↦ rw one (
      granted_fresh cs (step fl c p) k (rw added (contains_cons_self p.seen k)),
      granted-Distinct' cs (step fl c p),
    )
  ]

  -- Over any sequence of calls on one policy, in any order and with any clock, no candidate of a
  -- block is granted twice, and none that was seen before.
  pub granted-Distinct :
      (cs : List (Call fl)) (p : ExecutionPolicy fl) (k : Key)
      → Distinct (granted cs p) × ((contains p.seen k && contains (granted cs p) k) ≡ false)
  granted-Distinct cs p k = (
    granted-Distinct' cs p,
    elim (Bool-cases (contains p.seen k)) [
      | inl old ↦ rw old (granted_fresh cs p k old)
      | inr new ↦ rw new
    ],
  )
