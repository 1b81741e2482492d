-- ===== src/Gate/Thresholds.antt =====
-- When the gate passes a candidate.
use flash_loan.Prelude.{◌≡◌, refl, false, Option, arith, ◌⊎◌, inl, inr, Bool-cases, ◌≢◌}
use flash_loan.Float.{FloatOps, fmax, IsFloatOrder, le_of_not_lt, not_lt_of_le}
use flash_loan.Gate.{pass, Gate, min_profit, is_stale, evaluate}

module _ {fl : FloatOps} (o : IsFloatOrder fl) where
  open fl use {Float, zero_f, flt, fle, fsub, fmul}

  -- Below a maximum of two is below one of them.
  lt-fmax : (a b x : Float) → flt x (fmax fl a b) ≡ false → (flt x a ≡ false) × (flt x b ≡ false)
  lt-fmax a b x h = elim (Bool-cases (flt a b)) [
    | inl less ↦
        let at_b : flt x b ≡ false = ground (arith, h, less) in
        (not_lt_of_le o a x (o.le_trans_f a b x (o.lt_le a b less) (le_of_not_lt o b x at_b)), at_b)
    | inr more ↦
        let at_a : flt x a ≡ false = ground (arith, h, more) in
        (
          at_a,
          not_lt_of_le o b x
              (o.le_trans_f b a x (le_of_not_lt o b a more) (le_of_not_lt o a x at_a)),
        )
  ]

  fmax-lt : (a b x : Float) → flt x a ≡ false → flt x b ≡ false → flt x (fmax fl a b) ≡ false
  fmax-lt a b x h k = ground arith

  module _ (g : Gate fl) (net_profit gross_profit gas_cost_usd loan_size_usd : Float)
      (discovered_at_ms : Option Float) (now_ms : Float) where
    -- What a candidate has to fulfil.
    pub record IsPassable : Type 0 where
      pub gross : fle gross_profit zero_f ≡ false
      pub floor : flt net_profit g.floor_usd ≡ false
      pub gas : flt net_profit (fmul g.gas_multiple gas_cost_usd) ≡ false
      pub roi : flt net_profit (fmul g.min_roi loan_size_usd) ≡ false
      pub fresh : is_stale fl g discovered_at_ms now_ms ≡ false

    least_lt :
        (flt net_profit (min_profit fl g gas_cost_usd loan_size_usd) ≡ false)
        → (flt net_profit g.floor_usd ≡ false)
          × (flt net_profit (fmul g.gas_multiple gas_cost_usd) ≡ false)
          × (flt net_profit (fmul g.min_roi loan_size_usd) ≡ false)
    unfolding min_profit
    least_lt h =
        let outer =
          lt-fmax (fmax fl g.floor_usd (fmul g.gas_multiple gas_cost_usd))
            (fmul g.min_roi loan_size_usd) net_profit h in
        let inner = lt-fmax g.floor_usd (fmul g.gas_multiple gas_cost_usd) net_profit outer.0 in
        (inner.0, inner.1, outer.1)

    least_passable :
        IsPassable → flt net_profit (min_profit fl g gas_cost_usd loan_size_usd) ≡ false
    unfolding min_profit
    least_passable c =
        fmax-lt (fmax fl g.floor_usd (fmul g.gas_multiple gas_cost_usd))
          (fmul g.min_roi loan_size_usd) net_profit
          (fmax-lt g.floor_usd (fmul g.gas_multiple gas_cost_usd) net_profit c.floor c.gas) c.roi

    -- On floats other than NaN the gate passes exactly the candidates with a positive gross profit and
    -- a net profit of at least the floor, the multiple of the gas and the share of the loan, that are
    -- not stale if their age is known.
    pub evaluate-IsPassable :
        (((evaluate fl g net_profit gross_profit gas_cost_usd loan_size_usd discovered_at_ms
              now_ms).0
            ≡ pass)
          × IsPassable)
        ⊎ (((evaluate fl g net_profit gross_profit gas_cost_usd loan_size_usd discovered_at_ms
                now_ms).0
              ≢ pass)
            × (¬ IsPassable))
    unfolding evaluate
    evaluate-IsPassable = elim (Bool-cases (fle gross_profit zero_f)) [
      | inl loss ↦ rw loss (inr (λ e. absurd (cc e), λ c. absurd (cc (loss, c.gross))))
      | inr gain ↦ elim (Bool-cases (flt net_profit (min_profit fl g gas_cost_usd loan_size_usd))) [
        | inl low ↦
            rw (gain, low) (inr (λ e. absurd (cc e), λ c. absurd (cc (low, least_passable c))))
        | inr enough ↦ elim (Bool-cases (is_stale fl g discovered_at_ms now_ms)) [
          | inl old ↦
              rw (gain, enough, old) (inr (λ e. absurd (cc e), λ c. absurd (cc (old, c.fresh))))
          | inr fresh ↦
              let parts = least_lt enough in
              rw (gain, enough, fresh)
                (inl (
                  refl,
                  record {
                    gross = gain;
                    floor = parts.0;
                    gas = parts.1;
                    roi = parts.2;
                    fresh = fresh;
                  },
                ))
        ]
      ]
    ]
