-- ===== src/Liquidation/Optimum.antt =====
-- The candidate of a borrower in zero/liquidation_swarm.py has the greatest expected net.
use flash_loan.Prelude.{
  ℕ, ◌≡◌, refl, sym, ◌∙◌, subst, true, false, Option, none, some, List, [], ◌∷◌, Text, inl, inr,
  ◌⊎◌, arith, Bool-cases,
}
use flash_loan.Prelude.Int.{ℤ}
use flash_loan.Prelude.Results.{Result, ok, error, Outcome}
use flash_loan.Prelude.Sort.{All, In}
use flash_loan.Float.{IsFloatOrder, not_lt_of_lt}
use flash_loan.Decimal.{DecimalOps}
use flash_loan.Routes.{PoolRef}
use flash_loan.RouteQuote.{Registry}
use flash_loan.Liquidation.{LiquidationState, liquidatable}
use flash_loan.Liquidation.Scan.{ScanError, Candidate, collateral_loop, best_candidate}
use flash_loan.Liquidation.Best.{fold_better, all_quotes, Foreign, collateral_loop-Folds}

module _ (d : DecimalOps) (o : IsFloatOrder d.decimals) where
  open d use {decimals}
  open decimals use {Float, flt, fle}

  -- No candidate of the list has a greater net.
  abbrev pub Tops : Candidate d → List (Candidate d) → Type 0
  Tops m cs = All (λ (c : Candidate d). flt m.expected_net_usd c.expected_net_usd ≡ false) cs

  -- The best of a list: in it, with no greater one; none of the empty list.
  abbrev pub BestOf : List (Candidate d) → Option (Candidate d) → Type 0
  BestOf cs none = cs ≡ []
  BestOf cs (some m) = In m cs × Tops m cs

  not_lt_trans : (x y z : Float) → flt x y ≡ false → flt y z ≡ false → flt x z ≡ false
  not_lt_trans x y z h k =
      ground (arith, o.le_not_lt y x, o.le_not_lt z y, o.le_not_lt z x, o.le_trans_f z y x)

  not_lt_self : (x : Float) → flt x x ≡ false
  not_lt_self x = ground (arith, o.le_not_lt x x, o.lt_le x x)

  -- From a best one so far: the result is that one or in the list, and it tops both.
  abbrev Beats : Candidate d → List (Candidate d) → Option (Candidate d) → Type 0
  Beats b cs none = ⊥
  Beats b cs (some m) =
      ((b ≡ m) ⊎ In m cs) × (flt m.expected_net_usd b.expected_net_usd ≡ false) × Tops m cs

  stands :
      (b c x m : Candidate d) (cs : List (Candidate d))
      → (x ≡ b) ⊎ (x ≡ c)
      → (x ≡ m) ⊎ In m cs
      → (b ≡ m) ⊎ ((c ≡ m) ⊎ In m cs)
  stands b c x m cs (inl e) (inl f) = inl (sym e ∙ f)
  stands b c x m cs (inr e) (inl f) = inr (inl (sym e ∙ f))
  stands b c x m cs e (inr i) = inr (inr i)

  Beats-cons :
      (b c x : Candidate d) (cs : List (Candidate d)) (r : Option (Candidate d))
      → (x ≡ b) ⊎ (x ≡ c)
      → flt x.expected_net_usd b.expected_net_usd ≡ false
      → flt x.expected_net_usd c.expected_net_usd ≡ false
      → Beats x cs r
      → Beats b (c ∷ cs) r
  Beats-cons b c x cs none e hb hc h = h
  Beats-cons b c x cs (some m) e hb hc h = (
    stands b c x m cs e h.0,
    not_lt_trans m.expected_net_usd x.expected_net_usd b.expected_net_usd h.1 hb,
    (not_lt_trans m.expected_net_usd x.expected_net_usd c.expected_net_usd h.1 hc, h.2),
  )

  fold-Beats : (b : Candidate d) (cs : List (Candidate d)) → Beats b cs (fold_better d (some b) cs)
  fold-Beats b [] = (inl refl, not_lt_self b.expected_net_usd, tt)
  fold-Beats b (c ∷ cs) = elim (Bool-cases (flt b.expected_net_usd c.expected_net_usd)) [
    | inl up ↦ rw up (
        Beats-cons b c c cs (fold_better d (some c) cs) (inr refl)
          (not_lt_of_lt o b.expected_net_usd c.expected_net_usd up) (not_lt_self c.expected_net_usd)
          (fold-Beats c cs))
    | inr stay ↦ rw stay (
        Beats-cons b c b cs (fold_better d (some b) cs) (inl refl) (not_lt_self b.expected_net_usd)
          stay (fold-Beats b cs))
  ]

  Beats-BestOf :
      (b : Candidate d) (cs : List (Candidate d)) (r : Option (Candidate d))
      → Beats b cs r
      → BestOf (b ∷ cs) r
  Beats-BestOf b cs none h = absurd h
  Beats-BestOf b cs (some m) h = (h.0, (h.1, h.2))

  fold-BestOf : (cs : List (Candidate d)) → BestOf cs (fold_better d none cs)
  fold-BestOf [] = refl
  fold-BestOf (c ∷ cs) = Beats-BestOf c cs (fold_better d (some c) cs) (fold-Beats c cs)

  fold_eq-BestOf :
      (Q : ScanError → Type 0) (cs : List (Candidate d))
      (r : Result ScanError (Option (Candidate d)))
      → Outcome Q (λ x. x ≡ fold_better d none cs) r
      → Outcome Q (BestOf cs) r
  fold_eq-BestOf Q cs (error e) h = h
  fold_eq-BestOf Q cs (ok x) h = subst (BestOf cs) (sym h) (fold-BestOf cs)

  module _ (s : LiquidationState d) (block : ℤ) (registry : Registry)
      (discover_pair : Text → Text → Text → Option (List PoolRef)) (premium : ℕ)
      (gas_usd reserve_usd : Float) where
    -- For an account that is not liquidatable nothing, else the best of all quotes.
    abbrev pub Chosen : Option (Candidate d) → Type 0
    Chosen r =
        ((liquidatable d s ≡ false) × (r ≡ none))
        ⊎ ((liquidatable d s ≡ true)
            × BestOf
                (all_quotes d s block registry discover_pair premium gas_usd reserve_usd
                  s.positions)
                r)

    -- A liquidatable account and a pool named for a pair that it does not trade.
    abbrev pub Raises : ScanError → Type 0
    Raises e =
        (liquidatable d s ≡ true)
        × Foreign d s block registry discover_pair premium gas_usd reserve_usd e

    right :
        liquidatable d s ≡ true
        → (r : Result ScanError (Option (Candidate d)))
        → Outcome
            (Foreign d s block registry discover_pair premium gas_usd reserve_usd)
            (BestOf
              (all_quotes d s block registry discover_pair premium gas_usd reserve_usd s.positions))
            r
        → Outcome Raises Chosen r
    right ill (error e) h = (ill, h)
    right ill (ok x) h = inr (ill, h)

    -- On an order of decimals, the search over the positions of a borrower raises only for a
    -- liquidatable account, when a venue names a pool for two assets from which no leg can be made.
    -- Otherwise an account that is not liquidatable has no candidate, and of a liquidatable one the
    -- candidate is among all quotes for every collateral, debt, ready venue and pool, and none of
    -- them has a greater expected net; there is none only if there is no quote.
    pub best_candidate-Chosen :
        Outcome Raises Chosen
          (best_candidate d s block registry discover_pair premium gas_usd reserve_usd)
    unfolding best_candidate
    best_candidate-Chosen = elim (Bool-cases (liquidatable d s)) [
      | inr healthy ↦ rw healthy (inl (healthy, refl))
      | inl ill ↦ rw ill (
          right ill
            (collateral_loop d s block registry discover_pair premium gas_usd reserve_usd
              s.positions none)
            (fold_eq-BestOf (Foreign d s block registry discover_pair premium gas_usd reserve_usd)
              (all_quotes d s block registry discover_pair premium gas_usd reserve_usd s.positions)
              _
              (collateral_loop-Folds d s block registry discover_pair premium gas_usd reserve_usd
                s.positions none)))
    ]
