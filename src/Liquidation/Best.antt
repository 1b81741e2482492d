-- ===== src/Liquidation/Best.antt =====
-- The search of zero/liquidation_swarm.py finds the best of all the quotes that it makes.
use flash_loan.Prelude.{
  ℕ, ◌≡◌, ◌∙◌, refl, ap, subst, Bool, true, false, ◌||◌, not, Option, none, some, List, [], ◌∷◌,
  ◌++◌, Text, text_eq, if◌then◌else◌, ◌==◌, inl, inr,
}
use flash_loan.Prelude.Int.{ℤ}
use flash_loan.Prelude.Results.{Result, ok, error, ◌>>=◌, Outcome, >>=-Outcome}
use flash_loan.Prelude.Sort.{In}
use flash_loan.Decimal.{DecimalOps}
use flash_loan.Routes.{PoolRef, RouteLeg, make_leg}
use flash_loan.RouteQuote.{Registry, adapter_ready}
use flash_loan.Liquidation.{LiquidationError, ReservePosition, LiquidationState}
use flash_loan.Liquidation.Quote.{quote_liquidation}
use flash_loan.Liquidation.Scan.{
  ScanError, leg_error, Candidate, better, after_quote, try_leg, pool_loop, discovered, venue_loop,
  debt_loop, collateral_loop,
}

module _ (d : DecimalOps) where
  open d use {decimals}
  open decimals use {Float, zero_f, flt, fle}

  -- The candidates one after the other.
  abbrev pub fold_better : Option (Candidate d) → List (Candidate d) → Option (Candidate d)
  fold_better best [] = best
  fold_better best (c ∷ cs) = fold_better (better d best c) cs

  fold-append :
      (best : Option (Candidate d)) (xs ys : List (Candidate d))
      → fold_better (fold_better best xs) ys ≡ fold_better best (xs ++ ys)
  fold-append best [] ys = refl
  fold-append best (x ∷ xs) ys = fold-append (better d best x) xs ys

  -- The result is the fold over the candidates.
  abbrev Folds : Option (Candidate d) → List (Candidate d) → Option (Candidate d) → Type 0
  Folds best cs r = r ≡ fold_better best cs

  then-Folds :
      (Q : ScanError → Type 0) (best : Option (Candidate d)) (xs ys : List (Candidate d))
      (r : Result ScanError (Option (Candidate d)))
      (f : Option (Candidate d) → Result ScanError (Option (Candidate d)))
      → Outcome Q (Folds best xs) r
      → ((x : Option (Candidate d)) → Outcome Q (Folds x ys) (f x))
      → Outcome Q (Folds best (xs ++ ys)) (r >>= f)
  then-Folds Q best xs ys r f h k =
      >>=-Outcome Q (Folds best xs) (Folds best (xs ++ ys)) r f h (λ x e.
        subst (λ z. Outcome Q (λ y. y ≡ z) (f x))
          (ap (λ w. fold_better w ys) e ∙ fold-append best xs ys) (k x))

  skip-Folds :
      (Q : ScanError → Type 0) (b : Bool) (best : Option (Candidate d)) (xs : List (Candidate d))
      (r : Result ScanError (Option (Candidate d)))
      → Outcome Q (Folds best xs) r
      → Outcome Q (Folds best (if b then [] else xs)) (if b then ok best else r)
  skip-Folds Q true best xs r h = refl
  skip-Folds Q false best xs r h = h

  skip-then :
      (Q : ScanError → Type 0) (b : Bool) (best : Option (Candidate d)) (xs ys : List (Candidate d))
      (r : Result ScanError (Option (Candidate d)))
      (f : Option (Candidate d) → Result ScanError (Option (Candidate d)))
      → Outcome Q (Folds best xs) r
      → ((x : Option (Candidate d)) → Outcome Q (Folds x ys) (f x))
      → Outcome Q (Folds best ((if b then [] else xs) ++ ys)) ((if b then ok best else r) >>= f)
  skip-then Q b best xs ys r f h k =
      then-Folds Q best (if b then [] else xs) ys (if b then ok best else r) f
        (skip-Folds Q b best xs r h) k

  -- A quote as a list.
  abbrev pub quote_list : Result LiquidationError (Option (Candidate d)) → List (Candidate d)
  quote_list (error e) = []
  quote_list (ok none) = []
  quote_list (ok (some c)) = c ∷ []

  after-Folds :
      (best : Option (Candidate d)) (q : Result LiquidationError (Option (Candidate d)))
      → after_quote d best q ≡ fold_better best (quote_list q)
  after-Folds best (error e) = refl
  after-Folds best (ok none) = refl
  after-Folds best (ok (some c)) = refl

  module _ (s : LiquidationState d) (block : ℤ) (registry : Registry)
      (discover_pair : Text → Text → Text → Option (List PoolRef)) (premium : ℕ)
      (gas_usd reserve_usd : Float) where
    -- All quotes that the search makes, in its order.
    abbrev pub leg_quotes : Text → Text → Option RouteLeg → List (Candidate d)
    leg_quotes collateral debt none = []
    leg_quotes collateral debt (some leg) = quote_list (
        quote_liquidation d s debt collateral (record { legs = leg ∷ [] }) block registry premium
          gas_usd reserve_usd)

    abbrev pub pool_quotes : Text → Text → List PoolRef → List (Candidate d)
    pool_quotes collateral debt [] = []
    pool_quotes collateral debt (p ∷ ps) =
        leg_quotes collateral debt (make_leg p collateral debt) ++ pool_quotes collateral debt ps

    abbrev pub discovered_quotes : Text → Text → Option (List PoolRef) → List (Candidate d)
    discovered_quotes collateral debt none = []
    discovered_quotes collateral debt (some ps) = pool_quotes collateral debt ps

    abbrev pub venue_quotes : Text → Text → Registry → List (Candidate d)
    venue_quotes collateral debt [] = []
    venue_quotes collateral debt ((venue, adapter) ∷ venues) =
        (if not (adapter_ready (some adapter))
          then []
          else discovered_quotes collateral debt (discover_pair venue collateral debt))
        ++ venue_quotes collateral debt venues

    abbrev pub debt_quotes : ReservePosition d → List (ReservePosition d) → List (Candidate d)
    debt_quotes collateral [] = []
    debt_quotes collateral (debt ∷ debts) =
        (if (debt.debt_raw == 0) || text_eq debt.asset collateral.asset
          then []
          else venue_quotes collateral.asset debt.asset registry)
        ++ debt_quotes collateral debts

    abbrev pub all_quotes : List (ReservePosition d) → List (Candidate d)
    all_quotes [] = []
    all_quotes (collateral ∷ collaterals) =
        (if (collateral.collateral_raw == 0) || not collateral.usage_as_collateral_enabled
          then []
          else debt_quotes collateral s.positions)
        ++ all_quotes collaterals

    -- A venue names a pool for a pair that it does not trade.
    abbrev pub Foreign : ScanError → Type 0
    Foreign leg_error =
        (venue : Text) × (collateral : Text) × (debt : Text) × (ps : List PoolRef) × (p : PoolRef)
        × (discover_pair venue collateral debt ≡ some ps)
        × In p ps
        × (make_leg p collateral debt ≡ none)

    abbrev leg_step :
        Text
        → Text
        → Option RouteLeg
        → Option (Candidate d)
        → Result ScanError (Option (Candidate d))
    leg_step = try_leg d s block registry discover_pair premium gas_usd reserve_usd

    try_leg-Folds :
        (collateral debt : Text) (leg : Option RouteLeg) (best : Option (Candidate d))
        → (leg ≡ none → Foreign leg_error)
        → Outcome Foreign
            (Folds best (leg_quotes collateral debt leg))
            (leg_step collateral debt leg best)
    try_leg-Folds collateral debt none best raised = raised refl
    try_leg-Folds collateral debt (some leg) best raised = after-Folds best _

    pool_loop-Folds :
        (collateral debt : Text) (ps : List PoolRef) (best : Option (Candidate d))
        → ((p : PoolRef) → In p ps → make_leg p collateral debt ≡ none → Foreign leg_error)
        → Outcome Foreign (Folds best (pool_quotes collateral debt ps)) (
            pool_loop d s block registry discover_pair premium gas_usd reserve_usd collateral debt
              ps best)
    unfolding pool_loop
    pool_loop-Folds collateral debt [] best raised = refl
    pool_loop-Folds collateral debt (p ∷ ps) best raised =
        then-Folds Foreign best (leg_quotes collateral debt (make_leg p collateral debt))
          (pool_quotes collateral debt ps)
          (leg_step collateral debt (make_leg p collateral debt) best) _
          (try_leg-Folds collateral debt (make_leg p collateral debt) best (raised p (inl refl)))
          (λ x. pool_loop-Folds collateral debt ps x (λ q i. raised q (inr i)))

    discovered-Folds :
        (collateral debt : Text) (venue : Text) (o : Option (List PoolRef))
        (best : Option (Candidate d))
        → discover_pair venue collateral debt ≡ o
        → Outcome Foreign (Folds best (discovered_quotes collateral debt o)) (
            discovered d s block registry discover_pair premium gas_usd reserve_usd collateral debt
              o best)
    discovered-Folds collateral debt venue none best e = refl
    discovered-Folds collateral debt venue (some ps) best e =
        pool_loop-Folds collateral debt ps best (λ p i f. (venue, collateral, debt, ps, p, e, i, f))

    venue_loop-Folds :
        (collateral debt : Text) (venues : Registry) (best : Option (Candidate d))
        → Outcome Foreign (Folds best (venue_quotes collateral debt venues)) (
            venue_loop d s block registry discover_pair premium gas_usd reserve_usd collateral debt
              venues best)
    unfolding venue_loop
    venue_loop-Folds collateral debt [] best = refl
    venue_loop-Folds collateral debt ((venue, adapter) ∷ venues) best =
        let pools = discover_pair venue collateral debt in
        skip-then Foreign (not (adapter_ready (some adapter))) best
          (discovered_quotes collateral debt pools) (venue_quotes collateral debt venues) _ _
          (discovered-Folds collateral debt venue pools best refl)
          (venue_loop-Folds collateral debt venues)

    debt_loop-Folds :
        (collateral : ReservePosition d) (debts : List (ReservePosition d))
        (best : Option (Candidate d))
        → Outcome Foreign (Folds best (debt_quotes collateral debts)) (
            debt_loop d s block registry discover_pair premium gas_usd reserve_usd collateral debts
              best)
    unfolding debt_loop
    debt_loop-Folds collateral [] best = refl
    debt_loop-Folds collateral (debt ∷ debts) best =
        skip-then Foreign ((debt.debt_raw == 0) || text_eq debt.asset collateral.asset) best
          (venue_quotes collateral.asset debt.asset registry) (debt_quotes collateral debts) _ _
          (venue_loop-Folds collateral.asset debt.asset registry best)
          (debt_loop-Folds collateral debts)

    pub collateral_loop-Folds :
        (collaterals : List (ReservePosition d)) (best : Option (Candidate d))
        → Outcome Foreign
            (λ r. r ≡ fold_better best (all_quotes collaterals))
            (collateral_loop d s block registry discover_pair premium gas_usd reserve_usd
              collaterals best)
    unfolding collateral_loop
    collateral_loop-Folds [] best = refl
    collateral_loop-Folds (collateral ∷ collaterals) best =
        skip-then Foreign
          ((collateral.collateral_raw == 0) || not collateral.usage_as_collateral_enabled) best
          (debt_quotes collateral s.positions) (all_quotes collaterals) _ _
          (debt_loop-Folds collateral s.positions best) (collateral_loop-Folds collaterals)
