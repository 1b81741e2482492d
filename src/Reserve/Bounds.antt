-- ===== src/Reserve/Bounds.antt =====
-- The bounds of the reserve of zero/reserve.py.
use flash_loan.Prelude.{
  ℕ, zero, suc, ◌-◌, ◌<◌, ◌≤◌, ◌≡◌, ◌∙◌, refl, true, Option, none, some, List, [], ◌∷◌, map, inl,
  inr, arith, length, get_elem?, length-map, Bool-cases,
}
use flash_loan.Prelude.Int.{pos, ltb_ℤ}
use flash_loan.Prelude.Results.{ok}
use flash_loan.Prelude.Sort.{sort, sort-perm}
use flash_loan.Prelude.Perms.{length-perm}
use flash_loan.Prelude.Succeeds.{Succeeds}
use flash_loan.Float.{fmax, IsFloatOrder}
use flash_loan.Reserve.{
  ReserveOps, AdaptiveReserve, ForkRow, ReserveEstimate, fmin, check_reserve, clamp, limited, rank,
  adverse_sample, pick, estimate_sorted, estimate,
}

-- What the code relies on in `ceil(quantile * n)`: at most n for a quantile of at most one.
pub record IsCeil (ops : ReserveOps) : Type 0 where
  pub ceil_le :
      (q : ops.decimals.Float) (n : ℕ)
      → ops.decimals.fle q ops.one_d ≡ true
      → ops.ceil_times q n ≤ n

module _ (ops : ReserveOps) (o : IsFloatOrder ops.decimals) where
  open ops use {decimals, one_d}
  open decimals use {Float, flt, fle}

  fmin-le : (a b : Float) → fle (fmin decimals a b) a ≡ true
  fmin-le a b = elim (Bool-cases (flt b a)) [
    | inl below ↦ rw below (o.lt_le b a below)
    | inr above ↦ rw above (ground (arith, o.le_not_lt a a, o.lt_le a a))
  ]

  le-fmax : (a b : Float) → fle a (fmax decimals a b) ≡ true
  le-fmax a b = ground (arith, o.lt_le a b, o.le_not_lt a a, o.lt_le a a)

  le-fmin : (c a b : Float) → fle c a ≡ true → fle c b ≡ true → fle c (fmin decimals a b) ≡ true
  le-fmin c a b h k = ground arith

  -- What the constructor has checked.
  pub checked_cap :
      (r : AdaptiveReserve ops) → check_reserve ops r ≡ ok r → fle r.floor r.cap ≡ true
  unfolding check_reserve
  checked_cap r h = ground (arith, o.le_not_lt r.floor r.cap)

  pub checked_quantile :
      (r : AdaptiveReserve ops) → check_reserve ops r ≡ ok r → fle r.quantile one_d ≡ true
  unfolding check_reserve
  checked_quantile r h = ground arith

  -- Between the floor and the cap.
  abbrev pub Within : AdaptiveReserve ops → ReserveEstimate ops → Type 0
  Within r e = (fle r.floor e.value_usd ≡ true) × (fle e.value_usd r.cap ≡ true)

  clamp-Within :
      (r : AdaptiveReserve ops) (v : Float)
      → fle r.floor r.cap ≡ true
      → (fle r.floor (clamp ops r v) ≡ true) × (fle (clamp ops r v) r.cap ≡ true)
  unfolding clamp
  clamp-Within r v h = (
    le-fmin r.floor r.cap (fmax decimals r.floor v) h (le-fmax r.floor v),
    fmin-le r.cap (fmax decimals r.floor v),
  )

  get_elem?-is_some :
      {A : Type 0} (xs : List A) (i : ℕ) → i < length xs → (x : A) × (get_elem? xs i ≡ some x)
  get_elem?-is_some [] i h = elim h [ ]
  get_elem?-is_some (x ∷ xs) zero h = (x, refl)
  get_elem?-is_some (x ∷ xs) (suc i) h = get_elem?-is_some xs i (omega arith)

  pick-Within :
      (r : AdaptiveReserve ops) (n : ℕ) (found : Option Float) (v : Float)
      → fle r.floor r.cap ≡ true
      → found ≡ some v
      → Succeeds (λ e. Within r e × (e.samples ≡ n)) (pick ops r n found)
  pick-Within r n none v h e = absurd (cc)
  pick-Within r n (some w) v h e = (clamp-Within r w h, refl)

  sorted-Within :
      (c : IsCeil ops) (r : AdaptiveReserve ops) (xs : List Float) (n : ℕ)
      → fle r.floor r.cap ≡ true
      → fle r.quantile one_d ≡ true
      → length xs ≡ n
      → Succeeds (λ e. Within r e × (e.samples ≡ n)) (estimate_sorted ops r xs n)
  sorted-Within c r [] n h k e = (clamp-Within r r.floor h, e)
  sorted-Within c r (a ∷ xs) n h k e =
      let here =
        get_elem?-is_some (a ∷ xs) (rank ops r (length (a ∷ xs)) - 1)
          (omega (arith, c.ceil_le r.quantile (length (a ∷ xs)) k)) in
      pick-Within r n (get_elem? (a ∷ xs) (rank ops r (length (a ∷ xs)) - 1)) here.0 h here.1

  -- For a reserve that the constructor accepts, an order of decimals and a rank of at most the
  -- number of samples, an estimate is given for all rows: it lies between the floor and the cap,
  -- and it counts the rows of the lookback.
  pub estimate-Within :
      (c : IsCeil ops) (r : AdaptiveReserve ops) (rows : List (ForkRow ops))
      → check_reserve ops r ≡ ok r
      → Succeeds (λ e. Within r e × (e.samples ≡ length (limited ops r rows))) (estimate ops r rows)
  unfolding estimate
  estimate-Within c r rows h =
      elim (Bool-cases (ltb_ℤ (pos (length (limited ops r rows))) r.min_samples)) [
        | inl few ↦
            rw few (clamp-Within r (fmax decimals r.floor r.bootstrap) (checked_cap r h), refl)
        | inr enough ↦ rw enough (
            sorted-Within c r (sort flt (map (adverse_sample ops) (limited ops r rows)))
              (length (limited ops r rows)) (checked_cap r h) (checked_quantile r h)
              (length-perm (sort-perm flt (map (adverse_sample ops) (limited ops r rows)))
                ∙ length-map (limited ops r rows) (adverse_sample ops)))
      ]
