-- ===== src/Calldata/Steps.antt =====
-- What the built steps ask the router for.
use native.Mathlib.Nat.{mul-le-mul_left}
use flash_loan.Prelude.{
  ℕ, ◌+◌, ◌-◌, ◌*◌, ◌/◌, ◌^◌, ◌<◌, ◌≤◌, ◌≡◌, refl, true, false, Option, none, some, List, [], ◌∷◌,
  Text, lower, text_eq, text_eq_iff, ltb, leb, arith,
}
use flash_loan.Prelude.Succeeds.{Succeeds}
use flash_loan.Rpc.Words.{IsWord}
use flash_loan.Calldata.{
  swap_router_02, msg_sender, address_this, ExecutionStep, ArbitrageCandidate, first_min,
  required_final, approve_call, leg1_call, leg2_call, steps_of, build_uniswap_v3_steps,
}
use flash_loan.Calldata.Layout.{
  address, uint, Asks, approve_id, swap_id, swap_args, approve-Asks, exact_input_single-Asks,
}

-- The least amount out of the first leg is no more than what is expected of it.
first_min_le : (c : ArbitrageCandidate) (s : ℕ) → first_min c s ≤ c.hop1_expected_out_raw
first_min_le c s =
    let part : c.hop1_expected_out_raw * (10000 - s) ≤ c.hop1_expected_out_raw * 10000 =
      mul-le-mul_left c.hop1_expected_out_raw (omega arith) in
    omega (arith, part)

-- The calls, each of no value: the base asset approves the loan for the router, the router swaps the
-- whole loan for the quote asset through the pool of the first fee, for no less than the slippage
-- allows and into its own balance, and it swaps that balance (the amount zero) back through the pool
-- of the second fee, to the sender and for no less than the loan, its fee and the least profit.
abbrev pub AreSwaps : ArbitrageCandidate → Text → ℕ → List ExecutionStep → Type 0
AreSwaps c router slippage_bps [] = ⊥
AreSwaps c router slippage_bps (s ∷ []) = ⊥
AreSwaps c router slippage_bps (s ∷ t ∷ []) = ⊥
AreSwaps c router slippage_bps (s ∷ t ∷ u ∷ []) =
    (s.target ≡ c.base_asset)
    × (t.target ≡ router)
    × (u.target ≡ router)
    × (s.value ≡ 0)
    × (t.value ≡ 0)
    × (u.value ≡ 0)
    × Asks approve_id (address router ∷ uint c.loan_amount_raw ∷ []) s.call_data
    × Asks swap_id
        (swap_args c.base_asset c.quote_asset c.fee1 address_this c.loan_amount_raw
          (c.hop1_expected_out_raw * (10000 - slippage_bps) / 10000))
        t.call_data
    × Asks swap_id
        (swap_args c.quote_asset c.base_asset c.fee2 msg_sender 0
          (c.loan_amount_raw + c.flash_fee_raw + c.min_profit_raw))
        u.call_data
AreSwaps c router slippage_bps (s ∷ t ∷ u ∷ v ∷ rest) = ⊥

steps_of-AreSwaps :
    (c : ArbitrageCandidate) (router : Text) (slippage_bps : ℕ) (a l m : Option Text)
    → Succeeds (Asks approve_id (address router ∷ uint c.loan_amount_raw ∷ [])) a
    → Succeeds
        (Asks swap_id (
          swap_args c.base_asset c.quote_asset c.fee1 address_this c.loan_amount_raw
            (first_min c slippage_bps)))
        l
    → Succeeds
        (Asks swap_id (swap_args c.quote_asset c.base_asset c.fee2 msg_sender 0 (required_final c)))
        m
    → Succeeds (AreSwaps c router slippage_bps) (steps_of c.base_asset router a l m)
steps_of-AreSwaps c router s none l m ha hl hm = ha
steps_of-AreSwaps c router s (some a) none m ha hl hm = hl
steps_of-AreSwaps c router s (some a) (some l) none ha hl hm = hm
steps_of-AreSwaps c router s (some a) (some l) (some m) ha hl hm =
    (refl, refl, refl, refl, refl, refl, ha, hl, hm)

-- For the canonical router, a slippage of at most 100%, fees that fit 24 bits and amounts that fit a
-- word, if the second leg is expected to give the loan, its fee and the least profit, then the steps are
-- built: three calls of no value, whose data read back as the approval of the loan for the router, the
-- swap of the loan into the router's own balance for no less than the slippage allows, and the swap of
-- that balance to the sender for no less than the loan, its fee and the least profit.
pub build_uniswap_v3_steps-AreSwaps :
    (c : ArbitrageCandidate) (router : Text) (slippage_bps : ℕ)
    → slippage_bps ≤ 10000
    → lower router ≡ lower swap_router_02
    → required_final c ≤ c.hop2_expected_out_raw
    → c.fee1 < 2 ^ 24
    → c.fee2 < 2 ^ 24
    → IsWord c.hop1_expected_out_raw
    → IsWord c.hop2_expected_out_raw
    → Succeeds (AreSwaps c router slippage_bps) (build_uniswap_v3_steps c router slippage_bps)
unfolding build_uniswap_v3_steps
build_uniswap_v3_steps-AreSwaps c router s slippage canonical covered fee1 fee2 h1 h2 =
    let slippage_ok : leb s 10000 ≡ true = ground arith in
    let router_ok : text_eq (lower router) (lower swap_router_02) ≡ true =
      (text_eq_iff (lower router) (lower swap_router_02)).1 canonical in
    let covers : ltb c.hop2_expected_out_raw (required_final c) ≡ false = ground arith in
    rw (slippage_ok, router_ok, covers)
      (steps_of-AreSwaps c router s (approve_call c router) (leg1_call c s) (leg2_call c)
        (approve-Asks router c.loan_amount_raw (omega arith))
        (exact_input_single-Asks c.base_asset c.quote_asset c.fee1 address_this c.loan_amount_raw
          (first_min c s) fee1 (omega arith) (omega (arith, first_min_le c s)))
        (exact_input_single-Asks c.quote_asset c.base_asset c.fee2 msg_sender 0 (required_final c)
          fee2 (omega arith) (omega arith)))
