-- ===== src/Liquidation/Encoding.antt =====
-- What the calls of zero/liquidation_calldata.py do, read back from their data.
use flash_loan.Prelude.{
  ℕ, ◌-◌, ◌*◌, ◌^◌, ◌≤◌, ◌<◌, ◌≡◌, ◌⊎◌, ◌||◌, ◌+◌, ◌/◌, max, refl, ap, sym, subst, ◌∙◌, Bool, true,
  false, not, Option, none, some, List, [], ◌∷◌, Text, codes, lower, text_eq, ltb, leb, inl, inr,
  arith,
}
use flash_loan.Prelude.Results.{ok, error, Outcome, >>=-Outcome, if-Outcome}
use flash_loan.Prelude.Sort.{All}
use flash_loan.Prelude.Succeeds.{Succeeds, Succeeds-imp}
use flash_loan.Rpc.Words.{IsWord}
use native.Mathlib.Nat.{mul-le-mul_left}
use flash_loan.Calldata.{ExecutionStep, swap_router_02, msg_sender}
use flash_loan.Calldata.Layout.{
  address, uint, Asks, approve_id, swap_id, swap_deadline_id, swap_args, swap_deadline_args,
  approve-Asks, exact_input_single-Asks, exact_input_deadline-Asks,
}
use flash_loan.Liquidation.Calls.{
  UnwindLeg, LiquidationPayload, CalldataError, wrong_kind, not_executable, wrong_router,
  slippage_outside, not_one_leg, venue_not_capable, cannot_cover, no_encoding, is_kind, or_not,
  venue_router, sushi_v3_router, required_final, min_swap_out, approve, liquidation_call, swap_call,
  encoded, step, steps_through, steps_for, build_liquidation_steps,
}
use flash_loan.Liquidation.Swaps.{
  liquidation_id, liquidation_args, liquidation_call-Asks, encoded-Outcome,
}

both_false : (a b : Bool) → a ≡ false → b ≡ false → (a || b) ≡ false
both_false a b h k = ground arith

false_of_not : (b : Bool) → not b ≡ true → b ≡ false
false_of_not true h = absurd (cc)
false_of_not false h = refl

module _ (c : LiquidationPayload) (aave_pool router : Text) (slippage_bps : ℕ) where
  -- A single leg through a venue whose router is known.
  abbrev pub capable : List UnwindLeg → Bool
  capable [] = false
  capable (leg ∷ []) =
      text_eq leg.venue_id (codes "uniswap_v3") || text_eq leg.venue_id (codes "sushi_v3")
  capable (leg ∷ l ∷ legs) = false

  -- The cause of an error. No amount fails to fit.
  abbrev pub Blames : CalldataError → Type 0
  Blames wrong_kind = is_kind c.route_kind ≡ false
  Blames not_executable = or_not c.executable ≡ false
  Blames wrong_router = text_eq (lower router) (lower swap_router_02) ≡ false
  Blames slippage_outside = leb slippage_bps 10000 ≡ false
  Blames not_one_leg = capable c.legs ≡ false
  Blames venue_not_capable = capable c.legs ≡ false
  Blames cannot_cover = c.unwind_out_raw < required_final c
  Blames no_encoding = ⊥

  -- The least amount out of the swap.
  abbrev pub Least : ℕ → Type 0
  Least least =
      least
      ≡ max (c.debt_to_cover_raw + c.flash_fee_raw + c.min_profit_raw)
          (c.unwind_out_raw * (10000 - slippage_bps) / 10000)

  -- The swap of all the collateral for the debt, to the sender: through the given router and without
  -- a deadline for Uniswap, through Sushi's and with a deadline far away for Sushi.
  abbrev pub Swaps : UnwindLeg → ℕ → ExecutionStep → Type 0
  Swaps leg least s =
      ((text_eq leg.venue_id (codes "uniswap_v3") ≡ true)
        × (s.target ≡ router)
        × Asks swap_id
            (swap_args c.collateral_asset c.base_asset leg.fee_tier msg_sender
              c.collateral_received_raw least)
            s.call_data)
      ⊎ ((text_eq leg.venue_id (codes "sushi_v3") ≡ true)
          × (s.target ≡ sushi_v3_router)
          × Asks swap_deadline_id
              (swap_deadline_args c.collateral_asset c.base_asset leg.fee_tier msg_sender (2 ^ 128)
                c.collateral_received_raw least)
              s.call_data)

  -- The calls, each of no value: the debt is approved for the pool, the account liquidated for it,
  -- the collateral approved for the router of the swap, and all of it swapped.
  abbrev pub Liquidates : List UnwindLeg → List ExecutionStep → Type 0
  Liquidates (leg ∷ []) (s ∷ t ∷ u ∷ v ∷ []) =
      (s.target ≡ c.base_asset)
      × (t.target ≡ aave_pool)
      × (u.target ≡ c.collateral_asset)
      × Asks approve_id (address aave_pool ∷ uint c.debt_to_cover_raw ∷ []) s.call_data
      × Asks liquidation_id (liquidation_args c) t.call_data
      × Asks approve_id (address v.target ∷ uint c.collateral_received_raw ∷ []) u.call_data
      × ((least : ℕ) × Least least × Swaps leg least v)
      × ((s.value ≡ 0) × (t.value ≡ 0) × (u.value ≡ 0) × (v.value ≡ 0))
  Liquidates legs steps = ⊥

  module _ (unwind_fits : IsWord c.unwind_out_raw)
      (received_fits : IsWord c.collateral_received_raw) where
    least_le : required_final c ≤ c.unwind_out_raw → min_swap_out c slippage_bps ≤ c.unwind_out_raw
    least_le h =
        let part : c.unwind_out_raw * (10000 - slippage_bps) ≤ c.unwind_out_raw * 10000 =
          mul-le-mul_left c.unwind_out_raw (omega arith) in
        omega (arith, part, h)

    -- The router and the deadline of the venue of a leg.
    abbrev Known : UnwindLeg → Text × Option ℕ → Type 0
    Known leg r =
        ((text_eq leg.venue_id (codes "uniswap_v3") ≡ true) × (r ≡ (router, none)))
        ⊎ ((text_eq leg.venue_id (codes "sushi_v3") ≡ true)
            × (r ≡ (sushi_v3_router, some (2 ^ 128))))

    swap_call-Swaps :
        (leg : UnwindLeg) (r : Text × Option ℕ)
        → leg.fee_tier < 2 ^ 24
        → Known leg r
        → required_final c ≤ c.unwind_out_raw
        → Succeeds
            (λ t. Swaps leg (min_swap_out c slippage_bps) (step r.0 t))
            (swap_call c leg.fee_tier r.1 slippage_bps)
    swap_call-Swaps leg r small (inl (venue, e)) covers =
        subst
          (λ (z : Text × Option ℕ).
            Succeeds (λ t. Swaps leg (min_swap_out c slippage_bps) (step z.0 t))
              (swap_call c leg.fee_tier z.1 slippage_bps))
          (sym e)
          (Succeeds-imp _ (λ t. Swaps leg (min_swap_out c slippage_bps) (step router t)) _
            (exact_input_single-Asks c.collateral_asset c.base_asset leg.fee_tier msg_sender
              c.collateral_received_raw (min_swap_out c slippage_bps) small received_fits
              (omega (arith, least_le covers, unwind_fits)))
            (λ t h. inl (venue, refl, h)))
    swap_call-Swaps leg r small (inr (venue, e)) covers =
        subst
          (λ (z : Text × Option ℕ).
            Succeeds (λ t. Swaps leg (min_swap_out c slippage_bps) (step z.0 t))
              (swap_call c leg.fee_tier z.1 slippage_bps))
          (sym e)
          (Succeeds-imp _ (λ t. Swaps leg (min_swap_out c slippage_bps) (step sushi_v3_router t)) _
            (exact_input_deadline-Asks c.collateral_asset c.base_asset leg.fee_tier msg_sender
              c.collateral_received_raw (min_swap_out c slippage_bps) small received_fits
              (omega (arith, least_le covers, unwind_fits)) (2 ^ 128) (omega arith))
            (λ t h. inr (venue, refl, h)))

    steps_through-Liquidates :
        (leg : UnwindLeg) (r : Text × Option ℕ)
        → leg.fee_tier < 2 ^ 24
        → Known leg r
        → Outcome Blames (Liquidates (leg ∷ [])) (steps_through c aave_pool slippage_bps leg r)
    unfolding steps_through
    steps_through-Liquidates leg (swap_router, deadline) small known =
        let L = Liquidates (leg ∷ []) in
        if-Outcome Blames L (ltb c.unwind_out_raw (required_final c)) (error cannot_cover) _
          (λ short. ground (arith, short))
          (λ covers.
            let enough : required_final c ≤ c.unwind_out_raw = ground (arith, covers) in
            let cover_fits : IsWord c.debt_to_cover_raw = omega (arith, enough, unwind_fits) in
            >>=-Outcome Blames _ L (encoded (approve aave_pool c.debt_to_cover_raw)) _
              (encoded-Outcome Blames _ (approve aave_pool c.debt_to_cover_raw)
                (approve-Asks aave_pool c.debt_to_cover_raw cover_fits))
              (λ approve_debt ha.
                >>=-Outcome Blames _ L (encoded (liquidation_call c)) _
                  (encoded-Outcome Blames _ (liquidation_call c)
                    (liquidation_call-Asks c cover_fits))
                  (λ liquidation hl.
                    >>=-Outcome Blames _ L (encoded (approve swap_router c.collateral_received_raw))
                      _
                      (encoded-Outcome Blames _ (approve swap_router c.collateral_received_raw)
                        (approve-Asks swap_router c.collateral_received_raw received_fits))
                      (λ approve_collateral hc.
                        >>=-Outcome Blames _ L
                          (encoded (swap_call c leg.fee_tier deadline slippage_bps)) _
                          (encoded-Outcome Blames _ (swap_call c leg.fee_tier deadline slippage_bps)
                            (swap_call-Swaps leg (swap_router, deadline) small known enough))
                          (λ swap hs. (
                            refl,
                            refl,
                            refl,
                            ha,
                            hl,
                            hc,
                            (min_swap_out c slippage_bps, refl, hs),
                            (refl, refl, refl, refl),
                          ))))))

    -- All fees fit 24 bits.
    abbrev pub FeesFit : List UnwindLeg → Type 0
    FeesFit legs = All (λ (leg : UnwindLeg). leg.fee_tier < 2 ^ 24) legs

    venue_router-Known :
        (leg : UnwindLeg)
        → c.legs ≡ leg ∷ []
        → Outcome Blames (Known leg) (venue_router router leg.venue_id)
    venue_router-Known leg e =
        if-Outcome Blames (Known leg) (text_eq leg.venue_id (codes "uniswap_v3"))
          (ok (router, none)) _ (λ uniswap. inl (uniswap, refl))
          (λ other.
            if-Outcome Blames (Known leg) (text_eq leg.venue_id (codes "sushi_v3"))
              (ok (sushi_v3_router, some (2 ^ 128))) _ (λ sushi. inr (sushi, refl))
              (λ neither.
                ap capable e
                ∙ both_false (text_eq leg.venue_id (codes "uniswap_v3"))
                    (text_eq leg.venue_id (codes "sushi_v3")) other neither))

    steps_for-Liquidates :
        (legs : List UnwindLeg)
        → c.legs ≡ legs
        → FeesFit legs
        → Outcome Blames (Liquidates legs) (steps_for c aave_pool router slippage_bps legs)
    steps_for-Liquidates [] e h = ap capable e
    steps_for-Liquidates (leg ∷ []) e h =
        >>=-Outcome Blames (Known leg) (Liquidates (leg ∷ [])) (venue_router router leg.venue_id) _
          (venue_router-Known leg e) (λ r known. steps_through-Liquidates leg r h.0 known)
    steps_for-Liquidates (leg ∷ l ∷ legs) e h = ap capable e

    -- When the amount out and the collateral fit a word and the fees 24 bits, each exception of the
    -- encoder has its cause in the candidate, the router or the slippage. Otherwise there are four
    -- calls of no value whose data read back as: approve the debt for the pool, liquidate the borrower
    -- for it, approve the collateral for the router of the leg's venue, and swap all of it there, to
    -- the sender, for no less than the debt, the fee and the least profit and than the slippage allows.
    pub build_liquidation_steps-Liquidates :
        FeesFit c.legs
        → Outcome Blames
            (Liquidates c.legs)
            (build_liquidation_steps c aave_pool router slippage_bps)
    unfolding build_liquidation_steps
    build_liquidation_steps-Liquidates h =
        if-Outcome Blames (Liquidates c.legs) (not (is_kind c.route_kind)) (error wrong_kind) _
          (λ bad. ground (arith, bad))
          (λ _.
            if-Outcome Blames (Liquidates c.legs) (not (or_not c.executable)) (error not_executable)
              _ (λ bad. ground (arith, bad))
              (λ _.
                if-Outcome Blames (Liquidates c.legs)
                  (not (text_eq (lower router) (lower swap_router_02))) (error wrong_router) _
                  (λ bad. false_of_not (text_eq (lower router) (lower swap_router_02)) bad)
                  (λ _.
                    if-Outcome Blames (Liquidates c.legs) (not (leb slippage_bps 10000))
                      (error slippage_outside) _ (λ bad. false_of_not (leb slippage_bps 10000) bad)
                      (λ _. steps_for-Liquidates c.legs refl h))))
