-- ===== src/Liquidation/Calls.antt =====
-- `build_liquidation_steps` of zero/liquidation_calldata.py: the calls that carry out a liquidation.
use flash_loan.Prelude.{
  ℕ, ◌+◌, ◌-◌, ◌*◌, ◌/◌, ◌^◌, max, Bool, false, not, Option, none, some, List, [], ◌∷◌, Text, codes,
  lower, text_eq, ltb, leb, if◌then◌else◌,
}
use flash_loan.Prelude.Results.{Result, ok, error, ◌>>=◌}
use flash_loan.Rpc.{encode_uint}
use flash_loan.Calldata.{
  ExecutionStep, swap_router_02, msg_sender, join_words, address_word, exact_input_single,
}

abbrev pub sushi_v3_router : Text
sushi_v3_router = codes "0x8A21F6768C1f8075791D08546Dadf6daA0bE820c"

pub record UnwindLeg : Type 0 where
  pub venue_id : Text
  pub fee_tier : ℕ

-- The keys of the candidate that are read here.
pub record LiquidationPayload : Type 0 where
  pub route_kind : Option Text
  pub executable : Option Bool
  pub legs : List UnwindLeg
  pub base_asset : Text
  pub collateral_asset : Text
  pub borrower : Text
  pub debt_to_cover_raw : ℕ
  pub collateral_received_raw : ℕ
  pub flash_fee_raw : ℕ
  pub min_profit_raw : ℕ
  pub unwind_out_raw : ℕ

-- The `ValueError`s in the order of the code, and an amount that does not fit its word.
pub data CalldataError : Type 0 where
  wrong_kind not_executable wrong_router slippage_outside not_one_leg venue_not_capable cannot_cover
        no_encoding :
      CalldataError

abbrev pub is_kind : Option Text → Bool
is_kind none = false
is_kind (some kind) = text_eq kind (codes "liquidation_exact")

abbrev pub or_not : Option Bool → Bool
or_not none = false
or_not (some b) = b

-- The router and the deadline of a venue.
abbrev pub venue_router : Text → Text → Result CalldataError (Text × Option ℕ)
venue_router router venue_id =
    if text_eq venue_id (codes "uniswap_v3")
    then ok (router, none)
    else if text_eq venue_id (codes "sushi_v3")
    then ok (sushi_v3_router, some (2 ^ 128))
    else error venue_not_capable

abbrev pub required_final : LiquidationPayload → ℕ
required_final c = c.debt_to_cover_raw + c.flash_fee_raw + c.min_profit_raw

abbrev pub min_swap_out : LiquidationPayload → ℕ → ℕ
min_swap_out c slippage_bps =
    max (required_final c) (c.unwind_out_raw * (10000 - slippage_bps) / 10000)

abbrev pub approve : Text → ℕ → Option Text
approve spender amount =
    join_words (codes "approve(address,uint256)") (address_word spender ∷ encode_uint amount ∷ [])

abbrev pub liquidation_call : LiquidationPayload → Option Text
liquidation_call c = join_words (codes "liquidationCall(address,address,address,uint256,bool)") (
    address_word c.collateral_asset
    ∷ address_word c.base_asset
    ∷ address_word c.borrower
    ∷ encode_uint c.debt_to_cover_raw
    ∷ encode_uint 0
    ∷ [])

abbrev pub swap_call : LiquidationPayload → ℕ → Option ℕ → ℕ → Option Text
swap_call c fee deadline slippage_bps =
    exact_input_single c.collateral_asset c.base_asset fee msg_sender c.collateral_received_raw
      (min_swap_out c slippage_bps) deadline

-- The data of a step, or the exception of an amount that does not fit.
abbrev pub encoded : Option Text → Result CalldataError Text
encoded none = error no_encoding
encoded (some t) = ok t

abbrev pub step : Text → Text → ExecutionStep
step target call_data = record { target = target; value = 0; call_data = call_data }

-- The four steps, from the router and the deadline.
unfoldable pub steps_through :
    LiquidationPayload
    → Text
    → ℕ
    → UnwindLeg
    → Text × Option ℕ
    → Result CalldataError (List ExecutionStep)
steps_through c aave_pool slippage_bps leg (swap_router, deadline) =
    if ltb c.unwind_out_raw (required_final c)
    then error cannot_cover
    else encoded (approve aave_pool c.debt_to_cover_raw) >>= λ approve_debt.
        encoded (liquidation_call c) >>= λ liquidation.
        encoded (approve swap_router c.collateral_received_raw) >>= λ approve_collateral.
        encoded (swap_call c leg.fee_tier deadline slippage_bps) >>= λ swap. ok (
          step c.base_asset approve_debt
          ∷ step aave_pool liquidation
          ∷ step c.collateral_asset approve_collateral
          ∷ step swap_router swap
          ∷ [])

-- From the legs of the candidate.
abbrev pub steps_for :
    LiquidationPayload
    → Text
    → Text
    → ℕ
    → List UnwindLeg
    → Result CalldataError (List ExecutionStep)
steps_for c aave_pool router slippage_bps [] = error not_one_leg
steps_for c aave_pool router slippage_bps (leg ∷ []) =
    venue_router router leg.venue_id >>= steps_through c aave_pool slippage_bps leg
steps_for c aave_pool router slippage_bps (leg ∷ l ∷ legs) = error not_one_leg

unfoldable pub build_liquidation_steps :
    LiquidationPayload → Text → Text → ℕ → Result CalldataError (List ExecutionStep)
unfolding steps_through
build_liquidation_steps c aave_pool router slippage_bps =
    if not (is_kind c.route_kind)
    then error wrong_kind
    else if not (or_not c.executable)
    then error not_executable
    else if not (text_eq (lower router) (lower swap_router_02))
    then error wrong_router
    else if not (leb slippage_bps 10000)
    then error slippage_outside
    else steps_for c aave_pool router slippage_bps c.legs
