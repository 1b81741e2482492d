-- ===== src/Calldata.antt =====
-- zero/calldata.py: the calls of the two-leg arbitrage on the fork. Raw amounts, fees and the slippage
-- are natural numbers, so the code's guards against negative ones are not reached.
pub mod Layout
pub mod Steps
mod Tests
use flash_loan.Prelude.{
  ℕ, ◌+◌, ◌-◌, ◌*◌, ◌/◌, ◌^◌, Bool, true, false, ◌&&◌, not, Option, none, some, List, [], ◌∷◌, ◌++◌,
  Text, codes, lower, text_eq, ltb, leb, if◌then◌else◌,
}
use flash_loan.Keccak.{selector_hex}
use flash_loan.Rpc.{encode_uint, encode_address, add_word}

abbrev pub swap_router_02 : Text
swap_router_02 = codes "0x68b3465833fb72A70ecDF485E0e4C7bD8665Fc45"

abbrev pub msg_sender : Text
msg_sender = codes "0x0000000000000000000000000000000000000001"

abbrev pub address_this : Text
address_this = codes "0x0000000000000000000000000000000000000002"

abbrev pub exact_input_single_signature : Text
exact_input_single_signature =
    codes "exactInputSingle((address,address,uint24,address,uint256,uint256,uint160))"

abbrev pub exact_input_single_deadline_signature : Text
exact_input_single_deadline_signature =
    codes "exactInputSingle((address,address,uint24,address,uint256,uint256,uint256,uint160))"

pub record ExecutionStep : Type 0 where
  pub target : Text
  pub value : ℕ
  pub call_data : Text

-- `"".join(word.removeprefix("0x") for word in words)`; `none` is the exception of a word.
unfoldable pub join_tail : List (Option Text) → Option Text
join_tail [] = some []
join_tail (w ∷ ws) = add_word w (join_tail ws)

abbrev pub joined : Option Text → Option Text → Option Text
joined none t = none
joined (some s) none = none
joined (some s) (some t) = some (s ++ t)

-- `_join_words`
unfoldable pub join_words : Text → List (Option Text) → Option Text
join_words signature words = joined (selector_hex signature) (join_tail words)

abbrev pub address_word : Text → Option Text
address_word a = some (encode_address a)

-- The signature and the extra word of a deadline.
abbrev pub swap_signature : Option ℕ → Text
swap_signature none = exact_input_single_signature
swap_signature (some deadline) = exact_input_single_deadline_signature

abbrev pub deadline_words : Option ℕ → List (Option Text)
deadline_words none = []
deadline_words (some deadline) = encode_uint deadline ∷ []

-- `_exact_input_single`
unfoldable pub exact_input_single : Text → Text → ℕ → Text → ℕ → ℕ → Option ℕ → Option Text
exact_input_single token_in token_out fee recipient amount_in amount_out_minimum deadline =
    if not (ltb fee (2 ^ 24))
    then none
    else join_words (swap_signature deadline) (
        (address_word token_in
          ∷ address_word token_out
          ∷ encode_uint fee
          ∷ address_word recipient
          ∷ [])
        ++ deadline_words deadline
        ++ (encode_uint amount_in ∷ encode_uint amount_out_minimum ∷ encode_uint 0 ∷ []))

-- The fields of `ArbitrageCandidate` that are read here.
pub record ArbitrageCandidate : Type 0 where
  pub base_asset : Text
  pub quote_asset : Text
  pub fee1 : ℕ
  pub fee2 : ℕ
  pub loan_amount_raw : ℕ
  pub flash_fee_raw : ℕ
  pub min_profit_raw : ℕ
  pub hop1_expected_out_raw : ℕ
  pub hop2_expected_out_raw : ℕ

abbrev pub first_min : ArbitrageCandidate → ℕ → ℕ
first_min c slippage_bps = c.hop1_expected_out_raw * (10000 - slippage_bps) / 10000

abbrev pub required_final : ArbitrageCandidate → ℕ
required_final c = c.loan_amount_raw + c.flash_fee_raw + c.min_profit_raw

abbrev pub approve_call : ArbitrageCandidate → Text → Option Text
approve_call c router =
    join_words (codes "approve(address,uint256)")
      (address_word router ∷ encode_uint c.loan_amount_raw ∷ [])

abbrev pub leg1_call : ArbitrageCandidate → ℕ → Option Text
leg1_call c slippage_bps =
    exact_input_single c.base_asset c.quote_asset c.fee1 address_this c.loan_amount_raw
      (first_min c slippage_bps) none

abbrev pub leg2_call : ArbitrageCandidate → Option Text
leg2_call c =
    exact_input_single c.quote_asset c.base_asset c.fee2 msg_sender 0 (required_final c) none

-- The three steps, from their data.
abbrev pub steps_of :
    Text → Text → Option Text → Option Text → Option Text → Option (List ExecutionStep)
steps_of base router none leg1 leg2 = none
steps_of base router (some approve) none leg2 = none
steps_of base router (some approve) (some leg1) none = none
steps_of base router (some approve) (some leg1) (some leg2) = some (
    record { target = base; value = 0; call_data = approve }
    ∷ record { target = router; value = 0; call_data = leg1 }
    ∷ record { target = router; value = 0; call_data = leg2 }
    ∷ [])

-- `build_uniswap_v3_steps`; `none` is an exception.
unfoldable pub build_uniswap_v3_steps : ArbitrageCandidate → Text → ℕ → Option (List ExecutionStep)
build_uniswap_v3_steps c router slippage_bps =
    if not (leb slippage_bps 10000)
    then none
    else if not (text_eq (lower router) (lower swap_router_02))
    then none
    else if ltb c.hop2_expected_out_raw (required_final c)
    then none
    else steps_of c.base_asset router (approve_call c router) (leg1_call c slippage_bps)
        (leg2_call c)
