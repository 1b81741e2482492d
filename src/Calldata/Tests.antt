-- ===== src/Calldata/Tests.antt =====
-- An arbitrage of one WETH for 2000 USDC and back.
use flash_loan.Prelude.{◌≡◌, refl, none, codes, lower, arith}
use flash_loan.Prelude.Succeeds.{Succeeds}
use flash_loan.Calldata.{ArbitrageCandidate, swap_router_02, build_uniswap_v3_steps}
use flash_loan.Calldata.Steps.{AreSwaps, build_uniswap_v3_steps-AreSwaps}

abbrev candidate : ArbitrageCandidate
candidate = record {
  base_asset = codes "0x82aF49447D8a07e3bd95BD0d56f35241523fBab1";
  quote_asset = codes "0xaf88d065e77c8cC2239327C5EDb3A432268e5831";
  fee1 = 500;
  fee2 = 3000;
  loan_amount_raw = 1000000000000000000;
  flash_fee_raw = 500000000000000;
  min_profit_raw = 1000000000000000;
  hop1_expected_out_raw = 2000000000;
  hop2_expected_out_raw = 1002000000000000000;
}

-- A router that is not the canonical one is refused.
refused_run : build_uniswap_v3_steps candidate (codes "0x00") 20 ≡ none
unfolding build_uniswap_v3_steps
refused_run = refl

build_uniswap_v3_steps-AreSwaps_example :
    Succeeds
      (AreSwaps candidate (lower swap_router_02) 20)
      (build_uniswap_v3_steps candidate (lower swap_router_02) 20)
build_uniswap_v3_steps-AreSwaps_example =
    build_uniswap_v3_steps-AreSwaps candidate (lower swap_router_02) 20 (omega arith) refl
      (omega arith) (omega arith) (omega arith) (omega arith) (omega arith)
