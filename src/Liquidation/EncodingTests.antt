-- ===== src/Liquidation/EncodingTests.antt =====
-- The calls of a liquidation through either router.
use flash_loan.Prelude.{◌≡◌, refl, true, some, List, [], ◌∷◌, Text, codes, arith}
use flash_loan.Prelude.Results.{error, Outcome}
use flash_loan.Calldata.{swap_router_02}
use flash_loan.Liquidation.Calls.{
  UnwindLeg, LiquidationPayload, not_one_leg, build_liquidation_steps,
}
use flash_loan.Liquidation.Encoding.{Blames, Liquidates, build_liquidation_steps-Liquidates}

abbrev leg : UnwindLeg
leg = record { venue_id = codes "sushi_v3"; fee_tier = 500 }

abbrev payload : List UnwindLeg → LiquidationPayload
payload legs = record {
  route_kind = some (codes "liquidation_exact");
  executable = some true;
  legs = legs;
  base_asset = codes "0xaf88d065e77c8cC2239327C5EDb3A432268e5831";
  collateral_asset = codes "0x82aF49447D8a07e3bd95BD0d56f35241523fBab1";
  borrower = codes "0x00000000000000000000000000000000000000b0";
  debt_to_cover_raw = 100;
  collateral_received_raw = 51;
  flash_fee_raw = 1;
  min_profit_raw = 4;
  unwind_out_raw = 112;
}

abbrev aave_pool : Text
aave_pool = codes "0x794a61358D6845594F94dc1DB02A252b5b4814aD"

two_legs_run :
    build_liquidation_steps (payload (leg ∷ leg ∷ [])) aave_pool swap_router_02 20
    ≡ error not_one_leg
unfolding build_liquidation_steps
two_legs_run = refl

build_liquidation_steps-Liquidates_example :
    Outcome
      (Blames (payload (leg ∷ [])) aave_pool swap_router_02 20)
      (Liquidates (payload (leg ∷ [])) aave_pool swap_router_02 20 (leg ∷ []))
      (build_liquidation_steps (payload (leg ∷ [])) aave_pool swap_router_02 20)
build_liquidation_steps-Liquidates_example =
    build_liquidation_steps-Liquidates (payload (leg ∷ [])) aave_pool swap_router_02 20
      (omega arith) (omega arith) (omega arith, tt)
