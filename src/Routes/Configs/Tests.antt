-- ===== src/Routes/Configs/Tests.antt =====
-- The configurations of a pair in the graph of the triangle.
use flash_loan.Prelude.{◌≡◌, refl, none, some, [], ◌∷◌, Text, codes, length}
use flash_loan.Prelude.Int.{pos}
use flash_loan.Prelude.Dict
use flash_loan.Prelude.Dict.{Dict}
use flash_loan.Prelude.Sort
use flash_loan.Float.{whole_floats}
use flash_loan.Swarm.Allocator.{text_lt}
use flash_loan.Routes.{make_leg, make_route, contiguous, ends_at, no_repeats, join, decimal}
use flash_loan.Routes.Graph.{
  graph_of, add_pools, add_pool, append_leg, sort_edges, walk, visit_legs, visit_leg, add_route,
  pick, enumerate_cycles,
}
use flash_loan.Routes.Tests.{id_text, pools, pools-IsPair}
use flash_loan.Prelude.Succeeds.{Succeeds}
use flash_loan.Routes.Configs.{
  TokenInfo, configs_between, configs_from, gather, build_multihop_route_configs,
}
use flash_loan.Routes.Configs.Limits.{AreConfigs, build_multihop_route_configs-AreConfigs}

abbrev token : Text → TokenInfo whole_floats id_text
token address = record { address = address; decimals = 18; price_usd = pos 1 }

abbrev tokens : Dict Text (TokenInfo whole_floats id_text)
tokens = (codes "WETH", token (codes "A")) ∷ (codes "USDC", token (codes "C")) ∷ []

-- Four of the six cycles have three legs; all pass through c, and at most three are asked for.
configs_run :
    elim (build_multihop_route_configs whole_floats id_text 1
      (codes "WETH", codes "USDC")
      tokens
      pools
      7
      3) [ none ↦ none | some rows ↦ some (length rows) ]
    ≡ some 3
unfolding build_multihop_route_configs configs_from configs_between gather graph_of add_pools
    add_pool append_leg sort_edges walk visit_legs visit_leg add_route pick enumerate_cycles
    make_leg make_route contiguous ends_at no_repeats join decimal Dict.contains Dict.lookup
    Dict.insert Sort.sort text_lt
configs_run = refl

build_multihop_route_configs-AreConfigs_example : Succeeds (AreConfigs whole_floats id_text 3) (
    build_multihop_route_configs whole_floats id_text 1
      (codes "WETH", codes "USDC")
      tokens
      pools
      7
      3)
build_multihop_route_configs-AreConfigs_example =
    build_multihop_route_configs-AreConfigs whole_floats id_text 1 (codes "WETH", codes "USDC")
      tokens pools 7 3 pools-IsPair
