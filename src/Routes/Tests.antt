-- ===== src/Routes/Tests.antt =====
-- A triangle of pools and a second pool between two of its tokens: runs, and each theorem at it. Ids
-- are the canonical texts themselves.
use flash_loan.Prelude.{
  ℕ, ◌≡◌, refl, true, Option, none, some, List, [], ◌∷◌, map, Text, codes, Eq_text, inl, inr, arith,
  length,
}
use flash_loan.Prelude.Dict
use flash_loan.Prelude.Dict.{contains, lookup, insert, keys, Distinct}
use flash_loan.Prelude.Sort
use flash_loan.Prelude.Sort.{All, sort}
use flash_loan.Swarm.Allocator.{text_lt}
use flash_loan.Routes.{
  PoolRef, RouteLeg, make_leg, make_route, route_id, contiguous, ends_at, no_repeats, join, decimal,
}
use flash_loan.Routes.Paths.{IsCycle}
use flash_loan.Prelude.Succeeds.{Succeeds}
use flash_loan.Routes.Edges.{IsPair, IsKeyed}
use flash_loan.Routes.Crossings.{Crosses, graph_of-Crosses}
use flash_loan.Routes.Soundness.{IsRoute}
use flash_loan.Routes.Completeness.{cycle_route}
use flash_loan.Routes.Search.{search-IsRoute, search_complete}
use flash_loan.Routes.Graph.{
  RouteGraph, graph_of, add_pools, add_pool, append_leg, sort_edges, walk, visit_legs, visit_leg,
  add_route, pick, enumerate_cycles,
}

abbrev pub pool : Text → Text → Text → PoolRef
pool address token0 token1 = record {
  venue_id = codes "v";
  address = address;
  token0 = token0;
  token1 = token1;
  fee_tier = some 500;
  pool_kind = codes "k";
}

abbrev pub pools : List PoolRef
pools =
    pool (codes "1") (codes "A") (codes "b")
    ∷ pool (codes "2") (codes "b") (codes "c")
    ∷ pool (codes "3") (codes "c") (codes "a")
    ∷ pool (codes "4") (codes "a") (codes "b")
    ∷ []

abbrev pub id_text : Text → Text
id_text s = s

decimal_run : decimal 42161 ≡ codes "42161"
unfolding decimal
decimal_run = refl

abbrev found_ids : Option (RouteGraph id_text) → ℕ → Option ℕ
found_ids none n = none
found_ids (some g) n = elim (enumerate_cycles id_text g (codes "A") n) [
  | none ↦ none
  | some rs ↦ some (length rs)
]

cycles_run : found_ids (graph_of id_text 1 pools) 3 ≡ some 6
unfolding graph_of add_pools add_pool append_leg sort_edges walk visit_legs visit_leg add_route pick
    enumerate_cycles make_leg make_route contiguous ends_at no_repeats join decimal Dict.contains
    Dict.lookup Dict.insert Sort.sort text_lt
cycles_run = refl

abbrev graph : RouteGraph id_text
graph = elim (graph_of id_text 1 pools) [
  | none ↦ record { chain_id = 0; pools = []; edges = [] }
  | some g ↦ g
]

pub pools-IsPair : All IsPair pools
pools-IsPair = (refl, (refl, (refl, (refl, tt))))

graph_made : graph_of id_text 1 pools ≡ some graph
unfolding graph_of add_pools add_pool append_leg make_leg Dict.contains sort text_lt join
graph_made = refl

search-IsRoute_example :
    Succeeds
      (λ rs. All (IsRoute id_text graph (codes "a") 3) rs × Distinct (map (route_id id_text) rs))
      (enumerate_cycles id_text graph (codes "A") 3)
search-IsRoute_example =
    search-IsRoute id_text 1 pools graph (codes "A") 3 pools-IsPair graph_made (omega arith)
      (omega arith)

-- From a over pool 1 to b and over pool 4 back.
abbrev there_and_back : List RouteLeg
there_and_back =
    record {
      pool = pool (codes "1") (codes "A") (codes "b");
      token_in = codes "a";
      token_out = codes "b";
    }
    ∷ record {
      pool = pool (codes "4") (codes "a") (codes "b");
      token_in = codes "b";
      token_out = codes "a";
    }
    ∷ []

there_and_back-IsCycle : IsCycle id_text graph.edges (codes "a") 3 there_and_back
unfolding graph_of add_pools add_pool append_leg sort_edges make_leg no_repeats join decimal
    Dict.contains Dict.lookup Dict.insert Sort.sort text_lt
there_and_back-IsCycle = record {
  closed = (refl, (refl, refl));
  at_least = omega arith;
  at_most = omega arith;
  pools_once = refl;
  tokens_once = refl;
  known = (inl refl, (inr (inr (inl refl)), tt));
}

search_complete_example :
    Succeeds
      (λ rs.
        contains
          (map (route_id id_text) rs)
          (route_id id_text (cycle_route id_text graph (codes "A") 3 there_and_back))
        ≡ true)
      (enumerate_cycles id_text graph (codes "A") 3)
search_complete_example =
    search_complete id_text 1 pools graph (codes "A") 3 pools-IsPair graph_made (omega arith)
      (omega arith) there_and_back there_and_back-IsCycle

graph_of-Crosses_example :
    Succeeds
      (λ (g : RouteGraph id_text). (g.chain_id ≡ 1) × IsKeyed g.edges × All (Crosses g.edges) pools)
      (graph_of id_text 1 pools)
graph_of-Crosses_example = graph_of-Crosses id_text 1 pools pools-IsPair
