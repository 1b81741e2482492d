-- ===== src/Routes/Search.antt =====
-- The two parts together: the cycles that are found in the graph of a list of pools.
use flash_loan.Prelude.{ℕ, ◌≤◌, ◌≡◌, true, some, List, map, Text, lower, Eq_text, subst}
use flash_loan.Prelude.Dict.{contains, Distinct}
use flash_loan.Prelude.Sort.{All}
use flash_loan.Routes.{PoolRef, RouteLeg, route_id}
use flash_loan.Routes.Graph.{RouteGraph, graph_of, enumerate_cycles}
use flash_loan.Routes.Paths.{IsCycle}
use flash_loan.Prelude.Succeeds.{Succeeds}
use flash_loan.Routes.Edges.{IsPair, IsKeyed}
use flash_loan.Routes.Crossings.{Crosses, graph_of-Crosses}
use flash_loan.Routes.Soundness.{IsRoute, enumerate_cycles-IsRoute}
use flash_loan.Routes.Completeness.{cycle_route, enumerate_cycles_complete}

module _ (digest : Text → Text) (chain_id : ℕ) (pools : List PoolRef) (g : RouteGraph digest)
    (start_asset : Text) (max_hops : ℕ) (pairs : All IsPair pools)
    (made : graph_of digest chain_id pools ≡ some g) (two : 2 ≤ max_hops)
    (three : max_hops ≤ 3) where
  keyed : IsKeyed g.edges
  keyed =
      (subst
        (Succeeds (λ (h : RouteGraph digest).
          (h.chain_id ≡ chain_id) × IsKeyed h.edges × All (Crosses h.edges) pools))
        made (graph_of-Crosses digest chain_id pools pairs)).1

  -- On the graph of pools of two different tokens each, from any asset and with a limit of two or
  -- three hops, the search raises no exception. It returns only closed walks from the asset over legs
  -- of the graph, within the limit, that use no pool twice and visit no token twice, and no two of
  -- them have one id.
  pub search-IsRoute :
      Succeeds
        (λ rs.
          All (IsRoute digest g (lower start_asset) max_hops) rs
          × Distinct (map (route_id digest) rs))
        (enumerate_cycles digest g start_asset max_hops)
  search-IsRoute = enumerate_cycles-IsRoute digest g start_asset max_hops keyed two three

  -- On the graph of pools of two different tokens each, from any asset and with a limit of two or
  -- three hops, the search returns a route with the id of every closed walk from the asset over legs
  -- of the graph, within the limit, that uses no pool twice and visits no token twice.
  pub search_complete :
      (legs : List RouteLeg)
      → IsCycle digest g.edges (lower start_asset) max_hops legs
      → Succeeds
          (λ rs.
            contains
              (map (route_id digest) rs)
              (route_id digest (cycle_route digest g start_asset max_hops legs))
            ≡ true)
          (enumerate_cycles digest g start_asset max_hops)
  search_complete legs c =
      enumerate_cycles_complete digest g start_asset max_hops legs keyed two three c
