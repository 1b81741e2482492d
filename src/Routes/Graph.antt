-- ===== src/Routes/Graph.antt =====
-- `RouteGraph` of zero/routes.py: the legs out of each token, and the search for cycles.
use flash_loan.Prelude.{
  ℕ, zero, suc, Bool, ◌&&◌, ◌||◌, not, Option, none, some, List, [], ◌∷◌, ◌++◌, Text, lower,
  text_eq, leb, if◌then◌else◌, Eq_text, length,
}
use flash_loan.Prelude.Dict.{Dict, lookup, insert, contains, keys}
use flash_loan.Prelude.Sort.{sort}
use flash_loan.Swarm.Allocator.{text_lt, get_list}
use flash_loan.Routes.{
  PoolRef, RouteLeg, make_leg, RouteCandidate, pool_id, leg_id, route_id, make_route,
}

abbrev pub Edges : Type 0
Edges = Dict Text (List RouteLeg)

abbrev pub Found : Type 0
Found = Dict Text RouteCandidate

-- `self._edges.setdefault(token, []).append(leg)`; an exception of the leg passes through.
unfoldable pub append_leg : Text → Option RouteLeg → Edges → Option Edges
append_leg token none d = none
append_leg token (some leg) d = some (insert token (get_list (lookup token d) ++ leg ∷ []) d)

-- One round of the loop of `__init__`: the pool is crossed in both directions.
unfoldable pub add_pool : PoolRef → Edges → Option Edges
unfolding append_leg
add_pool p d = elim (append_leg (lower p.token0) (make_leg p (lower p.token0) (lower p.token1)) d) [
  | none ↦ none
  | some d' ↦ append_leg (lower p.token1) (make_leg p (lower p.token1) (lower p.token0)) d'
]

unfoldable pub add_pools : List PoolRef → Edges → Option Edges
add_pools [] d = some d
add_pools (p ∷ ps) d = elim (add_pool p d) [ none ↦ none | some d' ↦ add_pools ps d' ]

-- `walk`: the token it stands at, the legs so far, the used pools and the visited tokens.
abbrev pub Walk : Type 0
Walk = Text → List RouteLeg → List Text → List Text → Found → Option Found

module _ (digest : Text → Text) where
  pub record RouteGraph : Type 0 where
    pub chain_id : ℕ
    pub pools : List PoolRef
    pub edges : Edges

  abbrev pub pool_less : PoolRef → PoolRef → Bool
  pool_less p q = text_lt (pool_id digest p) (pool_id digest q)

  -- The order of the keys `(leg.pool.id, leg.token_out)`.
  abbrev pub leg_less : RouteLeg → RouteLeg → Bool
  leg_less l m =
      text_lt (leg_id digest l) (leg_id digest m)
      || (text_eq (leg_id digest l) (leg_id digest m) && text_lt l.token_out m.token_out)

  unfoldable pub sort_edges : Edges → Edges
  sort_edges [] = []
  sort_edges ((token, legs) ∷ d) = (token, sort leg_less legs) ∷ sort_edges d

  -- `__init__`; `none` is the `ValueError` of a leg.
  unfoldable pub graph_of : ℕ → List PoolRef → Option RouteGraph
  graph_of chain_id pools =
      let sorted = sort pool_less pools in
      elim (add_pools sorted []) [
        | none ↦ none
        | some d ↦ some (record { chain_id = chain_id; pools = sorted; edges = sort_edges d })
      ]

  -- `found[route.id] = route`; an exception of the route passes through.
  unfoldable pub add_route : Option RouteCandidate → Found → Option Found
  add_route none found = none
  add_route (some route) found = some (insert (route_id digest route) route found)

  module _ (chain_id : ℕ) (start : Text) where
    -- One round of the loop of `walk`, where `next` is the recursive call.
    unfoldable pub visit_leg :
        Walk → List RouteLeg → List Text → List Text → RouteLeg → Found → Option Found
    visit_leg next legs used visited leg found =
        let next_legs = legs ++ leg ∷ [] in
        let deeper =
          next leg.token_out next_legs (leg_id digest leg ∷ used) (leg.token_out ∷ visited) found in
        if contains used (leg_id digest leg)
        then some found
        else if text_eq leg.token_out start
        then if leb 2 (length next_legs)
          then add_route (make_route digest chain_id start next_legs) found
          else some found
        else if contains visited leg.token_out
        then some found
        else deeper

    -- The loop of `walk` over the legs out of a token.
    unfoldable pub visit_legs :
        Walk → List RouteLeg → List Text → List Text → List RouteLeg → Found → Option Found
    visit_legs next legs used visited [] found = some found
    visit_legs next legs used visited (leg ∷ rest) found =
        elim (visit_leg next legs used visited leg found) [
          | none ↦ none
          | some found' ↦ visit_legs next legs used visited rest found'
        ]

    -- `walk` with `hops` hops left: `max_hops - len(legs)`.
    unfoldable pub walk : Edges → ℕ → Walk
    walk edges zero current legs used visited found = some found
    walk edges (suc hops) current legs used visited found =
        visit_legs (walk edges hops) legs used visited (get_list (lookup current edges)) found

  -- `[found[key] for key in ks]`; `none` is a `KeyError`.
  unfoldable pub pick : List Text → Found → Option (List RouteCandidate)
  pick [] found = some []
  pick (k ∷ ks) found = elim (lookup k found) [
    | none ↦ none
    | some r ↦ elim (pick ks found) [ none ↦ none | some rs ↦ some (r ∷ rs) ]
  ]

  -- `enumerate_cycles`; `none` is an exception.
  unfoldable pub enumerate_cycles : RouteGraph → Text → ℕ → Option (List RouteCandidate)
  enumerate_cycles g start_asset max_hops =
      let start = lower start_asset in
      if not (leb 2 max_hops && leb max_hops 3)
      then none
      else elim (walk g.chain_id start g.edges max_hops start [] [] (start ∷ []) []) [
        | none ↦ none
        | some found ↦ pick (sort text_lt (keys found)) found
      ]
