-- ===== src/Routes/Crossings.antt =====
-- Every crossing of a pool is among the legs of the graph.
use flash_loan.Prelude.{
  ℕ, ◌≡◌, refl, sym, inl, inr, Option, some, List, [], ◌∷◌, Text, lower, text_eq, text_eq_iff,
  Eq_text, subst, Bool-cases,
}
use flash_loan.Prelude.Dict.{lookup}
use flash_loan.Prelude.Sort.{
  All, All-sort, All-of_In, All-In, In, In-append, In-last, In-sort, sort,
}
use flash_loan.Routes.{PoolRef, RouteLeg, make_leg}
use flash_loan.Routes.Graph.{
  Edges, append_leg, add_pool, add_pools, RouteGraph, pool_less, leg_less, sort_edges, graph_of,
}
use flash_loan.Routes.Paths.{legs_from}
use flash_loan.Prelude.Succeeds.{Succeeds, bind-Succeeds, Succeeds-imp, Succeeds-both}
use flash_loan.Routes.Edges.{
  IsPair, IsKeyed, crossing, appended, legs_from-appended, make_leg-forward, make_leg-backward,
  legs_from-sort_edges, add_pools-IsKeyed,
}

-- The leg is listed under its token.
abbrev pub Lists : RouteLeg → Edges → Type 0
Lists l d = In l (legs_from d l.token_in)

-- Both crossings of a pool are listed.
abbrev pub Crosses : Edges → PoolRef → Type 0
Crosses d p =
    Lists (crossing p (lower p.token0) (lower p.token1)) d
    × Lists (crossing p (lower p.token1) (lower p.token0)) d

-- A later crossing keeps the earlier ones.
appended-Lists : (t : Text) (leg l : RouteLeg) (d : Edges) → Lists l d → Lists l (appended t leg d)
appended-Lists t leg l d i = elim (Bool-cases (text_eq t l.token_in)) [
  | inl same ↦
      rw (legs_from-appended t l.token_in leg d, same)
        (In-append l leg (legs_from d t)
          (subst (λ (u : Text). In l (legs_from d u)) (sym ((text_eq_iff t l.token_in).0 same)) i))
  | inr other ↦ rw (legs_from-appended t l.token_in leg d, other) i
]

appended-Lists_new : (leg : RouteLeg) (d : Edges) → Lists leg (appended leg.token_in leg d)
appended-Lists_new leg d =
    rw
      (
        legs_from-appended leg.token_in leg.token_in leg d,
        (text_eq_iff leg.token_in leg.token_in).1 refl,
      )
      (In-last leg (legs_from d leg.token_in))

-- `d'` lists all that `d` lists.
abbrev Extends : Edges → Edges → Type 0
Extends d d' = (l : RouteLeg) → Lists l d → Lists l d'

append_leg-Extends :
    (leg : RouteLeg) (o : Option RouteLeg) (d : Edges)
    → o ≡ some leg
    → Succeeds (λ d'. Extends d d' × Lists leg d') (append_leg leg.token_in o d)
unfolding append_leg
append_leg-Extends leg o d e =
    subst
      (λ (x : Option RouteLeg).
        Succeeds (λ d'. Extends d d' × Lists leg d') (append_leg leg.token_in x d))
      (sym e) (λ l i. appended-Lists leg.token_in leg l d i, appended-Lists_new leg d)

add_pool-Extends :
    (p : PoolRef) (d : Edges)
    → IsPair p
    → Succeeds (λ d'. Extends d d' × Crosses d' p) (add_pool p d)
unfolding add_pool
add_pool-Extends p d pair =
    let there = crossing p (lower p.token0) (lower p.token1) in
    let back = crossing p (lower p.token1) (lower p.token0) in
    bind-Succeeds (λ d'. Extends d d' × Lists there d') (λ d'. Extends d d' × Crosses d' p)
      (append_leg (lower p.token0) (make_leg p (lower p.token0) (lower p.token1)) d)
      (λ d'. append_leg (lower p.token1) (make_leg p (lower p.token1) (lower p.token0)) d')
      (append_leg-Extends there (make_leg p (lower p.token0) (lower p.token1)) d
        (make_leg-forward p pair))
      (λ d' h.
        Succeeds-imp (λ d''. Extends d' d'' × Lists back d'') (λ d''. Extends d d'' × Crosses d'' p)
          (append_leg (lower p.token1) (make_leg p (lower p.token1) (lower p.token0)) d')
          (append_leg-Extends back (make_leg p (lower p.token1) (lower p.token0)) d'
            (make_leg-backward p pair))
          (λ d'' k. (λ l i. k.0 l (h.0 l i), (k.0 there h.1, k.1))))

add_pools-Extends :
    (ps : List PoolRef) (d : Edges)
    → All IsPair ps
    → Succeeds (λ d'. Extends d d' × All (Crosses d') ps) (add_pools ps d)
unfolding add_pools
add_pools-Extends [] d pairs = (λ l i. i, tt)
add_pools-Extends (p ∷ ps) d pairs =
    bind-Succeeds (λ d'. Extends d d' × Crosses d' p)
      (λ d'. Extends d d' × All (Crosses d') (p ∷ ps)) (add_pool p d) (λ d'. add_pools ps d')
      (add_pool-Extends p d pairs.0)
      (λ d' h.
        Succeeds-imp (λ d''. Extends d' d'' × All (Crosses d'') ps)
          (λ d''. Extends d d'' × All (Crosses d'') (p ∷ ps)) (add_pools ps d')
          (add_pools-Extends ps d' pairs.1)
          (λ d'' k. (
            λ l i. k.0 l (h.0 l i),
            (
              (
                k.0 (crossing p (lower p.token0) (lower p.token1)) h.1.0,
                k.0 (crossing p (lower p.token1) (lower p.token0)) h.1.1,
              ),
              k.1,
            ),
          )))

module _ (digest : Text → Text) where
  sort_edges-Crosses : (d : Edges) (p : PoolRef) → Crosses d p → Crosses (sort_edges digest d) p
  sort_edges-Crosses d p (there, back) = (
    rw (legs_from-sort_edges digest d (lower p.token0)) (
        In-sort (leg_less digest) (crossing p (lower p.token0) (lower p.token1))
          (legs_from d (lower p.token0)) there),
    rw (legs_from-sort_edges digest d (lower p.token1)) (
        In-sort (leg_less digest) (crossing p (lower p.token1) (lower p.token0))
          (legs_from d (lower p.token1)) back),
  )

  -- From pools of two different tokens each, however their tokens are capitalised, the graph is
  -- built without an exception. Each of its legs stands under the token that it starts from, and
  -- every pool can be crossed in both directions.
  pub graph_of-Crosses :
      (chain_id : ℕ) (pools : List PoolRef)
      → All IsPair pools
      → Succeeds
          (λ (g : RouteGraph digest).
            (g.chain_id ≡ chain_id) × IsKeyed g.edges × All (Crosses g.edges) pools)
          (graph_of digest chain_id pools)
  unfolding graph_of
  graph_of-Crosses chain_id pools pairs =
      let sorted = sort (pool_less digest) pools in
      let pairs' = All-sort (pool_less digest) IsPair pools pairs in
      bind-Succeeds (λ d. IsKeyed d × All (Crosses d) sorted)
        (λ (g : RouteGraph digest).
          (g.chain_id ≡ chain_id) × IsKeyed g.edges × All (Crosses g.edges) pools)
        (add_pools sorted [])
        (λ d. some (record { chain_id = chain_id; pools = sorted; edges = sort_edges digest d }))
        (Succeeds-both IsKeyed (λ d. All (Crosses d) sorted) (add_pools sorted [])
          (add_pools-IsKeyed sorted [] pairs' (λ t. unfold lookup in tt))
          (Succeeds-imp (λ d'. Extends [] d' × All (Crosses d') sorted)
            (λ d. All (Crosses d) sorted) (add_pools sorted []) (add_pools-Extends sorted [] pairs')
            (λ d h. h.1)))
        (λ d h. (
          refl,
          λ t.
              rw (legs_from-sort_edges digest d t)
                (All-sort (leg_less digest) (λ l. l.token_in ≡ t) (legs_from d t) (h.0 t)),
          All-of_In (Crosses (sort_edges digest d)) pools (λ p i.
              sort_edges-Crosses d p
                (All-In (Crosses d) sorted h.1 (In-sort (pool_less digest) p pools i))),
        ))
