-- ===== src/Routes/Soundness.antt =====
-- The search returns, without an exception, only cycles of the graph, each once.
use flash_loan.Prelude.{
  ℕ, ◌≤◌, ◌≡◌, refl, true, ◌&&◌, some, List, [], ◌∷◌, map, Text, lower, lower-lower, leb, Eq_text,
  arith, Option-cases, inl, inr,
}
use flash_loan.Prelude.Dict.{lookup, contains, keys, Distinct, insert-Distinct, contains-keys}
use flash_loan.Prelude.Sort.{All, All-sort, sort}
use flash_loan.Prelude.Entries.{All-contains, All-insert, All-lookup, sort-Distinct}
use flash_loan.Swarm.Allocator.{text_lt}
use flash_loan.Routes.{RouteCandidate, route_id, no_repeats}
use flash_loan.Routes.Graph.{Edges, Found, RouteGraph, walk, pick, enumerate_cycles}
use flash_loan.Routes.Paths.{IsCycle}
use flash_loan.Routes.Edges.{IsKeyed}
use flash_loan.Prelude.Succeeds.{Succeeds, bind-Succeeds, Succeeds-imp}
use flash_loan.Routes.Walks.{IsAt, IsStable, walk-keeps, route_of}

module _ (digest : Text → Text) where
  -- A route is a cycle of the graph from the asset, within the limit on hops.
  pub record IsRoute (g : RouteGraph digest) (start : Text) (max_hops : ℕ) (r : RouteCandidate)
      : Type 0 where
    pub chain : r.chain_id ≡ g.chain_id
    pub from : r.start_asset ≡ start
    pub cycle : IsCycle digest g.edges start max_hops r.legs

  -- The search starts at the asset with nothing used.
  pub start-IsAt :
      (edges : Edges) (start : Text) (max_hops : ℕ)
      → IsAt digest edges start max_hops max_hops start [] [] (start ∷ [])
  unfolding contains no_repeats
  start-IsAt edges start max_hops = record {
    path = refl;
    room = omega arith;
    pools_once = refl;
    tokens_once = refl;
    away = refl;
    used_same = λ k. refl;
    visited_same = λ k. refl;
    known = tt;
  }

  module _ (g : RouteGraph digest) (start : Text) (max_hops : ℕ) where
    abbrev IsEntry : Text × RouteCandidate → Type 0
    IsEntry (k, r) = (k ≡ route_id digest r) × IsRoute g start max_hops r

    -- What has been found at any time.
    abbrev pub IsFound : Found → Type 0
    IsFound d = All IsEntry d × Distinct (keys d)

    pub IsFound-IsStable : IsStable digest g.edges start max_hops g.chain_id IsFound
    IsFound-IsStable legs d c h =
        let r = route_of digest g.edges start max_hops g.chain_id legs in
        (
          All-insert IsEntry (route_id digest r) r d
              (refl, record { chain = refl; from = refl; cycle = c }) h.0,
          insert-Distinct (route_id digest r) r d h.1,
        )

    -- Looking up keys that are there gives their routes.
    pub pick_lem :
        (ks : List Text) (d : Found)
        → All (λ k. contains (keys d) k ≡ true) ks
        → All IsEntry d
        → Succeeds
            (λ rs. All (IsRoute g start max_hops) rs × (map (route_id digest) rs ≡ ks))
            (pick digest ks d)
    unfolding pick
    pick_lem [] d there h = (tt, refl)
    pick_lem (k ∷ ks) d there h = elim (Option-cases (lookup k d)) [
      | inl e ↦ absurd (cc (contains-keys d k, there.0, e))
      | inr (r, e) ↦
          let entry = All-lookup IsEntry k r d h e in
          rw (e, pick)
            (bind-Succeeds
              (λ rs. All (IsRoute g start max_hops) rs × (map (route_id digest) rs ≡ ks))
              (λ rs. All (IsRoute g start max_hops) rs × (map (route_id digest) rs ≡ k ∷ ks))
              (pick digest ks d) (λ rs. some (r ∷ rs)) (pick_lem ks d there.1 h)
              (λ rs q. ((entry.1, q.0), cc (entry.0, q.1))))
    ]

    -- The routes in the order of their ids.
    pub picked :
        (d : Found)
        → IsFound d
        → Succeeds
            (λ rs.
              All (IsRoute g start max_hops) rs
              × (map (route_id digest) rs ≡ sort text_lt (keys d))
              × Distinct (map (route_id digest) rs))
            (pick digest (sort text_lt (keys d)) d)
    picked d h =
        let ks = sort text_lt (keys d) in
        Succeeds-imp (λ rs. All (IsRoute g start max_hops) rs × (map (route_id digest) rs ≡ ks))
          (λ rs.
            All (IsRoute g start max_hops) rs
            × (map (route_id digest) rs ≡ ks)
            × Distinct (map (route_id digest) rs))
          (pick digest ks d)
          (pick_lem ks d
            (All-sort text_lt (λ k. contains (keys d) k ≡ true) (keys d) (All-contains (keys d)))
            h.0)
          (λ rs q. (q.0, q.1, rw q.1 (sort-Distinct text_lt (keys d) h.1)))

  -- From any asset, with a limit of two or three hops, on a graph whose legs stand under the tokens
  -- that they start from, the search raises no exception, and returns only cycles of the graph
  -- from the asset within the limit, no two of them with one id.
  pub enumerate_cycles-IsRoute :
      (g : RouteGraph digest) (start_asset : Text) (max_hops : ℕ)
      → IsKeyed g.edges
      → 2 ≤ max_hops
      → max_hops ≤ 3
      → Succeeds
          (λ rs.
            All (IsRoute g (lower start_asset) max_hops) rs × Distinct (map (route_id digest) rs))
          (enumerate_cycles digest g start_asset max_hops)
  unfolding enumerate_cycles
  enumerate_cycles-IsRoute g start_asset max_hops keyed two three =
      let start = lower start_asset in
      let Good = λ (rs : List RouteCandidate).
        All (IsRoute g start max_hops) rs × Distinct (map (route_id digest) rs) in
      let bounds : (leb 2 max_hops && leb max_hops 3) ≡ true = ground arith in
      rw bounds (
        bind-Succeeds (IsFound g start max_hops) Good
          (walk digest g.chain_id start g.edges max_hops start [] [] (start ∷ []) [])
          (λ d. pick digest (sort text_lt (keys d)) d)
          (walk-keeps digest g.edges start max_hops g.chain_id (lower-lower start_asset) three keyed
            (IsFound g start max_hops) (IsFound-IsStable g start max_hops) max_hops start [] []
            (start ∷ []) [] (start-IsAt g.edges start max_hops) (tt, tt))
          (λ d h.
            Succeeds-imp
              (λ rs.
                All (IsRoute g start max_hops) rs
                × (map (route_id digest) rs ≡ sort text_lt (keys d))
                × Distinct (map (route_id digest) rs))
              Good (pick digest (sort text_lt (keys d)) d) (picked g start max_hops d h)
              (λ rs q. (q.0, q.2))))
