-- ===== src/Routes/Configs/Limits.antt =====
-- What the configurations of a pair of tokens are.
use flash_loan.Prelude.{
  ℕ, zero, suc, ◌≤◌, ◌≡◌, true, false, Option, none, some, List, [], ◌∷◌, ◌++◌, map, Text, lower,
  ◌==◌, Eq_text, length, take, arith, length-take, Bool-cases, inl, inr,
}
use flash_loan.Prelude.Dict.{Dict, lookup, contains}
use flash_loan.Prelude.Sort.{All}
use flash_loan.Float.{FloatOps}
use flash_loan.Routes.{PoolRef, RouteCandidate, no_repeats}
use flash_loan.Routes.Graph.{RouteGraph, graph_of, enumerate_cycles}
use flash_loan.Routes.Paths.{IsPath, targets, leg_ids}
use flash_loan.Prelude.Succeeds.{Succeeds, bind-Succeeds}
use flash_loan.Routes.Edges.{IsPair, IsKeyed}
use flash_loan.Routes.Crossings.{Crosses, graph_of-Crosses}
use flash_loan.Routes.Soundness.{IsRoute, enumerate_cycles-IsRoute}
use flash_loan.Routes.Configs.{
  wanted, TokenInfo, RouteConfig, configs, gather, gather_lem, configs_between, configs_from,
  build_multihop_route_configs,
}

pub All-take {κ} :
    {A : Type 0} (P : A → Type κ) (n : ℕ) (xs : List A) → All P xs → All P (take n xs)
All-take P zero xs h = tt
All-take P (suc n) [] h = tt
All-take P (suc n) (x ∷ xs) h = (h.0, All-take P n xs h.1)

module _ (fl : FloatOps) (digest : Text → Text) where
  -- Three legs from the base token back to it, over three pools, by way of the quote token.
  pub record IsConfig (c : RouteConfig fl digest) : Type 0 where
    pub three_legs : length c.legs ≡ 3
    pub closed : IsPath (lower c.base) c.legs (lower c.base)
    pub pools_once : no_repeats (leg_ids digest c.legs) ≡ true
    pub by_quote : contains (map (λ l. l.token_in) c.legs ++ targets c.legs) (lower c.quote) ≡ true

  module _ (base_symbol quote_symbol : Text) (base quote : TokenInfo fl digest)
      (block max_routes : ℕ) (g : RouteGraph digest) where
    configs-IsConfig :
        (rs : List RouteCandidate)
        → All (IsRoute digest g (lower base.address) 3) rs
        → All IsConfig (configs fl digest base_symbol quote_symbol base quote block max_routes rs)
    configs-IsConfig [] h = tt
    configs-IsConfig (r ∷ rs) h = elim (Bool-cases (wanted (lower quote.address) r)) [
      | inl good ↦ rw good (
        record {
          three_legs = ground (arith, good);
          closed = h.0.cycle.closed;
          pools_once = h.0.cycle.pools_once;
          by_quote = ground (arith, good);
        },
        configs-IsConfig rs h.1,
      )
      | inr bad ↦ rw bad (configs-IsConfig rs h.1)
    ]

  abbrev pub AreConfigs : ℕ → List (RouteConfig fl digest) → Type 0
  AreConfigs max_routes rows = (length rows ≤ max_routes) × All IsConfig rows

  gather-AreConfigs :
      (base_symbol quote_symbol : Text) (base quote : TokenInfo fl digest) (block n : ℕ)
      (g : RouteGraph digest) (rs : List RouteCandidate)
      → All (IsRoute digest g (lower base.address) 3) rs
      → AreConfigs
          (suc n)
          (gather fl digest base_symbol quote_symbol base quote block (suc n) rs [])
  gather-AreConfigs base_symbol quote_symbol base quote block n g rs h =
      let cs = configs fl digest base_symbol quote_symbol base quote block (suc n) rs in
      rw
        (gather_lem fl digest base_symbol quote_symbol base quote block (suc n) rs [] n
          (omega arith))
        (
          omega (arith, length-take (suc n) cs),
          All-take IsConfig (suc n) cs
              (configs-IsConfig base_symbol quote_symbol base quote block (suc n) g rs h),
        )

  configs_between-AreConfigs :
      (chain_id : ℕ) (pair : Text × Text) (base quote : TokenInfo fl digest) (pools : List PoolRef)
      (block n : ℕ)
      → All IsPair pools
      → Succeeds
          (AreConfigs (suc n))
          (configs_between fl digest chain_id pair base quote pools block (suc n))
  unfolding configs_between
  configs_between-AreConfigs chain_id (b, q) base quote pools block n pairs =
      bind-Succeeds
        (λ (g : RouteGraph digest).
          (g.chain_id ≡ chain_id) × IsKeyed g.edges × All (Crosses g.edges) pools)
        (AreConfigs (suc n)) (graph_of digest chain_id pools)
        (λ g. elim (enumerate_cycles digest g base.address 3) [
          | none ↦ none
          | some cycles ↦ some (gather fl digest b q base quote block (suc n) cycles [])
        ])
        (graph_of-Crosses digest chain_id pools pairs)
        (λ g h.
          bind-Succeeds _ (AreConfigs (suc n)) (enumerate_cycles digest g base.address 3)
            (λ cycles. some (gather fl digest b q base quote block (suc n) cycles []))
            (enumerate_cycles-IsRoute digest g base.address 3 h.1 (omega arith) (omega arith))
            (λ cycles i. gather-AreConfigs b q base quote block n g cycles i.0))

  configs_from-AreConfigs :
      (chain_id : ℕ) (pair : Text × Text) (base quote : Option (TokenInfo fl digest))
      (pools : List PoolRef) (block n : ℕ)
      → All IsPair pools
      → Succeeds
          (AreConfigs (suc n))
          (configs_from fl digest chain_id pair base quote pools block (suc n))
  unfolding configs_from
  configs_from-AreConfigs chain_id pair none quote pools block n pairs = (omega arith, tt)
  configs_from-AreConfigs chain_id pair (some base) none pools block n pairs = (omega arith, tt)
  configs_from-AreConfigs chain_id pair (some base) (some quote) pools block n pairs =
      configs_between-AreConfigs chain_id pair base quote pools block n pairs

  -- From pools of two different tokens each, whatever the pair and the known tokens, the
  -- configurations are built without an exception. There are at most as many as asked for, and each
  -- goes over three different pools from the base token back to it by way of the quote token.
  pub build_multihop_route_configs-AreConfigs :
      (chain_id : ℕ) (pair : Text × Text) (tokens : Dict Text (TokenInfo fl digest))
      (pools : List PoolRef) (block max_routes : ℕ)
      → All IsPair pools
      → Succeeds
          (AreConfigs max_routes)
          (build_multihop_route_configs fl digest chain_id pair tokens pools block max_routes)
  unfolding build_multihop_route_configs
  build_multihop_route_configs-AreConfigs chain_id pair tokens pools block zero pairs =
      (omega arith, tt)
  build_multihop_route_configs-AreConfigs chain_id pair tokens pools block (suc n) pairs =
      let some_wanted : (suc n == 0) ≡ false = ground arith in
      rw some_wanted (
        configs_from-AreConfigs chain_id pair (lookup pair.0 tokens) (lookup pair.1 tokens) pools
          block n pairs)
