-- ===== src/Routes/Configs.antt =====
-- `build_multihop_route_configs` of zero/routes.py: the three-leg cycles of a pair of tokens as route
-- configurations.
pub mod Limits
mod Tests
use flash_loan.Prelude.{
  ℕ, zero, suc, ◌+◌, ◌-◌, ◌<◌, ◌≤◌, ◌≡◌, refl, ap, sym, ◌∙◌, Bool, true, false, ◌&&◌, not, Option,
  none, some, List, [], ◌∷◌, ◌++◌, map, Text, codes, lower, leb, ◌==◌, if◌then◌else◌, Eq_text,
  length, take, arith, length-append, length-map, length-take, Bool-cases, inl, inr,
}
use mathlib.Core.List.{append_assoc, append-nil}
use flash_loan.Prelude.Dict.{Dict, lookup, contains}
use flash_loan.Prelude.Sort.{keep}
use flash_loan.Float.{FloatOps}
use flash_loan.Routes.{PoolRef, RouteLeg, RouteCandidate, route_id}
use flash_loan.Routes.Graph.{RouteGraph, graph_of, enumerate_cycles}

-- `{leg.token_in ...}` with every `leg.token_out`
abbrev pub traversed : RouteCandidate → List Text
traversed r = map (λ l. l.token_in) r.legs ++ map (λ l. l.token_out) r.legs

-- The two tests of the loop.
abbrev pub wanted : Text → RouteCandidate → Bool
wanted quote_address r = length r.legs == 3 && contains (traversed r) quote_address

module _ (fl : FloatOps) (digest : Text → Text) where
  open fl use {Float}

  pub record TokenInfo : Type 0 where
    pub address : Text
    pub decimals : ℕ
    pub price_usd : Float

  -- A row of the result.
  pub record RouteConfig : Type 0 where
    pub block : ℕ
    pub route_kind : Text
    pub id : Text
    pub name : Text
    pub base_symbol : Text
    pub quote_symbol : Text
    pub base : Text
    pub quote : Text
    pub base_decimals : ℕ
    pub quote_decimals : ℕ
    pub base_price_usd : Float
    pub quote_price_usd : Float
    pub executable : Bool
    pub legs : List RouteLeg

  module _ (base_symbol quote_symbol : Text) (base quote : TokenInfo) (block max_routes : ℕ) where
    abbrev pub config_of : RouteCandidate → RouteConfig
    config_of r = record {
      block = block;
      route_kind = codes "multihop_exact";
      id = route_id digest r;
      name = base_symbol ++ codes " 3-hop cycle via " ++ quote_symbol;
      base_symbol = base_symbol;
      quote_symbol = quote_symbol;
      base = base.address;
      quote = quote.address;
      base_decimals = base.decimals;
      quote_decimals = quote.decimals;
      base_price_usd = base.price_usd;
      quote_price_usd = quote.price_usd;
      executable = false;
      legs = r.legs;
    }

    -- The loop over the cycles, on the rows so far.
    unfoldable pub gather : List RouteCandidate → List RouteConfig → List RouteConfig
    gather [] rows = rows
    gather (r ∷ rs) rows =
        let rows' = rows ++ config_of r ∷ [] in
        let skipped = gather rs rows in
        let more = gather rs rows' in
        if not (length r.legs == 3)
        then skipped
        else if not (contains (traversed r) (lower quote.address))
        then skipped
        else if leb max_routes (length rows')
        then rows'
        else more

    -- The configurations of the cycles that are wanted.
    abbrev pub configs : List RouteCandidate → List RouteConfig
    configs rs = map config_of (keep (wanted (lower quote.address)) rs)

    gather-wanted :
        (r : RouteCandidate) (rs : List RouteCandidate) (rows : List RouteConfig)
        → wanted (lower quote.address) r ≡ true
        → gather (r ∷ rs) rows ≡ (
            if leb max_routes (length (rows ++ config_of r ∷ []))
            then rows ++ config_of r ∷ []
            else gather rs (rows ++ config_of r ∷ []))
    unfolding gather
    gather-wanted r rs rows h = ground arith

    gather-other :
        (r : RouteCandidate) (rs : List RouteCandidate) (rows : List RouteConfig)
        → wanted (lower quote.address) r ≡ false
        → gather (r ∷ rs) rows ≡ gather rs rows
    unfolding gather
    gather-other r rs rows h = ground arith

    keep-wanted :
        (r : RouteCandidate) (rs : List RouteCandidate)
        → wanted (lower quote.address) r ≡ true
        → configs (r ∷ rs) ≡ config_of r ∷ configs rs
    keep-wanted r rs h = rw h

    keep-other :
        (r : RouteCandidate) (rs : List RouteCandidate)
        → wanted (lower quote.address) r ≡ false
        → configs (r ∷ rs) ≡ configs rs
    keep-other r rs h = rw h

    -- With room for `n` and one more, the loop adds the first of them.
    pub gather_lem :
        (rs : List RouteCandidate) (rows : List RouteConfig) (n : ℕ)
        → length rows + suc n ≡ max_routes
        → gather rs rows ≡ rows ++ take (suc n) (configs rs)
    gather_lem [] rows n h = unfold gather in sym (append-nil rows)
    gather_lem (r ∷ rs) rows zero h = elim (Bool-cases (wanted (lower quote.address) r)) [
      | inl good ↦
          let full : leb max_routes (length (rows ++ config_of r ∷ [])) ≡ true =
            ground (arith, length-append rows (config_of r ∷ [])) in
          rw (gather-wanted r rs rows good, full, keep-wanted r rs good)
      | inr bad ↦ rw (gather-other r rs rows bad, keep-other r rs bad) (gather_lem rs rows zero h)
    ]
    gather_lem (r ∷ rs) rows (suc n) h = elim (Bool-cases (wanted (lower quote.address) r)) [
      | inl good ↦
          let room : leb max_routes (length (rows ++ config_of r ∷ [])) ≡ false =
            ground (arith, length-append rows (config_of r ∷ [])) in
          rw (gather-wanted r rs rows good, room, keep-wanted r rs good)
            (gather_lem rs (rows ++ config_of r ∷ []) n
                (omega (arith, length-append rows (config_of r ∷ [])))
              ∙ append_assoc rows (config_of r ∷ []) (take (suc n) (configs rs)))
      | inr bad ↦
          rw (gather-other r rs rows bad, keep-other r rs bad) (gather_lem rs rows (suc n) h)
    ]

  -- From the two tokens: the search and the loop.
  unfoldable pub configs_between :
      ℕ → Text × Text → TokenInfo → TokenInfo → List PoolRef → ℕ → ℕ → Option (List RouteConfig)
  configs_between chain_id (base_symbol, quote_symbol) base quote pools block max_routes =
      elim (graph_of digest chain_id pools) [
        | none ↦ none
        | some g ↦ elim (enumerate_cycles digest g base.address 3) [
          | none ↦ none
          | some cycles ↦
              some (gather base_symbol quote_symbol base quote block max_routes cycles [])
        ]
      ]

  -- A symbol that is not known gives no configurations.
  unfoldable pub configs_from :
      ℕ
      → Text × Text
      → Option TokenInfo
      → Option TokenInfo
      → List PoolRef
      → ℕ
      → ℕ
      → Option (List RouteConfig)
  configs_from chain_id pair none quote pools block max_routes = some []
  configs_from chain_id pair (some base) none pools block max_routes = some []
  configs_from chain_id pair (some base) (some quote) pools block max_routes =
      configs_between chain_id pair base quote pools block max_routes

  -- `build_multihop_route_configs`; `none` is an exception.
  unfoldable pub build_multihop_route_configs :
      ℕ → Text × Text → Dict Text TokenInfo → List PoolRef → ℕ → ℕ → Option (List RouteConfig)
  build_multihop_route_configs chain_id pair tokens pools block max_routes =
      if max_routes == 0
      then some []
      else configs_from chain_id pair (lookup pair.0 tokens) (lookup pair.1 tokens) pools block
          max_routes
