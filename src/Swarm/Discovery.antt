-- ===== src/Swarm/Discovery.antt =====
-- `RouteKey`, `build_token_registry`, `_pool_config`, `discover_uniswap_routes`, `build_scan_context` and
-- `_build_catalog` of zero/swarm.py: the catalog of routes of a block and the state it is scanned with.
-- What the chain answers is an interface; `none` is an exception. The texts for display, a route's name
-- and the fee in percent, are left out.
pub mod Pairs
pub mod Configs
pub mod Context
mod Tests
use flash_loan.Prelude.{
  ℕ, suc, ◌+◌, ◌*◌, ◌^◌, Bool, true, false, ◌&&◌, ◌||◌, not, Option, none, some, List, [], ◌∷◌,
  ◌++◌, Text, codes, lower, ltb, ◌==◌, if◌then◌else◌, take, Eq_text, Eq_text_pair,
}
use flash_loan.Prelude.Dict.{Dict, lookup, insert, contains, found}
use flash_loan.Prelude.Results.{Result, ok, error, ◌>>=◌}
use flash_loan.Float.{FloatOps}
use flash_loan.Keccak.{hex}
use flash_loan.Rpc.{big_bytes, big_value, digit_value, encode_uint, remove_0x}
use flash_loan.Calldata.{join_words, address_word}
use flash_loan.Routes.{decimal, join}
use flash_loan.Swarm.Allocator.{WorkerSpec, Pair}
use flash_loan.Swarm.Book.{is_empty}

pub record RouteKey : Type 0 where
  pub chain_id : ℕ
  pub base : Text
  pub quote : Text
  pub pool_a : Text
  pub pool_b : Text
  pub fee_a : ℕ
  pub fee_b : ℕ
  pub direction : Text

abbrev pub canonical : RouteKey → Text
canonical k = join (
    decimal k.chain_id
    ∷ lower k.base
    ∷ lower k.quote
    ∷ lower k.pool_a
    ∷ lower k.pool_b
    ∷ decimal k.fee_a
    ∷ decimal k.fee_b
    ∷ k.direction
    ∷ [])

-- `int(address, 16)`, on the value so far; `none` is the `ValueError`.
unfoldable pub hex_value : Text → ℕ → Option ℕ
hex_value [] v = some v
hex_value (c ∷ s) v = elim (digit_value c) [ none ↦ none | some d ↦ hex_value s (16 * v + d) ]

unfoldable pub address_value : Text → Option ℕ
address_value [] = none
address_value (c ∷ s) = hex_value (remove_0x (c ∷ s)) 0

pub record PoolConfig : Type 0 where
  pub address : Text
  pub token0 : Text
  pub token1 : Text
  pub fee_tier : ℕ
  pub decimals0 : ℕ
  pub decimals1 : ℕ

-- The exceptions of `build_scan_context`: its own, and any other.
pub data ContextError : Type 0 where
  mixed_block read_failed : ContextError

-- A read that may raise.
abbrev pub read : {A : Type 0} → Option A → Result ContextError A
read none = error read_failed
read (some x) = ok x

module _ (fl : FloatOps) where
  open fl use {Float}

  pub record TokenInfo : Type 0 where
    pub symbol : Text
    pub address : Text
    pub decimals : ℕ
    pub price_usd : Float

  abbrev pub TokenRegistry : Type 0
  TokenRegistry = Dict Text TokenInfo

  -- The reads of `aave` at a block.
  pub record AaveReads : Type 0 where
    pub pool_address : ℕ → Option Text
    pub oracle_address : ℕ → Option Text
    pub reserves_list : Text → ℕ → Option (List Text)
    pub symbol_of : Text → ℕ → Option Text
    pub decimals_of : Text → ℕ → Option ℕ
    pub asset_price : Text → Text → ℕ → Option Float

  -- The rest of the engine: its configuration, its calls and the states of pools.
  pub record Engine (State : Type 0) : Type 0 where
    pub aave : AaveReads
    pub config_chain_id : ℕ
    pub uniswap_v3_factory : Text
    pub eth_for_gas : Text
    pub fee_tiers : List ℕ
    pub eth_call : Text → Text → ℕ → Option (List ℕ)
    pub fetch_state : PoolConfig → ℕ → Option State
    pub gas_cost_usd : Float → Option Float

  -- One round of the loop over the reserves: a token that cannot be read is left out.
  abbrev pub register : Text → Option Text → Option ℕ → Option Float → TokenRegistry → TokenRegistry
  register token (some symbol) (some decimals) (some price) registry =
      insert symbol
        (record { symbol = symbol; address = lower token; decimals = decimals; price_usd = price })
        registry
  register token (some symbol) (some decimals) none registry = registry
  register token (some symbol) none price registry = registry
  register token none decimals price registry = registry

  unfoldable pub register_all : AaveReads → Text → ℕ → List Text → TokenRegistry → TokenRegistry
  register_all aave oracle block [] registry = registry
  register_all aave oracle block (token ∷ tokens) registry = register_all aave oracle block tokens (
      register token (aave.symbol_of token block) (aave.decimals_of token block)
        (aave.asset_price oracle token block) registry)

  -- From the list of the reserves, which may raise.
  unfoldable pub registry_with : AaveReads → Text → ℕ → Option (List Text) → Option TokenRegistry
  unfolding register_all
  registry_with aave oracle block none = none
  registry_with aave oracle block (some tokens) = some (register_all aave oracle block tokens [])

  -- From the addresses of the pool and the oracle.
  abbrev pub registry_from : AaveReads → ℕ → Option Text → Option Text → Option TokenRegistry
  registry_from aave block none oracle = none
  registry_from aave block (some pool) none = none
  registry_from aave block (some pool) (some oracle) =
      registry_with aave oracle block (aave.reserves_list pool block)

  unfoldable pub build_token_registry : AaveReads → ℕ → Option TokenRegistry
  unfolding registry_with
  build_token_registry aave block =
      registry_from aave block (aave.pool_address block) (aave.oracle_address block)

  -- From the numbers of the two addresses: the second token goes first only if its number is less.
  abbrev pub ordered_config :
      TokenInfo → TokenInfo → Text → ℕ → Option ℕ → Option ℕ → Option PoolConfig
  ordered_config a b pool fee (some m) (some n) = some (
      if ltb n m
      then record {
        address = lower pool;
        token0 = b.address;
        token1 = a.address;
        fee_tier = fee;
        decimals0 = b.decimals;
        decimals1 = a.decimals;
      }
      else record {
        address = lower pool;
        token0 = a.address;
        token1 = b.address;
        fee_tier = fee;
        decimals0 = a.decimals;
        decimals1 = b.decimals;
      })
  ordered_config a b pool fee (some m) none = none
  ordered_config a b pool fee none n = none

  unfoldable pub pool_config : TokenInfo → TokenInfo → Text → ℕ → Option PoolConfig
  pool_config a b pool fee =
      ordered_config a b pool fee (address_value a.address) (address_value b.address)

  abbrev pub cons_config : Option PoolConfig → Option (List PoolConfig) → Option (List PoolConfig)
  cons_config (some c) (some cs) = some (c ∷ cs)
  cons_config (some c) none = none
  cons_config none cs = none

  -- From what the factory answers for a fee: nothing and the zero address are no pool, and a word
  -- that is no address raises.
  abbrev pub take_pool :
      TokenInfo
      → TokenInfo
      → ℕ
      → Option (List ℕ)
      → Option (List PoolConfig)
      → Option (List PoolConfig)
  take_pool base quote fee none rest = none
  take_pool base quote fee (some []) rest = rest
  take_pool base quote fee (some (b ∷ raw)) rest =
      let pool_int = big_value (take 32 (b ∷ raw)) 0 in
      if pool_int == 0
      then rest
      else if ltb pool_int (2 ^ 160)
      then cons_config (pool_config base quote (codes "0x" ++ hex (big_bytes 20 pool_int)) fee) rest
      else none

  -- `engine.rpc.eth_call(factory, data, block=block)`
  abbrev pub call_factory : {State : Type 0} → Engine State → ℕ → Option Text → Option (List ℕ)
  call_factory engine block none = none
  call_factory engine block (some call) = engine.eth_call engine.uniswap_v3_factory call block

  unfoldable pub find_pools :
      {State : Type 0}
      → Engine State
      → TokenInfo
      → TokenInfo
      → ℕ
      → List ℕ
      → Option (List PoolConfig)
  unfolding join_words
  find_pools engine base quote block [] = some []
  find_pools engine base quote block (fee ∷ fees) =
      take_pool base quote fee
        (call_factory engine block (
          join_words (codes "getPool(address,address,uint24)")
            (address_word base.address ∷ address_word quote.address ∷ encode_uint fee ∷ [])))
        (find_pools engine base quote block fees)

  pub record SwarmRoute : Type 0 where
    pub block : Option ℕ
    pub route_id : Text
    pub base_symbol : Text
    pub quote_symbol : Text
    pub base : Text
    pub quote : Text
    pub base_decimals : ℕ
    pub quote_decimals : ℕ
    pub base_price_usd : Float
    pub quote_price_usd : Float
    pub pools : List PoolConfig

  module _ (digest : Text → Text) (chain_id : ℕ) (pair : Pair) (base quote : TokenInfo)
      (block : ℕ) where
    abbrev pub route_of : PoolConfig → PoolConfig → SwarmRoute
    route_of a b = record {
      block = some block;
      route_id = digest (
          canonical (record {
            chain_id = chain_id;
            base = base.address;
            quote = quote.address;
            pool_a = a.address;
            pool_b = b.address;
            fee_a = a.fee_tier;
            fee_b = b.fee_tier;
            direction = codes "base-to-quote-to-base";
          }));
      base_symbol = pair.0;
      quote_symbol = pair.1;
      base = base.address;
      quote = quote.address;
      base_decimals = base.decimals;
      quote_decimals = quote.decimals;
      base_price_usd = base.price_usd;
      quote_price_usd = quote.price_usd;
      pools = a ∷ b ∷ [];
    }

    -- The inner loop, from index j on, and the outer one from index i on.
    unfoldable pub routes_from : ℕ → PoolConfig → ℕ → List PoolConfig → List SwarmRoute
    routes_from i a j [] = []
    routes_from i a j (b ∷ bs) =
        let rest = routes_from i a (j + 1) bs in if i == j then rest else route_of a b ∷ rest

    unfoldable pub routes_between : List PoolConfig → ℕ → List PoolConfig → List SwarmRoute
    unfolding routes_from
    routes_between pools i [] = []
    routes_between pools i (a ∷ as_) = routes_from i a 0 pools ++ routes_between pools (i + 1) as_

  abbrev pub routes_or_raise :
      (digest : Text → Text) (chain_id : ℕ) (pair : Pair) (base quote : TokenInfo) (block : ℕ)
      → Option (List PoolConfig)
      → Option (List SwarmRoute)
  routes_or_raise digest chain_id pair base quote block none = none
  routes_or_raise digest chain_id pair base quote block (some pools) =
      some (routes_between digest chain_id pair base quote block pools 0 pools)

  module _ {State : Type 0} (digest : Text → Text) (engine : Engine State) where
    -- From the tokens that are found.
    abbrev pub discover_with :
        Pair → Option TokenInfo → Option TokenInfo → ℕ → Option (List SwarmRoute)
    discover_with pair (some base) (some quote) block =
        routes_or_raise digest engine.config_chain_id pair base quote block
          (find_pools engine base quote block engine.fee_tiers)
    discover_with pair (some base) none block = some []
    discover_with pair none quote block = some []

    unfoldable pub discover_uniswap_routes : Pair → TokenRegistry → ℕ → Option (List SwarmRoute)
    unfolding find_pools routes_between
    discover_uniswap_routes pair registry block =
        discover_with pair (lookup pair.0 registry) (lookup pair.1 registry) block

    abbrev pub append_routes :
        Option (List SwarmRoute) → Option (List SwarmRoute) → Option (List SwarmRoute)
    append_routes (some rs) (some rest) = some (rs ++ rest)
    append_routes (some rs) none = none
    append_routes none rest = none

    -- The loop of `_build_catalog` over the workers, with the pairs seen so far.
    unfoldable pub catalog_routes :
        TokenRegistry → ℕ → List WorkerSpec → List Pair → Option (List SwarmRoute)
    unfolding discover_uniswap_routes
    catalog_routes registry block [] seen = some []
    catalog_routes registry block (w ∷ ws) seen =
        let skipped = catalog_routes registry block ws seen in
        let rest = catalog_routes registry block ws (w.primary_pair ∷ seen) in
        if contains seen w.primary_pair
        then skipped
        else append_routes (discover_uniswap_routes w.primary_pair registry block) rest

  pub record ScanContext (State : Type 0) : Type 0 where
    pub block : ℕ
    pub aave_pool : Text
    pub oracle : Text
    pub premium_bps : ℕ
    pub eth_price_usd : Float
    pub gas_usd : Float
    pub tokens : TokenRegistry
    pub pool_states : Dict Text State

  -- `int(route.get("block", block)) != block` for some route, negated
  abbrev pub at_block : ℕ → Option ℕ → Bool
  at_block block none = true
  at_block block (some b) = b == block

  unfoldable pub one_block : ℕ → List SwarmRoute → Bool
  one_block block [] = true
  one_block block (r ∷ rs) = at_block block r.block && one_block block rs

  -- The first configuration of each address.
  unfoldable pub first_configs : List PoolConfig → Dict Text PoolConfig → Dict Text PoolConfig
  first_configs [] d = d
  first_configs (p ∷ ps) d = first_configs ps (
      if is_empty fl (lower p.address) || found (lookup (lower p.address) d)
      then d
      else insert (lower p.address) p d)

  unfoldable pub config_dict : List SwarmRoute → Dict Text PoolConfig → Dict Text PoolConfig
  unfolding first_configs
  config_dict [] d = d
  config_dict (r ∷ rs) d = config_dict rs (first_configs r.pools d)

  module _ {State : Type 0} (engine : Engine State) (block : ℕ) where
    abbrev pub cons_state :
        Text → Option State → Option (Dict Text State) → Option (Dict Text State)
    cons_state address (some s) (some d) = some ((address, s) ∷ d)
    cons_state address (some s) none = none
    cons_state address none d = none

    unfoldable pub fetch_states : Dict Text PoolConfig → Option (Dict Text State)
    fetch_states [] = some []
    fetch_states ((address, p) ∷ d) =
        cons_state address (engine.fetch_state p block) (fetch_states d)

    unfoldable pub build_scan_context : List SwarmRoute → Result ContextError (ScanContext State)
    unfolding one_block config_dict fetch_states registry_with
    build_scan_context routes =
        if not (one_block block routes)
        then error mixed_block
        else read (engine.aave.pool_address block) >>= λ aave_pool.
            read (engine.aave.oracle_address block) >>= λ oracle.
            read
              (registry_with engine.aave oracle block (engine.aave.reserves_list aave_pool block))
            >>= λ tokens.
                read (engine.aave.asset_price oracle engine.eth_for_gas block) >>= λ price.
                read (engine.gas_cost_usd price) >>= λ gas.
                read (fetch_states (config_dict routes [])) >>= λ states. ok (record {
                  block = block;
                  aave_pool = aave_pool;
                  oracle = oracle;
                  premium_bps = 0;
                  eth_price_usd = price;
                  gas_usd = gas;
                  tokens = tokens;
                  pool_states = states;
                })

  abbrev pub with_context :
      {State : Type 0}
      → List SwarmRoute
      → Result ContextError (ScanContext State)
      → Option (List SwarmRoute × ScanContext State)
  with_context routes (ok context) = some (routes, context)
  with_context routes (error e) = none

  abbrev pub catalog_with :
      {State : Type 0}
      → Engine State
      → ℕ
      → Option (List SwarmRoute)
      → Option (List SwarmRoute × ScanContext State)
  catalog_with engine block none = none
  catalog_with engine block (some routes) =
      with_context routes (build_scan_context engine block routes)

  -- From the registry of tokens.
  unfoldable pub catalog_from :
      {State : Type 0}
      → (Text → Text)
      → Engine State
      → ℕ
      → List WorkerSpec
      → Option TokenRegistry
      → Option (List SwarmRoute × ScanContext State)
  unfolding catalog_routes build_scan_context
  catalog_from digest engine block workers none = none
  catalog_from digest engine block workers (some registry) =
      catalog_with engine block (catalog_routes digest engine registry block workers [])

  unfoldable pub build_catalog :
      {State : Type 0}
      → (Text → Text)
      → Engine State
      → ℕ
      → List WorkerSpec
      → Option (List SwarmRoute × ScanContext State)
  unfolding catalog_from build_token_registry
  build_catalog digest engine block workers =
      catalog_from digest engine block workers (build_token_registry engine.aave block)
