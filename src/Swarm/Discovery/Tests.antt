-- ===== src/Swarm/Discovery/Tests.antt =====
-- Two tokens, three pools of which one has the zero address, and the context of their routes.
use flash_loan.Prelude.{
  ◌≡◌, ◌+◌, ◌*◌, refl, none, some, List, [], ◌∷◌, ◌++◌, Text, codes, Eq_text, ℕ, arith, length,
  replicate, text_eq, if◌then◌else◌,
}
use flash_loan.Prelude.Dict
use flash_loan.Prelude.Dict.{keys}
use flash_loan.Prelude.Sort.{In}
use flash_loan.Prelude.Int.{pos}
use flash_loan.Prelude.Results.{Result, ok, error, Outcome}
use flash_loan.Float.{whole_floats}
use flash_loan.Swarm.Allocator.{Pair}
use flash_loan.Swarm.Discovery.{
  ScanContext, PoolConfig, TokenInfo, TokenRegistry, AaveReads, Engine, SwarmRoute, ContextError,
  mixed_block, hex_value, address_value, pool_config, find_pools, routes_from, routes_between,
  register_all, registry_with, build_token_registry, discover_uniswap_routes, one_block,
  first_configs, config_dict, fetch_states, build_scan_context, route_of,
}
use flash_loan.Swarm.Discovery.Pairs.{made_of, discover_uniswap_routes-pairs}
use flash_loan.Swarm.Discovery.Context.{Blames, IsFrozen, build_scan_context-IsFrozen}
use flash_loan.Calldata.{join_words, join_tail}
use flash_loan.Rpc.{encode_uint, encode_address}
use flash_loan.Keccak.{selector_hex}

abbrev token : Text → Text → TokenInfo whole_floats
token symbol address = record {
  symbol = symbol;
  address = address;
  decimals = 18;
  price_usd = pos 2;
}

abbrev weth : TokenInfo whole_floats
weth = token (codes "WETH") (codes "0x2b")

abbrev usdc : TokenInfo whole_floats
usdc = token (codes "USDC") (codes "0x1a")

abbrev registry : TokenRegistry whole_floats
registry = (codes "WETH", weth) ∷ (codes "USDC", usdc) ∷ []

abbrev aave : AaveReads whole_floats
aave = record {
  pool_address = λ block. some (codes "0xp");
  oracle_address = λ block. some (codes "0xo");
  reserves_list = λ pool block. some (codes "0x1A" ∷ codes "0x3" ∷ []);
  symbol_of = λ t block. if text_eq t (codes "0x3") then none else some (codes "USDC");
  decimals_of = λ t block. some 6;
  asset_price = λ oracle t block. some (pos 1);
}

-- The factory answers with the pool at address 5.
abbrev word : ℕ → List ℕ
word n = replicate 31 0 ++ n ∷ []

abbrev engine : Engine whole_floats ℕ
engine = record {
  aave = aave;
  config_chain_id = 42161;
  uniswap_v3_factory = codes "0xf";
  eth_for_gas = codes "0x2b";
  fee_tiers = 100 ∷ 500 ∷ [];
  eth_call = λ to call block. some (word 5);
  fetch_state = λ p block. some p.fee_tier;
  gas_cost_usd = λ price. some price;
}

abbrev id_text : Text → Text
id_text s = s

abbrev pair : Pair
pair = (codes "WETH", codes "USDC")

abbrev usdc_only : TokenRegistry whole_floats
usdc_only =
    (
      codes "USDC",
      record { symbol = codes "USDC"; address = codes "0x1a"; decimals = 6; price_usd = pos 1 },
    )
    ∷ []

-- A reserve that cannot be read is left out, and an address is lowered.
registry_run : build_token_registry whole_floats aave 7 ≡ some usdc_only
unfolding build_token_registry registry_with register_all Dict.insert
registry_run = refl

abbrev config : Text → ℕ → PoolConfig
config address fee = record {
  address = address;
  token0 = codes "0x1a";
  token1 = codes "0x2b";
  fee_tier = fee;
  decimals0 = 18;
  decimals1 = 18;
}

-- The token of the lesser address goes first.
config_run :
    pool_config whole_floats weth usdc (codes "0xAB") 500 ≡ some (config (codes "0xab") 500)
unfolding pool_config address_value hex_value
config_run = refl

abbrev pools : List PoolConfig
pools = config (codes "0xa") 100 ∷ config (codes "0xb") 500 ∷ config (codes "0xa") 3000 ∷ []

abbrev routes : List (SwarmRoute whole_floats)
routes = routes_between whole_floats id_text 1 pair weth usdc 7 pools 0 pools

abbrev states_of : Result ContextError (ScanContext whole_floats ℕ) → List ℕ
states_of (error e) = []
states_of (ok c) = Dict.values c.pool_states

context_run : states_of (build_scan_context whole_floats engine 7 routes) ≡ 100 ∷ 500 ∷ []
unfolding routes_between routes_from build_scan_context one_block config_dict first_configs
    fetch_states Dict.lookup Dict.insert registry_with register_all
context_run = refl

mixed_run : build_scan_context whole_floats engine 8 routes ≡ error mixed_block
unfolding routes_between routes_from build_scan_context one_block
mixed_run = refl

build_scan_context-IsFrozen_example :
    Outcome
      (Blames whole_floats engine 7 routes)
      (IsFrozen whole_floats engine 7 routes)
      (build_scan_context whole_floats engine 7 routes)
build_scan_context-IsFrozen_example = build_scan_context-IsFrozen whole_floats engine 7 routes

abbrev pool_five : Text
pool_five = codes "0x0000000000000000000000000000000000000005"

abbrev found_pools : List PoolConfig
found_pools = config pool_five 100 ∷ config pool_five 500 ∷ []

pools_run : find_pools whole_floats engine weth usdc 7 engine.fee_tiers ≡ some found_pools
unfolding find_pools join_words join_tail selector_hex encode_uint encode_address pool_config
    address_value hex_value
pools_run = refl

abbrev made : List (SwarmRoute whole_floats)
made = made_of whole_floats id_text engine pair weth usdc 7 found_pools

discover_uniswap_routes-pairs_example :
    (discover_uniswap_routes whole_floats id_text engine pair registry 7 ≡ some made)
    × In
        (route_of whole_floats id_text 42161 pair weth usdc 7
          (config pool_five 500)
          (config pool_five 100))
        made
    × (length made + length found_pools ≡ length found_pools * length found_pools)
unfolding Dict.lookup
discover_uniswap_routes-pairs_example =
    discover_uniswap_routes-pairs whole_floats id_text engine pair registry 7 weth usdc found_pools
      1 0 (config pool_five 500) (config pool_five 100) refl refl pools_run refl refl
      (λ e. ground (arith, e))
