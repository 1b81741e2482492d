-- ===== src/RouteQuote/Tests.antt =====
-- A route over two pools of one venue that gives twice what it takes, and each theorem at it.
use flash_loan.Prelude.{◌≡◌, refl, true, false, some, List, [], ◌∷◌, codes}
use flash_loan.Prelude.Int
use flash_loan.Prelude.Int.{ℤ, pos, ◌+ℤ◌}
use flash_loan.Prelude.Dict
use flash_loan.Routes.{RouteCandidate, route_id}
use flash_loan.Routes.Tests.{pool, id_text}
use flash_loan.Decimal.{milli}
use flash_loan.RouteQuote.Economics.{
  EconomicsError, RouteEconomics, negative_premium, flash_fee, evaluate_route_economics,
}
use flash_loan.RouteQuote.{
  RouteQuote, VenueQuote, Result, ok, error, Adapter, Registry, leg_failed, unknown_venue,
  quote_leg, take_quote, quote_legs, quote_route, route_execution_ready,
}
use flash_loan.RouteQuote.Chains.{gas_sum, IsChain, IsQuote, quote_route-IsQuote, quote_route-chain}

abbrev answer : ℤ → VenueQuote
answer amount = record {
  amount_out = amount +ℤ amount;
  gas_estimate = pos 100;
  fee_used = some (pos 500);
}

abbrev adapter : Adapter
adapter = record {
  exact_quote_supported = true;
  execution_supported = false;
  quote_exact_input = λ p token amount block. ok (answer amount);
}

abbrev registry : Registry
registry = (codes "v", adapter) ∷ []

abbrev route : RouteCandidate
route = record {
  chain_id = 1;
  start_asset = codes "a";
  legs =
      record {
        pool = pool (codes "1") (codes "a") (codes "b");
        token_in = codes "a";
        token_out = codes "b";
      }
      ∷ record {
        pool = pool (codes "4") (codes "a") (codes "b");
        token_in = codes "b";
        token_out = codes "a";
      }
      ∷ [];
}

abbrev quotes : List VenueQuote
quotes = answer (pos 10) ∷ answer (pos 20) ∷ []

quotes-IsChain : IsChain registry (pos 7) (pos 10) route.legs quotes (pos 40)
unfolding quote_leg Dict.lookup Int.◌+ℤ◌
quotes-IsChain = (refl, refl, (refl, refl, refl))

quote_route-chain_example :
    quote_route id_text route (pos 10) (pos 7) registry
    ≡ ok (record {
      route = route_id id_text route;
      block = pos 7;
      amount_in_raw = pos 10;
      amount_out_raw = pos 40;
      gas_estimate = gas_sum (pos 0) quotes;
      leg_quotes = quotes;
    })
quote_route-chain_example =
    quote_route-chain registry (pos 7) id_text route (pos 10) quotes (pos 40) refl quotes-IsChain

quote_route-IsQuote_example :
    IsQuote registry
      (pos 7)
      id_text
      route
      (pos 10)
      (quote_route id_text route (pos 10) (pos 7) registry)
quote_route-IsQuote_example = quote_route-IsQuote registry (pos 7) id_text route (pos 10)

-- Without an adapter the first leg fails.
unknown_run :
    quote_route id_text route (pos 10) (pos 7) [] ≡ error (leg_failed (codes "v") unknown_venue)
unfolding quote_route quote_legs take_quote quote_leg Dict.lookup
unknown_run = refl

-- The venue is quoted but not executed.
ready_run :
    route_execution_ready
      (pool (codes "1") (codes "a") (codes "b"))
      (pool (codes "4") (codes "a") (codes "b"))
      registry
    ≡ false
unfolding route_execution_ready Dict.lookup
ready_run = refl

abbrev doubled : RouteQuote
doubled = record {
  route = codes "r";
  block = pos 7;
  amount_in_raw = pos 1000;
  amount_out_raw = pos 2000;
  gas_estimate = pos 0;
  leg_quotes = [];
}

abbrev net_of : Result EconomicsError (RouteEconomics milli) → Result EconomicsError (ℤ × ℤ)
net_of (error e) = error e
net_of (ok e) = ok (e.flash_fee_raw, e.expected_net_usd)

-- A fee of 0.5 units is 1: 1000 - 1 - 2 - 3 whole dollars, in thousandths.
economics_run :
    net_of (evaluate_route_economics milli doubled (pos 0) (pos 1000) (pos 5) (pos 2000) (pos 3000))
    ≡ ok (pos 1, pos 994000)
unfolding evaluate_route_economics flash_fee Int.◌+ℤ◌ Int.◌-ℤ◌ Int.◌*ℤ◌ Int.floor_div
economics_run = refl

premium_run :
    net_of (
      evaluate_route_economics milli doubled
        (pos 0)
        (pos 1000)
        (Int.negsuc 0)
        (pos 2000)
        (pos 3000))
    ≡ error negative_premium
unfolding evaluate_route_economics
premium_run = refl
