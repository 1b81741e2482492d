-- ===== src/RouteQuote.antt =====
-- `quote_leg` and `route_execution_ready` of zero/venues/quotes.py, and `quote_route` of
-- zero/route_quote.py. What the adapter of a venue answers comes from the chain: a function of the
-- pool, the token, the amount and the block.
pub mod Chains
pub mod Economics
mod Tests
use flash_loan.Prelude.{
  ℕ, Bool, true, false, ◌&&◌, not, Option, none, some, List, [], ◌∷◌, ◌++◌, Text, if◌then◌else◌,
  Eq_text,
}
use flash_loan.Prelude.Int.{ℤ, pos, negsuc, ◌+ℤ◌, ltb_ℤ}
pub use flash_loan.Prelude.Results.{Result, ok, error}
use flash_loan.Prelude.Dict.{Dict, lookup}
use flash_loan.Routes.{PoolRef, RouteLeg, RouteCandidate, route_id}

pub record VenueQuote : Type 0 where
  pub amount_out : ℤ
  pub gas_estimate : ℤ
  pub fee_used : Option ℤ

-- The exceptions of `quote_leg`; the last one is the adapter's, with its message.
pub data LegError : Type 0 where
  amount_not_positive unknown_venue quotes_disabled : LegError
  adapter_error : Text → LegError

pub record Adapter : Type 0 where
  pub exact_quote_supported : Bool
  pub execution_supported : Bool
  pub quote_exact_input : PoolRef → Text → ℤ → ℤ → Result Text VenueQuote

abbrev pub Registry : Type 0
Registry = Dict Text Adapter

abbrev pub is_positive : ℤ → Bool
is_positive a = ltb_ℤ (pos 0) a

abbrev pub answer_of : Result Text VenueQuote → Result LegError VenueQuote
answer_of (ok q) = ok q
answer_of (error message) = error (adapter_error message)

-- From the adapter that is found.
unfoldable pub quote_with : Option Adapter → PoolRef → ℤ → Text → ℤ → Result LegError VenueQuote
quote_with none pool amount_in token_in block = error unknown_venue
quote_with (some a) pool amount_in token_in block =
    if not a.exact_quote_supported
    then error quotes_disabled
    else answer_of (a.quote_exact_input pool token_in amount_in block)

unfoldable pub quote_leg : Registry → PoolRef → ℤ → Text → ℤ → Result LegError VenueQuote
unfolding quote_with
quote_leg registry pool amount_in token_in block =
    if not (is_positive amount_in)
    then error amount_not_positive
    else quote_with (lookup pool.venue_id registry) pool amount_in token_in block

-- The test of `route_execution_ready` for one pool, from its adapter.
abbrev pub adapter_ready : Option Adapter → Bool
adapter_ready none = false
adapter_ready (some a) = a.exact_quote_supported && a.execution_supported

unfoldable pub route_execution_ready : PoolRef → PoolRef → Registry → Bool
route_execution_ready leg1 leg2 registry =
    adapter_ready (lookup leg1.venue_id registry) && adapter_ready (lookup leg2.venue_id registry)

-- The exceptions of `quote_route`: a leg's carries the venue and what went wrong.
pub data RouteQuoteError : Type 0 where
  input_not_positive output_not_positive : RouteQuoteError
  leg_failed : Text → LegError → RouteQuoteError

pub record RouteQuote : Type 0 where
  pub route : Text
  pub block : ℤ
  pub amount_in_raw : ℤ
  pub amount_out_raw : ℤ
  pub gas_estimate : ℤ
  pub leg_quotes : List VenueQuote

-- What the loop has so far: `amount`, `quotes` and `total_gas`.
pub record Progress : Type 0 where
  pub amount : ℤ
  pub quotes : List VenueQuote
  pub total_gas : ℤ

abbrev pub advance : Progress → VenueQuote → Progress
advance p q = record {
  amount = q.amount_out;
  quotes = p.quotes ++ q ∷ [];
  total_gas = p.total_gas +ℤ q.gas_estimate;
}

-- The rest of the loop, and one round of it from the answer of a leg.
abbrev pub Rest : Type 0
Rest = Progress → Result RouteQuoteError Progress

unfoldable pub take_quote :
    Result LegError VenueQuote → Text → Rest → Progress → Result RouteQuoteError Progress
take_quote (error e) venue rest p = error (leg_failed venue e)
take_quote (ok q) venue rest p =
    if is_positive q.amount_out then rest (advance p q) else error output_not_positive

unfoldable pub quote_legs : Registry → ℤ → List RouteLeg → Rest
quote_legs registry block [] p = ok p
quote_legs registry block (l ∷ ls) p =
    take_quote (quote_leg registry l.pool p.amount l.token_in block) l.pool.venue_id
      (quote_legs registry block ls) p

module _ (digest : Text → Text) where
  abbrev pub quote_of :
      RouteCandidate → ℤ → ℤ → Result RouteQuoteError Progress → Result RouteQuoteError RouteQuote
  quote_of route amount_in_raw block (error e) = error e
  quote_of route amount_in_raw block (ok p) = ok (record {
    route = route_id digest route;
    block = block;
    amount_in_raw = amount_in_raw;
    amount_out_raw = p.amount;
    gas_estimate = p.total_gas;
    leg_quotes = p.quotes;
  })

  unfoldable pub quote_route : RouteCandidate → ℤ → ℤ → Registry → Result RouteQuoteError RouteQuote
  quote_route route amount_in_raw block registry =
      if not (is_positive amount_in_raw)
      then error input_not_positive
      else quote_of route amount_in_raw block (
          quote_legs registry block route.legs
            (record { amount = amount_in_raw; quotes = []; total_gas = pos 0 }))
