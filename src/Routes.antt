-- ===== src/Routes.antt =====
-- `PoolRef` of zero/venues/base.py, and `RouteLeg` and `RouteCandidate` of zero/routes.py. `digest` is
-- `"0x" + keccak256(...).hex()`; everything here holds of any function in its place.
pub mod Graph
pub mod Paths
pub mod Walks
pub mod Edges
pub mod Crossings
pub mod Soundness
pub mod Completeness
pub mod Search
pub mod Configs
pub mod Tests
use flash_loan.Prelude.{
  ℕ, zero, suc, ◌+◌, ◌/◌, ◌%◌, Bool, true, false, ◌&&◌, ◌||◌, not, Option, none, some, List, [],
  ◌∷◌, ◌++◌, map, Text, codes, lower, starts_with, text_eq, ◌==◌, leb, if◌then◌else◌, Eq_text,
  length,
}
use flash_loan.Prelude.Dict.{contains}

pub record PoolRef : Type 0 where
  pub venue_id : Text
  pub address : Text
  pub token0 : Text
  pub token1 : Text
  pub fee_tier : Option ℕ
  pub pool_kind : Text

-- `not value.startswith("0x") or len(value) != 42`, negated
abbrev pub is_address : Text → Bool
is_address value = starts_with value (codes "0x") && length value == 42

-- `__post_init__`; false is the `ValueError`.
abbrev pub pool_ok : PoolRef → Bool
pool_ok p =
    is_address p.address && is_address p.token0 && is_address p.token1 && leb 1 (length p.venue_id)

-- Python's `str` of a number, on more fuel than it has digits.
digits_from : ℕ → ℕ → Text → Text
digits_from zero n s = s
digits_from (suc fuel) n s =
    let s' = (n % 10 + 48) ∷ s in
    let rest = digits_from fuel (n / 10) s' in if n / 10 == 0 then s' else rest

unfoldable pub decimal : ℕ → Text
unfolding digits_from
decimal n = digits_from (suc n) n []

-- `"|".join(parts)`
unfoldable pub join : List Text → Text
join [] = []
join (s ∷ []) = s
join (s ∷ t ∷ ts) = s ++ codes "|" ++ join (t ∷ ts)

abbrev pub fee_text : Option ℕ → Text
fee_text none = codes "dynamic"
fee_text (some fee) = decimal fee

abbrev pub pool_canonical : PoolRef → Text
pool_canonical p = join (
    p.venue_id
    ∷ lower p.address
    ∷ lower p.token0
    ∷ lower p.token1
    ∷ fee_text p.fee_tier
    ∷ p.pool_kind
    ∷ [])

pub record RouteLeg : Type 0 where
  pub pool : PoolRef
  pub token_in : Text
  pub token_out : Text

-- `{token_in, token_out} != {token0, token1}`, negated
abbrev pub same_pair : Text → Text → Text → Text → Bool
same_pair a b c d =
    contains (c ∷ d ∷ []) a
    && contains (c ∷ d ∷ []) b
    && contains (a ∷ b ∷ []) c
    && contains (a ∷ b ∷ []) d

-- `RouteLeg(pool, token_in, token_out)`; `none` is the `ValueError`.
unfoldable pub make_leg : PoolRef → Text → Text → Option RouteLeg
make_leg p a b =
    let token_in = lower a in
    let token_out = lower b in
    if text_eq token_in token_out
      || not (same_pair token_in token_out (lower p.token0) (lower p.token1))
    then none
    else some (record { pool = p; token_in = token_in; token_out = token_out })

pub record RouteCandidate : Type 0 where
  pub chain_id : ℕ
  pub start_asset : Text
  pub legs : List RouteLeg

-- `left.token_out == right.token_in` for each leg and the next
unfoldable pub contiguous : List RouteLeg → Bool
contiguous [] = true
contiguous (l ∷ []) = true
contiguous (l ∷ r ∷ ls) = text_eq l.token_out r.token_in && contiguous (r ∷ ls)

-- `self.legs[0].token_in == start`
abbrev pub starts_at : Text → List RouteLeg → Bool
starts_at start [] = false
starts_at start (l ∷ ls) = text_eq l.token_in start

-- `self.legs[-1].token_out == start`
unfoldable pub ends_at : Text → List RouteLeg → Bool
ends_at start [] = false
ends_at start (l ∷ []) = text_eq l.token_out start
ends_at start (l ∷ r ∷ ls) = ends_at start (r ∷ ls)

-- `len(set(ids)) == len(ids)`
unfoldable pub no_repeats : List Text → Bool
no_repeats [] = true
no_repeats (k ∷ ks) = not (contains ks k) && no_repeats ks

module _ (digest : Text → Text) where
  abbrev pub pool_id : PoolRef → Text
  pool_id p = digest (pool_canonical p)

  abbrev pub leg_id : RouteLeg → Text
  leg_id l = pool_id l.pool

  abbrev pub leg_canonical : RouteLeg → Text
  leg_canonical l = join (leg_id l ∷ l.token_in ∷ l.token_out ∷ [])

  abbrev pub route_canonical : RouteCandidate → Text
  route_canonical r = join (decimal r.chain_id ∷ r.start_asset ∷ map leg_canonical r.legs)

  abbrev pub route_id : RouteCandidate → Text
  route_id r = digest (route_canonical r)

  -- `RouteCandidate(chain_id, start_asset, legs)`; `none` is a `ValueError`.
  unfoldable pub make_route : ℕ → Text → List RouteLeg → Option RouteCandidate
  make_route chain_id start_asset legs =
      let start = lower start_asset in
      if not (leb 2 (length legs) && leb (length legs) 3)
      then none
      else if not (starts_at start legs && ends_at start legs)
      then none
      else if not (contiguous legs)
      then none
      else if not (no_repeats (map leg_id legs))
      then none
      else some (record { chain_id = chain_id; start_asset = start; legs = legs })
