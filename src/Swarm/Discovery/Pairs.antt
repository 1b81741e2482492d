-- ===== src/Swarm/Discovery/Pairs.antt =====
-- The routes that `discover_uniswap_routes` of zero/swarm.py makes of the pools it finds.
use flash_loan.Prelude.{
  ℕ, zero, suc, ◌+◌, ◌*◌, ◌≤◌, ◌≡◌, ◌≢◌, refl, sym, ap, subst, false, some, List, [], ◌∷◌, ◌++◌,
  Text, inl, inr, arith, if◌then◌else◌, ltb, leb, ◌==◌, length, length-append, get_elem?,
  Bool-cases, Eq_text,
}
use flash_loan.Prelude.Dict.{lookup}
use flash_loan.Prelude.Sort.{In}
use flash_loan.Float.{FloatOps}
use flash_loan.Swarm.Allocator.{Pair}
use flash_loan.Swarm.Discovery.{
  PoolConfig, TokenInfo, TokenRegistry, Engine, SwarmRoute, route_of, routes_from, routes_between,
  find_pools, discover_uniswap_routes,
}

In-left : {A : Type 0} (x : A) (xs ys : List A) → In x xs → In x (xs ++ ys)
In-left x [] ys i = absurd i
In-left x (z ∷ xs) ys (inl e) = inl e
In-left x (z ∷ xs) ys (inr i) = inr (In-left x xs ys i)

In-right : {A : Type 0} (x : A) (xs ys : List A) → In x ys → In x (xs ++ ys)
In-right x [] ys i = i
In-right x (z ∷ xs) ys i = inr (In-right x xs ys i)

module _ (fl : FloatOps) (digest : Text → Text) (chain_id : ℕ) (pair : Pair)
    (base quote : TokenInfo fl) (block : ℕ) where
  abbrev pub route_at : PoolConfig → PoolConfig → SwarmRoute fl
  route_at a b = route_of fl digest chain_id pair base quote block a b

  abbrev pub between : List PoolConfig → ℕ → List PoolConfig → List (SwarmRoute fl)
  between pools i xs = routes_between fl digest chain_id pair base quote block pools i xs

  abbrev from : ℕ → PoolConfig → ℕ → List PoolConfig → List (SwarmRoute fl)
  from i a j bs = routes_from fl digest chain_id pair base quote block i a j bs

  -- Is i one of the indices j, j + 1, ... of the list?
  abbrev within : ℕ → ℕ → List PoolConfig → ℕ
  within i j bs = if leb j i then (if ltb i (j + length bs) then 1 else 0) else 0

  length-from :
      (i : ℕ) (a : PoolConfig) (j : ℕ) (bs : List PoolConfig)
      → length (from i a j bs) + within i j bs ≡ length bs
  unfolding routes_from
  length-from i a j [] = ground arith
  length-from i a j (b ∷ bs) = ground (arith, length-from i a (j + 1) bs)

  length-between :
      (pools : List PoolConfig) (i : ℕ) (xs : List PoolConfig)
      → i + length xs ≤ length pools
      → length (between pools i xs) + length xs ≡ length xs * length pools
  unfolding routes_between
  length-between pools i [] h = omega arith
  length-between pools i (a ∷ xs) h =
      let one : length (from i a 0 pools) + 1 ≡ length pools =
        ground (arith, length-from i a 0 pools, h) in
      let rest = length-between pools (i + 1) xs (omega arith) in
      omega (arith, one, rest, length-append (from i a 0 pools) (between pools (i + 1) xs))

  In-from :
      (i : ℕ) (a : PoolConfig) (j : ℕ) (bs : List PoolConfig) (k : ℕ) (b : PoolConfig)
      → get_elem? bs k ≡ some b
      → i ≢ j + k
      → In (route_at a b) (from i a j bs)
  unfolding routes_from
  In-from i a j [] k b e ne = absurd (cc)
  In-from i a j (c ∷ bs) zero b e ne =
      let other : (i == j) ≡ false = ground (arith, ne) in
      let same : c ≡ b = ground (arith, e) in rw other (inl (ap (λ p. route_at a p) same))
  In-from i a j (c ∷ bs) (suc k) b e ne =
      let later = In-from i a (j + 1) bs k b e (λ eq. ne (omega (arith, eq))) in
      elim (Bool-cases (i == j)) [ inl skip ↦ rw skip later | inr new ↦ rw new (inr later) ]

  In-between :
      (pools : List PoolConfig) (i : ℕ) (xs : List PoolConfig) (m k : ℕ) (a b : PoolConfig)
      → get_elem? xs m ≡ some a
      → get_elem? pools k ≡ some b
      → i + m ≢ k
      → In (route_at a b) (between pools i xs)
  unfolding routes_between
  In-between pools i [] m k a b e f ne = absurd (cc)
  In-between pools i (c ∷ xs) zero k a b e f ne =
      let same : c ≡ a = ground (arith, e) in
      In-left (route_at a b) (from i c 0 pools) (between pools (i + 1) xs) (
        subst (λ p. In (route_at a b) (from i p 0 pools)) (sym same)
          (In-from i a 0 pools k b f (λ eq. ne (omega (arith, eq)))))
  In-between pools i (c ∷ xs) (suc m) k a b e f ne =
      In-right (route_at a b) (from i c 0 pools) (between pools (i + 1) xs)
        (In-between pools (i + 1) xs m k a b e f (λ eq. ne (omega (arith, eq))))

module _ {State : Type 0} (fl : FloatOps) (digest : Text → Text) (engine : Engine fl State) where
  -- The routes that are made of the pools.
  abbrev pub made_of :
      Pair → TokenInfo fl → TokenInfo fl → ℕ → List PoolConfig → List (SwarmRoute fl)
  made_of pair base quote block pools =
      between fl digest engine.config_chain_id pair base quote block pools 0 pools

  -- When both tokens of a pair are registered and the factory answers with pools, the routes that
  -- are discovered go from each pool to each other one: a route for every two different places in
  -- the list of pools, and with n pools n * (n - 1) routes in all.
  pub discover_uniswap_routes-pairs :
      (pair : Pair) (registry : TokenRegistry fl) (block : ℕ) (base quote : TokenInfo fl)
      (pools : List PoolConfig) (i j : ℕ) (a b : PoolConfig)
      → lookup pair.0 registry ≡ some base
      → lookup pair.1 registry ≡ some quote
      → find_pools fl engine base quote block engine.fee_tiers ≡ some pools
      → get_elem? pools i ≡ some a
      → get_elem? pools j ≡ some b
      → i ≢ j
      → (discover_uniswap_routes fl digest engine pair registry block
          ≡ some (made_of pair base quote block pools))
        × In
            (route_of fl digest engine.config_chain_id pair base quote block a b)
            (made_of pair base quote block pools)
        × (length (made_of pair base quote block pools) + length pools
            ≡ length pools * length pools)
  unfolding discover_uniswap_routes
  discover_uniswap_routes-pairs pair registry block base quote pools i j a b hb hq hp ha hb' ne = (
    rw (hb, hq, hp) refl,
    In-between fl digest engine.config_chain_id pair base quote block pools 0 pools i j a b ha hb'
        (λ eq. ne (omega (arith, eq))),
    length-between fl digest engine.config_chain_id pair base quote block pools 0 pools
        (omega arith),
  )
