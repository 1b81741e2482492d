-- ===== src/Swarm/Discovery/Configs.antt =====
-- The dictionary of pools that `build_scan_context` of zero/swarm.py gathers from the routes.
use flash_loan.Prelude.{
  ◌≡◌, refl, true, ◌||◌, List, [], ◌∷◌, Text, lower, inl, inr, arith, if◌then◌else◌, Bool-cases,
  Eq_text,
}
use flash_loan.Prelude.Dict.{
  Dict, lookup, insert, contains, found, keys, Distinct, beq_refl, contains-keys,
  contains-keys-insert, insert-Distinct,
}
use flash_loan.Prelude.Entries.{All-insert}
use flash_loan.Prelude.Sort.{All, All-imp}
use flash_loan.Float.{FloatOps}
use flash_loan.Swarm.Book.{is_empty}
use flash_loan.Swarm.Discovery.{PoolConfig, SwarmRoute, first_configs, config_dict}

module _ (fl : FloatOps) where
  -- The address is blank, or one of the keys.
  abbrev pub Covered : List Text → PoolConfig → Type 0
  Covered ks p = (is_empty fl (lower p.address) || contains ks (lower p.address)) ≡ true

  -- No key is lost.
  abbrev pub Grows : List Text → List Text → Type 0
  Grows ks js = (k : Text) → contains ks k ≡ true → contains js k ≡ true

  Covered-Grows : (ks js : List Text) → Grows ks js → (p : PoolConfig) → Covered ks p → Covered js p
  Covered-Grows ks js g p h = elim (Bool-cases (is_empty fl (lower p.address))) [
    | inl blank ↦ rw blank refl
    | inr address ↦ rw address (g (lower p.address) (ground (arith, h, address)))
  ]

  -- What a pass over pools does to the keys: they stay distinct, none is lost, all pools are covered.
  abbrev pub Gathers : List PoolConfig → Dict Text PoolConfig → Dict Text PoolConfig → Type 0
  Gathers ps d d' = Distinct (keys d') × Grows (keys d) (keys d') × All (Covered (keys d')) ps

  -- The dictionary after one pool.
  abbrev pub next : PoolConfig → Dict Text PoolConfig → Dict Text PoolConfig
  next p d =
      if is_empty fl (lower p.address) || found (lookup (lower p.address) d)
      then d
      else insert (lower p.address) p d

  next-Gathers :
      (p : PoolConfig) (d : Dict Text PoolConfig)
      → Distinct (keys d)
      → Gathers (p ∷ []) d (next p d)
  next-Gathers p d h =
      elim (Bool-cases (is_empty fl (lower p.address) || found (lookup (lower p.address) d))) [
        | inl old ↦
            rw old (h, (λ k i. i), (ground (arith, old, contains-keys d (lower p.address)), tt))
        | inr new ↦ rw new (
          insert-Distinct (lower p.address) p d h,
          (λ k i. ground (arith, i, contains-keys-insert (lower p.address) k p d)),
          (
            ground (
              arith,
              contains-keys-insert (lower p.address) (lower p.address) p d,
              beq_refl (lower p.address),
            ),
            tt,
          ),
        )
      ]

  first_configs-Gathers :
      (ps : List PoolConfig) (d : Dict Text PoolConfig)
      → Distinct (keys d)
      → Gathers ps d (first_configs fl ps d)
  unfolding first_configs
  first_configs-Gathers [] d h = (h, (λ k i. i), tt)
  first_configs-Gathers (p ∷ ps) d h =
      let one = next-Gathers p d h in
      let rest = first_configs-Gathers ps (next p d) one.0 in
      let all = keys (first_configs fl ps (next p d)) in
      (
        rest.0,
        (λ k i. rest.1 k (one.1 k i)),
        (Covered-Grows (keys (next p d)) all rest.1 p one.2.0, rest.2),
      )

  -- Each pool of each route is covered.
  abbrev pub AllCovered : List Text → List (SwarmRoute fl) → Type 0
  AllCovered ks rs = All (λ (r : SwarmRoute fl). All (Covered ks) r.pools) rs

  pub config_dict-Gathers :
      (rs : List (SwarmRoute fl)) (d : Dict Text PoolConfig)
      → Distinct (keys d)
      → Distinct (keys (config_dict fl rs d))
        × Grows (keys d) (keys (config_dict fl rs d))
        × AllCovered (keys (config_dict fl rs d)) rs
  unfolding config_dict
  config_dict-Gathers [] d h = (h, (λ k i. i), tt)
  config_dict-Gathers (r ∷ rs) d h =
      let one = first_configs-Gathers r.pools d h in
      let rest = config_dict-Gathers rs (first_configs fl r.pools d) one.0 in
      let some_keys = keys (first_configs fl r.pools d) in
      let all = keys (config_dict fl rs (first_configs fl r.pools d)) in
      (
        rest.0,
        (λ k i. rest.1 k (one.1 k i)),
        (
          All-imp (Covered some_keys) (Covered all) r.pools
              (λ p c. Covered-Grows some_keys all rest.1 p c) one.2,
          rest.2,
        ),
      )

  -- What holds of all pools under their addresses and of all entries so far holds of the entries that
  -- are gathered.
  module _ (Q : Text × PoolConfig → Type 0) where
    abbrev pub AtAddress : PoolConfig → Type 0
    AtAddress p = Q (lower p.address, p)

    next-All :
        (p : PoolConfig) (d : Dict Text PoolConfig) → AtAddress p → All Q d → All Q (next p d)
    next-All p d h k =
        elim (Bool-cases (is_empty fl (lower p.address) || found (lookup (lower p.address) d))) [
          | inl old ↦ rw old k
          | inr new ↦ rw new (All-insert Q (lower p.address) p d h k)
        ]

    first_configs-All :
        (ps : List PoolConfig) (d : Dict Text PoolConfig)
        → All AtAddress ps
        → All Q d
        → All Q (first_configs fl ps d)
    unfolding first_configs
    first_configs-All [] d h k = k
    first_configs-All (p ∷ ps) d h k = first_configs-All ps (next p d) h.1 (next-All p d h.0 k)

    pub config_dict-All :
        (rs : List (SwarmRoute fl)) (d : Dict Text PoolConfig)
        → All (λ (r : SwarmRoute fl). All AtAddress r.pools) rs
        → All Q d
        → All Q (config_dict fl rs d)
    unfolding config_dict
    config_dict-All [] d h k = k
    config_dict-All (r ∷ rs) d h k =
        config_dict-All rs (first_configs fl r.pools d) h.1 (first_configs-All r.pools d h.0 k)
