-- ===== src/Swarm/Discovery/Context.antt =====
-- The context that `build_scan_context` of zero/swarm.py freezes for a block.
use flash_loan.Prelude.{
  ◌⊎◌, ◌↔◌, Bool, ℕ, ◌≡◌, refl, sym, ap, subst, true, false, not, Option, none, some, List, [], ◌∷◌,
  Text, lower, inl, inr, arith, Eq_text, ◌∙◌,
}
use flash_loan.Prelude.Dict.{Dict, keys, Distinct}
use mathlib.Core.Option.{some-injective}
use flash_loan.Prelude.Results.{Result, error, Outcome, ◌>>=◌, if-Outcome}
use flash_loan.Prelude.Sort.{All, All-of_In, In}
use flash_loan.Float.{FloatOps}
use flash_loan.Swarm.Discovery.{
  at_block, PoolConfig, Engine, SwarmRoute, ScanContext, ContextError, mixed_block, read_failed,
  one_block, config_dict, cons_state, fetch_states, registry_with, read, build_scan_context,
}
use flash_loan.Swarm.Discovery.Configs.{AllCovered, AtAddress, config_dict-Gathers, config_dict-All}

mixed_false : (b : Bool) → not b ≡ true → b ≡ true → ⊥
mixed_false b h k = ground arith

of_not : (b : Bool) → not b ≡ false → b ≡ true
of_not b h = ground arith

module _ (fl : FloatOps) where
  module _ {State : Type 0} (engine : Engine fl State) (block : ℕ) where
    -- The route is of the block, or names none.
    abbrev pub OfBlock : SwarmRoute fl → Type 0
    OfBlock r = (r.block ≡ none) ⊎ (r.block ≡ some block)

    at_block_iff : (o : Option ℕ) → (at_block fl block o ≡ true) ↔ ((o ≡ none) ⊎ (o ≡ some block))
    at_block_iff none = ((λ h. inl refl), (λ h. refl))
    at_block_iff (some b) = (
      (λ h. inr (ap some (ground (arith, h)))),
      (λ h. elim h [ inl e ↦ cc | inr e ↦ ground (arith, e) ]),
    )

    one_block-All : (rs : List (SwarmRoute fl)) → one_block fl block rs ≡ true → All OfBlock rs
    unfolding one_block
    one_block-All [] h = tt
    one_block-All (r ∷ rs) h =
        ((at_block_iff r.block).0 (ground (arith, h)), one_block-All rs (ground (arith, h)))

    All-one_block : (rs : List (SwarmRoute fl)) → All OfBlock rs → one_block fl block rs ≡ true
    unfolding one_block
    All-one_block [] h = refl
    All-one_block (r ∷ rs) h = rw ((at_block_iff r.block).1 h.0, All-one_block rs h.1) refl

    abbrev HasKeys : List Text → Option (Dict Text State) → Type 0
    HasKeys ks none = Unit
    HasKeys ks (some d) = keys d ≡ ks

    cons_state-HasKeys :
        (address : Text) (ks : List Text) (s : Option State) (o : Option (Dict Text State))
        → HasKeys ks o
        → HasKeys (address ∷ ks) (cons_state fl engine block address s o)
    cons_state-HasKeys address ks (some s) (some d) h = ap (λ js. address ∷ js) h
    cons_state-HasKeys address ks (some s) none h = tt
    cons_state-HasKeys address ks none o h = tt

    fetch_states-HasKeys :
        (d : Dict Text PoolConfig) → HasKeys (keys d) (fetch_states fl engine block d)
    unfolding fetch_states
    fetch_states-HasKeys [] = refl
    fetch_states-HasKeys ((address, p) ∷ d) =
        cons_state-HasKeys address (keys d) (engine.fetch_state p block)
          (fetch_states fl engine block d) (fetch_states-HasKeys d)

    -- A read of the context that raises: the addresses, the reserves, the price of ether, the cost of
    -- gas, or the state of a pool of a route.
    pub data ReadFails (rs : List (SwarmRoute fl)) : Type 0 where
      pool_fails : engine.aave.pool_address block ≡ none → ReadFails rs
      oracle_fails : engine.aave.oracle_address block ≡ none → ReadFails rs
      reserves_fail :
          (pool : Text)
          → engine.aave.pool_address block ≡ some pool
          → engine.aave.reserves_list pool block ≡ none
          → ReadFails rs
      price_fails :
          (oracle : Text)
          → engine.aave.oracle_address block ≡ some oracle
          → engine.aave.asset_price oracle engine.eth_for_gas block ≡ none
          → ReadFails rs
      gas_fails :
          (oracle : Text) (price : fl.Float)
          → engine.aave.oracle_address block ≡ some oracle
          → engine.aave.asset_price oracle engine.eth_for_gas block ≡ some price
          → engine.gas_cost_usd price ≡ none
          → ReadFails rs
      state_fails :
          (r : SwarmRoute fl) (p : PoolConfig)
          → In r rs
          → In p r.pools
          → engine.fetch_state p block ≡ none
          → ReadFails rs

    -- The cause of an error: a route of another block, or else a read that raises.
    abbrev pub Blames : List (SwarmRoute fl) → ContextError → Type 0
    Blames rs mixed_block = ¬ All OfBlock rs
    Blames rs read_failed = All OfBlock rs × ReadFails rs

    -- The pool is one of a route, and stands under its address.
    abbrev pub InRoutes : List (SwarmRoute fl) → Text × PoolConfig → Type 0
    InRoutes rs (address, p) =
        ((r : SwarmRoute fl) × In r rs × In p r.pools) × (lower p.address ≡ address)

    -- The state is what a pool of a route under that address answers.
    abbrev pub StateOf : List (SwarmRoute fl) → Text × State → Type 0
    StateOf rs (address, state) =
        (p : PoolConfig) × InRoutes rs (address, p) × (engine.fetch_state p block ≡ some state)

    -- States are missing only if the state of one of the pools is.
    abbrev Fetched : List (SwarmRoute fl) → Option (Dict Text State) → Type 0
    Fetched rs none = ReadFails rs
    Fetched rs (some states) = All (StateOf rs) states

    cons_state-Fetched :
        (rs : List (SwarmRoute fl)) (address : Text) (p : PoolConfig) (s : Option State)
        (o : Option (Dict Text State))
        → InRoutes rs (address, p)
        → engine.fetch_state p block ≡ s
        → Fetched rs o
        → Fetched rs (cons_state fl engine block address s o)
    cons_state-Fetched rs address p none o ((r, i, j), k) e h = state_fails r p i j e
    cons_state-Fetched rs address p (some s) none m e h = h
    cons_state-Fetched rs address p (some s) (some d) m e h = ((p, m, e), h)

    fetch_states-Fetched :
        (rs : List (SwarmRoute fl)) (d : Dict Text PoolConfig)
        → All (InRoutes rs) d
        → Fetched rs (fetch_states fl engine block d)
    unfolding fetch_states
    fetch_states-Fetched rs [] h = tt
    fetch_states-Fetched rs ((address, p) ∷ d) h =
        cons_state-Fetched rs address p (engine.fetch_state p block)
          (fetch_states fl engine block d) h.0 refl (fetch_states-Fetched rs d h.1)

    all-Fetched :
        (rs : List (SwarmRoute fl))
        → Fetched rs (fetch_states fl engine block (config_dict fl rs []))
    all-Fetched rs =
        let each =
          All-of_In (λ (r : SwarmRoute fl). All (AtAddress fl (InRoutes rs)) r.pools) rs
            (λ r i. All-of_In (AtAddress fl (InRoutes rs)) r.pools (λ p j. ((r, i, j), refl))) in
        fetch_states-Fetched rs (config_dict fl rs [])
          (config_dict-All fl (InRoutes rs) rs [] each tt)

    registry_none :
        (oracle : Text) (o : Option (List Text))
        → registry_with fl engine.aave oracle block o ≡ none
        → o ≡ none
    unfolding registry_with
    registry_none oracle none e = refl
    registry_none oracle (some tokens) e = absurd (cc)

    -- A read that raises is to blame; otherwise the rest goes on with its answer.
    read_then :
        {A B : Type 0} (P : ContextError → Type 0) (Q : B → Type 0) (o : Option A)
        (f : A → Result ContextError B)
        → (o ≡ none → P read_failed)
        → ((x : A) → o ≡ some x → Outcome P Q (f x))
        → Outcome P Q (read o >>= f)
    read_then P Q none f h k = h refl
    read_then P Q (some x) f h k = k x refl

    -- A context of the block, from what the reads answer, with one state for each address of a pool.
    abbrev pub IsFrozen : List (SwarmRoute fl) → ScanContext fl State → Type 0
    IsFrozen rs c =
        All OfBlock rs
        × (c.block ≡ block)
        × (engine.aave.pool_address block ≡ some c.aave_pool)
        × (engine.aave.oracle_address block ≡ some c.oracle)
        × (engine.aave.asset_price c.oracle engine.eth_for_gas block ≡ some c.eth_price_usd)
        × (engine.gas_cost_usd c.eth_price_usd ≡ some c.gas_usd)
        × (registry_with fl engine.aave c.oracle block (engine.aave.reserves_list c.aave_pool block)
            ≡ some c.tokens)
        × Distinct (keys c.pool_states)
        × AllCovered fl (keys c.pool_states) rs
        × All (StateOf rs) c.pool_states

    states-HasKeys :
        (ks : List Text) (o : Option (Dict Text State)) (states : Dict Text State)
        → HasKeys ks o
        → o ≡ some states
        → ks ≡ keys states
    states-HasKeys ks none states h e = absurd (cc)
    states-HasKeys ks (some d) states h e = sym h ∙ ap keys (some-injective _ _ e)

    -- A context is refused as mixed exactly when a route is of another block, and otherwise only if
    -- one of its reads raises; if there is one it is of the block and has what the reads answer; it
    -- holds one state for each address, which a pool of a route under that address answered, and one
    -- for every pool of every route that has an address.
    pub build_scan_context-IsFrozen :
        (rs : List (SwarmRoute fl))
        → Outcome (Blames rs) (IsFrozen rs) (build_scan_context fl engine block rs)
    unfolding build_scan_context
    build_scan_context-IsFrozen rs =
        let configs = config_dict fl rs [] in
        let all_of = config_dict-Gathers fl rs [] tt in
        let B = Blames rs in
        let G = IsFrozen rs in
        if-Outcome B G (not (one_block fl block rs)) (error mixed_block) _
          (λ mixed of_block.
            absurd (mixed_false (one_block fl block rs) mixed (All-one_block rs of_block)))
          (λ same.
            let one = one_block-All rs (of_not (one_block fl block rs) same) in
            read_then B G (engine.aave.pool_address block) _ (λ e. (one, pool_fails e))
              (λ pool pe.
                read_then B G (engine.aave.oracle_address block) _ (λ e. (one, oracle_fails e))
                  (λ oracle oe.
                    let reserves = engine.aave.reserves_list pool block in
                    read_then B G (registry_with fl engine.aave oracle block reserves) _
                      (λ e. (one, reserves_fail pool pe (registry_none oracle reserves e)))
                      (λ tokens te.
                        read_then B G (engine.aave.asset_price oracle engine.eth_for_gas block) _
                          (λ e. (one, price_fails oracle oe e))
                          (λ price re.
                            read_then B G (engine.gas_cost_usd price) _
                              (λ e. (one, gas_fails oracle price oe re e))
                              (λ gas ge.
                                read_then B G (fetch_states fl engine block configs) _
                                  (λ e. (one, subst (Fetched rs) e (all-Fetched rs)))
                                  (λ states se.
                                    let k =
                                      states-HasKeys (keys configs)
                                        (fetch_states fl engine block configs) states
                                        (fetch_states-HasKeys configs) se in
                                    (
                                      one,
                                      refl,
                                      pe,
                                      oe,
                                      re,
                                      ge,
                                      te,
                                      subst (λ js. Distinct js) k all_of.0,
                                      subst (λ js. AllCovered fl js rs) k all_of.2,
                                      subst (Fetched rs) se (all-Fetched rs),
                                    ))))))))
