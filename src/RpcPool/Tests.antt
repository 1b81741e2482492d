-- ===== src/RpcPool/Tests.antt =====
-- Two endpoints on whole-number floats: runs, and each theorem at a concrete input.
use flash_loan.Prelude.{
  ℕ, ◌≡◌, refl, true, false, some, none, [], ◌∷◌, Text, codes, Eq_text, text_eq,
}
use flash_loan.Prelude.Dict
use flash_loan.Prelude.Sort.{keep}
use flash_loan.Prelude.Int.{pos, ◌+ℤ◌}
use flash_loan.Float.{whole_floats}
use flash_loan.RpcPool.{
  strip, collect, failover_eligible, Called, returned, rpc_error, value, Row, RpcPool, fresh_health,
  start, init, settle, visit, try_endpoints, invoke,
}
use flash_loan.RpcPool.Failover.{is_ready, first_answer, invoke-answer}
use flash_loan.RpcPool.Health.{IsPool, Rests, init-IsPool, invoke-keeps_cooling}

abbrev pool : RpcPool whole_floats
pool = record {
  endpoints = codes "a" ∷ codes "b" ∷ [];
  cooldown_s = pos 5;
  health =
      (codes "a", record { failures = 0; successes = 0; cooldown_until = pos 0; last_error = none })
      ∷ (
        codes "b",
        record { failures = 0; successes = 0; cooldown_until = pos 0; last_error = none },
      )
      ∷ [];
  current_endpoint = codes "a";
}

-- Blanks and repeated endpoints are dropped.
init_run :
    init whole_floats (codes " a " ∷ codes "b" ∷ codes "" ∷ codes "a" ∷ []) (pos 5) ≡ some pool
unfolding init start collect strip fresh_health Dict.insert Dict.contains
init_run = refl

-- Endpoint a is rate limited, endpoint b answers.
abbrev answers : Text → Called ℕ
answers url = elim (text_eq url (codes "a")) [
  | true ↦ rpc_error (codes "RPC error: 429")
  | false ↦ returned 7
]

eligible_run : failover_eligible (codes "RPC error: HTTP 429") ≡ true
unfolding failover_eligible
eligible_run = refl

not_eligible_run : failover_eligible (codes "RPC error: execution reverted") ≡ false
unfolding failover_eligible
not_eligible_run = refl

abbrev after : RpcPool whole_floats
after = (invoke whole_floats (pos 100) answers pool).1

invoke_run : (invoke whole_floats (pos 100) answers pool).0 ≡ value 7
unfolding invoke try_endpoints visit settle failover_eligible Dict.lookup Dict.insert
invoke_run = refl

-- The rate-limited endpoint is skipped until its cooldown is over.
cooldown_run : is_ready whole_floats (pos 104) after.health (codes "a") ≡ false
unfolding invoke try_endpoints visit settle failover_eligible Dict.lookup Dict.insert ◌+ℤ◌
cooldown_run = refl

pool-IsPool : IsPool whole_floats pool
pool-IsPool =
    unfold Dict.contains Dict.lookup in
    record { distinct = (refl, (refl, tt)); rows = (refl, (refl, tt)); current = refl }

invoke-answer_example :
    (invoke whole_floats (pos 100) answers pool).0
    ≡ first_answer whole_floats answers
        (keep (is_ready whole_floats (pos 100) pool.health) pool.endpoints)
invoke-answer_example =
    invoke-answer whole_floats answers (pos 100) pool pool-IsPool.distinct pool-IsPool.rows

init-IsPool_example : IsPool whole_floats pool
init-IsPool_example =
    init-IsPool whole_floats (codes " a " ∷ codes "b" ∷ codes "" ∷ codes "a" ∷ []) (pos 5) init_run

-- A pool whose endpoint a cools down until 105.
abbrev cooling_row : Row whole_floats
cooling_row = record {
  failures = 1;
  successes = 0;
  cooldown_until = pos 105;
  last_error = some (codes "429");
}

abbrev cooling_pool : RpcPool whole_floats
cooling_pool = record pool {
  health =
      (codes "a", cooling_row)
      ∷ (
        codes "b",
        record { failures = 0; successes = 0; cooldown_until = pos 0; last_error = none },
      )
      ∷ [];
}

cooling_pool-IsPool : IsPool whole_floats cooling_pool
cooling_pool-IsPool =
    unfold Dict.contains Dict.lookup in
    record { distinct = (refl, (refl, tt)); rows = (refl, (refl, tt)); current = refl }

cooling_row-found : Dict.lookup (codes "a") cooling_pool.health ≡ some cooling_row
unfolding Dict.lookup
cooling_row-found = refl

abbrev later : RpcPool whole_floats
later = (invoke whole_floats (pos 100) answers cooling_pool).1

invoke-keeps_cooling_example :
    IsPool whole_floats later
    × (later.endpoints ≡ cooling_pool.endpoints)
    × (later.cooldown_s ≡ cooling_pool.cooldown_s)
    × Rests whole_floats
        (pos 100)
        (Dict.lookup (codes "a") cooling_pool.health)
        (Dict.lookup (codes "a") later.health)
invoke-keeps_cooling_example =
    invoke-keeps_cooling whole_floats (pos 100) answers cooling_pool (codes "a") cooling_pool-IsPool
