-- ===== src/Swarm/Leases.antt =====
-- `RouteLeaseRegistry` of zero/swarm.py. Each method runs under the registry's lock, so concurrent
-- workers make a sequence of whole calls, in an order that the scheduler chooses.
pub mod View
pub mod Exclusion
mod Tests
use flash_loan.Prelude.{
  ℕ, ◌≡◌, Bool, true, false, Option, none, some, List, [], ◌∷◌, Text, ltb, text_eq, if◌then◌else◌,
  Eq_key,
}
use flash_loan.Prelude.Dict.{Dict, lookup, insert, erase}

-- `(block, route_id)`
abbrev pub LeaseKey : Type 0
LeaseKey = ℕ × Text

-- `_leases`: the worker that owns each key.
abbrev pub Leases : Type 0
Leases = Dict LeaseKey Text

unfoldable pub claim : ℕ → Text → Text → Leases → Bool × Leases
claim block route_id worker_id s = elim (lookup (block, route_id) s) [
  | some owner ↦ (false, s)
  | none ↦ (true, insert (block, route_id) worker_id s)
]

-- `owner != worker_id`, where the owner is `None` for a key that is not leased.
abbrev pub owns : Option Text → Text → Bool
owns none worker_id = false
owns (some owner) worker_id = text_eq owner worker_id

-- False stands for the `ValueError`, which leaves the registry alone.
unfoldable pub release : ℕ → Text → Text → Leases → Bool × Leases
release block route_id worker_id s =
    if owns (lookup (block, route_id) s) worker_id
    then (true, erase (block, route_id) s)
    else (false, s)

-- The keys of a block before the cutoff, and the loop that deletes them.
unfoldable pub stale_keys : ℕ → Leases → List LeaseKey
stale_keys cutoff [] = []
stale_keys cutoff ((k, owner) ∷ s) =
    let rest = stale_keys cutoff s in if ltb k.0 cutoff then k ∷ rest else rest

unfoldable pub delete_all : List LeaseKey → Leases → Leases
delete_all [] s = s
delete_all (k ∷ ks) s = delete_all ks (erase k s)

unfoldable pub expire_before : ℕ → Leases → Leases
expire_before cutoff s = delete_all (stale_keys cutoff s) s

pub data LeaseCall : Type 0 where
  claim_call : ℕ → Text → Text → LeaseCall
  release_call : ℕ → Text → Text → LeaseCall
  expire_call : ℕ → LeaseCall

-- The reply of a call (true for one that returns nothing), and the registry after it.
unfoldable pub perform : LeaseCall → Leases → Bool × Leases
perform (claim_call b r w) s = claim b r w s
perform (release_call b r w) s = release b r w s
perform (expire_call b) s = (true, expire_before b s)
