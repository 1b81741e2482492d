-- ===== src/Swarm/Leases/Tests.antt =====
-- Two workers at one route: runs, and each theorem at a concrete input.
use flash_loan.Prelude.{◌≡◌, refl, some, List, [], ◌∷◌, Text, codes, Eq_key, arith}
use flash_loan.Prelude.Dict.{lookup, insert, erase}
use flash_loan.Swarm.Leases.{
  claim, expire_before, stale_keys, delete_all, LeaseCall, claim_call, release_call, expire_call,
  perform,
}
use flash_loan.Swarm.Leases.View.{view, spec, perform-eq-spec}
use flash_loan.Swarm.Leases.Exclusion.{run, grants, claim-exclusive}

abbrev route : Text
route = codes "0x01"

abbrev calls : List LeaseCall
calls =
    claim_call 7 route (codes "w2")
    ∷ release_call 7 route (codes "w2")
    ∷ expire_call 7
    ∷ claim_call 8 route (codes "w2")
    ∷ []

expiry : run (claim_call 7 route (codes "w1") ∷ expire_call 8 ∷ []) [] ≡ []
unfolding run perform claim expire_before stale_keys delete_all lookup insert erase
expiry = refl

perform-eq-spec_example :
    ((perform (release_call 7 route (codes "w1")) []).0
      ≡ (spec (release_call 7 route (codes "w1")) (view [])).0)
    × (lookup (7, route) (perform (release_call 7 route (codes "w1")) []).1
        ≡ (spec (release_call 7 route (codes "w1")) (view [])).1 (7, route))
perform-eq-spec_example = perform-eq-spec (release_call 7 route (codes "w1")) [] (7, route)

claim-exclusive_example :
    (grants (7, route) calls (claim 7 route (codes "w1") []).1 ≡ 0)
    × (lookup (7, route) (run calls (claim 7 route (codes "w1") []).1) ≡ some (codes "w1"))
unfolding claim lookup
claim-exclusive_example =
    claim-exclusive 7 route (codes "w1") [] calls refl (tt, (refl, (omega arith, (tt, tt))))
