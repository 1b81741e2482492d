-- ===== src/Swarm/Leases/Exclusion.antt =====
-- Two workers never hold one lease, in any order of calls.
use flash_loan.Prelude.{
  ℕ, ◌≤◌, ◌≡◌, refl, Bool, true, false, some, List, [], ◌∷◌, ◌+◌, Text, text_eq, if◌then◌else◌,
  Eq_key, Eq_nat, Eq_text, pair_eq_iff, arith, ◌&&◌,
}
use flash_loan.Prelude.Dict.{lookup, lookup-insert, lookup-erase}
use flash_loan.Swarm.Leases.{
  LeaseKey, Leases, claim, release, LeaseCall, claim_call, release_call, expire_call, perform,
}
use flash_loan.Swarm.Leases.View.{key_eq, perform-eq-spec}

-- The registry after a sequence of calls.
unfoldable pub run : List LeaseCall → Leases → Leases
run [] s = s
run (c ∷ cs) s = run cs (perform c s).1

-- The claims of a key that a sequence of calls grants.
abbrev pub won : LeaseKey → LeaseCall → Bool → ℕ
won k (claim_call b r w) reply = if key_eq (b, r) k && reply then 1 else 0
won k _ reply = 0

unfoldable pub grants : LeaseKey → List LeaseCall → Leases → ℕ
grants k [] s = 0
grants k (c ∷ cs) s = grants k cs (perform c s).1 + won k c (perform c s).0

-- The call does not end the lease of `owner` on `k`: it is no release by the owner, and expires no
-- block after the key's.
abbrev pub Leaves : LeaseKey → Text → LeaseCall → Type 0
Leaves k owner (claim_call b r w) = Unit
Leaves k owner (release_call b r w) = (key_eq (b, r) k && text_eq owner w) ≡ false
Leaves k owner (expire_call b) = b ≤ k.0

abbrev pub AllLeave : LeaseKey → Text → List LeaseCall → Type 0
AllLeave k owner [] = Unit
AllLeave k owner (c ∷ cs) = Leaves k owner c × AllLeave k owner cs

held_step :
    (k : LeaseKey) (owner : Text) (c : LeaseCall) (s : Leases)
    → Leaves k owner c
    → lookup k s ≡ some owner
    → lookup k (perform c s).1 ≡ some owner
held_step k owner (claim_call b r w) s q h =
    ground (arith, perform-eq-spec (claim_call b r w) s k, pair_eq_iff Eq_nat Eq_text (b, r) k)
held_step k owner (release_call b r w) s q h =
    ground (arith, perform-eq-spec (release_call b r w) s k, pair_eq_iff Eq_nat Eq_text (b, r) k)
held_step k owner (expire_call b) s q h = ground (arith, perform-eq-spec (expire_call b) s k)

won_held :
    (k : LeaseKey) (owner : Text) (c : LeaseCall) (s : Leases)
    → lookup k s ≡ some owner
    → won k c (perform c s).0 ≡ 0
won_held k owner (claim_call b r w) s h =
    ground (arith, perform-eq-spec (claim_call b r w) s k, pair_eq_iff Eq_nat Eq_text (b, r) k)
won_held k owner (release_call b r w) s h = refl
won_held k owner (expire_call b) s h = refl

held_run :
    (k : LeaseKey) (owner : Text) (cs : List LeaseCall) (s : Leases)
    → AllLeave k owner cs
    → lookup k s ≡ some owner
    → (grants k cs s ≡ 0) × (lookup k (run cs s) ≡ some owner)
unfolding grants run
held_run k owner [] s q h = (refl, h)
held_run k owner (c ∷ cs) s q h =
    let rest = held_run k owner cs (perform c s).1 q.1 (held_step k owner c s q.0 h) in
    (omega (arith, rest.0, won_held k owner c s h), rest.1)

claimed :
    (b : ℕ) (r w : Text) (s : Leases)
    → (claim b r w s).0 ≡ true
    → lookup (b, r) (claim b r w s).1 ≡ some w
unfolding claim
claimed b r w s h =
    ground (arith, lookup-insert (b, r) (b, r) w s, pair_eq_iff Eq_nat Eq_text (b, r) (b, r))

-- After a worker's claim has succeeded, whatever calls all workers make, no claim of that lease
-- succeeds and the worker stays its owner, until the worker itself releases it or its block expires.
pub claim-exclusive :
    (b : ℕ) (r w : Text) (s : Leases) (cs : List LeaseCall)
    → (claim b r w s).0 ≡ true
    → AllLeave (b, r) w cs
    → (grants (b, r) cs (claim b r w s).1 ≡ 0) × (lookup (b, r) (run cs (claim b r w s).1) ≡ some w)
claim-exclusive b r w s cs h q = held_run (b, r) w cs (claim b r w s).1 q (claimed b r w s h)

-- After the owner's release a claim by anyone succeeds.
pub claim_after_release :
    (b : ℕ) (r w v : Text) (s : Leases)
    → (release b r w s).0 ≡ true
    → (claim b r v (release b r w s).1).0 ≡ true
unfolding release claim
claim_after_release b r w v s h =
    ground (arith, lookup-erase (b, r) (b, r) s, pair_eq_iff Eq_nat Eq_text (b, r) (b, r))
