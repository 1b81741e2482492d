-- ===== src/Swarm/Leases/View.antt =====
-- The registry implements a function from keys to owners.
use flash_loan.Prelude.{
  ℕ, ◌≡◌, refl, Bool, true, false, Option, none, some, List, [], ◌∷◌, Text, ltb, if◌then◌else◌,
  Eq_key, Eq_nat, Eq_text, pair_eq, pair_eq_iff, arith,
}
use flash_loan.Prelude.Dict.{lookup, contains, erase, lookup-insert, lookup-erase}
use flash_loan.Swarm.Leases.{
  LeaseKey, Leases, claim, owns, release, stale_keys, delete_all, expire_before, LeaseCall,
  claim_call, release_call, expire_call, perform,
}

abbrev pub key_eq : LeaseKey → LeaseKey → Bool
key_eq = pair_eq Eq_nat Eq_text

-- The abstract registry: who owns each key.
abbrev pub Owners : Type 0
Owners = LeaseKey → Option Text

abbrev pub view : Leases → Owners
view s k = lookup k s

-- What a call does to the abstract registry, and its reply.
abbrev pub claim_owner : Option Text → Text → Bool × Option Text
claim_owner none w = (true, some w)
claim_owner (some owner) w = (false, some owner)

abbrev pub release_owner : Option Text → Text → Bool × Option Text
release_owner o w = if owns o w then (true, none) else (false, o)

abbrev pub spec : LeaseCall → Owners → Bool × Owners
spec (claim_call b r w) o = (
  (claim_owner (o (b, r)) w).0,
  λ k. if key_eq (b, r) k then (claim_owner (o (b, r)) w).1 else o k,
)
spec (release_call b r w) o = (
  (release_owner (o (b, r)) w).0,
  λ k. if key_eq (b, r) k then (release_owner (o (b, r)) w).1 else o k,
)
spec (expire_call b) o = (true, λ k. if ltb k.0 b then none else o k)

lookup-delete_all :
    (ks : List LeaseKey) (k : LeaseKey) (s : Leases)
    → lookup k (delete_all ks s) ≡ (if contains ks k then none else lookup k s)
unfolding delete_all contains
lookup-delete_all [] k s = refl
lookup-delete_all (j ∷ ks) k s =
    ground (arith, lookup-delete_all ks k (erase j s), lookup-erase j k s)

stale_keys-lt :
    (cutoff : ℕ) (k : LeaseKey) (s : Leases)
    → contains (stale_keys cutoff s) k ≡ true
    → ltb k.0 cutoff ≡ true
unfolding stale_keys contains
stale_keys-lt cutoff k [] h = ground arith
stale_keys-lt cutoff k ((j, owner) ∷ s) h =
    ground (arith, pair_eq_iff Eq_nat Eq_text j k, stale_keys-lt cutoff k s)

-- A key is stale exactly when it is leased and of a block before the cutoff.
contains-stale_keys :
    (cutoff : ℕ) (k : LeaseKey) (s : Leases)
    → (if contains (stale_keys cutoff s) k then none else lookup k s)
      ≡ (if ltb k.0 cutoff then none else lookup k s)
unfolding stale_keys contains lookup
contains-stale_keys cutoff k [] = ground arith
contains-stale_keys cutoff k ((j, owner) ∷ s) = ground (
  arith,
  pair_eq_iff Eq_nat Eq_text j k,
  contains-stale_keys cutoff k s,
  stale_keys-lt cutoff k s,
)

pub lookup-expire_before :
    (cutoff : ℕ) (k : LeaseKey) (s : Leases)
    → lookup k (expire_before cutoff s) ≡ (if ltb k.0 cutoff then none else lookup k s)
unfolding expire_before
lookup-expire_before cutoff k s =
    rw (lookup-delete_all (stale_keys cutoff s) k s) (contains-stale_keys cutoff k s)

-- Every method is the update of a function from keys to owners, with the same reply: `claim`
-- gives an unowned key to the worker, `release` takes a key from its owner and from nobody else,
-- and `expire_before` frees the keys of earlier blocks.
pub perform-eq-spec :
    (c : LeaseCall) (s : Leases) (k : LeaseKey)
    → ((perform c s).0 ≡ (spec c (view s)).0) × (lookup k (perform c s).1 ≡ (spec c (view s)).1 k)
unfolding perform claim release
perform-eq-spec (claim_call b r w) s k =
    ground (arith, pair_eq_iff Eq_nat Eq_text (b, r) k, lookup-insert (b, r) k w s)
perform-eq-spec (release_call b r w) s k =
    ground (arith, pair_eq_iff Eq_nat Eq_text (b, r) k, lookup-erase (b, r) k s)
perform-eq-spec (expire_call b) s k = (refl, lookup-expire_before b k s)
