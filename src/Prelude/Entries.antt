-- ===== src/Prelude/Entries.antt =====
-- Predicates on all entries of a dictionary, and on all members of a list of keys.
use mathlib.Core.Path.{◌≡◌, refl, subst}
use mathlib.Core.Bool.{Bool, true, false, ◌||◌}
use mathlib.Core.Option.{some}
use mathlib.Core.List.{List, [], ◌∷◌}
use mathlib.Core.Logic.{inl, inr}
use native.Mathlib.Omega.{arith}
use flash_loan.Prelude.Tests.{Bool-cases}
use flash_loan.Prelude.Equality.{Eq}
use flash_loan.Prelude.Dict.{Dict, lookup, insert, contains, beq_refl, Distinct}
use flash_loan.Prelude.Sort.{All, All-imp, insert_sorted, sort}

module _ {K : Type 0} ⦃e : Eq K⦄ where
  pub All-contains : (ks : List K) → All (λ k. contains ks k ≡ true) ks
  unfolding contains
  All-contains [] = tt
  All-contains (k ∷ ks) = (
    rw (beq_refl k),
    All-imp (λ j. contains ks j ≡ true) (λ j. contains (k ∷ ks) j ≡ true) ks
        (λ j h. ground (arith, h)) (All-contains ks),
  )

  module _ {κ} {V : Type κ} (P : K × V → Type 0) where
    pub All-insert : (k : K) (v : V) (d : Dict K V) → P (k, v) → All P d → All P (insert k v d)
    unfolding insert
    All-insert k v [] p h = (p, tt)
    All-insert k v ((j, w) ∷ d) p h = elim (Bool-cases (e.beq j k)) [
      | inl same ↦ rw same (p, h.1)
      | inr other ↦ rw other (h.0, All-insert k v d p h.1)
    ]

    pub All-lookup : (k : K) (v : V) (d : Dict K V) → All P d → lookup k d ≡ some v → P (k, v)
    unfolding lookup
    All-lookup k v [] h found = absurd (cc)
    All-lookup k v ((j, w) ∷ d) h found = elim (Bool-cases (e.beq j k)) [
      | inl same ↦ subst P (ground (arith, found, (e.beq_iff j k).0 same)) h.0
      | inr other ↦ All-lookup k v d h.1 (ground (arith, found))
    ]

  -- Sorting keeps the members and lists none twice.
  module _ (less : K → K → Bool) where
    contains-insert_sorted :
        (x : K) (ks : List K) (k : K)
        → contains (insert_sorted less x ks) k ≡ (e.beq x k || contains ks k)
    unfolding insert_sorted contains
    contains-insert_sorted x [] k = refl
    contains-insert_sorted x (j ∷ ks) k = ground (arith, contains-insert_sorted x ks k)

    pub contains-sort : (ks : List K) (k : K) → contains (sort less ks) k ≡ contains ks k
    unfolding sort contains
    contains-sort [] k = refl
    contains-sort (j ∷ ks) k =
        rw (contains-insert_sorted j (sort less ks) k) (ground (arith, contains-sort ks k))

    insert_sorted-Distinct :
        (x : K) (ks : List K)
        → Distinct ks
        → contains ks x ≡ false
        → Distinct (insert_sorted less x ks)
    unfolding insert_sorted contains
    insert_sorted-Distinct x [] d new = (refl, tt)
    insert_sorted-Distinct x (j ∷ ks) d new = elim (Bool-cases (less j x)) [
      | inl before ↦ rw before (
        rw (contains-insert_sorted x ks j) (ground (arith, d.0, new, e.beq_iff x j, e.beq_iff j x)),
        insert_sorted-Distinct x ks d.1 (ground (arith, new)),
      )
      | inr after ↦ rw after (new, d)
    ]

    pub sort-Distinct : (ks : List K) → Distinct ks → Distinct (sort less ks)
    unfolding sort
    sort-Distinct [] d = tt
    sort-Distinct (k ∷ ks) d =
        insert_sorted-Distinct k (sort less ks) (sort-Distinct ks d.1) (rw (contains-sort ks k) d.0)
