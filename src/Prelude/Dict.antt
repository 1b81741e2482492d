-- ===== src/Prelude/Dict.antt =====
-- A Python `dict` as an association list in insertion order, over any key with an equality, and a
-- Python `set` of keys as a list.
use mathlib.Core.Path.{◌≡◌, refl}
use mathlib.Core.Logic.{inl, inr}
use mathlib.Core.Bool.{Bool, true, false, ◌||◌}
use mathlib.Core.Option.{Option, none, some}
use mathlib.Core.List.{List, [], ◌∷◌, ◌++◌}
use native.Mathlib.Omega.{arith}
use flash_loan.Prelude.Tests.{if◌then◌else◌, Option-cases}
use flash_loan.Prelude.Equality.{Eq}

abbrev pub Dict {ℓ κ} : Type ℓ → Type κ → Type (ℓ ⊔ κ)
Dict K V = List (K × V)

module _ {ℓ κ} {K : Type ℓ} {V : Type κ} ⦃e : Eq K⦄ where
  -- `d.get(k)`
  unfoldable pub lookup : K → Dict K V → Option V
  lookup k [] = none
  lookup k ((j, v) ∷ d) = if e.beq j k then some v else lookup k d

  -- `d[k] = v`: in place if the key is there, else at the end.
  unfoldable pub insert : K → V → Dict K V → Dict K V
  insert k v [] = (k, v) ∷ []
  insert k v ((j, w) ∷ d) = if e.beq j k then (k, v) ∷ d else (j, w) ∷ insert k v d

  -- `del d[k]`
  unfoldable pub erase : K → Dict K V → Dict K V
  erase k [] = []
  erase k ((j, w) ∷ d) = let rest = erase k d in if e.beq j k then rest else (j, w) ∷ rest

  pub lookup-insert :
      (k j : K) (v : V) (d : Dict K V)
      → lookup j (insert k v d) ≡ (if e.beq k j then some v else lookup j d)
  unfolding lookup insert
  lookup-insert k j v [] = refl
  lookup-insert k j v ((i, w) ∷ d) =
      ground (arith, e.beq_iff k j, e.beq_iff i k, e.beq_iff i j, lookup-insert k j v d)

  pub lookup-erase :
      (k j : K) (d : Dict K V) → lookup j (erase k d) ≡ (if e.beq k j then none else lookup j d)
  unfolding lookup erase
  lookup-erase k j [] = ground arith
  lookup-erase k j ((i, w) ∷ d) =
      ground (arith, e.beq_iff k j, e.beq_iff i k, e.beq_iff i j, lookup-erase k j d)

module _ {ℓ} {K : Type ℓ} ⦃e : Eq K⦄ where
  -- `k in s`
  unfoldable pub contains : List K → K → Bool
  contains [] k = false
  contains (j ∷ s) k = e.beq j k || contains s k

  pub beq_refl : (k : K) → e.beq k k ≡ true
  beq_refl k = (e.beq_iff k k).1 refl

  -- No key is listed twice.
  abbrev pub Distinct : List K → Type ℓ
  Distinct [] = Unit
  Distinct (k ∷ ks) = (contains ks k ≡ false) × Distinct ks

  pub contains-append :
      (ks js : List K) (k : K) → contains (ks ++ js) k ≡ (contains ks k || contains js k)
  unfolding contains
  contains-append [] js k = refl
  contains-append (i ∷ ks) js k = ground (arith, contains-append ks js k)

  pub append-Distinct :
      (ks : List K) (k : K) → Distinct ks → contains ks k ≡ false → Distinct (ks ++ k ∷ [])
  append-Distinct [] k d new = (unfold contains in refl, tt)
  append-Distinct (j ∷ ks) k d new = (
    unfold contains in
        ground (arith, e.beq_iff j k, e.beq_iff k j, contains-append ks (k ∷ []) j, d.0),
    append-Distinct ks k d.1 (unfold contains in ground arith),
  )

module _ {ℓ κ} {K : Type ℓ} {V : Type κ} where
  abbrev pub keys : Dict K V → List K
  keys [] = []
  keys ((k, v) ∷ d) = k ∷ keys d

  abbrev pub values : Dict K V → List V
  values [] = []
  values ((k, v) ∷ d) = v ∷ values d

-- `x is not None`
abbrev pub found {ℓ} : {V : Type ℓ} → Option V → Bool
found none = false
found (some v) = true

module _ {ℓ κ} {K : Type ℓ} {V : Type κ} ⦃e : Eq K⦄ where
  pub contains-keys : (d : Dict K V) (k : K) → contains (keys d) k ≡ found (lookup k d)
  unfolding contains lookup
  contains-keys [] k = refl
  contains-keys ((j, v) ∷ d) k = ground (arith, contains-keys d k)

  pub lookup-none : (d : Dict K V) (k : K) → contains (keys d) k ≡ false → lookup k d ≡ none
  lookup-none d k h = elim (Option-cases (lookup k d)) [
    | inl e ↦ e
    | inr (v, e) ↦ absurd (cc (contains-keys d k, h, e))
  ]

  -- A new key goes to the end.
  pub insert_new :
      (k : K) (v : V) (d : Dict K V) → lookup k d ≡ none → insert k v d ≡ d ++ (k, v) ∷ []
  unfolding insert lookup
  insert_new k v [] h = refl
  insert_new k v ((j, w) ∷ d) h = ground (arith, insert_new k v d)

  -- Writing an old key keeps the keys.
  pub keys-insert_old :
      (k : K) (v : V) (d : Dict K V) → found (lookup k d) ≡ true → keys (insert k v d) ≡ keys d
  unfolding insert lookup
  keys-insert_old k v [] h = cc
  keys-insert_old k v ((j, w) ∷ d) h = ground (arith, e.beq_iff j k, keys-insert_old k v d)

  pub contains-keys-insert :
      (k j : K) (v : V) (d : Dict K V)
      → contains (keys (insert k v d)) j ≡ (e.beq k j || contains (keys d) j)
  contains-keys-insert k j v d =
      ground (arith, contains-keys (insert k v d) j, contains-keys d j, lookup-insert k j v d)

  pub insert-Distinct :
      (k : K) (v : V) (d : Dict K V) → Distinct (keys d) → Distinct (keys (insert k v d))
  unfolding insert
  insert-Distinct k v [] h = (unfold contains in refl, tt)
  insert-Distinct k v ((j, w) ∷ d) h =
      ground (
        arith,
        e.beq_iff j k,
        e.beq_iff k j,
        insert-Distinct k v d h.1,
        contains-keys-insert k j v d,
      )
