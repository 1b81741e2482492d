-- ===== src/Prelude/Sort.antt =====
-- Python's `sorted`, a stable sort, as an insertion sort over a test `less`; its three laws.
use mathlib.Core.Path.{◌≡◌, refl, subst}
use mathlib.Core.Bool.{Bool, true, false}
use mathlib.Core.List.{List, [], ◌∷◌, ◌++◌, Perm}
use mathlib.Core.List.Perm
use mathlib.Core.Logic.{inl, inr, ◌≢◌, ◌⊎◌}
use native.Mathlib.Omega.{arith}
use flash_loan.Prelude.Tests.{if◌then◌else◌, Bool-cases}

-- `P` holds of every element.
abbrev pub All {ℓ κ} : {A : Type ℓ} → (A → Type κ) → List A → Type κ
All P [] = Unit
All P (x ∷ xs) = P x × All P xs

pub All-append {ℓ κ} :
    {A : Type ℓ} (P : A → Type κ) (xs : List A) (x : A) → All P xs → P x → All P (xs ++ x ∷ [])
All-append P [] x h p = (p, tt)
All-append P (y ∷ xs) x h p = (h.0, All-append P xs x h.1 p)

pub All-imp {ℓ κ μ} :
    {A : Type ℓ} (P : A → Type κ) (Q : A → Type μ) (xs : List A)
    → ((x : A) → P x → Q x)
    → All P xs
    → All Q xs
All-imp P Q [] f h = tt
All-imp P Q (x ∷ xs) f h = (f x h.0, All-imp P Q xs f h.1)

-- The places at which an element stands in a list.
abbrev pub In : {A : Type 0} → A → List A → Type 0
In x [] = ⊥
In x (y ∷ ys) = (y ≡ x) ⊎ In x ys

pub All-In {κ} : {A : Type 0} (P : A → Type κ) {x : A} (xs : List A) → All P xs → In x xs → P x
All-In P [] h i = absurd i
All-In P (y ∷ ys) h (inl e) = subst (λ x. P x) e h.0
All-In P (y ∷ ys) h (inr i) = All-In P ys h.1 i

pub In-append : {A : Type 0} (x y : A) (xs : List A) → In x xs → In x (xs ++ y ∷ [])
In-append x y [] i = absurd i
In-append x y (z ∷ xs) (inl e) = inl e
In-append x y (z ∷ xs) (inr i) = inr (In-append x y xs i)

pub In-last : {A : Type 0} (x : A) (xs : List A) → In x (xs ++ x ∷ [])
In-last x [] = inl refl
In-last x (z ∷ xs) = inr (In-last x xs)

pub All-of_In {κ} :
    {A : Type 0} (P : A → Type κ) (xs : List A) → ((x : A) → In x xs → P x) → All P xs
All-of_In P [] f = tt
All-of_In P (x ∷ xs) f = (f x (inl refl), All-of_In P xs (λ y i. f y (inr i)))

pub All-with_In {κ} :
    {A : Type 0} (P : A → Type κ) (xs : List A) → All P xs → All (λ x. P x × In x xs) xs
All-with_In P [] h = tt
All-with_In P (x ∷ xs) h = (
  (h.0, inl refl),
  All-imp (λ y. P y × In y xs) (λ y. P y × In y (x ∷ xs)) xs (λ y q. (q.0, inr q.1))
      (All-with_In P xs h.1),
)

-- The elements that pass a test, in order.
abbrev pub keep {ℓ} : {A : Type ℓ} → (A → Bool) → List A → List A
keep p [] = []
keep p (x ∷ xs) = if p x then x ∷ keep p xs else keep p xs

module _ {A : Type 0} (less : A → A → Bool) where
  -- An element goes before the first that is not less than it.
  unfoldable pub insert_sorted : A → List A → List A
  insert_sorted x [] = x ∷ []
  insert_sorted x (y ∷ ys) = if less y x then y ∷ insert_sorted x ys else x ∷ y ∷ ys

  unfoldable pub sort : List A → List A
  unfolding insert_sorted
  sort [] = []
  sort (x ∷ xs) = insert_sorted x (sort xs)

  -- No element is less than one that stands before it.
  abbrev pub IsSorted : List A → Type 0
  IsSorted [] = Unit
  IsSorted (x ∷ xs) = All (λ y. less y x ≡ false) xs × IsSorted xs

  All-insert_sorted :
      (P : A → Type 0) (x : A) (ys : List A) → P x → All P ys → All P (insert_sorted x ys)
  unfolding insert_sorted
  All-insert_sorted P x [] h k = (h, tt)
  All-insert_sorted P x (y ∷ ys) h k = elim (Bool-cases (less y x)) [
    | inl before ↦ rw before (k.0, All-insert_sorted P x ys h k.1)
    | inr after ↦ rw after (h, k)
  ]

  pub All-sort : (P : A → Type 0) (xs : List A) → All P xs → All P (sort xs)
  unfolding sort
  All-sort P [] h = tt
  All-sort P (x ∷ xs) h = All-insert_sorted P x (sort xs) h.0 (All-sort P xs h.1)

  In-under :
      (x y z : A) (ys : List A)
      → ((y ≡ x) ⊎ In x ys → In x (insert_sorted y ys))
      → (y ≡ x) ⊎ ((z ≡ x) ⊎ In x ys)
      → (z ≡ x) ⊎ In x (insert_sorted y ys)
  In-under x y z ys ih (inl e) = inr (ih (inl e))
  In-under x y z ys ih (inr (inl e)) = inl e
  In-under x y z ys ih (inr (inr i)) = inr (ih (inr i))

  In-insert_sorted : (x y : A) (ys : List A) → (y ≡ x) ⊎ In x ys → In x (insert_sorted y ys)
  unfolding insert_sorted
  In-insert_sorted x y [] h = h
  In-insert_sorted x y (z ∷ ys) h = elim (Bool-cases (less z y)) [
    | inl before ↦ rw before (In-under x y z ys (In-insert_sorted x y ys) h)
    | inr after ↦ rw after h
  ]

  pub In-sort : (x : A) (ys : List A) → In x ys → In x (sort ys)
  unfolding sort
  In-sort x [] i = i
  In-sort x (y ∷ ys) (inl e) = In-insert_sorted x y (sort ys) (inl e)
  In-sort x (y ∷ ys) (inr i) = In-insert_sorted x y (sort ys) (inr (In-sort x ys i))

  insert_sorted-ne-nil : (x : A) (ys : List A) → insert_sorted x ys ≢ []
  unfolding insert_sorted
  insert_sorted-ne-nil x [] h = cc
  insert_sorted-ne-nil x (y ∷ ys) h = ground arith

  pub sort-eq-nil : (xs : List A) → sort xs ≡ [] → xs ≡ []
  unfolding sort
  sort-eq-nil [] h = refl
  sort-eq-nil (x ∷ xs) h = absurd (insert_sorted-ne-nil x (sort xs) h)

  insert_sorted-perm : (x : A) (ys : List A) → Perm (insert_sorted x ys) (x ∷ ys)
  unfolding insert_sorted
  insert_sorted-perm x [] = Perm.refl _
  insert_sorted-perm x (y ∷ ys) = elim (Bool-cases (less y x)) [
    | inl before ↦ rw before (Perm.trans (Perm.cons y (insert_sorted-perm x ys)) (Perm.swap x y ys))
    | inr after ↦ rw after (Perm.refl _)
  ]

  pub sort-perm : (xs : List A) → Perm (sort xs) xs
  unfolding sort
  sort-perm [] = Perm.refl _
  sort-perm (x ∷ xs) = Perm.trans (insert_sorted-perm x (sort xs)) (Perm.cons x (sort-perm xs))

  -- Elements that pass a test under which none is less than another keep their order.
  module _ (p : A → Bool) (alike : (x y : A) → p x ≡ true → p y ≡ true → less x y ≡ false) where
    keep-insert_sorted : (x : A) (ys : List A) → keep p (insert_sorted x ys) ≡ keep p (x ∷ ys)
    unfolding insert_sorted
    keep-insert_sorted x [] = refl
    keep-insert_sorted x (y ∷ ys) = ground (arith, keep-insert_sorted x ys, alike y x)

    pub keep-sort : (xs : List A) → keep p (sort xs) ≡ keep p xs
    unfolding sort
    keep-sort [] = refl
    keep-sort (x ∷ xs) = ground (arith, keep-insert_sorted x (sort xs), keep-sort xs)

  module _ (asym : (x y : A) → less x y ≡ true → less y x ≡ false)
      (trans : (x y z : A) → less y x ≡ false → less z y ≡ false → less z x ≡ false) where
    All-weaken :
        (x y : A) (zs : List A)
        → less y x ≡ false
        → All (λ z. less z y ≡ false) zs
        → All (λ z. less z x ≡ false) zs
    All-weaken x y [] h k = tt
    All-weaken x y (z ∷ zs) h k = (trans x y z h k.0, All-weaken x y zs h k.1)

    insert_sorted-IsSorted : (x : A) (ys : List A) → IsSorted ys → IsSorted (insert_sorted x ys)
    unfolding insert_sorted
    insert_sorted-IsSorted x [] h = (tt, tt)
    insert_sorted-IsSorted x (y ∷ ys) h = elim (Bool-cases (less y x)) [
      | inl before ↦ rw before (
        All-insert_sorted (λ z. less z y ≡ false) x ys (asym y x before) h.0,
        insert_sorted-IsSorted x ys h.1,
      )
      | inr after ↦ rw after ((after, All-weaken x y ys after h.0), h)
    ]

    pub sort-IsSorted : (xs : List A) → IsSorted (sort xs)
    unfolding sort
    sort-IsSorted [] = tt
    sort-IsSorted (x ∷ xs) = insert_sorted-IsSorted x (sort xs) (sort-IsSorted xs)
