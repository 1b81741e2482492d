-- ===== src/Prelude/Succeeds.antt =====
-- Results that are there and have a property: for code in which an exception is `none`.
use mathlib.Core.Option.{Option, none, some}

-- The result is there and has the property.
abbrev pub Succeeds {ℓ} : {A : Type ℓ} → (A → Type 0) → Option A → Type 0
Succeeds P none = ⊥
Succeeds P (some x) = P x

pub bind-Succeeds {ℓ κ} :
    {A : Type ℓ} {B : Type κ} (P : A → Type 0) (Q : B → Type 0) (o : Option A) (f : A → Option B)
    → Succeeds P o
    → ((x : A) → P x → Succeeds Q (f x))
    → Succeeds Q (elim o [ none ↦ none | some x ↦ f x ])
bind-Succeeds P Q none f h k = h
bind-Succeeds P Q (some x) f h k = k x h

pub Succeeds-both {ℓ} :
    {A : Type ℓ} (P Q : A → Type 0) (o : Option A)
    → Succeeds P o
    → Succeeds Q o
    → Succeeds (λ x. P x × Q x) o
Succeeds-both P Q none h k = h
Succeeds-both P Q (some x) h k = (h, k)

pub Succeeds-imp {ℓ} :
    {A : Type ℓ} (P Q : A → Type 0) (o : Option A)
    → Succeeds P o
    → ((x : A) → P x → Q x)
    → Succeeds Q o
Succeeds-imp P Q none h k = h
Succeeds-imp P Q (some x) h k = k x h
