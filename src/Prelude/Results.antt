-- ===== src/Prelude/Results.antt =====
-- A value or an exception.
use mathlib.Core.Path.{◌≡◌, refl}
use mathlib.Core.Bool.{Bool, true, false}
use flash_loan.Prelude.Tests.{if◌then◌else◌}

pub data Result (E A : Type 0) : Type 0 where
  ok : A → Result E A
  error : E → Result E A

-- If there is a value, it has the property; an exception is allowed.
abbrev pub IfOk {κ} : {E A : Type 0} → (A → Type κ) → Result E A → Type κ
IfOk P (error e) = Unit
IfOk P (ok x) = P x

pub bind-IfOk :
    {E A B : Type 0} (P : A → Type 0) (Q : B → Type 0) (r : Result E A) (f : A → Result E B)
    → IfOk P r
    → ((x : A) → P x → IfOk Q (f x))
    → IfOk Q (elim r [ error e ↦ error e | ok x ↦ f x ])
bind-IfOk P Q (error e) f h k = tt
bind-IfOk P Q (ok x) f h k = k x h

-- The exception of a first step is the exception of the whole; `do` blocks read this.
infixl 5 ◌>>=◌
abbrev pub ◌>>=◌ : {E A B : Type 0} → Result E A → (A → Result E B) → Result E B
error e >>= f = error e
ok x >>= f = f x

-- A property of the exception, and one of the value.
abbrev pub Outcome {κ} : {E A : Type 0} → (E → Type κ) → (A → Type κ) → Result E A → Type κ
Outcome P Q (error e) = P e
Outcome P Q (ok x) = Q x

pub >>=-Outcome :
    {E A B : Type 0} (P : E → Type 0) (R : A → Type 0) (Q : B → Type 0) (r : Result E A)
    (f : A → Result E B)
    → Outcome P R r
    → ((x : A) → R x → Outcome P Q (f x))
    → Outcome P Q (r >>= f)
>>=-Outcome P R Q (error e) f h k = h
>>=-Outcome P R Q (ok x) f h k = k x h

pub Outcome-imp :
    {E A : Type 0} (P P' : E → Type 0) (Q Q' : A → Type 0) (r : Result E A)
    → ((e : E) → P e → P' e)
    → ((x : A) → Q x → Q' x)
    → Outcome P Q r
    → Outcome P' Q' r
Outcome-imp P P' Q Q' (error e) f g h = f e h
Outcome-imp P P' Q Q' (ok x) f g h = g x h

pub Outcome-both :
    {E A : Type 0} (P : E → Type 0) (Q R : A → Type 0) (r : Result E A)
    → Outcome P Q r
    → Outcome (λ (e : E). Unit {0}) R r
    → Outcome P (λ x. Q x × R x) r
Outcome-both P Q R (error e) h k = h
Outcome-both P Q R (ok x) h k = (h, k)

-- An early return, and an early exception.
pub if-Outcome :
    {E A : Type 0} (P : E → Type 0) (Q : A → Type 0) (b : Bool) (early r : Result E A)
    → (b ≡ true → Outcome P Q early)
    → (b ≡ false → Outcome P Q r)
    → Outcome P Q (if b then early else r)
if-Outcome P Q true early r h k = h refl
if-Outcome P Q false early r h k = k refl

pub Outcome-IfOk :
    {E A : Type 0} (P : E → Type 0) (Q : A → Type 0) (r : Result E A) → Outcome P Q r → IfOk Q r
Outcome-IfOk P Q (error e) h = tt
Outcome-IfOk P Q (ok x) h = h

-- The value has the property, and is the one that the result holds.
pub Outcome-eq :
    {E A : Type 0} (P : E → Type 0) (Q : A → Type 0) (r : Result E A)
    → Outcome P Q r
    → Outcome P (λ x. Q x × (r ≡ ok x)) r
Outcome-eq P Q (error e) h = h
Outcome-eq P Q (ok x) h = (h, refl)
