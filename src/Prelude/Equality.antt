-- ===== src/Prelude/Equality.antt =====
-- Boolean equality as an interface, its instances for numbers, texts and pairs, and texts as lists
-- of code points with the operations of Python's `str` that the program uses.
use Prim.Native.Nat.{ℕ, ◌+◌}
use Prim.Native.Char.{code}
use Prim.Native.String.{String}
use mathlib.Core.Path.{◌≡◌, refl}
use mathlib.Core.Logic.{◌↔◌}
use mathlib.Core.Bool.{Bool, true, false, ◌&&◌, ◌||◌}
use mathlib.Core.List.{List, [], ◌∷◌, map}
use native.Mathlib.Omega.{arith}
use flash_loan.Prelude.Tests.{leb, ◌==◌ as nat_eq, if◌then◌else◌}

pub record Eq {ℓ} (A : Type ℓ) : Type ℓ where
  pub beq : A → A → Bool
  pub beq_iff : (a b : A) → (beq a b ≡ true) ↔ (a ≡ b)

pub nat_eq_iff : (a b : ℕ) → (nat_eq a b ≡ true) ↔ (a ≡ b)
nat_eq_iff a b = ground arith

-- A Python `str`, as its code points.
abbrev pub Text : Type 0
Text = List ℕ

-- The code points of a literal.
abbrev pub codes : String → Text
codes String.[] = []
codes (String.◌∷◌ c s) = code c ∷ codes s

-- `s == t`
abbrev pub text_eq : Text → Text → Bool
text_eq [] [] = true
text_eq [] (d ∷ t) = false
text_eq (c ∷ s) [] = false
text_eq (c ∷ s) (d ∷ t) = nat_eq c d && text_eq s t

pub text_eq_iff : (s t : Text) → (text_eq s t ≡ true) ↔ (s ≡ t)
text_eq_iff [] [] = ground arith
text_eq_iff [] (d ∷ t) = ground arith
text_eq_iff (c ∷ s) [] = ground arith
text_eq_iff (c ∷ s) (d ∷ t) = ground (arith, text_eq_iff s t)

instance abbrev pub Eq_nat : Eq ℕ
Eq_nat = record { beq = nat_eq; beq_iff = nat_eq_iff }

instance abbrev pub Eq_text : Eq Text
Eq_text = record { beq = text_eq; beq_iff = text_eq_iff }

-- Equality of a tuple `(a, b)`.
abbrev pub pair_eq {ℓ κ} : {A : Type ℓ} {B : Type κ} → Eq A → Eq B → A × B → A × B → Bool
pair_eq e f (a, b) (c, d) = e.beq a c && f.beq b d

pub pair_eq_iff {ℓ κ} :
    {A : Type ℓ} {B : Type κ} (e : Eq A) (f : Eq B) (p q : A × B)
    → (pair_eq e f p q ≡ true) ↔ (p ≡ q)
pair_eq_iff e f (a, b) (c, d) = ground (arith, e.beq_iff a c, f.beq_iff b d)

abbrev pub Eq_pair {ℓ κ} : {A : Type ℓ} {B : Type κ} → Eq A → Eq B → Eq (A × B)
Eq_pair e f = record { beq = pair_eq e f; beq_iff = pair_eq_iff e f }

-- The key of a dictionary indexed by `(int, str)`.
instance abbrev pub Eq_key : Eq (ℕ × Text)
Eq_key = Eq_pair Eq_nat Eq_text

-- The key of a dictionary indexed by `(str, str)`.
instance abbrev pub Eq_text_pair : Eq (Text × Text)
Eq_text_pair = Eq_pair Eq_text Eq_text

-- `str.lower` on ASCII text, which is all that the program's addresses and messages hold.
abbrev pub lower_code : ℕ → ℕ
lower_code c = if leb 65 c && leb c 90 then c + 32 else c

abbrev pub lower : Text → Text
lower = map lower_code

-- `s.startswith(p)`
abbrev pub starts_with : Text → Text → Bool
starts_with s [] = true
starts_with [] (d ∷ p) = false
starts_with (c ∷ s) (d ∷ p) = nat_eq c d && starts_with s p

-- `p in s`
abbrev pub contains_text : Text → Text → Bool
contains_text [] p = starts_with [] p
contains_text (c ∷ s) p = starts_with (c ∷ s) p || contains_text s p

pub lower_code-lower_code : (c : ℕ) → lower_code (lower_code c) ≡ lower_code c
lower_code-lower_code c = ground arith

-- Lower-casing twice is lower-casing once.
pub lower-lower : (s : Text) → lower (lower s) ≡ lower s
lower-lower [] = refl
lower-lower (c ∷ s) = ground (arith, lower_code-lower_code c, lower-lower s)
