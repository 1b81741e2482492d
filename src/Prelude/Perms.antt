-- ===== src/Prelude/Perms.antt =====
-- Permutations and native lengths.
use Prim.Native.Nat.{suc}
use mathlib.Core.Path.{◌≡◌, refl, ap, ◌∙◌}
use mathlib.Core.Logic.{∥∥₁_elim}
use mathlib.Core.List.{List, Perm, Permᴰ}
use native.Mathlib.Nat.{ℕ_set}
use flash_loan.Prelude.Lists.{length}

length-permᴰ {ℓ} : {A : Type ℓ} {xs ys : List A} → Permᴰ xs ys → length xs ≡ length ys
length-permᴰ Permᴰ.nil = refl
length-permᴰ (Permᴰ.cons e p) = ap suc (length-permᴰ p)
length-permᴰ (Permᴰ.swap e f) = refl
length-permᴰ (Permᴰ.trans p q) = length-permᴰ p ∙ length-permᴰ q

-- Permutations have the same length.
pub length-perm {ℓ} : {A : Type ℓ} {xs ys : List A} → Perm xs ys → length xs ≡ length ys
length-perm {xs} {ys} p = ∥∥₁_elim p (ℕ_set (length xs) (length ys)) length-permᴰ
