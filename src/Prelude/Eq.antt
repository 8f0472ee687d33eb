-- ===== src/Prelude/Eq.antt =====
-- Keys: types with a Boolean equality test.
use mathlib.Core.Path.{◌≡◌, refl}
use mathlib.Core.Logic.{◌↔◌}
use mathlib.Core.Bool.{Bool, true, false, ◌&&◌}
use mathlib.Core.List.{List, [], ◌∷◌}
use native.Mathlib.Omega.{arith}
use Prim.Native.Nat.{ℕ}
use zookeeper.Prelude.Tests.{◌==◌, ==_iff}
use zookeeper.Prelude.Int.{ℤ, ◌==ℤ◌, ==ℤ_iff}

pub record Eq {ℓ} (A : Type ℓ) : Type ℓ where
  pub beq : A → A → Bool
  pub beq_iff : (a b : A) → (beq a b ≡ true) ↔ (a ≡ b)

instance abbrev pub nat_eq : Eq ℕ
nat_eq = record { beq = ◌==◌; beq_iff = ==_iff }

instance abbrev pub int_eq : Eq ℤ
int_eq = record { beq = ◌==ℤ◌; beq_iff = ==ℤ_iff }

-- Names: texts as lists of their bytes.
abbrev pub Name : Type 0
Name = List ℕ

infix 50 ◌==ₙ◌
abbrev pub ◌==ₙ◌ : Name → Name → Bool
[] ==ₙ [] = true
[] ==ₙ (y ∷ ys) = false
(x ∷ xs) ==ₙ [] = false
(x ∷ xs) ==ₙ (y ∷ ys) = x == y && xs ==ₙ ys

pub ==ₙ_iff : (a b : Name) → (a ==ₙ b ≡ true) ↔ (a ≡ b)
==ₙ_iff [] [] = ((λ h. refl), (λ h. refl))
==ₙ_iff [] (y ∷ ys) = ((λ h. cc), (λ h. cc))
==ₙ_iff (x ∷ xs) [] = ((λ h. cc), (λ h. cc))
==ₙ_iff (x ∷ xs) (y ∷ ys) =
    ((λ h. ground (arith, ==ₙ_iff xs ys)), (λ h. ground (arith, ==ₙ_iff xs ys)))

instance abbrev pub name_eq : Eq Name
name_eq = record { beq = ◌==ₙ◌; beq_iff = ==ₙ_iff }
