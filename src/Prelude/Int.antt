-- ===== src/Prelude/Int.antt =====
-- Signed integers: the `int32_t` and `int64_t` of the wire formats. `negsuc n` is -(n + 1).
use Prim.Native.Nat.{ℕ, zero, suc}
use mathlib.Core.Path.{◌≡◌}
use mathlib.Core.Logic.{◌↔◌}
use mathlib.Core.Bool.{Bool, true, false}
use native.Mathlib.Omega.{arith}
use zookeeper.Prelude.Tests.{ltb, ◌==◌}

pub data ℤ : Type 0 where
  pos : ℕ → ℤ
  negsuc : ℕ → ℤ

abbrev pub ltb_ℤ : ℤ → ℤ → Bool
ltb_ℤ (pos a) (pos b) = ltb a b
ltb_ℤ (pos a) (negsuc b) = false
ltb_ℤ (negsuc a) (pos b) = true
ltb_ℤ (negsuc a) (negsuc b) = ltb b a

infix 50 ◌==ℤ◌
abbrev pub ◌==ℤ◌ : ℤ → ℤ → Bool
pos a ==ℤ pos b = a == b
pos a ==ℤ negsuc b = false
negsuc a ==ℤ pos b = false
negsuc a ==ℤ negsuc b = a == b

pub ==ℤ_iff : (a b : ℤ) → (a ==ℤ b ≡ true) ↔ (a ≡ b)
==ℤ_iff (pos a) (pos b) = ((λ h. ground arith), (λ h. ground arith))
==ℤ_iff (pos a) (negsuc b) = ((λ h. cc), (λ h. cc))
==ℤ_iff (negsuc a) (pos b) = ((λ h. cc), (λ h. cc))
==ℤ_iff (negsuc a) (negsuc b) = ((λ h. ground arith), (λ h. ground arith))

pub ==ℤ_refl : (a : ℤ) → a ==ℤ a ≡ true
==ℤ_refl (pos a) = ground arith
==ℤ_refl (negsuc a) = ground arith

-- The order is irreflexive, transitive, and linear.
pub ltb_ℤ_irrefl : (a : ℤ) → ltb_ℤ a a ≡ false
ltb_ℤ_irrefl (pos a) = ground arith
ltb_ℤ_irrefl (negsuc a) = ground arith

pub ltb_ℤ_trans : (a b c : ℤ) → ltb_ℤ a b ≡ true → ltb_ℤ b c ≡ true → ltb_ℤ a c ≡ true
ltb_ℤ_trans (pos a) b c h k = ground arith
ltb_ℤ_trans (negsuc a) b c h k = ground arith

pub ltb_ℤ_linear : (a b : ℤ) → ltb_ℤ a b ≡ false → ltb_ℤ b a ≡ false → a ≡ b
ltb_ℤ_linear (pos a) b h k = ground arith
ltb_ℤ_linear (negsuc a) b h k = ground arith

-- `x + 1`
abbrev pub suc_ℤ : ℤ → ℤ
suc_ℤ (pos n) = pos (suc n)
suc_ℤ (negsuc n) = elim n [ zero ↦ pos 0 | suc m ↦ negsuc m ]
