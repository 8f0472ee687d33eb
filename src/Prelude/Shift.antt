-- ===== src/Prelude/Shift.antt =====
-- A number shifted left, joined by `|` with one that fits below the shift.
use Prim.Native.Nat.{
  ℕ, zero, suc, ◌+◌, ◌*◌, ◌/◌, ◌%◌, ◌^◌, ◌≤◌, ◌<◌, max, bit_or, digits, bit_or-bitwise,
}
use mathlib.Core.Path.{◌≡◌, refl, ap}
use native.Mathlib.Nat.{pow-suc}
use native.Mathlib.Omega.{arith}

-- The digit recursion behind `bit_or`, with `fuel` digits at most.
abbrev joined : ℕ → ℕ → ℕ → ℕ
joined fuel a b = digits (λ y. y) max fuel a b

joined_fuel : (f g a b : ℕ) → a ≤ f → a ≤ g → joined f a b ≡ joined g a b
joined_fuel zero zero a b h k = refl
joined_fuel zero (suc g) zero b h k = refl
joined_fuel (suc f) zero zero b h k = refl
joined_fuel (suc f) (suc g) zero b h k = refl
joined_fuel zero g (suc a) b h k = absurd (omega arith)
joined_fuel (suc f) zero (suc a) b h k = absurd (omega arith)
joined_fuel (suc f) (suc g) (suc a) b h k =
    omega (arith, joined_fuel f g (suc a / 2) (b / 2) (omega arith) (omega arith))

zero-bit_or : (b : ℕ) → bit_or 0 b ≡ b
zero-bit_or b = bit_or-bitwise 0 b

bit_or_lowest : (a b : ℕ) → bit_or a b ≡ bit_or (a / 2) (b / 2) * 2 + max (a % 2) (b % 2)
bit_or_lowest zero b = omega (arith, zero-bit_or b, zero-bit_or (b / 2))
bit_or_lowest (suc a) b = omega (
  arith,
  bit_or-bitwise (suc a) b,
  bit_or-bitwise (suc a / 2) (b / 2),
  joined_fuel a (suc a / 2) (suc a / 2) (b / 2) (omega arith) (omega arith),
)

bit_or-zero : (fuel a : ℕ) → a ≤ fuel → bit_or a 0 ≡ a
bit_or-zero fuel zero h = refl
bit_or-zero zero (suc a) h = absurd (omega arith)
bit_or-zero (suc fuel) (suc a) h =
    omega (arith, bit_or_lowest (suc a) 0, bit_or-zero fuel (suc a / 2) (omega arith))

pub bit_or-shifted : (k high low : ℕ) → low < 2 ^ k → bit_or (high * 2 ^ k) low ≡ high * 2 ^ k + low
bit_or-shifted zero high low h = ground (arith, bit_or-zero high high (omega arith))
bit_or-shifted (suc k) high low h = ground (
  arith,
  pow-suc 2 k,
  ap (λ (p : ℕ). high * p) (pow-suc 2 k),
  bit_or_lowest (high * 2 ^ suc k) low,
  bit_or-shifted k high (low / 2),
)

-- The digits below a shift and those above it are joined apart.
pub bit_or-split :
    (k x y a b : ℕ)
    → a < 2 ^ k
    → b < 2 ^ k
    → bit_or (x * 2 ^ k + a) (y * 2 ^ k + b) ≡ bit_or x y * 2 ^ k + bit_or a b
bit_or-split zero x y a b h l = ground (
  arith,
  bit_or-zero x x (omega arith),
  bit_or-zero y y (omega arith),
  bit_or-zero a a (omega arith),
)
bit_or-split (suc k) x y a b h l = ground (
  arith,
  pow-suc 2 k,
  ap (λ (p : ℕ). x * p) (pow-suc 2 k),
  ap (λ (p : ℕ). y * p) (pow-suc 2 k),
  ap (λ (p : ℕ). bit_or x y * p) (pow-suc 2 k),
  bit_or_lowest (x * 2 ^ suc k + a) (y * 2 ^ suc k + b),
  bit_or_lowest a b,
  bit_or-split k x y (a / 2) (b / 2),
)
