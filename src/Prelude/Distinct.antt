-- ===== src/Prelude/Distinct.antt =====
-- Lists of keys with no repetition, and the pigeonhole principle for the ids 1 to n.
use Prim.Native.Nat.{ℕ, zero, suc, ◌+◌, ◌≤◌}
use mathlib.Core.Path.{◌≡◌, refl}
use mathlib.Core.Logic.{◌⊎◌, inl, inr}
use mathlib.Core.Bool.{Bool, true, false, ◌||◌}
use mathlib.Core.List.{List, [], ◌∷◌, ◌++◌}
use native.Mathlib.Omega.{arith}
use zookeeper.Prelude.Tests.{if◌then◌else◌, Bool-cases}
use zookeeper.Prelude.Lists.{length, All}
use zookeeper.Prelude.Eq.{Eq, int_eq}
use zookeeper.Prelude.Int.{ℤ, pos, negsuc}

module _ {ℓ} {A : Type ℓ} ⦃e : Eq A⦄ where
  abbrev pub contains : A → List A → Bool
  contains a [] = false
  contains a (x ∷ xs) = e.beq x a || contains a xs

  abbrev pub Distinct : List A → Type 0
  Distinct [] = Unit {0}
  Distinct (x ∷ xs) = (contains x xs ≡ false) × Distinct xs

  abbrev without : A → List A → List A
  without a [] = []
  without a (x ∷ xs) = if e.beq x a then without a xs else x ∷ without a xs

  without_absent : (a : A) (xs : List A) → contains a xs ≡ false → without a xs ≡ xs
  without_absent a [] h = refl
  without_absent a (x ∷ xs) h = ground (arith, without_absent a xs)

  contains-without :
      (a b : A) (xs : List A) → contains a xs ≡ false → contains a (without b xs) ≡ false
  contains-without a b [] h = refl
  contains-without a b (x ∷ xs) h = ground (arith, contains-without a b xs)

  without-Distinct : (a : A) (xs : List A) → Distinct xs → Distinct (without a xs)
  without-Distinct a [] d = tt
  without-Distinct a (x ∷ xs) d =
      ground (arith, without-Distinct a xs d.1, contains-without x a xs d.0)

  length-without : (a : A) (xs : List A) → Distinct xs → length xs ≤ length (without a xs) + 1
  length-without a [] d = omega arith
  length-without a (x ∷ xs) d =
      ground (arith, length-without a xs d.1, without_absent x xs d.0, e.beq_iff x a)

  contains_append :
      (a : A) (xs ys : List A)
      → contains a xs ≡ false
      → contains a ys ≡ false
      → contains a (xs ++ ys) ≡ false
  contains_append a [] ys h k = k
  contains_append a (x ∷ xs) ys h k = ground (arith, contains_append a xs ys)

  -- A value that two lists share, if there is one; otherwise their join repeats nothing.
  pub meet_or_Distinct :
      (xs ys : List A)
      → Distinct xs
      → Distinct ys
      → ((a : A) × (contains a xs ≡ true) × (contains a ys ≡ true)) ⊎ Distinct (xs ++ ys)
  meet_or_Distinct [] ys d f = inr f
  meet_or_Distinct (x ∷ xs) ys d f = elim (Bool-cases (contains x ys)) [
    | inl shared ↦ inl (x, rw ((e.beq_iff x x).1 refl) refl, shared)
    | inr apart ↦ elim (meet_or_Distinct xs ys d.1 f) [
      | inl (a, p, q) ↦ inl (a, ground arith, q)
      | inr g ↦ inr (contains_append x xs ys d.0 apart, g)
    ]
  ]

-- One of the server ids 1 to n.
abbrev pub IsServer : ℕ → ℤ → Type 0
IsServer n (pos k) = (1 ≤ k) × (k ≤ n)
IsServer n (negsuc k) = ⊥

without-IsServer :
    (n : ℕ) (xs : List ℤ) → All (IsServer (suc n)) xs → All (IsServer n) (without (pos (suc n)) xs)
without-IsServer n [] h = tt
without-IsServer n (pos k ∷ xs) h = ground (arith, without-IsServer n xs h.1)
without-IsServer n (negsuc k ∷ xs) h = absurd h.0

pub pigeonhole : (n : ℕ) (xs : List ℤ) → Distinct xs → All (IsServer n) xs → length xs ≤ n
pigeonhole n [] d h = omega arith
pigeonhole zero (pos k ∷ xs) d h = absurd (omega arith)
pigeonhole zero (negsuc k ∷ xs) d h = absurd h.0
pigeonhole (suc n) (x ∷ xs) d h = omega (
  arith,
  length-without (pos (suc n)) (x ∷ xs) d,
  pigeonhole n (without (pos (suc n)) (x ∷ xs)) (without-Distinct (pos (suc n)) (x ∷ xs) d)
      (without-IsServer n (x ∷ xs) h),
)
