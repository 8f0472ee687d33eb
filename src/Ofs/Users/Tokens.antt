-- ===== src/Ofs/Users/Tokens.antt =====
-- ofs/master/user/UserManager.cpp, Generate and Login: which tokens are given.
use zookeeper.Prelude.{
  ℕ, zero, suc, ◌+◌, ◌-◌, ◌*◌, ◌/◌, ◌%◌, ◌^◌, ◌≤◌, ◌<◌, ◌≡◌, refl, arith, [], ◌∷◌, dec_le,
}
use native.Mathlib.Nat.{pow-suc}
use zookeeper.Prelude.Eq.{Name}
use zookeeper.Ofs.Users.{UserManager, first_seed, next_seed, letters, generate, login}

-- `seed` after so many logins.
unfoldable pub seed_after : ℕ → ℕ
seed_after zero = first_seed
seed_after (suc n) = next_seed (seed_after n)

seed_after-suc : (n : ℕ) → seed_after (suc n) ≡ next_seed (seed_after n)
unfolding seed_after
seed_after-suc n = refl

next_seed-zero : next_seed 0 ≡ 0
unfolding next_seed
next_seed-zero = refl

seed_after_11 : seed_after 11 ≡ 0
unfolding seed_after next_seed
seed_after_11 = refl

seed_after-zero : (n : ℕ) → 11 ≤ n → seed_after n ≡ 0
seed_after-zero zero h = absurd (omega arith)
seed_after-zero (suc n) h = elim (dec_le 11 n) [
  | yes l ↦ ground (arith, seed_after-suc n, next_seed-zero, seed_after-zero n l)
  | no g ↦ ground (arith, seed_after_11)
]

letters-zero : (count : ℕ) → letters count 0 ≡ []
unfolding letters
letters-zero zero = refl
letters-zero (suc count) = refl

generate-empty : (n : ℕ) → 10 ≤ n → generate (seed_after n) ≡ []
unfolding generate
generate-empty n h =
    ground (arith, seed_after-suc n, seed_after-zero (suc n) (omega arith), letters-zero 32)

-- After ten logins nobody is given a token any more: the text that Login returns is empty, as it is for a wrong
-- password.
pub login-empty :
    (n : ℕ) (name password : Name) (now : ℕ) (m : UserManager)
    → 10 ≤ n
    → m.seed ≡ seed_after n
    → (login name password now m).0 ≡ []
unfolding login
login-empty n name password now m l h = ground (arith, generate-empty n l)

-- The number that the letters of a token stand for.
abbrev pub value : Name → ℕ
value [] = 0
value (c ∷ cs) = c - 97 + 26 * value cs

value-letters : (count key : ℕ) → key < 26 ^ count → value (letters count key) ≡ key
unfolding letters
value-letters zero key h = omega arith
value-letters (suc count) key h = ground (arith, pow-suc 26 count, value-letters count (key / 26))

-- A token gives back the key it was made from, which is the seed then: different keys have different tokens.
pub generate_roundtrip : (seed : ℕ) → value (generate seed) ≡ next_seed seed
unfolding generate next_seed
generate_roundtrip seed = value-letters 32 (seed * 12978312 % 2 ^ 32) (omega arith)
