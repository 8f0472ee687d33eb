-- ===== src/Ofs/Sizes.antt =====
-- ofs/master/file/FileSystem.h and File.h: the size of a file and the numbers of its blocks.
use zookeeper.Prelude.{
  ℕ, ◌+◌, ◌-◌, ◌*◌, ◌/◌, ◌%◌, ◌^◌, ◌≡◌, refl, ◌∙◌, ap, arith, List, [], ◌∷◌, if◌then◌else◌, ltb,
  ◌==◌,
}
use mathlib.Core.Logic.{∥∥₁_elim}
use mathlib.Core.List.{Perm, Permᴰ}
use native.Mathlib.Nat.{ℕ_set}

-- `size / _blockSize` is a division of `uint32_t`; the block size is positive.
unfoldable pub calc_block_count : ℕ → ℕ → ℕ
calc_block_count block_size size = size / block_size + (if size % block_size == 0 then 0 else 1)

unfoldable pub calc_append_block : ℕ → ℕ → ℕ
calc_append_block block_size size = size / block_size + 1

unfoldable pub calc_file_size : ℕ → ℕ → ℕ → ℕ
calc_file_size block_size index new_size = ((index - 1) * block_size + new_size) % 2 ^ 32

unfoldable pub update_size : ℕ → ℕ → ℕ
update_size new old = if ltb old new then new else old

unfoldable pub update_all : ℕ → List ℕ → ℕ
update_all old [] = old
update_all old (new ∷ later) = update_all (update_size new old) later

update_size-swap :
    (old a b : ℕ) → update_size b (update_size a old) ≡ update_size a (update_size b old)
unfolding update_size
update_size-swap old a b = ground arith

update_all-Permᴰ : (old : ℕ) (xs ys : List ℕ) → Permᴰ xs ys → update_all old xs ≡ update_all old ys
unfolding update_all
update_all-Permᴰ old _ _ Permᴰ.nil = refl
update_all-Permᴰ old _ _ (Permᴰ.cons {a = a} {b = b} {l₁ = xs} {l₂ = ys} e p) =
    update_all-Permᴰ (update_size a old) xs ys p
    ∙ ap (λ (t : ℕ). update_all (update_size t old) ys) e
update_all-Permᴰ old _ _ (Permᴰ.swap {a = a} {b = b} {a' = a'} {b' = b'} {l = l} e f) =
    ap (λ (t : ℕ). update_all t l) (ground (arith, update_size-swap old a b, e, f))
update_all-Permᴰ old xs zs (Permᴰ.trans {l₂ = ys} p q) =
    update_all-Permᴰ old xs ys p ∙ update_all-Permᴰ old ys zs q

-- The order in which the data nodes report their blocks makes no difference to the size.
pub update_all-Perm :
    (old : ℕ) (xs ys : List ℕ) → Perm xs ys → update_all old xs ≡ update_all old ys
update_all-Perm old xs ys p = ∥∥₁_elim p (ℕ_set _ _) (update_all-Permᴰ old xs ys)
