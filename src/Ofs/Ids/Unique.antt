-- ===== src/Ofs/Ids/Unique.antt =====
-- ofs/master/OfsId.h: ids of files and of blocks are told apart.
use zookeeper.Prelude.{
  ℕ, ◌+◌, ◌*◌, ◌/◌, ◌%◌, ◌^◌, ◌≤◌, ◌<◌, ◌≡◌, arith, List, [], ◌∷◌, Option, none, some, All, refl,
  length, get_elem?, zero, suc,
}
use zookeeper.Prelude.Shift.{bit_or-split, bit_or-shifted}
use zookeeper.Ofs.Ids.{
  tick_from_id, tick_from_timestamp, seq_from_id, build_file_id, block_id, file_id_from_block,
  index_from_block, attempt, generate_ids,
}

-- A tick of 32 bits, 21 bits left for a block's index, and a sequence number of 10 bits.
abbrev pub IsFileId : ℕ → Type 0
IsFileId id = (id < 2 ^ 63) × (id % 2 ^ 31 < 2 ^ 10)

build_file_id-sum : (t sub : ℕ) → build_file_id t sub ≡ t % 2 ^ 33 * 2 ^ 31 + sub % 2 ^ 10
unfolding build_file_id
build_file_id-sum t sub = bit_or-shifted 31 (t % 2 ^ 33) (sub % 2 ^ 10) (omega arith)

block_id-sum :
    (id index : ℕ) → IsFileId id → index < 2 ^ 21 → block_id id index ≡ id + index * 2 ^ 10
unfolding block_id
block_id-sum id index h l = ground (
  arith,
  bit_or-split 10 (id / 2 ^ 31 * 2 ^ 21) index (id % 2 ^ 10) 0,
  bit_or-shifted 21 (id / 2 ^ 31) index,
  bit_or-shifted 0 (id % 2 ^ 10) 0,
)

-- A block's id gives back its file's id and its index.
pub block_id_roundtrip :
    (id index : ℕ)
    → IsFileId id
    → index < 2 ^ 21
    → (file_id_from_block (block_id id index) ≡ id) × (index_from_block (block_id id index) ≡ index)
unfolding file_id_from_block index_from_block
block_id_roundtrip id index h l = rw (block_id-sum id index h l) (omega arith, omega arith)

-- A round that hands out an id hands out a larger one than the last, and again a file's id.
attempt-rises :
    (id now new : ℕ)
    → IsFileId id
    → now / 1000 < 2 ^ 32
    → attempt id now ≡ some new
    → (id < new) × IsFileId new
unfolding attempt tick_from_id tick_from_timestamp seq_from_id
attempt-rises id now new h l e = ground (
  arith,
  build_file_id-sum (now / 1000 % 2 ^ 33) 0,
  build_file_id-sum (id / 2 ^ 31) (id % 2 ^ 10 + 1),
)

-- The ids rise above the one before, each a file's.
abbrev pub Rises : ℕ → List ℕ → Type 0
Rises id [] = Unit {0}
Rises id (x ∷ xs) = (id < x) × IsFileId x × Rises x xs

-- Whatever the clock shows, going back included: each id that is handed out is larger than all before it.
pub generate_ids-Rises :
    (id : ℕ) (clock : List ℕ)
    → IsFileId id
    → All (λ now. now / 1000 < 2 ^ 32) clock
    → Rises id (generate_ids id clock)
unfolding generate_ids
generate_ids-Rises id [] h l = tt
generate_ids-Rises id (now ∷ clock) h l =
    generated (attempt id now) (attempt-rises id now) (generate_ids-Rises id clock h l.1)
      (λ new k. generate_ids-Rises new clock k l.1)
  where
    generated :
        (o : Option ℕ)
        → ((new : ℕ) → IsFileId id → now / 1000 < 2 ^ 32 → o ≡ some new → (id < new) × IsFileId new)
        → Rises id (generate_ids id clock)
        → ((new : ℕ) → IsFileId new → Rises new (generate_ids new clock))
        → Rises id
            (elim o [ none ↦ generate_ids id clock | some new ↦ new ∷ generate_ids new clock ])
    generated none r k f = k
    generated (some new) r k f = let risen = r new h l.0 refl in (risen.0, risen.1, f new risen.1)

attempt_later :
    (id now : ℕ)
    → tick_from_id id < tick_from_timestamp now
    → attempt id now ≡ some (build_file_id (tick_from_timestamp now) 0)
unfolding attempt
attempt_later id now h = ground arith

-- Waiting ends: once the clock has shown a reading past the second of the last id, an id is handed out.
pub generate_ids-returns :
    (id : ℕ) (clock : List ℕ) (i now : ℕ)
    → get_elem? clock i ≡ some now
    → tick_from_id id < tick_from_timestamp now
    → 1 ≤ length (generate_ids id clock)
unfolding generate_ids
generate_ids-returns id [] i now e h = absurd (cc)
generate_ids-returns id (t ∷ clock) zero now e h = ground (arith, attempt_later id t)
generate_ids-returns id (t ∷ clock) (suc i) now e h =
    elim (attempt id t)
      as (λ o.
        1
        ≤ length
            (elim o [ none ↦ generate_ids id clock | some new ↦ new ∷ generate_ids new clock ])) [
              | none ↦ generate_ids-returns id clock i now e h
              | some new ↦ omega arith
            ]
