-- ===== src/Ofs/Ids.antt =====
-- ofs/master/OfsId.h: the ids of files, by the second of their creation, and of the blocks of a file.
pub mod Unique
use zookeeper.Prelude.{
  ℕ, ◌+◌, ◌*◌, ◌/◌, ◌%◌, ◌^◌, ◌≤◌, ◌<◌, ◌≡◌, bit_or, arith, List, [], ◌∷◌, Option, none, some,
  if◌then◌else◌, ltb, leb,
}

-- Ids stand as numbers: an `int64_t` is not negative while its tick, the seconds since 1970, is below 2 ^ 32.
-- A tick has 33 bits, a sequence number 10, a block index 21.
unfoldable pub tick_from_id : ℕ → ℕ
tick_from_id id = id / 2 ^ 31

-- `SECOND` is in milliseconds.
unfoldable pub tick_from_timestamp : ℕ → ℕ
tick_from_timestamp ts = ts / 1000 % 2 ^ 33

unfoldable pub seq_from_id : ℕ → ℕ
seq_from_id id = id % 2 ^ 10

abbrev pub max_seq : ℕ
max_seq = 1023

unfoldable pub build_file_id : ℕ → ℕ → ℕ
build_file_id t sub = bit_or (t % 2 ^ 33 * 2 ^ 31) (sub % 2 ^ 10)

unfoldable pub block_id : ℕ → ℕ → ℕ
block_id file_id index = bit_or file_id (index % 2 ^ 21 * 2 ^ 10)

-- The mask 0xFFFFFFFF800003FF keeps the bits from 31 on and the last 10.
unfoldable pub file_id_from_block : ℕ → ℕ
file_id_from_block block = block / 2 ^ 31 * 2 ^ 31 + block % 2 ^ 10

unfoldable pub index_from_block : ℕ → ℕ
index_from_block block = block / 2 ^ 10 % 2 ^ 21

-- One round of the loop of `GenerateId`, from the id that `s_id` holds: the new id, none for a wait.
unfoldable pub attempt : ℕ → ℕ → Option ℕ
attempt id now =
    if ltb (tick_from_id id) (tick_from_timestamp now)
    then some (build_file_id (tick_from_timestamp now) 0)
    else if leb max_seq (seq_from_id id + 1)
    then none
    else some (build_file_id (tick_from_id id) (seq_from_id id + 1))

-- The ids that are handed out, at the clock's readings in the rounds, from `s_id`. Threads share `s_id`:
-- the rounds are those whose exchange succeeds and those that wait, in the order of their exchanges.
unfoldable pub generate_ids : ℕ → List ℕ → List ℕ
generate_ids id [] = []
generate_ids id (now ∷ later) = elim (attempt id now) [
  | none ↦ generate_ids id later
  | some new ↦ new ∷ generate_ids new later
]
