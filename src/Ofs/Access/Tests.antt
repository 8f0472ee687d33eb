-- ===== src/Ofs/Access/Tests.antt =====
-- ofs/node/block/Block.cpp: a write and an append on a concrete block.
use zookeeper.Prelude.{ℕ, ◌≤◌, ◌≡◌, refl, [], ◌∷◌, none, some, if◌then◌else◌, ◌==◌, true, false}
use zookeeper.Ofs.Copies.{LocalBlock, write_bytes}
use zookeeper.Ofs.Access.{
  success, Pwrite, wrote, retry, broken, write_from, write_through, append_to, size_of_file,
  read_from, ec_none, read_data, write_data, append_data, read_error, write_error, stored,
  version_fails, version_after,
}
use zookeeper.Ofs.Access.Stored.{read_data-write_data, read_data-append_data}

abbrev four_bytes : LocalBlock
four_bytes = record { version = 3; size = 4; recover = none; bytes = some (1 ∷ 2 ∷ 3 ∷ 4 ∷ []) }

-- The first call is interrupted, each other one writes a byte.
abbrev byte_by_byte : ℕ → Pwrite
byte_by_byte n = if n == 4 then retry else wrote 1

-- One byte is written before the disk fails.
abbrev breaking : ℕ → Pwrite
breaking n = if n == 4 then wrote 1 else broken

accepts_write : (write_data byte_by_byte success 3 4 1 (8 ∷ 9 ∷ []) false four_bytes).0 ≡ ec_none
unfolding write_data write_through write_from write_bytes stored version_fails version_after
    write_error
accepts_write = refl

accepts_append : (append_data 8 byte_by_byte success 3 4 (8 ∷ 9 ∷ []) true four_bytes).0 ≡ ec_none
unfolding append_data append_to size_of_file write_through write_from write_bytes stored
    version_fails version_after write_error
accepts_append = refl

read_data-write_data_example :
    let after = (write_data byte_by_byte success 3 4 1 (8 ∷ 9 ∷ []) false four_bytes).1 in
    (read_data 1 2 after ≡ (ec_none, 8 ∷ 9 ∷ []))
    × (after.bytes ≡ some (1 ∷ 8 ∷ 9 ∷ 4 ∷ []))
    × (after.size ≡ 4)
    × (4 ≤ after.version)
read_data-write_data_example =
    read_data-write_data byte_by_byte success 3 4 1 (8 ∷ 9 ∷ []) false four_bytes
      (1 ∷ 2 ∷ 3 ∷ 4 ∷ []) refl refl accepts_write

read_data-append_data_example :
    let after = (append_data 8 byte_by_byte success 3 4 (8 ∷ 9 ∷ []) true four_bytes).1 in
    (read_data 4 2 after ≡ (ec_none, 8 ∷ 9 ∷ []))
    × (after.bytes ≡ some (1 ∷ 2 ∷ 3 ∷ 4 ∷ 8 ∷ 9 ∷ []))
    × (after.size ≡ 6)
    × (after.size ≤ 8)
    × (4 ≤ after.version)
read_data-append_data_example =
    read_data-append_data 8 byte_by_byte success 3 4 (8 ∷ 9 ∷ []) true four_bytes
      (1 ∷ 2 ∷ 3 ∷ 4 ∷ []) refl refl accepts_append

-- An append that fails leaves its first byte in the file; the next one is answered with EC_NONE, and a
-- read of what it appended gives the byte that was left.
torn-append :
    let torn = (append_data 8 breaking success 3 4 (7 ∷ 8 ∷ []) true four_bytes).1 in
    let after = (append_data 8 byte_by_byte success 3 4 (9 ∷ []) true torn).1 in
    read_data 4 1 after ≡ (ec_none, 7 ∷ [])
unfolding append_data append_to size_of_file write_through write_from write_bytes stored
    version_fails version_after write_error read_data read_from read_error
torn-append = refl
