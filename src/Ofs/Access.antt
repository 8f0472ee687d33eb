-- ===== src/Ofs/Access.antt =====
-- ofs/node/block/Block.cpp and olib/src/random_access_file.cpp: reads, writes and appends of a block's file.
pub mod Writing
pub mod Stored
pub mod Tests
use zookeeper.Prelude.{
  ℕ, zero, suc, ◌+◌, List, [], ◌∷◌, Option, none, some, Bool, true, false, if◌then◌else◌, ltb, ◌==◌,
  not, length, take, drop,
}
use zookeeper.Ofs.Copies.{LocalBlock, RecoverController, write_bytes}

pub data FileResult : Type 0 where
  success : FileResult
  file_open_failed : FileResult
  op_failed : FileResult
  op_incompelete : FileResult
  op_out_of_range : FileResult

-- What a call of pwrite64 does: it writes a part of the bytes, asks for another call (EINTR, EAGAIN,
-- EBADF), or fails.
pub data Pwrite : Type 0 where
  wrote : ℕ → Pwrite
  retry : Pwrite
  broken : Pwrite

-- The loop of RandomAccessFile::Write on an open file. A failure gives the result that WIN32 has for it.
unfoldable pub write_from : (ℕ → Pwrite) → ℕ → ℕ → List ℕ → List ℕ → FileResult × List ℕ
write_from calls tries offset [] xs = (success, xs)
write_from calls zero offset (x ∷ text) xs = (op_incompelete, xs)
write_from calls (suc tries) offset (x ∷ text) xs = elim (calls tries) [
  | wrote zero ↦ (op_incompelete, xs)
  | wrote (suc n) ↦
      let part = take (suc n) (x ∷ text) in
      write_from calls tries (offset + length part) (drop (length part) (x ∷ text))
        (write_bytes offset part xs)
  | retry ↦ write_from calls tries offset (x ∷ text) xs
  | broken ↦ (op_failed, xs)
]

abbrev pub max_disk_times : ℕ
max_disk_times = 5

-- RandomAccessFile::Write. A file that is not there cannot be opened.
unfoldable pub write_through :
    (ℕ → Pwrite) → ℕ → List ℕ → Option (List ℕ) → FileResult × Option (List ℕ)
write_through calls offset [] bytes = (success, bytes)
write_through calls offset (x ∷ text) none = (file_open_failed, none)
write_through calls offset (x ∷ text) (some xs) =
    let r = write_from calls max_disk_times offset (x ∷ text) xs in (r.0, some r.1)

unfoldable pub size_of_file : Option (List ℕ) → ℕ
size_of_file none = 0
size_of_file (some xs) = length xs

-- RandomAccessFile::Append: a write at the size that the file has when it is opened.
unfoldable pub append_to : (ℕ → Pwrite) → List ℕ → Option (List ℕ) → FileResult × Option (List ℕ)
append_to calls text bytes = write_through calls (size_of_file bytes) text bytes

-- RandomAccessFile::Read, where the calls of pread64 give what is in the file.
unfoldable pub read_from : ℕ → ℕ → Option (List ℕ) → FileResult × List ℕ
read_from offset zero bytes = (success, [])
read_from offset (suc n) none = (file_open_failed, [])
read_from offset (suc n) (some xs) =
    let text = take (suc n) (drop offset xs) in
    if length text == suc n then (success, text) else (op_out_of_range, text)

pub data ChunkError : Type 0 where
  ec_none : ChunkError
  ec_block_not_eixst : ChunkError
  ec_block_incorrect : ChunkError
  ec_block_read_failed : ChunkError
  ec_block_write_failed : ChunkError
  ec_block_file_not_exist : ChunkError
  ec_block_out_of_range : ChunkError
  ec_block_open_or_create_file_failed : ChunkError
  ec_write_block_version_check_failed : ChunkError
  ec_write_block_check_size_failed : ChunkError
  ec_block_full : ChunkError
  ec_lease_expire : ChunkError
  ec_block_is_recovering : ChunkError

unfoldable pub read_error : FileResult → ChunkError
read_error success = ec_none
read_error file_open_failed = ec_block_file_not_exist
read_error op_failed = ec_block_read_failed
read_error op_incompelete = ec_block_read_failed
read_error op_out_of_range = ec_block_out_of_range

unfoldable pub write_error : FileResult → ChunkError
write_error success = ec_none
write_error file_open_failed = ec_block_open_or_create_file_failed
write_error op_failed = ec_block_write_failed
write_error op_incompelete = ec_block_write_failed
write_error op_out_of_range = ec_block_write_failed

-- Block::Read; the data is part of the answer.
unfoldable pub read_data : ℕ → ℕ → LocalBlock → ChunkError × List ℕ
read_data offset size b =
    if ltb b.size (offset + size) then (ec_block_out_of_range, []) else elim b.recover [
      | some r ↦ (ec_block_is_recovering, [])
      | none ↦ let r = read_from offset size b.bytes in (read_error r.0, r.1)
    ]

unfoldable pub version_fails : Bool → ℕ → ℕ → Bool
version_fails strict except_version version =
    if strict then not (version == except_version) else ltb version except_version

unfoldable pub version_after : Bool → ℕ → ℕ → ℕ
version_after strict new_version version =
    if strict then new_version else if ltb version new_version then new_version else version + 1

-- A block whose file was written.
abbrev pub updated : Bool → ℕ → ℕ → Option (List ℕ) → LocalBlock → LocalBlock
updated strict new_version added bytes b = record b {
  version = version_after strict new_version b.version;
  size = b.size + added;
  bytes = bytes;
}

-- The end of Write and of Append: `meta` is the result of the write of the block's information.
unfoldable pub stored :
    FileResult → Bool → ℕ → ℕ → FileResult × Option (List ℕ) → LocalBlock → ChunkError × LocalBlock
stored meta strict new_version added (success, bytes) b =
    (write_error meta, updated strict new_version added bytes b)
stored meta strict new_version added (op_out_of_range, bytes) b =
    (write_error meta, updated strict new_version added bytes b)
stored meta strict new_version added (file_open_failed, bytes) b =
    (ec_block_open_or_create_file_failed, record b { bytes = bytes })
stored meta strict new_version added (op_failed, bytes) b =
    (ec_block_write_failed, record b { bytes = bytes })
stored meta strict new_version added (op_incompelete, bytes) b =
    (ec_block_write_failed, record b { bytes = bytes })

-- Block::Write.
unfoldable pub write_data :
    (ℕ → Pwrite) → FileResult → ℕ → ℕ → ℕ → List ℕ → Bool → LocalBlock → ChunkError × LocalBlock
write_data calls meta except_version new_version offset text strict b =
    if ltb b.size (offset + length text) then (ec_block_out_of_range, b) else elim b.recover [
      | some r ↦ (ec_block_is_recovering, b)
      | none ↦
          if version_fails strict except_version b.version
          then (ec_write_block_version_check_failed, b)
          else stored meta strict new_version 0 (write_through calls offset text b.bytes) b
    ]

-- Block::Append.
unfoldable pub append_data :
    ℕ → (ℕ → Pwrite) → FileResult → ℕ → ℕ → List ℕ → Bool → LocalBlock → ChunkError × LocalBlock
append_data block_size calls meta except_version new_version text strict b = elim b.recover [
  | some r ↦ (ec_block_is_recovering, b)
  | none ↦
      if version_fails strict except_version b.version
      then (ec_write_block_version_check_failed, b)
      else if ltb block_size (b.size + length text)
      then (ec_block_full, b)
      else stored meta strict new_version (length text) (append_to calls text b.bytes) b
]
