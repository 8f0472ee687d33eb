-- ===== src/Ofs/Copies.antt =====
-- ofs/node/block/Block.h, Block.cpp and BlockCopyToAction.cpp: how a block is copied to another data node.
pub mod Copied
pub mod Tests
use zookeeper.Prelude.{
  ℕ, zero, suc, ◌+◌, ◌/◌, ◌%◌, ◌≡◌, List, [], ◌∷◌, ◌++◌, Option, none, some, Bool, true, false,
  if◌then◌else◌, ltb, leb, ◌==◌, ◌&&◌, not, length, take, drop, replicate, set,
}

-- RecoverController, without its handle of the block's file.
pub record RecoverController : Type 0 where
  pub version : ℕ
  pub size : ℕ
  pub data_flags : List Bool

-- A block on a data node, with the bytes of its file, none if the file is not there.
pub record LocalBlock : Type 0 where
  pub version : ℕ
  pub size : ℕ
  pub recover : Option RecoverController
  pub bytes : Option (List ℕ)

-- A write at an offset; a gap before it is filled with zeros.
unfoldable pub write_bytes : ℕ → List ℕ → List ℕ → List ℕ
write_bytes offset text xs =
    take offset (xs ++ replicate offset 0) ++ (text ++ drop (offset + length text) xs)

unfoldable pub resize_bytes : ℕ → List ℕ → List ℕ
resize_bytes n xs = take n (xs ++ replicate n 0)

abbrev pub new_recover : ℕ → ℕ → ℕ → RecoverController
new_recover batch version size = record {
  version = version;
  size = size;
  data_flags = replicate (size / batch) false;
}

-- A file that is not there begins with the byte 'c'.
unfoldable pub file_or_new : Option (List ℕ) → List ℕ
file_or_new none = 99 ∷ []
file_or_new (some xs) = xs

unfoldable pub resized : ℕ → ℕ → ℕ → LocalBlock → LocalBlock
resized batch version size b = record b {
  recover = some (new_recover batch version size);
  bytes = some (resize_bytes size (file_or_new b.bytes));
}

-- Block::Resize.
unfoldable pub resize : ℕ → ℕ → ℕ → LocalBlock → LocalBlock
resize batch version size b = if leb version b.version then b else elim b.recover [
  | none ↦ resized batch version size b
  | some r ↦ if ltb r.version version then resized batch version size b else b
]

-- Block::RecoverData: a file that is not there cannot be opened; else the write succeeds.
unfoldable pub recover_data : ℕ → ℕ → ℕ → List ℕ → LocalBlock → LocalBlock
recover_data batch version offset text b = elim b.recover [
  | none ↦ b
  | some r ↦
      if r.version == version
      then elim b.bytes [
        | none ↦ b
        | some xs ↦ record b {
          recover = some (record r { data_flags = set r.data_flags (offset / batch) true });
          bytes = some (write_bytes offset text xs);
        }
      ]
      else b
]

unfoldable pub all_set : List Bool → Bool
all_set [] = true
all_set (flag ∷ flags) = flag && all_set flags

-- Block::CompleteRecover, where the block's information can be written.
unfoldable pub complete_recover : ℕ → LocalBlock → Bool × LocalBlock
complete_recover version b = elim b.recover [
  | none ↦ (false, b)
  | some r ↦
      if r.version == version && all_set r.data_flags
      then (true, record b { version = version; size = r.size; recover = none })
      else (false, b)
]

-- The messages of BlockCopyToAction.
pub data CopyMessage : Type 0 where
  start_recover_block : ℕ → ℕ → CopyMessage
  recover_block_data : ℕ → ℕ → List ℕ → CopyMessage
  recover_block_complete : ℕ → CopyMessage

-- The loop over the file, with `rounds` batches to read at most.
unfoldable pub copy_batches : ℕ → ℕ → ℕ → ℕ → List ℕ → List CopyMessage
copy_batches batch version zero offset xs = []
copy_batches batch version (suc rounds) offset [] = []
copy_batches batch version (suc rounds) offset (x ∷ xs) =
    let text = take batch (x ∷ xs) in
    recover_block_data version offset text
    ∷ copy_batches batch version rounds (offset + length text) (drop batch (x ∷ xs))

-- BlockCopyToAction::Start: a block whose size is not a multiple of the batch size is not copied.
unfoldable pub copy_to : ℕ → LocalBlock → List CopyMessage
copy_to batch b = elim b.bytes [
  | none ↦ []
  | some xs ↦
      if length xs == b.size && b.size % batch == 0
      then start_recover_block b.version b.size
        ∷ (copy_batches batch b.version (length xs) 0 xs ++ (recover_block_complete b.version ∷ []))
      else []
]

unfoldable pub receive_copy : ℕ → CopyMessage → LocalBlock → LocalBlock
receive_copy batch (start_recover_block version size) b = resize batch version size b
receive_copy batch (recover_block_data version offset text) b =
    recover_data batch version offset text b
receive_copy batch (recover_block_complete version) b = (complete_recover version b).1

unfoldable pub receive_all : ℕ → List CopyMessage → LocalBlock → LocalBlock
receive_all batch [] b = b
receive_all batch (msg ∷ msgs) b = receive_all batch msgs (receive_copy batch msg b)
