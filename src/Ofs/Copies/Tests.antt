-- ===== src/Ofs/Copies/Tests.antt =====
-- ofs/node/block: a copy of two batches on concrete blocks.
use zookeeper.Prelude.{[], ◌∷◌, none, some, ◌≡◌, refl, arith}
use zookeeper.Ofs.Copies.{LocalBlock, copy_to, receive_all}
use zookeeper.Ofs.Copies.Copied.{receive_all-copy_to}

abbrev two_batches : LocalBlock
two_batches = record { version = 5; size = 4; recover = none; bytes = some (1 ∷ 2 ∷ 3 ∷ 4 ∷ []) }

abbrev old_copy : LocalBlock
old_copy = record { version = 2; size = 3; recover = none; bytes = some (9 ∷ 9 ∷ 9 ∷ []) }

receive_all-copy_to_example : receive_all 2 (copy_to 2 two_batches) old_copy ≡ two_batches
receive_all-copy_to_example =
    receive_all-copy_to 2 2 (1 ∷ 2 ∷ 3 ∷ 4 ∷ []) two_batches old_copy (omega arith) refl refl refl
      (omega arith) refl

-- A block whose size is no multiple of the batch is not copied.
odd_size-unsent : copy_to 3 two_batches ≡ []
unfolding copy_to
odd_size-unsent = refl
