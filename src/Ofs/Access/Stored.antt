-- ===== src/Ofs/Access/Stored.antt =====
-- ofs/node/block/Block.cpp: what a read gives after a write or an append.
use zookeeper.Prelude.{
  ℕ, ◌+◌, ◌≤◌, ◌≡◌, ◌≢◌, refl, sym, ap, ◌∙◌, arith, List, [], ◌++◌, append-nil, Option, none, some,
  Bool, false, ltb, length, take, drop, length-append,
}
use zookeeper.Ofs.Copies.{LocalBlock}
use zookeeper.Ofs.Copies.Copied.{length-take, append-take-drop}
use zookeeper.Ofs.Access.{
  FileResult, success, file_open_failed, op_failed, op_incompelete, op_out_of_range, Pwrite,
  write_through, append_to, size_of_file, ec_none, read_data, write_data, append_data, stored,
  version_after, updated,
}
use zookeeper.Ofs.Access.Writing.{
  drop-nil, written, write_through-success, read_from-written, write_through-in_range, read_none,
}

-- An answer EC_NONE says that all of the text was written.
stored-none :
    (meta : FileResult) (strict : Bool) (new_version added : ℕ) (r : FileResult × Option (List ℕ))
    (b : LocalBlock)
    → (stored meta strict new_version added r b).0 ≡ ec_none
    → r.0 ≢ op_out_of_range
    → (r.0 ≡ success)
      × ((stored meta strict new_version added r b).1 ≡ updated strict new_version added r.1 b)
unfolding stored
stored-none meta strict new_version added (success, bytes) b h sound = (refl, refl)
stored-none meta strict new_version added (file_open_failed, bytes) b h sound =
    absurd (ground arith)
stored-none meta strict new_version added (op_failed, bytes) b h sound = absurd (ground arith)
stored-none meta strict new_version added (op_incompelete, bytes) b h sound = absurd (ground arith)
stored-none meta strict new_version added (op_out_of_range, bytes) b h sound = absurd (sound refl)

accepted :
    (calls : ℕ → Pwrite) (meta : FileResult) (except_version new_version offset : ℕ) (text : List ℕ)
    (strict : Bool) (b : LocalBlock)
    → (write_data calls meta except_version new_version offset text strict b).0 ≡ ec_none
    → (write_data calls meta except_version new_version offset text strict b
        ≡ stored meta strict new_version 0 (write_through calls offset text b.bytes) b)
      × (b.recover ≡ none)
      × (offset + length text ≤ b.size)
unfolding write_data
accepted calls meta except_version new_version offset text strict b h = ground arith

append_accepted :
    (block_size : ℕ) (calls : ℕ → Pwrite) (meta : FileResult) (except_version new_version : ℕ)
    (text : List ℕ) (strict : Bool) (b : LocalBlock)
    → (append_data block_size calls meta except_version new_version text strict b).0 ≡ ec_none
    → (append_data block_size calls meta except_version new_version text strict b
        ≡ stored meta strict new_version (length text) (append_to calls text b.bytes) b)
      × (b.recover ≡ none)
      × (b.size + length text ≤ block_size)
unfolding append_data
append_accepted block_size calls meta except_version new_version text strict b h = ground arith

read_data-written :
    (sent text rest : List ℕ) (b : LocalBlock)
    → b.recover ≡ none
    → b.bytes ≡ some (written sent text rest)
    → length sent + length text ≤ b.size
    → read_data (length sent) (length text) b ≡ (ec_none, text)
unfolding read_data
read_data-written sent text rest b idle there room =
    let inside : ltb b.size (length sent + length text) ≡ false = ground arith in
    simp (inside, idle, there, read_from-written sent text rest, read_none)

le-version_after :
    (strict : Bool) (new_version version : ℕ)
    → new_version ≤ version_after strict new_version version
unfolding version_after
le-version_after strict new_version version = ground arith

-- The block after an accepted write of a text behind the bytes `sent`.
after_stored :
    (calls : ℕ → Pwrite) (meta : FileResult) (strict : Bool) (new_version added : ℕ)
    (sent text rest : List ℕ) (b : LocalBlock)
    → (stored meta strict new_version added
        (write_through calls (length sent) text (some (sent ++ rest)))
        b).0
      ≡ ec_none
    → (stored meta strict new_version added
        (write_through calls (length sent) text (some (sent ++ rest)))
        b).1
      ≡ updated strict new_version added (some (written sent text rest)) b
after_stored calls meta strict new_version added sent text rest b h =
    let ended =
      stored-none meta strict new_version added
        (write_through calls (length sent) text (some (sent ++ rest))) b h
        (write_through-in_range calls (length sent) text (some (sent ++ rest))) in
    ended.1
    ∙ ap (λ bytes. updated strict new_version added (bytes) b)
        (write_through-success calls sent text rest ended.0)

-- A write that is answered with EC_NONE, on a block whose file has the bytes xs and the block's size: a
-- read at its offset then gives what was written, all other bytes and the size of the block stay, and the
-- version is not lower than the new one.
pub read_data-write_data :
    (calls : ℕ → Pwrite) (meta : FileResult) (except_version new_version offset : ℕ) (text : List ℕ)
    (strict : Bool) (b : LocalBlock) (xs : List ℕ)
    → b.bytes ≡ some xs
    → length xs ≡ b.size
    → (write_data calls meta except_version new_version offset text strict b).0 ≡ ec_none
    → let after = (write_data calls meta except_version new_version offset text strict b).1 in
      (read_data offset (length text) after ≡ (ec_none, text))
      × (after.bytes ≡ some ((take offset xs ++ text) ++ drop (length text) (drop offset xs)))
      × (after.size ≡ b.size)
      × (new_version ≤ after.version)
read_data-write_data calls meta except_version new_version offset text strict b xs there sized h =
    let answer = accepted calls meta except_version new_version offset text strict b h in
    let sent = take offset xs in
    let rest = drop offset xs in
    let size : length sent ≡ offset = length-take offset xs (omega (arith, answer.2)) in
    let same : write_through calls offset text b.bytes
        ≡ write_through calls (length sent) text (some (sent ++ rest)) =
      ap (λ o. write_through calls o text b.bytes) (sym size)
      ∙ ap (write_through calls (length sent) text)
          (there ∙ ap some (sym (append-take-drop offset xs))) in
    let split = answer.0 ∙ ap (λ r. stored meta strict new_version 0 r b) same in
    let final =
      ap (λ r. r.1) split
      ∙ after_stored calls meta strict new_version 0 sent text rest b
          (sym (ap (λ r. r.0) split) ∙ h) in
    rw final (
      ap
            (λ o.
              read_data o (length text)
                (updated strict new_version 0 (some (written sent text rest)) b))
            (sym size)
          ∙ read_data-written sent text rest
              (updated strict new_version 0 (some (written sent text rest)) b) answer.1 refl
              (omega (arith, answer.2, size)),
      refl,
      omega arith,
      le-version_after strict new_version b.version,
    )

-- An append that is answered with EC_NONE, on a block whose file has the bytes xs and the block's size:
-- a read at the old size gives what was appended, the file has all bytes it had with the new ones behind
-- them, the size of the block is that of its file and not over the size of a block, and the version is
-- not lower than the new one.
pub read_data-append_data :
    (block_size : ℕ) (calls : ℕ → Pwrite) (meta : FileResult) (except_version new_version : ℕ)
    (text : List ℕ) (strict : Bool) (b : LocalBlock) (xs : List ℕ)
    → b.bytes ≡ some xs
    → length xs ≡ b.size
    → (append_data block_size calls meta except_version new_version text strict b).0 ≡ ec_none
    → let after = (append_data block_size calls meta except_version new_version text strict b).1 in
      (read_data b.size (length text) after ≡ (ec_none, text))
      × (after.bytes ≡ some (xs ++ text))
      × (after.size ≡ length (xs ++ text))
      × (after.size ≤ block_size)
      × (new_version ≤ after.version)
unfolding append_to size_of_file
read_data-append_data block_size calls meta except_version new_version text strict b xs there sized
      h =
    let answer = append_accepted block_size calls meta except_version new_version text strict b h in
    let same : append_to calls text b.bytes
        ≡ write_through calls (length xs) text (some (xs ++ [])) =
      ap (append_to calls text) there
      ∙ ap (λ l. write_through calls (length xs) text (some l)) (sym (append-nil xs)) in
    let split = answer.0 ∙ ap (λ r. stored meta strict new_version (length text) r b) same in
    let final =
      ap (λ r. r.1) split
      ∙ after_stored calls meta strict new_version (length text) xs text [] b
          (sym (ap (λ r. r.0) split) ∙ h) in
    rw final (
      ap
            (λ o.
              read_data o (length text)
                (updated strict new_version (length text) (some (written xs text [])) b))
            (sym sized)
          ∙ read_data-written xs text []
              (updated strict new_version (length text) (some (written xs text [])) b) answer.1 refl
              (omega (arith, sized)),
      ap some (ap (◌++◌ (xs ++ text)) (drop-nil (length text)) ∙ append-nil (xs ++ text)),
      omega (arith, sized, length-append xs text),
      answer.2,
      le-version_after strict new_version b.version,
    )
