-- ===== src/Ofs/Copies/Copied.antt =====
-- ofs/node/block: a copy ends with the bytes of the block that is copied.
use zookeeper.Prelude.{
  ℕ, zero, suc, ◌+◌, ◌*◌, ◌/◌, ◌%◌, ◌≤◌, ◌<◌, ◌≡◌, refl, sym, ap, ◌∙◌, arith, List, [], ◌∷◌, ◌++◌,
  append-nil, append_assoc, none, some, true, false, leb, ==_iff, length, take, drop, replicate,
  set, length-append, length-drop, take-length,
}
use native.Mathlib.Nat.{mul-div_left, suc-mul, mul-mod_left}
use zookeeper.Ofs.Copies.{
  LocalBlock, write_bytes, resize_bytes, file_or_new, resized, resize, recover_data, all_set,
  complete_recover, CopyMessage, start_recover_block, recover_block_complete, copy_batches, copy_to,
  receive_copy, receive_all,
}

pub length-take : (n : ℕ) (xs : List ℕ) → n ≤ length xs → length (take n xs) ≡ n
length-take zero xs h = refl
length-take (suc n) [] h = absurd (omega arith)
length-take (suc n) (x ∷ xs) h = omega (arith, length-take n xs (omega arith))

pub drop-behind : (sent rest : List ℕ) (n : ℕ) → drop (length sent + n) (sent ++ rest) ≡ drop n rest
drop-behind [] rest n = ap (λ k. drop k rest) (omega arith)
drop-behind (x ∷ sent) rest n =
    let next : suc (length sent) + n ≡ suc (length sent + n) = omega arith in
    ap (λ k. drop k (x ∷ (sent ++ rest))) next ∙ drop-behind sent rest n

-- A batch that is written behind those already written.
pub write_bytes-behind :
    (sent text rest : List ℕ)
    → write_bytes (length sent) text (sent ++ rest) ≡ (sent ++ text) ++ drop (length text) rest
unfolding write_bytes
write_bytes-behind sent text rest =
    rw
      (
        append_assoc sent rest (replicate (length sent) 0),
        take-length sent (rest ++ replicate (length sent) 0),
        drop-behind sent rest (length text),
        append_assoc sent text (drop (length text) rest),
      )
      refl

pub append-take-drop : (n : ℕ) (xs : List ℕ) → take n xs ++ drop n xs ≡ xs
append-take-drop zero xs = refl
append-take-drop (suc n) [] = refl
append-take-drop (suc n) (x ∷ xs) = ap (◌∷◌ x) (append-take-drop n xs)

length-zero : (xs : List ℕ) → length xs ≡ 0 → xs ≡ []
length-zero [] h = refl
length-zero (x ∷ xs) h = absurd (omega arith)

set_flag :
    (k n : ℕ)
    → set (replicate k true ++ replicate (suc n) false) k true
      ≡ replicate (suc k) true ++ replicate n false
set_flag zero n = refl
set_flag (suc k) n = ap (◌∷◌ true) (set_flag k n)

all_set-replicate : (k : ℕ) → all_set (replicate k true) ≡ true
unfolding all_set
all_set-replicate zero = refl
all_set-replicate (suc k) = all_set-replicate k

module _ (batch version size : ℕ) (b : LocalBlock) where
  -- A block that has got the bytes `sent` in k batches and waits for m more.
  abbrev receiving : (k m : ℕ) → (sent rest : List ℕ) → LocalBlock
  receiving k m sent rest = record b {
    recover = some (record {
      version = version;
      size = size;
      data_flags = replicate k true ++ replicate m false;
    });
    bytes = some (sent ++ rest);
  }

  none_left : (rounds offset : ℕ) → copy_batches batch version rounds offset [] ≡ []
  unfolding copy_batches
  none_left zero offset = refl
  none_left (suc rounds) offset = refl

  recover_data-receiving :
      (k m : ℕ) (sent text rest : List ℕ)
      → 0 < batch
      → length sent ≡ k * batch
      → recover_data batch version (length sent) text (receiving k (suc m) sent rest)
        ≡ receiving (suc k) m (sent ++ text) (drop (length text) rest)
  unfolding recover_data
  recover_data-receiving k m sent text rest positive h =
      rw
        (
          (==_iff version version).1 refl,
          write_bytes-behind sent text rest,
          h,
          mul-div_left k positive,
          set_flag k m,
        )
        refl

  receive-batches :
      (m k rounds : ℕ) (sent rest xs : List ℕ) (msgs : List CopyMessage)
      → 0 < batch
      → length sent ≡ k * batch
      → length rest ≡ m * batch
      → length xs ≡ m * batch
      → m ≤ rounds
      → receive_all batch
          (copy_batches batch version rounds (length sent) xs ++ msgs)
          (receiving k m sent rest)
        ≡ receive_all batch msgs (receiving (m + k) 0 (sent ++ xs) [])
  unfolding copy_batches receive_all receive_copy
  receive-batches zero k rounds sent rest xs msgs positive hs hr hx h =
      let no_more : xs ≡ [] = length-zero xs (omega (arith, hx)) in
      let no_rest : rest ≡ [] = length-zero rest (omega (arith, hr)) in
      let same : k ≡ 0 + k = omega arith in
      rw (no_more, no_rest, none_left rounds (length sent))
        (ap (λ l. receive_all batch msgs (receiving k 0 l [])) (sym (append-nil sent))
          ∙ ap (λ i. receive_all batch msgs (receiving i 0 (sent ++ []) [])) same)
  receive-batches (suc m) k zero sent rest xs msgs positive hs hr hx h = absurd (omega arith)
  receive-batches (suc m) k (suc rounds) sent rest [] msgs positive hs hr hx h =
      absurd (omega (arith, suc-mul m batch))
  receive-batches (suc m) k (suc rounds) sent rest (x ∷ xs) msgs positive hs hr hx h =
      let text = take batch (x ∷ xs) in
      let full : length text ≡ batch =
        length-take batch (x ∷ xs) (omega (arith, suc-mul m batch)) in
      ap
        (λ o.
          receive_all batch (copy_batches batch version rounds o (drop batch (x ∷ xs)) ++ msgs)
            (recover_data batch version (length sent) text (receiving k (suc m) sent rest)))
        (sym (length-append sent text))
      ∙ ap
          (receive_all batch (
            copy_batches batch version rounds (length (sent ++ text)) (drop batch (x ∷ xs))
            ++ msgs))
          (recover_data-receiving k m sent text rest positive hs)
      ∙ receive-batches m (suc k) rounds (sent ++ text) (drop (length text) rest)
          (drop batch (x ∷ xs)) msgs positive
          (omega (arith, length-append sent text, suc-mul k batch, hs, full))
          (omega (arith, length-drop (length text) rest, suc-mul m batch, hr, full))
          (omega (arith, length-drop batch (x ∷ xs), suc-mul m batch, hx)) (omega arith)
      ∙ ap (λ l. receive_all batch msgs (receiving (m + suc k) 0 l []))
          (append_assoc sent text (drop batch (x ∷ xs))
            ∙ ap (◌++◌ sent) (append-take-drop batch (x ∷ xs)))
      ∙ ap (λ i. receive_all batch msgs (receiving i 0 (sent ++ (x ∷ xs)) [])) (omega arith)

-- A block that is older than the copy, and recovers from nothing as new, is made ready for it.
resize-starts :
    (batch version size : ℕ) (b : LocalBlock)
    → b.version < version
    → b.recover ≡ none
    → resize batch version size b ≡ resized batch version size b
unfolding resize
resize-starts batch version size b older idle =
    let newer : leb version b.version ≡ false = ground arith in simp (newer, idle)

complete_recover-receiving :
    (batch version size n : ℕ) (text : List ℕ) (b : LocalBlock)
    → (complete_recover version (receiving batch version size b n 0 text [])).1
      ≡ record b { version = version; size = size; recover = none; bytes = some (text ++ []) }
unfolding complete_recover
complete_recover-receiving batch version size n text b =
    rw (append-nil (replicate n true), (==_iff version version).1 refl, all_set-replicate n) refl

length-replicate : (n : ℕ) → length {A = ℕ} (replicate n 0) ≡ n
length-replicate zero = refl
length-replicate (suc n) = ap suc (length-replicate n)

length-resize_bytes : (n : ℕ) (xs : List ℕ) → length (resize_bytes n xs) ≡ n
unfolding resize_bytes
length-resize_bytes n xs =
    length-take n (xs ++ replicate n 0)
      (omega (arith, length-append xs (replicate n 0), length-replicate n))

rounds_le : (n batch : ℕ) → 0 < batch → n ≤ n * batch
rounds_le zero batch positive = omega arith
rounds_le (suc n) batch positive = omega (arith, suc-mul n batch, rounds_le n batch positive)

-- A block of whole batches that is copied to a data node, whose block is older and not under another
-- copy, arrives there: the block has the version, the size and the bytes of the one copied, and waits
-- for nothing.
pub receive_all-copy_to :
    (batch n : ℕ) (text : List ℕ) (src target : LocalBlock)
    → 0 < batch
    → length text ≡ n * batch
    → src.size ≡ n * batch
    → src.bytes ≡ some text
    → target.version < src.version
    → target.recover ≡ none
    → receive_all batch (copy_to batch src) target ≡ record src { recover = none }
unfolding copy_to receive_all receive_copy resized
receive_all-copy_to batch n text src target positive counted sized there older idle =
    let rest = resize_bytes src.size (file_or_new target.bytes) in
    let whole : src.size % batch ≡ 0 = rw (sized, mul-mod_left n batch) refl in
    let rounds : src.size / batch ≡ n = rw (sized, mul-div_left n positive) refl in
    let end : CopyMessage = recover_block_complete src.version in
    let sent : copy_to batch src
        ≡ start_recover_block src.version src.size
          ∷ (copy_batches batch src.version (length text) 0 text ++ (end ∷ [])) =
      rw (there, (==_iff (length text) src.size).1 (counted ∙ sym sized), whole) refl in
    let ready : resize batch src.version src.size target
        ≡ receiving batch src.version src.size target 0 n [] rest =
      resize-starts batch src.version src.size target older idle ∙ rw rounds refl in
    ap (λ ms. receive_all batch ms target) sent
    ∙ ap (receive_all batch (copy_batches batch src.version (length text) 0 text ++ (end ∷ [])))
        ready
    ∙ receive-batches batch src.version src.size target n 0 (length text) [] rest text (end ∷ [])
        positive (omega arith) (length-resize_bytes src.size (file_or_new target.bytes) ∙ sized)
        counted (omega (arith, counted, rounds_le n batch positive))
    ∙ complete_recover-receiving batch src.version src.size (n + 0) text target
    ∙ simp (append-nil, there)
