-- ===== src/Ofs/Access/Writing.antt =====
-- olib/src/random_access_file.cpp: the loop of calls of pwrite64, and what a read gives after it.
use zookeeper.Prelude.{
  ℕ, zero, suc, ◌+◌, ◌≡◌, ◌≢◌, ◌⊎◌, inl, inr, refl, sym, ap, ◌∙◌, arith, List, [], ◌∷◌, ◌++◌,
  append-nil, append_assoc, Option, none, some, ==_iff, length, take, drop, length-append,
  take-length, drop-length,
}
use zookeeper.Ofs.Copies.{write_bytes}
use zookeeper.Ofs.Copies.Copied.{write_bytes-behind}
use zookeeper.Ofs.Access.{
  success, op_failed, op_incompelete, op_out_of_range, Pwrite, wrote, retry, broken, write_from,
  write_through, read_from, max_disk_times, ec_none, read_error,
}

pub drop-nil : (n : ℕ) → drop {A = ℕ} n [] ≡ []
drop-nil zero = refl
drop-nil (suc n) = refl

drop-drop : (m n : ℕ) (xs : List ℕ) → drop n (drop m xs) ≡ drop (m + n) xs
drop-drop zero n xs = ap (λ k. drop k xs) (omega arith)
drop-drop (suc m) n [] = drop-nil n ∙ sym (drop-nil (suc m + n))
drop-drop (suc m) n (x ∷ xs) =
    let next : suc (m + n) ≡ suc m + n = omega arith in
    drop-drop m n xs ∙ ap (λ k. drop k (x ∷ xs)) next

-- The first n elements, cut off by their number.
append-take-length : (n : ℕ) (xs : List ℕ) → take n xs ++ drop (length (take n xs)) xs ≡ xs
append-take-length zero xs = refl
append-take-length (suc n) [] = refl
append-take-length (suc n) (x ∷ xs) = ap (◌∷◌ x) (append-take-length n xs)

abbrev pub written : List ℕ → List ℕ → List ℕ → List ℕ
written sent text rest = (sent ++ text) ++ drop (length text) rest

-- Writing a text in two parts is writing the whole.
pub written-parts :
    (sent part text rest : List ℕ)
    → written (sent ++ part) text (drop (length part) rest) ≡ written sent (part ++ text) rest
written-parts sent part text rest =
    ap (λ l. (l ++ text) ++ drop (length text) (drop (length part) rest)) refl
    ∙ ap (◌++◌ ((sent ++ part) ++ text)) (
        drop-drop (length part) (length text) rest
        ∙ ap (λ k. drop k rest) (sym (length-append part text)))
    ∙ ap (λ l. l ++ drop (length (part ++ text)) rest) (append_assoc sent part text)

incompelete≢success : op_incompelete ≡ success → ⊥
incompelete≢success h = ground arith

failed≢success : op_failed ≡ success → ⊥
failed≢success h = ground arith

incompelete≢out_of_range : op_incompelete ≡ op_out_of_range → ⊥
incompelete≢out_of_range h = ground arith

failed≢out_of_range : op_failed ≡ op_out_of_range → ⊥
failed≢out_of_range h = ground arith

call_cases :
    (p : Pwrite) → ((p ≡ wrote 0) ⊎ ((n : ℕ) × (p ≡ wrote (suc n)))) ⊎ ((p ≡ retry) ⊎ (p ≡ broken))
call_cases (wrote zero) = inl (inl refl)
call_cases (wrote (suc n)) = inl (inr (n, refl))
call_cases retry = inr (inl refl)
call_cases broken = inr (inr refl)

after_part :
    (calls : ℕ → Pwrite) (tries : ℕ) (sent part left rest : List ℕ)
    → write_from calls tries
        (length sent + length part)
        left
        (write_bytes (length sent) part (sent ++ rest))
      ≡ write_from calls tries
          (length (sent ++ part))
          left
          ((sent ++ part) ++ drop (length part) rest)
after_part calls tries sent part left rest =
    ap (λ k. write_from calls tries k left (write_bytes (length sent) part (sent ++ rest)))
      (sym (length-append sent part))
    ∙ ap (write_from calls tries (length (sent ++ part)) left) (write_bytes-behind sent part rest)

-- A write that succeeds has written all of the text, however many calls of pwrite it took.
pub write_from-success :
    (calls : ℕ → Pwrite) (tries : ℕ) (sent text rest : List ℕ)
    → (write_from calls tries (length sent) text (sent ++ rest)).0 ≡ success
    → (write_from calls tries (length sent) text (sent ++ rest)).1 ≡ written sent text rest
unfolding write_from
write_from-success calls tries sent [] rest h = ap (λ l. l ++ rest) (sym (append-nil sent))
write_from-success calls zero sent (x ∷ text) rest h = absurd (incompelete≢success h)
write_from-success calls (suc tries) sent (x ∷ text) rest h = elim (call_cases (calls tries)) [
  | inl (inl e) ↦ absurd (incompelete≢success (rw (e, write_from) at h))
  | inl (inr (n, e)) ↦
      let part = take (suc n) (x ∷ text) in
      let left = drop (length part) (x ∷ text) in
      let moved = after_part calls tries sent part left rest in
      rw (e, write_from)
        (ap (λ r. r.1) moved
          ∙ write_from-success calls tries (sent ++ part) left (drop (length part) rest)
              (sym (ap (λ r. r.0) moved) ∙ rw (e, write_from) at h)
          ∙ written-parts sent part left rest
          ∙ ap (λ l. written sent l rest) (append-take-length (suc n) (x ∷ text)))
  | inr (inl e) ↦
      rw (e, write_from)
        (write_from-success calls tries sent (x ∷ text) rest (rw (e, write_from) at h))
  | inr (inr e) ↦ absurd (failed≢success (rw (e, write_from) at h))
]

pub write_through-success :
    (calls : ℕ → Pwrite) (sent text rest : List ℕ)
    → (write_through calls (length sent) text (some (sent ++ rest))).0 ≡ success
    → (write_through calls (length sent) text (some (sent ++ rest))).1
      ≡ some (written sent text rest)
unfolding write_through
write_through-success calls sent [] rest h = ap (λ l. some (l ++ rest)) (sym (append-nil sent))
write_through-success calls sent (x ∷ text) rest h =
    ap some (write_from-success calls max_disk_times sent (x ∷ text) rest h)

take_all : (xs : List ℕ) → take (length xs) xs ≡ xs
take_all [] = refl
take_all (x ∷ xs) = ap (◌∷◌ x) (take_all xs)

pub read_none : read_error success ≡ ec_none
unfolding read_error
read_none = refl

-- What was written is read.
pub read_from-written :
    (sent text rest : List ℕ)
    → read_from (length sent) (length text) (some (written sent text rest)) ≡ (success, text)
unfolding read_from
read_from-written sent [] rest = refl
read_from-written sent (x ∷ text) rest =
    let found : take (length (x ∷ text)) (drop (length sent) (written sent (x ∷ text) rest))
        ≡ x ∷ text =
      ap (λ l. take (length (x ∷ text)) (drop (length sent) l))
        (append_assoc sent (x ∷ text) (drop (length (x ∷ text)) rest))
      ∙ ap (take (length (x ∷ text)))
          (drop-length sent ((x ∷ text) ++ drop (length (x ∷ text)) rest))
      ∙ take-length (x ∷ text) (drop (length (x ∷ text)) rest) in
    rw (found, (==_iff (length (x ∷ text)) (suc (length text))).1 refl) refl

write_from-in_range :
    (calls : ℕ → Pwrite) (tries offset : ℕ) (text xs : List ℕ)
    → (write_from calls tries offset text xs).0 ≢ op_out_of_range
unfolding write_from
write_from-in_range calls tries offset [] xs h = ground arith
write_from-in_range calls zero offset (x ∷ text) xs h = ground arith
write_from-in_range calls (suc tries) offset (x ∷ text) xs h = elim (call_cases (calls tries)) [
  | inl (inl e) ↦ absurd (incompelete≢out_of_range (rw (e, write_from) at h))
  | inl (inr (n, e)) ↦
      let part = take (suc n) (x ∷ text) in
      write_from-in_range calls tries (offset + length part) (drop (length part) (x ∷ text))
        (write_bytes offset part xs) (rw (e, write_from) at h)
  | inr (inl e) ↦ write_from-in_range calls tries offset (x ∷ text) xs (rw (e, write_from) at h)
  | inr (inr e) ↦ absurd (failed≢out_of_range (rw (e, write_from) at h))
]

pub write_through-in_range :
    (calls : ℕ → Pwrite) (offset : ℕ) (text : List ℕ) (bytes : Option (List ℕ))
    → (write_through calls offset text bytes).0 ≢ op_out_of_range
unfolding write_through
write_through-in_range calls offset [] bytes h = ground arith
write_through-in_range calls offset (x ∷ text) none h = ground arith
write_through-in_range calls offset (x ∷ text) (some xs) h =
    write_from-in_range calls max_disk_times offset (x ∷ text) xs h
