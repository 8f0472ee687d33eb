-- ===== src/Dataset/Replay.antt =====
-- The state of the data set and the replay of its log.
use mathlib.Core.List.{reverse-reverse, reverse-cons}
use zookeeper.Prelude.{
  ℕ, ◌≡◌, refl, sym, ap, ◌∙◌, inl, inr, true, List, [], ◌∷◌, ◌++◌, Option, none, some, arith, ltb,
  length, reverse, Bool-cases, Option-cases,
}
use zookeeper.Prelude.Int.{ℤ}
use zookeeper.Dataset.Files.{Bill}
use zookeeper.Dataset.Core.{
  DataSet, Transaction, Client, Outcome, done, threw, Env, apply_bill, rollback_bill, keep_last,
  move_bill, flush, flush_from, roll_back, drop_newer, trunc, trunc_files,
}

module _ {ℓ} {S : Type ℓ} (c : Client S) where
  unfoldable pub replay : List (ℤ × Transaction S) → S → List Bill → Option S
  replay known s [] = some s
  replay known s (bill ∷ bills) = elim (apply_bill c known s bill none) [
    | none ↦ none
    | some s' ↦ replay known s' bills
  ]

  replay-append :
      (known : List (ℤ × Transaction S)) (s m : S) (xs ys : List Bill)
      → replay known s xs ≡ some m
      → replay known s (xs ++ ys) ≡ replay known m ys
  unfolding replay
  replay-append known s m [] ys h = ground arith
  replay-append known s m (bill ∷ xs) ys h = elim (Option-cases (apply_bill c known s bill none)) [
    | inl e ↦ ground arith
    | inr (s', e) ↦ rw (e, replay) (replay-append known s' m xs ys (ground arith))
  ]

  -- A replay of a list that ends in a bill.
  replay-snoc :
      (known : List (ℤ × Transaction S)) (s t : S) (xs : List Bill) (bill : Bill)
      → replay known s (xs ++ bill ∷ []) ≡ some t
      → (m : S) × (replay known s xs ≡ some m) × (apply_bill c known m bill none ≡ some t)
  unfolding replay
  replay-snoc known s t [] bill h = elim (Option-cases (apply_bill c known s bill none)) [
    | inl e ↦ absurd (ground arith)
    | inr (t', e) ↦ (s, refl, ground arith)
  ]
  replay-snoc known s t (x ∷ xs) bill h = elim (Option-cases (apply_bill c known s x none)) [
    | inl e ↦ absurd (ground arith)
    | inr (s', e) ↦
        let (m, before, last) = replay-snoc known s' t xs bill (ground arith) in
        (m, rw (e, replay) before, last)
  ]

  pub snoc-replay :
      (known : List (ℤ × Transaction S)) (s m t : S) (xs : List Bill) (bill : Bill)
      → replay known s xs ≡ some m
      → apply_bill c known m bill none ≡ some t
      → replay known s (xs ++ bill ∷ []) ≡ some t
  unfolding replay
  snoc-replay known s m t xs bill h e =
      replay-append known s m xs (bill ∷ []) h ∙ rw (e, replay) refl

  -- What a snapshot drops from the log is a prefix, and goes into the base.
  pub keep_last-suffix : (n : ℕ) (xs : List Bill) → (ys : List Bill) × (xs ≡ ys ++ keep_last c n xs)
  unfolding keep_last
  keep_last-suffix n [] = ([], refl)
  keep_last-suffix n (x ∷ xs) = elim (Bool-cases (ltb n (length (x ∷ xs)))) [
    | inl e ↦ let (ys, split) = keep_last-suffix n xs in (x ∷ ys, rw e (ap (◌∷◌ x) split))
    | inr e ↦ ([], rw e refl)
  ]

  -- The state is the log, replayed from some base.
  abbrev pub IsReplayed : DataSet S → Type ℓ
  IsReplayed d = (base : S) × (replay d.transactions base d.commit_log ≡ some d.state_data)

  -- A postcondition of the calls that return.
  abbrev pub Returns {κ} : (DataSet S → Type κ) → Outcome S → Type κ
  Returns P (done d) = P d
  Returns P (threw e d) = Unit {κ}

  flush_from-IsReplayed :
      (d : DataSet S) (bills : List Bill) → IsReplayed d → Returns IsReplayed (flush_from c d bills)
  unfolding flush_from
  flush_from-IsReplayed d [] h = h
  flush_from-IsReplayed d (bill ∷ rest) (base, h) =
      elim (Option-cases (apply_bill c d.transactions d.state_data bill none)) [
        | inl e ↦ rw (e, flush_from) tt
        | inr (s, e) ↦
            rw (e, flush_from)
              (flush_from-IsReplayed
                (record (move_bill c d bill rest) { state_data = s; zx_id = bill.zx_id }) rest
                (base, snoc-replay d.transactions base d.state_data s d.commit_log bill h e))
      ]

  -- A flush that returns keeps the state the replay of the log.
  pub flush-IsReplayed : (d : DataSet S) → IsReplayed d → Returns IsReplayed (flush c d)
  unfolding flush
  flush-IsReplayed d h = flush_from-IsReplayed d d.uncommit h

  -- Every registered transaction can be rolled back.
  abbrev pub IsReversible : List (ℤ × Transaction S) → Type ℓ
  IsReversible known =
      (s t : S) (bill : Bill)
      → apply_bill c known s bill none ≡ some t
      → rollback_bill c known t bill ≡ some s

  -- The log, newest first, as the bills behind an id and those that stay.
  roll_back-replay :
      (known : List (ℤ × Transaction S)) (zx_id : ℕ) (base s : S) (newest : List Bill)
      → IsReversible known
      → replay known base (reverse newest) ≡ some s
      → ((roll_back c known zx_id s newest).ok ≡ true)
        × ((roll_back c known zx_id s newest).log ≡ drop_newer c zx_id newest)
        × (replay known base (reverse (roll_back c known zx_id s newest).log)
            ≡ some (roll_back c known zx_id s newest).state_data)
  unfolding roll_back drop_newer
  roll_back-replay known zx_id base s [] rev h = (refl, refl, h)
  roll_back-replay known zx_id base s (bill ∷ older) rev h =
      elim (Bool-cases (ltb zx_id bill.zx_id)) [
        | inl newer ↦
            let (m, before, last) =
              replay-snoc known base s (reverse older) bill
                (ap (replay known base) (sym (reverse-cons bill older)) ∙ h) in
            rw (newer, rev m s bill last) (roll_back-replay known zx_id base m older rev before)
        | inr kept ↦ rw kept (refl, refl, h)
      ]

  -- The log and the state after a truncation, whatever the log files answer.
  abbrev pub final : Outcome S → DataSet S
  final (done d) = d
  final (threw e d) = d

  pub trunc_files-memory :
      (env : Env) (d : DataSet S)
      → ((final (trunc_files c env d)).commit_log ≡ d.commit_log)
        × ((final (trunc_files c env d)).state_data ≡ d.state_data)
        × ((final (trunc_files c env d)).zx_id ≡ d.zx_id)
  unfolding trunc_files
  trunc_files-memory env d = ground arith

  -- A truncation takes from the log the bills at its end that are behind the id, undoes them newest
  -- first, and leaves the state that the rest of the log gives from the same base, if each
  -- registered transaction can be rolled back. This holds also when the log files cannot be cut.
  pub trunc-IsReplayed :
      (env : Env) (d : DataSet S) (zx_id : ℕ) (base : S)
      → IsReversible d.transactions
      → replay d.transactions base d.commit_log ≡ some d.state_data
      → ((final (trunc c env d zx_id)).commit_log
          ≡ reverse (drop_newer c zx_id (reverse d.commit_log)))
        × ((final (trunc c env d zx_id)).zx_id ≡ zx_id)
        × (replay d.transactions base (final (trunc c env d zx_id)).commit_log
            ≡ some (final (trunc c env d zx_id)).state_data)
  unfolding trunc
  trunc-IsReplayed env d zx_id base rev h =
      let (ok, log, whole) =
        roll_back-replay d.transactions zx_id base d.state_data (reverse d.commit_log) rev
          (ap (replay d.transactions base) (reverse-reverse d.commit_log) ∙ h) in
      let rolled = roll_back c d.transactions zx_id d.state_data (reverse d.commit_log) in
      let (same_log, same_state, same_id) = trunc_files-memory env (record d {
        state_data = rolled.state_data;
        commit_log = reverse rolled.log;
        zx_id = zx_id;
      }) in
      rw (ok, trunc)
        (
          same_log ∙ ap reverse log,
          same_id,
          ap (replay d.transactions base) same_log ∙ whole ∙ ap some (sym same_state),
        )
