-- ===== src/Dataset/Order/Commits.antt =====
-- What a commit and a flush do to the bills: which one goes from the pending ones to the log, and when
-- the call returns.
use zookeeper.Prelude.{
  ℕ, ◌/◌, ◌≡◌, ◌≢◌, refl, sym, ap, ◌∙◌, inl, inr, List, [], ◌∷◌, ◌++◌, Option, none, some, arith,
  leb, ◌==◌, ==_iff, length, Bool-cases, Option-cases, append-nil, append_assoc,
}
use zookeeper.Prelude.Int.{ℤ}
use zookeeper.Dataset.Files.{Bill}
use zookeeper.Dataset.Core.{
  DataSet, Transaction, Client, Outcome, done, threw, invalid_zx_id, Env, apply_bill, commit,
  commit_at, commit_front, snapshot, keep_last, move_bill, flush, flush_from, find_transaction,
}
use zookeeper.Dataset.Replay.{Returns, final, keep_last-suffix}

module _ {ℓ} {S : Type ℓ} (c : Client S) where
  -- All bills, the committed ones first.
  abbrev pub history : DataSet S → List Bill
  history d = d.commit_log ++ d.uncommit

  snapshot-history :
      (env : Env) (d : DataSet S)
      → (ys : List Bill) × (history d ≡ ys ++ history (final c (snapshot c env d)))
        × ((final c (snapshot c env d)).uncommit ≡ d.uncommit)
  unfolding snapshot
  snapshot-history env d = elim (Bool-cases (leb d.snaper_count (length d.commit_log))) [
    | inl full ↦ elim (Bool-cases env.saved) [
      | inl saved ↦
          let (ys, split) = keep_last-suffix c (d.snaper_count / 4) d.commit_log in
          (
            ys,
            rw (full, saved, snapshot)
                (ap (λ (l : List Bill). l ++ d.uncommit) split
                  ∙ append_assoc ys (keep_last c (d.snaper_count / 4) d.commit_log) d.uncommit),
            rw (full, saved, snapshot) refl,
          )
      | inr failed ↦ ([], rw (full, failed, snapshot) refl, rw (full, failed, snapshot) refl)
    ]
    | inr room ↦ ([], rw (room, snapshot) refl, rw (room, snapshot) refl)
  ]

  -- A commit of any id but that of the oldest pending bill throws, and changes nothing.
  pub commit_out_of_order :
      (env : Env) (d : DataSet S) (zx_id : ℕ) (given : Option (Transaction S))
      → ((bill : Bill) (rest : List Bill) → d.uncommit ≡ bill ∷ rest → bill.zx_id ≢ zx_id)
      → commit c env d zx_id given ≡ threw invalid_zx_id d
  unfolding commit
  commit_out_of_order env d zx_id given other = at d.uncommit refl
    where
      at :
          (bills : List Bill)
          → d.uncommit ≡ bills
          → commit_at c env d zx_id given bills ≡ threw invalid_zx_id d
      at [] u = refl
      at (bill ∷ rest) u = ground (arith, other bill rest u)

  -- The oldest pending bill is gone.
  abbrev pub TakesOldest : DataSet S → ℕ → DataSet S → Type 0
  TakesOldest d zx_id d' = (bill : Bill) × (d.uncommit ≡ bill ∷ d'.uncommit) × (bill.zx_id ≡ zx_id)

  commit_at-TakesOldest :
      (env : Env) (d : DataSet S) (zx_id : ℕ) (given : Option (Transaction S)) (bills : List Bill)
      → d.uncommit ≡ bills
      → Returns c (TakesOldest d zx_id) (commit_at c env d zx_id given bills)
  unfolding commit_at commit_front
  commit_at-TakesOldest env d zx_id given [] u = tt
  commit_at-TakesOldest env d zx_id given (bill ∷ rest) u =
      elim (Bool-cases (bill.zx_id == zx_id)) [
        | inl e ↦ elim (Option-cases (apply_bill c d.transactions d.state_data bill given)) [
          | inl f ↦ rw (e, f, commit_at, commit_front) tt
          | inr (s, f) ↦
              let moved : DataSet S = record (move_bill c d bill rest) {
                state_data = s;
                zx_id = bill.zx_id;
              } in
              rw (e, f, commit_at, commit_front)
                (taken (snapshot c env moved) (snapshot-history env moved).2 ((==_iff _ _).0 e))
        ]
        | inr e ↦ rw (e, commit_at) tt
      ]
    where
      taken :
          (r : Outcome S)
          → (final c r).uncommit ≡ rest
          → bill.zx_id ≡ zx_id
          → Returns c (TakesOldest d zx_id) r
      taken (done d') h k = (bill, u ∙ ap (◌∷◌ bill) (sym h), k)
      taken (threw x d') h k = tt

  -- A commit that returns takes the oldest pending bill, which has its id, and no other.
  pub commit-TakesOldest :
      (env : Env) (d : DataSet S) (zx_id : ℕ) (given : Option (Transaction S))
      → Returns c (TakesOldest d zx_id) (commit c env d zx_id given)
  unfolding commit
  commit-TakesOldest env d zx_id given = commit_at-TakesOldest env d zx_id given d.uncommit refl

  -- A pending bill that the data set can apply in any state.
  unfoldable pub IsKnown : List (ℤ × Transaction S) → List Bill → Type ℓ
  IsKnown known [] = Unit
  IsKnown known (bill ∷ bills) =
      ((t : Transaction S) × (find_transaction c known bill.data_bytes none ≡ some t))
      × IsKnown known bills

  flush_from-done :
      (d : DataSet S) (bills : List Bill)
      → IsKnown d.transactions bills
      → (d' : DataSet S) × (flush_from c d bills ≡ done d')
        × (d'.commit_log ≡ d.commit_log ++ bills)
        × (d'.uncommit ≡ [])
  unfolding flush_from IsKnown
  flush_from-done d [] k = (record d { uncommit = [] }, refl, sym (append-nil d.commit_log), refl)
  flush_from-done d (bill ∷ rest) ((t, e), k) =
      let moved : DataSet S = record (move_bill c d bill rest) {
        state_data = t.apply d.state_data bill.data_bytes;
        zx_id = bill.zx_id;
      } in
      let applied : apply_bill c d.transactions d.state_data bill none
          ≡ some (t.apply d.state_data bill.data_bytes) =
        unfold apply_bill in rw (e, apply_bill) refl in
      let (d', f, log, none_left) = flush_from-done moved rest k in
      (d', rw (applied, flush_from) f, log ∙ append_assoc d.commit_log (bill ∷ []) rest, none_left)

  -- A flush returns, if the types of all pending bills are known: they are all in the log then, in
  -- order, behind what was there.
  pub flush-done :
      (d : DataSet S)
      → IsKnown d.transactions d.uncommit
      → (d' : DataSet S) × (flush c d ≡ done d')
        × (d'.commit_log ≡ d.commit_log ++ d.uncommit)
        × (d'.uncommit ≡ [])
  unfolding flush
  flush-done d k = flush_from-done d d.uncommit k
