-- ===== src/Dataset/Order/Steps.antt =====
-- paxos/transaction/dataset.cpp, Commit: the step that it takes, on the bills and on the state.
use zookeeper.Prelude.{
  ℕ, ◌/◌, ◌≤◌, ◌≡◌, refl, sym, ap, ◌∙◌, ◌⊎◌, inl, inr, true, List, [], ◌∷◌, ◌++◌, Option, none,
  some, arith, leb, ◌==◌, ==_iff, length, Bool-cases, Option-cases,
}
use zookeeper.Prelude.Int.{ℤ}
use zookeeper.Dataset.Files.{Bill}
use zookeeper.Dataset.Core.{
  DataSet, Transaction, Client, Outcome, done, threw, Env, apply_bill, commit, commit_at,
  commit_front, snapshot, keep_last, move_bill,
}
use zookeeper.Dataset.Replay.{Returns, final, keep_last-suffix, replay, snoc-replay}
use zookeeper.Dataset.Order.Commits.{TakesOldest, commit-TakesOldest}

module _ {ℓ} {S : Type ℓ} (c : Client S) where
  length-keep_last : (n : ℕ) (xs : List Bill) → n ≤ length xs → length (keep_last c n xs) ≡ n
  unfolding keep_last
  length-keep_last n [] h = omega arith
  length-keep_last n (x ∷ xs) h = ground (arith, length-keep_last n xs)

  -- The bills ys have gone off the front of the log: none, or a snapshot was due and could be saved, and
  -- a quarter of its count stays.
  abbrev pub Trimmed : Env → ℕ → List Bill → List Bill → List Bill → Type 0
  Trimmed env count log ys kept =
      (log ≡ ys ++ kept)
      × ((ys ≡ []) ⊎ ((count ≤ length log) × (env.saved ≡ true) × (length kept ≡ count / 4)))

  snapshot-Trimmed :
      (env : Env) (d : DataSet S)
      → ((ys : List Bill) × Trimmed env d.snaper_count d.commit_log ys
            (final c (snapshot c env d)).commit_log)
        × ((final c (snapshot c env d)).uncommit ≡ d.uncommit)
        × ((final c (snapshot c env d)).state_data ≡ d.state_data)
        × ((final c (snapshot c env d)).zx_id ≡ d.zx_id)
  unfolding snapshot
  snapshot-Trimmed env d = elim (Bool-cases (leb d.snaper_count (length d.commit_log))) [
    | inl full ↦ elim (Bool-cases env.saved) [
      | inl saved ↦
          let (ys, split) = keep_last-suffix c (d.snaper_count / 4) d.commit_log in
          let due : d.snaper_count ≤ length d.commit_log = ground arith in
          rw (full, saved, snapshot)
            (
              (
                ys,
                (
                  split,
                  inr (due, refl, length-keep_last (d.snaper_count / 4) d.commit_log (omega arith)),
                ),
              ),
              refl,
              refl,
              refl,
            )
      | inr failed ↦ rw (full, failed, snapshot) (([], (refl, inl refl)), refl, refl, refl)
    ]
    | inr room ↦ rw (room, snapshot) (([], (refl, inl refl)), refl, refl, refl)
  ]

  -- What a call does to the bills: one goes from the pending ones to the log or none does, and then the
  -- log may be trimmed.
  abbrev pub Moves : Env → DataSet S → ℕ → DataSet S → Type 0
  Moves env d zx_id d' =
      ((d'.uncommit ≡ d.uncommit) × (d'.commit_log ≡ d.commit_log))
      ⊎ ((bill : Bill) × (ys : List Bill) × (d.uncommit ≡ bill ∷ d'.uncommit)
          × (bill.zx_id ≡ zx_id)
          × Trimmed env d.snaper_count (d.commit_log ++ bill ∷ []) ys d'.commit_log)

  commit_at-Moves :
      (env : Env) (d : DataSet S) (zx_id : ℕ) (given : Option (Transaction S)) (bills : List Bill)
      → d.uncommit ≡ bills
      → Moves env d zx_id (final c (commit_at c env d zx_id given bills))
  unfolding commit_at commit_front
  commit_at-Moves env d zx_id given [] u = inl (refl, refl)
  commit_at-Moves env d zx_id given (bill ∷ rest) u = elim (Bool-cases (bill.zx_id == zx_id)) [
    | inl e ↦ elim (Option-cases (apply_bill c d.transactions d.state_data bill given)) [
      | inl f ↦
          rw (e, f, commit_at, commit_front) (inr (bill, [], u, (==_iff _ _).0 e, (refl, inl refl)))
      | inr (s, f) ↦
          let moved : DataSet S = record (move_bill c d bill rest) {
            state_data = s;
            zx_id = bill.zx_id;
          } in
          let ((ys, (split, why)), left, state, id) = snapshot-Trimmed env moved in
          rw (e, f, commit_at, commit_front)
            (inr (bill, ys, u ∙ ap (◌∷◌ bill) (sym left), (==_iff _ _).0 e, (split, why)))
    ]
    | inr e ↦ rw (e, commit_at) (inl (refl, refl))
  ]

  -- A commit, whether it returns or throws, either leaves the log and the pending bills alone, or moves the
  -- oldest pending bill, which then has the id, to the end of the log; bills are dropped from the front of
  -- the log only if it had grown to the count of the next snapshot and the snapshot was saved, and then
  -- a quarter of that count stays. If the commit returns, the oldest bill has moved.
  pub commit-Moves :
      (env : Env) (d : DataSet S) (zx_id : ℕ) (given : Option (Transaction S))
      → Moves env d zx_id (final c (commit c env d zx_id given))
        × Returns c (TakesOldest c d zx_id) (commit c env d zx_id given)
  unfolding commit
  commit-Moves env d zx_id given =
      (commit_at-Moves env d zx_id given d.uncommit refl, commit-TakesOldest c env d zx_id given)

  -- A replay of a list in two parts.
  replay-split :
      (known : List (ℤ × Transaction S)) (s t : S) (xs ys : List Bill)
      → replay c known s (xs ++ ys) ≡ some t
      → (m : S) × (replay c known s xs ≡ some m) × (replay c known m ys ≡ some t)
  unfolding replay
  replay-split known s t [] ys h = (s, refl, h)
  replay-split known s t (x ∷ xs) ys h = elim (Option-cases (apply_bill c known s x none)) [
    | inl e ↦ absurd (ground arith)
    | inr (s', e) ↦
        let (m, first, second) = replay-split known s' t xs ys (ground arith) in
        (m, rw (e, replay) first, second)
  ]

  -- What a commit that returns does to a data set whose state is its log replayed from `base`.
  abbrev pub Rebases : Env → DataSet S → ℕ → S → DataSet S → Type ℓ
  Rebases env d zx_id base d' =
      (bill : Bill) × (ys : List Bill) × (m : S) × (d.uncommit ≡ bill ∷ d'.uncommit)
      × (bill.zx_id ≡ zx_id)
      × (d'.zx_id ≡ zx_id)
      × Trimmed env d.snaper_count (d.commit_log ++ bill ∷ []) ys d'.commit_log
      × (replay c d.transactions base ys ≡ some m)
      × (replay c d.transactions m d'.commit_log ≡ some d'.state_data)

  snapshot-Rebases :
      (env : Env) (d : DataSet S) (zx_id : ℕ) (bill : Bill) (rest : List Bill) (s base : S)
      → d.uncommit ≡ bill ∷ rest
      → bill.zx_id ≡ zx_id
      → replay c d.transactions base (d.commit_log ++ bill ∷ []) ≡ some s
      → Returns c
          (Rebases env d zx_id base)
          (snapshot c env (record (move_bill c d bill rest) { state_data = s; zx_id = bill.zx_id }))
  snapshot-Rebases env d zx_id bill rest s base u e h =
      taken (snapshot c env moved) (snapshot-Trimmed env moved)
    where
      moved : DataSet S
      moved = record (move_bill c d bill rest) { state_data = s; zx_id = bill.zx_id }

      taken :
          (r : Outcome S)
          → ((ys : List Bill) × Trimmed env d.snaper_count
                (d.commit_log ++ bill ∷ [])
                ys
                (final c r).commit_log)
            × ((final c r).uncommit ≡ rest)
            × ((final c r).state_data ≡ s)
            × ((final c r).zx_id ≡ bill.zx_id)
          → Returns c (Rebases env d zx_id base) r
      taken (threw x d') t = tt
      taken (done d') ((ys, (split, why)), left, state, id) =
          let (m, first, second) =
            replay-split d.transactions base s ys d'.commit_log
              (ap (replay c d.transactions base) (sym split) ∙ h) in
          (
            bill,
            ys,
            m,
            u ∙ ap (◌∷◌ bill) (sym left),
            e,
            id ∙ e,
            (split, why),
            first,
            second ∙ ap some (sym state),
          )

  commit_at-Rebases :
      (env : Env) (d : DataSet S) (zx_id : ℕ) (given : Option (Transaction S)) (bills : List Bill)
      (base : S)
      → ((bill : Bill) (rest : List Bill)
          → bills ≡ bill ∷ rest
          → apply_bill c d.transactions d.state_data bill given
            ≡ apply_bill c d.transactions d.state_data bill none)
      → replay c d.transactions base d.commit_log ≡ some d.state_data
      → d.uncommit ≡ bills
      → Returns c (Rebases env d zx_id base) (commit_at c env d zx_id given bills)
  unfolding commit_at commit_front
  commit_at-Rebases env d zx_id given [] base same h u = tt
  commit_at-Rebases env d zx_id given (bill ∷ rest) base same h u =
      elim (Bool-cases (bill.zx_id == zx_id)) [
        | inl e ↦ elim (Option-cases (apply_bill c d.transactions d.state_data bill given)) [
          | inl f ↦ rw (e, f, commit_at, commit_front) tt
          | inr (s, f) ↦
              rw (e, f, commit_at, commit_front)
                (snapshot-Rebases env d zx_id bill rest s base u ((==_iff _ _).0 e) (
                  snoc-replay c d.transactions base d.state_data s d.commit_log bill h
                    (sym (same bill rest refl) ∙ f)))
        ]
        | inr e ↦ rw (e, commit_at) tt
      ]

  -- On a data set whose state is its log replayed from `base`, with a transaction handed in that does to
  -- the state what the registered one does with the oldest pending bill: if a commit returns, that bill
  -- has gone to the end of the log and its id is the last id; the bills ys, which a snapshot that was due
  -- has dropped from the front, or none, give a state m from `base`, and the state is the log that stays
  -- replayed from m.
  pub commit-Rebases :
      (env : Env) (d : DataSet S) (zx_id : ℕ) (given : Option (Transaction S)) (base : S)
      → ((bill : Bill) (rest : List Bill)
          → d.uncommit ≡ bill ∷ rest
          → apply_bill c d.transactions d.state_data bill given
            ≡ apply_bill c d.transactions d.state_data bill none)
      → replay c d.transactions base d.commit_log ≡ some d.state_data
      → Returns c (Rebases env d zx_id base) (commit c env d zx_id given)
  unfolding commit
  commit-Rebases env d zx_id given base same h =
      commit_at-Rebases env d zx_id given d.uncommit base same h refl
