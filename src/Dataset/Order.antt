-- ===== src/Dataset/Order.antt =====
-- The order of the ids in the log and among the pending bills.
pub mod Commits
pub mod Steps
use zookeeper.Prelude.{
  ℕ, ◌+◌, ◌/◌, ◌≤◌, ◌<◌, ◌≡◌, ◌≢◌, refl, sym, ap, subst, ◌∙◌, inl, inr, true, List, [], ◌∷◌, ◌++◌,
  Option, none, some, arith, leb, ◌==◌, ==_iff, ==_refl, ◌%◌, length, Bool-cases, Option-cases,
  append-nil, append_assoc,
}
use zookeeper.Prelude.Int.{ℤ}
use zookeeper.Dataset.Files.{Bill, Io}
use zookeeper.Dataset.Core.{
  DataSet, Transaction, Client, Outcome, done, threw, invalid_zx_id, Env, apply_bill, propose,
  commit, commit_at, commit_front, snapshot, keep_last, move_bill, flush, flush_from,
  find_transaction, snap_count,
}
use zookeeper.Dataset.Replay.{Returns, final, keep_last-suffix}

-- Ids that rise from above `lo`, and, for `UpTo`, do not pass `hi`.
unfoldable pub Rises : ℕ → List Bill → Type 0
Rises lo [] = Unit {0}
Rises lo (b ∷ bs) = (lo < b.zx_id) × Rises b.zx_id bs

unfoldable pub UpTo : ℕ → ℕ → List Bill → Type 0
UpTo lo hi [] = lo ≤ hi
UpTo lo hi (b ∷ bs) = (lo < b.zx_id) × UpTo b.zx_id hi bs

pub UpTo-snoc :
    (lo hi : ℕ) (bs : List Bill) (b : Bill)
    → UpTo lo hi bs
    → hi < b.zx_id
    → UpTo lo b.zx_id (bs ++ b ∷ [])
unfolding UpTo
UpTo-snoc lo hi [] b h k = (omega arith, omega arith)
UpTo-snoc lo hi (x ∷ bs) b h k = (h.0, UpTo-snoc x.zx_id hi bs b h.1 k)

UpTo-mono : (lo lo' hi : ℕ) (bs : List Bill) → lo ≤ lo' → UpTo lo' hi bs → UpTo lo hi bs
unfolding UpTo
UpTo-mono lo lo' hi [] h k = omega arith
UpTo-mono lo lo' hi (x ∷ bs) h k = (omega (arith, k.0), k.1)

UpTo-suffix : (lo hi : ℕ) (xs ys : List Bill) → UpTo lo hi (xs ++ ys) → UpTo lo hi ys
unfolding UpTo
UpTo-suffix lo hi [] ys h = h
UpTo-suffix lo hi (x ∷ xs) ys h =
    UpTo-mono lo x.zx_id hi ys (omega (arith, h.0)) (UpTo-suffix x.zx_id hi xs ys h.1)

-- The newest id: of the pending bills, or of the log.
unfoldable pub newest : ℕ → List Bill → ℕ
newest z [] = z
newest z (b ∷ bs) = newest b.zx_id bs

Rises-snoc :
    (lo : ℕ) (bs : List Bill) (b : Bill)
    → Rises lo bs
    → newest lo bs < b.zx_id
    → Rises lo (bs ++ b ∷ [])
unfolding Rises newest
Rises-snoc lo [] b h k = (k, tt)
Rises-snoc lo (x ∷ bs) b h k = (h.0, Rises-snoc x.zx_id bs b h.1 k)

module _ {ℓ} {S : Type ℓ} (c : Client S) where
  -- The log rises up to `_zxId`, and the pending bills rise from there.
  pub record IsOrdered (d : DataSet S) : Type 0 where
    pub log : UpTo 0 d.zx_id d.commit_log
    pub pending : Rises d.zx_id d.uncommit

  -- A proposal behind all that came before keeps the order, saved or not.
  pub propose-IsOrdered :
      (io : Io) (d : DataSet S) (bill : Bill)
      → newest d.zx_id d.uncommit < bill.zx_id
      → IsOrdered d
      → IsOrdered (propose c io d bill).1
  unfolding propose
  propose-IsOrdered io d bill h o = ground (arith, Rises-snoc d.zx_id d.uncommit bill o.pending h)

  snapshot-IsOrdered :
      (env : Env) (d : DataSet S) → IsOrdered d → Returns c IsOrdered (snapshot c env d)
  unfolding snapshot
  snapshot-IsOrdered env d o =
      let (ys, split) = keep_last-suffix c (d.snaper_count / 4) d.commit_log in
      let kept : UpTo 0 d.zx_id (keep_last c (d.snaper_count / 4) d.commit_log) =
        UpTo-suffix 0 d.zx_id ys (keep_last c (d.snaper_count / 4) d.commit_log)
          (subst (UpTo 0 d.zx_id) split o.log) in
      elim (Bool-cases (leb d.snaper_count (length d.commit_log))) [
        | inl full ↦ elim (Bool-cases env.saved) [
          | inl saved ↦ rw (full, saved, snapshot) (record { log = kept; pending = o.pending })
          | inr failed ↦ rw (full, failed, snapshot) tt
        ]
        | inr room ↦ rw (room, snapshot) o
      ]

  -- What a commit of the oldest pending bill leads to, before the snapshot.
  moved-IsOrdered :
      (d : DataSet S) (s : S) (bill : Bill) (rest : List Bill)
      → UpTo 0 d.zx_id d.commit_log
      → Rises d.zx_id (bill ∷ rest)
      → IsOrdered (record (move_bill c d bill rest) { state_data = s; zx_id = bill.zx_id })
  unfolding Rises
  moved-IsOrdered d s bill rest l p = record {
    log = UpTo-snoc 0 d.zx_id d.commit_log bill l p.0;
    pending = p.1;
  }

  commit_at-IsOrdered :
      (env : Env) (d : DataSet S) (zx_id : ℕ) (given : Option (Transaction S)) (bills : List Bill)
      → UpTo 0 d.zx_id d.commit_log
      → Rises d.zx_id bills
      → Returns c IsOrdered (commit_at c env d zx_id given bills)
  unfolding commit_at commit_front
  commit_at-IsOrdered env d zx_id given [] l p = tt
  commit_at-IsOrdered env d zx_id given (bill ∷ rest) l p =
      elim (Bool-cases (bill.zx_id == zx_id)) [
        | inl e ↦ elim (Option-cases (apply_bill c d.transactions d.state_data bill given)) [
          | inl f ↦ rw (e, f, commit_at, commit_front) tt
          | inr (s, f) ↦
              rw (e, f, commit_at, commit_front)
                (snapshot-IsOrdered env
                  (record (move_bill c d bill rest) { state_data = s; zx_id = bill.zx_id })
                  (moved-IsOrdered d s bill rest l p))
        ]
        | inr e ↦ rw (e, commit_at) tt
      ]

  -- A commit that returns keeps the order: the log rises up to the id of the last commit, and what is
  -- pending rises from there.
  pub commit-IsOrdered :
      (env : Env) (d : DataSet S) (zx_id : ℕ) (given : Option (Transaction S))
      → IsOrdered d
      → Returns c IsOrdered (commit c env d zx_id given)
  unfolding commit
  commit-IsOrdered env d zx_id given o =
      commit_at-IsOrdered env d zx_id given d.uncommit o.log o.pending

  flush_from-IsOrdered :
      (d : DataSet S) (bills : List Bill)
      → UpTo 0 d.zx_id d.commit_log
      → Rises d.zx_id bills
      → Returns c IsOrdered (flush_from c d bills)
  unfolding flush_from Rises
  flush_from-IsOrdered d [] l p = record { log = l; pending = p }
  flush_from-IsOrdered d (bill ∷ rest) l p =
      elim (Option-cases (apply_bill c d.transactions d.state_data bill none)) [
        | inl e ↦ rw (e, flush_from) tt
        | inr (s, e) ↦
            let moved : DataSet S = record (move_bill c d bill rest) {
              state_data = s;
              zx_id = bill.zx_id;
            } in
            let o : IsOrdered moved = moved-IsOrdered d s bill rest l p in
            rw (e, flush_from) (flush_from-IsOrdered moved rest o.log o.pending)
      ]

  pub flush-IsOrdered : (d : DataSet S) → IsOrdered d → Returns c IsOrdered (flush c d)
  unfolding flush
  flush-IsOrdered d o = flush_from-IsOrdered d d.uncommit o.log o.pending
