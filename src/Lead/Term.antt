-- ===== src/Lead/Term.antt =====
-- `Lead::Leading` of paxos/paxos/lead.cpp: a term of a leader, from its listening to its end.
use zookeeper.Prelude.{
  ℕ, ◌≡◌, refl, ◌∙◌, Bool, true, false, List, [], ◌∷◌, ◌++◌, append_assoc, none, if◌then◌else◌,
  Option-cases, inl, inr,
}
use zookeeper.Dataset.Files.{Bill}
use zookeeper.Dataset.Core.{DataSet, Client, apply_bill, move_bill, flush, flush_from}
use zookeeper.Dataset.Replay.{final}
use zookeeper.Dataset.Order.Commits.{history}

module _ {ℓ} {S : Type ℓ} (c : Client S) where
  -- The epoch that is returned, and the data set: `epoch` is what GetPeerEpoch returns, `synced` is false
  -- if WaitForNewLeader throws, and `d` is the data set when `Process` gives up.
  unfoldable pub leading : Bool → ℕ → ℕ → Bool → DataSet S → ℕ × DataSet S
  leading listens peer_epoch epoch synced d =
      if listens
      then (if synced then (epoch, final c (flush c d)) else (epoch, d))
      else (peer_epoch, d)

  flush_from-history :
      (d : DataSet S) (bills : List Bill)
      → history c (final c (flush_from c d bills)) ≡ d.commit_log ++ bills
  unfolding flush_from
  flush_from-history d [] = refl
  flush_from-history d (bill ∷ rest) =
      elim (Option-cases (apply_bill c d.transactions d.state_data bill none)) [
        | inl e ↦ rw (e, flush_from) (append_assoc d.commit_log (bill ∷ []) rest)
        | inr (s, e) ↦
            rw (e, flush_from)
              (flush_from-history
                  (record (move_bill c d bill rest) { state_data = s; zx_id = bill.zx_id }) rest
                ∙ append_assoc d.commit_log (bill ∷ []) rest)
      ]

  -- The end of a term loses no bill and reorders none, however it comes: what is committed and pending
  -- afterwards is what was so before.
  pub leading-history :
      (listens synced : Bool) (peer_epoch epoch : ℕ) (d : DataSet S)
      → history c (leading listens peer_epoch epoch synced d).1 ≡ history c d
  unfolding leading flush
  leading-history true true peer_epoch epoch d = flush_from-history d d.uncommit
  leading-history true false peer_epoch epoch d = refl
  leading-history false synced peer_epoch epoch d = refl
