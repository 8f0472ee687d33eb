-- ===== src/Lead/Proposing.antt =====
-- `Propose`, next to the pending bills of the data set.
use zookeeper.Prelude.{
  ℕ, ◌+◌, ◌^◌, ◌<◌, ◌≡◌, refl, sym, ap, ◌∙◌, true, false, List, [], ◌∷◌, ◌++◌, none, arith, ◌==◌,
  length, length-append,
}
use zookeeper.Dataset.Files.{Bill}
use zookeeper.Dataset.Core.{Client}
use zookeeper.Lead.{
  Lead, Draft, LeadEnv, zxid, begin, new_draft, propose_request, launch_next_draft,
}
use zookeeper.Lead.Drafts.{InStep, pending_ids, front, launch_from-InStep}
use zookeeper.Lead.Ids.{KeysRise, new_draft-last}

pending-none : (bills : List Bill) → pending_ids bills ≡ [] → bills ≡ []
pending-none [] h = refl
pending-none (bill ∷ bills) h = cc

module _ {ℓ} {S : Type ℓ} (c : Client S) where
  -- A request, of the leader's own clients or of a follower's, keeps the leader in step, unless it
  -- throws: what is pending in the data set is exactly the oldest draft, if the keys of the drafts rise
  -- below the next id and the numbers of the epoch are not used up.
  pub propose_request-InStep :
      (env : LeadEnv) (l : Lead S) (id request_id : ℕ) (bytes : List ℕ)
      → l.next_id + 1 < 2 ^ 32
      → KeysRise 0 (zxid l.peer_epoch l.next_id) l.uncommit
      → InStep c l
      → (propose_request c env l id request_id bytes).thrown ≡ none
      → InStep c (propose_request c env l id request_id bytes).lead
  unfolding propose_request launch_next_draft new_draft
  propose_request-InStep env l id request_id bytes room rises h t =
      let (draft, last, _, _, _, _) = new_draft-last c l id request_id bytes room rises in
      by_drafts draft l.uncommit refl last
    where
      drafted : Lead S
      drafted = new_draft c l id request_id bytes

      by_drafts :
          (draft : Draft) (drafts : List (ℕ × Draft))
          → l.uncommit ≡ drafts
          → drafted.uncommit ≡ l.uncommit ++ (zxid l.peer_epoch l.next_id, draft) ∷ []
          → InStep c (propose_request c env l id request_id bytes).lead
      by_drafts draft [] u last =
          let whole = last ∙ ap (λ ds. ds ++ (zxid l.peer_epoch l.next_id, draft) ∷ []) u in
          let alone : length drafted.uncommit == 1 ≡ true =
            ap (λ (ds : List (ℕ × Draft)). length ds == 1) whole in
          rw (alone, propose_request, launch_next_draft)
            (launch_from-InStep c env drafted.uncommit (begin c drafted)
              (pending-none l.dataset.uncommit (h ∙ ap front u))
              (rw (alone, propose_request, launch_next_draft) at t))
      by_drafts draft ((k, d) ∷ drafts) u last =
          let whole = last ∙ ap (λ ds. ds ++ (zxid l.peer_epoch l.next_id, draft) ∷ []) u in
          let waits : length drafted.uncommit == 1 ≡ false =
            ap (λ (ds : List (ℕ × Draft)). length ds == 1) whole
            ∙ ground (arith, length-append drafts ((zxid l.peer_epoch l.next_id, draft) ∷ [])) in
          rw (waits, propose_request) (h ∙ ap front u ∙ sym (ap front whole))
