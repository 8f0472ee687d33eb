-- ===== src/Lead/Drafts/Acks.antt =====
-- `AckPropose`, next to the pending bills of the data set.
use zookeeper.Prelude.{
  ℕ, ◌-◌, ◌≡◌, refl, sym, ap, subst, ◌∙◌, inl, inr, true, false, List, [], ◌∷◌, ◌++◌, Option, none,
  some, if◌then◌else◌, ◌==◌, ==_iff, set, Bool-cases, Option-cases,
}
use zookeeper.Service.{Call, pop_request}
use zookeeper.Dataset.Files.{Bill}
use zookeeper.Dataset.Core.{DataSet, Transaction, Client, done, Env, commit}
use zookeeper.Dataset.Replay.{Returns}
use zookeeper.Dataset.Order.Commits.{TakesOldest, commit-TakesOldest}
use zookeeper.Lead.{
  Lead, Draft, LeadEnv, Run, begin, launch_next_draft, to_all, commit_msg, answer, finish,
  launch_rest, commit_sent, commit_draft, transaction_of, is_majority, ack_at, ack_propose,
}
use zookeeper.Lead.Drafts.{
  InStep, not_thrown, launch_from-InStep, Outcome-cases, pending_ids, front,
}

module _ {ℓ} {S : Type ℓ} (c : Client S) where
  -- The pending bill of a front draft is the only one, so a commit that returns leaves none.
  committed-none :
      (env : Env) (d d' : DataSet S) (key zx_id : ℕ) (given : Option (Transaction S))
      → pending_ids d.uncommit ≡ key ∷ []
      → commit c env d zx_id given ≡ done d'
      → d'.uncommit ≡ []
  committed-none env d d' key zx_id given p e =
      let (bill, split, _) =
        subst (Returns c (TakesOldest c d zx_id)) e (commit-TakesOldest c env d zx_id given) in
      nil_of bill d'.uncommit (ap pending_ids (sym split) ∙ p)
    where
      nil_of : (b : Bill) (bs : List Bill) → pending_ids (b ∷ bs) ≡ key ∷ [] → bs ≡ []
      nil_of b [] h = refl
      nil_of b (x ∷ bs) h = cc

  answer-lead :
      (id request_id : ℕ) (call : Option (Call (Transaction S))) (r : Run S)
      → (answer c id request_id call r).lead ≡ r.lead
  unfolding answer
  answer-lead id request_id none r = refl
  answer-lead id request_id (some call) r = refl

  pub finish-lead :
      (id request_id : ℕ) (call : Option (Call (Transaction S))) (r : Run S)
      → (finish c id request_id call r).lead ≡ r.lead
  unfolding finish
  finish-lead id request_id call r = elim (Option-cases r.thrown) [
    | inl e ↦ elim (Bool-cases r.locked) [
      | inl held ↦
          rw (e, held, finish) (answer-lead id request_id call (record r { locked = false }))
      | inr free ↦ rw (e, free, finish) refl
    ]
    | inr (x, e) ↦ rw (e, finish) refl
  ]

  finish-thrown :
      (id request_id : ℕ) (call : Option (Call (Transaction S))) (r : Run S)
      → (finish c id request_id call r).thrown ≡ none
      → r.thrown ≡ none
  unfolding finish
  finish-thrown id request_id call r h = elim (Option-cases r.thrown) [
    | inl e ↦ e
    | inr (x, e) ↦ absurd (not_thrown c (sym e ∙ rw (e, finish) at h))
  ]

  launch_rest-InStep :
      (env : LeadEnv) (rest : List (ℕ × Draft)) (r : Run S)
      → r.lead.dataset.uncommit ≡ []
      → r.lead.uncommit ≡ rest
      → (launch_rest c env rest r).thrown ≡ none
      → InStep c (launch_rest c env rest r).lead
  unfolding launch_rest launch_next_draft
  launch_rest-InStep env [] r e u t = rw (e, u) refl
  launch_rest-InStep env (next ∷ rest) r e u t =
      launch_from-InStep c env r.lead.uncommit (record r { ok = true }) e t

  commit_sent-InStep :
      (env : LeadEnv) (zx_id : ℕ) (draft : Draft) (rest : List (ℕ × Draft)) (id : ℕ)
      (call : Option (Call (Transaction S))) (r : Run S)
      → r.lead.dataset.uncommit ≡ []
      → (commit_sent c env zx_id draft rest id call r).thrown ≡ none
      → InStep c (commit_sent c env zx_id draft rest id call r).lead
  unfolding commit_sent
  commit_sent-InStep env zx_id draft rest id call r e t =
      subst (InStep c) (sym (finish-lead id draft.request_id call launched)) (
        launch_rest-InStep env rest sent e refl (finish-thrown id draft.request_id call launched t))
    where
      sent : Run S
      sent = record r {
        lead = record r.lead { uncommit = rest };
        sent = r.sent ++ to_all r.lead.forwarding (commit_msg zx_id draft.id draft.request_id);
      }

      launched : Run S
      launched = launch_rest c env rest sent

  commit_draft-InStep :
      (env : LeadEnv) (l : Lead S) (zx_id : ℕ) (draft : Draft) (rest : List (ℕ × Draft)) (id : ℕ)
      → pending_ids l.dataset.uncommit ≡ zx_id ∷ []
      → (commit_draft c env l zx_id draft rest id).thrown ≡ none
      → InStep c (commit_draft c env l zx_id draft rest id).lead
  unfolding commit_draft
  commit_draft-InStep env l zx_id draft rest id p t =
      let (call, executor) =
        if draft.id == l.id then pop_request l.executor draft.request_id else (none, l.executor) in
      elim (Outcome-cases c (commit c env.disk l.dataset zx_id (transaction_of c call))) [
        | inl (d, e) ↦
            rw (e, commit_draft)
              (commit_sent-InStep env zx_id draft rest id call
                (begin c (record l { executor = executor; dataset = d }))
                (committed-none env.disk l.dataset d zx_id zx_id (transaction_of c call) p e)
                (rw (e, commit_draft) at t))
        | inr (x, d, e) ↦ absurd (not_thrown c (rw (e, commit_draft) at t))
      ]

  ack_at-InStep :
      (env : LeadEnv) (l : Lead S) (id zx_id : ℕ) (drafts : List (ℕ × Draft))
      → l.uncommit ≡ drafts
      → InStep c l
      → (ack_at c env l id zx_id drafts).thrown ≡ none
      → InStep c (ack_at c env l id zx_id drafts).lead
  unfolding ack_at
  ack_at-InStep env l id zx_id [] u h t = h
  ack_at-InStep env l id zx_id ((key, draft) ∷ rest) u h t = elim (Bool-cases (key == zx_id)) [
    | inl e ↦ elim (Bool-cases (is_majority c voted.vote)) [
      | inl m ↦
          rw (e, m, ack_at)
            (commit_draft-InStep env counted zx_id voted rest id
              (h ∙ ap front u ∙ ap (λ (k : ℕ). k ∷ []) ((==_iff key zx_id).0 e))
              (rw (e, m, ack_at) at t))
      | inr few ↦ rw (e, few, ack_at) (h ∙ ap front u)
    ]
    | inr other ↦ rw (other, ack_at) h
  ]
    where
      voted : Draft
      voted = record draft { vote = set draft.vote (id - 1) true }

      counted : Lead S
      counted = record l { uncommit = (key, voted) ∷ rest }

  -- An acknowledgement that does not throw keeps the leader in step: what is pending in its data set is
  -- exactly the oldest draft, if there is one.
  pub ack_propose-InStep :
      (env : LeadEnv) (l : Lead S) (id zx_id : ℕ)
      → InStep c l
      → (ack_propose c env l id zx_id).thrown ≡ none
      → InStep c (ack_propose c env l id zx_id).lead
  unfolding ack_propose
  ack_propose-InStep env l id zx_id h t = ack_at-InStep env l id zx_id l.uncommit refl h t

  ack_at_refused :
      (env : LeadEnv) (l : Lead S) (id zx_id : ℕ) (drafts : List (ℕ × Draft))
      → ((draft : Draft) (rest : List (ℕ × Draft))
          → drafts ≡ (zx_id, draft) ∷ rest
          → is_majority c (set draft.vote (id - 1) true) ≡ false)
      → ((ack_at c env l id zx_id drafts).lead.dataset ≡ l.dataset)
        × ((ack_at c env l id zx_id drafts).sent ≡ [])
        × ((ack_at c env l id zx_id drafts).resumed ≡ [])
        × ((ack_at c env l id zx_id drafts).thrown ≡ none)
  unfolding ack_at
  ack_at_refused env l id zx_id [] h = (refl, refl, refl, refl)
  ack_at_refused env l id zx_id ((key, draft) ∷ rest) h = elim (Bool-cases (key == zx_id)) [
    | inl e ↦
        let few = h draft rest (ap (λ (k : ℕ). (k, draft) ∷ rest) ((==_iff key zx_id).0 e)) in
        rw (e, few, ack_at) (refl, refl, refl, refl)
    | inr other ↦ rw (other, ack_at) (refl, refl, refl, refl)
  ]

  -- Nothing is committed, sent or answered by an acknowledgement unless it is of the oldest draft and
  -- brings it the votes of a majority of the servers.
  pub ack_propose_refused :
      (env : LeadEnv) (l : Lead S) (id zx_id : ℕ)
      → ((draft : Draft) (rest : List (ℕ × Draft))
          → l.uncommit ≡ (zx_id, draft) ∷ rest
          → is_majority c (set draft.vote (id - 1) true) ≡ false)
      → ((ack_propose c env l id zx_id).lead.dataset ≡ l.dataset)
        × ((ack_propose c env l id zx_id).sent ≡ [])
        × ((ack_propose c env l id zx_id).resumed ≡ [])
        × ((ack_propose c env l id zx_id).thrown ≡ none)
  unfolding ack_propose
  ack_propose_refused env l id zx_id h = ack_at_refused env l id zx_id l.uncommit h
