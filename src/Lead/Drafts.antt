-- ===== src/Lead/Drafts.antt =====
-- The leader's drafts next to the pending bills of its data set, in `LaunchNextDraft`.
pub mod Acks
use zookeeper.Prelude.{
  ℕ, ◌-◌, ◌≡◌, refl, sym, ap, subst, ◌∙◌, ◌⊎◌, inl, inr, true, false, List, [], ◌∷◌, ◌++◌, Option,
  none, some, arith, if◌then◌else◌, ◌==◌, ==_iff, set, map, Bool-cases, Option-cases,
}
use zookeeper.Service.{Call, pop_request}
use zookeeper.Dataset.Files.{Bill, Io, save_log_data}
use zookeeper.Dataset.Core.{
  DataSet, Transaction, Client, Outcome, Exception, done, threw, Env, propose, commit,
}
use zookeeper.Dataset.Replay.{Returns}
use zookeeper.Dataset.Order.Commits.{TakesOldest, commit-TakesOldest}
use zookeeper.Lead.{
  Lead, Draft, LeadEnv, Run, Failure, begin, fail_draft, send_draft, launch_from, launch_next_draft,
  to_all, commit_msg, answer, finish, launch_rest, commit_sent, commit_draft, transaction_of,
  is_majority, ack_at, ack_propose,
}

-- The ids of the pending bills, and of the draft that is out for votes.
abbrev pub pending_ids : List Bill → List ℕ
pending_ids = map (λ b. b.zx_id)

abbrev pub front : List (ℕ × Draft) → List ℕ
front [] = []
front ((k, d) ∷ rest) = k ∷ []

module _ {ℓ} {S : Type ℓ} (c : Client S) where
  abbrev pub InStep : Lead S → Type 0
  InStep l = pending_ids l.dataset.uncommit ≡ front l.uncommit

  -- A proposal to a data set with nothing pending, by its outcome.
  propose-pending :
      (io : Io) (d : DataSet S) (bill : Bill)
      → d.uncommit ≡ []
      → (propose c io d bill).1.uncommit ≡ (if (propose c io d bill).0 then bill ∷ [] else [])
  unfolding propose
  propose-pending io d bill e = elim (Bool-cases (save_log_data c.layout io d.files bill).0) [
    | inl s ↦ rw (s, propose) (rw e refl)
    | inr s ↦ rw (s, propose) e
  ]

  pub fail_draft-dataset :
      (env : LeadEnv) (draft : Draft) (r : Run S)
      → ((fail_draft c env draft r).lead.dataset ≡ r.lead.dataset)
        × ((fail_draft c env draft r).lead.uncommit ≡ r.lead.uncommit)
        × ((fail_draft c env draft r).locked ≡ r.locked)
        × ((fail_draft c env draft r).thrown ≡ r.thrown)
  unfolding fail_draft
  fail_draft-dataset env draft r = ground arith

  send_draft-lead :
      (env : LeadEnv) (zx_id : ℕ) (draft : Draft) (rest : List (ℕ × Draft)) (r : Run S)
      → ((send_draft c env zx_id draft rest r).lead.dataset ≡ r.lead.dataset)
        × (front (send_draft c env zx_id draft rest r).lead.uncommit ≡ zx_id ∷ [])
  unfolding send_draft
  send_draft-lead env zx_id draft rest r = elim (Bool-cases r.locked) [
    | inl e ↦ rw (e, send_draft) (refl, refl)
    | inr e ↦ rw (e, send_draft) (refl, refl)
  ]

  -- The bill of a draft.
  abbrev pub bill_of : ℕ → Draft → Bill
  bill_of zx_id draft = record { zx_id = zx_id; data_bytes = draft.data_bytes }

  abbrev pub proposed : LeadEnv → ℕ → Draft → Run S → Run S
  proposed env zx_id draft r = record r {
    lead = record r.lead {
      dataset = (propose c (env.io zx_id) r.lead.dataset (bill_of zx_id draft)).1;
    };
  }

  abbrev pub dropped : LeadEnv → ℕ → Draft → List (ℕ × Draft) → Run S → Run S
  dropped env zx_id draft rest r = record r {
    lead = record r.lead {
      dataset = (propose c (env.io zx_id) r.lead.dataset (bill_of zx_id draft)).1;
      uncommit = rest;
    };
    locked = false;
    ok = false;
  }

  pub not_thrown : {e : Failure} → some e ≡ none → ⊥
  not_thrown h = cc

  pub launch_from-InStep :
      (env : LeadEnv) (drafts : List (ℕ × Draft)) (r : Run S)
      → r.lead.dataset.uncommit ≡ []
      → (launch_from c env drafts r).thrown ≡ none
      → InStep (launch_from c env drafts r).lead
  unfolding launch_from
  launch_from-InStep env [] r e t = rw e refl
  launch_from-InStep env ((zx_id, draft) ∷ rest) r e t =
      elim (Bool-cases (propose c (env.io zx_id) r.lead.dataset (bill_of zx_id draft)).0) [
        | inl saved ↦
            let pending : (propose c (env.io zx_id) r.lead.dataset (bill_of zx_id draft)).1.uncommit
                ≡ bill_of zx_id draft ∷ [] =
              propose-pending (env.io zx_id) r.lead.dataset (bill_of zx_id draft) e
              ∙ rw saved refl in
            let (same, ahead) = send_draft-lead env zx_id draft rest (proposed env zx_id draft r) in
            rw (saved, launch_from)
              (ap (λ (d : DataSet S). pending_ids d.uncommit) same
                ∙ ap pending_ids pending
                ∙ sym ahead)
        | inr unsaved ↦
            let pending : (propose c (env.io zx_id) r.lead.dataset (bill_of zx_id draft)).1.uncommit
                ≡ [] =
              propose-pending (env.io zx_id) r.lead.dataset (bill_of zx_id draft) e
              ∙ rw unsaved refl in
            elim (Bool-cases r.locked) [
              | inl held ↦
                  let (same, _, _, _) =
                    fail_draft-dataset env draft (dropped env zx_id draft rest r) in
                  rw (unsaved, held, launch_from)
                    (launch_from-InStep env rest
                      (fail_draft c env draft (dropped env zx_id draft rest r))
                      (ap (λ (d : DataSet S). d.uncommit) same ∙ pending)
                      (rw (unsaved, held, launch_from) at t))
              | inr free ↦ absurd (not_thrown (rw (unsaved, free, launch_from) at t))
            ]
      ]

  -- How a commit ends.
  pub Outcome-cases :
      (o : Outcome S)
      → ((d : DataSet S) × (o ≡ done d)) ⊎ ((x : Exception) × (d : DataSet S) × (o ≡ threw x d))
  Outcome-cases (done d) = inl (d, refl)
  Outcome-cases (threw x d) = inr (x, d, refl)
