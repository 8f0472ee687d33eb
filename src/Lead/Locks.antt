-- ===== src/Lead/Locks.antt =====
-- The lock of the leader's drafts: `LaunchNextDraft` unlocks the guard that its callers unlock again.
use zookeeper.Prelude.{
  ℕ, ◌-◌, ◌≡◌, refl, ap, ◌∙◌, ◌⊎◌, inl, inr, true, false, List, [], ◌∷◌, Option, none, some,
  if◌then◌else◌, ◌==◌, ==_refl, set, Bool-cases,
}
use zookeeper.Service.{Call, Executor, pop_request}
use zookeeper.Dataset.Core.{DataSet, Transaction, Client, done, propose, commit}
use zookeeper.Lead.{
  Lead, Draft, LeadEnv, Run, not_locked, begin, fail_draft, send_draft, launch_from,
  launch_next_draft, finish, launch_rest, commit_sent, commit_draft, transaction_of, is_majority,
  ack_at, ack_propose,
}
use zookeeper.Lead.Drafts.{fail_draft-dataset, bill_of, dropped, proposed}

module _ {ℓ} {S : Type ℓ} (c : Client S) where
  -- The guard has been unlocked once, or more often, which throws.
  abbrev IsReleased : Run S → Type 0
  IsReleased r = (r.thrown ≡ some not_locked) ⊎ ((r.thrown ≡ none) × (r.locked ≡ false))

  send_draft-IsReleased :
      (env : LeadEnv) (zx_id : ℕ) (draft : Draft) (rest : List (ℕ × Draft)) (r : Run S)
      → r.thrown ≡ none
      → IsReleased (send_draft c env zx_id draft rest r)
  unfolding send_draft
  send_draft-IsReleased env zx_id draft rest r n = elim (Bool-cases r.locked) [
    | inl e ↦ rw (e, send_draft) (inr (n, refl))
    | inr e ↦ rw (e, send_draft) (inl refl)
  ]

  launch_from-again :
      (env : LeadEnv) (drafts : List (ℕ × Draft)) (r : Run S)
      → r.thrown ≡ none
      → r.locked ≡ false
      → IsReleased (launch_from c env drafts r)
  unfolding launch_from
  launch_from-again env [] r n free = inr (n, free)
  launch_from-again env ((zx_id, draft) ∷ rest) r n free =
      elim (Bool-cases (propose c (env.io zx_id) r.lead.dataset (bill_of c zx_id draft)).0) [
        | inl saved ↦
            rw (saved, launch_from)
              (send_draft-IsReleased env zx_id draft rest (proposed c env zx_id draft r) n)
        | inr unsaved ↦ rw (unsaved, free, launch_from) (inl refl)
      ]

  launch_from-IsReleased :
      (env : LeadEnv) (zx_id : ℕ) (draft : Draft) (rest : List (ℕ × Draft)) (r : Run S)
      → r.thrown ≡ none
      → IsReleased (launch_from c env ((zx_id, draft) ∷ rest) r)
  unfolding launch_from
  launch_from-IsReleased env zx_id draft rest r n =
      elim (Bool-cases (propose c (env.io zx_id) r.lead.dataset (bill_of c zx_id draft)).0) [
        | inl saved ↦
            rw (saved, launch_from)
              (send_draft-IsReleased env zx_id draft rest (proposed c env zx_id draft r) n)
        | inr unsaved ↦ elim (Bool-cases r.locked) [
          | inl held ↦
              let (_, _, locked, thrown) =
                fail_draft-dataset c env draft (dropped c env zx_id draft rest r) in
              rw (unsaved, held, launch_from)
                (launch_from-again env rest
                  (fail_draft c env draft (dropped c env zx_id draft rest r)) (thrown ∙ n) locked)
          | inr free ↦ rw (unsaved, free, launch_from) (inl refl)
        ]
      ]

  finish-throws :
      (id request_id : ℕ) (call : Option (Call (Transaction S))) (r : Run S)
      → IsReleased r
      → (finish c id request_id call r).thrown ≡ some not_locked
  unfolding finish
  finish-throws id request_id call r (inl e) = rw (e, finish) e
  finish-throws id request_id call r (inr (n, free)) = rw (n, free, finish) refl

  commit_sent-throws :
      (env : LeadEnv) (zx_id : ℕ) (draft : Draft) (next : ℕ × Draft) (rest : List (ℕ × Draft))
      (id : ℕ) (call : Option (Call (Transaction S))) (r : Run S)
      → r.thrown ≡ none
      → (commit_sent c env zx_id draft (next ∷ rest) id call r).thrown ≡ some not_locked
  unfolding commit_sent launch_rest launch_next_draft
  commit_sent-throws env zx_id draft (k, d) rest id call r n =
      finish-throws id draft.request_id call _ (launch_from-IsReleased env k d rest _ n)

  -- An acknowledgement that brings the oldest draft the votes of a majority while another draft waits
  -- ends in the exception of a second unlock, if the data set commits the draft.
  pub ack_double_unlock :
      (env : LeadEnv) (l : Lead S) (id zx_id : ℕ) (draft : Draft) (next : ℕ × Draft)
      (rest : List (ℕ × Draft))
      → l.uncommit ≡ (zx_id, draft) ∷ next ∷ rest
      → is_majority c (set draft.vote (id - 1) true) ≡ true
      → ((given : Option (Transaction S))
          → (d : DataSet S) × (commit c env.disk l.dataset zx_id given ≡ done d))
      → (ack_propose c env l id zx_id).thrown ≡ some not_locked
  unfolding ack_propose commit_draft
  ack_double_unlock env l id zx_id draft next rest u m ok =
      let (d, returns) = ok (transaction_of c call) in
      ap (λ (drafts : List (ℕ × Draft)). (ack_at c env l id zx_id drafts).thrown) u
      ∙ rw (==_refl zx_id, m, returns, ack_at, commit_draft)
          (commit_sent-throws env zx_id voted next rest id call
            (begin c (record counted { executor = executor; dataset = d })) refl)
    where
      voted : Draft
      voted = record draft { vote = set draft.vote (id - 1) true }

      counted : Lead S
      counted = record l { uncommit = (zx_id, voted) ∷ next ∷ rest }

      popped : Option (Call (Transaction S)) × Executor (Transaction S)
      popped =
          if draft.id == l.id then pop_request l.executor draft.request_id else (none, l.executor)

      call : Option (Call (Transaction S))
      call = popped.0

      executor : Executor (Transaction S)
      executor = popped.1
