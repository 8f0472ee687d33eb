-- ===== src/Lead/Sending.antt =====
-- What the leader sends while it handles requests and votes.
use zookeeper.Prelude.{
  ℕ, ◌-◌, inl, inr, List, [], ◌∷◌, ◌++◌, ltb, ◌==◌, length, get_or, Bool-cases, Option-cases,
}
use zookeeper.Service.{pop_request}
use zookeeper.Dataset.Core.{Client, propose}
use zookeeper.Lead.{
  Lead, Draft, LeadEnv, Run, Msg, propose_msg, commit_msg, request_fail, zeros, to_all, to_server,
  begin, fail_draft, send_draft, launch_from, launch_next_draft, new_draft, propose_request,
  sizeof_propose,
}
use zookeeper.Lead.Drafts.{bill_of, dropped, proposed}

-- No message of a list is a PX_PROPOSE.
pub NoProposal : List (ℕ × Msg) → Type 0
NoProposal [] = Unit {0}
NoProposal ((fd, propose_msg zx_id bytes) ∷ ms) = ⊥
NoProposal ((fd, commit_msg zx_id from request_id) ∷ ms) = NoProposal ms
NoProposal ((fd, request_fail request_id) ∷ ms) = NoProposal ms
NoProposal ((fd, zeros n) ∷ ms) = NoProposal ms

NoProposal-append : (xs ys : List (ℕ × Msg)) → NoProposal xs → NoProposal ys → NoProposal (xs ++ ys)
unfolding NoProposal
NoProposal-append [] ys h k = k
NoProposal-append ((fd, propose_msg zx_id bytes) ∷ xs) ys h k = absurd h
NoProposal-append ((fd, commit_msg zx_id from request_id) ∷ xs) ys h k = NoProposal-append xs ys h k
NoProposal-append ((fd, request_fail request_id) ∷ xs) ys h k = NoProposal-append xs ys h k
NoProposal-append ((fd, zeros n) ∷ xs) ys h k = NoProposal-append xs ys h k

to_all-zeros : (fds : List ℕ) (n : ℕ) → NoProposal (to_all fds (zeros n))
unfolding NoProposal to_all
to_all-zeros [] n = tt
to_all-zeros (fd ∷ fds) n = elim (Bool-cases (ltb 0 fd)) [
  | inl e ↦ rw e (to_all-zeros fds n)
  | inr e ↦ rw e (to_all-zeros fds n)
]

to_server-fail :
    (fds : List ℕ) (id request_id : ℕ) → NoProposal (to_server fds id (request_fail request_id))
unfolding NoProposal to_server
to_server-fail fds id request_id = elim (Bool-cases (ltb 0 (get_or fds (id - 1) 0))) [
  | inl e ↦ rw e tt
  | inr e ↦ rw e tt
]

module _ {ℓ} {S : Type ℓ} (c : Client S) where
  fail_draft-sends :
      (env : LeadEnv) (draft : Draft) (r : Run S)
      → NoProposal r.sent
      → NoProposal (fail_draft c env draft r).sent
  unfolding fail_draft
  fail_draft-sends env draft r h = elim (Bool-cases (draft.id == r.lead.id)) [
    | inl own ↦ elim (Option-cases (pop_request r.lead.executor draft.request_id).0) [
      | inl e ↦ rw (own, e, fail_draft) h
      | inr (k, e) ↦ rw (own, e, fail_draft) h
    ]
    | inr other ↦
        rw (other, fail_draft)
          (NoProposal-append r.sent
            (to_server r.lead.forwarding draft.id (request_fail draft.request_id)) h
            (to_server-fail r.lead.forwarding draft.id draft.request_id))
  ]

  send_draft-sends :
      (env : LeadEnv) (zx_id : ℕ) (draft : Draft) (rest : List (ℕ × Draft)) (r : Run S)
      → NoProposal r.sent
      → NoProposal (send_draft c env zx_id draft rest r).sent
  unfolding send_draft
  send_draft-sends env zx_id draft rest r h = elim (Bool-cases r.locked) [
    | inl held ↦
        rw (held, send_draft)
          (NoProposal-append r.sent (to_all r.lead.forwarding (zeros sizeof_propose)) h
            (to_all-zeros r.lead.forwarding sizeof_propose))
    | inr free ↦ rw (free, send_draft) h
  ]

  launch_from-sends :
      (env : LeadEnv) (drafts : List (ℕ × Draft)) (r : Run S)
      → NoProposal r.sent
      → NoProposal (launch_from c env drafts r).sent
  unfolding launch_from
  launch_from-sends env [] r h = h
  launch_from-sends env ((zx_id, draft) ∷ rest) r h =
      elim (Bool-cases (propose c (env.io zx_id) r.lead.dataset (bill_of c zx_id draft)).0) [
        | inl saved ↦
            rw (saved, launch_from)
              (send_draft-sends env zx_id draft rest (proposed c env zx_id draft r) h)
        | inr unsaved ↦ elim (Bool-cases r.locked) [
          | inl held ↦
              rw (unsaved, held, launch_from)
                (launch_from-sends env rest
                  (fail_draft c env draft (dropped c env zx_id draft rest r))
                  (fail_draft-sends env draft (dropped c env zx_id draft rest r) h))
          | inr free ↦ rw (unsaved, free, launch_from) h
        ]
      ]

  -- No request, of the leader's own clients or of a follower's, makes the leader send a PX_PROPOSE: a
  -- draft that is launched goes out as zeros.
  pub propose_request-NoProposal :
      (env : LeadEnv) (l : Lead S) (id request_id : ℕ) (bytes : List ℕ)
      → NoProposal (propose_request c env l id request_id bytes).sent
  unfolding propose_request launch_next_draft NoProposal
  propose_request-NoProposal env l id request_id bytes =
      elim (Bool-cases (length (new_draft c l id request_id bytes).uncommit == 1)) [
        | inl alone ↦
            rw (alone, propose_request, launch_next_draft)
              (launch_from-sends env (new_draft c l id request_id bytes).uncommit
                (begin c (new_draft c l id request_id bytes)) tt)
        | inr waits ↦ rw (waits, propose_request) tt
      ]
