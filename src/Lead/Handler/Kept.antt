-- ===== src/Lead/Handler/Kept.antt =====
-- What a launch, an acknowledgement and a request do to the keys of the drafts.
use zookeeper.Prelude.{
  ℕ, suc, ◌+◌, ◌-◌, ◌^◌, ◌≤◌, ◌<◌, ◌≡◌, refl, sym, subst, ◌∙◌, inl, inr, true, List, [], ◌∷◌, none,
  arith, if◌then◌else◌, ◌==◌, length, set, Bool-cases,
}
use zookeeper.Service.{pop_request}
use zookeeper.Dataset.Core.{Client, propose, commit}
use zookeeper.Lead.{
  Lead, Draft, LeadEnv, Run, zxid, begin, new_draft, propose_request, launch_from,
  launch_next_draft, fail_draft, send_draft, commit_sent, commit_draft, launch_rest, ack_at,
  is_majority, transaction_of, to_all, commit_msg,
}
use zookeeper.Lead.Drafts.{bill_of, dropped, Outcome-cases}
use zookeeper.Lead.Drafts.Acks.{finish-lead}
use zookeeper.Lead.Ids.{KeysRise, new_draft-last}

KeysRise-lower :
    (lo lo' hi : ℕ) (drafts : List (ℕ × Draft))
    → lo' ≤ lo
    → KeysRise lo hi drafts
    → KeysRise lo' hi drafts
unfolding KeysRise
KeysRise-lower lo lo' hi [] le h = tt
KeysRise-lower lo lo' hi ((k, d) ∷ drafts) le h = (omega (arith, h.0), h.1, h.2)

module _ {ℓ} {S : Type ℓ} (c : Client S) where
  -- A leader that differs from `l` in its drafts, whose keys rise below `hi`, but not in its epoch and
  -- in the next number.
  pub record Kept (l : Lead S) (hi : ℕ) (l' : Lead S) : Type 0 where
    pub rise : KeysRise 0 hi l'.uncommit
    pub same_epoch : l'.peer_epoch ≡ l.peer_epoch
    pub same_next : l'.next_id ≡ l.next_id

  fail_draft-ids :
      (env : LeadEnv) (draft : Draft) (r : Run S)
      → ((fail_draft c env draft r).lead.peer_epoch ≡ r.lead.peer_epoch)
        × ((fail_draft c env draft r).lead.next_id ≡ r.lead.next_id)
  unfolding fail_draft
  fail_draft-ids env draft r = ground arith

  launch_from-Kept :
      (env : LeadEnv) (drafts : List (ℕ × Draft)) (r : Run S) (lo hi : ℕ)
      → KeysRise lo hi drafts
      → Kept r.lead hi (launch_from c env drafts r).lead
  unfolding launch_from send_draft KeysRise
  launch_from-Kept env [] r lo hi h = record { rise = tt; same_epoch = refl; same_next = refl }
  launch_from-Kept env ((k, draft) ∷ rest) r lo hi h =
      elim (Bool-cases (propose c (env.io k) r.lead.dataset (bill_of c k draft)).0) [
        | inl saved ↦ elim (Bool-cases r.locked) [
          | inl held ↦
              rw (saved, held, launch_from, send_draft)
                (record { rise = (omega arith, h.1, h.2); same_epoch = refl; same_next = refl })
          | inr free ↦
              rw (saved, free, launch_from, send_draft)
                (record { rise = (omega arith, h.1, h.2); same_epoch = refl; same_next = refl })
        ]
        | inr unsaved ↦ elim (Bool-cases r.locked) [
          | inl held ↦
              let failed : Run S = fail_draft c env draft (dropped c env k draft rest r) in
              let (epoch, next) = fail_draft-ids env draft (dropped c env k draft rest r) in
              let later = launch_from-Kept env rest failed (suc k) hi h.2 in
              rw (unsaved, held, launch_from)
                (record {
                  rise = later.rise;
                  same_epoch = later.same_epoch ∙ epoch;
                  same_next = later.same_next ∙ next;
                })
          | inr free ↦
              rw (unsaved, free, launch_from)
                (record {
                  rise = KeysRise-lower (suc k) 0 hi rest (omega arith) h.2;
                  same_epoch = refl;
                  same_next = refl;
                })
        ]
      ]

  launch_rest-Kept :
      (env : LeadEnv) (rest : List (ℕ × Draft)) (r : Run S) (lo hi : ℕ)
      → r.lead.uncommit ≡ rest
      → KeysRise lo hi rest
      → Kept r.lead hi (launch_rest c env rest r).lead
  unfolding launch_rest launch_next_draft KeysRise
  launch_rest-Kept env [] r lo hi u h = record {
    rise = subst (KeysRise 0 hi) (sym u) tt;
    same_epoch = refl;
    same_next = refl;
  }
  launch_rest-Kept env (next ∷ rest) r lo hi u h =
      let launched =
        launch_from-Kept env r.lead.uncommit (record r { ok = true }) lo hi
          (subst (KeysRise lo hi) (sym u) h) in
      record {
        rise = launched.rise;
        same_epoch = launched.same_epoch;
        same_next = launched.same_next;
      }

  commit_draft-Kept :
      (env : LeadEnv) (l : Lead S) (key zx_id lo hi : ℕ) (draft : Draft) (rest : List (ℕ × Draft))
      (id : ℕ)
      → l.uncommit ≡ (key, draft) ∷ rest
      → KeysRise lo hi ((key, draft) ∷ rest)
      → Kept l hi (commit_draft c env l zx_id draft rest id).lead
  unfolding commit_draft commit_sent KeysRise
  commit_draft-Kept env l key zx_id lo hi draft rest id u h =
      let (call, executor) =
        if draft.id == l.id then pop_request l.executor draft.request_id else (none, l.executor) in
      elim (Outcome-cases c (commit c env.disk l.dataset zx_id (transaction_of c call))) [
        | inl (d, e) ↦
            let ready : Run S =
              record (begin c (record l { executor = executor; dataset = d; uncommit = rest })) {
                sent = to_all l.forwarding (commit_msg zx_id draft.id draft.request_id);
              } in
            let launched = launch_rest-Kept env rest ready (suc key) hi refl h.2 in
            rw (e, commit_draft)
              (subst (Kept l hi)
                (sym (finish-lead c id draft.request_id call (launch_rest c env rest ready)))
                (record {
                  rise = launched.rise;
                  same_epoch = launched.same_epoch;
                  same_next = launched.same_next;
                }))
        | inr (x, d, e) ↦
            rw (e, commit_draft)
              (record {
                rise = subst (KeysRise 0 hi) (sym u) (omega arith, h.1, h.2);
                same_epoch = refl;
                same_next = refl;
              })
      ]

  pub ack_at-Kept :
      (env : LeadEnv) (l : Lead S) (id zx_id hi : ℕ) (drafts : List (ℕ × Draft))
      → l.uncommit ≡ drafts
      → KeysRise 0 hi drafts
      → Kept l hi (ack_at c env l id zx_id drafts).lead
  unfolding ack_at KeysRise
  ack_at-Kept env l id zx_id hi [] u h = record {
    rise = subst (KeysRise 0 hi) (sym u) tt;
    same_epoch = refl;
    same_next = refl;
  }
  ack_at-Kept env l id zx_id hi ((key, draft) ∷ rest) u h =
      let voted : Draft = record draft { vote = set draft.vote (id - 1) true } in
      let counted : Lead S = record l { uncommit = (key, voted) ∷ rest } in
      elim (Bool-cases (key == zx_id)) [
        | inl oldest ↦ elim (Bool-cases (is_majority c voted.vote)) [
          | inl many ↦
              let kept = commit_draft-Kept env counted key zx_id 0 hi voted rest id refl h in
              rw (oldest, many, ack_at)
                (record {
                  rise = kept.rise;
                  same_epoch = kept.same_epoch;
                  same_next = kept.same_next;
                })
          | inr few ↦
              rw (oldest, few, ack_at) (record { rise = h; same_epoch = refl; same_next = refl })
        ]
        | inr other ↦
            rw (other, ack_at)
              (record {
                rise = subst (KeysRise 0 hi) (sym u) h;
                same_epoch = refl;
                same_next = refl;
              })
      ]

  pub propose_request-Kept :
      (env : LeadEnv) (l : Lead S) (id request_id : ℕ) (bytes : List ℕ)
      → l.next_id + 1 < 2 ^ 32
      → KeysRise 0 (zxid l.peer_epoch l.next_id) l.uncommit
      → Kept
          (record l { next_id = l.next_id + 1 })
          (zxid l.peer_epoch (l.next_id + 1))
          (propose_request c env l id request_id bytes).lead
  unfolding propose_request launch_next_draft new_draft
  propose_request-Kept env l id request_id bytes room h =
      let (draft, _, _, _, _, rise) = new_draft-last c l id request_id bytes room h in
      let drafted : Lead S = new_draft c l id request_id bytes in
      elim (Bool-cases (length drafted.uncommit == 1)) [
        | inl alone ↦
            let launched =
              launch_from-Kept env drafted.uncommit (begin c drafted) 0
                (zxid l.peer_epoch (l.next_id + 1)) rise in
            rw (alone, propose_request, launch_next_draft)
              (record {
                rise = launched.rise;
                same_epoch = launched.same_epoch;
                same_next = launched.same_next;
              })
        | inr waits ↦
            rw (waits, propose_request)
              (record { rise = rise; same_epoch = refl; same_next = refl })
      ]
