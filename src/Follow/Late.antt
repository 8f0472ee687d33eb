-- ===== src/Follow/Late.antt =====
-- What a follower is sent while it catches up, and the last id that it leads to.
use zookeeper.Prelude.{
  ℕ, ◌≡◌, refl, sym, ap, ◌∙◌, inl, inr, List, [], ◌∷◌, ◌++◌, none, arith, Bool-cases, All, Option,
  subst, ◌==◌, ==_iff, Option-cases,
}
use zookeeper.Dataset.Files.{Bill, Io}
use zookeeper.Dataset.Core.{
  DataSet, Client, Outcome, done, threw, Env, propose, Transaction, commit, commit_at, commit_front,
  snapshot, apply_bill, move_bill,
}
use zookeeper.Dataset.Replay.{Returns}
use zookeeper.Follow.{
  Message, trunc_dataset, snap_dataset, diff_dataset, new_leader, updated, propose_message,
  commit_message, ping, request_fail, unknown, ack, Reply, working, finished, thrown, garbled, Work,
  FollowEnv, after_call, sync_message, sync_messages,
}
use zookeeper.Follow.Sync.{uncommitted_messages}

-- What a follower is sent behind the first message and before PX_UPDATED: the leader's pending bills,
-- PX_NEWLEADER, and the proposals and commits that are forwarded from `StartForwarding` on.
unfoldable pub IsLate : Message → Type 0
IsLate (propose_message zx_id bytes) = Unit
IsLate (commit_message zx_id from request_id) = Unit
IsLate new_leader = Unit
IsLate m = ⊥

-- The last id that these messages lead to.
unfoldable pub last_commit : ℕ → List Message → ℕ
last_commit last [] = last
last_commit last (commit_message zx_id from request_id ∷ ms) = last_commit zx_id ms
last_commit last (m ∷ ms) = last_commit last ms

pub IsLate-bills :
    (bills : List Bill) (ms : List Message)
    → All IsLate ms
    → All IsLate (uncommitted_messages bills ++ ms)
unfolding uncommitted_messages IsLate
IsLate-bills [] ms h = h
IsLate-bills (bill ∷ bills) ms h = (tt, IsLate-bills bills ms h)

pub last_commit-bills :
    (z : ℕ) (bills : List Bill) (ms : List Message)
    → last_commit z (uncommitted_messages bills ++ ms) ≡ last_commit z ms
unfolding uncommitted_messages last_commit
last_commit-bills z [] ms = refl
last_commit-bills z (bill ∷ bills) ms = last_commit-bills z bills ms

pub thrown≢finished : thrown ≡ finished → ⊥
thrown≢finished h = ground arith

pub garbled≢finished : garbled ≡ finished → ⊥
garbled≢finished h = ground arith

module _ {ℓ} {S : Type ℓ} (c : Client S) where
  -- A work that does not go on is what it is at the end.
  pub sync_messages-garbled :
      (env : FollowEnv) (w : Work S) (ms : List Message)
      → w.progress ≡ garbled
      → (sync_messages c env w ms).progress ≡ garbled
  unfolding sync_messages
  sync_messages-garbled env w [] g = g
  sync_messages-garbled env w (m ∷ ms) g = rw (g, sync_messages) g

  -- What a proposal leaves alone.
  propose-zx_id : (io : Io) (d : DataSet S) (bill : Bill) → (propose c io d bill).1.zx_id ≡ d.zx_id
  unfolding propose
  propose-zx_id io d bill = ground arith

  snapshot-zx_id :
      (env : Env) (d : DataSet S) → Returns c (λ d'. d'.zx_id ≡ d.zx_id) (snapshot c env d)
  unfolding snapshot
  snapshot-zx_id env d = ground arith

  commit_at-zx_id :
      (env : Env) (d : DataSet S) (zx_id : ℕ) (given : Option (Transaction S)) (bills : List Bill)
      → Returns c (λ d'. d'.zx_id ≡ zx_id) (commit_at c env d zx_id given bills)
  unfolding commit_at commit_front
  commit_at-zx_id env d zx_id given [] = tt
  commit_at-zx_id env d zx_id given (bill ∷ rest) = elim (Bool-cases (bill.zx_id == zx_id)) [
    | inl e ↦ elim (Option-cases (apply_bill c d.transactions d.state_data bill given)) [
      | inl f ↦ rw (e, f, commit_at, commit_front) tt
      | inr (s, f) ↦
          rw (e, f, commit_at, commit_front)
            (subst (λ (k : ℕ). Returns c (λ d'. d'.zx_id ≡ k) (snapshot c env (moved s)))
              ((==_iff _ _).0 e) (snapshot-zx_id env (moved s)))
    ]
    | inr e ↦ rw (e, commit_at) tt
  ]
    where
      moved : S → DataSet S
      moved s = record (move_bill c d bill rest) { state_data = s; zx_id = bill.zx_id }

  -- A commit that returns has made its id the last one.
  commit-zx_id :
      (env : Env) (d : DataSet S) (zx_id : ℕ) (given : Option (Transaction S))
      → Returns c (λ d'. d'.zx_id ≡ zx_id) (commit c env d zx_id given)
  unfolding commit
  commit-zx_id env d zx_id given = commit_at-zx_id env d zx_id given d.uncommit

  sync_messages-thrown :
      (env : FollowEnv) (w : Work S) (ms : List Message)
      → w.progress ≡ thrown
      → (sync_messages c env w ms).progress ≡ thrown
  unfolding sync_messages
  sync_messages-thrown env w [] g = g
  sync_messages-thrown env w (m ∷ ms) g = rw (g, sync_messages) g

  -- What follows a call of the data set, if the messages end the synchronisation.
  pub after_call-zx_id :
      (env : FollowEnv) (zx_id : ℕ) (sent : List Reply) (ms : List Message) (last : ℕ → ℕ)
      (o : Outcome S)
      → ((d : DataSet S)
          → (sync_messages c env
              (record { dataset = d; sent = sent ++ []; progress = working })
              ms).progress
            ≡ finished
          → (sync_messages c env
              (record { dataset = d; sent = sent ++ []; progress = working })
              ms).dataset.zx_id
            ≡ last d.zx_id)
      → Returns c (λ d'. d'.zx_id ≡ zx_id) o
      → (sync_messages c env
          (record (after_call c o []) { sent = sent ++ (after_call c o []).sent })
          ms).progress
        ≡ finished
      → (sync_messages c env
          (record (after_call c o []) { sent = sent ++ (after_call c o []).sent })
          ms).dataset.zx_id
        ≡ last zx_id
  unfolding after_call
  after_call-zx_id env zx_id sent ms last (done d) next r h = next d h ∙ ap last r
  after_call-zx_id env zx_id sent ms last (threw x d) next r h =
      absurd (thrown≢finished (sym (sync_messages-thrown env _ ms refl) ∙ h))

  pub sync_messages-zx_id :
      (env : FollowEnv) (ms : List Message) (d : DataSet S) (sent : List Reply)
      → All IsLate ms
      → (sync_messages c env
          (record { dataset = d; sent = sent; progress = working })
          (ms ++ updated ∷ [])).progress
        ≡ finished
      → (sync_messages c env
          (record { dataset = d; sent = sent; progress = working })
          (ms ++ updated ∷ [])).dataset.zx_id
        ≡ last_commit d.zx_id ms
  unfolding sync_messages sync_message IsLate last_commit after_call
  sync_messages-zx_id env [] d sent late h = refl
  sync_messages-zx_id env (propose_message zx_id bytes ∷ ms) d sent late h =
      sync_messages-zx_id env ms
        (propose c (env.io zx_id) d (record { zx_id = zx_id; data_bytes = bytes })).1 (sent ++ [])
        late.1 h
      ∙ ap (λ z. last_commit z ms)
          (propose-zx_id (env.io zx_id) d (record { zx_id = zx_id; data_bytes = bytes }))
  sync_messages-zx_id env (commit_message zx_id from request_id ∷ ms) d sent late h =
      after_call-zx_id env zx_id sent (ms ++ updated ∷ []) (λ z. last_commit z ms)
        (commit c env.disk d zx_id none)
        (λ d' e. sync_messages-zx_id env ms d' (sent ++ []) late.1 e)
        (commit-zx_id env.disk d zx_id none) h
  sync_messages-zx_id env (new_leader ∷ ms) d sent late h =
      sync_messages-zx_id env ms d (sent ++ ack ∷ []) late.1 h
  sync_messages-zx_id env (trunc_dataset zx_id ∷ ms) d sent late h = absurd late.0
  sync_messages-zx_id env (snap_dataset zx_id size bytes ∷ ms) d sent late h = absurd late.0
  sync_messages-zx_id env (diff_dataset ∷ ms) d sent late h = absurd late.0
  sync_messages-zx_id env (updated ∷ ms) d sent late h = absurd late.0
  sync_messages-zx_id env (ping ∷ ms) d sent late h = absurd late.0
  sync_messages-zx_id env (request_fail id ∷ ms) d sent late h = absurd late.0
  sync_messages-zx_id env (unknown ∷ ms) d sent late h = absurd late.0
