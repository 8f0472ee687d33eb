-- ===== src/Lead.antt =====
-- paxos/paxos/lead.cpp: the leader's drafts, from a request to its commit.
pub mod Drafts
pub mod Locks
pub mod Ids
pub mod Sending
pub mod Epoch
pub mod Proposing
pub mod Handler
pub mod Term
mod Tests
use zookeeper.Prelude.{
  ℕ, zero, suc, ◌+◌, ◌-◌, ◌*◌, ◌/◌, ◌^◌, ◌≡◌, Bool, true, false, ◌&&◌, not, List, [], ◌∷◌, ◌++◌,
  Option, none, some, if◌then◌else◌, ltb, leb, ◌==◌, bit_or, length, get_or, set, replicate,
  count_if, map,
}
use zookeeper.Service.{Call, Executor, push_request, pop_request}
use zookeeper.Dataset.Files.{Bill, Io}
use zookeeper.Dataset.Core.{
  DataSet, Transaction, Client, Outcome, done, threw, Env, propose, commit,
}

-- `ZXID(epoch, id)`
unfoldable pub zxid : ℕ → ℕ → ℕ
zxid epoch id = bit_or (epoch * 2 ^ 32) id

pub record Draft : Type 0 where
  pub id : ℕ
  pub request_id : ℕ
  pub zx_id : ℕ
  pub data_bytes : List ℕ
  pub vote : List Bool

-- The messages of paxos/paxos/define.h that the leader sends here. A buffer that is sized and never
-- filled goes out as `zeros`.
pub data Msg : Type 0 where
  propose_msg : ℕ → List ℕ → Msg
  commit_msg : ℕ → ℕ → ℕ → Msg
  request_fail : ℕ → Msg
  zeros : ℕ → Msg

-- `sizeof(paxos_def::Propose)`, packed.
abbrev pub sizeof_propose : ℕ
sizeof_propose = 13

-- The state of `Lead` once followers are served. Ids of servers go from 1 to the number of servers;
-- a descriptor 0 stands for a server that is not forwarded to.
pub record Lead {ℓ} (S : Type ℓ) : Type ℓ where
  pub id : ℕ
  pub peer_epoch : ℕ
  pub next_id : ℕ
  pub forwarding : List ℕ
  pub uncommit : List (ℕ × Draft)
  pub executor : Executor (Transaction S)
  pub dataset : DataSet S

-- The answers of the environment: the writes of a save by id, the disk at a commit, the coroutine
-- that runs, and the bytes of a draft after a header is written over their front.
pub record LeadEnv : Type 0 where
  pub io : ℕ → Io
  pub disk : Env
  pub current : ℕ
  pub header_over : ℕ → List ℕ → List ℕ

pub data Failure : Type 0 where
  not_locked commit_failed : Failure

-- A call so far: the state, what has been sent to which descriptor, the coroutines resumed, those of
-- them told that their request failed, whether `guard` is locked, and the exception, if one is thrown.
pub record Run {ℓ} (S : Type ℓ) : Type ℓ where
  pub lead : Lead S
  pub sent : List (ℕ × Msg)
  pub resumed : List ℕ
  pub failed : List ℕ
  pub locked : Bool
  pub ok : Bool
  pub thrown : Option Failure

-- `for (auto fd : _forwarding) if (fd > 0) hn_send(fd, ...)`
unfoldable pub to_all : List ℕ → Msg → List (ℕ × Msg)
to_all [] m = []
to_all (fd ∷ fds) m = if ltb 0 fd then (fd, m) ∷ to_all fds m else to_all fds m

-- The same for one server.
unfoldable pub to_server : List ℕ → ℕ → Msg → List (ℕ × Msg)
to_server fds id m = let fd : ℕ = get_or fds (id - 1) 0 in if ltb 0 fd then (fd, m) ∷ [] else []

-- `std::map::operator[]`, by rising keys.
unfoldable pub insert_draft : ℕ → Draft → List (ℕ × Draft) → List (ℕ × Draft)
insert_draft k d [] = (k, d) ∷ []
insert_draft k d ((j, e) ∷ m) =
    let rest = insert_draft k d m in
    if ltb k j then (k, d) ∷ (j, e) ∷ m else if k == j then (k, d) ∷ m else (j, e) ∷ rest

module _ {ℓ} {S : Type ℓ} (c : Client S) where
  abbrev pub thrown_by : Failure → Run S → Run S
  thrown_by e r = record r { thrown = some e }

  -- `guard.unlock()`: it throws if the lock is not held.
  abbrev pub unlock : Run S → (Run S → Run S) → Run S
  unlock r next = if r.locked then next (record r { locked = false }) else thrown_by not_locked r

  -- The draft at the front could not be saved: its request fails.
  unfoldable pub fail_draft : LeadEnv → Draft → Run S → Run S
  fail_draft env draft r =
      if draft.id == r.lead.id
      then (let (call, executor) = pop_request r.lead.executor draft.request_id in
          let popped : Run S = record r { lead = record r.lead { executor = executor } } in
          elim call [
            | none ↦ popped
            | some k ↦ record popped {
              failed = r.failed ++ k.co ∷ [];
              resumed = if k.co == env.current then r.resumed else r.resumed ++ k.co ∷ [];
            }
          ])
      else record r {
        sent = r.sent ++ to_server r.lead.forwarding draft.id (request_fail draft.request_id);
      }

  -- The draft at the front was saved: its buffer goes to the followers. The header and the data are
  -- written to `data` and not to `buf`, so that what goes out are the zeros of `buf`.
  unfoldable pub send_draft : LeadEnv → ℕ → Draft → List (ℕ × Draft) → Run S → Run S
  send_draft env zx_id draft rest r =
      let over : List ℕ = env.header_over zx_id draft.data_bytes in
      let kept : Run S = record r {
        lead = record r.lead {
          uncommit = (zx_id, record draft { data_bytes = over ++ over }) ∷ rest;
        };
      } in
      unlock kept
        (λ u. record u { sent = u.sent ++ to_all u.lead.forwarding (zeros sizeof_propose) })

  -- `LaunchNextDraft`, over the map of drafts.
  unfoldable pub launch_from : LeadEnv → List (ℕ × Draft) → Run S → Run S
  launch_from env [] r = record r { lead = record r.lead { uncommit = [] } }
  launch_from env ((zx_id, draft) ∷ rest) r =
      let (saved, dataset) =
        propose c (env.io zx_id) r.lead.dataset
          (record { zx_id = zx_id; data_bytes = draft.data_bytes }) in
      let proposed : Run S = record r { lead = record r.lead { dataset = dataset } } in
      let dropped : Run S = record proposed { lead = record proposed.lead { uncommit = rest } } in
      let next =
        unlock dropped
          (λ u. launch_from env rest (fail_draft env draft (record u { ok = false }))) in
      if saved then send_draft env zx_id draft rest proposed else next

  unfoldable pub launch_next_draft : LeadEnv → Run S → Run S
  unfolding launch_from
  launch_next_draft env r = launch_from env r.lead.uncommit (record r { ok = true })

  abbrev pub begin : Lead S → Run S
  begin l = record {
    lead = l;
    sent = [];
    resumed = [];
    failed = [];
    locked = true;
    ok = true;
    thrown = none;
  }

  -- `Propose(id, requestId, data)`: a draft for the next id, launched if it is alone.
  unfoldable pub new_draft : Lead S → ℕ → ℕ → List ℕ → Lead S
  new_draft l id request_id bytes =
      let zx_id : ℕ = zxid l.peer_epoch l.next_id in
      record l {
        next_id = l.next_id + 1;
        uncommit =
            insert_draft zx_id
              (record {
                id = id;
                request_id = request_id;
                zx_id = zx_id;
                data_bytes = bytes;
                vote = set (replicate (length l.forwarding) false) (id - 1) true;
              })
              l.uncommit;
      }

  unfoldable pub propose_request : LeadEnv → Lead S → ℕ → ℕ → List ℕ → Run S
  propose_request env l id request_id bytes =
      let drafted : Lead S = new_draft l id request_id bytes in
      if length drafted.uncommit == 1
      then launch_next_draft env (begin drafted)
      else unlock (begin drafted) (λ u. u)

  -- `Propose(data, transaction)`, of the leader's own clients.
  unfoldable pub propose_own : LeadEnv → Lead S → List ℕ → Transaction S → Run S
  propose_own env l bytes t =
      let (request_id, executor) = push_request l.executor t env.current in
      propose_request env (record l { executor = executor }) l.id request_id bytes

  -- A majority of the servers has voted.
  abbrev pub is_majority : List Bool → Bool
  is_majority vote = leb (length vote / 2 + 1) (count_if (λ b. b) vote)

  -- The end of `AckPropose`: the answer to the one who asked, or a failure to the one who has voted.
  unfoldable pub answer : ℕ → ℕ → Option (Call (Transaction S)) → Run S → Run S
  answer id request_id (some call) r = record r { resumed = r.resumed ++ call.co ∷ [] }
  answer id request_id none r = record r {
    sent = r.sent ++ to_server r.lead.forwarding id (request_fail request_id);
  }

  -- `if (!_uncommit.empty()) LaunchNextDraft(guard)`
  unfoldable pub launch_rest : LeadEnv → List (ℕ × Draft) → Run S → Run S
  launch_rest env [] r = r
  launch_rest env (next ∷ rest) r = launch_next_draft env r

  -- `guard.unlock()` and the answer, unless the launch has thrown.
  unfoldable pub finish : ℕ → ℕ → Option (Call (Transaction S)) → Run S → Run S
  finish id request_id call r = elim r.thrown [
    | some e ↦ r
    | none ↦ unlock r (answer id request_id call)
  ]

  -- The draft leaves the map, its commit goes out, and the next draft is launched.
  unfoldable pub commit_sent :
      LeadEnv → ℕ → Draft → List (ℕ × Draft) → ℕ → Option (Call (Transaction S)) → Run S → Run S
  unfolding launch_rest finish
  commit_sent env zx_id draft rest id call r = finish id draft.request_id call (
      launch_rest env rest (record r {
        lead = record r.lead { uncommit = rest };
        sent = r.sent ++ to_all r.lead.forwarding (commit_msg zx_id draft.id draft.request_id);
      }))

  abbrev pub transaction_of : Option (Call (Transaction S)) → Option (Transaction S)
  transaction_of none = none
  transaction_of (some call) = some call.transaction

  unfoldable pub commit_draft : LeadEnv → Lead S → ℕ → Draft → List (ℕ × Draft) → ℕ → Run S
  commit_draft env l zx_id draft rest id =
      let (call, executor) =
        if draft.id == l.id then pop_request l.executor draft.request_id else (none, l.executor) in
      let popped : Lead S = record l { executor = executor } in
      elim (commit c env.disk l.dataset zx_id (transaction_of call)) [
        | threw e d ↦ thrown_by commit_failed (begin (record popped { dataset = d }))
        | done d ↦ commit_sent env zx_id draft rest id call (begin (record popped { dataset = d }))
      ]

  -- `AckPropose`
  unfoldable pub ack_at : LeadEnv → Lead S → ℕ → ℕ → List (ℕ × Draft) → Run S
  ack_at env l id zx_id [] = begin l
  ack_at env l id zx_id ((key, draft) ∷ rest) =
      let voted : Draft = record draft { vote = set draft.vote (id - 1) true } in
      let counted : Lead S = record l { uncommit = (key, voted) ∷ rest } in
      if key == zx_id
      then (if is_majority voted.vote
          then commit_draft env counted zx_id voted rest id
          else begin counted)
      else begin l

  unfoldable pub ack_propose : LeadEnv → Lead S → ℕ → ℕ → Run S
  unfolding ack_at
  ack_propose env l id zx_id = ack_at env l id zx_id l.uncommit
