-- ===== src/Follow.antt =====
-- paxos/paxos/follow.cpp: a follower's registration, its synchronisation and its work on the messages
-- of its leader, and `FollowHandler::SyncFollower` of lead.cpp, which feeds it.
pub mod Sync
pub mod Late
pub mod Catchup
pub mod Asking
pub mod Joining
mod Tests
use zookeeper.Prelude.{
  ℕ, zero, suc, ◌+◌, ◌≡◌, take, drop, Bool, true, false, ◌&&◌, not, List, [], ◌∷◌, ◌++◌, Option,
  none, some, if◌then◌else◌, ltb, leb, ◌==◌,
}
use zookeeper.Service.{Call, Executor, push_request, pop_request}
use zookeeper.Dataset.Files.{Bill, Io}
use zookeeper.Dataset.Core.{
  DataSet, Transaction, Client, Outcome, done, threw, Env, propose, commit, trunc, snap,
}

-- The messages of a leader, as a follower reads them off its socket.
pub data Message : Type 0 where
  trunc_dataset : ℕ → Message
  snap_dataset : ℕ → ℕ → List ℕ → Message
  diff_dataset : Message
  new_leader : Message
  updated : Message
  propose_message : ℕ → List ℕ → Message
  commit_message : ℕ → ℕ → ℕ → Message
  ping : Message
  request_fail : ℕ → Message
  unknown : Message

-- What a follower sends.
pub data Reply : Type 0 where
  follow_info : ℕ → Reply
  ack_epoch : ℕ → ℕ → Reply
  ack : Reply
  ack_propose : ℕ → Reply
  request : ℕ → List ℕ → Reply
  pong : Reply

-- `RegisterToLeader`, between the epoch that the leader has answered and the acknowledgement: the epoch
-- of the follower from then on, or none for the exception.
unfoldable pub register_to_leader : ℕ → ℕ → ℕ → Option (ℕ × Reply)
register_to_leader peer_epoch leader_epoch zx_id =
    if ltb peer_epoch leader_epoch
    then some (leader_epoch, ack_epoch zx_id leader_epoch)
    else if ltb leader_epoch peer_epoch
    then none
    else some (peer_epoch, ack_epoch zx_id peer_epoch)

-- The answers of the disk, to the save of a proposal by its id and to the other calls.
pub record FollowEnv : Type 0 where
  pub io : ℕ → Io
  pub disk : Env

-- Whether a loop over the messages goes on, has ended, or has thrown. It is garbled when a message is
-- passed over of which only the type byte has been read: what is read next as a type is then a byte of
-- that message.
pub data Progress : Type 0 where
  working finished thrown garbled : Progress

-- Messages that are a type byte and nothing else.
unfoldable pub is_bare : Message → Bool
is_bare diff_dataset = true
is_bare new_leader = true
is_bare updated = true
is_bare ping = true
is_bare unknown = true
is_bare _ = false

abbrev pub passed_over : Message → Progress
passed_over m = if is_bare m then working else garbled

-- A stretch of a follower's synchronisation: the data set, what it has sent, and how it goes on.

pub record Work {ℓ} (S : Type ℓ) : Type ℓ where
  pub dataset : DataSet S
  pub sent : List Reply
  pub progress : Progress

module _ {ℓ} {S : Type ℓ} (c : Client S) where
  -- A call of the data set that may throw.
  unfoldable pub after_call : Outcome S → List Reply → Work S
  after_call (done d) sent = record { dataset = d; sent = sent; progress = working }
  after_call (threw e d) sent = record { dataset = d; sent = sent; progress = thrown }

  -- A block that is longer than its header says: what is left is read as the next message.
  unfoldable pub stray : List ℕ → Work S → Work S
  stray [] w = w
  stray (x ∷ xs) w = elim w.progress [
    | working ↦ record w { progress = garbled }
    | finished ↦ w
    | thrown ↦ w
    | garbled ↦ w
  ]

  -- The first message of `SyncWithLeader`; a type that is none of the three is passed over.
  unfoldable pub sync_first : FollowEnv → DataSet S → Message → Work S
  sync_first env d (trunc_dataset zx_id) = after_call (trunc c env.disk d zx_id) []
  sync_first env d (snap_dataset zx_id size bytes) =
      stray (drop size bytes) (after_call (snap c env.disk d zx_id (take size bytes)) [])
  sync_first env d m = record { dataset = d; sent = []; progress = passed_over m }

  -- A message of the loop of `SyncWithLeader`.
  unfoldable pub sync_message : FollowEnv → DataSet S → Message → Work S
  sync_message env d updated = record { dataset = d; sent = []; progress = finished }
  sync_message env d new_leader = record { dataset = d; sent = ack ∷ []; progress = working }
  sync_message env d (propose_message zx_id bytes) = record {
    dataset = (propose c (env.io zx_id) d (record { zx_id = zx_id; data_bytes = bytes })).1;
    sent = [];
    progress = working;
  }
  sync_message env d (commit_message zx_id from request_id) =
      after_call (commit c env.disk d zx_id none) []
  sync_message env d m = record { dataset = d; sent = []; progress = passed_over m }

  -- The loop, over the messages that come.
  unfoldable pub sync_messages : FollowEnv → Work S → List Message → Work S
  sync_messages env w [] = w
  sync_messages env w (m ∷ ms) = elim w.progress [
    | working ↦
        let next : Work S = sync_message env w.dataset m in
        sync_messages env (record next { sent = w.sent ++ next.sent }) ms
    | finished ↦ w
    | thrown ↦ w
    | garbled ↦ w
  ]

  -- `SyncWithLeader`
  unfoldable pub sync_with_leader : FollowEnv → DataSet S → List Message → Work S
  sync_with_leader env d [] = record { dataset = d; sent = []; progress = working }
  sync_with_leader env d (m ∷ ms) = sync_messages env (sync_first env d m) ms

  -- The state of `ProcossPropose`: the follower's requests too, the coroutines it has resumed, and
  -- those of them told that their request failed.
  pub record Follower : Type ℓ where
    pub id : ℕ
    pub dataset : DataSet S
    pub executor : Executor (Transaction S)
    pub sent : List Reply
    pub resumed : List ℕ
    pub failed : List ℕ
    pub progress : Progress

  abbrev pub transaction_of : Option (Call (Transaction S)) → Option (Transaction S)
  transaction_of none = none
  transaction_of (some call) = some call.transaction

  abbrev pub coroutine_of : Option (Call (Transaction S)) → List ℕ
  coroutine_of none = []
  coroutine_of (some call) = call.co ∷ []

  -- `Propose`, called by the coroutine `current`, which waits from then on: the request's id, too.
  unfoldable pub propose_own : Follower → List ℕ → Transaction S → ℕ → ℕ × Follower
  propose_own f bytes t current =
      let (request_id, executor) = push_request f.executor t current in
      (request_id, record f { executor = executor; sent = f.sent ++ request request_id bytes ∷ [] })

  -- Case PX_PROPOSE.
  unfoldable pub on_propose : FollowEnv → Follower → ℕ → List ℕ → Follower
  on_propose env f zx_id bytes =
      let (saved, d) =
        propose c (env.io zx_id) f.dataset (record { zx_id = zx_id; data_bytes = bytes }) in
      if saved
      then record f { dataset = d; sent = f.sent ++ ack_propose zx_id ∷ [] }
      else record f { dataset = d; progress = thrown }

  -- The commit with what was popped; a coroutine is resumed when it has returned.
  unfoldable pub commit_popped :
      FollowEnv → Follower → ℕ → Option (Call (Transaction S)) × Executor (Transaction S) → Follower
  commit_popped env f zx_id (call, executor) =
      elim (commit c env.disk f.dataset zx_id (transaction_of call)) [
        | done d ↦ record f {
          dataset = d;
          executor = executor;
          resumed = f.resumed ++ coroutine_of call;
        }
        | threw e d ↦ record f { dataset = d; executor = executor; progress = thrown }
      ]

  -- Case PX_COMMIT: the request is popped if it is the follower's own.
  unfoldable pub on_commit : FollowEnv → Follower → ℕ → ℕ → ℕ → Follower
  unfolding commit_popped
  on_commit env f zx_id from request_id =
      commit_popped env f zx_id
        (if from == f.id then pop_request f.executor request_id else (none, f.executor))

  -- Case PX_REQUEST_FAIL.
  unfoldable pub on_request_fail : Follower → ℕ → Follower
  on_request_fail f request_id =
      let (call, executor) = pop_request f.executor request_id in
      record f {
        executor = executor;
        resumed = f.resumed ++ coroutine_of call;
        failed = f.failed ++ coroutine_of call;
      }

  -- A message of `ProcossPropose`.
  unfoldable pub procoss_message : FollowEnv → Follower → Message → Follower
  procoss_message env f (propose_message zx_id bytes) = on_propose env f zx_id bytes
  procoss_message env f (commit_message zx_id from request_id) =
      on_commit env f zx_id from request_id
  procoss_message env f ping = record f { sent = f.sent ++ pong ∷ [] }
  procoss_message env f (request_fail request_id) = on_request_fail f request_id
  procoss_message env f m = record f { progress = passed_over m }

  -- Its loop, which only an exception ends.
  unfoldable pub procoss_propose : FollowEnv → Follower → List Message → Follower
  procoss_propose env f [] = f
  procoss_propose env f (m ∷ ms) = elim f.progress [
    | working ↦ procoss_propose env (procoss_message env f m) ms
    | finished ↦ f
    | thrown ↦ f
    | garbled ↦ f
  ]
