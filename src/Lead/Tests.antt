-- ===== src/Lead/Tests.antt =====
-- The theorems of the leader at a leader of three servers, whose data set holds a number.
use zookeeper.Prelude.{
  ℕ, ◌-◌, ◌<◌, ◌≡◌, refl, true, false, List, [], ◌∷◌, Option, none, some, arith, set,
}
use zookeeper.Prelude.Eq.{nat_eq, int_eq}
use zookeeper.Prelude.Map.{lookup}
use zookeeper.Service.{Executor}
use zookeeper.Dataset.Core.{
  DataSet, Transaction, done, commit, commit_at, commit_front, snapshot, apply_bill,
  find_transaction,
}
use zookeeper.Dataset.Tests.{counter, adding, busy, disk, io}
use zookeeper.Lead.{
  Lead, Draft, LeadEnv, Run, not_locked, zxid, new_draft, propose_request, ack_propose, ack_at,
  is_majority, commit_draft, commit_sent, launch_rest, finish, launch_next_draft, launch_from,
}
use zookeeper.Lead.Drafts.{InStep}
use zookeeper.Lead.Drafts.Acks.{ack_propose-InStep}
use zookeeper.Lead.Ids.{KeysRise}
use zookeeper.Lead.Epoch.{Hall, report_epoch, announce_epoch, announce_epoch-agrees}
use zookeeper.Lead.Handler.{Event, message, client, request, ack_proposal, happen_all}
use zookeeper.Lead.Term.{leading, leading-history}
use zookeeper.Dataset.Order.Commits.{history}
use zookeeper.Lead.Handler.Steady.{IsSteady, happen_all-Steady}

abbrev env : LeadEnv
env = record { io = λ id. io; disk = disk; current = 9; header_over = λ id bytes. bytes }

-- A draft that its proposer alone has voted for.
abbrev draft : ℕ → Draft
draft k = record {
  id = 1;
  request_id = 4;
  zx_id = k;
  data_bytes = 8 ∷ 9 ∷ [];
  vote = true ∷ false ∷ false ∷ [];
}

-- The coroutine 30 waits for its request.
abbrev one_request : Executor (Transaction ℕ)
one_request = record {
  callbacks = (4, record { transaction = adding; co = 30 }) ∷ [];
  next_request_id = 5;
}

abbrev leader : List (ℕ × Draft) → Lead ℕ
leader drafts = record {
  id = 1;
  peer_epoch = 0;
  next_id = 4;
  forwarding = 0 ∷ 12 ∷ 13 ∷ [];
  uncommit = drafts;
  executor = one_request;
  dataset = busy;
}

abbrev one_draft : Lead ℕ
one_draft = leader ((2, draft 2) ∷ [])

abbrev two_drafts : Lead ℕ
two_drafts = leader ((2, draft 2) ∷ (3, draft 3) ∷ [])

-- The draft has the votes of two servers of three when the second server acknowledges it.
ack-thrown : (ack_propose counter env one_draft 2 2).thrown ≡ none
unfolding ack_propose ack_at commit_draft commit commit_at commit_front snapshot apply_bill
    find_transaction lookup commit_sent launch_rest finish zookeeper.Service.pop_request
    zookeeper.Lead.answer
ack-thrown = refl

ack_propose-InStep_example : InStep counter (ack_propose counter env one_draft 2 2).lead
ack_propose-InStep_example = ack_propose-InStep counter env one_draft 2 2 refl ack-thrown

not_the_oldest :
    (d : Draft) (rest : List (ℕ × Draft))
    → two_drafts.uncommit ≡ (3, d) ∷ rest
    → is_majority counter (set d.vote (2 - 1) true) ≡ false
not_the_oldest d rest e = ground arith

-- The commit returns, whatever transaction is handed in.
commit-returns :
    (given : Option (Transaction ℕ)) → (d : DataSet ℕ) × (commit counter disk busy 2 given ≡ done d)
unfolding commit commit_at commit_front snapshot apply_bill find_transaction lookup
commit-returns none = (_, refl)
commit-returns (some t) = (_, refl)

drafts-rise : KeysRise 0 (zxid 0 4) two_drafts.uncommit
unfolding KeysRise zxid
drafts-rise = (omega arith, omega arith, (omega arith, omega arith, tt))

-- The leader's own slot is the first one.
abbrev hall : List ℕ → Hall
hall epochs = record {
  followers = 0 ∷ 12 ∷ 13 ∷ [];
  forwarding = 0 ∷ 0 ∷ 0 ∷ [];
  wait_for_peer_epoch = true;
  peer_epoch = 0;
  recv_peer_epoch = epochs;
  recv_new_leader = false ∷ false ∷ false ∷ [];
}

announce_epoch-agrees_example :
    (5 < (announce_epoch (hall (3 ∷ 5 ∷ 2 ∷ [])) 3).1)
    × ((announce_epoch (announce_epoch (hall (3 ∷ 5 ∷ 2 ∷ [])) 3).0 2).1
        ≡ (announce_epoch (hall (3 ∷ 5 ∷ 2 ∷ [])) 3).1)
    × ((report_epoch (announce_epoch (hall (3 ∷ 5 ∷ 2 ∷ [])) 3).0 2 9).1
        ≡ some (announce_epoch (hall (3 ∷ 5 ∷ 2 ∷ [])) 3).1)
announce_epoch-agrees_example =
    announce_epoch-agrees (hall (3 ∷ 5 ∷ 2 ∷ [])) 0 2 3 2 1 5 2 9 refl refl refl

one-rises : KeysRise 0 (zxid 0 4) one_draft.uncommit
unfolding KeysRise zxid
one-rises = (omega arith, omega arith, tt)

-- The second server acknowledges the draft, a client asks, and the third server forwards a request.
abbrev busy_day : List (LeadEnv × Event ℕ)
busy_day =
    (env, message 2 (ack_proposal 2))
    ∷ (env, client (5 ∷ []) adding)
    ∷ (env, message 3 (request 6 (5 ∷ [])))
    ∷ []

happen_all-Steady_example : IsSteady counter (happen_all counter busy_day one_draft)
happen_all-Steady_example =
    happen_all-Steady counter busy_day one_draft (omega arith)
      (record { step = refl; rise = one-rises })

-- Server 2 connects with the descriptor 12, and again with 15.
abbrev empty_hall : Hall
empty_hall = record (hall (3 ∷ 5 ∷ 2 ∷ [])) { followers = 0 ∷ 0 ∷ 13 ∷ [] }

abbrev first_hall : Hall
first_hall = record empty_hall { followers = 0 ∷ 12 ∷ 13 ∷ [] }

leading-history_example :
    history counter (leading counter true 1 2 true busy).1 ≡ history counter busy
leading-history_example = leading-history counter true true 1 2 busy
