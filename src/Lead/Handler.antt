-- ===== src/Lead/Handler.antt =====
-- `FollowHandler::Process` of paxos/paxos/lead.cpp, and the leader under all that its handlers and its
-- own clients bring.
pub mod Kept
pub mod Steady
pub mod Session
use zookeeper.Prelude.{ℕ, List, [], ◌∷◌, Option, none, some}
use zookeeper.Dataset.Core.{Client, Transaction}
use zookeeper.Lead.{Lead, LeadEnv, Run, begin, propose_request, propose_own, ack_propose}

-- The messages of a follower; PX_PONG and unknown types are passed over.
pub data FollowerMessage : Type 0 where
  pong : FollowerMessage
  request : ℕ → List ℕ → FollowerMessage
  ack_proposal : ℕ → FollowerMessage
  unexpected : FollowerMessage

-- What the leader's coroutines call: a message that the handler of a server reads, or a request of a
-- client of the leader.
pub data Event {ℓ} (S : Type ℓ) : Type ℓ where
  message : ℕ → FollowerMessage → Event S
  client : List ℕ → Transaction S → Event S

module _ {ℓ} {S : Type ℓ} (c : Client S) where
  -- The `switch`, for the handler of the follower `id`.
  unfoldable pub handle : LeadEnv → Lead S → ℕ → FollowerMessage → Run S
  handle env l id pong = begin c l
  handle env l id (request request_id bytes) = propose_request c env l id request_id bytes
  handle env l id (ack_proposal zx_id) = ack_propose c env l id zx_id
  handle env l id unexpected = begin c l

  unfoldable pub happen : LeadEnv → Lead S → Event S → Run S
  unfolding handle
  happen env l (message id m) = handle env l id m
  happen env l (client bytes t) = propose_own c env l bytes t

  -- The leader after events in whatever order the coroutines bring them; none if one of them throws.
  unfoldable pub happen_all : List (LeadEnv × Event S) → Lead S → Option (Lead S)
  happen_all [] l = some l
  happen_all ((env, event) ∷ events) l = elim (happen env l event).thrown [
    | some e ↦ none
    | none ↦ happen_all events (happen env l event).lead
  ]
