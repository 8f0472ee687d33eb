-- ===== src/Server.antt =====
-- paxos/PaxosImpl.cpp: the turns of a server, which elects, follows and leads.
pub mod Turns
mod Tests
use zookeeper.Prelude.{ℕ, Bool, true, false, List, [], ◌∷◌, Option, none, some, if◌then◌else◌, ◌==◌}
use zookeeper.Prelude.Int.{ℤ, ◌==ℤ◌}
use zookeeper.Election.Vote.{Vote}
use zookeeper.Election.Tally.{leading}
use zookeeper.Election.Look.{looking, following, role}

-- `Server` of paxos/util.h.
pub record Peer : Type 0 where
  pub id : ℤ
  pub ip : List ℕ
  pub election_port : ℕ
  pub vote_port : ℕ

-- The members of `PaxosImpl` that the turns change or read; `leader` is none for the null pointer.
pub record Paxos : Type 0 where
  pub state : ℕ
  pub id : ℤ
  pub servers : List Peer
  pub leader : Option Peer
  pub peer_epoch : ℕ

-- `for (auto& server : _servers) if (server.id == vote.idx) ...`
unfoldable pub find_server : ℤ → List Peer → Option Peer
find_server idx [] = none
find_server idx (server ∷ servers) = elim (server.id ==ℤ idx) [
  | true ↦ some server
  | false ↦ find_server idx servers
]

-- The pointer stays as it is if no server is found.
unfoldable pub point_to : Option Peer → Paxos → Paxos
point_to none p = p
point_to (some server) p = record p { leader = some server }

-- `Elect`, of the vote that `LookForLeader` returns.
unfoldable pub elect : Paxos → Vote → Paxos
elect p vote =
    if vote.vote_id ==ℤ p.id
    then record p { state = leading }
    else point_to (find_server vote.idx p.servers) (record p { state = following })

-- What a turn meets: the vote that an election returns, and the epoch that a leadership or a
-- following returns.
pub record TurnEnv : Type 0 where
  pub vote : Vote
  pub epoch : ℕ

-- `Leading`
unfoldable pub lead_turn : TurnEnv → Paxos → Paxos
lead_turn env p = record p { peer_epoch = env.epoch }

-- `Following`; none is the access to the leader through a null pointer.
unfoldable pub follow_turn : TurnEnv → Paxos → Option Paxos
follow_turn env p = elim p.leader [
  | none ↦ none
  | some server ↦ some (record p { peer_epoch = env.epoch })
]

-- A turn of the loop in `Start`.
unfoldable pub one_turn : TurnEnv → Paxos → Option Paxos
one_turn env p =
    if p.state == looking
    then some (elect p env.vote)
    else if p.state == following
    then follow_turn env p
    else if p.state == leading
    then some (lead_turn env p)
    else some p

-- The loop, for as many turns as the list has.
unfoldable pub turns : List TurnEnv → Paxos → Option Paxos
turns [] p = some p
turns (env ∷ envs) p = elim (one_turn env p) [ none ↦ none | some p' ↦ turns envs p' ]

-- `DoTransaction`: true if it returns, false for the exception. `active` says whether there is an active
-- executor, and `told_failed` whether its `Propose`, or who resumes the caller, writes false to `success`,
-- which is all that is ever written there.
unfoldable pub do_transaction : Bool → Bool → Bool
do_transaction active told_failed =
    let success : Bool = false in if active then (if told_failed then false else success) else false
