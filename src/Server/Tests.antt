-- ===== src/Server/Tests.antt =====
-- The turns of a server at an ensemble of three.
use zookeeper.Prelude.{ℕ, refl, [], ◌∷◌, none, some}
use zookeeper.Prelude.Int.{pos}
use zookeeper.Election.Vote.{Vote}
use zookeeper.Election.Look.{Look, looking, following}
use zookeeper.Election.Look.Invariant.{Inv, OfRound}
use zookeeper.Server.{Peer, Paxos, TurnEnv}

abbrev peer : ℕ → Peer
peer n = record { id = pos n; ip = []; election_port = 1; vote_port = 2 }

abbrev second : Paxos
second = record {
  state = looking;
  id = pos 2;
  servers = peer 1 ∷ peer 3 ∷ [];
  leader = none;
  peer_epoch = 1;
}

-- Server 2 has come to propose server 3.
abbrev for_third : Vote
for_third = record {
  idx = pos 2;
  state = looking;
  election_epoch = pos 1;
  vote_id = pos 3;
  vote_zx_id = pos 9;
}

abbrev search : Look
search = record {
  id = pos 2;
  logic_count = pos 1;
  mark = 0;
  proposal = for_third;
  votes = [];
  other_vote = [];
  queue = [];
}

search-Inv : Inv search
unfolding OfRound
search-Inv = record { own = refl; current = refl; round_votes = tt }

abbrev env : TurnEnv
env = record { vote = for_third; epoch = 2 }

-- Server 2 follows server 3.
abbrev third_follower : Paxos
third_follower = record second { state = following; leader = some (peer 3) }
