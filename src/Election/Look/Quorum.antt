-- ===== src/Election/Look/Quorum.antt =====
-- When a server stops looking for a leader, and whom it follows then.
use zookeeper.Prelude.{ℕ, ◌≡◌, ◌≢◌, refl, ap, sym, ◌∙◌, true, false, List, [], ◌++◌, some, arith}
use zookeeper.Prelude.Int.{ℤ, ltb_ℤ_irrefl, negsuc}
use zookeeper.Prelude.Eq.{int_eq}
use zookeeper.Prelude.Map.{lookup, insert}
use zookeeper.Election.Vote.{Vote, less}
use zookeeper.Election.Tally.{Votes, AreVotesOf, is_vote_ok, check_leader, quorums_meet}
use zookeeper.Election.Look.{
  Look, Poll, Decision, Outcome, going, decided, role, same_round, wait_bigger, if_unchallenged,
  conclude, on_looking,
}
use zookeeper.Election.Look.Invariant.{Inv}

-- What the server had counted when it decided on a vote that it received.
pub data Backing (count : ℕ) (vote : Vote) (l : Look) (d : Decision) : Type 0 where
  by_round :
      is_vote_ok l.votes vote.vote_id vote.election_epoch count ≡ true
      → d.leader ≡ l.proposal
      → less l.proposal vote ≡ false
      → Backing count vote l d
  by_votes :
      is_vote_ok l.votes vote.vote_id vote.election_epoch count ≡ true
      → check_leader l.id l.other_vote vote.vote_id true ≡ true
      → d.leader ≡ vote
      → Backing count vote l d
  by_others :
      is_vote_ok l.other_vote vote.vote_id (negsuc 0) count ≡ true
      → check_leader l.id l.other_vote vote.vote_id false ≡ true
      → d.leader ≡ vote
      → Backing count vote l d

abbrev pub IsBacked : ℕ → Vote → Outcome → Type 0
IsBacked count vote (going l sent) = Unit {0}
IsBacked count vote (decided l d sent) = Backing count vote l d × (d.state ≡ role l.id d.leader)

-- How the search may return: on some vote, backed by what the server had counted, in the role that
-- fits the leader.
abbrev pub Returns : ℕ → Look → Decision → Type 0
Returns count l d = (vote : Vote) × Backing count vote l d × (d.state ≡ role l.id d.leader)

-- If two servers of an ensemble each count a majority for a candidate of one round, it is the same
-- candidate, provided that a voter in both of their maps, with the same round in both, stands there
-- with the same candidate.
pub quorums_agree :
    (n : ℕ) (votes other : Votes) (leader rival epoch : ℤ)
    → AreVotesOf n votes
    → AreVotesOf n other
    → ((a : ℤ) (v w : Vote)
        → lookup a votes ≡ some v
        → lookup a other ≡ some w
        → v.election_epoch ≡ w.election_epoch
        → v.vote_id ≡ w.vote_id)
    → is_vote_ok votes leader epoch n ≡ true
    → is_vote_ok other rival epoch n ≡ true
    → leader ≡ rival
quorums_agree n votes other leader rival epoch own others once p q =
    let (a, v, w, at_v, at_w, v_epoch, v_leader, w_epoch, w_leader) =
      quorums_meet n votes other leader rival epoch epoch own others p q in
    sym v_leader ∙ once a v w at_v at_w (v_epoch ∙ sym w_epoch) ∙ w_leader

-- A vote of the current round that is not bigger than the server's own proposal, for another candidate,
-- and that brings this other candidate a majority, makes the server decide for its own proposal, when
-- nothing comes in during the wait.
pub quorum_not_followed :
    (count : ℕ) (poll : Poll) (l : Look) (vote : Vote)
    → Inv l
    → l.queue ≡ []
    → poll.waits ≡ []
    → vote.election_epoch ≡ l.logic_count
    → less l.proposal vote ≡ false
    → vote.vote_id ≢ l.proposal.vote_id
    → is_vote_ok (insert vote.idx vote l.votes) vote.vote_id vote.election_epoch count ≡ true
    → (l' : Look) × (d : Decision) × (on_looking count poll l vote ≡ decided l' d [])
      × (d.leader ≡ l.proposal)
      × (vote.vote_id ≢ d.leader.vote_id)
unfolding on_looking same_round conclude if_unchallenged wait_bigger
quorum_not_followed count poll l vote v no_queue no_polls e small other ok = (
  record l { votes = insert vote.idx vote l.votes },
  record { state = role l.id l.proposal; leader = l.proposal },
  ground (
    arith,
    ltb_ℤ_irrefl l.logic_count,
    ap (λ (q : List Vote). q ++ wait_bigger l.proposal poll.unset poll.waits) no_queue,
    ap (wait_bigger l.proposal poll.unset) no_polls,
  ),
  refl,
  other,
)
