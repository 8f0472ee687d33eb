-- ===== src/Election/Look/Invariant.antt =====
-- What holds of a server that looks for a leader, round after round.
use zookeeper.Prelude.{ℕ, ◌≡◌, refl, inl, inr, List, [], ◌∷◌, ◌++◌, arith, Bool-cases}
use zookeeper.Prelude.Int.{ℤ, ltb_ℤ_linear, ◌==ℤ◌, ==ℤ_iff}
use zookeeper.Prelude.Eq.{int_eq}
use zookeeper.Prelude.Map.{insert}
use zookeeper.Election.Vote.{Vote}
use zookeeper.Election.Tally.{Votes}
use zookeeper.Election.Look.{
  Look, Poll, Outcome, going, decided, start, adopt, newer_round, same_round, wait_bigger,
  if_unchallenged, conclude, on_looking, on_other, on_settled, on_vote, idle_round, round,
  round_cases, Ends, look_for_leader, look_for_leader_inv,
}

-- Every vote of a map is of round e.
unfoldable pub OfRound : ℤ → Votes → Type 0
OfRound e [] = Unit {0}
OfRound e ((k, v) ∷ votes) = (v.election_epoch ≡ e) × OfRound e votes

-- The proposal is the server's own, of its round, and every vote in `votes` is of that round.
pub record Inv (l : Look) : Type 0 where
  pub own : l.proposal.idx ≡ l.id
  pub current : l.proposal.election_epoch ≡ l.logic_count
  pub round_votes : OfRound l.logic_count l.votes

-- The state in which a round ends.
abbrev pub after : Outcome → Look
after (going l sent) = l
after (decided l d sent) = l

insert-round :
    (e k : ℤ) (v : Vote) (votes : Votes)
    → v.election_epoch ≡ e
    → OfRound e votes
    → OfRound e (insert k v votes)
unfolding insert OfRound
insert-round e k v [] h a = (h, tt)
insert-round e k v ((j, w) ∷ votes) h a = ground (arith, insert-round e k v votes h a.1)

OfRound-nil : (e : ℤ) → OfRound e []
unfolding OfRound
OfRound-nil e = tt

newer_round-Inv : (l : Look) (vote : Vote) → Inv l → Inv (newer_round l vote).0
unfolding newer_round
newer_round-Inv l vote v = record {
  own = ground arith;
  current = ground arith;
  round_votes =
      let first = insert-round vote.election_epoch vote.idx vote [] refl (OfRound-nil _) in
      ground (
        arith,
        first,
        insert-round vote.election_epoch l.id
            (record l.proposal {
              election_epoch = vote.election_epoch;
              vote_id = vote.vote_id;
              vote_zx_id = vote.vote_zx_id;
            })
            (insert vote.idx vote []) refl first,
      );
}

same_round-Inv :
    (l : Look) (vote : Vote)
    → vote.election_epoch ≡ l.logic_count
    → Inv l
    → Inv (same_round l vote).0
unfolding same_round
same_round-Inv l vote h v = record {
  own = ground arith;
  current = ground arith;
  round_votes = ground (
    arith,
    insert-round l.logic_count vote.idx vote l.votes h v.round_votes,
    insert-round l.logic_count l.id (adopt l vote).proposal (insert vote.idx vote l.votes)
        v.current,
  );
}

if_unchallenged-Inv :
    (l : Look) (sent queue : List Vote) → Inv l → Inv (after (if_unchallenged l sent queue))
unfolding if_unchallenged
if_unchallenged-Inv l sent [] v = v
if_unchallenged-Inv l sent (w ∷ ws) v = ground arith

conclude-Inv :
    (count : ℕ) (poll : Poll) (vote : Vote) (r : Look × List Vote)
    → Inv r.0
    → Inv (after (conclude count poll vote r))
unfolding conclude
conclude-Inv count poll vote (l, sent) v =
    ground (
      arith,
      if_unchallenged-Inv l sent (l.queue ++ wait_bigger l.proposal poll.unset poll.waits) v,
    )

on_looking-Inv :
    (count : ℕ) (poll : Poll) (l : Look) (vote : Vote)
    → Inv l
    → Inv (after (on_looking count poll l vote))
unfolding on_looking
on_looking-Inv count poll l vote v = ground (
  arith,
  conclude-Inv count poll vote (newer_round l vote) (newer_round-Inv l vote v),
  conclude-Inv count poll vote (same_round l vote),
  same_round-Inv l vote,
  ltb_ℤ_linear l.logic_count vote.election_epoch,
)

on_other-Inv : (count : ℕ) (l : Look) (vote : Vote) → Inv l → Inv (after (on_other count l vote))
unfolding on_other
on_other-Inv count l vote v = ground arith

on_settled-Inv :
    (count : ℕ) (l : Look) (vote : Vote) → Inv l → Inv (after (on_settled count l vote))
unfolding on_settled
on_settled-Inv count l vote v = elim (Bool-cases (vote.election_epoch ==ℤ l.logic_count)) [
  | inl same ↦
      let counted : Inv (record l { votes = insert vote.idx vote l.votes }) = record {
        own = v.own;
        current = v.current;
        round_votes =
            insert-round l.logic_count vote.idx vote l.votes ((==ℤ_iff _ _).0 same) v.round_votes;
      } in
      ground (
        arith,
        counted,
        on_other-Inv count (record l { votes = insert vote.idx vote l.votes }) vote counted,
      )
  | inr other ↦ rw (other, on_settled) (on_other-Inv count l vote v)
]

pub on_vote-Inv :
    (count : ℕ) (poll : Poll) (l : Look) (vote : Vote)
    → Inv l
    → Inv (after (on_vote count poll l vote))
unfolding on_vote
on_vote-Inv count poll l vote v =
    ground (arith, on_looking-Inv count poll l vote v, on_settled-Inv count l vote v)

-- The start establishes the invariant.
pub start-Inv : (id zx_id logic_count : ℤ) (now : ℕ) → Inv (start id zx_id logic_count now)
unfolding start OfRound
start-Inv id zx_id logic_count now = record { own = refl; current = refl; round_votes = (refl, tt) }

idle_round-Inv : (poll : Poll) (l : Look) → Inv l → Inv (after (idle_round poll l))
unfolding idle_round
idle_round-Inv poll l v = ground arith

-- A round keeps the invariant, whatever it polls.
pub round-Inv : (count : ℕ) (poll : Poll) (l : Look) → Inv l → Inv (after (round count poll l))
round-Inv count poll l v =
    round_cases (λ r. Inv (after r)) count poll l (idle_round-Inv poll l v)
      λ vote rest.
        on_vote-Inv count poll (record l { queue = rest }) vote
          (record { own = v.own; current = v.current; round_votes = v.round_votes })

-- The end of the loop, seen as `after` sees it.
after-Ends : (r : Outcome) → Ends Inv (λ l d. Inv l) r → Inv (after r)
after-Ends (going l sent) h = h
after-Ends (decided l d sent) h = h

Ends-after : (r : Outcome) → Inv (after r) → Ends Inv (λ l d. Inv l) r
Ends-after (going l sent) h = h
Ends-after (decided l d sent) h = h

-- From the call of LookForLeader on, through any number of rounds: the proposal is the server's own
-- and of its round, and every vote in `votes` is of that round. Of `otherVote`, the votes of servers that
-- have decided, nothing is said: they can be of other rounds.
pub look_for_leader-Inv :
    (id zx_id logic_count : ℤ) (now count : ℕ) (polls : List Poll)
    → Inv (after (look_for_leader count polls (start id zx_id logic_count now) []))
look_for_leader-Inv id zx_id logic_count now count polls = after-Ends _ (
    look_for_leader_inv Inv (λ l d. Inv l) count
      (λ poll l v. Ends-after _ (round-Inv count poll l v)) polls (start id zx_id logic_count now)
      [] (start-Inv id zx_id logic_count now))
