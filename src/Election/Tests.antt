-- ===== src/Election/Tests.antt =====
-- The theorems of the election at concrete votes and streams, and runs of its code.
use zookeeper.Prelude.{ℕ, ◌≡◌, refl, List, [], ◌∷◌, Option, none, some, arith}
use zookeeper.Prelude.Int.{ℤ, pos}
use zookeeper.Prelude.Map.{lookup}
use zookeeper.Prelude.Eq.{int_eq}
use zookeeper.Election.Vote.{Vote}
use zookeeper.Election.Tally.{Votes, AreVotesOf, is_vote_ok, count_votes}
use zookeeper.Election.Look.{Look, Poll, start, look_for_leader}
use zookeeper.Election.Look.Invariant.{Inv, OfRound, after, look_for_leader-Inv}
use zookeeper.Election.Look.Quorum.{quorums_agree}
use zookeeper.Election.Frames.{
  Frame, scanned, ping_msg, pong_msg, turn, scan, receive, Fits, word, deal,
}
use zookeeper.Election.Frames.Reassembly.{joined}
use zookeeper.Election.Frames.Encoding.{HasRoom, encode_all, deal-encode_all, deal-HasRoom}

-- A vote of server `voter` for `candidate` in round 1.
abbrev vote_of : ℕ → ℕ → Vote
vote_of voter candidate = record {
  idx = pos voter;
  state = 0;
  election_epoch = pos 1;
  vote_id = pos candidate;
  vote_zx_id = pos 7;
}

-- Three servers; 1 and 2 have voted for 2, and so have 2 and 3.
abbrev seen_by_first : Votes
seen_by_first = (pos 1, vote_of 1 2) ∷ (pos 2, vote_of 2 2) ∷ []

abbrev seen_by_third : Votes
seen_by_third = (pos 3, vote_of 3 2) ∷ (pos 2, vote_of 2 2) ∷ []

first_votes : AreVotesOf 3 seen_by_first
first_votes = record { single = (refl, (refl, tt)); servers = omega arith }

third_votes : AreVotesOf 3 seen_by_third
third_votes = record { single = (refl, (refl, tt)); servers = omega arith }

-- All votes of both maps are for server 2.
for_second :
    (a : ℤ) (v w : Vote)
    → lookup a seen_by_first ≡ some v
    → lookup a seen_by_third ≡ some w
    → v.election_epoch ≡ w.election_epoch
    → v.vote_id ≡ w.vote_id
unfolding lookup
for_second a v w p q e = ground arith

quorums_agree_example : ◌≡◌ {A = ℤ} (pos 2) (pos 2)
unfolding is_vote_ok count_votes
quorums_agree_example =
    quorums_agree 3 seen_by_first seen_by_third (pos 2) (pos 2) (pos 1) first_votes third_votes
      for_second refl refl

-- Server 3 looks for a leader; the vote of server 2 comes in.
abbrev poll_of : Option Vote → Poll
poll_of v = record { now = 10; popped = v; waits = none ∷ []; unset = vote_of 9 9 }

abbrev polls : List Poll
polls = poll_of none ∷ poll_of (some (vote_of 2 3)) ∷ []

look_for_leader-Inv_example :
    Inv (after (look_for_leader 3 polls (start (pos 3) (pos 7) (pos 0) 0) []))
look_for_leader-Inv_example = look_for_leader-Inv (pos 3) (pos 7) (pos 0) 0 3 polls

-- Server 3 has the vote of server 1 for 2 when that of server 2 for itself comes in.
abbrev third : Look
third = record {
  id = pos 3;
  logic_count = pos 1;
  mark = 0;
  proposal = vote_of 3 3;
  votes = (pos 3, vote_of 3 3) ∷ (pos 1, vote_of 1 2) ∷ [];
  other_vote = [];
  queue = [];
}

abbrev quiet : Poll
quiet = record { now = 10; popped = some (vote_of 2 2); waits = []; unset = vote_of 9 9 }

third-Inv : Inv third
unfolding OfRound
third-Inv = record { own = refl; current = refl; round_votes = (refl, (refl, tt)) }

-- A message of two bytes, then a ping, cut in the middle of a header.
abbrev two_frames : List Frame
two_frames = record { id = pong_msg; body = 5 ∷ 6 ∷ [] } ∷ record { id = ping_msg; body = [] } ∷ []

abbrev chunks : List (List ℕ)
chunks = (6 ∷ 0 ∷ 1 ∷ []) ∷ (0 ∷ 5 ∷ 6 ∷ 4 ∷ 0 ∷ []) ∷ (0 ∷ 0 ∷ []) ∷ []

chunks-Fits : Fits chunks []
unfolding Fits receive scan turn word
chunks-Fits = (omega arith, (omega arith, (omega arith, tt)))

deal-encode_all_example : deal chunks [] ≡ scanned two_frames []
unfolding joined encode_all
deal-encode_all_example = deal-encode_all two_frames chunks (omega arith) chunks-Fits refl

-- All but the last two bytes have come.
abbrev first_chunks : List (List ℕ)
first_chunks = (6 ∷ 0 ∷ 1 ∷ []) ∷ (0 ∷ 5 ∷ 6 ∷ 4 ∷ 0 ∷ []) ∷ []

first_chunks-Fits : Fits first_chunks []
unfolding Fits receive scan turn word
first_chunks-Fits = (omega arith, (omega arith, tt))

deal-HasRoom_example : HasRoom (deal first_chunks [])
unfolding joined encode_all
deal-HasRoom_example =
    deal-HasRoom two_frames first_chunks (0 ∷ 0 ∷ []) (omega arith) first_chunks-Fits refl
