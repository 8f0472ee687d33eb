-- ===== src/Election/Look.antt =====
-- `Election::LookForLeader` and `Election::Echo`: one round of the loop of a server that looks for
-- a leader, as a function of what it polls.
pub mod Invariant
pub mod Quorum
pub mod Progress
use zookeeper.Prelude.{
  ℕ, ◌+◌, ◌≡◌, refl, Bool, true, false, ◌&&◌, not, List, [], ◌∷◌, ◌++◌, Option, none, some,
  if◌then◌else◌, leb, ◌==◌,
}
use zookeeper.Prelude.Int.{ℤ, pos, negsuc, ltb_ℤ, ◌==ℤ◌, suc_ℤ}
use zookeeper.Prelude.Eq.{int_eq}
use zookeeper.Prelude.Map.{insert}
use zookeeper.Election.Vote.{Vote, less}
use zookeeper.Election.Tally.{Votes, is_vote_ok, check_leader, leading}

abbrev pub looking : ℕ
looking = 0

abbrev pub following : ℕ
following = 1

abbrev pub resend_vote_interval : ℕ
resend_vote_interval = 200

-- The members and locals that live across rounds. `_state` is LOOKING throughout.
pub record Look : Type 0 where
  pub id : ℤ
  pub logic_count : ℤ
  pub mark : ℕ
  pub proposal : Vote
  pub votes : Votes
  pub other_vote : Votes
  pub queue : List Vote

-- `_state`, `_leader` and what the function returns.
pub record Decision : Type 0 where
  pub state : ℕ
  pub leader : Vote

-- After a round: it goes on or returns. The list holds what `BrocastVote` sends to every sender.
pub data Outcome : Type 0 where
  going : Look → List Vote → Outcome
  decided : Look → Decision → List Vote → Outcome

-- The environment of a round: the clock, the channel, what each poll of the waiting loop pops until
-- WAIT_TIME is over, and the bytes of the local `n`, which the source never sets.
pub record Poll : Type 0 where
  pub now : ℕ
  pub popped : Option Vote
  pub waits : List (Option Vote)
  pub unset : Vote

-- `LookForLeader` up to its loop; `logic_count` is the member's value before the call.
unfoldable pub start : ℤ → ℤ → ℤ → ℕ → Look
start id zx_id logic_count now =
    let first : Vote = record {
      idx = id;
      state = looking;
      election_epoch = suc_ℤ logic_count;
      vote_id = id;
      vote_zx_id = zx_id;
    } in
    record {
      id = id;
      logic_count = suc_ℤ logic_count;
      mark = now;
      proposal = first;
      votes = (id, first) ∷ [];
      other_vote = [];
      queue = [];
    }

-- The wait for a bigger vote: what it pushes on the queue.
unfoldable pub wait_bigger : Vote → Vote → List (Option Vote) → List Vote
wait_bigger proposal unset [] = []
wait_bigger proposal unset (none ∷ polls) = wait_bigger proposal unset polls
wait_bigger proposal unset (some vote ∷ polls) =
    let rest = wait_bigger proposal unset polls in if less proposal vote then unset ∷ [] else rest

-- `proposal.voteId = vote.voteId; proposal.voteZxId = vote.voteZxId; votes[id] = proposal`
abbrev pub adopt : Look → Vote → Look
adopt l vote =
    let bigger : Vote = record l.proposal {
      vote_id = vote.vote_id;
      vote_zx_id = vote.vote_zx_id;
    } in
    record l { proposal = bigger; votes = insert l.id bigger l.votes }

-- Case LOOKING up to the test of the quorum, for a vote of a later round and for one of this round.
unfoldable pub newer_round : Look → Vote → Look × List Vote
newer_round l vote =
    let moved : Look = record l {
      logic_count = vote.election_epoch;
      votes = insert vote.idx vote [];
      proposal = record l.proposal { election_epoch = vote.election_epoch };
    } in
    let next : Look = if less moved.proposal vote then adopt moved vote else moved in
    (next, next.proposal ∷ [])

unfoldable pub same_round : Look → Vote → Look × List Vote
same_round l vote =
    let moved : Look = record l { votes = insert vote.idx vote l.votes } in
    if less moved.proposal vote
    then (adopt moved vote, (adopt moved vote).proposal ∷ [])
    else (moved, [])

abbrev pub role : ℤ → Vote → ℕ
role id v = if v.vote_id ==ℤ id then leading else following

-- The quorum test of case LOOKING, and what follows it: a queue that is still empty after the wait
-- ends the search.
unfoldable pub if_unchallenged : Look → List Vote → List Vote → Outcome
if_unchallenged l sent [] =
    decided l (record { state = role l.id l.proposal; leader = l.proposal }) sent
if_unchallenged l sent (v ∷ vs) = going (record l { queue = v ∷ vs }) sent

unfoldable pub conclude : ℕ → Poll → Vote → Look × List Vote → Outcome
unfolding if_unchallenged
conclude count poll vote (l, sent) =
    if is_vote_ok l.votes vote.vote_id vote.election_epoch count
    then if_unchallenged l sent (l.queue ++ wait_bigger l.proposal poll.unset poll.waits)
    else going l sent

unfoldable pub on_looking : ℕ → Poll → Look → Vote → Outcome
on_looking count poll l vote =
    if ltb_ℤ l.logic_count vote.election_epoch
    then conclude count poll vote (newer_round l vote)
    else if ltb_ℤ vote.election_epoch l.logic_count
    then going l []
    else conclude count poll vote (same_round l vote)

-- Cases FOLLOWING and LEADING.
abbrev minus_one : ℤ
minus_one = negsuc 0

abbrev pub settle : Look → Vote → Outcome
settle l vote = decided l (record { state = role l.id vote; leader = vote }) []

unfoldable pub on_other : ℕ → Look → Vote → Outcome
on_other count l vote =
    let other : Votes =
      insert vote.idx (record vote { election_epoch = minus_one; vote_zx_id = minus_one })
        l.other_vote in
    let seen : Look = record l { other_vote = other } in
    if is_vote_ok other vote.vote_id minus_one count && check_leader l.id other vote.vote_id false
    then settle seen vote
    else going seen []

unfoldable pub on_settled : ℕ → Look → Vote → Outcome
on_settled count l vote =
    if vote.election_epoch ==ℤ l.logic_count
    then (let counted : Look = record l { votes = insert vote.idx vote l.votes } in
        if is_vote_ok counted.votes vote.vote_id vote.election_epoch count
          && check_leader l.id l.other_vote vote.vote_id true
        then settle counted vote
        else on_other count counted vote)
    else on_other count l vote

-- The `switch`; a state that is no enumerator is passed over.
unfoldable pub on_vote : ℕ → Poll → Look → Vote → Outcome
on_vote count poll l vote =
    if vote.state == looking
    then on_looking count poll l vote
    else if vote.state == following
    then on_settled count l vote
    else if vote.state == leading
    then on_settled count l vote
    else going l []

-- Nothing to read: the proposal is sent again when RESEND_VOTE_INTERVAL is over.
unfoldable pub idle_round : Poll → Look → Outcome
idle_round poll l =
    if leb (l.mark + resend_vote_interval) poll.now
    then going (record l { mark = poll.now }) (l.proposal ∷ [])
    else going l []

-- One round of the `while (true)`: a vote of the queue, or else one of the channel.
round_with : ℕ → Poll → Look → List Vote → Option Vote → Outcome
round_with count poll l (vote ∷ rest) popped = on_vote count poll (record l { queue = rest }) vote
round_with count poll l [] none = idle_round poll l
round_with count poll l [] (some vote) = on_vote count poll (record l { queue = [] }) vote

unfoldable pub round : ℕ → Poll → Look → Outcome
unfolding round_with
round count poll l = round_with count poll l l.queue poll.popped

-- The loop, for as long as the list of polls goes; what is sent adds up.
then_loop : (Look → List Vote → Outcome) → List Vote → Outcome → Outcome
then_loop loop sent (going l more) = loop l (sent ++ more)
then_loop loop sent (decided l d more) = decided l d (sent ++ more)

unfoldable pub look_for_leader : ℕ → List Poll → Look → List Vote → Outcome
unfolding then_loop
look_for_leader count [] l sent = going l sent
look_for_leader count (poll ∷ polls) l sent =
    then_loop (look_for_leader count polls) sent (round count poll l)

-- What is known of a state in which the loop goes on, and of one in which it returns.
abbrev pub Ends {ℓ} : (Look → Type ℓ) → (Look → Decision → Type ℓ) → Outcome → Type ℓ
Ends P Q (going l sent) = P l
Ends P Q (decided l d sent) = Q l d

-- A round is either an idle one or a vote that is processed.
pub round_cases {ℓ} :
    (P : Outcome → Type ℓ) (count : ℕ) (poll : Poll) (l : Look)
    → P (idle_round poll l)
    → ((vote : Vote) (rest : List Vote) → P (on_vote count poll (record l { queue = rest }) vote))
    → P (round count poll l)
unfolding round
round_cases P count poll l idle busy = by_source l.queue poll.popped
  where
    by_source :
        (queue : List Vote) (popped : Option Vote) → P (round_with count poll l queue popped)
    by_source (vote ∷ rest) popped = busy vote rest
    by_source [] none = idle
    by_source [] (some vote) = busy vote []

-- The loop invariant: rounds that keep P, and return with Q.
module _ {ℓ} (P : Look → Type ℓ) (Q : Look → Decision → Type ℓ) (count : ℕ) where
  then_loop_inv :
      (loop : Look → List Vote → Outcome)
      → ((l : Look) (sent : List Vote) → P l → Ends P Q (loop l sent))
      → (sent : List Vote) (r : Outcome) → Ends P Q r
      → Ends P Q (then_loop loop sent r)
  unfolding then_loop
  then_loop_inv loop keep sent (going l more) h = keep l (sent ++ more) h
  then_loop_inv loop keep sent (decided l d more) h = h

  pub look_for_leader_inv :
      ((poll : Poll) (l : Look) → P l → Ends P Q (round count poll l))
      → (polls : List Poll) (l : Look) (sent : List Vote) → P l
      → Ends P Q (look_for_leader count polls l sent)
  unfolding look_for_leader
  look_for_leader_inv keep [] l sent h = h
  look_for_leader_inv keep (poll ∷ polls) l sent h =
      then_loop_inv (look_for_leader count polls) (look_for_leader_inv keep polls) sent
        (round count poll l) (keep poll l h)

-- `Echo`: what a server that has decided answers to a vote that it pops, and to which server.
unfoldable pub echo : Decision → ℕ → Vote → Option (ℕ × Vote)
echo d senders (vote) = if vote.state == looking then answer vote.idx else none
  where
    answer : ℤ → Option (ℕ × Vote)
    answer (negsuc k) = none
    answer (pos k) =
        if leb 1 k && leb k senders then some (k, record d.leader { state = d.state }) else none
