-- ===== src/Election/Look/Progress.antt =====
-- The round and the proposal of a server that looks for a leader, over time.
use zookeeper.Prelude.{
  ℕ, ◌≡◌, refl, ◌∙◌, ◌⊎◌, inl, inr, true, List, [], ◌∷◌, ◌++◌, arith, Bool-cases,
}
use zookeeper.Prelude.Int.{ltb_ℤ, ltb_ℤ_irrefl, ltb_ℤ_linear, ltb_ℤ_trans}
use zookeeper.Prelude.Eq.{int_eq}
use zookeeper.Prelude.Map.{insert}
use zookeeper.Election.Vote.{Vote, less, less_trans}
use zookeeper.Election.Look.{
  Look, Poll, Outcome, going, decided, Ends, newer_round, same_round, wait_bigger, if_unchallenged,
  conclude, on_looking, on_other, on_settled, on_vote, idle_round, round, round_cases,
  look_for_leader, look_for_leader_inv,
}
use zookeeper.Election.Look.Invariant.{Inv, after, round-Inv}

pub record Grows (l l' : Look) : Type 0 where
  pub proposal : (l'.proposal ≡ l.proposal) ⊎ (less l.proposal l'.proposal ≡ true)
  pub logic_count : (l'.logic_count ≡ l.logic_count) ⊎ (ltb_ℤ l.logic_count l'.logic_count ≡ true)
  pub id : l'.id ≡ l.id

Grows-trans : {a b c : Look} → Grows a b → Grows b c → Grows a c
Grows-trans {a} {b} {c} g h = record {
  proposal = ground (arith, g.proposal, h.proposal, less_trans a.proposal b.proposal c.proposal);
  logic_count =
      ground (
        arith,
        g.logic_count,
        h.logic_count,
        ltb_ℤ_trans a.logic_count b.logic_count c.logic_count,
      );
  id = ground (arith, g.id, h.id);
}

newer_round-Grows :
    (l : Look) (vote : Vote)
    → Inv l
    → ltb_ℤ l.logic_count vote.election_epoch ≡ true
    → Grows l (newer_round l vote).0
unfolding newer_round less
newer_round-Grows l vote v h = ground (arith, v.current, ltb_ℤ_irrefl l.logic_count)

same_round-Grows :
    (l : Look) (vote : Vote)
    → l.proposal.election_epoch ≡ vote.election_epoch
    → Grows l (same_round l vote).0
unfolding same_round less
same_round-Grows l vote e = ground (arith, ltb_ℤ_irrefl vote.election_epoch)

if_unchallenged-Grows :
    (a l : Look) (sent queue : List Vote)
    → Grows a l
    → Grows a (after (if_unchallenged l sent queue))
unfolding if_unchallenged
if_unchallenged-Grows a l sent [] g = g
if_unchallenged-Grows a l sent (v ∷ vs) g = ground arith

conclude-Grows :
    (count : ℕ) (poll : Poll) (vote : Vote) (a : Look) (r : Look × List Vote)
    → Grows a r.0
    → Grows a (after (conclude count poll vote r))
unfolding conclude
conclude-Grows count poll vote a (l, sent) g = ground (
  arith,
  if_unchallenged-Grows a l sent (l.queue ++ wait_bigger l.proposal poll.unset poll.waits) g,
)

Grows-refl : (l : Look) → Grows l l
Grows-refl l = record { proposal = inl refl; logic_count = inl refl; id = refl }

on_looking-Grows :
    (count : ℕ) (poll : Poll) (l : Look) (vote : Vote)
    → Inv l
    → Grows l (after (on_looking count poll l vote))
unfolding on_looking
on_looking-Grows count poll l vote v = elim (Bool-cases (ltb_ℤ l.logic_count vote.election_epoch)) [
  | inl newer ↦
      rw (newer, on_looking)
        (conclude-Grows count poll vote l (newer_round l vote) (newer_round-Grows l vote v newer))
  | inr p ↦ elim (Bool-cases (ltb_ℤ vote.election_epoch l.logic_count)) [
    | inl older ↦ rw (p, older, on_looking) (Grows-refl l)
    | inr q ↦
        rw (p, q, on_looking)
          (conclude-Grows count poll vote l (same_round l vote)
            (same_round-Grows l vote (v.current ∙ ltb_ℤ_linear _ _ p q)))
  ]
]

on_other-Grows : (count : ℕ) (l : Look) (vote : Vote) → Grows l (after (on_other count l vote))
unfolding on_other
on_other-Grows count l vote = ground arith

on_settled-Grows : (count : ℕ) (l : Look) (vote : Vote) → Grows l (after (on_settled count l vote))
unfolding on_settled
on_settled-Grows count l vote = ground (
  arith,
  on_other-Grows count l vote,
  on_other-Grows count (record l { votes = insert vote.idx vote l.votes }) vote,
)

on_vote-Grows :
    (count : ℕ) (poll : Poll) (l : Look) (vote : Vote)
    → Inv l
    → Grows l (after (on_vote count poll l vote))
unfolding on_vote
on_vote-Grows count poll l vote v =
    ground (arith, on_looking-Grows count poll l vote v, on_settled-Grows count l vote)

idle_round-Grows : (poll : Poll) (l : Look) → Grows l (after (idle_round poll l))
unfolding idle_round
idle_round-Grows poll l = ground arith

round-Grows : (count : ℕ) (poll : Poll) (l : Look) → Inv l → Grows l (after (round count poll l))
round-Grows count poll l v =
    round_cases (λ r. Grows l (after r)) count poll l (idle_round-Grows poll l)
      λ vote rest.
        let shorter : Inv (record l { queue = rest }) = record {
          own = v.own;
          current = v.current;
          round_votes = v.round_votes;
        } in
        let g = on_vote-Grows count poll (record l { queue = rest }) vote shorter in
        record { proposal = g.proposal; logic_count = g.logic_count; id = g.id }

-- From a state in which the invariant holds, through any rounds of the loop: the proposal either
-- stays or becomes bigger in the order of votes, the round number stays or grows, and the server
-- keeps its id.
pub look_for_leader-Grows :
    (count : ℕ) (polls : List Poll) (a : Look) (sent : List Vote)
    → Inv a
    → Grows a (after (look_for_leader count polls a sent))
look_for_leader-Grows count polls a sent v = end_of (look_for_leader count polls a sent) (
    look_for_leader_inv (λ l. Inv l × Grows a l) (λ l d. Grows a l) count
      (λ poll l h. step poll l h) polls a sent (v, Grows-refl a))
  where
    end_of : (r : Outcome) → Ends (λ l. Inv l × Grows a l) (λ l d. Grows a l) r → Grows a (after r)
    end_of (going l s) h = h.1
    end_of (decided l d s) h = h

    split :
        (r : Outcome)
        → Inv (after r)
        → Grows a (after r)
        → Ends (λ l. Inv l × Grows a l) (λ l d. Grows a l) r
    split (going l s) i g = (i, g)
    split (decided l d s) i g = g

    step :
        (poll : Poll) (l : Look)
        → Inv l × Grows a l
        → Ends (λ l. Inv l × Grows a l) (λ l d. Grows a l) (round count poll l)
    step poll l h =
        split (round count poll l) (round-Inv count poll l h.0)
          (Grows-trans h.1 (round-Grows count poll l h.0))
