-- ===== src/Server/Turns.antt =====
-- Where the turns of a server lead.
use zookeeper.Prelude.{
  ◌≡◌, ◌≢◌, refl, sym, ap, ◌∙◌, false, List, [], ◌∷◌, none, some, arith, ==_iff, All, Bool-cases,
  Option-cases, inl, inr,
}
use zookeeper.Prelude.Int.{ℤ, ◌==ℤ◌, ==ℤ_iff}
use zookeeper.Election.Look.{Look, looking, following}
use zookeeper.Election.Look.Invariant.{Inv}
use zookeeper.Server.{
  Peer, Paxos, find_server, point_to, elect, TurnEnv, lead_turn, follow_turn, one_turn, turns,
}

find_server-none :
    (idx : ℤ) (servers : List Peer)
    → All (λ (s : Peer). s.id ≢ idx) servers
    → find_server idx servers ≡ none
unfolding find_server
find_server-none idx [] h = refl
find_server-none idx (s ∷ servers) h = elim (Bool-cases (s.id ==ℤ idx)) [
  | inl e ↦ absurd (h.0 ((==ℤ_iff s.id idx).0 e))
  | inr e ↦ rw (e, find_server) (find_server-none idx servers h.1)
]

-- An election that ends with the own proposal of a server, for another one, sets the state FOLLOWING and
-- finds no leader, since the other servers do not have the server's own id; the next turn of a server
-- that had no leader goes through the null pointer.
pub elect-finds_none :
    (p : Paxos) (l : Look) (env : TurnEnv)
    → Inv l
    → l.id ≡ p.id
    → l.proposal.vote_id ≢ p.id
    → All (λ (s : Peer). s.id ≢ p.id) p.servers
    → p.leader ≡ none
    → ((elect p l.proposal).state ≡ following)
      × ((elect p l.proposal).leader ≡ none)
      × (one_turn env (elect p l.proposal) ≡ none)
unfolding elect one_turn follow_turn point_to
elect-finds_none p l env v own other apart lone =
    let absent : find_server l.proposal.idx p.servers ≡ none =
      ap (λ (k : ℤ). find_server k p.servers) (v.own ∙ own)
      ∙ find_server-none p.id p.servers apart in
    let not_own : l.proposal.vote_id ==ℤ p.id ≡ false = not_equal in
    (
      rw (not_own, absent, elect, point_to) refl,
      rw (not_own, absent, elect, point_to) lone,
      rw (not_own, absent, elect, point_to, one_turn, follow_turn, lone) refl,
    )
  where
    not_equal : l.proposal.vote_id ==ℤ p.id ≡ false
    not_equal = elim (Bool-cases (l.proposal.vote_id ==ℤ p.id)) [
      | inl e ↦ absurd (other ((==ℤ_iff l.proposal.vote_id p.id).0 e))
      | inr e ↦ e
    ]

turn_keeps_state :
    (env : TurnEnv) (p p' : Paxos)
    → p.state ≢ looking
    → one_turn env p ≡ some p'
    → p'.state ≡ p.state
unfolding one_turn lead_turn follow_turn
turn_keeps_state env p p' h e = ground (arith, ==_iff p.state looking)

-- A server that is not looking for a leader never looks for one again: after any number of turns that it
-- comes through, its state is what it was.
pub turns_keep_state :
    (envs : List TurnEnv) (p p' : Paxos)
    → p.state ≢ looking
    → turns envs p ≡ some p'
    → p'.state ≡ p.state
unfolding turns
turns_keep_state [] p p' h e = ground arith
turns_keep_state (env ∷ envs) p p' h e = elim (Option-cases (one_turn env p)) [
  | inl bad ↦ absurd (none_some (sym (rw (bad, turns) refl) ∙ e))
  | inr (q, step) ↦
      let same = turn_keeps_state env p q h step in
      turns_keep_state envs q p' (λ looks. h (sym same ∙ looks)) (rw (step, turns) at e) ∙ same
]
  where
    none_some : {a : Paxos} → none ≡ some a → ⊥
    none_some x = cc
