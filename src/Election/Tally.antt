-- ===== src/Election/Tally.antt =====
-- `Election::IsVoteOk` and `Election::CheckLeader`: counting the votes that a server has seen.
use zookeeper.Prelude.{
  ℕ, suc, ◌+◌, ◌/◌, ◌≡◌, refl, inl, inr, Bool, true, false, ◌&&◌, List, [], ◌∷◌, ◌++◌, Option, none,
  some, arith, Bool-cases, if◌then◌else◌, leb, leb→le, ◌==◌, length, length-append, All, All-append,
}
use zookeeper.Prelude.Int.{ℤ, ◌==ℤ◌, ==ℤ_iff}
use zookeeper.Prelude.Eq.{int_eq}
use zookeeper.Prelude.Map.{lookup}
use zookeeper.Prelude.Distinct.{contains, Distinct, IsServer, pigeonhole, meet_or_Distinct}
use zookeeper.Election.Vote.{Vote}

abbrev pub Votes : Type 0
Votes = List (ℤ × Vote)

abbrev pub votes_for : ℤ → ℤ → Vote → Bool
votes_for leader epoch v = v.election_epoch ==ℤ epoch && v.vote_id ==ℤ leader

-- The loop over the map.
unfoldable pub count_votes : Votes → ℤ → ℤ → ℕ
count_votes [] leader epoch = 0
count_votes ((k, v) ∷ votes) leader epoch =
    let rest = count_votes votes leader epoch in if votes_for leader epoch v then suc rest else rest

unfoldable pub is_vote_ok : Votes → ℤ → ℤ → ℕ → Bool
is_vote_ok votes leader epoch count = leb (count / 2 + 1) (count_votes votes leader epoch)

abbrev pub leading : ℕ
leading = 2

abbrev leads : Option Vote → Bool
leads none = false
leads (some v) = v.state == leading

unfoldable pub check_leader : ℤ → Votes → ℤ → Bool → Bool
check_leader id votes leader is_epoch_equal =
    if leader ==ℤ id then is_epoch_equal else leads (lookup leader votes)

-- The servers that a map holds votes of, and those among them that vote for a leader.
abbrev pub keys : Votes → List ℤ
keys [] = []
keys ((k, v) ∷ votes) = k ∷ keys votes

supporters : Votes → ℤ → ℤ → List ℤ
supporters [] leader epoch = []
supporters ((k, v) ∷ votes) leader epoch =
    let rest = supporters votes leader epoch in if votes_for leader epoch v then k ∷ rest else rest

-- Votes as the map of one server of an ensemble of n can hold them: one for each key, each of a
-- server of the ensemble.
pub record AreVotesOf (n : ℕ) (votes : Votes) : Type 0 where
  pub single : Distinct (keys votes)
  pub servers : All (IsServer n) (keys votes)

length-supporters :
    (votes : Votes) (leader epoch : ℤ)
    → length (supporters votes leader epoch) ≡ count_votes votes leader epoch
unfolding supporters count_votes
length-supporters [] leader epoch = refl
length-supporters ((k, v) ∷ votes) leader epoch =
    ground (arith, length-supporters votes leader epoch)

contains-supporters :
    (a : ℤ) (votes : Votes) (leader epoch : ℤ)
    → contains a (keys votes) ≡ false
    → contains a (supporters votes leader epoch) ≡ false
unfolding supporters
contains-supporters a [] leader epoch h = refl
contains-supporters a ((k, v) ∷ votes) leader epoch h =
    ground (arith, contains-supporters a votes leader epoch)

supporters-Distinct :
    (votes : Votes) (leader epoch : ℤ)
    → Distinct (keys votes)
    → Distinct (supporters votes leader epoch)
unfolding supporters
supporters-Distinct [] leader epoch d = tt
supporters-Distinct ((k, v) ∷ votes) leader epoch d = ground (
  arith,
  supporters-Distinct votes leader epoch d.1,
  contains-supporters k votes leader epoch d.0,
)

supporters-IsServer :
    (n : ℕ) (votes : Votes) (leader epoch : ℤ)
    → All (IsServer n) (keys votes)
    → All (IsServer n) (supporters votes leader epoch)
unfolding supporters
supporters-IsServer n [] leader epoch h = tt
supporters-IsServer n ((k, v) ∷ votes) leader epoch h =
    elim (Bool-cases (votes_for leader epoch v)) [
      | inl e ↦ rw e (h.0, supporters-IsServer n votes leader epoch h.1)
      | inr e ↦ rw e (supporters-IsServer n votes leader epoch h.1)
    ]

found_epoch :
    (leader epoch : ℤ) (v : Vote) → votes_for leader epoch v ≡ true → v.election_epoch ≡ epoch
found_epoch leader epoch v h = (==ℤ_iff v.election_epoch epoch).0 (ground arith)

found_leader : (leader epoch : ℤ) (v : Vote) → votes_for leader epoch v ≡ true → v.vote_id ≡ leader
found_leader leader epoch v h = (==ℤ_iff v.vote_id leader).0 (ground arith)

-- What the key of a supporter says.
supporter-vote :
    (a : ℤ) (votes : Votes) (leader epoch : ℤ)
    → Distinct (keys votes)
    → contains a (supporters votes leader epoch) ≡ true
    → (v : Vote) × (lookup a votes ≡ some v) × (v.election_epoch ≡ epoch) × (v.vote_id ≡ leader)
unfolding supporters lookup
supporter-vote a [] leader epoch d h = cc
supporter-vote a ((k, v) ∷ votes) leader epoch d h = elim (Bool-cases (k ==ℤ a)) [
  | inl e ↦ elim (Bool-cases (votes_for leader epoch v)) [
    | inl f ↦ (v, ground arith, found_epoch leader epoch v f, found_leader leader epoch v f)
    | inr f ↦
        absurd (ground (arith, (==ℤ_iff k a).0 e, contains-supporters k votes leader epoch d.0))
  ]
  | inr e ↦
      let (w, found, rest, chosen) = supporter-vote a votes leader epoch d.1 (ground arith) in
      (w, rw e found, rest, chosen)
]

-- Two maps of an ensemble's votes that each reach the quorum, for whatever candidates and rounds, hold
-- a common voter, whose votes in them are among those counted.
pub quorums_meet :
    (n : ℕ) (votes other : Votes) (leader rival epoch since : ℤ)
    → AreVotesOf n votes
    → AreVotesOf n other
    → is_vote_ok votes leader epoch n ≡ true
    → is_vote_ok other rival since n ≡ true
    → (a : ℤ) × (v : Vote) × (w : Vote) × (lookup a votes ≡ some v)
      × (lookup a other ≡ some w)
      × (v.election_epoch ≡ epoch)
      × (v.vote_id ≡ leader)
      × (w.election_epoch ≡ since)
      × (w.vote_id ≡ rival)
unfolding is_vote_ok
quorums_meet n votes other leader rival epoch since own others p q =
    elim (meet_or_Distinct ours theirs (supporters-Distinct votes leader epoch own.single)
      (supporters-Distinct other rival since others.single)) [
        | inl (a, l, r) ↦
            let (v, at_v, v_epoch, v_leader) = supporter-vote a votes leader epoch own.single l in
            let (w, at_w, w_epoch, w_leader) = supporter-vote a other rival since others.single r in
            (a, v, w, at_v, at_w, v_epoch, v_leader, w_epoch, w_leader)
        | inr d ↦ absurd (
            omega (
              arith,
              pigeonhole n (ours ++ theirs) d (
                  All-append (IsServer n) ours theirs
                    (supporters-IsServer n votes leader epoch own.servers)
                    (supporters-IsServer n other rival since others.servers)),
              length-append ours theirs,
              length-supporters votes leader epoch,
              length-supporters other rival since,
              leb→le _ _ p,
              leb→le _ _ q,
            ))
      ]
  where
    ours : List ℤ
    ours = supporters votes leader epoch

    theirs : List ℤ
    theirs = supporters other rival since
