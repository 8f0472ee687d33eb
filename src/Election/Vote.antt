-- ===== src/Election/Vote.antt =====
-- `struct Vote` of paxos/election/election.h and its order, `Vote::operator<`.
use zookeeper.Prelude.{ℕ, ◌≡◌, Bool, true, false, arith, if◌then◌else◌}
use zookeeper.Prelude.Int.{ℤ, ltb_ℤ, ◌==ℤ◌, ==ℤ_iff, ltb_ℤ_irrefl, ltb_ℤ_linear}

pub record Vote : Type 0 where
  pub idx : ℤ
  pub state : ℕ
  pub election_epoch : ℤ
  pub vote_id : ℤ
  pub vote_zx_id : ℤ

unfoldable pub less : Vote → Vote → Bool
less a b =
    if a.election_epoch ==ℤ b.election_epoch
    then (if a.vote_zx_id ==ℤ b.vote_zx_id
        then ltb_ℤ a.vote_id b.vote_id
        else ltb_ℤ a.vote_zx_id b.vote_zx_id)
    else ltb_ℤ a.election_epoch b.election_epoch

pub less_irrefl : (a : Vote) → less a a ≡ false
unfolding less
less_irrefl a =
    ground (arith, ltb_ℤ_irrefl a.election_epoch, ltb_ℤ_irrefl a.vote_zx_id, ltb_ℤ_irrefl a.vote_id)

-- The order of votes is transitive.
pub less_trans : (a b c : Vote) → less a b ≡ true → less b c ≡ true → less a c ≡ true
unfolding less
less_trans a b c h k = ground arith

-- Two votes of which neither is smaller agree in their epochs, in the candidates and in the candidates'
-- last ids.
pub less_linear :
    (a b : Vote)
    → less a b ≡ false
    → less b a ≡ false
    → (a.election_epoch ≡ b.election_epoch)
      × (a.vote_zx_id ≡ b.vote_zx_id)
      × (a.vote_id ≡ b.vote_id)
unfolding less
less_linear a b h k = ground (
  arith,
  ==ℤ_iff a.election_epoch b.election_epoch,
  ==ℤ_iff b.election_epoch a.election_epoch,
  ==ℤ_iff a.vote_zx_id b.vote_zx_id,
  ==ℤ_iff b.vote_zx_id a.vote_zx_id,
  ltb_ℤ_linear a.election_epoch b.election_epoch,
  ltb_ℤ_linear a.vote_zx_id b.vote_zx_id,
  ltb_ℤ_linear a.vote_id b.vote_id,
)
