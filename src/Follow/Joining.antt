-- ===== src/Follow/Joining.antt =====
-- `Follow::Following` of paxos/paxos/follow.cpp: the attempts to connect, and the epoch that comes back.
use zookeeper.Prelude.{ℕ, ◌≤◌, true, false, List, [], ◌∷◌, Option, none, some, arith, if◌then◌else◌}
use zookeeper.Prelude.Int.{ℤ, pos, ltb_ℤ}
use zookeeper.Follow.{Reply, register_to_leader}

-- The loop over `hn_connect`, over what its calls return; `fd` is what the last one has returned.
unfoldable pub connect_tries : ℤ → List ℤ → ℤ
connect_tries fd [] = fd
connect_tries fd (next ∷ tries) = elim (ltb_ℤ (pos 0) next) [
  | true ↦ next
  | false ↦ connect_tries next tries
]

abbrev epoch_of : ℕ → Option (ℕ × Reply) → ℕ
epoch_of peer_epoch none = peer_epoch
epoch_of peer_epoch (some (epoch, reply)) = epoch

-- The epoch that `Following` returns: its own if it cannot connect, or gives up at the registration, and
-- the one of the registration otherwise, whatever ends the work.
unfoldable pub following_epoch : List ℤ → ℕ → ℕ → ℕ → ℕ
following_epoch tries peer_epoch leader_epoch zx_id =
    if ltb_ℤ (connect_tries (pos 0) tries) (pos 0)
    then peer_epoch
    else epoch_of peer_epoch (register_to_leader peer_epoch leader_epoch zx_id)

-- Following a leader never takes an epoch back.
pub following_epoch-grows :
    (tries : List ℤ) (peer_epoch leader_epoch zx_id : ℕ)
    → peer_epoch ≤ following_epoch tries peer_epoch leader_epoch zx_id
unfolding following_epoch register_to_leader
following_epoch-grows tries peer_epoch leader_epoch zx_id = ground arith
