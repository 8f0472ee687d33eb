-- ===== src/Lead/Handler/Session.antt =====
-- `FollowHandler::Start` of paxos/paxos/lead.cpp: the session of a follower, from its registration to the
-- end of its connection.
use zookeeper.Prelude.{
  ℕ, zero, suc, ◌-◌, ◌<◌, ◌≡◌, refl, List, [], ◌∷◌, ◌++◌, Option, none, some, arith, length, get_or,
  set,
}
use zookeeper.Dataset.Core.{DataSet}
use zookeeper.Lead.Epoch.{Hall, register, unregister, start_forwarding}
use zookeeper.Follow.{Message, new_leader, updated}
use zookeeper.Follow.Sync.{Image, sync_follower}

-- What this handler itself sends before `Process`: the epoch, the synchronisation, and its end. What the
-- leader forwards to the follower from `StartForwarding` on comes in between.
pub record Opening : Type 0 where
  pub epoch : ℕ
  pub messages : List Message

-- The session: what it sends, and the leader's members behind it. `epoch` is what GetPeerEpoch
-- returns, `last` the follower's last id, and `meanwhile` what the others do to the members before the
-- connection closes. A session that is refused ends in the same way as one that was served.
unfoldable pub serve {ℓ} :
    {S : Type ℓ} → Hall → DataSet S → Image → ℕ → ℕ → ℕ → ℕ → (Hall → Hall) → Option Opening × Hall
serve h d image id fd epoch last meanwhile = elim (register h id fd) [
  | none ↦ (none, unregister h id)
  | some h' ↦ (
    some (record {
      epoch = epoch;
      messages = sync_follower d image last ++ new_leader ∷ updated ∷ [];
    }),
    unregister (meanwhile (start_forwarding h' id fd)) id,
  )
]

get_or-set : (xs : List ℕ) (i v : ℕ) → i < length xs → get_or (set xs i v) i 0 ≡ v
get_or-set [] i v h = absurd (omega arith)
get_or-set (x ∷ xs) zero v h = refl
get_or-set (x ∷ xs) (suc i) v h = get_or-set xs i v (omega arith)

get_or-set_zero : (xs : List ℕ) (i : ℕ) → get_or (set xs i 0) i 0 ≡ 0
get_or-set_zero [] i = refl
get_or-set_zero (x ∷ xs) zero = refl
get_or-set_zero (x ∷ xs) (suc i) = get_or-set_zero xs i

unregister-clears :
    (h : Hall) (id : ℕ)
    → (get_or (unregister h id).followers (id - 1) 0 ≡ 0)
      × (get_or (unregister h id).forwarding (id - 1) 0 ≡ 0)
unfolding unregister
unregister-clears h id =
    (get_or-set_zero h.followers (id - 1), ground (arith, get_or-set_zero h.forwarding (id - 1)))

-- A second connection under the id of a server that is being served is refused, and its end
-- takes away the registration and the forwarding of the first one, which is still open.
pub serve-drops_first {ℓ} :
    {S : Type ℓ} (h first : Hall) (d : DataSet S) (image : Image) (id fd fd' epoch last : ℕ)
    (meanwhile : Hall → Hall)
    → id - 1 < length h.followers
    → 0 < fd
    → register h id fd ≡ some first
    → ((serve (start_forwarding first id fd) d image id fd' epoch last meanwhile).0 ≡ none)
      × (get_or
            (serve (start_forwarding first id fd) d image id fd' epoch last meanwhile).1.followers
            (id - 1)
            0
          ≡ 0)
      × (get_or
            (serve (start_forwarding first id fd) d image id fd' epoch last meanwhile).1.forwarding
            (id - 1)
            0
          ≡ 0)
unfolding serve register start_forwarding
serve-drops_first h first d image id fd fd' epoch last meanwhile room live ok =
    let open_one : Hall = start_forwarding first id fd in
    let taken : get_or first.followers (id - 1) 0 ≡ fd =
      ground (arith, get_or-set h.followers (id - 1) fd room) in
    let refused : register open_one id fd' ≡ none = ground arith in
    let (followers, forwarding) = unregister-clears open_one id in
    (rw (refused, serve) refl, rw (refused, serve) followers, rw (refused, serve) forwarding)
