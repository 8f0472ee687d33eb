-- ===== src/Follow/Catchup.antt =====
-- How far a follower gets with what `SyncFollower` sends it.
use zookeeper.Prelude.{
  ℕ, ◌≤◌, ◌<◌, ◌≡◌, refl, ap, ◌∙◌, true, List, ◌∷◌, ◌++◌, none, some, arith, if◌then◌else◌, ltb,
}
use zookeeper.Dataset.Files.{Bill}
use zookeeper.Dataset.Core.{DataSet, Client, query}
use zookeeper.Lead.Ids.{epoch_from_zxid}
use zookeeper.Follow.{
  Message, trunc_dataset, diff_dataset, ack_epoch, garbled, FollowEnv, register_to_leader,
  sync_first, sync_message, sync_messages, sync_with_leader, is_bare,
}
use zookeeper.Follow.Late.{sync_messages-garbled}
use zookeeper.Follow.Sync.{
  Image, first_message, sync_query, uncommitted_messages, sync_committed, sync_follower,
}

-- A follower that registers gives up exactly when its own epoch is bigger than its leader's; otherwise
-- it takes on the leader's epoch and acknowledges it with its last id.
pub register_to_leader_lem :
    (peer_epoch leader_epoch zx_id : ℕ)
    → register_to_leader peer_epoch leader_epoch zx_id ≡ (
        if ltb leader_epoch peer_epoch
        then none
        else some (leader_epoch, ack_epoch zx_id leader_epoch))
unfolding register_to_leader
register_to_leader_lem peer_epoch leader_epoch zx_id = ground arith

-- The bill of the follower's last id, followed by a bill of the same epoch.
lagging_messages :
    (last zx_id prev : ℕ) (image : Image) (b next : Bill) (bills : List Bill)
    → b.zx_id ≡ last
    → last < next.zx_id
    → epoch_from_zxid next.zx_id ≡ epoch_from_zxid last
    → sync_query true last zx_id image prev (b ∷ next ∷ bills)
      ≡ diff_dataset ∷ trunc_dataset prev ∷ sync_query true last zx_id image prev bills
unfolding sync_query first_message
lagging_messages last zx_id prev image b next bills e lt same = ground arith

module _ {ℓ} {S : Type ℓ} (c : Client S) where
  garbled_by_trunc :
      (env : FollowEnv) (d : DataSet S) (prev : ℕ) (ms : List Message)
      → (sync_with_leader c env d (diff_dataset ∷ trunc_dataset prev ∷ ms)).progress ≡ garbled
  unfolding sync_with_leader sync_messages sync_first sync_message is_bare
  garbled_by_trunc env d prev ms = sync_messages-garbled c env _ ms refl

  -- A follower that lags behind inside the leader's log, with its last bill there and a later one of the
  -- same epoch behind it, is sent a PX_DIFF_DATASET and then a PX_TRUNC_DATASET, of which its loop reads
  -- only the type: its synchronisation goes astray, whatever comes behind.
  pub lagging_follower_garbled :
      (env : FollowEnv) (d f : DataSet S) (image : Image) (last : ℕ) (b next : Bill)
      (bills : List Bill) (more : List Message)
      → d.min_zx_id ≤ last
      → last < d.zx_id
      → query d.min_zx_id d.zx_id d.commit_log ≡ b ∷ next ∷ bills
      → b.zx_id ≡ last
      → last < next.zx_id
      → epoch_from_zxid next.zx_id ≡ epoch_from_zxid last
      → (sync_with_leader c env f (sync_follower d image last ++ more)).progress ≡ garbled
  unfolding sync_follower sync_committed
  lagging_follower_garbled env d f image last b next bills more lo hi q e lt same =
      ap (λ (ms : List Message). (sync_with_leader c env f (ms ++ more)).progress)
        (ap (λ (ms : List Message). ms ++ uncommitted_messages d.uncommit) committed)
      ∙ garbled_by_trunc env f d.min_zx_id ((behind ++ uncommitted_messages d.uncommit) ++ more)
    where
      behind : List Message
      behind = sync_query true last d.zx_id image d.min_zx_id bills

      committed : sync_committed d image last ≡ diff_dataset ∷ trunc_dataset d.min_zx_id ∷ behind
      committed =
          lagging_branch
          ∙ ap (sync_query true last d.zx_id image d.min_zx_id) q
          ∙ lagging_messages last d.zx_id d.min_zx_id image b next bills e lt same
        where
          lagging_branch :
              sync_committed d image last
              ≡ sync_query true last d.zx_id image d.min_zx_id
                  (query d.min_zx_id d.zx_id d.commit_log)
          lagging_branch = ground arith
