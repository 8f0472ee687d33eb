-- ===== src/Follow/Sync.antt =====
-- `FollowHandler::SyncFollower`: what the leader sends to bring a follower up to date.
use zookeeper.Prelude.{
  ℕ, Bool, true, false, ◌&&◌, List, [], ◌∷◌, ◌++◌, if◌then◌else◌, ltb, leb, ◌==◌, length,
}
use zookeeper.Dataset.Files.{Bill}
use zookeeper.Dataset.Core.{DataSet, query}
use zookeeper.Lead.Ids.{epoch_from_zxid}
use zookeeper.Follow.{
  Message, trunc_dataset, snap_dataset, diff_dataset, propose_message, commit_message,
}

-- What `GetSnap` gives: the bytes of the state, and whether the string has moved to a bigger block of
-- memory while they were written.
pub record Image : Type 0 where
  pub bytes : List ℕ
  pub moved : Bool

-- `FollowHandler::Snap`. The size is written through a reference that was taken before `GetSnap`: if the
-- string has moved, the header that is sent keeps the size 0 that it was filled with.
unfoldable pub snap_message : ℕ → Image → Message
snap_message zx_id image =
    snap_dataset zx_id (if image.moved then 0 else length image.bytes) image.bytes

-- A bill behind the follower's last id, met with `first` set: it is the last id itself, or there is a
-- gap, which ends in a snapshot if the epochs differ and in a truncation to the bill before if not.
-- The flag says whether the query goes on.
unfoldable pub first_message : ℕ → ℕ → Image → ℕ → ℕ → Bool × List Message
first_message last zx_id image prev at =
    if at == last
    then (true, diff_dataset ∷ [])
    else if ltb last at
    then (if epoch_from_zxid at == epoch_from_zxid last
        then (true, trunc_dataset prev ∷ [])
        else (false, snap_message zx_id image ∷ []))
    else (true, [])

-- The function that `Query` runs over the bills, with `first` and `prevZxId`. The flag `first` is a
-- parameter, as it is a variable in the source, where nothing clears it.
unfoldable pub sync_query : Bool → ℕ → ℕ → Image → ℕ → List Bill → List Message
sync_query first last zx_id image prev [] = []
sync_query first last zx_id image prev (bill ∷ bills) =
    let skip = sync_query first last zx_id image bill.zx_id bills in
    let rest = sync_query first last zx_id image prev bills in
    let (goes_on, ms) = first_message last zx_id image prev bill.zx_id in
    if ltb bill.zx_id last
    then skip
    else if first
    then (if goes_on then ms ++ rest else ms)
    else propose_message bill.zx_id bill.data_bytes ∷ commit_message bill.zx_id 0 0 ∷ rest

-- `QueryUnCommit` with the function that sends each bill as a proposal.
unfoldable pub uncommitted_messages : List Bill → List Message
uncommitted_messages [] = []
uncommitted_messages (bill ∷ bills) =
    propose_message bill.zx_id bill.data_bytes ∷ uncommitted_messages bills

-- `SyncFollower`, up to `StartForwarding`; `image` is what `GetSnap` gives.
unfoldable pub sync_committed {ℓ} : {S : Type ℓ} → DataSet S → Image → ℕ → List Message
sync_committed d image last =
    if last == d.zx_id
    then diff_dataset ∷ []
    else if ltb d.zx_id last
    then trunc_dataset d.zx_id ∷ []
    else if leb d.min_zx_id last && leb last d.zx_id
    then sync_query true last d.zx_id image d.min_zx_id (query d.min_zx_id d.zx_id d.commit_log)
    else snap_message d.zx_id image ∷ []

unfoldable pub sync_follower {ℓ} : {S : Type ℓ} → DataSet S → Image → ℕ → List Message
sync_follower d image last = sync_committed d image last ++ uncommitted_messages d.uncommit
