-- ===== src/Follow/Tests.antt =====
-- The theorems of the follower at concrete data sets.
use zookeeper.Prelude.{ℕ, List, true, false, ◌≡◌, refl, [], ◌∷◌, ◌++◌}
use zookeeper.Prelude.Eq.{nat_eq, int_eq}
use zookeeper.Dataset.Core.{DataSet, snap, sweep_snaps, trunc_files, sweep, drop_newer}
use zookeeper.Dataset.Tests.{counter, bill, busy, disk, io}
use zookeeper.Follow.{
  Follower, working, FollowEnv, sync_with_leader, sync_messages, sync_first, stray, after_call,
  garbled, Message, commit_message, new_leader, updated,
}
use zookeeper.Follow.Sync.{Image, snap_message, sync_follower}

abbrev env : FollowEnv
env = record { io = λ id. io; disk = disk }

-- A leader whose log holds three bills.
abbrev ahead : DataSet ℕ
ahead = record busy {
  zx_id = 3;
  commit_log = bill 1 ∷ bill 2 ∷ bill 3 ∷ [];
  uncommit = [];
  state_data = 6;
}

-- A state of one byte.
abbrev image : Image
image = record { bytes = 1 ∷ []; moved = false }

-- While the follower catches up, its pending bill is committed.
abbrev meanwhile : List Message
meanwhile = commit_message 2 0 0 ∷ new_leader ∷ []

abbrev leader : DataSet ℕ
leader = record busy { uncommit = [] }

abbrev sent_to_busy : List Message
sent_to_busy = sync_follower leader image busy.zx_id ++ (meanwhile ++ updated ∷ [])

-- A snapshot that has moved in memory leads the follower astray.
moved-garbled :
    (sync_with_leader counter env busy (
      snap_message 5 (record { bytes = 1 ∷ []; moved = true })
      ∷ new_leader
      ∷ updated
      ∷ [])).progress
    ≡ garbled
unfolding sync_with_leader sync_first snap_message stray after_call snap sweep_snaps sync_messages
    trunc_files sweep drop_newer
moved-garbled = refl

-- Follower 2, with no request so far.
abbrev follower : Follower counter
follower = record {
  id = 2;
  dataset = busy;
  executor = record { callbacks = []; next_request_id = 1 };
  sent = [];
  resumed = [];
  failed = [];
  progress = working;
}

abbrev committed : DataSet ℕ
committed = record busy {
  zx_id = 2;
  commit_log = bill 1 ∷ bill 2 ∷ [];
  uncommit = [];
  state_data = 4;
}
