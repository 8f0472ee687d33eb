-- ===== src/Dataset/Core.antt =====
-- `DataSet`: proposals, commits, snapshots and truncation. What the user of the library implements,
-- `IStateData` and `ITransaction`, and the archive of hnet that reads a bill's type, are parameters.
use zookeeper.Prelude.{
  ℕ, ◌+◌, ◌/◌, ◌%◌, Bool, true, false, ◌&&◌, not, List, [], ◌∷◌, ◌++◌, Option, none, some,
  if◌then◌else◌, ltb, leb, ◌==◌, length, reverse, max,
}
use zookeeper.Prelude.Int.{ℤ}
use zookeeper.Prelude.Eq.{int_eq}
use zookeeper.Prelude.Map.{lookup, insert}
use zookeeper.Dataset.Files.{Bill, Files, LogFile, Layout, Io, no_header, save_log_data, trunc_file}

abbrev pub snap_count : ℕ
snap_count = 100000

-- `ITransaction`: what a type of transaction does to the state, with the bytes of its bill.
pub record Transaction {ℓ} (S : Type ℓ) : Type ℓ where
  pub apply : S → List ℕ → S
  pub rollback : S → List ℕ → S

-- What the data set calls and does not implement. `read_type` reads the type off a bill, or finds
-- its stream bad; `build` is `IStateData::BuildFromData`.
pub record Client {ℓ} (S : Type ℓ) : Type ℓ where
  pub read_type : List ℕ → Option ℤ
  pub build : List ℕ → S
  pub layout : Layout

pub record DataSet {ℓ} (S : Type ℓ) : Type ℓ where
  pub min_zx_id : ℕ
  pub zx_id : ℕ
  pub commit_log : List Bill
  pub uncommit : List Bill
  pub snaper_count : ℕ
  pub state_data : S
  pub files : Files
  pub snaps : List ℕ
  pub transactions : List (ℤ × Transaction S)

pub data Exception : Type 0 where
  invalid_zx_id save_snap_failed invalid_log trunc_failed remove_failed : Exception

-- A call returns, or throws with the data set as the throw leaves it.
pub data Outcome {ℓ} (S : Type ℓ) : Type ℓ where
  done : DataSet S → Outcome S
  threw : Exception → DataSet S → Outcome S

-- What the disk and `rand` answer during a call.
pub record Env : Type 0 where
  pub saved : Bool
  pub random : ℕ
  pub removes : ℕ → Bool
  pub written : Bool

module _ {ℓ} {S : Type ℓ} (c : Client S) where
  -- `RegisterLogType`
  unfoldable pub register_log_type : DataSet S → ℤ → Transaction S → DataSet S
  register_log_type d kind t = record d { transactions = insert kind t d.transactions }

  -- The transaction that a bill is for: the one handed in, or else the registered one of its type.
  unfoldable pub find_transaction :
      List (ℤ × Transaction S) → List ℕ → Option (Transaction S) → Option (Transaction S)
  find_transaction known bytes given = elim (c.read_type bytes) [
    | none ↦ none
    | some kind ↦ elim given [ some t ↦ some t | none ↦ lookup kind known ]
  ]

  -- `Apply` and `Rollback`; none is the exception "invalid log".
  unfoldable pub apply_bill :
      List (ℤ × Transaction S) → S → Bill → Option (Transaction S) → Option S
  apply_bill known s bill given = elim (find_transaction known bill.data_bytes given) [
    | none ↦ none
    | some t ↦ some (t.apply s bill.data_bytes)
  ]

  unfoldable pub rollback_bill : List (ℤ × Transaction S) → S → Bill → Option S
  rollback_bill known s bill = elim (find_transaction known bill.data_bytes none) [
    | none ↦ none
    | some t ↦ some (t.rollback s bill.data_bytes)
  ]

  -- `Propose`: the bill is pushed, saved, and popped again if it could not be saved.
  unfoldable pub propose : Io → DataSet S → Bill → Bool × DataSet S
  propose io d bill =
      let (saved, files) = save_log_data c.layout io d.files bill in
      if saved
      then (true, record d { files = files; uncommit = d.uncommit ++ bill ∷ [] })
      else (false, record d { files = files })

  -- `while (_commitLog.size() > n) _commitLog.pop_front()`
  unfoldable pub keep_last : ℕ → List Bill → List Bill
  keep_last n [] = []
  keep_last n (b ∷ bs) = if ltb n (length (b ∷ bs)) then keep_last n bs else b ∷ bs

  -- The snapshot at the end of `Commit`, when the log has grown to `_snaperCount`.
  unfoldable pub snapshot : Env → DataSet S → Outcome S
  snapshot env d =
      if leb d.snaper_count (length d.commit_log)
      then (if env.saved
          then done (record d {
            snaps = d.zx_id ∷ d.snaps;
            commit_log = keep_last (d.snaper_count / 4) d.commit_log;
            snaper_count = snap_count + env.random % snap_count;
          })
          else threw save_snap_failed d)
      else done d

  -- A bill goes from the uncommitted ones to the log.
  abbrev pub move_bill : DataSet S → Bill → List Bill → DataSet S
  move_bill d bill rest = record d { commit_log = d.commit_log ++ bill ∷ []; uncommit = rest }

  unfoldable pub commit_front :
      Env → DataSet S → Bill → List Bill → Option (Transaction S) → Outcome S
  commit_front env d bill rest given = elim (apply_bill d.transactions d.state_data bill given) [
    | none ↦ threw invalid_log (move_bill d bill rest)
    | some s ↦ snapshot env (record (move_bill d bill rest) { state_data = s; zx_id = bill.zx_id })
  ]

  unfoldable pub commit_at : Env → DataSet S → ℕ → Option (Transaction S) → List Bill → Outcome S
  commit_at env d zx_id given [] = threw invalid_zx_id d
  commit_at env d zx_id given (bill ∷ rest) =
      if bill.zx_id == zx_id then commit_front env d bill rest given else threw invalid_zx_id d

  -- `Commit`
  unfoldable pub commit : Env → DataSet S → ℕ → Option (Transaction S) → Outcome S
  unfolding commit_at commit_front
  commit env d zx_id given = commit_at env d zx_id given d.uncommit

  -- `Flush`
  unfoldable pub flush_from : DataSet S → List Bill → Outcome S
  flush_from d [] = done (record d { uncommit = [] })
  flush_from d (bill ∷ rest) = elim (apply_bill d.transactions d.state_data bill none) [
    | none ↦ threw invalid_log (move_bill d bill rest)
    | some s ↦
        flush_from (record (move_bill d bill rest) { state_data = s; zx_id = bill.zx_id }) rest
  ]

  unfoldable pub flush : DataSet S → Outcome S
  unfolding flush_from
  flush d = flush_from d d.uncommit

  -- The loop of `Trunc` over the log from its end, which comes first here. The flag is false if a
  -- rollback threw.
  unfoldable pub roll_back :
      List (ℤ × Transaction S)
      → ℕ
      → S
      → List Bill
      → record { ok : Bool; state_data : S; log : List Bill }
  roll_back known zx_id s [] = record { ok = true; state_data = s; log = [] }
  roll_back known zx_id s (bill ∷ older) =
      if ltb zx_id bill.zx_id
      then elim (rollback_bill known s bill) [
        | none ↦ record { ok = false; state_data = s; log = bill ∷ older }
        | some s' ↦ roll_back known zx_id s' older
      ]
      else record { ok = true; state_data = s; log = bill ∷ older }

  -- The search over the log files: those behind `zx_id` are removed, unless that fails, and the
  -- biggest of the others is found.
  unfoldable pub sweep :
      (ℕ → Bool)
      → ℕ
      → List (ℕ × LogFile)
      → record { ok : Bool; kept : List (ℕ × LogFile); biggest : ℕ }
  sweep removes zx_id [] = record { ok = true; kept = []; biggest = 0 }
  sweep removes zx_id ((id, file) ∷ files) =
      let rest = sweep removes zx_id files in
      if ltb zx_id id
      then (if removes id
          then rest
          else record { ok = false; kept = (id, file) ∷ files; biggest = 0 })
      else record { ok = rest.ok; kept = (id, file) ∷ rest.kept; biggest = max id rest.biggest }

  -- The end of `Trunc` and `Snap`: the open file is closed, the header cleared, the log files swept,
  -- and the last one that stays is truncated.
  unfoldable pub trunc_files : Env → DataSet S → Outcome S
  trunc_files env d =
      let swept = sweep env.removes d.zx_id d.files.on_disk in
      let files : Files = record {
        last_log_file = none;
        header = no_header;
        on_disk = swept.kept;
      } in
      if not swept.ok
      then threw remove_failed (record d { files = files })
      else if swept.biggest == 0
      then done (record d { files = files })
      else (let (ok, truncated) = trunc_file c.layout env.written files swept.biggest d.zx_id in
          if ok
          then done (record d { files = truncated })
          else threw trunc_failed (record d { files = truncated }))

  -- `Trunc`
  unfoldable pub trunc : Env → DataSet S → ℕ → Outcome S
  trunc env d zx_id =
      let rolled = roll_back d.transactions zx_id d.state_data (reverse d.commit_log) in
      let d' : DataSet S = record d {
        state_data = rolled.state_data;
        commit_log = reverse rolled.log;
      } in
      if rolled.ok then trunc_files env (record d' { zx_id = zx_id }) else threw invalid_log d'

  -- `while (!_commitLog.empty() && _commitLog.back().zxId > zxId) _commitLog.pop_back()`
  unfoldable pub drop_newer : ℕ → List Bill → List Bill
  drop_newer zx_id [] = []
  drop_newer zx_id (bill ∷ older) =
      if ltb zx_id bill.zx_id then drop_newer zx_id older else bill ∷ older

  -- The snapshot files behind `zx_id` are removed.
  unfoldable pub sweep_snaps : (ℕ → Bool) → ℕ → List ℕ → Bool × List ℕ
  sweep_snaps removes zx_id [] = (true, [])
  sweep_snaps removes zx_id (id ∷ ids) =
      let (ok, rest) = sweep_snaps removes zx_id ids in
      if ltb zx_id id
      then (if removes id then (ok, rest) else (false, id ∷ ids))
      else (ok, id ∷ rest)

  -- `Snap`
  unfoldable pub snap : Env → DataSet S → ℕ → List ℕ → Outcome S
  snap env d zx_id bytes =
      let (ok, snaps) = sweep_snaps env.removes zx_id d.snaps in
      let d' : DataSet S = record d {
        min_zx_id = zx_id;
        zx_id = zx_id;
        state_data = c.build bytes;
        commit_log = reverse (drop_newer zx_id (reverse d.commit_log));
        snaps = snaps;
      } in
      if ok then trunc_files env d' else threw remove_failed d'

-- `Query`, for a function that never stops it: the bills of the log in a range.
unfoldable pub query : ℕ → ℕ → List Bill → List Bill
query start end [] = []
query start end (bill ∷ bills) =
    let rest = query start end bills in
    if leb start bill.zx_id && leb bill.zx_id end then bill ∷ rest else rest
