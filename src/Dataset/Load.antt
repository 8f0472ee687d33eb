-- ===== src/Dataset/Load.antt =====
-- `DataSet::Load` and `DataSet::LoadLogData`: the newest snapshot, and the log files behind it.
pub mod Recovery
pub mod Reading
mod Tests
use zookeeper.Prelude.{
  ℕ, zero, suc, ◌+◌, ◌-◌, ◌%◌, ◌≡◌, Bool, true, false, List, [], ◌∷◌, ◌++◌, Option, none, some,
  if◌then◌else◌, ltb, leb, ◌==◌, reverse,
}
use zookeeper.Prelude.Eq.{nat_eq}
use zookeeper.Prelude.Map.{lookup, erase}
use zookeeper.Dataset.Files.{Bill, Desc, LogFile, Files, single_log_file_count, read_at, has_header}
use zookeeper.Dataset.Core.{DataSet, Client, apply_bill, snap_count}

-- What a call ends with: true, false, or an exception of `Apply`.
pub data Loaded {ℓ} (S : Type ℓ) : Type ℓ where
  loaded : DataSet S → Loaded S
  failed : DataSet S → Loaded S
  threw : DataSet S → Loaded S

-- The answers of `LoadFromFile`, by the snapshot and the attempt, and of `rand`.
pub record LoadEnv {ℓ} (S : Type ℓ) : Type ℓ where
  pub loads : ℕ → ℕ → Option S
  pub random : ℕ

-- `fread(fileData, size, 1, file) < 1` also when the size is 0.
unfoldable pub read_record : LogFile → Desc → Option (List ℕ)
read_record file desc = if desc.size == 0 then none else read_at file.bytes desc.offset desc.size

-- `std::sort`, and with `std::greater` in `sort_down`.
unfoldable pub place : ℕ → List ℕ → List ℕ
place x [] = x ∷ []
place x (y ∷ ys) = let rest = place x ys in if leb x y then x ∷ y ∷ ys else y ∷ rest

unfoldable pub sort_up : List ℕ → List ℕ
sort_up [] = []
sort_up (x ∷ xs) = place x (sort_up xs)

unfoldable pub sort_down : List ℕ → List ℕ
unfolding sort_up
sort_down xs = reverse (sort_up xs)

-- `fs::remove` of a snapshot.
unfoldable pub remove_snap : ℕ → List ℕ → List ℕ
remove_snap id [] = []
remove_snap id (x ∷ xs) = let rest = remove_snap id xs in if x == id then rest else x ∷ rest

-- The log files from `id` on are removed.
unfoldable pub remove_from : ℕ → List ℕ → List (ℕ × LogFile) → List (ℕ × LogFile)
remove_from id [] files = files
remove_from id (log ∷ logs) files =
    let rest = remove_from id logs files in if leb id log then erase log rest else rest

-- The log files that can hold bills behind `zx_id`.
unfoldable pub logs_behind : ℕ → List (ℕ × LogFile) → List ℕ
logs_behind zx_id [] = []
logs_behind zx_id ((id, file) ∷ files) =
    let rest = logs_behind zx_id files in
    if ltb zx_id (id + single_log_file_count) then id ∷ rest else rest

module _ {ℓ} {S : Type ℓ} (c : Client S) where
  -- A descriptor that is newer than the data set: its bill is read, put on the log and applied, and the
  -- loop goes on with `next`. The id is taken over before the read.
  unfoldable pub load_bill : LogFile → Desc → (DataSet S → Loaded S) → DataSet S → Loaded S
  load_bill file desc next d = elim (read_record file desc) [
    | none ↦ failed (record d { zx_id = desc.zx_id })
    | some bytes ↦
        let bill : Bill = record { zx_id = desc.zx_id; data_bytes = bytes } in
        let pushed : DataSet S = record d {
          zx_id = desc.zx_id;
          commit_log = d.commit_log ++ bill ∷ [];
        } in
        elim (apply_bill c d.transactions d.state_data bill none) [
          | none ↦ threw pushed
          | some s ↦ next (record pushed { state_data = s })
        ]
  ]

  -- `for (i = 0; i < count; ++i)`
  unfoldable pub load_descs : LogFile → ℕ → List Desc → DataSet S → Loaded S
  load_descs file zero logs d = loaded d
  load_descs file (suc n) [] d = loaded d
  load_descs file (suc n) (desc ∷ logs) d = elim (desc.zx_id == 0) [
    | true ↦ loaded d
    | false ↦ elim (ltb d.zx_id desc.zx_id) [
      | true ↦ load_bill file desc (load_descs file n logs) d
      | false ↦ load_descs file n logs d
    ]
  ]

  -- `LoadLogData`
  unfoldable pub load_log_data : DataSet S → ℕ → Loaded S
  load_log_data d file_id = elim (lookup file_id d.files.on_disk) [
    | none ↦ failed (record d { files = record d.files { last_log_file = none } })
    | some file ↦ elim (has_header file) [
      | false ↦ failed (record d { files = record d.files { last_log_file = some file_id } })
      | true ↦ load_descs file file.header.count file.header.logs (record d {
        files = record d.files { last_log_file = some file_id; header = file.header };
      })
    ]
  ]

  -- The loop over the log files of `Load`; `all` are the files that it found.
  unfoldable pub load_files : List ℕ → List ℕ → DataSet S → Loaded S
  load_files all [] d = loaded d
  load_files all (log ∷ logs) d = elim (load_log_data d log) [
    | loaded d' ↦ load_files all logs d'
    | failed d' ↦
        loaded
          (record d' { files = record d'.files { on_disk = remove_from log all d'.files.on_disk } })
    | threw d' ↦ threw d'
  ]

  -- The loop over the snapshots of `Load`, on fuel: its iterator stays on the first one, which is removed
  -- when it cannot be loaded.
  unfoldable pub load_snap : LoadEnv S → ℕ → ℕ → ℕ → DataSet S → Option (DataSet S)
  load_snap env zero attempt id d = none
  load_snap env (suc fuel) attempt id d = elim (env.loads id attempt) [
    | some s ↦ some (record d { state_data = s; min_zx_id = id })
    | none ↦ load_snap env fuel (attempt + 1) id (record d { snaps = remove_snap id d.snaps })
  ]

  unfoldable pub load_newest : LoadEnv S → ℕ → List ℕ → DataSet S → Option (DataSet S)
  load_newest env fuel [] d = some d
  load_newest env fuel (id ∷ ids) d = load_snap env fuel 0 id d

  -- `Load` behind the snapshots.
  unfoldable pub load_logs : LoadEnv S → DataSet S → Loaded S
  load_logs env d =
      let d' : DataSet S = record d { zx_id = d.min_zx_id } in
      let logs : List ℕ = sort_up (logs_behind d'.zx_id d'.files.on_disk) in
      elim (load_files logs logs d') [
        | loaded d'' ↦ loaded (record d'' { snaper_count = snap_count + env.random % snap_count })
        | failed d'' ↦ failed d''
        | threw d'' ↦ threw d''
      ]

  -- `Load` over the snapshots that it finds, the newest first; none if the fuel has run out.
  unfoldable pub load_found : LoadEnv S → ℕ → List ℕ → DataSet S → Option (Loaded S)
  load_found env fuel ids d = elim (load_newest env fuel ids d) [
    | none ↦ none
    | some d' ↦ some (load_logs env d')
  ]

  -- `Load`
  unfoldable pub load : LoadEnv S → ℕ → DataSet S → Option (Loaded S)
  unfolding load_found
  load env fuel d = load_found env fuel (sort_down d.snaps) d
