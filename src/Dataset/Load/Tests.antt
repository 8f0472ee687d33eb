-- ===== src/Dataset/Load/Tests.antt =====
-- The theorems of `Load` at a data set with two snapshots and one log file.
use zookeeper.Prelude.{ℕ, ◌≡◌, refl, [], ◌∷◌, none, some, arith}
use zookeeper.Prelude.Eq.{nat_eq, int_eq}
use zookeeper.Prelude.Map.{lookup}
use zookeeper.Dataset.Files.{Bill, save_log_data, read_at}
use zookeeper.Dataset.Core.{DataSet, apply_bill, find_transaction}
use zookeeper.Dataset.Replay.{replay}
use zookeeper.Dataset.Order.{Rises}
use zookeeper.Dataset.Tests.{counter, bill, busy, io, layout, first_desc, one_file, one_open}
use zookeeper.Dataset.Load.{Loaded, loaded, LoadEnv, load_log_data, load, sort_down, sort_up, place}
use zookeeper.Dataset.Load.Recovery.{Recovered, Ends, load-Recovered}
use zookeeper.Dataset.Load.Reading.{Reads, load_log_data-save_log_data}

-- A snapshot holds its id.
abbrev good : LoadEnv ℕ
good = record { loads = λ id n. some id; random = 5 }

abbrev bad : LoadEnv ℕ
bad = record { loads = λ id n. none; random = 5 }

abbrev stopped : DataSet ℕ
stopped = record busy {
  zx_id = 0;
  commit_log = [];
  uncommit = [];
  snaps = 3 ∷ 5 ∷ [];
  files = one_open;
}

newest_first : sort_down stopped.snaps ≡ 5 ∷ 3 ∷ []
unfolding sort_down sort_up place
newest_first = refl

load-Recovered_example :
    (o : Loaded ℕ) × (load counter good 5 stopped ≡ some o) × Ends counter (Recovered counter 5 5) o
load-Recovered_example = load-Recovered counter good 4 stopped 5 (3 ∷ []) 5 refl newest_first refl

abbrev first_bill : Bill
first_bill = record { zx_id = 1; data_bytes = 7 ∷ 7 ∷ [] }

abbrev after_save : DataSet ℕ
after_save = record stopped { files = (save_log_data layout io one_open (bill 2)).1 }

first-Reads : Reads one_file 1614 1 one_open.header.logs (first_bill ∷ [])
unfolding Reads read_at
first-Reads = (refl, omega arith, omega arith, omega arith, refl, tt)

ids-rise : Rises 0 (first_bill ∷ bill 2 ∷ [])
unfolding Rises
ids-rise = (omega arith, (omega arith, tt))

both-replay : replay counter after_save.transactions 2 (first_bill ∷ bill 2 ∷ []) ≡ some 6
unfolding replay apply_bill find_transaction lookup
both-replay = refl

load_log_data-save_log_data_example :
    (d : DataSet ℕ) × (load_log_data counter after_save 1 ≡ loaded d)
    × (d.commit_log ≡ first_bill ∷ bill 2 ∷ [])
    × (d.state_data ≡ 6)
unfolding lookup
load_log_data-save_log_data_example =
    load_log_data-save_log_data counter layout io one_open (bill 2) 1 0 one_file first_desc
      (first_bill ∷ []) after_save 6 refl refl refl (omega arith) refl refl (omega arith)
      (omega arith) refl refl first-Reads refl ids-rise both-replay
