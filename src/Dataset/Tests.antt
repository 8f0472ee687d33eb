-- ===== src/Dataset/Tests.antt =====
-- The theorems of the data set at a concrete client, whose state is a number that a bill adds to.
use zookeeper.Prelude.{
  ℕ, ◌+◌, ◌-◌, ◌≡◌, ◌≢◌, refl, true, List, [], ◌∷◌, none, some, arith, length, replicate,
}
use zookeeper.Prelude.Int.{pos}
use zookeeper.Prelude.Eq.{int_eq, nat_eq}
use zookeeper.Prelude.Map.{lookup}
use zookeeper.Dataset.Files.{Bill, Desc, Header, LogFile, Files, Io, Layout, no_header, no_desc}
use zookeeper.Dataset.Files.Truncate.{live, Ascends}
use zookeeper.Dataset.Core.{
  DataSet, Transaction, Client, Env, apply_bill, rollback_bill, find_transaction, commit, commit_at,
  commit_front, snapshot, keep_last, trunc, drop_newer,
}
use zookeeper.Dataset.Replay.{replay, IsReversible, Returns, final, trunc-IsReplayed}
use zookeeper.Dataset.Order.{IsOrdered, UpTo, Rises}
use zookeeper.Dataset.Order.Commits.{IsKnown, TakesOldest}
use zookeeper.Dataset.Order.Steps.{Moves, Rebases, commit-Moves, commit-Rebases}

abbrev pub layout : Layout
layout = record { header_byte = λ h i. 0; before_first = λ h. 0 }

abbrev pub counter : Client ℕ
counter = record { read_type = λ bytes. some (pos 1); build = length; layout = layout }

-- Adds and takes off the length of a bill.
abbrev pub adding : Transaction ℕ
adding = record { apply = λ s bytes. s + length bytes; rollback = λ s bytes. s - length bytes }

abbrev pub bill : ℕ → Bill
bill n = record { zx_id = n; data_bytes = 8 ∷ 9 ∷ [] }

abbrev pub no_files : Files
no_files = record { last_log_file = none; header = no_header; on_disk = [] }

-- One bill in the log and one pending.
abbrev pub busy : DataSet ℕ
busy = record {
  min_zx_id = 0;
  zx_id = 1;
  commit_log = bill 1 ∷ [];
  uncommit = bill 2 ∷ [];
  snaper_count = 1000;
  state_data = 2;
  files = no_files;
  snaps = [];
  transactions = (pos 1, adding) ∷ [];
}

abbrev pub disk : Env
disk = record { saved = true; random = 5; removes = λ id. true; written = true }

abbrev pub io : Io
io = record { data_written = true; header_written = true }

busy-replayed : replay counter busy.transactions 0 busy.commit_log ≡ some 2
unfolding replay apply_bill find_transaction lookup
busy-replayed = refl

adding-IsReversible : IsReversible counter busy.transactions
unfolding apply_bill rollback_bill find_transaction lookup
adding-IsReversible s t b h = ground arith

trunc-IsReplayed_example :
    ((final counter (trunc counter disk busy 0)).commit_log ≡ [])
    × ((final counter (trunc counter disk busy 0)).zx_id ≡ 0)
    × (replay counter busy.transactions 0 (final counter (trunc counter disk busy 0)).commit_log
        ≡ some (final counter (trunc counter disk busy 0)).state_data)
unfolding drop_newer
trunc-IsReplayed_example = trunc-IsReplayed counter disk busy 0 0 adding-IsReversible busy-replayed

busy-IsOrdered : IsOrdered counter busy
unfolding UpTo Rises
busy-IsOrdered = record { log = omega arith; pending = omega arith }

not_third : (b : Bill) (rest : List Bill) → busy.uncommit ≡ b ∷ rest → b.zx_id ≢ 3
not_third b rest u e = ground arith

pending-IsKnown : IsKnown counter busy.transactions busy.uncommit
unfolding IsKnown find_transaction lookup
pending-IsKnown = ((adding, refl), tt)

-- A file with one bill behind its header.
abbrev pub first_desc : Desc
first_desc = record { zx_id = 1; offset = 1612; size = 2 }

abbrev one_header : Header
one_header = record { start = 1; count = 1; logs = first_desc ∷ replicate 99 no_desc }

abbrev pub one_file : LogFile
one_file = record { header = one_header; bytes = λ i. some 7 }

abbrev pub one_open : Files
one_open = record { last_log_file = some 1; header = one_header; on_disk = (1, one_file) ∷ [] }

abbrev three_logs : List Desc
three_logs =
    record { zx_id = 1; offset = 1612; size = 2 }
    ∷ record { zx_id = 2; offset = 1614; size = 2 }
    ∷ record { zx_id = 3; offset = 1616; size = 2 }
    ∷ []

three-Ascends : Ascends 0 (live 3 three_logs)
unfolding Ascends live
three-Ascends = omega arith

-- Three bills in the log and one pending, with a snapshot due at the next commit.
abbrev due : DataSet ℕ
due = record busy {
  zx_id = 3;
  commit_log = bill 1 ∷ bill 2 ∷ bill 3 ∷ [];
  uncommit = bill 4 ∷ [];
  snaper_count = 4;
  state_data = 6;
}

due-replayed : replay counter due.transactions 0 due.commit_log ≡ some 6
unfolding replay apply_bill find_transaction lookup
due-replayed = refl

handed_in :
    (b : Bill) (rest : List Bill)
    → due.uncommit ≡ b ∷ rest
    → apply_bill counter due.transactions due.state_data b (some adding)
      ≡ apply_bill counter due.transactions due.state_data b none
unfolding apply_bill find_transaction lookup
handed_in b rest u = refl

commit-Moves_example :
    Moves counter disk due 4 (final counter (commit counter disk due 4 (some adding)))
    × Returns counter (TakesOldest counter due 4) (commit counter disk due 4 (some adding))
commit-Moves_example = commit-Moves counter disk due 4 (some adding)

commit-Rebases_example :
    Returns counter (Rebases counter disk due 4 0) (commit counter disk due 4 (some adding))
commit-Rebases_example = commit-Rebases counter disk due 4 (some adding) 0 handed_in due-replayed

due-trimmed : (final counter (commit counter disk due 4 (some adding))).commit_log ≡ bill 4 ∷ []
unfolding commit commit_at commit_front snapshot keep_last apply_bill find_transaction
due-trimmed = refl
