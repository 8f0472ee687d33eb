-- ===== src/Dataset/Load/Recovery.antt =====
-- The state and the log after `Load`.
use zookeeper.Prelude.{
  ℕ, zero, suc, ◌+◌, ◌≤◌, ◌<◌, ◌≡◌, refl, ap, ◌∙◌, ◌⊎◌, inl, inr, List, [], ◌∷◌, ◌++◌, none, some,
  arith, ltb, ◌==◌, ltb→lt, Bool-cases, Option-cases,
}
use zookeeper.Prelude.Eq.{nat_eq}
use zookeeper.Prelude.Map.{lookup}
use zookeeper.Dataset.Files.{Bill, Desc, LogFile, has_header}
use zookeeper.Dataset.Core.{DataSet, Client, apply_bill}
use zookeeper.Dataset.Replay.{replay, snoc-replay}
use zookeeper.Dataset.Order.{UpTo, UpTo-snoc}
use zookeeper.Dataset.Load.{
  Loaded, loaded, failed, threw, LoadEnv, read_record, load_bill, load_descs, load_log_data,
  load_files, load_snap, load_newest, load_logs, load_found, load, sort_up, sort_down, logs_behind,
}

UpTo-wider : (lo hi hi' : ℕ) (bs : List Bill) → hi ≤ hi' → UpTo lo hi bs → UpTo lo hi' bs
unfolding UpTo
UpTo-wider lo hi hi' [] h k = omega arith
UpTo-wider lo hi hi' (b ∷ bs) h k = (k.0, UpTo-wider b.zx_id hi hi' bs h k.1)

module _ {ℓ} {S : Type ℓ} (c : Client S) where
  -- The state is the log replayed from `base`, and the log rises from `lo` to the last id.
  pub record Recovered (base : S) (lo : ℕ) (d : DataSet S) : Type ℓ where
    pub replayed : replay c d.transactions base d.commit_log ≡ some d.state_data
    pub ordered : UpTo lo d.zx_id d.commit_log

  -- A postcondition of the calls that return.
  abbrev pub Ends {κ} : (DataSet S → Type κ) → Loaded S → Type κ
  Ends P (loaded d) = P d
  Ends P (failed d) = P d
  Ends P (threw d) = Unit {κ}

  load_bill-Recovered :
      (base : S) (lo : ℕ) (file : LogFile) (desc : Desc) (next : DataSet S → Loaded S)
      (d : DataSet S)
      → ((d' : DataSet S) → Recovered base lo d' → Ends (Recovered base lo) (next d'))
      → d.zx_id < desc.zx_id
      → Recovered base lo d
      → Ends (Recovered base lo) (load_bill c file desc next d)
  unfolding load_bill
  load_bill-Recovered base lo file desc next d keeps newer r =
      elim (Option-cases (read_record file desc)) [
        | inl e ↦
            rw (e, load_bill)
              (record {
                replayed = r.replayed;
                ordered = UpTo-wider lo d.zx_id desc.zx_id d.commit_log (omega arith) r.ordered;
              })
        | inr (bytes, e) ↦
            let bill : Bill = record { zx_id = desc.zx_id; data_bytes = bytes } in
            elim (Option-cases (apply_bill c d.transactions d.state_data bill none)) [
              | inl a ↦ rw (e, a, load_bill) tt
              | inr (s, a) ↦
                  rw (e, a, load_bill)
                    (keeps
                      (record d {
                        zx_id = desc.zx_id;
                        commit_log = d.commit_log ++ bill ∷ [];
                        state_data = s;
                      })
                      (record {
                        replayed =
                            snoc-replay c d.transactions base d.state_data s d.commit_log bill
                              r.replayed a;
                        ordered = UpTo-snoc lo d.zx_id d.commit_log bill r.ordered newer;
                      }))
            ]
      ]

  load_descs-Recovered :
      (base : S) (lo : ℕ) (file : LogFile) (n : ℕ) (logs : List Desc) (d : DataSet S)
      → Recovered base lo d
      → Ends (Recovered base lo) (load_descs c file n logs d)
  unfolding load_descs
  load_descs-Recovered base lo file zero logs d r = r
  load_descs-Recovered base lo file (suc n) [] d r = r
  load_descs-Recovered base lo file (suc n) (desc ∷ logs) d r =
      elim (Bool-cases (desc.zx_id == 0)) [
        | inl ends ↦ rw (ends, load_descs) r
        | inr goes_on ↦ elim (Bool-cases (ltb d.zx_id desc.zx_id)) [
          | inl newer ↦
              rw (goes_on, newer, load_descs)
                (load_bill-Recovered base lo file desc (load_descs c file n logs) d
                  (load_descs-Recovered base lo file n logs) (ltb→lt _ _ newer) r)
          | inr older ↦
              rw (goes_on, older, load_descs) (load_descs-Recovered base lo file n logs d r)
        ]
      ]

  load_log_data-Recovered :
      (base : S) (lo : ℕ) (d : DataSet S) (file_id : ℕ)
      → Recovered base lo d
      → Ends (Recovered base lo) (load_log_data c d file_id)
  unfolding load_log_data
  load_log_data-Recovered base lo d file_id r =
      elim (Option-cases (lookup file_id d.files.on_disk)) [
        | inl e ↦ rw (e, load_log_data) (record { replayed = r.replayed; ordered = r.ordered })
        | inr (file, e) ↦ elim (Bool-cases (has_header file)) [
          | inl whole ↦
              rw (e, whole, load_log_data)
                (load_descs-Recovered base lo file file.header.count file.header.logs _
                  (record { replayed = r.replayed; ordered = r.ordered }))
          | inr short ↦
              rw (e, short, load_log_data) (record { replayed = r.replayed; ordered = r.ordered })
        ]
      ]

  Loaded-cases :
      (o : Loaded S)
      → ((d : DataSet S) × (o ≡ loaded d))
        ⊎ (((d : DataSet S) × (o ≡ failed d)) ⊎ ((d : DataSet S) × (o ≡ threw d)))
  Loaded-cases (loaded d) = inl (d, refl)
  Loaded-cases (failed d) = inr (inl (d, refl))
  Loaded-cases (threw d) = inr (inr (d, refl))

  load_files-Recovered :
      (base : S) (lo : ℕ) (all logs : List ℕ) (d : DataSet S)
      → Recovered base lo d
      → Ends (Recovered base lo) (load_files c all logs d)
  unfolding load_files
  load_files-Recovered base lo all [] d r = r
  load_files-Recovered base lo all (log ∷ logs) d r =
      let one = load_log_data-Recovered base lo d log r in
      elim (Loaded-cases (load_log_data c d log)) [
        | inl (d', e) ↦ rw (e, load_files) (load_files-Recovered base lo all logs d' (rw e at one))
        | inr (inl (d', e)) ↦
            let kept : Recovered base lo d' = rw e at one in
            rw (e, load_files) (record { replayed = kept.replayed; ordered = kept.ordered })
        | inr (inr (d', e)) ↦ rw (e, load_files) tt
      ]

  load_logs-Recovered :
      (env : LoadEnv S) (d : DataSet S)
      → d.commit_log ≡ []
      → Ends (Recovered d.state_data d.min_zx_id) (load_logs c env d)
  unfolding load_logs replay UpTo
  load_logs-Recovered env d empty =
      let all = load_files-Recovered d.state_data d.min_zx_id logs logs at_snapshot from_snapshot in
      elim (Loaded-cases (load_files c logs logs at_snapshot)) [
        | inl (d', e) ↦
            let kept : Recovered d.state_data d.min_zx_id d' = rw e at all in
            rw (e, load_logs) (record { replayed = kept.replayed; ordered = kept.ordered })
        | inr (inl (d', e)) ↦ rw (e, load_logs) (rw e at all)
        | inr (inr (d', e)) ↦ rw (e, load_logs) tt
      ]
    where
      at_snapshot : DataSet S
      at_snapshot = record d { zx_id = d.min_zx_id }

      logs : List ℕ
      logs = sort_up (logs_behind d.min_zx_id d.files.on_disk)

      from_snapshot : Recovered d.state_data d.min_zx_id at_snapshot
      from_snapshot = record {
        replayed = rw (empty, replay) refl;
        ordered = rw (empty, UpTo) (omega arith);
      }

  -- If the newest snapshot can be loaded, Load comes to an end, and unless it throws, the state is that
  -- snapshot with the log applied to it in order, and the ids of the log rise from the snapshot's to the
  -- last one.
  pub load-Recovered :
      (env : LoadEnv S) (fuel : ℕ) (d : DataSet S) (newest : ℕ) (older : List ℕ) (s : S)
      → d.commit_log ≡ []
      → sort_down d.snaps ≡ newest ∷ older
      → env.loads newest 0 ≡ some s
      → (o : Loaded S) × (load c env (suc fuel) d ≡ some o) × Ends (Recovered s newest) o
  unfolding load load_found load_newest load_snap
  load-Recovered env fuel d newest older s empty sorted found =
      let from : DataSet S = record d { state_data = s; min_zx_id = newest } in
      (
        load_logs c env from,
        ap (λ (ids : List ℕ). load_found c env (suc fuel) ids d) sorted
            ∙ rw (found, load_found, load_newest, load_snap) refl,
        load_logs-Recovered env from empty,
      )

  load_snap-none :
      (env : LoadEnv S) (fuel attempt id : ℕ) (d : DataSet S)
      → ((n : ℕ) → env.loads id n ≡ none)
      → load_snap c env fuel attempt id d ≡ none
  unfolding load_snap
  load_snap-none env zero attempt id d bad = refl
  load_snap-none env (suc fuel) attempt id d bad =
      rw (bad attempt, load_snap) (load_snap-none env fuel (attempt + 1) id _ bad)

  -- If the newest snapshot can never be loaded, Load does not end, whatever the fuel and whatever other
  -- snapshots there are.
  pub load-hangs :
      (env : LoadEnv S) (fuel : ℕ) (d : DataSet S) (newest : ℕ) (older : List ℕ)
      → sort_down d.snaps ≡ newest ∷ older
      → ((n : ℕ) → env.loads newest n ≡ none)
      → load c env fuel d ≡ none
  unfolding load load_found load_newest
  load-hangs env fuel d newest older sorted bad =
      ap (λ (ids : List ℕ). load_found c env fuel ids d) sorted
      ∙ rw (load_snap-none env fuel 0 newest d bad, load_found, load_newest) refl
