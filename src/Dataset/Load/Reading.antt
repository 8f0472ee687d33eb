-- ===== src/Dataset/Load/Reading.antt =====
-- `SaveLogData`, followed by `LoadLogData`.
use zookeeper.Prelude.{
  ℕ, zero, suc, ◌+◌, ◌≤◌, ◌<◌, ◌≡◌, refl, sym, ap, subst, ◌∙◌, inl, inr, Bool, true, false, List,
  [], ◌∷◌, ◌++◌, none, some, arith, ltb, ◌==◌, ==_refl, length, set, get_elem?, Option-cases,
  append_assoc, append-nil,
}
use zookeeper.Prelude.Eq.{nat_eq}
use zookeeper.Prelude.Map.{lookup, lookup-insert}
use zookeeper.Dataset.Files.{
  Bill, Desc, Header, LogFile, Files, Io, Layout, sizeof_header, single_log_file_count, write_at,
  write_header, has_header, save_log_data,
}
use zookeeper.Dataset.Files.Append.{
  read_desc, saved_file, save_writes, save_log_data-step, read_at-write_header, read_at-write_at,
  read_at-write_before,
}
use zookeeper.Dataset.Core.{DataSet, Client, apply_bill}
use zookeeper.Dataset.Replay.{replay}
use zookeeper.Dataset.Order.{Rises}
use zookeeper.Dataset.Load.{loaded, read_record, load_bill, load_descs, load_log_data}

-- The first `n` descriptors are those of the bills, whose bytes lie between the header and `end`.
unfoldable pub Reads : LogFile → ℕ → ℕ → List Desc → List Bill → Type 0
Reads file end zero logs [] = Unit {0}
Reads file end zero logs (bill ∷ bills) = ⊥
Reads file end (suc n) [] bills = ⊥
Reads file end (suc n) (desc ∷ logs) [] = ⊥
Reads file end (suc n) (desc ∷ logs) (bill ∷ bills) =
    (desc.zx_id ≡ bill.zx_id)
    × (0 < desc.size)
    × (sizeof_header ≤ desc.offset)
    × (desc.offset + desc.size ≤ end)
    × (read_desc file desc ≡ some bill.data_bytes)
    × Reads file end n logs bills

-- One more descriptor, behind those that read as before.
Reads-snoc :
    (file file' : LogFile) (end end' n : ℕ) (logs : List Desc) (bills : List Bill) (desc : Desc)
    (bill : Bill)
    → n < length logs
    → ((old : Desc)
        → sizeof_header ≤ old.offset
        → old.offset + old.size ≤ end
        → read_desc file' old ≡ read_desc file old)
    → end ≤ end'
    → (desc.zx_id ≡ bill.zx_id)
      × (0 < desc.size)
      × (sizeof_header ≤ desc.offset)
      × (desc.offset + desc.size ≤ end')
      × (read_desc file' desc ≡ some bill.data_bytes)
    → Reads file end n logs bills
    → Reads file' end' (suc n) (set logs n desc) (bills ++ bill ∷ [])
unfolding Reads
Reads-snoc file file' end end' zero [] bills desc bill room same le one h = absurd (omega arith)
Reads-snoc file file' end end' zero (x ∷ logs) [] desc bill room same le one h =
    let (id, wet, behind, fits, reads) = one in (id, wet, behind, fits, reads, tt)
Reads-snoc file file' end end' zero (x ∷ logs) (b ∷ bills) desc bill room same le one h = absurd h
Reads-snoc file file' end end' (suc n) [] bills desc bill room same le one h = absurd h
Reads-snoc file file' end end' (suc n) (x ∷ logs) [] desc bill room same le one h = absurd h
Reads-snoc file file' end end' (suc n) (x ∷ logs) (b ∷ bills) desc bill room same le one h =
    let (id, wet, behind, fits, reads, rest) = h in
    (
      id,
      wet,
      behind,
      omega arith,
      same x behind fits ∙ reads,
      Reads-snoc file file' end end' n logs bills desc bill (omega arith) same le one rest,
    )

module _ {ℓ} {S : Type ℓ} (c : Client S) where
  load_descs-all :
      (file : LogFile) (end n : ℕ) (logs : List Desc) (bills : List Bill) (d : DataSet S) (s : S)
      → Reads file end n logs bills
      → Rises d.zx_id bills
      → replay c d.transactions d.state_data bills ≡ some s
      → (d' : DataSet S) × (load_descs c file n logs d ≡ loaded d')
        × (d'.commit_log ≡ d.commit_log ++ bills)
        × (d'.state_data ≡ s)
  unfolding load_descs load_bill read_record Reads Rises replay
  load_descs-all file end zero logs [] d s h up r =
      (d, refl, sym (append-nil d.commit_log), ground arith)
  load_descs-all file end zero logs (b ∷ bills) d s h up r = absurd h
  load_descs-all file end (suc n) [] bills d s h up r = absurd h
  load_descs-all file end (suc n) (desc ∷ logs) [] d s h up r = absurd h
  load_descs-all file end (suc n) (desc ∷ logs) (b ∷ bills) d s h up r =
      elim (Option-cases (apply_bill c d.transactions d.state_data b none)) [
        | inl e ↦ absurd (not_some (sym (rw (e, replay) refl) ∙ r))
        | inr (s', e) ↦
            let (id, wet, behind, fits, reads, rest) = h in
            let same : bill_of desc b ≡ b = ap (λ (k : ℕ). bill_at k b.data_bytes) id in
            let applied : apply_bill c d.transactions d.state_data (bill_of desc b) none ≡ some s' =
              ap (λ (x : Bill). apply_bill c d.transactions d.state_data x none) same ∙ e in
            let live : desc.zx_id == 0 ≡ false = ground (arith, up.0) in
            let newer : ltb d.zx_id desc.zx_id ≡ true = ground (arith, up.0) in
            let dry : desc.size == 0 ≡ false = ground arith in
            let (d', done, log, state) =
              load_descs-all file end n logs bills
                (record d {
                  zx_id = desc.zx_id;
                  commit_log = d.commit_log ++ bill_of desc b ∷ [];
                  state_data = s';
                })
                s rest (subst (λ (k : ℕ). Rises k bills) (sym id) up.1) (rw (e, replay) at r) in
            (
              d',
              rw (live, newer, load_descs, dry, reads, load_bill, read_record, applied) done,
              log
                  ∙ append_assoc d.commit_log (bill_of desc b ∷ []) bills
                  ∙ ap (λ (x : Bill). d.commit_log ++ x ∷ bills) same,
              state,
            )
      ]
    where
      not_some : {A : Type ℓ} {a : A} → none ≡ some a → ⊥
      not_some h = cc

      bill_at : ℕ → List ℕ → Bill
      bill_at k bytes = record { zx_id = k; data_bytes = bytes }

      bill_of : Desc → Bill → Bill
      bill_of x y = bill_at x.zx_id y.data_bytes

-- The file that a save leaves: the old bills and the new one can be read.
saved_file-Reads :
    (layout : Layout) (header : Header) (last : Desc) (bill : Bill) (file : LogFile)
    (bills : List Bill)
    → header.count < length header.logs
    → sizeof_header ≤ last.offset + last.size
    → 0 < length bill.data_bytes
    → Reads file (last.offset + last.size) header.count header.logs bills
    → Reads
        (saved_file layout header last bill file)
        (last.offset + last.size + length bill.data_bytes)
        (suc header.count)
        (saved_file layout header last bill file).header.logs
        (bills ++ bill ∷ [])
unfolding write_header
saved_file-Reads layout header last bill file bills room behind wet h =
    let at : ℕ = last.offset + last.size in
    let desc : Desc = record { zx_id = bill.zx_id; offset = at; size = length bill.data_bytes } in
    let longer : Header = record header {
      count = header.count + 1;
      logs = set header.logs header.count desc;
    } in
    let written : LogFile = record file { bytes = write_at file.bytes at bill.data_bytes } in
    Reads-snoc file (saved_file layout header last bill file) at (at + length bill.data_bytes)
      header.count header.logs bills desc bill room
      (λ old low high.
        read_at-write_header layout longer written old.offset old.size low
        ∙ read_at-write_before file.bytes old.offset old.size at bill.data_bytes high)
      (omega arith)
      (
        refl,
        wet,
        behind,
        omega arith,
        read_at-write_header layout longer written at (length bill.data_bytes) behind
            ∙ read_at-write_at file.bytes at bill.data_bytes,
      )
      h

module _ {ℓ} {S : Type ℓ} (c : Client S) where
  -- A bill that SaveLogData has put behind the bills of an open log file, which is neither new nor full,
  -- is read by LoadLogData together with them: into a data set whose last id is before all of them, and
  -- to whose state they can be applied, it loads them all, in order.
  pub load_log_data-save_log_data :
      (layout : Layout) (io : Io) (fs : Files) (bill : Bill) (id i : ℕ) (file : LogFile)
      (last : Desc) (bills : List Bill) (d : DataSet S) (s : S)
      → fs.last_log_file ≡ some id
      → lookup id fs.on_disk ≡ some file
      → fs.header.count ≡ suc i
      → suc i < single_log_file_count
      → length fs.header.logs ≡ single_log_file_count
      → get_elem? fs.header.logs i ≡ some last
      → sizeof_header ≤ last.offset + last.size
      → 0 < length bill.data_bytes
      → io.data_written ≡ true
      → io.header_written ≡ true
      → Reads file (last.offset + last.size) fs.header.count fs.header.logs bills
      → d.files.on_disk ≡ (save_log_data layout io fs bill).1.on_disk
      → Rises d.zx_id (bills ++ bill ∷ [])
      → replay c d.transactions d.state_data (bills ++ bill ∷ []) ≡ some s
      → (d' : DataSet S) × (load_log_data c d id ≡ loaded d')
        × (d'.commit_log ≡ d.commit_log ++ (bills ++ bill ∷ []))
        × (d'.state_data ≡ s)
  unfolding load_log_data has_header write_header
  load_log_data-save_log_data layout io fs bill id i file last bills d s o f e room full g behind
        wet p q h disk up r =
      let (_, written) = save_writes layout io fs bill id i file last e g wet p q in
      let step = save_log_data-step layout io fs bill id file o f (omega arith) in
      let after : LogFile = saved_file layout fs.header last bill file in
      let found : lookup id d.files.on_disk ≡ some after =
        ap (lookup id) disk
        ∙ ap (λ (x : Bool × Files). lookup id x.1.on_disk) step
        ∙ ap (lookup id) written
        ∙ lookup-insert id id after fs.on_disk
        ∙ rw (==_refl id) refl in
      let reads =
        saved_file-Reads layout fs.header last bill file bills (omega arith) behind wet h in
      let opened : DataSet S = record d {
        files = record d.files { last_log_file = some id; header = after.header };
      } in
      let (d', done, log, state) =
        load_descs-all c after (last.offset + last.size + length bill.data_bytes)
          (fs.header.count + 1) after.header.logs (bills ++ bill ∷ []) opened s
          (subst
            (λ (n : ℕ).
              Reads after (last.offset + last.size + length bill.data_bytes) n after.header.logs
                (bills ++ bill ∷ []))
            (omega arith) reads)
          up r in
      (d', rw (found, load_log_data) done, log, state)
