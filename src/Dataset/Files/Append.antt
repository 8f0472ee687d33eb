-- ===== src/Dataset/Files/Append.antt =====
-- The reads of a log file around the writes of `SaveLogData`.
use zookeeper.Prelude.{
  ℕ, zero, suc, ◌+◌, ◌≤◌, ◌<◌, ◌≡◌, refl, ap, ◌∙◌, true, false, List, [], ◌∷◌, Option, none, some,
  arith, ◌==◌, length, get_elem?, set,
}
use zookeeper.Prelude.Eq.{nat_eq}
use zookeeper.Prelude.Map.{lookup, insert}
use zookeeper.Dataset.Files.{
  Bill, Desc, Header, LogFile, Files, Io, Layout, single_log_file_count, sizeof_header, read_at,
  write_at, write_header, close_full, open_new, next_offset, describe, save_opened, write_bill,
  write_open, save_log_data,
}

read_at-cong :
    (f g : ℕ → Option ℕ) (offset n : ℕ)
    → ((i : ℕ) → offset ≤ i → i < offset + n → f i ≡ g i)
    → read_at f offset n ≡ read_at g offset n
unfolding read_at
read_at-cong f g offset zero h = refl
read_at-cong f g offset (suc n) h = ground (
  arith,
  h offset (omega arith) (omega arith),
  read_at-cong f g (offset + 1) n (λ i p q. h i (omega arith) (omega arith)),
)

write_at-before :
    (bytes : ℕ → Option ℕ) (offset : ℕ) (data_bytes : List ℕ) (i : ℕ)
    → i < offset
    → write_at bytes offset data_bytes i ≡ bytes i
unfolding write_at
write_at-before bytes offset [] i h = refl
write_at-before bytes offset (b ∷ bs) i h = ground (arith, write_at-before bytes (offset + 1) bs i)

-- What is written is read.
pub read_at-write_at :
    (bytes : ℕ → Option ℕ) (offset : ℕ) (data_bytes : List ℕ)
    → read_at (write_at bytes offset data_bytes) offset (length data_bytes) ≡ some data_bytes
unfolding read_at write_at
read_at-write_at bytes offset [] = refl
read_at-write_at bytes offset (b ∷ bs) = ground (
  arith,
  read_at-cong (write_at bytes offset (b ∷ bs)) (write_at bytes (offset + 1) bs) (offset + 1)
      (length bs) (λ i p q. ground arith),
  read_at-write_at bytes (offset + 1) bs,
)

-- Behind the header a write of it changes nothing.
pub read_at-write_header :
    (layout : Layout) (header : Header) (file : LogFile) (offset n : ℕ)
    → sizeof_header ≤ offset
    → read_at (write_header layout header file).bytes offset n ≡ read_at file.bytes offset n
unfolding write_header
read_at-write_header layout header file offset n h =
    read_at-cong (write_header layout header file).bytes file.bytes offset n (λ i p q. ground arith)

-- The bill of a descriptor, as `LoadLogData` reads it.
abbrev pub read_desc : LogFile → Desc → Option (List ℕ)
read_desc file desc = read_at file.bytes desc.offset desc.size

pub read_at-write_before :
    (bytes : ℕ → Option ℕ) (offset n at : ℕ) (data_bytes : List ℕ)
    → offset + n ≤ at
    → read_at (write_at bytes at data_bytes) offset n ≡ read_at bytes offset n
read_at-write_before bytes offset n at data_bytes h =
    read_at-cong (write_at bytes at data_bytes) bytes offset n
      (λ i p q. write_at-before bytes at data_bytes i (omega arith))

-- What a save behind the bill of `last` leaves on the disk.
abbrev pub saved_file : Layout → Header → Desc → Bill → LogFile → LogFile
saved_file layout header last bill file =
    write_header layout
      (record header {
        count = header.count + 1;
        logs = set header.logs header.count (record {
          zx_id = bill.zx_id;
          offset = last.offset + last.size;
          size = length bill.data_bytes;
        });
      })
      (record file { bytes = write_at file.bytes (last.offset + last.size) bill.data_bytes })

save_opens :
    (fs : Files) (zx_id id : ℕ)
    → fs.last_log_file ≡ some id
    → fs.header.count < single_log_file_count
    → open_new (close_full fs) zx_id ≡ (true, fs)
unfolding open_new close_full
save_opens fs zx_id id o h = ground arith

next_offset_behind :
    (layout : Layout) (counted header : Header) (i : ℕ) (last : Desc)
    → header.count ≡ suc i
    → get_elem? counted.logs i ≡ some last
    → next_offset layout counted header.count ≡ last.offset + last.size
unfolding next_offset
next_offset_behind layout counted header i last e g = rw (e, g, next_offset) refl

pub save_writes :
    (layout : Layout) (io : Io) (fs : Files) (bill : Bill) (id i : ℕ) (file : LogFile) (last : Desc)
    → fs.header.count ≡ suc i
    → get_elem? fs.header.logs i ≡ some last
    → 0 < length bill.data_bytes
    → io.data_written ≡ true
    → io.header_written ≡ true
    → ((write_bill layout io fs bill id file).0 ≡ true)
      × ((write_bill layout io fs bill id file).1.on_disk
          ≡ insert id (saved_file layout fs.header last bill file) fs.on_disk)
unfolding write_bill describe
save_writes layout io fs bill id i file last e g n p q =
    let counted : Header = record fs.header { count = fs.header.count + 1 } in
    let at = next_offset_behind layout counted fs.header i last e g in
    let wet : length bill.data_bytes == 0 ≡ false = ground arith in
    (rw (p, q, wet, write_bill) refl, rw (p, q, wet, at, write_bill, describe) refl)

pub save_log_data-step :
    (layout : Layout) (io : Io) (fs : Files) (bill : Bill) (id : ℕ) (file : LogFile)
    → fs.last_log_file ≡ some id
    → lookup id fs.on_disk ≡ some file
    → fs.header.count < single_log_file_count
    → save_log_data layout io fs bill ≡ write_bill layout io fs bill id file
unfolding save_log_data write_open
save_log_data-step layout io fs bill id file o f room =
    ap (save_opened layout io bill) (save_opens fs bill.zx_id id o room)
    ∙ ap (write_open layout io fs bill) o
    ∙ rw (f, write_open) refl

-- No save ever creates a file: with none open, and none on the disk under the id of the bill, it fails
-- and writes nothing.
pub save_log_data-creates_none :
    (layout : Layout) (io : Io) (fs : Files) (bill : Bill)
    → fs.last_log_file ≡ none
    → lookup bill.zx_id fs.on_disk ≡ none
    → ((save_log_data layout io fs bill).0 ≡ false)
      × ((save_log_data layout io fs bill).1.on_disk ≡ fs.on_disk)
unfolding save_log_data open_new close_full
save_log_data-creates_none layout io fs bill o f = ground arith
