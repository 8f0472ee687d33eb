-- ===== src/Dataset/Files.antt =====
-- The log files of the data set: `SaveLogData`, `TruncFile` and the reads of `LoadLogData`.
pub mod Append
pub mod Truncate
use zookeeper.Prelude.{
  ℕ, zero, suc, ◌+◌, ◌-◌, ◌*◌, ◌≡◌, Bool, true, false, ◌&&◌, not, List, [], ◌∷◌, ◌++◌, Option, none,
  some, if◌then◌else◌, ltb, leb, ◌==◌, length, get_elem?, set, replicate,
}
use zookeeper.Prelude.Eq.{nat_eq}
use zookeeper.Prelude.Map.{lookup, insert}

-- `DataSet::Bill`
pub record Bill : Type 0 where
  pub zx_id : ℕ
  pub data_bytes : List ℕ

-- `LogDataFileLogDesc`
pub record Desc : Type 0 where
  pub zx_id : ℕ
  pub offset : ℕ
  pub size : ℕ

-- `LogDataFileHeader`; the list of descriptors has SINGLE_LOG_FILE_COUNT entries.
pub record Header : Type 0 where
  pub start : ℕ
  pub count : ℕ
  pub logs : List Desc

abbrev pub single_log_file_count : ℕ
single_log_file_count = 100

-- `sizeof(LogDataFileHeader)`, packed.
abbrev pub sizeof_header : ℕ
sizeof_header = 12 + single_log_file_count * 16

abbrev pub no_desc : Desc
no_desc = record { zx_id = 0; offset = 0; size = 0 }

-- What `memset(&_logFileheader, 0, sizeof(_logFileheader))` leaves.
abbrev pub no_header : Header
no_header = record { start = 0; count = 0; logs = replicate single_log_file_count no_desc }

-- A file: the header at its front as it is read back, and its bytes by offset, up to its end.
pub record LogFile : Type 0 where
  pub header : Header
  pub bytes : ℕ → Option ℕ

-- `_lastLogFile` is the id of the open file, or none for the null pointer.
pub record Files : Type 0 where
  pub last_log_file : Option ℕ
  pub header : Header
  pub on_disk : List (ℕ × LogFile)

-- Which of the two `fwrite` of a save succeed.
pub record Io : Type 0 where
  pub data_written : Bool
  pub header_written : Bool

-- `fread` of `size` bytes at an offset: it fails beyond the end, and of no bytes.
unfoldable pub read_at : (ℕ → Option ℕ) → ℕ → ℕ → Option (List ℕ)
read_at bytes offset zero = some []
read_at bytes offset (suc n) = elim (bytes offset) [
  | none ↦ none
  | some b ↦ elim (read_at bytes (offset + 1) n) [ none ↦ none | some bs ↦ some (b ∷ bs) ]
]

-- `fwrite` at an offset.
unfoldable pub write_at : (ℕ → Option ℕ) → ℕ → List ℕ → ℕ → Option ℕ
write_at bytes offset [] i = bytes i
write_at bytes offset (b ∷ bs) i = if i == offset then some b else write_at bytes (offset + 1) bs i

-- What the machine's layout gives and the source does not: the bytes of a header in a file, and the
-- value of `logs[-1].offset + logs[-1].size`, an access outside the array.
pub record Layout : Type 0 where
  pub header_byte : Header → ℕ → ℕ
  pub before_first : Header → ℕ

-- A header is written at offset 0, over whatever stands there.
unfoldable pub write_header : Layout → Header → LogFile → LogFile
write_header layout header file = record {
  header = header;
  bytes = λ i. if ltb i sizeof_header then some (layout.header_byte header i) else file.bytes i;
}

-- `if (_lastLogFile) { if (count >= SINGLE_LOG_FILE_COUNT) ... }`: a full file is closed.
unfoldable pub close_full : Files → Files
close_full fs = elim fs.last_log_file [
  | none ↦ fs
  | some id ↦
      if leb single_log_file_count fs.header.count
      then record fs { last_log_file = none; header = record fs.header { count = 0 } }
      else fs
]

-- `if (!_lastLogFile) ...`: a new file is opened with mode rb+, which asks for an existing file. The
-- flag says whether the file is open.
unfoldable pub open_new : Files → ℕ → Bool × Files
open_new fs zx_id = elim fs.last_log_file [
  | some id ↦ (true, fs)
  | none ↦
      let fresh : Files = record fs { header = record fs.header { start = zx_id; count = 0 } } in
      elim (lookup zx_id fs.on_disk) [
        | none ↦ (false, fresh)
        | some file ↦ (true, record fresh { last_log_file = some zx_id })
      ]
]

-- `logs[idx - 1].offset + logs[idx - 1].size`, with the `count == 0` test that follows `count++`.
unfoldable pub next_offset : Layout → Header → ℕ → ℕ
next_offset layout header zero = layout.before_first header
next_offset layout header (suc i) = elim (get_elem? header.logs i) [
  | none ↦ layout.before_first header
  | some desc ↦ desc.offset + desc.size
]

-- The new descriptor and the header that holds it.
unfoldable pub describe : Layout → Header → Bill → Header
describe layout header bill =
    let idx : ℕ = header.count in
    let counted : Header = record header { count = idx + 1 } in
    let desc : Desc = record {
      zx_id = bill.zx_id;
      offset = next_offset layout counted idx;
      size = length bill.data_bytes;
    } in
    record counted { logs = set header.logs idx desc }

abbrev pub set_file : ℕ → LogFile → Files → Files
set_file id file fs = record fs { on_disk = insert id file fs.on_disk }

-- The two writes, on the open file.
unfoldable pub write_bill : Layout → Io → Files → Bill → ℕ → LogFile → Bool × Files
write_bill layout io fs bill id file =
    let header : Header = describe layout fs.header bill in
    let described : Files = record fs { header = header } in
    let offset : ℕ =
      next_offset layout (record fs.header { count = fs.header.count + 1 }) fs.header.count in
    let with_data : LogFile = record file { bytes = write_at file.bytes offset bill.data_bytes } in
    if io.data_written && not (length bill.data_bytes == 0)
    then (if io.header_written
        then (true, set_file id (write_header layout header with_data) described)
        else (false, set_file id with_data described))
    else (false, described)

unfoldable pub write_open : Layout → Io → Files → Bill → Option ℕ → Bool × Files
write_open layout io fs bill none = (false, fs)
write_open layout io fs bill (some id) = elim (lookup id fs.on_disk) [
  | none ↦ (false, fs)
  | some file ↦ write_bill layout io fs bill id file
]

unfoldable pub save_opened : Layout → Io → Bill → Bool × Files → Bool × Files
save_opened layout io bill (opened, fs) =
    if opened then write_open layout io fs bill fs.last_log_file else (false, fs)

-- `SaveLogData`
unfoldable pub save_log_data : Layout → Io → Files → Bill → Bool × Files
unfolding save_opened
save_log_data layout io fs bill = save_opened layout io bill (open_new (close_full fs) bill.zx_id)

-- The loop of `TruncFile`: descriptors behind `start` lose their zxId, the others are counted.
unfoldable pub trunc_logs : ℕ → ℕ → List Desc → List Desc × ℕ
trunc_logs zero start logs = (logs, 0)
trunc_logs (suc n) start [] = ([], 0)
trunc_logs (suc n) start (desc ∷ logs) =
    let (rest, count) = trunc_logs n start logs in
    if desc.zx_id == 0
    then (desc ∷ logs, 0)
    else if ltb start desc.zx_id
    then (record desc { zx_id = 0 } ∷ rest, count)
    else (desc ∷ rest, suc count)

-- `fread` of the header: the file is long enough.
unfoldable pub has_header : LogFile → Bool
has_header file = elim (file.bytes (sizeof_header - 1)) [ none ↦ false | some b ↦ true ]

-- `TruncFile`; false is the exception.
unfoldable pub trunc_file : Layout → Bool → Files → ℕ → ℕ → Bool × Files
trunc_file layout written fs id start = elim (lookup id fs.on_disk) [
  | none ↦ (false, record fs { last_log_file = none })
  | some file ↦
      let (logs, count) = trunc_logs file.header.count start file.header.logs in
      let header : Header = record file.header { count = count; logs = logs } in
      let opened : Files = record fs { last_log_file = some id; header = header } in
      if not (has_header file)
      then (false, record fs { last_log_file = none })
      else if written
      then (true, set_file id (write_header layout header file) opened)
      else (false, opened)
]
