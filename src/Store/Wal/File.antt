-- ===== src/Store/Wal/File.antt =====
-- The log as a file: `open`, `close`, `append`, `replay` and `truncate` of wal.cpp.
use llama_rag_runtime.Base.{
  ℕ, suc, ◌+◌, Bool, true, false, not, ltb, if◌then◌else◌, Option, none, some, List, [], ◌∷◌, ◌++◌,
  length, take, drop,
}
use llama_rag_runtime.Core.Types.{
  Bytes, ascii, Error, Result, ok, err, fail, io_error, invalid_argument, corrupt_index,
}
use llama_rag_runtime.Store.Format.{max_wal_record_bytes}
use llama_rag_runtime.Store.Frame.{Framing, frame, scan_loop}
use llama_rag_runtime.Store.Wal.Codec.{WalRecord, encode, decode}

pub data SyncMode : Type 0 where
  none_sync flush full : SyncMode

-- `is_open` is `fd_ >= 0`; `disk` is the file's content.
pub record Wal : Type 0 where
  pub is_open : Bool
  pub mode : SyncMode
  pub size_bytes : ℕ
  pub disk : Bytes

-- The answer of one `write` call: the bytes taken, EINTR, or another error.
pub data WriteOutcome : Type 0 where
  wrote : ℕ → WriteOutcome
  interrupted failed : WriteOutcome

-- The answers to one operation: of its `write` calls in turn (after the last the process is dead),
-- `strerror`, and whether `fsync` and `fcntl(F_FULLFSYNC)` (where there is such a call) succeed.
pub record Os : Type 0 where
  pub writes : List WriteOutcome
  pub error_text : Bytes
  pub fsync : Bool
  pub full_fsync : Bool

-- An operation returns, or the process dies in it and leaves the disk.
pub data Outcome : Type 0 where
  returned : Wal → Result (Unit {0}) → Outcome
  crashed : Bytes → Outcome

pub data Written : Type 0 where
  complete broken cut_off : Bytes → Written

-- `while (off < frame.size()) ::write(...)`: what is left of the frame, and the disk.
unfoldable pub write_loop : List WriteOutcome → Bytes → Bytes → Written
write_loop os [] disk = complete disk
write_loop [] (b ∷ bs) disk = cut_off disk
write_loop (wrote n ∷ os) (b ∷ bs) disk = write_loop os (drop n (b ∷ bs)) (disk ++ take n (b ∷ bs))
write_loop (interrupted ∷ os) (b ∷ bs) disk = write_loop os (b ∷ bs) disk
write_loop (failed ∷ os) (b ∷ bs) disk = broken disk

unfoldable pub sync_now : SyncMode → Os → Result (Unit {0})
sync_now none_sync os = ok tt
sync_now flush os = if os.fsync then ok tt else fail io_error (ascii "wal fsync")
sync_now full os =
    if os.full_fsync then ok tt else if os.fsync then ok tt else fail io_error (ascii "wal fsync")

abbrev pub record_magic : ℕ
record_magic = 0x524C4157

-- After the writes: a failed sync is reported, and the bytes are counted only behind it.
unfoldable pub finish_append : Wal → Bytes → Os → Written → Outcome
finish_append wal buffer os (complete disk) = elim (sync_now wal.mode os) [
  | ok _ ↦
      returned (record wal { disk = disk; size_bytes = wal.size_bytes + length buffer }) (ok tt)
  | err e ↦ returned (record wal { disk = disk }) (err e)
]
finish_append wal buffer os (broken disk) =
    returned (record wal { disk = disk }) (fail io_error (ascii "wal write: " ++ os.error_text))
finish_append wal buffer os (cut_off disk) = crashed disk

unfoldable pub append : WalRecord → Os → Wal → Outcome
append rec os wal =
    if not wal.is_open
    then returned wal (fail io_error (ascii "wal not open"))
    else if ltb max_wal_record_bytes (length (encode rec))
    then returned wal (fail invalid_argument (ascii "wal record exceeds configured limit"))
    else let buffer = frame record_magic (encode rec) in
      finish_append wal buffer os (write_loop os.writes buffer wal.disk)

abbrev corrupted : Bytes → Error
corrupted m = record { code = corrupt_index; message = m }

unfoldable pub wal_framing : Framing WalRecord
wal_framing = record {
  magic = record_magic;
  decode = decode;
  bad_magic = corrupted (ascii "wal: bad record magic");
  too_large = corrupted (ascii "wal: record too large");
  bad_crc = corrupted (ascii "wal: record crc mismatch");
  undecodable = λ payload. corrupted (ascii "wal: undecodable record");
  drop_undecodable = true;
  limit_exceeded = corrupted (ascii "wal: record limit exceeded");
}

-- `out.push_back(rec)`.
abbrev pub push_record : List WalRecord → Bytes → WalRecord → List WalRecord
push_record out payload rec = out ++ rec ∷ []

-- An absent file is an empty log. `none` stands for a loop out of fuel, which `replay_total` excludes.
unfoldable pub replay : Option Bytes → Option (Result (List WalRecord))
unfolding wal_framing
replay none = some (ok [])
replay (some blob) = scan_loop wal_framing push_record (suc (length blob)) 0 [] blob

unfoldable pub close : Wal → Wal
close wal = record wal { is_open = false; size_bytes = 0 }

-- `file` is the file's content if `::open` succeeded (an absent file is created empty), or
-- `strerror`.
pub data Opened : Type 0 where
  opened : Bytes → Opened
  refused : Bytes → Opened

unfoldable pub open_log : Opened → Bytes → SyncMode → Wal → Wal × Result (Unit {0})
open_log (refused why) path mode wal =
    (close wal, fail io_error (ascii "wal open " ++ (path ++ (ascii ": " ++ why))))
open_log (opened file) path mode wal =
    (record { is_open = true; mode = mode; size_bytes = length file; disk = file }, ok tt)

-- `ftruncate`'s success is the first argument.
unfoldable pub truncate : Bool → Os → Wal → Wal × Result (Unit {0})
truncate done os wal =
    if not wal.is_open
    then (wal, fail io_error (ascii "wal not open"))
    else if not done
    then (wal, fail io_error (ascii "wal truncate: " ++ os.error_text))
    else elim (sync_now wal.mode os) [
      | ok _ ↦ (record wal { disk = []; size_bytes = 0 }, ok tt)
      | err e ↦ (record wal { disk = [] }, err e)
    ]
