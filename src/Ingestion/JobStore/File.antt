-- ===== src/Ingestion/JobStore/File.antt =====
-- `valid_prefix`, `latest_jobs`, `encode_frame` and `AppendOnlyJobStore` of job_store.cpp. The file is its
-- bytes, and the operating system answers as in Store/Wal/File.
use Prim.Native.Nat.{lt, eq, gt}
use llama_rag_runtime.Base.{
  ℕ, suc, ◌+◌, ◌==◌, Bool, true, false, not, ltb, if◌then◌else◌, Option, none, some, List, [], ◌++◌,
  map, length, take, sort_by,
}
use llama_rag_runtime.Core.Types.{
  Bytes, Error, Result, ok, err, fail, ascii, io_error, corrupt_index, invalid_argument,
}
use llama_rag_runtime.Core.Metadata.{compare_bytes}
use llama_rag_runtime.Core.Map.{Map, assign}
use llama_rag_runtime.Store.Format.{max_wal_record_bytes}
use llama_rag_runtime.Store.Frame.{Framing, frame, header_bytes, scan_loop}
use llama_rag_runtime.Store.Wal.File.{
  SyncMode, none_sync, flush, full, Os, Written, complete, broken, cut_off, write_loop,
}
use llama_rag_runtime.Ingestion.Job.{IngestionJob}

-- The JSON text of a job, as `encode` and `decode` make and read it with the JSON library. `none`
-- stands for the exception that the library throws, with its text beside it.
pub record JobCodec (P : Type 0) : Type 0 where
  pub encode : IngestionJob P → Option Bytes
  pub encode_error : IngestionJob P → Bytes
  pub decode : Bytes → Option (IngestionJob P)
  pub decode_error : Bytes → Bytes

-- The open store: descriptor, mode, `bytes_`, and the file.
pub record AppendOnlyJobStore : Type 0 where
  pub is_open : Bool
  pub mode : SyncMode
  pub bytes : ℕ
  pub disk : Bytes

-- A call returns, or the process dies in it and leaves the disk.
pub data StoreOutcome : Type 0 where
  answered : AppendOnlyJobStore → Result (Unit {0}) → StoreOutcome
  died : Bytes → StoreOutcome

abbrev pub job_magic : ℕ
job_magic = 0x52424F4A

abbrev corrupted : Bytes → Error
corrupted m = record { code = corrupt_index; message = m }

-- `SyncMode::full` falls back on `fsync`.
unfoldable pub sync_store : SyncMode → Os → Result (Unit {0})
sync_store none_sync os = ok tt
sync_store flush os = if os.fsync then ok tt else fail io_error (ascii "job store fsync failed")
sync_store full os =
    if os.full_fsync
    then ok tt
    else if os.fsync
    then ok tt
    else fail io_error (ascii "job store fsync failed")

-- After the writes.
unfoldable pub finish_persist : AppendOnlyJobStore → Bytes → Os → Written → StoreOutcome
finish_persist store buffer os (complete disk) = elim (sync_store store.mode os) [
  | ok _ ↦ answered (record store { disk = disk; bytes = store.bytes + length buffer }) (ok tt)
  | err e ↦ answered (record store { disk = disk }) (err e)
]
finish_persist store buffer os (broken disk) =
    answered (record store { disk = disk })
      (fail io_error (ascii "job store write: " ++ os.error_text))
finish_persist store buffer os (cut_off disk) = died disk

abbrev pub opened_store : SyncMode → ℕ → Bytes → AppendOnlyJobStore
opened_store mode intact disk = record { is_open = true; mode = mode; bytes = intact; disk = disk }

-- `open_file` behind `valid_prefix`: a torn tail is cut off and the cut is synchronised. The answer
-- is the file it leaves and the store, if it opens; `opened` and `truncated` are the success of
-- `::open` and `ftruncate`.
unfoldable pub repaired :
    Bytes → SyncMode → Bytes → Bool → Bool → Os → ℕ → Bytes × Result AppendOnlyJobStore
repaired path mode blob opened truncated os intact =
    if not opened
    then (blob, fail io_error (ascii "job store open " ++ (path ++ (ascii ": " ++ os.error_text))))
    else if ltb intact (length blob)
    then (if not truncated
        then (blob, fail io_error (ascii "job store tail repair failed: " ++ os.error_text))
        else elim (sync_store mode os) [
          | err e ↦ (take intact blob, err e)
          | ok _ ↦ (take intact blob, ok (opened_store mode intact (take intact blob)))
        ])
    else (blob, ok (opened_store mode intact blob))

abbrev pub repaired_or :
    Bytes
    → SyncMode
    → Bytes
    → Bool
    → Bool
    → Os
    → Option (Result ℕ)
    → Option (Bytes × Result AppendOnlyJobStore)
repaired_or path mode blob opened truncated os none = none
repaired_or path mode blob opened truncated os (some (err e)) = some (blob, err e)
repaired_or path mode blob opened truncated os (some (ok intact)) =
    some (repaired path mode blob opened truncated os intact)

module _ {P : Type 0} where
  -- `created_at_ms`, then the identifier.
  unfoldable pub created_before : IngestionJob P → IngestionJob P → Bool
  created_before left right =
      if left.created_at_ms == right.created_at_ms
      then elim (compare_bytes left.id right.id) [ lt ↦ true | eq ↦ false | gt ↦ false ]
      else ltb left.created_at_ms right.created_at_ms

  -- `latest[job.id] = job`.
  abbrev pub keep_latest : Map (IngestionJob P) → Bytes → IngestionJob P → Map (IngestionJob P)
  keep_latest latest payload job = assign job.id job latest

  abbrev pub jobs_of : Map (IngestionJob P) → List (IngestionJob P)
  jobs_of latest = map (λ (id, job). job) latest

  -- The output of a loop over all records, in the order of creation.
  abbrev pub by_creation :
      Option (Result (Map (IngestionJob P))) → Option (Result (List (IngestionJob P)))
  by_creation none = none
  by_creation (some (err e)) = some (err e)
  by_creation (some (ok latest)) = some (ok (sort_by created_before (jobs_of latest)))

module _ {P : Type 0} (codec : JobCodec P) where
  -- The reading loop of `valid_prefix`, and that of `latest_jobs`, which does not drop an undecodable
  -- last record.
  unfoldable pub prefix_framing : Framing (IngestionJob P)
  prefix_framing = record {
    magic = job_magic;
    decode = codec.decode;
    bad_magic = corrupted (ascii "job record header is invalid");
    too_large = corrupted (ascii "job record header is invalid");
    bad_crc = corrupted (ascii "job record checksum mismatch");
    undecodable = λ payload. corrupted (ascii "job record payload is invalid");
    drop_undecodable = true;
    limit_exceeded = corrupted (ascii "job record limit exceeded");
  }

  unfoldable pub latest_framing : Framing (IngestionJob P)
  unfolding prefix_framing
  latest_framing = record prefix_framing {
    undecodable = λ payload. corrupted (ascii "job replay failed: " ++ codec.decode_error payload);
    drop_undecodable = false;
  }

  -- `position = body + length`.
  abbrev pub advance : ℕ → Bytes → IngestionJob P → ℕ
  advance position payload job = position + (header_bytes + length payload)

  -- `none` stands for a loop out of fuel, which `open_total` excludes.
  unfoldable pub valid_prefix : Bytes → Option (Result ℕ)
  valid_prefix blob = scan_loop prefix_framing advance (suc (length blob)) 0 0 blob

  unfoldable pub latest_jobs : Bytes → Option (Result (List (IngestionJob P)))
  latest_jobs blob =
      by_creation (scan_loop latest_framing keep_latest (suc (length blob)) 0 [] blob)

  -- `caught` begins the message of the handler around the caller.
  unfoldable pub encode_frame : Bytes → IngestionJob P → Result Bytes
  encode_frame caught job = elim (codec.encode job) [
    | none ↦ fail io_error (caught ++ codec.encode_error job)
    | some payload ↦
        if ltb max_wal_record_bytes (length payload)
        then fail invalid_argument (ascii "job record exceeds configured limit")
        else ok (frame job_magic payload)
  ]

  unfoldable pub persist : IngestionJob P → Os → AppendOnlyJobStore → StoreOutcome
  persist job os store = elim (encode_frame (ascii "job store append failed: ") job) [
    | err e ↦ answered store (err e)
    | ok buffer ↦
        if not store.is_open
        then answered store (fail io_error (ascii "job store is not open"))
        else finish_persist store buffer os (write_loop os.writes buffer store.disk)
  ]

  unfoldable pub open_file :
      Bytes → SyncMode → Bytes → Bool → Bool → Os → Option (Bytes × Result AppendOnlyJobStore)
  open_file path mode blob opened truncated os =
      repaired_or path mode blob opened truncated os (valid_prefix blob)

  -- The administrative reading path, which never repairs the log.
  unfoldable pub load_ingestion_jobs_read_only : Bytes → Option (Result (List (IngestionJob P)))
  load_ingestion_jobs_read_only blob = latest_jobs blob

  unfoldable pub load_latest : AppendOnlyJobStore → Option (Result (List (IngestionJob P)))
  unfolding load_ingestion_jobs_read_only
  load_latest store = load_ingestion_jobs_read_only store.disk
