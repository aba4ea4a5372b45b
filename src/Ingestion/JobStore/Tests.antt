-- ===== src/Ingestion/JobStore/Tests.antt =====
-- The theorems on the job log at a concrete codec: a job's text is its identifier.
use llama_rag_runtime.Ingestion.JobStore.Selection.{Has}
use llama_rag_runtime.Ingestion.JobStore.Loading.{
  IsLoaded, latest_jobs-IsLoaded, persist_acknowledged,
}
use llama_rag_runtime.Ingestion.JobStore.Rewriting.{IsEncoded}
use llama_rag_runtime.Base.{
  List, ◌+◌, ◌≡◌, refl, true, none, some, [], ◌∷◌, ◌++◌, ◌⊎◌, arith, length, take, sort_by,
}
use llama_rag_runtime.Core.Types.{Result, Bytes, ascii, ok, Error, io_error}
use llama_rag_runtime.Store.Crc.{crc32}
use llama_rag_runtime.Store.Format.{write_u}
use llama_rag_runtime.Store.Frame.{frame}
use llama_rag_runtime.Store.Frame.Laws.{stream}
use llama_rag_runtime.Store.Wal.File.{flush, Os, wrote, failed, interrupted, write_loop}
use llama_rag_runtime.Ingestion.Job.{JobId, upsert, queued, IngestionJob}
use llama_rag_runtime.Ingestion.JobStore.File.{
  JobCodec, AppendOnlyJobStore, answered, job_magic, encode_frame, finish_persist, persist,
  sync_store, open_file, load_latest, latest_jobs, created_before, opened_store,
}
use llama_rag_runtime.Ingestion.JobStore.Log.{History, log_of}
use llama_rag_runtime.Base.Sort.{insert_by}
use llama_rag_runtime.Core.Map.{assign, key_eq}
use llama_rag_runtime.Store.Frame.{
  scan_loop, scan, scan_header, scan_body, scan_payload, scan_decoded, read_header,
}
use llama_rag_runtime.Store.Format.{read_u}
use llama_rag_runtime.Ingestion.Job.{terminal}
use llama_rag_runtime.Ingestion.JobStore.File.{valid_prefix, prefix_framing, StoreOutcome}
use llama_rag_runtime.Ingestion.JobStore.Compaction.{
  JobRetentionPolicy, CompactOs, truncate_prefix, truncate_known, compacted, prefix_jobs,
  compact_jobs, retain, frames_of, swap, finish_swap, live_jobs, terminal_jobs, updated_after,
}
use llama_rag_runtime.Ingestion.JobStore.Retention.{Keeps, truncate_prefix-Keeps}
use llama_rag_runtime.Ingestion.JobStore.Totality.{open_total}
use llama_rag_runtime.Ingestion.JobStore.Broken.{persist_after_failure_lost}
use llama_rag_runtime.Ingestion.JobStore.Durability.{IsStorable, persist_repaired, disk_left}

abbrev job_named : JobId → IngestionJob Bytes
job_named id = record {
  id = id;
  operation = upsert;
  input = record { document = ascii "d"; title = []; content = []; metadata = [] };
  revision = 1;
  content_hash = [];
  status = queued;
  created_at_ms = 1;
  updated_at_ms = 1;
  error = none;
  prepared = none;
  mutation_applied = none;
}

abbrev names : JobCodec Bytes
names = record {
  encode = λ job. some job.id;
  encode_error = λ job. [];
  decode = λ payload. some (job_named payload);
  decode_error = λ payload. [];
}

abbrev first_history : History Bytes
first_history = (97 ∷ [], job_named (97 ∷ [])) ∷ []

abbrev first_store : AppendOnlyJobStore
first_store = opened_store flush (length (log_of first_history)) (log_of first_history)

abbrev second_store : AppendOnlyJobStore
second_store = record first_store {
  disk = first_store.disk ++ frame job_magic (98 ∷ []);
  bytes = first_store.bytes + length (frame job_magic (98 ∷ []));
}

abbrev slow : Os
slow = record {
  writes = wrote 5 ∷ interrupted ∷ wrote 1000 ∷ [];
  error_text = [];
  fsync = true;
  full_fsync = true;
}

abbrev dying : Os
dying = record slow { writes = wrote 5 ∷ [] }

second-IsStorable : IsStorable names (job_named (98 ∷ [])) (98 ∷ [])
second-IsStorable = record { encoded = refl; decoded = refl; small = omega arith }

slow_persist : persist names (job_named (98 ∷ [])) slow first_store ≡ answered second_store (ok tt)
unfolding persist encode_frame finish_persist sync_store write_loop log_of stream frame write_u
    crc32
slow_persist = refl

persist_acknowledged_example :
    (second_store.disk ≡ log_of (first_history ++ (98 ∷ [], job_named (98 ∷ [])) ∷ []))
    × (out : List (IngestionJob Bytes)) × (load_latest names second_store ≡ some (ok out))
    × IsLoaded (first_history ++ (98 ∷ [], job_named (98 ∷ [])) ∷ []) out
    × Has (job_named (98 ∷ [])) out
persist_acknowledged_example =
    persist_acknowledged names first_store second_store first_history (job_named (98 ∷ []))
      (98 ∷ []) slow refl ((omega arith, refl), tt) second-IsStorable (omega arith) slow_persist

persist_repaired_example :
    (qs : History Bytes) × ((qs ≡ first_history)
      ⊎ (qs ≡ first_history ++ (98 ∷ [], job_named (98 ∷ [])) ∷ []))
    × (open_file names
          (ascii "jobs")
          flush
          (disk_left (persist names (job_named (98 ∷ [])) dying first_store))
          true
          true
          slow
        ≡ some (log_of qs, ok (opened_store flush (length (log_of qs)) (log_of qs))))
persist_repaired_example =
    persist_repaired names first_store first_history (job_named (98 ∷ [])) (98 ∷ []) (ascii "jobs")
      dying slow flush refl ((omega arith, refl), tt) second-IsStorable (omega arith) refl

-- A write call takes the header of a long record and nothing else, and then the disk is full.
abbrev long_name : JobId
long_name = ascii "a name of some length"

abbrev full_disk : Os
full_disk = record slow { writes = wrote 12 ∷ failed ∷ [] }

abbrev broken_store : AppendOnlyJobStore
broken_store = record first_store { disk = first_store.disk ++ take 12 (frame job_magic long_name) }

abbrev later_store : AppendOnlyJobStore
later_store = record broken_store {
  disk = broken_store.disk ++ frame job_magic (98 ∷ []);
  bytes = broken_store.bytes + length (frame job_magic (98 ∷ []));
}

abbrev broken_error : Error
broken_error = record { code = io_error; message = ascii "job store write: " }

persist_after_failure_lost_example : load_latest names later_store ≡ load_latest names first_store
unfolding persist encode_frame finish_persist sync_store write_loop log_of stream frame write_u
    crc32 ascii
persist_after_failure_lost_example =
    persist_after_failure_lost names first_store broken_store later_store first_history
      (job_named long_name) (job_named (98 ∷ [])) long_name (98 ∷ []) 12 full_disk slow broken_error
      refl ((omega arith, refl), tt) (omega arith)
      (record { encoded = refl; decoded = refl; small = omega arith }) second-IsStorable refl refl
      (omega arith) (omega arith) refl refl

-- Two records of one job before the checkpoint, one of another behind it.
abbrev twice : History Bytes
twice = (97 ∷ [], job_named (97 ∷ [])) ∷ (97 ∷ [], job_named (97 ∷ [])) ∷ []

abbrev behind : History Bytes
behind = (98 ∷ [], job_named (98 ∷ [])) ∷ []

abbrev long_store : AppendOnlyJobStore
long_store = opened_store flush (length (log_of (twice ++ behind))) (log_of (twice ++ behind))

abbrev short_store : AppendOnlyJobStore
short_store =
    opened_store flush (length (log_of (first_history ++ behind)))
      (log_of (first_history ++ behind))

abbrev all_well : CompactOs
all_well = record { created = true; closed = true; renamed = true; reopened = true; os = slow }

abbrev few_jobs : JobRetentionPolicy
few_jobs = record { max_terminal_jobs = 2; max_terminal_bytes = 100 }

compaction_run :
    truncate_prefix names few_jobs (length (log_of twice)) all_well long_store
    ≡ some (answered short_store (ok tt))
unfolding truncate_prefix truncate_known valid_prefix compacted prefix_jobs compact_jobs retain
    frames_of swap finish_swap live_jobs terminal_jobs sort_by insert_by scan_loop scan scan_header
    scan_body scan_payload scan_decoded read_header read_u prefix_framing assign key_eq encode_frame
    sync_store write_loop log_of stream frame write_u crc32 terminal created_before updated_after
compaction_run = refl

truncate_prefix-Keeps_example :
    (rs : History Bytes) × (short_store.disk ≡ log_of (rs ++ behind))
    × (short_store.bytes ≡ length short_store.disk)
    × Keeps twice rs
    × IsEncoded names rs
truncate_prefix-Keeps_example =
    truncate_prefix-Keeps names few_jobs twice behind all_well long_store short_store refl refl
      ((omega arith, refl), ((omega arith, refl), ((omega arith, refl), tt))) (omega arith)
      compaction_run

latest_jobs-IsLoaded_example :
    (out : List (IngestionJob Bytes)) × (latest_jobs names (log_of (twice ++ behind))
      ≡ some (ok out))
    × IsLoaded (twice ++ behind) out
latest_jobs-IsLoaded_example =
    latest_jobs-IsLoaded names (twice ++ behind)
      ((omega arith, refl), ((omega arith, refl), ((omega arith, refl), tt))) (omega arith)

-- A file that is no job log.
open_total_example :
    ((r : Bytes × Result AppendOnlyJobStore) × (open_file names
          (ascii "jobs")
          flush
          (ascii "no log, but long enough")
          true
          true
          slow
        ≡ some r))
    × ((jobs : Result (List (IngestionJob Bytes))) × (load_latest names long_store ≡ some jobs))
    × ((o : StoreOutcome) × (truncate_prefix names few_jobs 7 all_well long_store ≡ some o))
open_total_example =
    open_total names (ascii "jobs") flush (ascii "no log, but long enough") true true slow few_jobs
      7 all_well long_store
