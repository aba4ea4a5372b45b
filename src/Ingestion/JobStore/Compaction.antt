-- ===== src/Ingestion/JobStore/Compaction.antt =====
-- `truncate_prefix` of job_store.cpp: the records before a checkpoint are rewritten to the live jobs and
-- some recent terminal ones, and those behind it are kept.
use Prim.Native.Nat.{lt, eq, gt}
use llama_rag_runtime.Base.{
  ℕ, zero, suc, ◌+◌, ◌-◌, ◌==◌, Bool, true, false, not, ◌&&◌, ltb, leb, if◌then◌else◌, Option, none,
  some, List, [], ◌∷◌, ◌++◌, length, take, drop, sort_by,
}
use llama_rag_runtime.Core.Types.{
  Bytes, Result, ok, err, fail, ascii, io_error, corrupt_index, invalid_argument,
}
use llama_rag_runtime.Core.Metadata.{compare_bytes}
use llama_rag_runtime.Core.Map.{Map, assign}
use llama_rag_runtime.Store.Frame.{header_bytes, read_header}
use llama_rag_runtime.Store.Wal.File.{Os, Written, complete, broken, cut_off, write_loop}
use llama_rag_runtime.Ingestion.Job.{terminal, IngestionJob}
use llama_rag_runtime.Ingestion.JobStore.File.{
  JobCodec, AppendOnlyJobStore, StoreOutcome, answered, died, prefix_framing, created_before,
  jobs_of, valid_prefix, encode_frame, sync_store,
}

pub record JobRetentionPolicy : Type 0 where
  pub max_terminal_jobs : ℕ
  pub max_terminal_bytes : ℕ

-- The success of the calls that make, close, rename and reopen the temporary file, and the rest.
pub record CompactOs : Type 0 where
  pub created : Bool
  pub closed : Bool
  pub renamed : Bool
  pub reopened : Bool
  pub os : Os

abbrev pub caught : Bytes
caught = ascii "job store prefix compact failed: "

module _ {P : Type 0} where
  -- The most recently updated first.
  unfoldable pub updated_after : IngestionJob P → IngestionJob P → Bool
  updated_after left right =
      if left.updated_at_ms == right.updated_at_ms
      then elim (compare_bytes left.id right.id) [ lt ↦ false | eq ↦ false | gt ↦ true ]
      else ltb right.updated_at_ms left.updated_at_ms

  unfoldable pub live_jobs : List (IngestionJob P) → List (IngestionJob P)
  live_jobs [] = []
  live_jobs (job ∷ jobs) =
      let rest = live_jobs jobs in if terminal job.status then rest else job ∷ rest

  unfoldable pub terminal_jobs : List (IngestionJob P) → List (IngestionJob P)
  terminal_jobs [] = []
  terminal_jobs (job ∷ jobs) =
      let rest = terminal_jobs jobs in if terminal job.status then job ∷ rest else rest

  abbrev pub cons_job :
      IngestionJob P → Result (List (IngestionJob P)) → Result (List (IngestionJob P))
  cons_job job (ok jobs) = ok (job ∷ jobs)
  cons_job job (err e) = err e

abbrev pub glue : Bytes → Result Bytes → Result Bytes
glue text (ok rest) = ok (text ++ rest)
glue text (err e) = err e

-- `compacted.append(tail)`.
abbrev pub with_tail : Bytes → Result Bytes → Result Bytes
with_tail tail (ok text) = ok (text ++ tail)
with_tail tail (err e) = err e

module _ {P : Type 0} (codec : JobCodec P) where
  -- The loop over the records before the checkpoint; `left` is `prefix_size - position`. A round
  -- consumes a header at least, so fuel above `left` is enough.
  unfoldable pub prefix_jobs :
      ℕ → ℕ → Map (IngestionJob P) → Bytes → Option (Result (Map (IngestionJob P)))
  prefix_jobs zero left latest blob = none
  prefix_jobs (suc fuel) left latest blob =
      if left == 0
      then some (ok latest)
      else elim (read_header (prefix_framing codec) (take header_bytes blob)) [
        | none ↦ some (fail corrupt_index (ascii "job prefix changed during compaction"))
        | some (magic, len, crc) ↦ elim (codec.decode (take len (drop header_bytes blob))) [
          | none ↦
              some
                (fail io_error (caught ++ codec.decode_error (take len (drop header_bytes blob))))
          | some job ↦
              prefix_jobs fuel (left - (header_bytes + len)) (assign job.id job latest)
                (drop len (drop header_bytes blob))
        ]
      ]

  -- The loop over the terminal jobs, with the number and the bytes of those retained so far.
  unfoldable pub retain :
      JobRetentionPolicy → ℕ → ℕ → List (IngestionJob P) → Result (List (IngestionJob P))
  retain policy jobs bytes [] = ok []
  retain policy jobs bytes (job ∷ rest) = elim (leb policy.max_terminal_jobs jobs) [
    | true ↦ ok []
    | false ↦ elim (encode_frame codec caught job) [
      | err e ↦ err e
      | ok buffer ↦ elim (ltb (policy.max_terminal_bytes - bytes) (length buffer)) [
        | true ↦ retain policy jobs bytes rest
        | false ↦ cons_job job (retain policy (jobs + 1) (bytes + length buffer) rest)
      ]
    ]
  ]

  unfoldable pub frames_of : List (IngestionJob P) → Result Bytes
  frames_of [] = ok []
  frames_of (job ∷ jobs) = elim (encode_frame codec caught job) [
    | err e ↦ err e
    | ok buffer ↦ glue buffer (frames_of jobs)
  ]

  -- The selected jobs in the order of creation, then the tail.
  unfoldable pub compact_jobs : JobRetentionPolicy → List (IngestionJob P) → Bytes → Result Bytes
  compact_jobs policy jobs tail =
      elim (retain policy 0 0 (sort_by updated_after (terminal_jobs jobs))) [
        | err e ↦ err e
        | ok kept ↦ with_tail tail (frames_of (sort_by created_before (live_jobs jobs ++ kept)))
      ]

  abbrev pub compact_or :
      JobRetentionPolicy → Bytes → Option (Result (Map (IngestionJob P))) → Option (Result Bytes)
  compact_or policy tail none = none
  compact_or policy tail (some (err e)) = some (err e)
  compact_or policy tail (some (ok latest)) = some (compact_jobs policy (jobs_of latest) tail)

  -- The text of the compacted log, whose valid prefix has `intact` bytes.
  unfoldable pub compacted : JobRetentionPolicy → ℕ → ℕ → Bytes → Option (Result Bytes)
  compacted policy intact position blob =
      compact_or policy (take (intact - position) (drop position blob))
        (prefix_jobs (suc position) position [] blob)

-- After the writes to the temporary file.
unfoldable pub finish_swap : CompactOs → AppendOnlyJobStore → Bytes → StoreOutcome
finish_swap c store text = elim (sync_store store.mode c.os) [
  | err e ↦ answered store (fail io_error (ascii "job store compact fsync failed"))
  | ok _ ↦
      if not c.closed
      then answered store (fail io_error (ascii "job store compact close failed"))
      else if not c.renamed
      then answered store
          (fail io_error (ascii "job store compact rename failed: " ++ c.os.error_text))
      else if not c.reopened
      then answered (record store { is_open = false; disk = text })
          (fail io_error (ascii "job store reopen after compact failed"))
      else answered (record store { disk = text; bytes = length text }) (ok tt)
]

abbrev pub written_swap : CompactOs → AppendOnlyJobStore → Written → StoreOutcome
written_swap c store (complete text) = finish_swap c store text
written_swap c store (broken text) =
    answered store (fail io_error (ascii "job store compact write failed: " ++ c.os.error_text))
written_swap c store (cut_off text) = died store.disk

-- The compacted log is written to a temporary file, synchronised, and renamed over the log.
unfoldable pub swap : CompactOs → AppendOnlyJobStore → Bytes → StoreOutcome
swap c store text =
    if not c.created
    then answered store (fail io_error (ascii "job store compact open failed: " ++ c.os.error_text))
    else written_swap c store (write_loop c.os.writes text [])

abbrev pub swap_or : CompactOs → AppendOnlyJobStore → Option (Result Bytes) → Option StoreOutcome
swap_or c store none = none
swap_or c store (some (err e)) = some (answered store (err e))
swap_or c store (some (ok text)) = some (swap c store text)

-- `prefix && *prefix == prefix_size`.
abbrev pub ends_at : ℕ → Result ℕ → Bool
ends_at position (ok n) = n == position
ends_at position (err e) = false

module _ {P : Type 0} (codec : JobCodec P) where
  unfoldable pub truncate_known :
      JobRetentionPolicy → ℕ → CompactOs → AppendOnlyJobStore → ℕ → Option StoreOutcome
  truncate_known policy position c store intact =
      if ltb intact position
      then some (
          answered store
            (fail invalid_argument (ascii "checkpoint position exceeds complete job log")))
      else elim (valid_prefix codec (take position store.disk)) [
        | none ↦ none
        | some prefix ↦
            if not (ends_at position prefix)
            then some (
                answered store
                  (fail invalid_argument (ascii "checkpoint position is not a job-frame boundary")))
            else if position == 0 && intact == length store.disk
            then some (answered store (ok tt))
            else swap_or c store (compacted codec policy intact position store.disk)
      ]

  unfoldable pub truncate_prefix :
      JobRetentionPolicy → ℕ → CompactOs → AppendOnlyJobStore → Option StoreOutcome
  truncate_prefix policy position c store =
      if not store.is_open
      then some (answered store (fail io_error (ascii "job store is not open")))
      else elim (valid_prefix codec store.disk) [
        | none ↦ none
        | some (err e) ↦ some (answered store (err e))
        | some (ok intact) ↦ truncate_known policy position c store intact
      ]
