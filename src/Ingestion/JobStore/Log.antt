-- ===== src/Ingestion/JobStore/Log.antt =====
-- What `open_file` and `latest_jobs` of job_store.cpp make of a log of whole records, and of a tail that
-- is none.
use llama_rag_runtime.Base.{
  ℕ, suc, ◌+◌, ◌≤◌, ◌<◌, ◌≡◌, refl, inl, inr, List, [], ◌∷◌, ◌++◌, length, arith, Bool-cases, ltb,
  if◌then◌else◌, append-nil, if◌then◌else◌, Option-cases, length-append, All, Option, none, some,
  ap, ◌∙◌, true, false, take-length_append, sort_by,
}
use llama_rag_runtime.Core.Types.{Bytes, ok}
use llama_rag_runtime.Core.Map.{Map, find, assign, key_eq, find-assign}
use llama_rag_runtime.Store.Format.{max_wal_records, max_wal_record_bytes}
use llama_rag_runtime.Store.Frame.{frame}
use llama_rag_runtime.Store.Frame.Laws.{length-frame, stream, take_up_all, Stops, loop-stream}
use llama_rag_runtime.Store.Wal.File.{SyncMode, none_sync, flush, full, Os}
use llama_rag_runtime.Ingestion.Job.{IngestionJob, JobId}
use llama_rag_runtime.Ingestion.JobStore.File.{
  JobCodec, job_magic, prefix_framing, latest_framing, advance, keep_latest, jobs_of,
  created_before, by_creation, valid_prefix, latest_jobs, sync_store, repaired, open_file,
  opened_store,
}

-- The payloads of a job log with their jobs, in the order of the file.
abbrev pub History : Type 0 → Type 0
History P = List (Bytes × IngestionJob P)

unfoldable pub log_of : {P : Type 0} → History P → Bytes
log_of ps = stream job_magic ps

synced_store : (mode : SyncMode) (os : Os) → os.fsync ≡ true → sync_store mode os ≡ ok tt
unfolding sync_store
synced_store none_sync os h = refl
synced_store flush os h = ground arith
synced_store full os h = ground arith

no_tail :
    {A : Type 0} (xs ys : List A) → ltb (length xs) (length (xs ++ ys)) ≡ false → xs ++ ys ≡ xs
no_tail xs [] h = append-nil xs
no_tail xs (y ∷ ys) h = absurd (ground (arith, length-append xs (y ∷ ys)))

module _ {P : Type 0} (codec : JobCodec P) where
  -- The reader takes every record.
  abbrev pub IsReadable : History P → Type 0
  IsReadable =
      All λ (payload, job).
        (length payload ≤ max_wal_record_bytes) × (codec.decode payload ≡ some job)

  advance_all : (ps : History P) (n : ℕ) → take_up_all (advance codec) n ps ≡ n + length (log_of ps)
  unfolding take_up_all log_of stream
  advance_all [] n = omega arith
  advance_all ((payload, job) ∷ ps) n = omega (
    arith,
    advance_all ps (n + (12 + length payload)),
    length-append (frame job_magic payload) (log_of ps),
    length-frame job_magic payload,
  )

  pub length-log_of : (ps : History P) → length ps ≤ length (log_of ps)
  unfolding log_of stream
  length-log_of [] = omega arith
  length-log_of ((payload, job) ∷ ps) = omega (
    arith,
    length-append (frame job_magic payload) (log_of ps),
    length-frame job_magic payload,
    length-log_of ps,
  )

  -- The valid prefix of a log with a harmless tail ends before the tail.
  pub valid_prefix-Stops :
      (ps : History P) (tail : Bytes)
      → IsReadable ps
      → length ps < max_wal_records
      → Stops (prefix_framing codec) tail
      → valid_prefix codec (log_of ps ++ tail) ≡ some (ok (length (log_of ps)))
  unfolding valid_prefix log_of prefix_framing
  valid_prefix-Stops ps tail h room t =
      loop-stream (prefix_framing codec) (omega arith) (advance codec) ps _ 0 0 tail
        (omega (arith, length-log_of ps, length-append (stream job_magic ps) tail)) (omega arith) h
        t
      ∙ ap (λ (n : ℕ). some (ok n)) ended
    where
      ended : take_up_all (advance codec) 0 ps ≡ length (log_of ps)
      ended = omega (arith, advance_all ps 0)

  -- A log with a harmless tail is loaded to the latest record of each job, in the order of creation.
  pub latest_jobs-Stops :
      (ps : History P) (tail : Bytes)
      → IsReadable ps
      → length ps < max_wal_records
      → Stops (latest_framing codec) tail
      → latest_jobs codec (log_of ps ++ tail)
        ≡ some (ok (sort_by created_before (jobs_of (take_up_all keep_latest [] ps))))
  unfolding latest_jobs log_of latest_framing
  latest_jobs-Stops ps tail h room t = ap by_creation (
      loop-stream (latest_framing codec) (omega arith) keep_latest ps
        (suc (length (stream job_magic ps ++ tail))) 0 [] tail
        (omega (arith, length-log_of ps, length-append (stream job_magic ps) tail)) (omega arith) h
        t)

  pub latest_jobs-log_of :
      (ps : History P)
      → IsReadable ps
      → length ps < max_wal_records
      → latest_jobs codec (log_of ps)
        ≡ some (ok (sort_by created_before (jobs_of (take_up_all keep_latest [] ps))))
  latest_jobs-log_of ps h room =
      rw append-nil at (latest_jobs-Stops ps [] h room (inl (omega arith)))

  -- The opening cuts a harmless tail off.
  pub open_file-Stops :
      (ps : History P) (tail path : Bytes) (mode : SyncMode) (os : Os)
      → IsReadable ps
      → length ps < max_wal_records
      → Stops (prefix_framing codec) tail
      → os.fsync ≡ true
      → open_file codec path mode (log_of ps ++ tail) true true os
        ≡ some (log_of ps, ok (opened_store mode (length (log_of ps)) (log_of ps)))
  unfolding open_file repaired
  open_file-Stops ps tail path mode os h room t synced =
      rw (valid_prefix-Stops ps tail h room t)
        (elim (Bool-cases (ltb (length (log_of ps)) (length (log_of ps ++ tail)))) [
          | inl torn ↦
              rw (torn, synced_store mode os synced) (rw (take-length_append (log_of ps) tail) refl)
          | inr whole ↦ rw whole (
              ap (λ (d : Bytes). some (d, ok (opened_store mode (length (log_of ps)) d)))
                (no_tail (log_of ps) tail whole))
        ])

module _ {P : Type 0} where
  abbrev pub or_else : Option (IngestionJob P) → Option (IngestionJob P) → Option (IngestionJob P)
  or_else none old = old
  or_else (some new) old = some new

  -- The last record of a job in a log.
  abbrev pub newest : JobId → History P → Option (IngestionJob P)
  newest id [] = none
  newest id ((payload, job) ∷ ps) =
      or_else (newest id ps) (if key_eq job.id id then some job else none)

  pub keep_latest-newest :
      (id : JobId) (ps : History P) (m : Map (IngestionJob P))
      → find id (take_up_all keep_latest m ps) ≡ or_else (newest id ps) (find id m)
  unfolding take_up_all
  keep_latest-newest id [] m = refl
  keep_latest-newest id ((payload, job) ∷ ps) m =
      keep_latest-newest id ps (assign job.id job m) ∙ elim (Option-cases (newest id ps)) [
        | inl missing ↦ rw missing (ground (arith, find-assign job.id id job m))
        | inr (j, there) ↦ rw there refl
      ]
