-- ===== src/Ingestion/JobStore/Broken.antt =====
-- Where the promise of the job log ends (job_store.cpp): a write that fails half way leaves its bytes in
-- the open log, and the next record stands behind them.
use llama_rag_runtime.Base.{
  ℕ, ◌+◌, ◌≤◌, ◌<◌, ◌≡◌, refl, inr, [], ◌∷◌, ◌++◌, length, take, drop, arith, append_assoc,
  length-drop, subst, ◌∙◌, sym, true,
}
use llama_rag_runtime.Core.Types.{Bytes, Error, ok, err}
use llama_rag_runtime.Store.Format.{max_wal_records, max_wal_record_bytes}
use llama_rag_runtime.Store.Frame.{frame}
use llama_rag_runtime.Store.Frame.Laws.{Stops, scan-torn}
use llama_rag_runtime.Store.Wal.File.{Os, wrote, failed, broken, write_loop}
use llama_rag_runtime.Ingestion.Job.{IngestionJob}
use llama_rag_runtime.Ingestion.JobStore.File.{
  JobCodec, AppendOnlyJobStore, answered, job_magic, latest_framing, finish_persist, persist,
  load_latest,
}
use llama_rag_runtime.Ingestion.JobStore.Log.{
  History, log_of, IsReadable, latest_jobs-log_of, latest_jobs-Stops,
}
use llama_rag_runtime.Ingestion.JobStore.Durability.{
  IsStorable, Persisted, persist-Persisted, persist_framed,
}

write_loop_fails :
    (buffer disk : Bytes) → 0 < length buffer → write_loop (failed ∷ []) buffer disk ≡ broken disk
unfolding write_loop
write_loop_fails [] disk h = absurd (omega arith)
write_loop_fails (b ∷ bs) disk h = refl

write_loop_breaks :
    (n : ℕ) (buffer disk : Bytes)
    → n < length buffer
    → write_loop (wrote n ∷ failed ∷ []) buffer disk ≡ broken (disk ++ take n buffer)
unfolding write_loop
write_loop_breaks n [] disk h = absurd (omega arith)
write_loop_breaks n (b ∷ bs) disk h =
    write_loop_fails (drop n (b ∷ bs)) _ (omega (arith, length-drop n (b ∷ bs)))

module _ {P : Type 0} (codec : JobCodec P) where
  broken_disk :
      (store s : AppendOnlyJobStore) (torn : IngestionJob P) (p : Bytes) (n : ℕ) (os : Os)
      (e : Error)
      → IsStorable codec torn p
      → store.is_open ≡ true
      → os.writes ≡ wrote n ∷ failed ∷ []
      → n < length (frame job_magic p)
      → persist codec torn os store ≡ answered s (err e)
      → s.disk ≡ store.disk ++ take n (frame job_magic p)
  unfolding finish_persist
  broken_disk store s torn p n os e v live answers less done = ground (
    arith,
    done,
    persist_framed codec store torn p os v,
    live,
    answers,
    write_loop_breaks n (frame job_magic p) store.disk less,
  )

  torn-Stops :
      (p extra : Bytes) (n : ℕ)
      → length p ≤ max_wal_record_bytes
      → 12 ≤ n
      → n + length extra < length (frame job_magic p)
      → Stops (latest_framing codec) (take n (frame job_magic p) ++ extra)
  unfolding latest_framing
  torn-Stops p extra n small low high =
      inr (scan-torn (latest_framing codec) (omega arith) p n extra small low high)

  -- A write that takes 12 bytes of a record or more and then fails leaves them in the log. The next call
  -- reports success; if its frame is shorter than what the broken record lacks, the log is loaded
  -- without it, as before both.
  pub persist_after_failure_lost :
      (store s t : AppendOnlyJobStore) (ps : History P) (torn job : IngestionJob P) (p q : Bytes)
      (n : ℕ) (os later : Os) (e : Error)
      → store.disk ≡ log_of ps
      → IsReadable codec ps
      → length ps < max_wal_records
      → IsStorable codec torn p
      → IsStorable codec job q
      → store.is_open ≡ true
      → os.writes ≡ wrote n ∷ failed ∷ []
      → 12 ≤ n
      → n + length (frame job_magic q) < length (frame job_magic p)
      → persist codec torn os store ≡ answered s (err e)
      → persist codec job later s ≡ answered t (ok tt)
      → load_latest codec t ≡ load_latest codec store
  unfolding load_latest
  persist_after_failure_lost store s t ps torn job p q n os later e h r room v w live answers low
        high broke done =
      rw
        (
          second.0,
          first,
          h,
          append_assoc (log_of ps) (take n (frame job_magic p)) (frame job_magic q),
        )
        (latest_jobs-Stops codec ps _ r room (torn-Stops p (frame job_magic q) n v.small low high)
          ∙ sym (latest_jobs-log_of codec ps r room))
    where
      first : s.disk ≡ store.disk ++ take n (frame job_magic p)
      first = broken_disk store s torn p n os e v live answers (omega arith) broke

      second : Persisted s (frame job_magic q) (answered t (ok tt))
      second =
          subst (Persisted s (frame job_magic q)) done (persist-Persisted codec s job q later w)
