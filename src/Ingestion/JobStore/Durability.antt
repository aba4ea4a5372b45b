-- ===== src/Ingestion/JobStore/Durability.antt =====
-- What the job log of job_store.cpp promises across crashes: opening it cuts off what a crash left of a
-- record, so that a record persisted later is read back.
use llama_rag_runtime.Base.{
  ℕ, ◌+◌, ◌≤◌, ◌<◌, ◌≡◌, refl, ◌⊎◌, inl, inr, [], ◌∷◌, ◌++◌, length, take, arith, Bool-cases, not,
  if◌then◌else◌, append-nil, length-append, take_all, All-append, dec_lt, subst, some, ap, ◌∙◌, sym,
  true,
}
use llama_rag_runtime.Core.Types.{Bytes, Result, ok, err, fail, io_error, ascii}
use llama_rag_runtime.Store.Format.{max_wal_records, max_wal_record_bytes}
use llama_rag_runtime.Store.Frame.{frame}
use llama_rag_runtime.Store.Frame.Laws.{stream, stream-append, Stops-take-frame}
use llama_rag_runtime.Store.Wal.File.{SyncMode, Os, Written, complete, broken, cut_off, write_loop}
use llama_rag_runtime.Store.Wal.Append.{Wrote, write_loop-Wrote}
use llama_rag_runtime.Ingestion.Job.{IngestionJob}
use llama_rag_runtime.Ingestion.JobStore.File.{
  JobCodec, AppendOnlyJobStore, StoreOutcome, answered, died, job_magic, prefix_framing,
  encode_frame, finish_persist, persist, sync_store, open_file, opened_store,
}
use llama_rag_runtime.Ingestion.JobStore.Log.{History, log_of, IsReadable, open_file-Stops}

-- The disk that a call leaves, however it ends.
abbrev pub disk_left : StoreOutcome → Bytes
disk_left (answered s r) = s.disk
disk_left (died d) = d

-- The disk and the count of a call that writes this buffer.
abbrev pub Persisted : AppendOnlyJobStore → Bytes → StoreOutcome → Type 0
Persisted store buffer (answered s (ok _)) =
    (s.disk ≡ store.disk ++ buffer) × (s.bytes ≡ store.bytes + length buffer)
Persisted store buffer (answered s (err e)) =
    ((n : ℕ) × (n ≤ length buffer) × (s.disk ≡ store.disk ++ take n buffer))
    × (s.bytes ≡ store.bytes)
Persisted store buffer (died d) = (n : ℕ) × (n < length buffer) × (d ≡ store.disk ++ take n buffer)

finish_persist-Persisted :
    (store : AppendOnlyJobStore) (buffer : Bytes) (os : Os) (w : Written)
    → Wrote store.disk buffer w
    → Persisted store buffer (finish_persist store buffer os w)
unfolding finish_persist
finish_persist-Persisted store buffer os (complete d) e = go (sync_store store.mode os)
  where
    go :
        (r : Result (Unit {0}))
        → Persisted store buffer (elim r [
          | ok _ ↦ answered (record store { disk = d; bytes = store.bytes + length buffer }) (ok tt)
          | err why ↦ answered (record store { disk = d }) (err why)
        ])
    go (ok _) = (e, refl)
    go (err why) =
        ((length buffer, omega arith, rw (take_all (length buffer) buffer (omega arith)) e), refl)
finish_persist-Persisted store buffer os (broken d) (n, less, e) = ((n, omega arith, e), refl)
finish_persist-Persisted store buffer os (cut_off d) h = h

module _ {P : Type 0} (codec : JobCodec P) where
  -- The record of a job, which is small enough and is read back.
  pub record IsStorable (job : IngestionJob P) (payload : Bytes) : Type 0 where
    pub encoded : codec.encode job ≡ some payload
    pub decoded : codec.decode payload ≡ some job
    pub small : length payload ≤ max_wal_record_bytes

  framed :
      (caught : Bytes) (job : IngestionJob P) (payload : Bytes)
      → IsStorable job payload
      → encode_frame codec caught job ≡ ok (frame job_magic payload)
  unfolding encode_frame
  framed caught job payload v = rw (v.encoded, encode_frame) (ground (arith, v.small))

  pub persist_framed :
      (store : AppendOnlyJobStore) (job : IngestionJob P) (payload : Bytes) (os : Os)
      → IsStorable job payload
      → persist codec job os store ≡ (
          if not store.is_open
          then answered store (fail io_error (ascii "job store is not open"))
          else finish_persist store
              (frame job_magic payload)
              os
              (write_loop os.writes (frame job_magic payload) store.disk))
  unfolding persist
  persist_framed store job payload os v =
      rw (framed (ascii "job store append failed: ") job payload v, persist) refl

  pub persist-Persisted :
      (store : AppendOnlyJobStore) (job : IngestionJob P) (payload : Bytes) (os : Os)
      → IsStorable job payload
      → Persisted store (frame job_magic payload) (persist codec job os store)
  persist-Persisted store job payload os v =
      subst (Persisted store (frame job_magic payload))
        (sym (persist_framed store job payload os v))
        (elim (Bool-cases store.is_open) [
          | inl live ↦ simp live (
              finish_persist-Persisted store (frame job_magic payload) os _
                (write_loop-Wrote os.writes (frame job_magic payload) store.disk))
          | inr shut ↦ simp shut ((0, omega arith, rw append-nil refl), refl)
        ])

  log_of-snoc :
      (ps : History P) (payload : Bytes) (job : IngestionJob P)
      → log_of (ps ++ (payload, job) ∷ []) ≡ log_of ps ++ frame job_magic payload
  unfolding log_of stream
  log_of-snoc ps payload job = rw (stream-append job_magic ps ((payload, job) ∷ []), append-nil)

  pub IsReadable-snoc :
      (ps : History P) (job : IngestionJob P) (payload : Bytes)
      → IsReadable codec ps
      → IsStorable job payload
      → IsReadable codec (ps ++ (payload, job) ∷ [])
  IsReadable-snoc ps job payload h v =
      All-append (λ (q, j). (length q ≤ max_wal_record_bytes) × (codec.decode q ≡ some j)) ps
        ((payload, job) ∷ []) h ((v.small, v.decoded), tt)

  -- A call that reports success has its record on the disk behind the records that were there.
  pub persist-log_of :
      (store s : AppendOnlyJobStore) (ps : History P) (job : IngestionJob P) (payload : Bytes)
      (os : Os)
      → store.disk ≡ log_of ps
      → IsStorable job payload
      → persist codec job os store ≡ answered s (ok tt)
      → s.disk ≡ log_of (ps ++ (payload, job) ∷ [])
  persist-log_of store s ps job payload os e v done =
      let wrote : Persisted store (frame job_magic payload) (answered s (ok tt)) =
        subst (Persisted store (frame job_magic payload)) done
          (persist-Persisted store job payload os v) in
      wrote.0
      ∙ ap (λ (d : Bytes). d ++ frame job_magic payload) e
      ∙ sym (log_of-snoc ps payload job)

  open_cut :
      (ps : History P) (job : IngestionJob P) (payload path d : Bytes) (n : ℕ) (mode : SyncMode)
      (os : Os)
      → IsReadable codec ps
      → IsStorable job payload
      → length ps + 1 < max_wal_records
      → os.fsync ≡ true
      → d ≡ log_of ps ++ take n (frame job_magic payload)
      → (qs : History P) × ((qs ≡ ps) ⊎ (qs ≡ ps ++ (payload, job) ∷ []))
        × (open_file codec path mode d true true os
            ≡ some (log_of qs, ok (opened_store mode (length (log_of qs)) (log_of qs))))
  unfolding prefix_framing
  open_cut ps job payload path d n mode os h v room synced e =
      elim (dec_lt n (length (frame job_magic payload))) [
        | yes cut ↦ (
          ps,
          inl refl,
          rw e (
              open_file-Stops codec ps _ path mode os h (omega arith)
                (Stops-take-frame (prefix_framing codec) (omega arith) payload n v.small cut)
                synced),
        )
        | no whole ↦ (
          ps ++ (payload, job) ∷ [],
          inr refl,
          rw (e, take_all n (frame job_magic payload) (omega arith), ← log_of-snoc ps payload job)
              (rw append-nil at (
                open_file-Stops codec (ps ++ (payload, job) ∷ []) [] path mode os
                  (IsReadable-snoc ps job payload h v)
                  (omega (arith, length-append ps ((payload, job) ∷ []))) (inl (omega arith))
                  synced)),
        )
      ]

  -- However a call ends, the death of the process included, the log opens afterwards, and holds exactly
  -- the records that were there, or those and the new one: what is torn is cut off.
  pub persist_repaired :
      (store : AppendOnlyJobStore) (ps : History P) (job : IngestionJob P) (payload path : Bytes)
      (os later : Os) (mode : SyncMode)
      → store.disk ≡ log_of ps
      → IsReadable codec ps
      → IsStorable job payload
      → length ps + 1 < max_wal_records
      → later.fsync ≡ true
      → (qs : History P) × ((qs ≡ ps) ⊎ (qs ≡ ps ++ (payload, job) ∷ []))
        × (open_file codec path mode (disk_left (persist codec job os store)) true true later
            ≡ some (log_of qs, ok (opened_store mode (length (log_of qs)) (log_of qs))))
  persist_repaired store ps job payload path os later mode e h v room synced =
      go (persist codec job os store) (persist-Persisted store job payload os v)
    where
      part :
          (d : Bytes) (n : ℕ)
          → d ≡ store.disk ++ take n (frame job_magic payload)
          → (qs : History P) × ((qs ≡ ps) ⊎ (qs ≡ ps ++ (payload, job) ∷ []))
            × (open_file codec path mode d true true later
                ≡ some (log_of qs, ok (opened_store mode (length (log_of qs)) (log_of qs))))
      part d n p =
          open_cut ps job payload path d n mode later h v room synced
            (p ∙ ap (λ (t : Bytes). t ++ take n (frame job_magic payload)) e)

      go :
          (o : StoreOutcome)
          → Persisted store (frame job_magic payload) o
          → (qs : History P) × ((qs ≡ ps) ⊎ (qs ≡ ps ++ (payload, job) ∷ []))
            × (open_file codec path mode (disk_left o) true true later
                ≡ some (log_of qs, ok (opened_store mode (length (log_of qs)) (log_of qs))))
      go (answered s (ok _)) w = part s.disk (length (frame job_magic payload)) (
          rw (take_all (length (frame job_magic payload)) (frame job_magic payload) (omega arith))
            w.0)
      go (answered s (err _)) w = part s.disk w.0.0 w.0.2
      go (died d) w = part d w.0 w.2
