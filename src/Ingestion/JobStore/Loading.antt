-- ===== src/Ingestion/JobStore/Loading.antt =====
-- What `load_latest` and `latest_jobs` of job_store.cpp answer with.
use llama_rag_runtime.Base.{
  ◌+◌, ◌<◌, ◌≡◌, refl, ◌∙◌, sym, none, some, List, [], ◌∷◌, ◌++◌, length, arith, Option,
  length-append, sort_by, ap,
}
use llama_rag_runtime.Core.Types.{Bytes, ok}
use llama_rag_runtime.Core.Map.{Map, find, key_eq_refl}
use llama_rag_runtime.Store.Format.{max_wal_records}
use llama_rag_runtime.Store.Frame.Laws.{take_up_all}
use llama_rag_runtime.Store.Wal.File.{Os}
use llama_rag_runtime.Ingestion.Job.{JobId, IngestionJob}
use llama_rag_runtime.Ingestion.JobStore.File.{
  JobCodec, AppendOnlyJobStore, answered, keep_latest, jobs_of, created_before, persist,
  latest_jobs, load_latest,
}
use llama_rag_runtime.Ingestion.JobStore.Log.{
  History, log_of, IsReadable, newest, or_else, keep_latest-newest, latest_jobs-log_of,
}
use llama_rag_runtime.Ingestion.JobStore.Durability.{IsStorable, IsReadable-snoc, persist-log_of}
use llama_rag_runtime.Ingestion.JobStore.Selection.{Has, Has-sort_by, sort_by-Has}
use llama_rag_runtime.Ingestion.JobStore.Rewriting.{
  IsIndex, keep_latest-IsIndex, find-Has, Has-find,
}
use llama_rag_runtime.Ingestion.JobStore.Order.{
  AllPairs, All-Has, HasOtherId, IsEarlier, sort_by-IsEarlier,
}

module _ {P : Type 0} where
  -- The jobs of a log, each as the last of its records has it, once, and in the order of their creation.
  pub record IsLoaded (ps : History P) (out : List (IngestionJob P)) : Type 0 where
    pub complete : (id : JobId) (job : IngestionJob P) → newest id ps ≡ some job → Has job out
    pub latest : (job : IngestionJob P) → Has job out → newest job.id ps ≡ some job
    pub once : AllPairs HasOtherId out
    pub ordered : AllPairs IsEarlier out

  or_nothing : (o : Option (IngestionJob P)) → or_else o none ≡ o
  or_nothing none = refl
  or_nothing (some j) = refl

  abbrev index_of : History P → Map (IngestionJob P)
  index_of ps = take_up_all keep_latest [] ps

  find-index_of : (id : JobId) (ps : History P) → find id (index_of ps) ≡ newest id ps
  unfolding find
  find-index_of id ps = keep_latest-newest id ps [] ∙ or_nothing (newest id ps)

  jobs_of-HasOtherId : (m : Map (IngestionJob P)) → IsIndex m → AllPairs HasOtherId (jobs_of m)
  jobs_of-HasOtherId [] v = tt
  jobs_of-HasOtherId ((k, v) ∷ m) (named, new, rest) = (
    All-Has (HasOtherId v) (jobs_of m) (λ j there same.
        let found : find j.id m ≡ some j = Has-find j m rest there in
        let here : find k m ≡ some j = ap (λ (i : JobId). find i m) (sym named ∙ same) ∙ found in
        absurd (ground (arith, here, new))),
    jobs_of-HasOtherId m rest,
  )

  sorted-IsLoaded : (ps : History P) → IsLoaded ps (sort_by created_before (jobs_of (index_of ps)))
  sorted-IsLoaded ps =
      let index : IsIndex (index_of ps) = keep_latest-IsIndex ps [] tt in
      let (once, ordered) =
        sort_by-IsEarlier (jobs_of (index_of ps)) (jobs_of-HasOtherId (index_of ps) index) in
      record {
        complete = λ id job there.
            Has-sort_by created_before job (jobs_of (index_of ps))
              (find-Has id job (index_of ps) (find-index_of id ps ∙ there));
        latest = λ job there.
            sym (find-index_of job.id ps)
            ∙ Has-find job (index_of ps) index
                (sort_by-Has created_before job (jobs_of (index_of ps)) there);
        once = once;
        ordered = ordered;
      }

  newest-snoc :
      (ps : History P) (payload : Bytes) (job : IngestionJob P)
      → newest job.id (ps ++ (payload, job) ∷ []) ≡ some job
  newest-snoc [] payload job = rw (key_eq_refl job.id) refl
  newest-snoc ((q, j) ∷ ps) payload job = rw (newest-snoc ps payload job) refl

module _ {P : Type 0} (codec : JobCodec P) where
  -- A log of readable records is loaded to the jobs that it has records of: each as its last record has
  -- it, each identifier once, and in the order of creation, then of the identifiers.
  pub latest_jobs-IsLoaded :
      (ps : History P)
      → IsReadable codec ps
      → length ps < max_wal_records
      → (out : List (IngestionJob P)) × (latest_jobs codec (log_of ps) ≡ some (ok out))
        × IsLoaded ps out
  latest_jobs-IsLoaded ps h room = (_, latest_jobs-log_of codec ps h room, sorted-IsLoaded ps)

  -- A call that reports success has its job on the disk behind the records that were there. Then
  -- `load_latest` answers with each job as its last record has it, each identifier once, in the order of
  -- creation, and the new job is among them.
  pub persist_acknowledged :
      (store s : AppendOnlyJobStore) (ps : History P) (job : IngestionJob P) (payload : Bytes)
      (os : Os)
      → store.disk ≡ log_of ps
      → IsReadable codec ps
      → IsStorable codec job payload
      → length ps + 1 < max_wal_records
      → persist codec job os store ≡ answered s (ok tt)
      → (s.disk ≡ log_of (ps ++ (payload, job) ∷ []))
        × (out : List (IngestionJob P)) × (load_latest codec s ≡ some (ok out))
        × IsLoaded (ps ++ (payload, job) ∷ []) out
        × Has job out
  unfolding load_latest
  persist_acknowledged store s ps job payload os e h v room done =
      let now = persist-log_of codec store s ps job payload os e v done in
      let (out, loaded, are) =
        latest_jobs-IsLoaded (ps ++ (payload, job) ∷ []) (IsReadable-snoc codec ps job payload h v)
          (omega (arith, length-append ps ((payload, job) ∷ []))) in
      (
        now,
        out,
        ap (latest_jobs codec) now ∙ loaded,
        are,
        are.complete job.id job (newest-snoc ps payload job),
      )
