-- ===== src/Ingestion/JobStore/Totality.antt =====
-- The loops of job_store.cpp have fuel enough, whatever the file holds.
use llama_rag_runtime.Base.{
  ℕ, zero, suc, ◌+◌, ◌-◌, ◌<◌, ◌≡◌, refl, inl, inr, ◌==◌, Bool, not, ◌&&◌, ltb, Option, none, some,
  List, [], length, take, drop, arith, Bool-cases, Option-cases,
}
use llama_rag_runtime.Core.Types.{Bytes, Result, ok, err}
use llama_rag_runtime.Core.Map.{Map, assign}
use llama_rag_runtime.Store.Frame.{read_header}
use llama_rag_runtime.Store.Frame.Laws.{loop_total}
use llama_rag_runtime.Store.Wal.File.{SyncMode, Os}
use llama_rag_runtime.Ingestion.Job.{IngestionJob}
use llama_rag_runtime.Ingestion.JobStore.File.{
  JobCodec, AppendOnlyJobStore, StoreOutcome, answered, prefix_framing, latest_framing, advance,
  keep_latest, by_creation, valid_prefix, latest_jobs, open_file, repaired_or, load_latest,
}
use llama_rag_runtime.Ingestion.JobStore.Compaction.{
  JobRetentionPolicy, CompactOs, prefix_jobs, compact_or, compacted, swap_or, truncate_known,
  truncate_prefix, ends_at,
}

-- The loop came to an end.
abbrev Ends {ℓ} : {A : Type ℓ} → Option A → Type ℓ
Ends {A = A} o = (a : A) × (o ≡ some a)

module _ {P : Type 0} (codec : JobCodec P) where
  valid_prefix_total : (blob : Bytes) → Ends (valid_prefix codec blob)
  unfolding valid_prefix
  valid_prefix_total blob =
      loop_total (prefix_framing codec) (advance codec) (suc (length blob)) 0 0 blob (omega arith)

  by_creation_total : (o : Option (Result (Map (IngestionJob P)))) → Ends o → Ends (by_creation o)
  by_creation_total none h = cc
  by_creation_total (some (ok m)) h = (_, refl)
  by_creation_total (some (err e)) h = (_, refl)

  latest_jobs_total : (blob : Bytes) → Ends (latest_jobs codec blob)
  unfolding latest_jobs
  latest_jobs_total blob =
      by_creation_total _
        (loop_total (latest_framing codec) keep_latest (suc (length blob)) 0 [] blob (omega arith))

  repaired_or_total :
      (path : Bytes) (mode : SyncMode) (blob : Bytes) (opened truncated : Bool) (os : Os)
      (o : Option (Result ℕ))
      → Ends o
      → Ends (repaired_or path mode blob opened truncated os o)
  repaired_or_total path mode blob opened truncated os none h = cc
  repaired_or_total path mode blob opened truncated os (some (ok n)) h = (_, refl)
  repaired_or_total path mode blob opened truncated os (some (err e)) h = (_, refl)

  prefix_jobs_total :
      (fuel left : ℕ) (m : Map (IngestionJob P)) (blob : Bytes)
      → left < fuel
      → Ends (prefix_jobs codec fuel left m blob)
  unfolding prefix_jobs
  prefix_jobs_total zero left m blob h = absurd (omega arith)
  prefix_jobs_total (suc fuel) left m blob h = elim (Bool-cases (left == 0)) [
    | inl done ↦ rw done (_, refl)
    | inr more ↦ rw more (elim (Option-cases (read_header (prefix_framing codec) (take 12 blob))) [
      | inl short ↦ rw short (_, refl)
      | inr ((magic, len, crc), there) ↦
          rw there (elim (Option-cases (codec.decode (take len (drop 12 blob)))) [
            | inl bad ↦ rw bad (_, refl)
            | inr (job, good) ↦ rw good (
                prefix_jobs_total fuel (left - (12 + len)) (assign job.id job m)
                  (drop len (drop 12 blob)) (ground (arith, more, h)))
          ])
    ])
  ]

  compact_or_total :
      (policy : JobRetentionPolicy) (tail : Bytes) (o : Option (Result (Map (IngestionJob P))))
      → Ends o
      → Ends (compact_or codec policy tail o)
  compact_or_total policy tail none h = cc
  compact_or_total policy tail (some (ok m)) h = (_, refl)
  compact_or_total policy tail (some (err e)) h = (_, refl)

  swap_or_total :
      (c : CompactOs) (store : AppendOnlyJobStore) (o : Option (Result Bytes))
      → Ends o
      → Ends (swap_or c store o)
  swap_or_total c store none h = cc
  swap_or_total c store (some (ok text)) h = (_, refl)
  swap_or_total c store (some (err e)) h = (_, refl)

  truncate_known_total :
      (policy : JobRetentionPolicy) (position : ℕ) (c : CompactOs) (store : AppendOnlyJobStore)
      (intact : ℕ)
      → Ends (truncate_known codec policy position c store intact)
  unfolding truncate_known compacted
  truncate_known_total policy position c store intact = elim (Bool-cases (ltb intact position)) [
    | inl beyond ↦ rw beyond (_, refl)
    | inr within ↦
        let (r, e) = valid_prefix_total (take position store.disk) in
        rw within (
          rw e (elim (Bool-cases (not (ends_at position r))) [
            | inl off ↦ rw off (_, refl)
            | inr on ↦ rw on (elim (Bool-cases (position == 0 && intact == length store.disk)) [
              | inl nothing ↦ rw nothing (_, refl)
              | inr something ↦ rw something (
                  swap_or_total c store _ (
                    compact_or_total policy (take (intact - position) (drop position store.disk)) _
                      (prefix_jobs_total (suc position) position [] store.disk (omega arith))))
            ])
          ]))
  ]

  -- Opening, loading and compacting come to a result, whatever the file holds and the operating system
  -- answers.
  pub open_total :
      (path : Bytes) (mode : SyncMode) (blob : Bytes) (opened truncated : Bool) (os : Os)
      (policy : JobRetentionPolicy) (position : ℕ) (c : CompactOs) (store : AppendOnlyJobStore)
      → ((r : Bytes × Result AppendOnlyJobStore) × (open_file codec path mode blob opened truncated
              os
            ≡ some r))
        × ((jobs : Result (List (IngestionJob P))) × (load_latest codec store ≡ some jobs))
        × ((o : StoreOutcome) × (truncate_prefix codec policy position c store ≡ some o))
  unfolding open_file load_latest truncate_prefix
  open_total path mode blob opened truncated os policy position c store = (
    repaired_or_total path mode blob opened truncated os (valid_prefix codec blob)
        (valid_prefix_total blob),
    latest_jobs_total store.disk,
    elim (Bool-cases (not store.is_open)) [
      | inl shut ↦ simp shut (_, refl)
      | inr live ↦ let (r, e) = valid_prefix_total store.disk in simp live (rw e (known r))
    ],
  )
    where
      known :
          (r : Result ℕ)
          → (o : StoreOutcome) × (elim (some r) [
            | none ↦ none
            | some (err e) ↦ some (answered store (err e))
            | some (ok intact) ↦ truncate_known codec policy position c store intact
          ]
              ≡ some o)
      known (err e) = (_, refl)
      known (ok intact) = truncate_known_total policy position c store intact
