-- ===== src/Ingestion/JobStore/Retention.antt =====
-- What a compaction of the job log keeps (job_store.cpp).
use llama_rag_runtime.Base.{
  suc, ◌-◌, ◌<◌, ◌≡◌, refl, ap, sym, ◌∙◌, inl, inr, ◌==◌, false, ◌&&◌, some, List, [], ◌∷◌, ◌++◌,
  map, length, arith, Bool-cases, Option-cases, append-nil, length-append, take-length_append,
  drop-length_append, take_all, sort_by,
}
use llama_rag_runtime.Core.Types.{Bytes, Result, ok, err, Result-cases}
use llama_rag_runtime.Core.Map.{Map, find}
use llama_rag_runtime.Store.Format.{max_wal_records}
use llama_rag_runtime.Store.Frame.Laws.{stream-append, take_up_all}
use llama_rag_runtime.Store.Wal.File.{Written, complete, broken, cut_off}
use llama_rag_runtime.Store.Wal.Append.{Wrote, write_loop-Wrote}
use llama_rag_runtime.Ingestion.Job.{JobId, terminal, IngestionJob}
use llama_rag_runtime.Ingestion.JobStore.File.{
  JobCodec, AppendOnlyJobStore, answered, jobs_of, keep_latest, job_magic, created_before,
  valid_prefix, sync_store,
}
use llama_rag_runtime.Ingestion.JobStore.Log.{
  History, log_of, IsReadable, newest, keep_latest-newest, valid_prefix-Stops, length-log_of,
}
use llama_rag_runtime.Ingestion.JobStore.Compaction.{
  JobRetentionPolicy, CompactOs, updated_after, live_jobs, terminal_jobs, retain, frames_of,
  with_tail, compact_jobs, compacted, finish_swap, written_swap, swap, swap_or, truncate_known,
  truncate_prefix,
}
use llama_rag_runtime.Ingestion.JobStore.Selection.{
  Has, Has-append, Has-append_cases, Has-sort_by, sort_by-Has, live_jobs-keeps, live_jobs-Has,
  terminal_jobs-Has, retain-Has,
}
use llama_rag_runtime.Ingestion.JobStore.Rewriting.{
  IsIndex, keep_latest-IsIndex, find-Has, Has-find, newest-Has, Has-newest, prefix_jobs-log_of,
  frames_of-log_of, IsEncoded,
}

-- The records that stand for those of a prefix: the last record of a job that is live is kept, and no
-- job is kept but by its last record.
pub record Keeps {P : Type 0} (ps rs : History P) : Type 0 where
  pub live :
      (id : JobId) (job : IngestionJob P)
      → newest id ps ≡ some job
      → terminal job.status ≡ false
      → newest id rs ≡ some job
  pub last : (id : JobId) (job : IngestionJob P) → newest id rs ≡ some job → newest id ps ≡ some job

with_tail_ok :
    (tail : Bytes) (r : Result Bytes) {out : Bytes}
    → with_tail tail r ≡ ok out
    → (text : Bytes) × (r ≡ ok text) × (out ≡ text ++ tail)
with_tail_ok tail (ok text) h = (text, refl, cc)
with_tail_ok tail (err e) h = cc

module _ {P : Type 0} where
  abbrev latest_of : History P → Map (IngestionJob P)
  latest_of ps = take_up_all keep_latest [] ps

  find-latest_of : (id : JobId) (ps : History P) → find id (latest_of ps) ≡ newest id ps
  unfolding find
  find-latest_of id ps = keep_latest-newest id ps [] ∙ elim (Option-cases (newest id ps)) [
    | inl missing ↦ rw missing refl
    | inr (job, there) ↦ rw there refl
  ]

  selected-Keeps :
      (ps rs : History P) (kept : List (IngestionJob P))
      → ((job : IngestionJob P) → Has job kept → Has job (jobs_of (latest_of ps)))
      → map (λ (q, j). j) rs ≡ sort_by created_before (live_jobs (jobs_of (latest_of ps)) ++ kept)
      → Keeps ps rs
  selected-Keeps ps rs kept from same = record {
    live = λ id job there alive.
        let found : find id (latest_of ps) ≡ some job = find-latest_of id ps ∙ there in
        let known : Has job (jobs_of (latest_of ps)) = find-Has id job (latest_of ps) found in
        let here : find job.id (latest_of ps) ≡ some job =
          Has-find job (latest_of ps) index known in
        let named : job.id ≡ id = (Has-newest id job ps there).1 in
        rw (← named) (
          newest-Has job rs
            (rw same (
              Has-sort_by created_before job (live_jobs (jobs_of (latest_of ps)) ++ kept) (
                Has-append job (live_jobs (jobs_of (latest_of ps))) kept
                  (live_jobs-keeps job (jobs_of (latest_of ps)) known alive))))
            (λ j m e. ground (arith, e, here, Has-find j (latest_of ps) index (origin j m))));
    last = λ id job there.
        let (m, named) = Has-newest id job rs there in
        rw (← find-latest_of id ps, ← named) (Has-find job (latest_of ps) index (origin job m));
  }
    where
      index : IsIndex (latest_of ps)
      index = keep_latest-IsIndex ps [] tt

      origin : (j : IngestionJob P) → Has j (map (λ (q, i). i) rs) → Has j (jobs_of (latest_of ps))
      origin j m =
          elim (Has-append_cases j (live_jobs (jobs_of (latest_of ps))) kept (
            sort_by-Has created_before j (live_jobs (jobs_of (latest_of ps)) ++ kept)
              (rw same at m))) [
                | inl n ↦ live_jobs-Has j (jobs_of (latest_of ps)) n
                | inr n ↦ from j n
              ]

module _ {P : Type 0} (codec : JobCodec P) where
  compact_jobs-Keeps :
      (policy : JobRetentionPolicy) (ps : History P) (tail text : Bytes)
      → compact_jobs codec policy (jobs_of (latest_of ps)) tail ≡ ok text
      → (rs : History P) × (text ≡ log_of rs ++ tail) × Keeps ps rs × IsEncoded codec rs
  unfolding compact_jobs
  compact_jobs-Keeps policy ps tail text h =
      elim (Result-cases (
        retain codec policy 0 0 (sort_by updated_after (terminal_jobs (jobs_of (latest_of ps)))))) [
          | inr (e, bad) ↦ absurd (ground (arith, h, bad))
          | inl (kept, good) ↦
              let more : with_tail tail (
                    frames_of codec
                      (sort_by created_before (live_jobs (jobs_of (latest_of ps)) ++ kept)))
                  ≡ ok text =
                ground (arith, h, good) in
              let (front, framed, whole) = with_tail_ok tail _ more in
              let (rs, log, same, encoded) = frames_of-log_of codec _ front framed in
              (
                rs,
                whole ∙ ap (λ (t : Bytes). t ++ tail) log,
                selected-Keeps ps rs kept
                    (λ job m. terminal_jobs-Has job (jobs_of (latest_of ps)) (
                      sort_by-Has updated_after job (terminal_jobs (jobs_of (latest_of ps)))
                        (retain-Has codec policy 0 0 _ kept job good m)))
                    same,
                encoded,
              )
        ]

finish_swap_ok :
    (c : CompactOs) (store t : AppendOnlyJobStore) (text : Bytes)
    → finish_swap c store text ≡ answered t (ok tt)
    → (t.disk ≡ text) × (t.bytes ≡ length text)
unfolding finish_swap
finish_swap_ok c store t text h = elim (Result-cases (sync_store store.mode c.os)) [
  | inr (e, bad) ↦ absurd (ground (arith, h, bad))
  | inl (_, good) ↦ (ground (arith, h, good), ground (arith, h, good))
]

written_swap_ok :
    (c : CompactOs) (store t : AppendOnlyJobStore) (text : Bytes) (w : Written)
    → Wrote [] text w
    → written_swap c store w ≡ answered t (ok tt)
    → (t.disk ≡ text) × (t.bytes ≡ length text)
written_swap_ok c store t text (complete d) e h =
    let (disk, bytes) = finish_swap_ok c store t d h in (disk ∙ e, bytes ∙ ap length e)
written_swap_ok c store t text (broken d) e h = cc
written_swap_ok c store t text (cut_off d) e h = cc

swap_ok :
    (c : CompactOs) (store t : AppendOnlyJobStore) (text : Bytes)
    → swap c store text ≡ answered t (ok tt)
    → (t.disk ≡ text) × (t.bytes ≡ length text)
unfolding swap
swap_ok c store t text h = elim (Bool-cases c.created) [
  | inl made ↦
      written_swap_ok c store t text _ (write_loop-Wrote c.os.writes text [])
        (ground (arith, h, made))
  | inr unmade ↦ absurd (ground (arith, h, unmade))
]

swap_or_ok :
    (c : CompactOs) (store t : AppendOnlyJobStore) (r : Result Bytes)
    → swap_or c store (some r) ≡ some (answered t (ok tt))
    → (text : Bytes) × (r ≡ ok text) × (t.disk ≡ text) × (t.bytes ≡ length text)
swap_or_ok c store t (err e) h = cc
swap_or_ok c store t (ok text) h =
    let (disk, bytes) = swap_ok c store t text (cc) in (text, refl, disk, bytes)

module _ {P : Type 0} (codec : JobCodec P) where
  log_of-append : (ps qs : History P) → log_of (ps ++ qs) ≡ log_of ps ++ log_of qs
  unfolding log_of
  log_of-append ps qs = stream-append job_magic ps qs

  valid_prefix-log_of :
      (ps : History P)
      → IsReadable codec ps
      → length ps < max_wal_records
      → valid_prefix codec (log_of ps) ≡ some (ok (length (log_of ps)))
  valid_prefix-log_of ps h room =
      rw append-nil at (valid_prefix-Stops codec ps [] h room (inl (omega arith)))

  compacted-log_of :
      (policy : JobRetentionPolicy) (ps qs : History P)
      → IsReadable codec ps
      → compacted codec policy
          (length (log_of ps ++ log_of qs))
          (length (log_of ps))
          (log_of ps ++ log_of qs)
        ≡ some (compact_jobs codec policy (jobs_of (latest_of ps)) (log_of qs))
  unfolding compacted
  compacted-log_of policy ps qs h =
      let rest : length (log_of ps ++ log_of qs) - length (log_of ps) ≡ length (log_of qs) =
        omega (arith, length-append (log_of ps) (log_of qs)) in
      rw
        (
          prefix_jobs-log_of codec ps (suc (length (log_of ps))) [] (log_of qs)
              (omega (arith, length-log_of codec ps)) h,
          drop-length_append (log_of ps) (log_of qs),
          rest,
          take_all (length (log_of qs)) (log_of qs) (omega arith),
        )
        refl

  IsReadable-front : (ps qs : History P) → IsReadable codec (ps ++ qs) → IsReadable codec ps
  IsReadable-front [] qs h = tt
  IsReadable-front (p ∷ ps) qs h = (h.0, IsReadable-front ps qs h.1)

  empty-IsEncoded : (ps : History P) → length (log_of ps) ≡ 0 → IsEncoded codec ps
  empty-IsEncoded [] h = tt
  empty-IsEncoded (p ∷ ps) h = absurd (omega (arith, h, length-log_of codec (p ∷ ps)))

  known_kept :
      (policy : JobRetentionPolicy) (ps qs : History P) (c : CompactOs)
      (store t : AppendOnlyJobStore)
      → store.disk ≡ log_of ps ++ log_of qs
      → store.bytes ≡ length store.disk
      → IsReadable codec ps
      → length ps < max_wal_records
      → truncate_known codec policy (length (log_of ps)) c store (length (log_of ps ++ log_of qs))
        ≡ some (answered t (ok tt))
      → (rs : History P) × (t.disk ≡ log_of rs ++ log_of qs)
        × (t.bytes ≡ length t.disk)
        × Keeps ps rs
        × IsEncoded codec rs
  unfolding truncate_known
  known_kept policy ps qs c store t e count h room done =
      elim (Bool-cases
        (length (log_of ps) == 0 && length (log_of ps ++ log_of qs) == length store.disk)) [
          | inl nothing ↦
              let same : store ≡ t = ground (
                arith,
                done,
                nothing,
                e,
                valid_prefix-log_of ps h room,
                take-length_append (log_of ps) (log_of qs),
                length-append (log_of ps) (log_of qs),
              ) in
              (
                ps,
                ap (λ (s : AppendOnlyJobStore). s.disk) (sym same) ∙ e,
                rw (← same) count,
                record { live = λ id job there alive. there; last = λ id job there. there },
                empty-IsEncoded ps (ground (arith, nothing)),
              )
          | inr something ↦
              let swapped : swap_or c store
                    (some (compact_jobs codec policy (jobs_of (latest_of ps)) (log_of qs)))
                  ≡ some (answered t (ok tt)) =
                ground (
                  arith,
                  done,
                  something,
                  e,
                  valid_prefix-log_of ps h room,
                  take-length_append (log_of ps) (log_of qs),
                  length-append (log_of ps) (log_of qs),
                  compacted-log_of policy ps qs h,
                ) in
              let (text, made, disk, bytes) = swap_or_ok c store t _ swapped in
              let (rs, log, kept, encoded) =
                compact_jobs-Keeps codec policy ps (log_of qs) text made in
              (rs, disk ∙ log, bytes ∙ ap length (sym disk), kept, encoded)
        ]

  -- A compaction at the end of some record that reports success leaves a log whose records behind the
  -- checkpoint are untouched. Of those before it, the last record of every live job is kept, and no job
  -- is kept but by its last record; each is written as the codec encodes it, within the reader's limit.
  -- The byte count stays that of the disk.
  pub truncate_prefix-Keeps :
      (policy : JobRetentionPolicy) (ps qs : History P) (c : CompactOs)
      (store t : AppendOnlyJobStore)
      → store.disk ≡ log_of (ps ++ qs)
      → store.bytes ≡ length store.disk
      → IsReadable codec (ps ++ qs)
      → length (ps ++ qs) < max_wal_records
      → truncate_prefix codec policy (length (log_of ps)) c store ≡ some (answered t (ok tt))
      → (rs : History P) × (t.disk ≡ log_of (rs ++ qs))
        × (t.bytes ≡ length t.disk)
        × Keeps ps rs
        × IsEncoded codec rs
  unfolding truncate_prefix
  truncate_prefix-Keeps policy ps qs c store t e count h room done =
      let disk : store.disk ≡ log_of ps ++ log_of qs = e ∙ log_of-append ps qs in
      let whole : valid_prefix codec store.disk ≡ some (ok (length (log_of ps ++ log_of qs))) =
        ap (valid_prefix codec) e
        ∙ valid_prefix-log_of (ps ++ qs) h room
        ∙ ap (λ (d : Bytes). some (ok (length d))) (log_of-append ps qs) in
      elim (Bool-cases store.is_open) [
        | inr shut ↦ absurd (ground (arith, done, shut))
        | inl live ↦
            let known : truncate_known codec policy (length (log_of ps)) c store
                  (length (log_of ps ++ log_of qs))
                ≡ some (answered t (ok tt)) =
              ground (arith, done, live, whole) in
            let (rs, log, bytes, kept, encoded) =
              known_kept policy ps qs c store t disk count (IsReadable-front ps qs h)
                (omega (arith, length-append ps qs)) known in
            (rs, log ∙ sym (log_of-append rs qs), bytes, kept, encoded)
      ]
