-- ===== src/Ingestion/JobStore/Rewriting.antt =====
-- What a compaction of the job log reads of the records before the checkpoint, and what it writes for
-- them (job_store.cpp).
use llama_rag_runtime.Base.{
  ℕ, zero, suc, ◌+◌, ◌≤◌, ◌<◌, ◌≡◌, refl, ap, subst, All, ◌∙◌, inl, inr, none, some, List, [], ◌∷◌,
  ◌++◌, map, length, take, drop, arith, Bool-cases, Option-cases, append_assoc, length-append,
  take-length_append, drop-length_append,
}
use llama_rag_runtime.Core.Types.{Bytes, Result, ok, err, Result-cases}
use llama_rag_runtime.Core.Map.{Map, find, assign, find-assign, key_eq, key_eq_iff, key_eq_refl}
use llama_rag_runtime.Store.Format.{max_wal_record_bytes}
use llama_rag_runtime.Store.Crc.{crc32}
use llama_rag_runtime.Store.Frame.{frame, read_header}
use llama_rag_runtime.Store.Frame.Laws.{
  length-frame, stream, take_up_all, header, take-header, drop-header, read_header-header,
  frame-header,
}
use llama_rag_runtime.Ingestion.Job.{JobId, IngestionJob}
use llama_rag_runtime.Ingestion.JobStore.File.{
  JobCodec, jobs_of, keep_latest, job_magic, prefix_framing, encode_frame,
}
use llama_rag_runtime.Ingestion.JobStore.Log.{History, log_of, IsReadable, newest}
use llama_rag_runtime.Ingestion.JobStore.Compaction.{prefix_jobs, frames_of, glue, caught}
use llama_rag_runtime.Ingestion.JobStore.Selection.{Has}

module _ {P : Type 0} where
  -- A map of jobs by their identifiers, each once.
  abbrev pub IsIndex : Map (IngestionJob P) → Type 0
  IsIndex [] = Unit
  IsIndex ((k, v) ∷ m) = (v.id ≡ k) × (find k m ≡ none) × IsIndex m

  assign-IsIndex :
      (k : JobId) (v : IngestionJob P) (m : Map (IngestionJob P))
      → v.id ≡ k
      → IsIndex m
      → IsIndex (assign k v m)
  unfolding assign find
  assign-IsIndex k v [] e h = (e, refl, tt)
  assign-IsIndex k v ((j, w) ∷ m) e h = elim (Bool-cases (key_eq j k)) [
    | inl same ↦ simp same (ground (arith, e, same, key_eq_iff j k), h.1, h.2)
    | inr other ↦ simp other (
      h.0,
      ground (arith, find-assign k j v m, key_eq_iff k j, key_eq_iff j k, other, h.1),
      assign-IsIndex k v m e h.2,
    )
  ]

  pub keep_latest-IsIndex :
      (ps : History P) (m : Map (IngestionJob P))
      → IsIndex m
      → IsIndex (take_up_all keep_latest m ps)
  unfolding take_up_all
  keep_latest-IsIndex [] m h = h
  keep_latest-IsIndex ((payload, job) ∷ ps) m h =
      keep_latest-IsIndex ps (assign job.id job m) (assign-IsIndex job.id job m refl h)

  pub find-Has :
      (k : JobId) (job : IngestionJob P) (m : Map (IngestionJob P))
      → find k m ≡ some job
      → Has job (jobs_of m)
  unfolding find
  find-Has k job [] h = cc
  find-Has k job ((j, w) ∷ m) h = elim (Bool-cases (key_eq j k)) [
    | inl same ↦ inl (ground (arith, h, same))
    | inr other ↦ inr (find-Has k job m (ground (arith, h, other)))
  ]

  pub Has-find :
      (job : IngestionJob P) (m : Map (IngestionJob P))
      → IsIndex m
      → Has job (jobs_of m)
      → find job.id m ≡ some job
  unfolding find
  Has-find job [] v h = absurd h
  Has-find job ((j, w) ∷ m) v (inl e) = ground (arith, e, v.0, key_eq_refl j, key_eq_iff j job.id)
  Has-find job ((j, w) ∷ m) v (inr h) =
      ground (arith, Has-find job m v.2 h, v.1, key_eq_iff j job.id)

  pub Has-newest :
      (id : JobId) (job : IngestionJob P) (rs : History P)
      → newest id rs ≡ some job
      → Has job (map (λ (q, j). j) rs) × (job.id ≡ id)
  Has-newest id job [] h = cc
  Has-newest id job ((q, j) ∷ rs) h = elim (Option-cases (newest id rs)) [
    | inl missing ↦ elim (Bool-cases (key_eq j.id id)) [
      | inl same ↦ (
        inl (ground (arith, h, missing, same)),
        ground (arith, h, missing, same, key_eq_iff j.id id),
      )
      | inr other ↦ absurd (ground (arith, h, missing, other))
    ]
    | inr (i, there) ↦
        let (m, e) = Has-newest id i rs there in
        let here : i ≡ job = ground (arith, h, there) in
        (
          inr (subst (λ (t : IngestionJob P). Has t (map (λ (q, j). j) rs)) here m),
          ground (arith, here, e),
        )
  ]

  -- The last record of an identifier in a log whose jobs all agree on it.
  pub newest-Has :
      (job : IngestionJob P) (rs : History P)
      → Has job (map (λ (q, j). j) rs)
      → ((j : IngestionJob P) → Has j (map (λ (q, i). i) rs) → j.id ≡ job.id → j ≡ job)
      → newest job.id rs ≡ some job
  newest-Has job [] h same = absurd h
  newest-Has job ((q, j) ∷ rs) h same = elim (Option-cases (newest job.id rs)) [
    | inl missing ↦ rw missing (elim h [
      | inl e ↦ rw (← e, key_eq_refl job.id) refl
      | inr m ↦ absurd (ground (arith, missing, newest-Has job rs m (λ i n e. same i (inr n) e)))
    ])
    | inr (i, there) ↦
        let (m, e) = Has-newest job.id i rs there in rw there (ap some (same i (inr m) e))
  ]

module _ {P : Type 0} (codec : JobCodec P) where
  read_header-frame :
      (payload rest : Bytes)
      → length payload ≤ max_wal_record_bytes
      → read_header (prefix_framing codec) (take 12 (frame job_magic payload ++ rest))
        ≡ some (job_magic, length payload, crc32 payload)
  unfolding prefix_framing
  read_header-frame payload rest h =
      rw
        (
          frame-header job_magic payload,
          append_assoc (header job_magic payload) payload rest,
          take-header job_magic payload (payload ++ rest),
        )
        (read_header-header (prefix_framing codec) (omega arith) payload (omega arith))

  behind_header :
      (payload rest : Bytes) → drop 12 (frame job_magic payload ++ rest) ≡ payload ++ rest
  behind_header payload rest =
      rw (frame-header job_magic payload, append_assoc (header job_magic payload) payload rest)
        (drop-header job_magic payload (payload ++ rest))

  -- The loop over the prefix takes up each of its records.
  pub prefix_jobs-log_of :
      (ps : History P) (fuel : ℕ) (m : Map (IngestionJob P)) (tail : Bytes)
      → length ps < fuel
      → IsReadable codec ps
      → prefix_jobs codec fuel (length (log_of ps)) m (log_of ps ++ tail)
        ≡ some (ok (take_up_all keep_latest m ps))
  unfolding prefix_jobs take_up_all log_of stream
  prefix_jobs-log_of [] zero m tail h r = absurd (omega arith)
  prefix_jobs-log_of [] (suc fuel) m tail h r = refl
  prefix_jobs-log_of ((payload, job) ∷ ps) zero m tail h r = absurd (omega arith)
  prefix_jobs-log_of ((payload, job) ∷ ps) (suc fuel) m tail h r =
      let size : length (frame job_magic payload ++ stream job_magic ps)
          ≡ 12 + length payload + length (stream job_magic ps) =
        omega (
          arith,
          length-append (frame job_magic payload) (stream job_magic ps),
          length-frame job_magic payload,
        ) in
      ground (
        arith,
        size,
        append_assoc (frame job_magic payload) (stream job_magic ps) tail,
        read_header-frame payload (stream job_magic ps ++ tail) r.0.0,
        behind_header payload (stream job_magic ps ++ tail),
        take-length_append payload (stream job_magic ps ++ tail),
        drop-length_append payload (stream job_magic ps ++ tail),
        r.0.1,
        prefix_jobs-log_of ps fuel (assign job.id job m) tail (omega arith) r.1,
      )

  glue_ok :
      (text : Bytes) (r : Result Bytes) {out : Bytes}
      → glue text r ≡ ok out
      → (rest : Bytes) × (r ≡ ok rest) × (out ≡ text ++ rest)
  glue_ok text (ok rest) h = (rest, refl, cc)
  glue_ok text (err e) h = cc

  encode_frame_ok :
      (job : IngestionJob P) (buffer : Bytes)
      → encode_frame codec caught job ≡ ok buffer
      → (payload : Bytes) × (buffer ≡ frame job_magic payload)
        × (codec.encode job ≡ some payload)
        × (length payload ≤ max_wal_record_bytes)
  unfolding encode_frame
  encode_frame_ok job buffer h = elim (Option-cases (codec.encode job)) [
    | inl missing ↦ absurd (ground (arith, h, missing))
    | inr (payload, there) ↦ (payload, ground (arith, h, there), there, ground (arith, h, there))
  ]

  -- Every payload is what the codec makes of its job, and the reader's limit lets it pass.
  abbrev pub IsEncoded : History P → Type 0
  IsEncoded =
      All λ (payload, job).
        (codec.encode job ≡ some payload) × (length payload ≤ max_wal_record_bytes)

  -- The text of the selected jobs is a log of them.
  pub frames_of-log_of :
      (jobs : List (IngestionJob P)) (text : Bytes)
      → frames_of codec jobs ≡ ok text
      → (rs : History P) × (text ≡ log_of rs) × (map (λ (q, j). j) rs ≡ jobs) × IsEncoded rs
  unfolding frames_of log_of stream
  frames_of-log_of [] text h = ([], ground (arith, h), refl, tt)
  frames_of-log_of (job ∷ jobs) text h = elim (Result-cases (encode_frame codec caught job)) [
    | inr (e, bad) ↦ absurd (ground (arith, h, bad))
    | inl (buffer, good) ↦
        let more : glue buffer (frames_of codec jobs) ≡ ok text = ground (arith, h, good) in
        let (rest, read, whole) = glue_ok buffer (frames_of codec jobs) more in
        let (payload, framed, encoded, small) = encode_frame_ok job buffer good in
        let (rs, log, same, made) = frames_of-log_of jobs rest read in
        (
          (payload, job) ∷ rs,
          whole
              ∙ ap (λ (t : Bytes). t ++ rest) framed
              ∙ ap (λ (t : Bytes). frame job_magic payload ++ t) log,
          ap (λ (t : List (IngestionJob P)). job ∷ t) same,
          ((encoded, small), made),
        )
  ]
