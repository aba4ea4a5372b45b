-- ===== src/Ingestion/JobStore/Selection.antt =====
-- Which jobs a compaction of the job log selects (job_store.cpp).
use llama_rag_runtime.Base.{
  ℕ, ◌+◌, ◌-◌, ◌≡◌, refl, subst, ◌⊎◌, inl, inr, Bool, false, ltb, leb, List, [], ◌∷◌, ◌++◌, length,
  arith, Bool-cases, sort_by,
}
use llama_rag_runtime.Base.Sort.{insert_by}
use llama_rag_runtime.Core.Types.{Result, ok, err, Result-cases}
use llama_rag_runtime.Ingestion.Job.{terminal, IngestionJob}
use llama_rag_runtime.Ingestion.JobStore.File.{JobCodec, encode_frame}
use llama_rag_runtime.Ingestion.JobStore.Compaction.{
  JobRetentionPolicy, live_jobs, terminal_jobs, retain, cons_job, caught,
}

module _ {A : Type 0} where
  abbrev pub Has : A → List A → Type 0
  Has x [] = ⊥
  Has x (y ∷ ys) = (x ≡ y) ⊎ Has x ys

  not-Has : (x : A) (ys : List A) → ys ≡ [] → Has x ys → ⊥
  not-Has x [] e h = h
  not-Has x (y ∷ ys) e h = cc

  pub Has-append : (x : A) (ys zs : List A) → Has x ys → Has x (ys ++ zs)
  Has-append x (y ∷ ys) zs (inl e) = inl e
  Has-append x (y ∷ ys) zs (inr h) = inr (Has-append x ys zs h)
  Has-append x [] zs h = absurd h

  pub Has-append_cases : (x : A) (ys zs : List A) → Has x (ys ++ zs) → Has x ys ⊎ Has x zs
  Has-append_cases x [] zs h = inr h
  Has-append_cases x (y ∷ ys) zs (inl e) = inl (inl e)
  Has-append_cases x (y ∷ ys) zs (inr h) = elim (Has-append_cases x ys zs h) [
    | inl left ↦ inl (inr left)
    | inr right ↦ inr right
  ]

  module _ (before : A → A → Bool) where
    Has-insert_by : (x y : A) (ys : List A) → (x ≡ y) ⊎ Has x ys → Has x (insert_by before y ys)
    unfolding insert_by
    Has-insert_by x y [] h = h
    Has-insert_by x y (z ∷ zs) h = elim (Bool-cases (before z y)) [
      | inl first ↦ simp first (elim h [
        | inl e ↦ inr (Has-insert_by x y zs (inl e))
        | inr m ↦ elim m [ inl e ↦ inl e | inr n ↦ inr (Has-insert_by x y zs (inr n)) ]
      ])
      | inr later ↦ simp later h
    ]

    pub insert_by-Has : (x y : A) (ys : List A) → Has x (insert_by before y ys) → (x ≡ y) ⊎ Has x ys
    unfolding insert_by
    insert_by-Has x y [] h = h
    insert_by-Has x y (z ∷ zs) h = elim (Bool-cases (before z y)) [
      | inl first ↦
          let m : (x ≡ z) ⊎ Has x (insert_by before y zs) = simp first at h in
          elim m [
            | inl e ↦ inr (inl e)
            | inr n ↦ elim (insert_by-Has x y zs n) [ inl e ↦ inl e | inr o ↦ inr (inr o) ]
          ]
      | inr later ↦ simp later at h
    ]

    pub Has-sort_by : (x : A) (xs : List A) → Has x xs → Has x (sort_by before xs)
    unfolding sort_by
    Has-sort_by x [] h = h
    Has-sort_by x (y ∷ ys) (inl e) = Has-insert_by x y (sort_by before ys) (inl e)
    Has-sort_by x (y ∷ ys) (inr h) =
        Has-insert_by x y (sort_by before ys) (inr (Has-sort_by x ys h))

    pub sort_by-Has : (x : A) (xs : List A) → Has x (sort_by before xs) → Has x xs
    unfolding sort_by
    sort_by-Has x [] h = h
    sort_by-Has x (y ∷ ys) h = elim (insert_by-Has x y (sort_by before ys) h) [
      | inl e ↦ inl e
      | inr m ↦ inr (sort_by-Has x ys m)
    ]

module _ {P : Type 0} where
  pub live_jobs-keeps :
      (job : IngestionJob P) (jobs : List (IngestionJob P))
      → Has job jobs
      → terminal job.status ≡ false
      → Has job (live_jobs jobs)
  unfolding live_jobs
  live_jobs-keeps job [] h live = absurd h
  live_jobs-keeps job (j ∷ js) (inl e) live = rw (← e, live) (inl refl)
  live_jobs-keeps job (j ∷ js) (inr h) live = elim (Bool-cases (terminal j.status)) [
    | inl over ↦ simp over (live_jobs-keeps job js h live)
    | inr alive ↦ simp alive (inr (live_jobs-keeps job js h live))
  ]

  pub live_jobs-Has :
      (job : IngestionJob P) (jobs : List (IngestionJob P))
      → Has job (live_jobs jobs)
      → Has job jobs
  unfolding live_jobs
  live_jobs-Has job [] h = h
  live_jobs-Has job (j ∷ js) h = elim (Bool-cases (terminal j.status)) [
    | inl over ↦ inr (live_jobs-Has job js (simp over at h))
    | inr alive ↦
        let m : (job ≡ j) ⊎ Has job (live_jobs js) = simp alive at h in
        elim m [ inl e ↦ inl e | inr n ↦ inr (live_jobs-Has job js n) ]
  ]

  pub terminal_jobs-Has :
      (job : IngestionJob P) (jobs : List (IngestionJob P))
      → Has job (terminal_jobs jobs)
      → Has job jobs
  unfolding terminal_jobs
  terminal_jobs-Has job [] h = h
  terminal_jobs-Has job (j ∷ js) h = elim (Bool-cases (terminal j.status)) [
    | inl over ↦
        let m : (job ≡ j) ⊎ Has job (terminal_jobs js) = simp over at h in
        elim m [ inl e ↦ inl e | inr n ↦ inr (terminal_jobs-Has job js n) ]
    | inr alive ↦ inr (terminal_jobs-Has job js (simp alive at h))
  ]

  cons_job_ok :
      (job : IngestionJob P) (r : Result (List (IngestionJob P))) {out : List (IngestionJob P)}
      → cons_job job r ≡ ok out
      → (rest : List (IngestionJob P)) × (r ≡ ok rest) × (out ≡ job ∷ rest)
  cons_job_ok job (ok rest) h = (rest, refl, cc)
  cons_job_ok job (err e) h = cc

module _ {P : Type 0} (codec : JobCodec P) where
  pub retain-Has :
      (policy : JobRetentionPolicy) (jobs bytes : ℕ) (xs out : List (IngestionJob P))
      (job : IngestionJob P)
      → retain codec policy jobs bytes xs ≡ ok out
      → Has job out
      → Has job xs
  unfolding retain
  retain-Has policy jobs bytes [] out job h m = absurd (not-Has job out (ground (arith, h)) m)
  retain-Has policy jobs bytes (x ∷ xs) out job h m =
      elim (Bool-cases (leb policy.max_terminal_jobs jobs)) [
        | inl many ↦ absurd (not-Has job out (ground (arith, h, many)) m)
        | inr few ↦ elim (Result-cases (encode_frame codec caught x)) [
          | inr (e, bad) ↦ absurd (ground (arith, h, few, bad))
          | inl (buffer, good) ↦
              elim (Bool-cases (ltb (policy.max_terminal_bytes - bytes) (length buffer))) [
                | inl large ↦ inr (
                    retain-Has policy jobs bytes xs out job (ground (arith, h, few, good, large)) m)
                | inr fits ↦
                    let more : cons_job x
                          (retain codec policy (jobs + 1) (bytes + length buffer) xs)
                        ≡ ok out =
                      ground (arith, h, few, good, fits) in
                    let (rest, kept, whole) = cons_job_ok x _ more in
                    let n : (job ≡ x) ⊎ Has job rest = subst (Has job) whole m in
                    elim n [
                      | inl e ↦ inl e
                      | inr o ↦
                          inr (
                            retain-Has policy (jobs + 1) (bytes + length buffer) xs rest job kept o)
                    ]
              ]
        ]
      ]
