-- ===== src/Dense/Building.antt =====
-- Which index `build_dense_index` of rag.cpp/src/dense/policy.cpp builds.
use llama_rag_runtime.Base.{ℕ, ◌<◌, ◌≤◌, ◌≡◌, ◌⊎◌, true, false, List, length}
use llama_rag_runtime.Core.Types.{Result, fail, ascii, invalid_argument, unavailable}
use llama_rag_runtime.Dense.Engine.{Engine}
use llama_rag_runtime.Dense.Index.{VectorRecord, build_exact}
use llama_rag_runtime.Dense.Policy.{
  DensePolicy, DenseImplementation, native, faiss, DenseAlgorithm, automatic, exact, hnsw, flat,
  ivf_sq8, ivf_pq,
}
use llama_rag_runtime.Dense.Tiered.{DenseIndex, built_other, built_exact}

-- The algorithms that only FAISS has.
abbrev pub NeedsFaiss : DenseAlgorithm → Type 0
NeedsFaiss a = (a ≡ flat) ⊎ (a ≡ ivf_sq8) ⊎ (a ≡ ivf_pq)

module _ (E : Engine) where
  -- The index of a policy for these vectors, or why there is none.
  pub data IsBuilt (policy : DensePolicy) (source : List (VectorRecord E))
      : Result (DenseIndex E) → Type 0 where
    no_threshold :
        policy.exact_threshold ≡ 0
        → IsBuilt policy source
            (fail invalid_argument (ascii "dense exact threshold must be non-zero"))
    not_native :
        ¬ (policy.exact_threshold ≡ 0)
        → policy.implementation ≡ native
        → NeedsFaiss policy.algorithm
        → IsBuilt policy source (
            fail invalid_argument
              (ascii "dense algorithm is not supported by native implementation"))
    not_faiss :
        ¬ (policy.exact_threshold ≡ 0)
        → policy.implementation ≡ faiss
        → (policy.algorithm ≡ automatic) ⊎ (policy.algorithm ≡ exact)
        → IsBuilt policy source (
            fail invalid_argument
              (ascii "dense algorithm is not supported by FAISS implementation"))
    no_faiss :
        ¬ (policy.exact_threshold ≡ 0)
        → policy.implementation ≡ faiss
        → E.faiss_enabled ≡ false
        → (policy.algorithm ≡ hnsw) ⊎ NeedsFaiss policy.algorithm
        → IsBuilt policy source
            (fail unavailable (ascii "FAISS support is not enabled in this build"))
    scanned :
        ¬ (policy.exact_threshold ≡ 0)
        → policy.implementation ≡ native
        → (policy.algorithm ≡ exact)
          ⊎ ((policy.algorithm ≡ automatic) × (length source < policy.exact_threshold))
        → IsBuilt policy source (built_exact E (build_exact E source))
    graph :
        ¬ (policy.exact_threshold ≡ 0)
        → policy.implementation ≡ native
        → (policy.algorithm ≡ hnsw)
          ⊎ ((policy.algorithm ≡ automatic) × (policy.exact_threshold ≤ length source))
        → IsBuilt policy source (built_other E (E.build_other policy hnsw source))
    by_faiss :
        ¬ (policy.exact_threshold ≡ 0)
        → policy.implementation ≡ faiss
        → E.faiss_enabled ≡ true
        → (policy.algorithm ≡ hnsw) ⊎ NeedsFaiss policy.algorithm
        → IsBuilt policy source (built_other E (E.build_other policy policy.algorithm source))

  unfoldable policy_of : DenseImplementation → DenseAlgorithm → ℕ → DensePolicy
  policy_of i a n = record { implementation = i; algorithm = a; exact_threshold = n }
