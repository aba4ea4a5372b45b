-- ===== src/Dense/Policy.antt =====
-- Names, parsing and resolution of the dense policy. The parameters of the indexes themselves are left
-- out; `faiss_enabled` is the build's LRS_ENABLE_FAISS.
use llama_rag_runtime.Base.{ℕ, ◌≡◌, refl, Bool, true, false, ◌==◌, ltb, if◌then◌else◌, ◌++◌}
use llama_rag_runtime.Core.Types.{Bytes, Result, ok, fail, ascii, invalid_argument, unavailable}
use llama_rag_runtime.Core.Map.{key_eq}

pub data DenseImplementation : Type 0 where
  native faiss : DenseImplementation

pub data DenseAlgorithm : Type 0 where
  automatic exact hnsw flat ivf_sq8 ivf_pq : DenseAlgorithm

pub record DensePolicy : Type 0 where
  pub implementation : DenseImplementation
  pub algorithm : DenseAlgorithm
  pub exact_threshold : ℕ

unfoldable pub implementation_name : DenseImplementation → Bytes
implementation_name native = ascii "native"
implementation_name faiss = ascii "faiss"

unfoldable pub algorithm_name : DenseAlgorithm → Bytes
algorithm_name automatic = ascii "automatic"
algorithm_name exact = ascii "exact"
algorithm_name hnsw = ascii "hnsw"
algorithm_name flat = ascii "flat"
algorithm_name ivf_sq8 = ascii "ivf-sq8"
algorithm_name ivf_pq = ascii "ivf-pq"

unfoldable pub parse_dense_implementation : Bytes → Result DenseImplementation
parse_dense_implementation value =
    if key_eq value (ascii "native")
    then ok native
    else if key_eq value (ascii "faiss")
    then ok faiss
    else fail invalid_argument (ascii "unknown dense implementation: " ++ value)

unfoldable pub parse_dense_algorithm : Bytes → Result DenseAlgorithm
parse_dense_algorithm value =
    if key_eq value (ascii "automatic")
    then ok automatic
    else if key_eq value (ascii "exact")
    then ok exact
    else if key_eq value (ascii "hnsw")
    then ok hnsw
    else if key_eq value (ascii "flat")
    then ok flat
    else if key_eq value (ascii "ivf-sq8")
    then ok ivf_sq8
    else if key_eq value (ascii "ivf-pq")
    then ok ivf_pq
    else fail invalid_argument (ascii "unknown dense algorithm: " ++ value)

unfoldable pub resolve_native : DenseAlgorithm → ℕ → ℕ → Result DenseAlgorithm
resolve_native automatic threshold count = ok (if ltb count threshold then exact else hnsw)
resolve_native exact threshold count = ok exact
resolve_native hnsw threshold count = ok hnsw
resolve_native _ threshold count =
    fail invalid_argument (ascii "dense algorithm is not supported by native implementation")

abbrev pub if_enabled : Bool → DenseAlgorithm → Result DenseAlgorithm
if_enabled true a = ok a
if_enabled false a = fail unavailable (ascii "FAISS support is not enabled in this build")

unfoldable pub resolve_faiss : Bool → DenseAlgorithm → Result DenseAlgorithm
resolve_faiss faiss_enabled automatic =
    fail invalid_argument (ascii "dense algorithm is not supported by FAISS implementation")
resolve_faiss faiss_enabled exact =
    fail invalid_argument (ascii "dense algorithm is not supported by FAISS implementation")
resolve_faiss faiss_enabled a = if_enabled faiss_enabled a

unfoldable pub resolve_dense_algorithm : Bool → DensePolicy → ℕ → Result DenseAlgorithm
resolve_dense_algorithm faiss_enabled policy vector_count =
    if policy.exact_threshold == 0
    then fail invalid_argument (ascii "dense exact threshold must be non-zero")
    else elim policy.implementation [
      | native ↦ resolve_native policy.algorithm policy.exact_threshold vector_count
      | faiss ↦ resolve_faiss faiss_enabled policy.algorithm
    ]

-- The name of every implementation and of every algorithm is parsed back.
pub parse-name :
    (i : DenseImplementation) (a : DenseAlgorithm)
    → (parse_dense_implementation (implementation_name i) ≡ ok i)
      × (parse_dense_algorithm (algorithm_name a) ≡ ok a)
unfolding parse_dense_implementation parse_dense_algorithm implementation_name algorithm_name key_eq
    ascii
parse-name i a = (implementation i, algorithm a)
  where
    implementation :
        (i : DenseImplementation) → parse_dense_implementation (implementation_name i) ≡ ok i
    implementation native = refl
    implementation faiss = refl

    algorithm : (a : DenseAlgorithm) → parse_dense_algorithm (algorithm_name a) ≡ ok a
    algorithm automatic = refl
    algorithm exact = refl
    algorithm hnsw = refl
    algorithm flat = refl
    algorithm ivf_sq8 = refl
    algorithm ivf_pq = refl
