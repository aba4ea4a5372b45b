-- ===== src/Dense/Tests.antt =====
-- The names of the policies.
use llama_rag_runtime.Base.{◌≡◌}
use llama_rag_runtime.Core.Types.{ok}
use llama_rag_runtime.Dense.Policy.{
  ivf_pq, faiss, parse-name, parse_dense_implementation, parse_dense_algorithm, implementation_name,
  algorithm_name,
}

parse-name_example :
    (parse_dense_implementation (implementation_name faiss) ≡ ok faiss)
    × (parse_dense_algorithm (algorithm_name ivf_pq) ≡ ok ivf_pq)
parse-name_example = parse-name faiss ivf_pq
