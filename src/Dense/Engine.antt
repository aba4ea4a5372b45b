-- ===== src/Dense/Engine.antt =====
-- What the dense and lexical code computes with: the floating-point arithmetic of the language, the
-- graph and FAISS indexes, and the BM25 index.
use llama_rag_runtime.Base.{ℕ, Bool, List}
use llama_rag_runtime.Core.Types.{Bytes, Result}
use llama_rag_runtime.Backend.Types.{Candidate}
use llama_rag_runtime.Dense.Policy.{DensePolicy, DenseAlgorithm}

-- `add_square` is `norm += (double)v * (double)v`; `off_unit` is `std::abs(norm - 1.0) > 1.0e-3` and
-- `within_unit` is `std::abs(norm - 1.0) <= 1.0e-3F`. `Other` are the indexes `NativeHnswIndex` and
-- `FaissIndex`, `Lexical` is `Bm25Index`, whose hits are an ordinal and a score.
pub record Engine : Type 1 where
  pub Float : Type 0
  pub Double : Type 0
  pub zero_norm : Double
  pub add_square : Double → Float → Double
  pub off_unit : Double → Bool
  pub within_unit : Double → Bool
  pub is_finite : Float → Bool
  pub float_eq : Float → Float → Bool
  pub float_gt : Float → Float → Bool
  pub dot : List Float → List Float → Float
  pub faiss_enabled : Bool
  pub Other : Type 0
  pub build_other : DensePolicy → DenseAlgorithm → List (Bytes × List Float) → Result Other
  pub search_other : Other → List Float → List Bytes → ℕ → Result (List (Candidate Float))
  pub vectors_other : Other → ℕ
  pub dimension_other : Other → ℕ
  pub Lexical : Type 0
  pub empty_lexical : Lexical
  pub add_text : ℕ → Bytes → Lexical → Lexical
  pub finalize : Lexical → Lexical
  pub search_lexical : Lexical → Bytes → ℕ → List (ℕ × Float)
