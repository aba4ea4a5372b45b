-- ===== src/Dense/Tiered.antt =====
-- rag.cpp/include/rag/dense/tiered_index.hpp, rag.cpp/src/dense/tiered_index.cpp, and `build_dense_index` of
-- rag.cpp/src/dense/policy.cpp: an immutable base with an exact delta and tombstones.
use llama_rag_runtime.Base.{
  ℕ, Bool, ◌&&◌, ◌||◌, not, ◌==◌, Option, none, some, List, [], ◌∷◌, ◌++◌, if◌then◌else◌, length,
  sort_by,
}
use llama_rag_runtime.Core.Types.{
  Bytes, Result, ok, err, fail, ascii, invalid_argument, already_exists, dimension_mismatch,
  unavailable, unless, and_then,
}
use llama_rag_runtime.Core.Keyset.{contains, insert}
use llama_rag_runtime.Backend.Types.{Candidate}
use llama_rag_runtime.Dense.Engine.{Engine}
use llama_rag_runtime.Dense.Policy.{
  DensePolicy, DenseAlgorithm, exact, automatic, hnsw, flat, ivf_sq8, ivf_pq,
  resolve_dense_algorithm,
}
use llama_rag_runtime.Dense.Index.{
  is_empty, VectorRecord, NativeExactIndex, build_exact, search_exact, ranks_before,
}

module _ (E : Engine) where
  pub data DenseIndex : Type 0 where
    native_exact : NativeExactIndex E → DenseIndex
    other : E.Other → DenseIndex

  unfoldable pub built_other : Result E.Other → Result DenseIndex
  built_other (ok index) = ok (other index)
  built_other (err e) = err e

  unfoldable pub built_exact : Result (NativeExactIndex E) → Result DenseIndex
  built_exact (ok index) = ok (native_exact index)
  built_exact (err e) = err e

  unfoldable pub build_faiss :
      DensePolicy → List (VectorRecord E) → DenseAlgorithm → Result DenseIndex
  build_faiss policy source algorithm =
      if E.faiss_enabled
      then built_other (E.build_other policy algorithm source)
      else fail unavailable (ascii "FAISS support is not enabled in this build")

  -- The switch of `build_dense_index`. `build_other` makes the graph of the policy's implementation; a
  -- build without FAISS never comes here with another one than the native.
  unfoldable pub build_algorithm :
      DensePolicy → List (VectorRecord E) → DenseAlgorithm → Result DenseIndex
  build_algorithm policy source exact = built_exact (build_exact E source)
  build_algorithm policy source hnsw = built_other (E.build_other policy hnsw source)
  build_algorithm policy source flat = build_faiss policy source flat
  build_algorithm policy source ivf_sq8 = build_faiss policy source ivf_sq8
  build_algorithm policy source ivf_pq = build_faiss policy source ivf_pq
  build_algorithm policy source automatic =
      fail invalid_argument (ascii "resolved dense algorithm is unsupported")

  unfoldable pub build_dense_index : DensePolicy → List (VectorRecord E) → Result DenseIndex
  build_dense_index policy source =
      and_then (resolve_dense_algorithm E.faiss_enabled policy (length source))
        (build_algorithm policy source)

  unfoldable pub search_index :
      DenseIndex → List E.Float → List Bytes → ℕ → Result (List (Candidate E.Float))
  search_index (native_exact index) query allowed k = search_exact E index query allowed k
  search_index (other index) query allowed k = E.search_other index query allowed k

  unfoldable pub index_vectors : DenseIndex → ℕ
  index_vectors (native_exact index) = length index.rows
  index_vectors (other index) = E.vectors_other index

  unfoldable pub index_dimension : DenseIndex → ℕ
  index_dimension (native_exact index) = index.dimension
  index_dimension (other index) = E.dimension_other index

  pub record DenseBase : Type 0 where
    pub index : DenseIndex
    pub keys : List Bytes
    pub dimension : ℕ

  pub record TieredDenseIndex : Type 0 where
    pub base : DenseBase
    pub delta : NativeExactIndex E
    pub delta_keys : List Bytes
    pub tombstones : List Bytes
    pub dimension : ℕ

  unfoldable pub keys_of : List (VectorRecord E) → List Bytes
  keys_of [] = []
  keys_of ((key, vector) ∷ rows) = insert key (keys_of rows)

  -- A tier over a base, with a new delta.
  unfoldable pub with_tier :
      DenseBase → List (VectorRecord E) → List Bytes → ℕ → Result TieredDenseIndex
  with_tier base rows tombstones dimension = elim (build_exact E rows) [
    | ok delta ↦ ok (record {
      base = base;
      delta = delta;
      delta_keys = keys_of rows;
      tombstones = tombstones;
      dimension = dimension;
    })
    | err e ↦ err e
  ]

  unfoldable pub empty : Result TieredDenseIndex
  empty =
      and_then (build_exact E [])
        λ index. with_tier (record { index = native_exact index; keys = []; dimension = 0 }) [] [] 0

  unfoldable pub check_tombstones : List Bytes → List Bytes → Result (Unit {0})
  check_tombstones base_keys [] = ok tt
  check_tombstones base_keys (key ∷ rest) =
      unless (not (contains key base_keys)) invalid_argument
        (ascii "dense tombstone does not belong to base") (check_tombstones base_keys rest)

  unfoldable pub check_delta :
      List Bytes → List Bytes → ℕ → List (VectorRecord E) → Result (Unit {0})
  check_delta base_keys tombstones dimension [] = ok tt
  check_delta base_keys tombstones dimension ((key, vector) ∷ rows) =
      unless (not (length vector == dimension)) dimension_mismatch
        (ascii "dense delta row dimension is invalid")
        (unless (contains key base_keys && not (contains key tombstones)) already_exists
          (ascii "dense row is already represented by base")
          (check_delta base_keys tombstones dimension rows))

  unfoldable pub with_delta :
      List (VectorRecord E) → List Bytes → ℕ → TieredDenseIndex → Result TieredDenseIndex
  with_delta live_delta tombstones dimension tiered =
      unless
        (not (tiered.base.dimension == 0)
          && (not (dimension == 0) && not (tiered.base.dimension == dimension)))
        dimension_mismatch (ascii "dense delta dimension is incompatible with base")
        (and_then (check_tombstones tiered.base.keys tombstones) λ _.
          and_then (check_delta tiered.base.keys tombstones dimension live_delta)
            λ _. with_tier tiered.base live_delta tombstones dimension)

  unfoldable pub check_base : ℕ → List (VectorRecord E) → Result (Unit {0})
  check_base dimension [] = ok tt
  check_base dimension ((key, vector) ∷ rows) =
      unless (not (length vector == dimension)) dimension_mismatch
        (ascii "dense base row dimension is invalid") (check_base dimension rows)

  unfoldable pub compact_index : List (VectorRecord E) → ℕ → DensePolicy → Result TieredDenseIndex
  compact_index live_vectors dimension policy = and_then (check_base dimension live_vectors) λ _.
      and_then (build_dense_index policy live_vectors) λ index.
        with_tier (record { index = index; keys = keys_of live_vectors; dimension = dimension }) []
          [] dimension

  unfoldable pub check_keys : List Bytes → List Bytes → Result (Unit {0})
  check_keys seen [] = ok tt
  check_keys seen (key ∷ keys) =
      unless (is_empty key || contains key seen) invalid_argument
        (ascii "dense base key catalog is invalid") (check_keys (insert key seen) keys)

  unfoldable pub from_base : Option DenseIndex → List Bytes → ℕ → Result TieredDenseIndex
  from_base none keys dimension = fail invalid_argument (ascii "dense base index is required")
  from_base (some index) keys dimension =
      unless (not (index_vectors index == length keys) || not (index_dimension index == dimension))
        dimension_mismatch (ascii "dense base index does not match its key catalog")
        (and_then (check_keys [] keys) λ _.
          with_tier (record { index = index; keys = keys; dimension = dimension }) [] [] dimension)

  unfoldable pub contains_base : Bytes → TieredDenseIndex → Bool
  contains_base key tiered = contains key tiered.base.keys && not (contains key tiered.tombstones)

  unfoldable pub contains_delta : Bytes → TieredDenseIndex → Bool
  contains_delta key tiered = contains key tiered.delta_keys

  -- The loop that keeps the best candidate of each chunk; it ends when it has put the `k`th one out.
  unfoldable pub keep_best :
      ℕ
      → List Bytes
      → List (Candidate E.Float)
      → List (Candidate E.Float)
      → List (Candidate E.Float)
  keep_best k seen output [] = output
  keep_best k seen output (candidate ∷ rest) =
      let skipped = keep_best k seen output rest in
      let kept = keep_best k (insert candidate.chunk seen) (output ++ candidate ∷ []) rest in
      if contains candidate.chunk seen
      then skipped
      else if length (output ++ candidate ∷ []) == k
      then output ++ candidate ∷ []
      else kept

  -- A tier with no allowed key is not asked.
  unfoldable pub search_tier :
      DenseIndex → List E.Float → List Bytes → ℕ → Result (List (Candidate E.Float))
  search_tier index query [] k = ok []
  search_tier index query (key ∷ allowed) k = search_index index query (key ∷ allowed) k

  unfoldable pub search_tiered :
      TieredDenseIndex
      → List E.Float
      → List Bytes
      → List Bytes
      → ℕ
      → Result (List (Candidate E.Float))
  search_tiered tiered query base_allowed delta_allowed k =
      and_then (search_tier tiered.base.index query base_allowed k) λ base.
        and_then (search_tier (native_exact tiered.delta) query delta_allowed k)
          λ delta. ok (keep_best k [] [] (sort_by (ranks_before E) (base ++ delta)))
