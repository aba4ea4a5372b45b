-- ===== src/Dense/Index.antt =====
-- rag.cpp/include/rag/dense/index.hpp and rag.cpp/src/dense/index.cpp: the exact index. Its rows stand in a
-- list, where the code has their keys and their numbers in two vectors.
use Prim.Native.Nat.{Ordering}
use llama_rag_runtime.Base.{
  ℕ, Bool, true, false, ◌&&◌, ◌||◌, not, ◌==◌, Option, none, some, List, [], ◌∷◌, if◌then◌else◌,
  length, take, sort_by,
}
use llama_rag_runtime.Core.Types.{
  Bytes, Result, ok, err, ascii, invalid_argument, already_exists, dimension_mismatch, unless,
}
use llama_rag_runtime.Core.Metadata.{compare_bytes}
use llama_rag_runtime.Core.Keyset.{contains, insert}
use llama_rag_runtime.Backend.Types.{Candidate, cosine}
use llama_rag_runtime.Dense.Engine.{Engine}

unfoldable pub is_empty {ℓ} : {A : Type ℓ} → List A → Bool
is_empty [] = true
is_empty (x ∷ xs) = false

module _ (E : Engine) where
  norm_of : E.Double → List E.Float → Option E.Double
  norm_of norm [] = some norm
  norm_of norm (v ∷ vs) =
      let rest = norm_of (E.add_square norm v) vs in if E.is_finite v then rest else none

  unfoldable pub is_normalized : List E.Float → Bool
  unfolding norm_of
  is_normalized [] = false
  is_normalized (v ∷ vs) = elim (norm_of E.zero_norm (v ∷ vs)) [
    | none ↦ false
    | some norm ↦ E.within_unit norm
  ]

  abbrev pub VectorRecord : Type 0
  VectorRecord = Bytes × List E.Float

  pub record NativeExactIndex : Type 0 where
    pub rows : List VectorRecord
    pub dimension : ℕ

  unfoldable pub source_dimension : List VectorRecord → ℕ
  source_dimension [] = 0
  source_dimension ((key, vector) ∷ rows) = length vector

  -- The loop of `build`; `unique` are the keys seen.
  unfoldable pub check_rows : ℕ → List Bytes → List VectorRecord → Result (Unit {0})
  check_rows dimension unique [] = ok tt
  check_rows dimension unique ((key, vector) ∷ rows) =
      unless (is_empty key) invalid_argument (ascii "dense vector key must not be empty") (
        unless (contains key unique) already_exists (ascii "duplicate dense vector key") (
          unless (not (length vector == dimension)) dimension_mismatch
            (ascii "dense vector dimensions differ")
            (unless (not (is_normalized vector)) invalid_argument
              (ascii "dense vector is not unit normalized")
              (check_rows dimension (insert key unique) rows))))

  unfoldable pub build_exact : List VectorRecord → Result NativeExactIndex
  build_exact source =
      unless (not (is_empty source) && source_dimension source == 0) invalid_argument
        (ascii "dense vectors must not be empty")
        (elim (check_rows (source_dimension source) [] source) [
          | ok _ ↦ ok (record { rows = source; dimension = source_dimension source })
          | err e ↦ err e
        ])

  -- The higher score first, then the smaller key.
  unfoldable pub ranks_before : Candidate E.Float → Candidate E.Float → Bool
  ranks_before left right =
      if not (E.float_eq left.raw_score right.raw_score)
      then E.float_gt left.raw_score right.raw_score
      else elim (compare_bytes left.chunk right.chunk) [ Ordering.lt ↦ true | _ ↦ false ]

  unfoldable pub scored : List E.Float → List Bytes → List VectorRecord → List (Candidate E.Float)
  scored query allowed [] = []
  scored query allowed ((key, vector) ∷ rows) =
      let rest = scored query allowed rows in
      if not (is_empty allowed) && not (contains key allowed)
      then rest
      else record { chunk = key; raw_score = E.dot query vector; score_type = cosine } ∷ rest

  -- An empty list of allowed keys allows every row.
  unfoldable pub search_exact :
      NativeExactIndex → List E.Float → List Bytes → ℕ → Result (List (Candidate E.Float))
  search_exact index query allowed k =
      if k == 0 || is_empty index.rows
      then ok []
      else unless (not (length query == index.dimension)) dimension_mismatch
          (ascii "query dimension does not match dense index")
          (unless (not (is_normalized query)) invalid_argument
            (ascii "dense query is not unit normalized")
            (ok (take k (sort_by ranks_before (scored query allowed index.rows)))))
