-- ===== src/Backend/Types.antt =====
-- rag.cpp/include/rag/backend/candidate_backend.hpp: the backend-neutral records. `F` is `float`.
use llama_rag_runtime.Base.{
  ℕ, Bool, true, false, ◌&&◌, not, none, some, List, [], ◌∷◌, if◌then◌else◌,
}
use llama_rag_runtime.Core.Types.{Bytes}
use llama_rag_runtime.Core.Metadata.{Metadata}
use llama_rag_runtime.Core.Map.{Map, find}
use llama_rag_runtime.Core.Keyset.{contains}

-- Keys are combined with AND and the values within a key with OR. The values are sorted and unique, so
-- that `std::binary_search` finds the members.
pub record MetadataFilter : Type 0 where
  pub required : Map (List Bytes)
  pub supplied : Bool

all_match : Map (List Bytes) → Metadata → Bool
all_match [] actual = true
all_match ((key, allowed) ∷ required) actual = elim (find key actual) [
  | none ↦ false
  | some value ↦ contains value allowed && all_match required actual
]

unfoldable pub matches : MetadataFilter → Metadata → Bool
unfolding all_match
matches filter actual =
    if not filter.supplied
    then true
    else elim filter.required [ [] ↦ false | r ∷ rs ↦ all_match (r ∷ rs) actual ]

-- `request.filter && !request.filter.matches(metadata)`.
unfoldable pub is_filtered : MetadataFilter → Metadata → Bool
is_filtered filter actual = filter.supplied && not (matches filter actual)

pub record PreparedChunk (F : Type 0) : Type 0 where
  pub key : Bytes
  pub ordinal : ℕ
  pub text : Bytes
  pub indexed_text : Bytes
  pub context : Bytes
  pub start_line : ℕ
  pub end_line : ℕ
  pub embedding : List F

pub record PreparedDocument (F : Type 0) : Type 0 where
  pub key : Bytes
  pub title : Bytes
  pub content : Bytes
  pub metadata : Metadata
  pub content_hash : Bytes
  pub chunking_fingerprint : Bytes
  pub embedding_identity : Bytes
  pub chunks : List (PreparedChunk F)

pub data ScoreType : Type 0 where
  bm25 cosine : ScoreType

pub record Candidate (F : Type 0) : Type 0 where
  pub chunk : Bytes
  pub raw_score : F
  pub score_type : ScoreType

pub record LexicalRequest : Type 0 where
  pub query : Bytes
  pub k : ℕ
  pub filter : MetadataFilter

pub record DenseRequest (F : Type 0) : Type 0 where
  pub query : List F
  pub k : ℕ
  pub filter : MetadataFilter

pub record FetchOptions : Type 0 where
  pub include_text : Bool
  pub include_embedding : Bool

pub record StoredChunk (F : Type 0) : Type 0 where
  pub key : Bytes
  pub document : Bytes
  pub revision : ℕ
  pub ordinal : ℕ
  pub title : Bytes
  pub text : Bytes
  pub context : Bytes
  pub metadata : Metadata
  pub start_line : ℕ
  pub end_line : ℕ
  pub embedding : List F
