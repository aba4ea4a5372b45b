-- ===== src/Backend/Embedded/Write.antt =====
-- The writers of `EmbeddedBackend`: `activate`, `erase`, `compact`, the maintenance thread and the constructor
-- (rag.cpp/src/backend/embedded_backend.cpp). `writer_mutex_` makes each function one step; `compact` is two,
-- since it builds outside the mutex.
use llama_rag_runtime.Base.{
  ℕ, ◌+◌, ◌*◌, Bool, true, false, ◌&&◌, ◌||◌, not, ◌==◌, leb, ltb, Option, none, some, List, [],
  ◌∷◌, ◌++◌, ◌%◌, ◌^◌, if◌then◌else◌, length,
}
use llama_rag_runtime.Core.Types.{
  Bytes, Result, ok, err, fail, ascii, invalid_argument, already_exists, unavailable, unless,
  and_then,
}
use llama_rag_runtime.Core.Map.{Map, key_eq, find}
use llama_rag_runtime.Core.Ordered.{put, remove}
use llama_rag_runtime.Core.Keyset.{contains, insert, erase}
use llama_rag_runtime.Backend.Types.{PreparedChunk, PreparedDocument}
use llama_rag_runtime.Dense.Engine.{Engine}
use llama_rag_runtime.Dense.Index.{is_empty, VectorRecord}
use llama_rag_runtime.Dense.Tiered.{TieredDenseIndex, empty, contains_base, compact_index}
use llama_rag_runtime.Backend.Embedded.Validate.{validate}
use llama_rag_runtime.Backend.Embedded.State.{
  ActiveDocument, EmbeddedMaintenancePolicy, Generation, EmbeddedBackend,
}
use llama_rag_runtime.Backend.Embedded.Build.{build_generation}

module _ (E : Engine) where
  -- What a call answers, and the backend it leaves.
  abbrev pub Answer : Type 0 → Type 0
  Answer A = Result A × EmbeddedBackend E

  unfoldable pub chunk_keys : List (PreparedChunk E.Float) → List Bytes
  chunk_keys [] = []
  chunk_keys (chunk ∷ chunks) = insert chunk.key (chunk_keys chunks)

  -- The chunks that a writer removes: those in the base get a tombstone, unless they are kept.
  unfoldable pub buried :
      TieredDenseIndex E → List Bytes → List (PreparedChunk E.Float) → List Bytes → List Bytes
  buried dense kept [] tombstones = tombstones
  buried dense kept (chunk ∷ chunks) tombstones = buried dense kept chunks (
      if contains_base E chunk.key dense && not (contains chunk.key kept)
      then insert chunk.key tombstones
      else tombstones)

  unfoldable pub tombstones_for : Generation E → Bytes → List (PreparedChunk E.Float) → List Bytes
  tombstones_for current document kept = elim (find document current.documents) [
    | none ↦ current.dense.tombstones
    | some old ↦ buried current.dense (chunk_keys kept) old.prepared.chunks current.dense.tombstones
  ]

  -- `revision <= latest->second`, if the document has a latest revision.
  unfoldable pub is_behind : ℕ → Option ℕ → Bool
  is_behind revision none = false
  is_behind revision (some latest) = leb revision latest

  unfoldable pub is_latest : ℕ → Option ℕ → Bool
  is_latest revision none = false
  is_latest revision (some latest) = revision == latest

  unfoldable pub is_same : PreparedDocument E.Float → ℕ → Option (ActiveDocument E.Float) → Bool
  is_same document revision none = false
  is_same document revision (some active) =
      active.revision == revision && key_eq active.prepared.content_hash document.content_hash

  unfoldable pub scheduled : EmbeddedBackend E → EmbeddedBackend E
  scheduled b = record b {
    maintenance_pending = b.policy.automatic_compaction || b.maintenance_pending;
  }

  unfoldable pub stored : Bytes → ℕ → Generation E → EmbeddedBackend E → EmbeddedBackend E
  stored document revision next b = record b {
    latest_revisions = put document revision b.latest_revisions;
    active = next;
    stores = b.stores + 1;
  }

  -- The end of a writer: the new generation is published under the revision.
  unfoldable pub published :
      {A : Type 0} → Bytes → ℕ → A → EmbeddedBackend E → Result (Generation E) → Answer A
  published document revision answer b (err e) = (err e, b)
  published document revision answer b (ok next) =
      (ok answer, scheduled (stored document revision next b))

  unfoldable pub next_activated :
      PreparedDocument E.Float → ℕ → Generation E → Result (Generation E)
  next_activated document revision current =
      build_generation E
        (put document.key (record { revision = revision; prepared = document }) current.documents)
        current.dense (insert document.key current.delta_documents)
        (tombstones_for current document.key document.chunks) ((current.number + 1) % 2 ^ 64)

  unfoldable pub activate_valid :
      PreparedDocument E.Float → ℕ → EmbeddedBackend E → Answer (Unit {0})
  activate_valid document revision b =
      if is_behind revision (find document.key b.latest_revisions)
      then if is_latest revision (find document.key b.latest_revisions)
          && is_same document revision (find document.key b.active.documents)
        then (ok tt, b)
        else (fail already_exists (ascii "document revision is stale"), b)
      else published document.key revision tt b (next_activated document revision b.active)

  unfoldable pub activate : PreparedDocument E.Float → ℕ → EmbeddedBackend E → Answer (Unit {0})
  activate document revision b = elim (validate E document revision) [
    | err e ↦ (err e, b)
    | ok _ ↦ activate_valid document revision b
  ]

  unfoldable pub is_active : {A : Type 0} → Option A → Bool
  is_active none = false
  is_active (some active) = true

  unfoldable pub next_erased : Bytes → Generation E → Result (Generation E)
  next_erased document current =
      build_generation E (remove document current.documents) current.dense
        (erase document current.delta_documents) (tombstones_for current document [])
        ((current.number + 1) % 2 ^ 64)

  unfoldable pub erase_active : Bytes → ℕ → EmbeddedBackend E → Answer Bool
  erase_active document revision b =
      if is_empty document || revision == 0
      then (fail invalid_argument (ascii "document key and revision are required"), b)
      else if is_behind revision (find document b.latest_revisions)
      then if is_latest revision (find document b.latest_revisions)
          && not (is_active (find document b.active.documents))
        then (ok false, b)
        else (fail already_exists (ascii "document revision is stale"), b)
      else published document revision (is_active (find document b.active.documents)) b
          (next_erased document b.active)

  unfoldable pub chunk_vectors : List (PreparedChunk E.Float) → List (VectorRecord E)
  chunk_vectors [] = []
  chunk_vectors (chunk ∷ chunks) =
      let rest = chunk_vectors chunks in
      if is_empty chunk.embedding then rest else (chunk.key, chunk.embedding) ∷ rest

  unfoldable pub live_vectors : Map (ActiveDocument E.Float) → List (VectorRecord E)
  live_vectors [] = []
  live_vectors ((document_key, active) ∷ documents) =
      chunk_vectors active.prepared.chunks ++ live_vectors documents

  -- The product of 64-bit numbers; `sizeof(float)` is 4.
  unfoldable pub estimated_bytes : Generation E → ℕ
  estimated_bytes snapshot = length snapshot.chunks * snapshot.dimension * 4 % 2 ^ 64

  -- `compact` up to the mutex, on the generation it has read.
  unfoldable pub built_compaction :
      EmbeddedMaintenancePolicy → Bool → Generation E → Result (Generation E)
  built_compaction policy override_memory_budget snapshot =
      unless
        (not override_memory_budget
          && ltb policy.compaction_memory_budget (estimated_bytes snapshot))
        unavailable (ascii "compaction exceeds configured memory budget")
        (and_then
          (compact_index E (live_vectors snapshot.documents) snapshot.dimension policy.dense)
          λ dense.
            build_generation E snapshot.documents dense [] [] ((snapshot.number + 1) % 2 ^ 64))

  -- `compact` under the mutex: `pointer` is the pointer it has read.
  unfoldable pub publish_compacted : ℕ → Generation E → EmbeddedBackend E → Answer (Unit {0})
  publish_compacted pointer compacted b =
      if not (b.stores == pointer)
      then (fail unavailable (ascii "generation changed while compaction was building"), b)
      else (ok tt, record b { active = compacted; stores = b.stores + 1 })

  -- The constructor.
  unfoldable pub create : EmbeddedMaintenancePolicy → Result (EmbeddedBackend E)
  create policy = and_then (empty E) λ dense.
      and_then (build_generation E [] dense [] [] 0) λ generation. ok (record {
        policy = policy;
        latest_revisions = [];
        active = generation;
        stores = 1;
        maintenance_pending = false;
      })
