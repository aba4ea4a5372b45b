-- ===== src/Backend/Embedded/Reference.antt =====
-- The catalog of a generation as a function of its documents, without checks, delta and tombstones; what
-- rag.cpp/src/backend/embedded_backend.cpp builds is this, by whichever writes the documents came.
use llama_rag_runtime.Base.{
  ℕ, ◌+◌, ◌≡◌, refl, ap, sym, subst, ◌∙◌, List, [], ◌∷◌, arith, inl, inr, ◌==◌, if◌then◌else◌,
  length, ◌%◌, ◌^◌, true, false, length-append,
}
use llama_rag_runtime.Core.Types.{Bytes, ok, and_then_ok, unless_ok}
use llama_rag_runtime.Core.Map.{Map}
use llama_rag_runtime.Backend.Types.{PreparedChunk}
use llama_rag_runtime.Dense.Engine.{Engine}
use llama_rag_runtime.Dense.Index.{is_empty}
use llama_rag_runtime.Dense.Tiered.{TieredDenseIndex}
use llama_rag_runtime.Backend.Embedded.State.{ActiveDocument, Generation}
use llama_rag_runtime.Backend.Embedded.Build.{
  Building, catalogued, embedded, add_chunk, add_chunks, agreed, add_document, add_documents,
  nothing_built, generation_of, build_generation,
}
use llama_rag_runtime.Backend.Embedded.Catalog.{add_chunk_cases, build_generation_ok}

module _ (E : Engine) where
  counted : PreparedChunk E.Float → Building E → Building E
  counted c b = record b {
    dense_chunks = b.dense_chunks + 1;
    dimension = if b.dimension == 0 then length c.embedding else b.dimension;
  }

  with_chunk : Bytes → ActiveDocument E.Float → PreparedChunk E.Float → Building E → Building E
  with_chunk d a c b =
      if is_empty c.embedding then catalogued E d a c b else counted c (catalogued E d a c b)

  with_chunks :
      Bytes → ActiveDocument E.Float → List (PreparedChunk E.Float) → Building E → Building E
  with_chunks d a [] b = b
  with_chunks d a (c ∷ cs) b = with_chunks d a cs (with_chunk d a c b)

  with_documents : Map (ActiveDocument E.Float) → Building E → Building E
  with_documents [] b = b
  with_documents ((d, a) ∷ m) b =
      with_documents m (with_chunks d a a.prepared.chunks (agreed E a.prepared b))

  -- The catalog of documents in the order of their keys.
  unfoldable pub catalog_of : Map (ActiveDocument E.Float) → Building E
  unfolding with_documents with_chunks with_chunk counted
  catalog_of m = with_documents m (nothing_built E)

  bare : Building E → Building E
  bare b = record b { delta_vectors = [] }

  add_chunk-with_chunk :
      (dense : TieredDenseIndex E) (delta : List Bytes) (d : Bytes) (a : ActiveDocument E.Float)
      (c : PreparedChunk E.Float) (b e : Building E)
      → add_chunk E dense delta d a c b ≡ ok e
      → bare e ≡ with_chunk d a c (bare b)
  unfolding bare with_chunk counted catalogued embedded
  add_chunk-with_chunk dense delta d a c b e h =
      elim (add_chunk_cases E dense delta d a c b e h).1 [
        | inl (none_there, same) ↦ ap bare same ∙ rw (none_there, with_chunk) refl
        | inr (there, same) ↦ ap bare same ∙ rw (there, with_chunk) refl
      ]

  add_chunks-with_chunks :
      (dense : TieredDenseIndex E) (delta : List Bytes) (d : Bytes) (a : ActiveDocument E.Float)
      (cs : List (PreparedChunk E.Float)) (b e : Building E)
      → add_chunks E dense delta d a cs b ≡ ok e
      → bare e ≡ with_chunks d a cs (bare b)
  unfolding add_chunks with_chunks
  add_chunks-with_chunks dense delta d a [] b e h =
      let same : b ≡ e = ground (arith, h) in ap bare (sym same)
  add_chunks-with_chunks dense delta d a (c ∷ cs) b e h =
      let (m, first, behind) = and_then_ok _ _ e h in
      add_chunks-with_chunks dense delta d a cs m e behind
      ∙ ap (with_chunks d a cs) (add_chunk-with_chunk dense delta d a c b m first)

  add_documents-with_documents :
      (dense : TieredDenseIndex E) (delta : List Bytes) (m : Map (ActiveDocument E.Float))
      (b e : Building E)
      → add_documents E dense delta m b ≡ ok e
      → bare e ≡ with_documents m (bare b)
  unfolding add_documents with_documents add_document agreed bare
  add_documents-with_documents dense delta [] b e h =
      let same : b ≡ e = ground (arith, h) in ap bare (sym same)
  add_documents-with_documents dense delta ((d, a) ∷ m) b e h =
      let (c, first, behind) = and_then_ok _ _ e h in
      let (_, h1) = unless_ok _ _ _ _ c first in
      let (_, h2) = unless_ok _ _ _ _ c h1 in
      add_documents-with_documents dense delta m c e behind
      ∙ ap (with_documents m)
          (add_chunks-with_chunks dense delta d a a.prepared.chunks (agreed E a.prepared b) c h2)

  -- A generation's catalog is that of its documents.
  pub record IsBuilt (g : Generation E) : Type 0 where
    pub chunks : g.chunks ≡ (catalog_of g.documents).chunks
    pub keys : g.ordinal_keys ≡ (catalog_of g.documents).ordinal_keys
    pub lexical : g.lexical ≡ E.finalize (catalog_of g.documents).lexical
    pub dimension : g.dimension ≡ (catalog_of g.documents).dimension

  pub build_generation-IsBuilt :
      (m : Map (ActiveDocument E.Float)) (dense_index : TieredDenseIndex E)
      (delta tombstones : List Bytes) (number : ℕ) (g : Generation E)
      → build_generation E m dense_index delta tombstones number ≡ ok g
      → IsBuilt g
  unfolding generation_of catalog_of bare nothing_built
  build_generation-IsBuilt m dense_index delta tombstones number g h =
      let (b, dense, added, _, same) =
        build_generation_ok E m dense_index delta tombstones number g h in
      let is : bare b ≡ catalog_of m =
        add_documents-with_documents dense_index delta m (nothing_built E) b added in
      subst IsBuilt (sym same) (record {
        chunks = ap (λ (x : Building E). x.chunks) is;
        keys = ap (λ (x : Building E). x.ordinal_keys) is;
        lexical = ap (λ (x : Building E). E.finalize x.lexical) is;
        dimension = ap (λ (x : Building E). x.dimension) is;
      })

-- An index to which `n` texts were added, under the ordinals from 0 on.
pub data IsIndexOf (E : Engine) : ℕ → E.Lexical → Type 0 where
  no_texts : IsIndexOf E 0 E.empty_lexical
  added :
      {n : ℕ} {l : E.Lexical} (text : Bytes)
      → IsIndexOf E n l
      → IsIndexOf E (n + 1) (E.add_text (n % 2 ^ 32) text l)

module _ (E : Engine) where
  -- The ordinals of the lexical index are those of the keys.
  abbrev pub IsIndexed : Building E → Type 0
  IsIndexed b = IsIndexOf E b.ordinal b.lexical × (length b.ordinal_keys ≡ b.ordinal)

  with_chunk-IsIndexed :
      (d : Bytes) (a : ActiveDocument E.Float) (c : PreparedChunk E.Float) (b : Building E)
      → IsIndexed b
      → IsIndexed (with_chunk E d a c b)
  unfolding with_chunk counted catalogued
  with_chunk-IsIndexed d a c b h =
      let next : IsIndexed (catalogued E d a c b) = (
        added c.indexed_text h.0,
        length-append b.ordinal_keys (c.key ∷ []) ∙ ap (λ n. n + 1) h.1,
      ) in
      elim (is_empty c.embedding)
        as (λ t.
          IsIndexed (if t then catalogued E d a c b else counted E c (catalogued E d a c b))) [
            | true ↦ next
            | false ↦ next
          ]

  with_chunks-IsIndexed :
      (d : Bytes) (a : ActiveDocument E.Float) (cs : List (PreparedChunk E.Float)) (b : Building E)
      → IsIndexed b
      → IsIndexed (with_chunks E d a cs b)
  unfolding with_chunks
  with_chunks-IsIndexed d a [] b h = h
  with_chunks-IsIndexed d a (c ∷ cs) b h =
      with_chunks-IsIndexed d a cs (with_chunk E d a c b) (with_chunk-IsIndexed d a c b h)

  with_documents-IsIndexed :
      (m : Map (ActiveDocument E.Float)) (b : Building E)
      → IsIndexed b
      → IsIndexed (with_documents E m b)
  unfolding with_documents agreed
  with_documents-IsIndexed [] b h = h
  with_documents-IsIndexed ((d, a) ∷ m) b h =
      with_documents-IsIndexed m _
        (with_chunks-IsIndexed d a a.prepared.chunks (agreed E a.prepared b) h)

  pub catalog_of-IsIndexed : (m : Map (ActiveDocument E.Float)) → IsIndexed (catalog_of E m)
  unfolding catalog_of nothing_built
  catalog_of-IsIndexed m = with_documents-IsIndexed m (nothing_built E) (no_texts, refl)
