-- ===== src/Backend/Embedded/Tiers.antt =====
-- The data contract of the dense tiers (rag.cpp/include/rag/backend/embedded_backend.hpp): what the base stands for,
-- what the delta has, and what the tombstones hide.
use llama_rag_runtime.Base.{
  ℕ, Bool, true, false, ◌&&◌, not, ◌≡◌, refl, sym, subst, some, List, arith, ◌⊎◌, inl, inr, All,
  Bool-cases,
}
use llama_rag_runtime.Core.Types.{Bytes, ok}
use llama_rag_runtime.Core.Map.{Map, find}
use llama_rag_runtime.Core.Keyset.{contains}
use llama_rag_runtime.Core.Ordered.{All-find}
use llama_rag_runtime.Backend.Types.{PreparedChunk}
use llama_rag_runtime.Dense.Engine.{Engine}
use llama_rag_runtime.Dense.Index.{is_empty, VectorRecord}
use llama_rag_runtime.Dense.Tiered.{TieredDenseIndex, keys_of, contains_base, contains_delta}
use llama_rag_runtime.Backend.Embedded.State.{ActiveDocument, Generation}
use llama_rag_runtime.Backend.Embedded.Build.{build_generation, generation_of}
use llama_rag_runtime.Backend.Embedded.Read.{get_elem?}
use llama_rag_runtime.Backend.Embedded.Rows.{All-get_elem?, keys_of-All, with_delta_ok}
use llama_rag_runtime.Backend.Embedded.Delta.{delta_rows, IsWanted}
use llama_rag_runtime.Backend.Embedded.Catalog.{build_generation_ok}

-- A chunk of an active document, at its place.
abbrev pub IsChunk :
    {F : Type 0} → Map (ActiveDocument F) → Bytes → ActiveDocument F → PreparedChunk F → Type 0
IsChunk m d a c = (find d m ≡ some a) × (get_elem? c.ordinal a.prepared.chunks ≡ some c)

module _ (E : Engine) where
  -- Each live chunk with an embedding is in the base or in the delta; no key is in both; a row of the base that no
  -- tombstone hides is live; and the base stands for the documents outside the delta.
  pub record IsTiered (g : Generation E) : Type 0 where
    pub covered :
        (d : Bytes) (a : ActiveDocument E.Float) (c : PreparedChunk E.Float)
        → IsChunk g.documents d a c
        → is_empty c.embedding ≡ false
        → (contains_base E c.key g.dense ≡ true) ⊎ (contains_delta E c.key g.dense ≡ true)
    pub exclusive :
        (k : Bytes) → contains_delta E k g.dense ≡ true → contains_base E k g.dense ≡ false
    pub live :
        (k : Bytes)
        → contains_base E k g.dense ≡ true
        → (d : Bytes) × (a : ActiveDocument E.Float) × (c : PreparedChunk E.Float) × IsChunk
            g.documents d a c
          × (c.key ≡ k)
    pub settled :
        (d : Bytes) (a : ActiveDocument E.Float) (c : PreparedChunk E.Float)
        → IsChunk g.documents d a c
        → is_empty c.embedding ≡ false
        → contains d g.delta_documents ≡ false
        → contains_base E c.key g.dense ≡ true

  -- What a writer hands to `build_generation`.
  pub record IsHandedOver (m : Map (ActiveDocument E.Float)) (dense : TieredDenseIndex E)
      (delta tombstones : List Bytes) : Type 0 where
    pub hidden : (k : Bytes) → contains k dense.tombstones ≡ true → contains k tombstones ≡ true
    pub kept :
        (d : Bytes) (a : ActiveDocument E.Float) (c : PreparedChunk E.Float)
        → IsChunk m d a c
        → contains_base E c.key dense ≡ true
        → contains c.key tombstones ≡ false
    pub settled :
        (d : Bytes) (a : ActiveDocument E.Float) (c : PreparedChunk E.Float)
        → IsChunk m d a c
        → is_empty c.embedding ≡ false
        → contains d delta ≡ false
        → contains_base E c.key dense ≡ true
    pub live :
        (k : Bytes)
        → contains_base E k dense ≡ true
        → contains k tombstones ≡ false
        → (d : Bytes) × (a : ActiveDocument E.Float) × (c : PreparedChunk E.Float) × IsChunk m d a c
          × (c.key ≡ k)

  pub contains_base_of :
      (k : Bytes) (t : TieredDenseIndex E)
      → contains_base E k t ≡ (contains k t.base.keys && not (contains k t.tombstones))
  unfolding contains_base
  contains_base_of k t = refl

  pub rebased :
      (k : Bytes) (t s : TieredDenseIndex E) (tombstones : List Bytes)
      → t.base ≡ s.base
      → t.tombstones ≡ tombstones
      → contains_base E k t ≡ (contains k s.base.keys && not (contains k tombstones))
  unfolding contains_base
  rebased k t s tombstones base hides = λ i. contains k (base i).keys && not (contains k (hides i))

  wanted_at :
      (dense_index : TieredDenseIndex E) (delta : List Bytes) (m : Map (ActiveDocument E.Float))
      (rows : List (VectorRecord E)) (d : Bytes) (a : ActiveDocument E.Float)
      (c : PreparedChunk E.Float)
      → All (λ (d, a). IsWanted E dense_index delta rows d a.prepared.chunks) m
      → IsChunk m d a c
      → is_empty c.embedding ≡ false
      → contains d delta ≡ true
      → contains_base E c.key dense_index ≡ false
      → contains c.key (keys_of E rows) ≡ true
  wanted_at dense_index delta m rows d a c wanted chunk =
      All-get_elem? _ c.ordinal a.prepared.chunks c
        (All-find (λ (d, a). IsWanted E dense_index delta rows d a.prepared.chunks) d a m wanted
          chunk.0)
        chunk.1

  pub build_generation-IsTiered :
      (m : Map (ActiveDocument E.Float)) (dense_index : TieredDenseIndex E)
      (delta tombstones : List Bytes) (number : ℕ) (g : Generation E)
      → IsHandedOver m dense_index delta tombstones
      → build_generation E m dense_index delta tombstones number ≡ ok g
      → IsTiered g
  unfolding generation_of contains_base contains_delta
  build_generation-IsTiered m dense_index delta tombstones number g v h =
      let (b, dense, added, tiered, same) =
        build_generation_ok E m dense_index delta tombstones number g h in
      let (base, hides, rows) =
        with_delta_ok E b.delta_vectors tombstones b.dimension dense_index dense tiered in
      let (outside, wanted) = delta_rows E dense_index delta m b added in
      let now : (k : Bytes)
          → contains_base E k dense
            ≡ (contains k dense_index.base.keys && not (contains k tombstones)) =
        λ k. rebased k dense dense_index tombstones base hides in
      let old = λ (k : Bytes). contains_base_of k dense_index in
      let in_base : (k : Bytes)
          → contains_base E k dense_index ≡ true
          → contains k tombstones ≡ false
          → contains_base E k dense ≡ true =
        λ k there shown. ground (arith, now k, old k, there, shown) in
      subst IsTiered (sym same) (record {
        covered = λ d a c chunk there. elim (Bool-cases (contains_base E c.key dense_index)) [
          | inl stands ↦ inl (in_base c.key stands (v.kept d a c chunk stands))
          | inr out ↦ elim (Bool-cases (contains d delta)) [
            | inl delayed ↦ inr (
                rw rows (
                  wanted_at dense_index delta m b.delta_vectors d a c wanted chunk there delayed
                    out))
            | inr early ↦ absurd (
                true_ne_false (contains_base E c.key dense_index)
                  (v.settled d a c chunk there early) out)
          ]
        ];
        exclusive = λ k there.
            let out : contains_base E k dense_index ≡ false =
              keys_of-All E (λ j. contains_base E j dense_index ≡ false) k b.delta_vectors outside
                (subst (λ ks. contains k ks ≡ true) rows there) in
            ground (arith, now k, old k, out, v.hidden k);
        live = λ k there.
            v.live k (ground (arith, now k, old k, there, v.hidden k))
              (ground (arith, now k, there));
        settled = λ d a c chunk there early.
            let stands = v.settled d a c chunk there early in
            in_base c.key stands (v.kept d a c chunk stands);
      })
    where
      true_ne_false : (b : Bool) → b ≡ true → b ≡ false → ⊥
      true_ne_false b h k = ground (arith, h, k)
