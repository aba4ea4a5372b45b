-- ===== src/Backend/Embedded/Contract.antt =====
-- The writers of rag.cpp/src/backend/embedded_backend.cpp keep the data contract of the dense tiers.
use llama_rag_runtime.Base.{
  true, false, ◌&&◌, ◌||◌, not, ◌≡◌, refl, ap, sym, subst, none, some, List, arith, ◌⊎◌, inl, inr,
  Bool-cases, ◌∙◌, Option-cases,
}
use llama_rag_runtime.Core.Types.{Bytes}
use llama_rag_runtime.Core.Map.{Map, key_eq, key_eq_iff, find}
use llama_rag_runtime.Core.Keyset.{contains}
use llama_rag_runtime.Core.Ordered.{All-find}
use llama_rag_runtime.Backend.Types.{PreparedChunk, StoredChunk}
use llama_rag_runtime.Dense.Engine.{Engine}
use llama_rag_runtime.Dense.Tiered.{contains_base}
use llama_rag_runtime.Backend.Embedded.State.{ActiveDocument, Generation}
use llama_rag_runtime.Backend.Embedded.Build.{stored_chunk}
use llama_rag_runtime.Backend.Embedded.Write.{chunk_keys, tombstones_for}
use llama_rag_runtime.Backend.Embedded.Rows.{
  All-get_elem?, chunk_keys-get_elem?, chunk_keys-IsPlaced, contains-buried,
}
use llama_rag_runtime.Backend.Embedded.Catalog.{IsComplete, IsListed, IsPlaced}
use llama_rag_runtime.Backend.Embedded.Tiers.{IsChunk, IsTiered, IsHandedOver, contains_base_of}

module _ (E : Engine) where
  -- A chunk stands in the catalog under its key, so that no two documents have a key in common.
  one_document :
      (g : Generation E) (d e : Bytes) (a b : ActiveDocument E.Float) (c f : PreparedChunk E.Float)
      → IsComplete E g
      → IsChunk g.documents d a c
      → IsChunk g.documents e b f
      → c.key ≡ f.key
      → d ≡ e
  unfolding stored_chunk
  one_document g d e a b c f v first second same =
      let one : find c.key g.chunks ≡ some (stored_chunk d a c) = listed d a c first in
      let two : find f.key g.chunks ≡ some (stored_chunk e b f) = listed e b f second in
      let stored : stored_chunk d a c ≡ stored_chunk e b f = ground (arith, one, two, same) in
      ap (λ (s : StoredChunk E.Float). s.document) stored
    where
      listed :
          (d : Bytes) (a : ActiveDocument E.Float) (c : PreparedChunk E.Float)
          → IsChunk g.documents d a c
          → find c.key g.chunks ≡ some (stored_chunk d a c)
      listed d a c chunk =
          All-get_elem? _ c.ordinal a.prepared.chunks c
            (All-find (λ (d, a). IsListed g.chunks d a a.prepared.chunks) d a g.documents v.listed
              chunk.0)
            chunk.1

  -- The documents of a writer: `d` has the chunks `cs`, and the others are as they were.
  pub record IsChanged (g : Generation E) (d : Bytes) (cs : List (PreparedChunk E.Float))
      (m : Map (ActiveDocument E.Float)) (delta : List Bytes) : Type 0 where
    pub others : (j : Bytes) → key_eq d j ≡ false → find j m ≡ find j g.documents
    pub delayed : (j : Bytes) → key_eq d j ≡ false → contains j delta ≡ contains j g.delta_documents
    pub itself : (a : ActiveDocument E.Float) → find d m ≡ some a → contains d delta ≡ true
    pub given :
        (a : ActiveDocument E.Float) (c : PreparedChunk E.Float)
        → IsChunk m d a c
        → contains c.key (chunk_keys E cs) ≡ true
    pub taken :
        (k : Bytes)
        → contains k (chunk_keys E cs) ≡ true
        → (a : ActiveDocument E.Float) × (c : PreparedChunk E.Float) × IsChunk m d a c × (c.key ≡ k)

  -- What a tombstone of a writer is: one that was there, or a key of the old version that is in the base and not kept.
  tombstones_for_cases :
      (g : Generation E) (d k : Bytes) (cs : List (PreparedChunk E.Float))
      → ((find d g.documents ≡ none)
          × (contains k (tombstones_for E g d cs) ≡ contains k g.dense.tombstones))
        ⊎ ((o : ActiveDocument E.Float) × (find d g.documents ≡ some o)
            × (contains k (tombstones_for E g d cs) ≡ (
                contains k g.dense.tombstones
                || (contains k (chunk_keys E o.prepared.chunks)
                    && (contains_base E k g.dense && not (contains k (chunk_keys E cs)))))))
  unfolding tombstones_for
  tombstones_for_cases g d k cs = elim (Option-cases (find d g.documents)) [
    | inl nothing ↦ inl (nothing, rw (nothing, tombstones_for) refl)
    | inr (o, there) ↦ inr (
      o,
      there,
      rw (there, tombstones_for)
          (contains-buried E k g.dense (chunk_keys E cs) o.prepared.chunks g.dense.tombstones),
    )
  ]

  pub changed-IsHandedOver :
      (g : Generation E) (d : Bytes) (cs : List (PreparedChunk E.Float))
      (m : Map (ActiveDocument E.Float)) (delta : List Bytes)
      → IsComplete E g
      → ((o : ActiveDocument E.Float)
          → find d g.documents ≡ some o
          → IsPlaced o.prepared.chunks o.prepared.chunks)
      → IsTiered E g
      → IsChanged g d cs m delta
      → IsHandedOver E m g.dense delta (tombstones_for E g d cs)
  changed-IsHandedOver g d cs m delta complete placed tiered v = record {
    hidden = λ k there. elim (tombstones_for_cases g d k cs) [
      | inl (_, same) ↦ ground (arith, same, there)
      | inr (o, _, same) ↦ ground (arith, same, there)
    ];
    kept = λ e a c chunk stands. elim (tombstones_for_cases g d c.key cs) [
      | inl (_, same) ↦ ground (arith, same, stands, contains_base_of E c.key g.dense)
      | inr (o, there, same) ↦ elim (Bool-cases (key_eq d e)) [
        | inl itself ↦
            let own : contains c.key (chunk_keys E cs) ≡ true =
              v.given a c (subst (λ j. IsChunk m j a c) (sym ((key_eq_iff d e).0 itself)) chunk) in
            ground (arith, same, stands, own, contains_base_of E c.key g.dense)
        | inr other ↦ elim (Bool-cases (contains c.key (chunk_keys E o.prepared.chunks))) [
          | inl shared ↦
              let (f, at, equal) =
                chunk_keys-IsPlaced E c.key o.prepared.chunks o.prepared.chunks (placed o there)
                  shared in
              let both : d ≡ e =
                one_document g d e o a f c complete (there, at)
                  (sym (v.others e other) ∙ chunk.0, chunk.1) equal in
              absurd (ground (arith, other, both, key_eq_iff d e))
          | inr alone ↦ ground (arith, same, alone, stands, contains_base_of E c.key g.dense)
        ]
      ]
    ];
    settled = λ e a c chunk there early. elim (Bool-cases (key_eq d e)) [
      | inl itself ↦
          let mine : find d m ≡ some a =
            subst (λ j. find j m ≡ some a) (sym ((key_eq_iff d e).0 itself)) chunk.0 in
          absurd (ground (arith, v.itself a mine, early, (key_eq_iff d e).0 itself))
      | inr other ↦
          tiered.settled e a c (sym (v.others e other) ∙ chunk.0, chunk.1) there
            (sym (v.delayed e other) ∙ early)
    ];
    live = λ k stands shown.
        let (e, a, c, chunk, equal) = tiered.live k stands in
        elim (Bool-cases (key_eq d e)) [
          | inl itself ↦
              let mine : find d g.documents ≡ some a =
                subst (λ j. find j g.documents ≡ some a) (sym ((key_eq_iff d e).0 itself))
                  chunk.0 in
              let old : contains k (chunk_keys E a.prepared.chunks) ≡ true =
                subst (λ j. contains j (chunk_keys E a.prepared.chunks) ≡ true) equal
                  (chunk_keys-get_elem? E c.ordinal a.prepared.chunks c chunk.1) in
              let (b, f, at, is) = v.taken k (elim (tombstones_for_cases g d k cs) [
                | inl (nothing, _) ↦ absurd (ground (arith, nothing, mine))
                | inr (o, there, same) ↦
                    let sames : o ≡ a = ground (arith, there, mine) in
                    let olds : contains k (chunk_keys E o.prepared.chunks) ≡ true =
                      subst
                        (λ (x : ActiveDocument E.Float).
                          contains k (chunk_keys E x.prepared.chunks) ≡ true)
                        (sym sames) old in
                    ground (arith, same, shown, stands, olds)
              ]) in
              (d, b, f, at, is)
          | inr other ↦ (e, a, c, (v.others e other ∙ chunk.0, chunk.1), equal)
        ];
  }
