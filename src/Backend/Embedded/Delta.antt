-- ===== src/Backend/Embedded/Delta.antt =====
-- What `build_generation` of rag.cpp/src/backend/embedded_backend.cpp puts in the delta of the dense index.
use llama_rag_runtime.Base.{
  Bool, true, false, ◌&&◌, ◌||◌, not, ◌≡◌, refl, ap, sym, subst, List, [], ◌∷◌, ◌++◌, arith, inl,
  inr, All, All-append, if◌then◌else◌, ◌∙◌, append_assoc, append-nil,
}
use llama_rag_runtime.Core.Types.{Bytes, ok, and_then_ok, unless_ok}
use llama_rag_runtime.Core.Map.{Map, key_eq_refl}
use llama_rag_runtime.Core.Keyset.{contains}
use llama_rag_runtime.Backend.Types.{PreparedChunk}
use llama_rag_runtime.Dense.Engine.{Engine}
use llama_rag_runtime.Dense.Index.{is_empty, VectorRecord}
use llama_rag_runtime.Dense.Tiered.{TieredDenseIndex, keys_of, contains_base}
use llama_rag_runtime.Backend.Embedded.State.{ActiveDocument}
use llama_rag_runtime.Backend.Embedded.Build.{
  Building, catalogued, embedded, add_chunk, add_chunks, agreed, add_document, add_documents,
  nothing_built,
}
use llama_rag_runtime.Backend.Embedded.Rows.{contains-keys_of_cons, contains-keys_of_append}
use llama_rag_runtime.Backend.Embedded.Catalog.{add_chunk_cases}

module _ (E : Engine) (dense_index : TieredDenseIndex E) (delta : List Bytes) where
  -- The rows of the delta are not those that the base stands for, and are of the documents of the delta.
  abbrev pub IsDelta : List (VectorRecord E) → Type 0
  IsDelta = All λ (k, _). contains_base E k dense_index ≡ false

  -- The chunks that the delta must have.
  abbrev pub IsWanted : List (VectorRecord E) → Bytes → List (PreparedChunk E.Float) → Type 0
  IsWanted rows d = All λ c.
      is_empty c.embedding ≡ false
      → contains d delta ≡ true
      → contains_base E c.key dense_index ≡ false
      → contains c.key (keys_of E rows) ≡ true

  -- Rows are added behind those that were there.
  pub record Rows (b e : Building E) : Type 0 where
    pub more : List (VectorRecord E)
    pub behind : e.delta_vectors ≡ b.delta_vectors ++ more
    pub outside : IsDelta more

  Rows-contains :
      (b e : Building E) (k : Bytes)
      → Rows b e
      → contains k (keys_of E b.delta_vectors) ≡ true
      → contains k (keys_of E e.delta_vectors) ≡ true
  Rows-contains b e k r h =
      rw (r.behind, contains-keys_of_append E k b.delta_vectors r.more, h) refl

  Rows-trans : (a b c : Building E) → Rows a b → Rows b c → Rows a c
  Rows-trans a b c r s = record {
    more = r.more ++ s.more;
    behind =
        s.behind
        ∙ (ap (λ rows. rows ++ s.more) r.behind ∙ append_assoc a.delta_vectors r.more s.more);
    outside = All-append _ r.more s.more r.outside s.outside;
  }

  IsWanted-Rows :
      (b e : Building E) (d : Bytes) (cs : List (PreparedChunk E.Float))
      → Rows b e
      → IsWanted b.delta_vectors d cs
      → IsWanted e.delta_vectors d cs
  IsWanted-Rows b e d [] r h = tt
  IsWanted-Rows b e d (c ∷ cs) r h = (
    λ there delayed out. Rows-contains b e c.key r (h.0 there delayed out),
    IsWanted-Rows b e d cs r h.1,
  )

  no-Rows : (b e : Building E) → e.delta_vectors ≡ b.delta_vectors → Rows b e
  no-Rows b e same = record {
    more = [];
    behind = same ∙ sym (append-nil b.delta_vectors);
    outside = tt;
  }

  -- One row behind the others, if the test says so.
  maybe_row :
      (test : Bool) (k : Bytes) (v : List E.Float) (b e : Building E)
      → e.delta_vectors ≡ (if test then b.delta_vectors ++ (k, v) ∷ [] else b.delta_vectors)
      → (test ≡ true → contains_base E k dense_index ≡ false)
      → Rows b e × (test ≡ true → contains k (keys_of E e.delta_vectors) ≡ true)
  unfolding keys_of contains
  maybe_row true k v b e same out = (
    record { more = (k, v) ∷ []; behind = same; outside = (out refl, tt) },
    λ _.
        rw
          (
            same,
            contains-keys_of_append E k b.delta_vectors ((k, v) ∷ []),
            contains-keys_of_cons E k k v [],
            key_eq_refl k,
          )
          (or_true (contains k (keys_of E b.delta_vectors))),
  )
    where
      or_true : (x : Bool) → (x || true) ≡ true
      or_true x = ground arith
  maybe_row false k v b e same out = (no-Rows b e same, λ h. absurd (ground (arith, h)))

  add_chunk-Rows :
      (d : Bytes) (a : ActiveDocument E.Float) (c : PreparedChunk E.Float) (b e : Building E)
      → add_chunk E dense_index delta d a c b ≡ ok e
      → Rows b e
        × (is_empty c.embedding ≡ false
            → contains d delta ≡ true
            → contains_base E c.key dense_index ≡ false
            → contains c.key (keys_of E e.delta_vectors) ≡ true)
  unfolding catalogued embedded
  add_chunk-Rows d a c b e h = elim (add_chunk_cases E dense_index delta d a c b e h).1 [
    | inl (none_there, same) ↦ (
      no-Rows b e (ap (λ (x : Building E). x.delta_vectors) same),
      λ there. absurd (ground (arith, there, none_there)),
    )
    | inr (there, same) ↦
        let (rows, wanted) =
          maybe_row (contains d delta && not (contains_base E c.key dense_index)) c.key c.embedding
            b e (ap (λ (x : Building E). x.delta_vectors) same) (λ t. ground (arith, t)) in
        (rows, λ _ delayed out. wanted (ground (arith, delayed, out)))
  ]

  add_chunks-Rows :
      (d : Bytes) (a : ActiveDocument E.Float) (cs : List (PreparedChunk E.Float))
      (b e : Building E)
      → add_chunks E dense_index delta d a cs b ≡ ok e
      → Rows b e × IsWanted e.delta_vectors d cs
  unfolding add_chunks
  add_chunks-Rows d a [] b e h =
      let same : b ≡ e = ground (arith, h) in
      (no-Rows b e (sym (ap (λ (x : Building E). x.delta_vectors) same)), tt)
  add_chunks-Rows d a (c ∷ cs) b e h =
      let (m, first, behind) = and_then_ok _ _ e h in
      let (one, wanted) = add_chunk-Rows d a c b m first in
      let (rest, others) = add_chunks-Rows d a cs m e behind in
      (
        Rows-trans b m e one rest,
        (λ there delayed out. Rows-contains m e c.key rest (wanted there delayed out), others),
      )

  add_documents-Rows :
      (m : Map (ActiveDocument E.Float)) (b e : Building E)
      → add_documents E dense_index delta m b ≡ ok e
      → Rows b e × All (λ (d, a). IsWanted e.delta_vectors d a.prepared.chunks) m
  unfolding add_documents add_document agreed
  add_documents-Rows [] b e h =
      let same : b ≡ e = ground (arith, h) in
      (no-Rows b e (sym (ap (λ (x : Building E). x.delta_vectors) same)), tt)
  add_documents-Rows ((d, a) ∷ rest) b e h =
      let (m, first, behind) = and_then_ok _ _ e h in
      let (_, h1) = unless_ok _ _ _ _ m first in
      let (_, h2) = unless_ok _ _ _ _ m h1 in
      let (one, wanted) = add_chunks-Rows d a a.prepared.chunks (agreed E a.prepared b) m h2 in
      let moved : Rows b m = record {
        more = one.more;
        behind = one.behind;
        outside = one.outside;
      } in
      let (others, all) = add_documents-Rows rest m e behind in
      (Rows-trans b m e moved others, (IsWanted-Rows m e d a.prepared.chunks others wanted, all))

  -- The delta of a generation has the rows that it must, and no others.
  pub delta_rows :
      (m : Map (ActiveDocument E.Float)) (b : Building E)
      → add_documents E dense_index delta m (nothing_built E) ≡ ok b
      → IsDelta b.delta_vectors × All (λ (d, a). IsWanted b.delta_vectors d a.prepared.chunks) m
  unfolding nothing_built
  delta_rows m b h =
      let (rows, wanted) = add_documents-Rows m (nothing_built E) b h in
      (subst IsDelta (sym rows.behind) rows.outside, wanted)
