-- ===== src/Backend/Embedded/Catalog.antt =====
-- What a built generation has in its catalog: `build_generation` of
-- rag.cpp/src/backend/embedded_backend.cpp.
use llama_rag_runtime.Base.{
  ℕ, ◌+◌, true, false, ◌≡◌, refl, sym, subst, Option, none, some, List, [], ◌∷◌, ◌++◌, arith, ◌⊎◌,
  inl, inr, All, Bool-cases,
}
use llama_rag_runtime.Core.Types.{Bytes, ok, and_then_ok, unless_ok}
use llama_rag_runtime.Core.Map.{
  Map, key_eq, find, assign, find-assign_cases, find-assign_ne, find-assign_self, key_eq_iff,
}
use llama_rag_runtime.Core.Ordered.{IsOrdered, IsFound, IsOrdered-IsFound}
use llama_rag_runtime.Backend.Types.{PreparedChunk, StoredChunk}
use llama_rag_runtime.Dense.Engine.{Engine}
use llama_rag_runtime.Dense.Index.{is_empty}
use llama_rag_runtime.Dense.Tiered.{TieredDenseIndex, with_delta}
use llama_rag_runtime.Backend.Embedded.State.{ActiveDocument, Generation}
use llama_rag_runtime.Backend.Embedded.Build.{
  stored_chunk, Building, catalogued, embedded, add_chunk, add_chunks, agreed, add_document,
  add_documents, nothing_built, generation_of, build_generation,
}
use llama_rag_runtime.Backend.Embedded.Read.{get_elem?}

-- The chunk `s` stands under `k` for a chunk of an active document, and says where it is.
abbrev pub IsSource : {F : Type 0} → Map (ActiveDocument F) → Bytes → StoredChunk F → Type 0
IsSource {F} documents k s =
    (d : Bytes) × (a : ActiveDocument F) × (c : PreparedChunk F) × (find d documents ≡ some a)
    × (get_elem? c.ordinal a.prepared.chunks ≡ some c)
    × (c.key ≡ k)
    × (s ≡ stored_chunk d a c)

-- Every entry of the catalog comes from an active document.
abbrev pub IsSourced : {F : Type 0} → Map (ActiveDocument F) → Map (StoredChunk F) → Type 0
IsSourced {F} documents chunks =
    (k : Bytes) (s : StoredChunk F) → find k chunks ≡ some s → IsSource documents k s

abbrev pub IsPlaced : {F : Type 0} → List (PreparedChunk F) → List (PreparedChunk F) → Type 0
IsPlaced whole = All λ c. get_elem? c.ordinal whole ≡ some c

-- The chunks of a document stand in the catalog.
abbrev pub IsListed :
    {F : Type 0} → Map (StoredChunk F) → Bytes → ActiveDocument F → List (PreparedChunk F) → Type 0
IsListed chunks d a = All λ c. find c.key chunks ≡ some (stored_chunk d a c)

abbrev pub Extends : {V : Type 0} → Map V → Map V → Type 0
Extends {V} m n = (k : Bytes) (v : V) → find k m ≡ some v → find k n ≡ some v

-- The keys that the ordinals of the lexical index stand for.
abbrev pub IsKnown : {V : Type 0} → Map V → List Bytes → Type 0
IsKnown {V} m = All λ k. (v : V) × (find k m ≡ some v)

assign-Extends :
    {V : Type 0} (k : Bytes) (v : V) (m : Map V) → find k m ≡ none → Extends m (assign k v m)
assign-Extends k v m fresh j w e = elim (Bool-cases (key_eq k j)) [
  | inl same ↦ absurd (ground (arith, e, fresh, (key_eq_iff k j).0 same))
  | inr other ↦ ground (arith, e, find-assign_ne k j v m other)
]

IsKnown-Extends :
    {V : Type 0} (m n : Map V) (ks : List Bytes) → Extends m n → IsKnown m ks → IsKnown n ks
IsKnown-Extends m n [] x h = tt
IsKnown-Extends m n (k ∷ ks) x h = ((h.0.0, x k h.0.0 h.0.1), IsKnown-Extends m n ks x h.1)

IsKnown-append :
    {V : Type 0} (m : Map V) (ks : List Bytes) (k : Bytes) (v : V)
    → find k m ≡ some v
    → IsKnown m ks
    → IsKnown m (ks ++ k ∷ [])
IsKnown-append m [] k v e h = ((v, e), tt)
IsKnown-append m (j ∷ ks) k v e h = (h.0, IsKnown-append m ks k v e h.1)

IsListed-Extends :
    {F : Type 0} (m n : Map (StoredChunk F)) (d : Bytes) (a : ActiveDocument F)
    (cs : List (PreparedChunk F))
    → Extends m n
    → IsListed m d a cs
    → IsListed n d a cs
IsListed-Extends m n d a [] x h = tt
IsListed-Extends m n d a (c ∷ cs) x h =
    (x c.key (stored_chunk d a c) h.0, IsListed-Extends m n d a cs x h.1)

module _ (E : Engine) where
  -- What a chunk that is added does to the catalog.
  pub record Added (d : Bytes) (a : ActiveDocument E.Float) (c : PreparedChunk E.Float)
      (b e : Building E) : Type 0 where
    pub fresh : find c.key b.chunks ≡ none
    pub chunks : e.chunks ≡ assign c.key (stored_chunk d a c) b.chunks
    pub keys : e.ordinal_keys ≡ b.ordinal_keys ++ c.key ∷ []
    pub count : e.ordinal ≡ b.ordinal + 1

  fresh_of :
      {V : Type 0} (o : Option V) → elim o [ none ↦ false | some _ ↦ true ] ≡ false → o ≡ none
  fresh_of none h = refl
  fresh_of (some v) h = absurd (ground (arith, h))

  -- A chunk that is added is catalogued, and its embedding counted if it has one.
  pub add_chunk_cases :
      (dense_index : TieredDenseIndex E) (delta : List Bytes) (d : Bytes)
      (a : ActiveDocument E.Float) (c : PreparedChunk E.Float) (b e : Building E)
      → add_chunk E dense_index delta d a c b ≡ ok e
      → (find c.key b.chunks ≡ none)
        × (((is_empty c.embedding ≡ true) × (e ≡ catalogued E d a c b))
            ⊎ ((is_empty c.embedding ≡ false)
                × (e ≡ embedded E dense_index delta d c (catalogued E d a c b))))
  unfolding add_chunk
  add_chunk_cases dense_index delta d a c b e h =
      let (_, unlimited) = unless_ok _ _ _ _ e h in
      let (unknown, collected) = unless_ok _ _ _ _ e unlimited in
      (
        fresh_of (find c.key b.chunks) unknown,
        elim (Bool-cases (is_empty c.embedding)) [
          | inl none_there ↦ inl (none_there, ground (arith, none_there, collected))
          | inr there ↦
              let (_, measured) = unless_ok _ _ _ _ e (simp there at collected) in
              inr (there, ground (arith, measured))
        ],
      )

  pub add_chunk-Added :
      (dense_index : TieredDenseIndex E) (delta : List Bytes) (d : Bytes)
      (a : ActiveDocument E.Float) (c : PreparedChunk E.Float) (b e : Building E)
      → add_chunk E dense_index delta d a c b ≡ ok e
      → Added d a c b e
  unfolding embedded catalogued
  add_chunk-Added dense_index delta d a c b e h =
      let (fresh, outcome) = add_chunk_cases dense_index delta d a c b e h in
      elim outcome [
        | inl (_, same) ↦
            subst (Added d a c b) (sym same)
              (record { fresh = fresh; chunks = refl; keys = refl; count = refl })
        | inr (_, same) ↦
            subst (Added d a c b) (sym same)
              (record { fresh = fresh; chunks = refl; keys = refl; count = refl })
      ]

module _ (E : Engine) where
  pub record IsCatalog (documents : Map (ActiveDocument E.Float)) (b : Building E) : Type 0 where
    pub sourced : IsSourced documents b.chunks
    pub known : IsKnown b.chunks b.ordinal_keys

  Added-Extends :
      (d : Bytes) (a : ActiveDocument E.Float) (c : PreparedChunk E.Float) (b e : Building E)
      → Added E d a c b e
      → Extends b.chunks e.chunks
  Added-Extends d a c b e h k v f =
      rw h.chunks (assign-Extends c.key (stored_chunk d a c) b.chunks h.fresh k v f)

  Added-listed :
      (d : Bytes) (a : ActiveDocument E.Float) (c : PreparedChunk E.Float) (b e : Building E)
      → Added E d a c b e
      → find c.key e.chunks ≡ some (stored_chunk d a c)
  Added-listed d a c b e h = rw h.chunks (find-assign_self c.key (stored_chunk d a c) b.chunks)

  Added-IsCatalog :
      (documents : Map (ActiveDocument E.Float)) (d : Bytes) (a : ActiveDocument E.Float)
      (c : PreparedChunk E.Float) (b e : Building E)
      → find d documents ≡ some a
      → get_elem? c.ordinal a.prepared.chunks ≡ some c
      → Added E d a c b e
      → IsCatalog documents b
      → IsCatalog documents e
  Added-IsCatalog documents d a c b e there placed h v = record {
    sourced = λ k s f.
        elim (find-assign_cases c.key k (stored_chunk d a c) s b.chunks
          (ground (arith, h.chunks, f))) [
            | inl (same, is) ↦ (d, a, c, there, placed, same, is)
            | inr (_, before) ↦ v.sourced k s before
          ];
    known = rw h.keys (
        IsKnown-append e.chunks b.ordinal_keys c.key (stored_chunk d a c) (Added-listed d a c b e h)
          (IsKnown-Extends b.chunks e.chunks b.ordinal_keys (Added-Extends d a c b e h) v.known));
  }

  -- What chunks that are added do to the catalog.
  pub record Catalogued (documents : Map (ActiveDocument E.Float)) (b e : Building E)
      (Listed : Type 0) : Type 0 where
    pub catalog : IsCatalog documents e
    pub extends : Extends b.chunks e.chunks
    pub listed : Listed

  add_chunks-Catalogued :
      (dense_index : TieredDenseIndex E) (delta : List Bytes)
      (documents : Map (ActiveDocument E.Float)) (d : Bytes) (a : ActiveDocument E.Float)
      (cs : List (PreparedChunk E.Float)) (b e : Building E)
      → find d documents ≡ some a
      → IsPlaced a.prepared.chunks cs
      → add_chunks E dense_index delta d a cs b ≡ ok e
      → IsCatalog documents b
      → Catalogued documents b e (IsListed e.chunks d a cs)
  unfolding add_chunks
  add_chunks-Catalogued dense_index delta documents d a [] b e there placed h v =
      let same : b ≡ e = ground (arith, h) in
      record {
        catalog = subst (IsCatalog documents) same v;
        extends = λ k w f. ground (arith, same, f);
        listed = tt;
      }
  add_chunks-Catalogued dense_index delta documents d a (c ∷ cs) b e there placed h v =
      let (m, first, behind) = and_then_ok _ _ e h in
      let added = add_chunk-Added E dense_index delta d a c b m first in
      let rest =
        add_chunks-Catalogued dense_index delta documents d a cs m e there placed.1 behind
          (Added-IsCatalog documents d a c b m there placed.0 added v) in
      record {
        catalog = rest.catalog;
        extends = λ k w f. rest.extends k w (Added-Extends d a c b m added k w f);
        listed =
            (rest.extends c.key (stored_chunk d a c) (Added-listed d a c b m added), rest.listed);
      }

  add_document-Catalogued :
      (dense_index : TieredDenseIndex E) (delta : List Bytes)
      (documents : Map (ActiveDocument E.Float)) (d : Bytes) (a : ActiveDocument E.Float)
      (b e : Building E)
      → find d documents ≡ some a
      → IsPlaced a.prepared.chunks a.prepared.chunks
      → add_document E dense_index delta d a b ≡ ok e
      → IsCatalog documents b
      → Catalogued documents b e (IsListed e.chunks d a a.prepared.chunks)
  unfolding add_document agreed
  add_document-Catalogued dense_index delta documents d a b e there placed h v =
      let (_, h1) = unless_ok _ _ _ _ e h in
      let (_, h2) = unless_ok _ _ _ _ e h1 in
      let w =
        add_chunks-Catalogued dense_index delta documents d a a.prepared.chunks
          (agreed E a.prepared b) e there placed h2
          (record { sourced = v.sourced; known = v.known }) in
      record { catalog = w.catalog; extends = w.extends; listed = w.listed }

  -- Every document's chunks stand in the catalog.
  abbrev pub AllListed : Map (StoredChunk E.Float) → Map (ActiveDocument E.Float) → Type 0
  AllListed chunks = All λ (d, a). IsListed chunks d a a.prepared.chunks

  abbrev pub AllPlaced : Map (ActiveDocument E.Float) → Type 0
  AllPlaced = All λ (d, a). IsPlaced a.prepared.chunks a.prepared.chunks

  add_documents-Catalogued :
      (dense_index : TieredDenseIndex E) (delta : List Bytes)
      (documents rest : Map (ActiveDocument E.Float)) (b e : Building E)
      → IsFound documents rest
      → AllPlaced rest
      → add_documents E dense_index delta rest b ≡ ok e
      → IsCatalog documents b
      → Catalogued documents b e (AllListed e.chunks rest)
  unfolding add_documents
  add_documents-Catalogued dense_index delta documents [] b e found placed h v =
      let same : b ≡ e = ground (arith, h) in
      record {
        catalog = subst (IsCatalog documents) same v;
        extends = λ k w f. ground (arith, same, f);
        listed = tt;
      }
  add_documents-Catalogued dense_index delta documents ((d, a) ∷ rest) b e found placed h v =
      let (m, first, behind) = and_then_ok _ _ e h in
      let one =
        add_document-Catalogued dense_index delta documents d a b m found.0 placed.0 first v in
      let others =
        add_documents-Catalogued dense_index delta documents rest m e found.1 placed.1 behind
          one.catalog in
      record {
        catalog = others.catalog;
        extends = λ k w f. others.extends k w (one.extends k w f);
        listed = (
          IsListed-Extends m.chunks e.chunks d a a.prepared.chunks others.extends one.listed,
          others.listed,
        );
      }

  -- What holds of a generation that was built.
  pub record IsComplete (g : Generation E) : Type 0 where
    pub sourced : IsSourced g.documents g.chunks
    pub known : IsKnown g.chunks g.ordinal_keys
    pub listed : AllListed g.chunks g.documents

  -- The last part of `build_generation`.
  pub build_generation_ok :
      (documents : Map (ActiveDocument E.Float)) (dense_index : TieredDenseIndex E)
      (delta tombstones : List Bytes) (number : ℕ) (g : Generation E)
      → build_generation E documents dense_index delta tombstones number ≡ ok g
      → (b : Building E) × (dense : TieredDenseIndex E) × (add_documents E dense_index delta
            documents
            (nothing_built E)
          ≡ ok b)
        × (with_delta E b.delta_vectors tombstones b.dimension dense_index ≡ ok dense)
        × (g ≡ generation_of E documents delta number b dense)
  unfolding build_generation
  build_generation_ok documents dense_index delta tombstones number g h =
      let (b, added, h1) = and_then_ok _ _ g h in
      let (_, h2) = unless_ok _ _ _ _ g h1 in
      let (dense, tiered, h3) = and_then_ok _ _ g h2 in
      (b, dense, added, tiered, ground (arith, h3))

  pub build_generation-IsComplete :
      (documents : Map (ActiveDocument E.Float)) (dense_index : TieredDenseIndex E)
      (delta tombstones : List Bytes) (number : ℕ) (g : Generation E)
      → IsOrdered documents
      → AllPlaced documents
      → build_generation E documents dense_index delta tombstones number ≡ ok g
      → IsComplete g
  unfolding nothing_built generation_of find
  build_generation-IsComplete documents dense_index delta tombstones number g ordered placed h =
      let (b, dense, added, _, same) =
        build_generation_ok documents dense_index delta tombstones number g h in
      let w =
        add_documents-Catalogued dense_index delta documents documents (nothing_built E) b
          (IsOrdered-IsFound documents ordered) placed added
          (record { sourced = λ k s f. absurd (ground (arith, f)); known = tt }) in
      subst IsComplete (sym same)
        (record { sourced = w.catalog.sourced; known = w.catalog.known; listed = w.listed })
