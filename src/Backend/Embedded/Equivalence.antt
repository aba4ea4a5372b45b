-- ===== src/Backend/Embedded/Equivalence.antt =====
-- Readers of rag.cpp/src/backend/embedded_backend.cpp see the active documents, and nothing of how they came or of
-- the maintenance.
use llama_rag_runtime.Base.{
  ℕ, Bool, ◌≡◌, refl, ap, sym, subst, ◌∙◌, List, [], ◌∷◌, ◌++◌, inl, inr, All, Bool-cases,
  Option-cases, ◌==◌, if◌then◌else◌, length,
}
use llama_rag_runtime.Core.Types.{Bytes, ok, and_then_ok, unless_ok}
use llama_rag_runtime.Core.Map.{find}
use llama_rag_runtime.Backend.Types.{
  bm25, Candidate, PreparedDocument, FetchOptions, LexicalRequest, is_filtered,
}
use llama_rag_runtime.Dense.Engine.{Engine}
use llama_rag_runtime.Backend.Embedded.State.{
  Generation, EmbeddedBackend, EmbeddedMaintenancePolicy,
}
use llama_rag_runtime.Backend.Embedded.Write.{
  Answer, scheduled, stored, next_activated, next_erased, built_compaction, publish_compacted,
  create,
}
use llama_rag_runtime.Backend.Embedded.Read.{
  fetch, fetch_one, then_fetched, lexical_candidates, take_hits, document_state, get_elem?,
}
use llama_rag_runtime.Backend.Embedded.Outcome.{
  Activated, Erased, refused, replayed, applied, activate-Activated, erase_active-Erased,
}
use llama_rag_runtime.Backend.Embedded.System.{
  Writers, Write, activates, erases, compacts, wakes, publishes, Written, here, next, IsNew,
  created,
}
use llama_rag_runtime.Backend.Embedded.Safety.{
  All-split, IsCurrent, reached-IsSafe, publish_compacted_cases,
}
use llama_rag_runtime.Backend.Embedded.Represented.{active_of}
use llama_rag_runtime.Backend.Embedded.Reference.{catalog_of, IsBuilt, build_generation-IsBuilt}

module _ (E : Engine) where
  abbrev pub AreBuilt : Writers E → Type 0
  AreBuilt a = IsBuilt E a.backend.active × All (λ (_, g). IsBuilt E g) a.building

  Activated-IsBuilt :
      {p : PreparedDocument E.Float} {r : ℕ} {b : EmbeddedBackend E} {answer : Answer E (Unit {0})}
      → Activated E p r b answer
      → IsBuilt E b.active
      → IsBuilt E answer.1.active
  unfolding scheduled stored next_activated
  Activated-IsBuilt (refused e _) v = v
  Activated-IsBuilt (replayed _ _ _ _ _ _) v = v
  Activated-IsBuilt (applied g _ _ built) v = build_generation-IsBuilt E _ _ _ _ _ g built

  Erased-IsBuilt :
      {d : Bytes} {r : ℕ} {b : EmbeddedBackend E} {answer : Answer E Bool}
      → Erased E d r b answer
      → IsBuilt E b.active
      → IsBuilt E answer.1.active
  unfolding scheduled stored next_erased
  Erased-IsBuilt (refused e _) v = v
  Erased-IsBuilt (replayed _ _ _) v = v
  Erased-IsBuilt (applied g _ _ built) v = build_generation-IsBuilt E _ _ _ _ _ g built

  built_compaction-IsBuilt :
      (policy : EmbeddedMaintenancePolicy) (o : Bool) (snapshot g : Generation E)
      → built_compaction E policy o snapshot ≡ ok g
      → IsBuilt E g
  unfolding built_compaction
  built_compaction-IsBuilt policy o snapshot g h =
      let (_, h1) = unless_ok _ _ _ _ g h in
      let (_, _, built) = and_then_ok _ _ g h1 in build_generation-IsBuilt E _ _ _ _ _ g built

  publish_compacted-IsBuilt :
      (pointer : ℕ) (g : Generation E) (b : EmbeddedBackend E)
      → IsBuilt E b.active
      → IsBuilt E g
      → IsBuilt E (publish_compacted E pointer g b).1.active
  unfolding publish_compacted
  publish_compacted-IsBuilt pointer g b v w = elim (Bool-cases (b.stores == pointer)) [
    | inl same ↦ rw same w
    | inr other ↦ rw other v
  ]

  Write-AreBuilt : {a b : Writers E} → Write E a b → AreBuilt a → AreBuilt b
  Write-AreBuilt {a} (activates p r) h =
      (Activated-IsBuilt (activate-Activated E p r a.backend) h.0, h.1)
  Write-AreBuilt {a} (erases d r) h =
      (Erased-IsBuilt (erase_active-Erased E d r a.backend) h.0, h.1)
  Write-AreBuilt {a} (compacts o g built) h =
      (h.0, (built_compaction-IsBuilt a.backend.policy o a.backend.active g built, h.1))
  Write-AreBuilt (wakes _) h = h
  Write-AreBuilt {a} (publishes front after pointer g e) h =
      let (one, others) =
        All-split E (λ (_, g). IsBuilt E g) front after (pointer, g)
          (subst (All λ (_, g). IsBuilt E g) e h.1) in
      (publish_compacted-IsBuilt pointer g a.backend h.0 one, others)

  IsNew-AreBuilt : {a : Writers E} → IsNew E a → AreBuilt a
  unfolding create
  IsNew-AreBuilt {a} (created policy made none_building) =
      let (dense, _, h1) = and_then_ok _ _ a.backend made in
      let (g, built, h2) = and_then_ok _ _ a.backend h1 in
      let active : g ≡ a.backend.active = active_of E policy g a.backend h2 in
      (
        subst (IsBuilt E) active (build_generation-IsBuilt E _ _ _ _ _ g built),
        subst (All λ (_, g). IsBuilt E g) (sym none_building) tt,
      )

  pub Written-AreBuilt : {a b : Writers E} → IsNew E a → Written E a b → AreBuilt b
  Written-AreBuilt new here = IsNew-AreBuilt new
  Written-AreBuilt new (next r w) = Write-AreBuilt w (Written-AreBuilt new r)

  -- Two generations with the same documents, catalog and lexical index.
  pub record Agree (g h : Generation E) : Type 0 where
    pub documents : g.documents ≡ h.documents
    pub chunks : g.chunks ≡ h.chunks
    pub keys : g.ordinal_keys ≡ h.ordinal_keys
    pub lexical : g.lexical ≡ h.lexical

  IsBuilt-Agree :
      (g h : Generation E) → IsBuilt E g → IsBuilt E h → g.documents ≡ h.documents → Agree g h
  IsBuilt-Agree g h v w same = record {
    documents = same;
    chunks = v.chunks ∙ (ap (λ m. (catalog_of E m).chunks) same ∙ sym w.chunks);
    keys = v.keys ∙ (ap (λ m. (catalog_of E m).ordinal_keys) same ∙ sym w.keys);
    lexical = v.lexical ∙ (ap (λ m. E.finalize (catalog_of E m).lexical) same ∙ sym w.lexical);
  }

  fetch-Agree :
      (g h : Generation E) (options : FetchOptions) (keys : List Bytes)
      → Agree g h
      → fetch E g options keys ≡ fetch E h options keys
  unfolding fetch fetch_one
  fetch-Agree g h options [] v = refl
  fetch-Agree g h options (key ∷ keys) v =
      let rest = fetch-Agree g h options keys v in
      let at : find key g.chunks ≡ find key h.chunks = ap (find key) v.chunks in
      elim (Option-cases (find key h.chunks)) [
        | inl unknown ↦ rw (at ∙ unknown, unknown, fetch) rest
        | inr (found, there) ↦
            let one : fetch_one E g options key found ≡ fetch_one E h options key found =
              ap (λ m. fetch_one E (record g { documents = m }) options key found) v.documents in
            rw (at ∙ there, there, fetch) (λ i. then_fetched E (one i) (rest i))
      ]

  take_hits-Agree :
      (g h : Generation E) (request : LexicalRequest) (output : List (Candidate E.Float))
      (hits : List (ℕ × E.Float))
      → Agree g h
      → take_hits E g request output hits ≡ take_hits E h request output hits
  unfolding take_hits
  take_hits-Agree g h request output [] v = refl
  take_hits-Agree g h request output ((i, score) ∷ hits) v =
      let key_at : get_elem? i g.ordinal_keys ≡ get_elem? i h.ordinal_keys =
        ap (get_elem? i) v.keys in
      elim (Option-cases (get_elem? i h.ordinal_keys)) [
        | inl out ↦ rw (key_at ∙ out, out, take_hits) refl
        | inr (key, there) ↦ elim (Option-cases (find key h.chunks)) [
          | inl unknown ↦
              rw (key_at ∙ there, there, ap (find key) v.chunks ∙ unknown, unknown, take_hits) refl
          | inr (s, known) ↦
              let longer : List (Candidate E.Float) =
                output ++ record { chunk = key; raw_score = score; score_type = bm25 } ∷ [] in
              let without = take_hits-Agree g h request output hits v in
              let rest = take_hits-Agree g h request longer hits v in
              rw (key_at ∙ there, there, ap (find key) v.chunks ∙ known, known, take_hits)
                (λ j.
                  if is_filtered request.filter s.metadata
                  then without j
                  else if length longer == request.k
                  then ok longer
                  else rest j)
        ]
      ]

  lexical_candidates-Agree :
      (g h : Generation E) (request : LexicalRequest)
      → Agree g h
      → lexical_candidates E g request ≡ lexical_candidates E h request
  unfolding lexical_candidates
  lexical_candidates-Agree g h request v =
      let hits : List (ℕ × E.Float) =
        E.search_lexical h.lexical request.query (length h.ordinal_keys) in
      let taken : take_hits E g request []
            (E.search_lexical g.lexical request.query (length g.ordinal_keys))
          ≡ take_hits E h request [] hits =
        (λ i.
          take_hits E g request []
            (E.search_lexical (v.lexical i) request.query (length (v.keys i))))
        ∙ take_hits-Agree g h request [] hits v in
      λ i. if request.k == 0 then ok [] else taken i

  -- Two backends reached from new ones, in whatever order of writes and compactions each, answer alike if they have the
  -- same active documents: the chunks that are fetched, the lexical candidates and the state of a document.
  pub readers_agree :
      {a b c d : Writers E} (options : FetchOptions) (keys : List Bytes) (request : LexicalRequest)
      (document : Bytes)
      → IsNew E a
      → Written E a b
      → IsNew E c
      → Written E c d
      → b.backend.active.documents ≡ d.backend.active.documents
      → (fetch E b.backend.active options keys ≡ fetch E d.backend.active options keys)
        × (lexical_candidates E b.backend.active request
            ≡ lexical_candidates E d.backend.active request)
        × (document_state E b.backend.active document ≡ document_state E d.backend.active document)
  unfolding document_state
  readers_agree {a} {b} {c} {d} options keys request document new r fresh q same =
      let v =
        IsBuilt-Agree b.backend.active d.backend.active (Written-AreBuilt new r).0
          (Written-AreBuilt fresh q).0 same in
      (
        fetch-Agree b.backend.active d.backend.active options keys v,
        lexical_candidates-Agree b.backend.active d.backend.active request v,
        ap (λ m. document_state E (record b.backend.active { documents = m }) document) same,
      )

  -- A compaction that is published, whenever its turn comes, is not seen by readers: they answer as before.
  pub compaction_invisible :
      {a b : Writers E} (front after : List (ℕ × Generation E)) (pointer : ℕ) (g : Generation E)
      (options : FetchOptions) (keys : List Bytes) (request : LexicalRequest) (document : Bytes)
      → IsNew E a
      → Written E a b
      → b.building ≡ front ++ (pointer, g) ∷ after
      → (fetch E (publish_compacted E pointer g b.backend).1.active options keys
          ≡ fetch E b.backend.active options keys)
        × (lexical_candidates E (publish_compacted E pointer g b.backend).1.active request
            ≡ lexical_candidates E b.backend.active request)
        × (document_state E (publish_compacted E pointer g b.backend).1.active document
            ≡ document_state E b.backend.active document)
  compaction_invisible {a} {b} front after pointer g options keys request document new r e =
      let one =
        All-split E (IsCurrent E b.backend) front after (pointer, g)
          (subst (All (IsCurrent E b.backend)) e (reached-IsSafe E new r).current) in
      let same : (publish_compacted E pointer g b.backend).1.active.documents
          ≡ b.backend.active.documents =
        elim (publish_compacted_cases E pointer g b.backend one.0) [
          | inl unchanged ↦ ap (λ (x : EmbeddedBackend E). x.active.documents) unchanged
          | inr (swapped, documents, _) ↦
              ap (λ (x : EmbeddedBackend E). x.active.documents) swapped ∙ documents
        ] in
      readers_agree
        {b = record {
          backend = (publish_compacted E pointer g b.backend).1;
          building = front ++ after;
        }}
        {d = b} options keys request document new (next r (publishes front after pointer g e)) new r
        same
