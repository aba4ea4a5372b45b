-- ===== src/Backend/Embedded/Promise.antt =====
-- The endings of `activate` and `erase` of rag.cpp/src/backend/embedded_backend.cpp against the cases of a
-- candidate backend (Corpus).
use llama_rag_runtime.Base.{
  ℕ, Bool, true, false, [], ◌∷◌, ◌||◌, ◌&&◌, not, ◌==◌, ◌≡◌, refl, sym, subst, ap, ◌∙◌, Option,
  none, some, arith,
}
use llama_rag_runtime.Core.Types.{Bytes, ok, err, Error}
use llama_rag_runtime.Core.Map.{find, key_eq_iff}
use llama_rag_runtime.Core.Ordered.{find-put, find-remove}
use llama_rag_runtime.Backend.Types.{PreparedDocument}
use llama_rag_runtime.Dense.Engine.{Engine}
use llama_rag_runtime.Dense.Index.{is_empty}
use llama_rag_runtime.Backend.Embedded.Validate.{validate}
use llama_rag_runtime.Backend.Embedded.State.{ActiveDocument, Generation, EmbeddedBackend}
use llama_rag_runtime.Backend.Embedded.Write.{
  Answer, is_behind, is_latest, is_same, is_active, scheduled, stored, next_activated, next_erased,
}
use llama_rag_runtime.Backend.Embedded.Invariant.{build_generation-documents}
use llama_rag_runtime.Backend.Embedded.Outcome.{Activated, Refusal, Erased, EraseRefusal}
use llama_rag_runtime.Backend.Embedded.Corpus.{
  Corpus, with_document, IsNewer, CorpusActivated, CorpusErased, is_there, IsOld, IsNamed,
}

module _ (E : Engine) where
  -- What a backend is to its callers.
  unfoldable pub view : EmbeddedBackend E → Corpus E.Float
  view b = record {
    revisions = λ d. find d b.latest_revisions;
    live = λ d. find d b.active.documents;
  }

  is_behind-IsNewer : (r : ℕ) (latest : Option ℕ) → is_behind E r latest ≡ false → IsNewer r latest
  unfolding is_behind IsNewer
  is_behind-IsNewer r none h = tt
  is_behind-IsNewer r (some latest) h = ground (arith, h)

  view-activated :
      (p : PreparedDocument E.Float) (r : ℕ) (b : EmbeddedBackend E) (g : Generation E)
      → next_activated E p r b.active ≡ ok g
      → view (scheduled E (stored E p.key r g b))
        ≡ with_document p.key r (some (record { revision = r; prepared = p })) (view b)
  unfolding view with_document scheduled stored next_activated
  view-activated p r b g h =
      let a : ActiveDocument E.Float = record { revision = r; prepared = p } in
      let documents = build_generation-documents E _ _ _ _ _ g h in
      λ i. record {
        revisions = λ j. find-put p.key j r b.latest_revisions i;
        live = λ j. (ap (find j) documents ∙ find-put p.key j a b.active.documents) i;
      }

  view-erased :
      (d : Bytes) (r : ℕ) (b : EmbeddedBackend E) (g : Generation E)
      → next_erased E d b.active ≡ ok g
      → view (scheduled E (stored E d r g b)) ≡ with_document d r none (view b)
  unfolding view with_document scheduled stored next_erased
  view-erased d r b g h =
      let documents = build_generation-documents E _ _ _ _ _ g h in
      λ i. record {
        revisions = λ j. find-put d j r b.latest_revisions i;
        live = λ j. (ap (find j) documents ∙ find-remove d j b.active.documents) i;
      }

  is_active-is_there : {A : Type 0} (o : Option A) → is_active E o ≡ is_there o
  unfolding is_active is_there
  is_active-is_there none = refl
  is_active-is_there (some a) = refl

  is_behind-IsOld : (r : ℕ) (latest : Option ℕ) → is_behind E r latest ≡ true → IsOld r latest
  unfolding is_behind IsOld
  is_behind-IsOld r none h = ground (arith, h)
  is_behind-IsOld r (some latest) h = ground (arith, h)

  not_repeated :
      (p : PreparedDocument E.Float) (r : ℕ) (latest : Option ℕ)
      (live : Option (ActiveDocument E.Float)) (a : ActiveDocument E.Float)
      → (is_latest E r latest && is_same E p r live) ≡ false
      → latest ≡ some r
      → live ≡ some a
      → a.revision ≡ r
      → a.prepared.content_hash ≡ p.content_hash
      → ⊥
  unfolding is_latest is_same
  not_repeated p r none live a h e f revised hashed = cc
  not_repeated p r (some l) none a h e f revised hashed = cc
  not_repeated p r (some l) (some c) a h e f revised hashed =
      let here : c ≡ a = ground (arith, f) in
      ground (
        arith,
        h,
        e,
        ap (λ (x : ActiveDocument E.Float). x.revision) here,
        ap (λ (x : ActiveDocument E.Float). x.prepared.content_hash) here,
        revised,
        hashed,
        key_eq_iff c.prepared.content_hash p.content_hash,
      )

  not_gone :
      (r : ℕ) (latest : Option ℕ) (live : Option (ActiveDocument E.Float))
      → (is_latest E r latest && not (is_active E live)) ≡ false
      → (latest ≡ some r) × (live ≡ none)
      → ⊥
  unfolding is_latest is_active
  not_gone r none live h (e, f) = cc
  not_gone r (some l) none h (e, f) = ground (arith, h, e)
  not_gone r (some l) (some c) h (e, f) = cc

  names_document : (d : Bytes) (r : ℕ) → (is_empty d || r == 0) ≡ false → IsNamed d r
  unfolding is_empty
  names_document [] r h = ground (arith, h)
  names_document (x ∷ d) r h = (λ e. cc, λ e. ground (arith, h, e))

  names_nothing : (d : Bytes) (r : ℕ) → (is_empty d || r == 0) ≡ true → IsNamed d r → ⊥
  unfolding is_empty
  names_nothing [] r h (named, numbered) = named refl
  names_nothing (x ∷ d) r h (named, numbered) = numbered (ground (arith, h))

  Refusal-CorpusActivated :
      {p : PreparedDocument E.Float} {r : ℕ} {b : EmbeddedBackend E} {e : Error}
      → Refusal E p r b e
      → CorpusActivated
          (validate E p r)
          (next_activated E p r b.active)
          p
          r
          (view b)
          (err e)
          (view b)
  unfolding view
  Refusal-CorpusActivated (Refusal.invalid e bad) = CorpusActivated.invalid e bad
  Refusal-CorpusActivated {p} {r} {b} (Refusal.stale valid behind old) =
      CorpusActivated.stale valid (is_behind-IsOld r (find p.key b.latest_revisions) behind)
        λ (a, latest, there, revised, hashed).
          not_repeated p r (find p.key b.latest_revisions) (find p.key b.active.documents) a old
            latest there revised hashed
  Refusal-CorpusActivated {p} {r} {b} (Refusal.unbuilt e valid newer failed) =
      CorpusActivated.unbuilt e valid (is_behind-IsNewer r (find p.key b.latest_revisions) newer)
        failed

  pub Activated-CorpusActivated :
      {p : PreparedDocument E.Float} {r : ℕ} {b : EmbeddedBackend E} {answer : Answer E (Unit {0})}
      → Activated E p r b answer
      → CorpusActivated
          (validate E p r)
          (next_activated E p r b.active)
          p
          r
          (view b)
          answer.0
          (view answer.1)
  unfolding view
  Activated-CorpusActivated (Activated.refused e why) = Refusal-CorpusActivated why
  Activated-CorpusActivated (Activated.replayed a valid latest there revised hashed) =
      CorpusActivated.repeats valid (a, latest, there, revised, hashed)
  Activated-CorpusActivated {p} {r} {b} (Activated.applied g valid newer built) =
      subst (CorpusActivated (validate E p r) (next_activated E p r b.active) p r (view b) (ok tt))
        (sym (view-activated p r b g built))
        (CorpusActivated.commits g valid (is_behind-IsNewer r (find p.key b.latest_revisions) newer)
          built)

  EraseRefusal-CorpusErased :
      {d : Bytes} {r : ℕ} {b : EmbeddedBackend E} {e : Error}
      → EraseRefusal E d r b e
      → CorpusErased (next_erased E d b.active) d r (view b) (err e) (view b)
  unfolding view
  EraseRefusal-CorpusErased {d} {r} (EraseRefusal.invalid bad) =
      CorpusErased.invalid (names_nothing d r bad)
  EraseRefusal-CorpusErased {d} {r} {b} (EraseRefusal.stale valid behind old) =
      CorpusErased.stale (names_document d r valid)
        (is_behind-IsOld r (find d b.latest_revisions) behind)
        (not_gone r (find d b.latest_revisions) (find d b.active.documents) old)
  EraseRefusal-CorpusErased {d} {r} {b} (EraseRefusal.unbuilt e valid newer failed) =
      CorpusErased.unbuilt e (names_document d r valid)
        (is_behind-IsNewer r (find d b.latest_revisions) newer) failed

  pub Erased-CorpusErased :
      {d : Bytes} {r : ℕ} {b : EmbeddedBackend E} {answer : Answer E Bool}
      → Erased E d r b answer
      → CorpusErased (next_erased E d b.active) d r (view b) answer.0 (view answer.1)
  unfolding view
  Erased-CorpusErased (Erased.refused e why) = EraseRefusal-CorpusErased why
  Erased-CorpusErased {d} {r} (Erased.replayed valid latest gone) =
      CorpusErased.repeats (names_document d r valid) latest gone
  Erased-CorpusErased {d} {r} {b} (Erased.applied g valid newer built) =
      let spec = CorpusErased (next_erased E d b.active) d r (view b) in
      subst (λ o. spec (ok o) (view (scheduled E (stored E d r g b))))
        (sym (is_active-is_there (find d b.active.documents)))
        (subst (spec (ok (is_there ((view b).live d)))) (sym (view-erased d r b g built)) (
          CorpusErased.commits g (names_document d r valid)
            (is_behind-IsNewer r (find d b.latest_revisions) newer) built))
