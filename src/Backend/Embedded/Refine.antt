-- ===== src/Backend/Embedded/Refine.antt =====
-- rag.cpp/src/backend/embedded_backend.cpp against the corpus that a candidate backend promises.
use llama_rag_runtime.Base.{ℕ, Bool, ◌≡◌, sym, subst, ap, ◌∙◌, inl, inr, All}
use llama_rag_runtime.Core.Types.{Bytes, Result}
use llama_rag_runtime.Core.Map.{find}
use llama_rag_runtime.Backend.Types.{PreparedDocument}
use llama_rag_runtime.Dense.Engine.{Engine}
use llama_rag_runtime.Backend.Embedded.Validate.{validate}
use llama_rag_runtime.Backend.Embedded.State.{Generation, EmbeddedBackend}
use llama_rag_runtime.Backend.Embedded.Write.{
  next_activated, activate, next_erased, erase_active, publish_compacted,
}
use llama_rag_runtime.Backend.Embedded.Outcome.{activate-Activated, erase_active-Erased}
use llama_rag_runtime.Backend.Embedded.System.{
  Writers, Write, activates, erases, compacts, wakes, publishes, Written, here, next, IsNew,
}
use llama_rag_runtime.Backend.Embedded.Safety.{
  IsCurrent, IsSafe, Written-IsSafe, reached-IsSafe, publish_compacted_cases, All-split,
}
use llama_rag_runtime.Backend.Embedded.Corpus.{
  Corpus, CorpusReach, start, activated, erased, CorpusActivated, CorpusErased,
}
use llama_rag_runtime.Backend.Embedded.Promise.{
  view, Activated-CorpusActivated, Erased-CorpusErased,
}

module _ (E : Engine) where
  -- `activate` and `erase` do to the corpus what is promised, case by case. A call that fails its checks or
  -- has an old revision is refused, except that the latest revision is answered without effect if the same
  -- content is live under it, or the document is already deleted; a newer revision changes exactly the
  -- document, unless the new generation cannot be built, whose error is answered. A refusal changes nothing, and a
  -- deletion answers whether the document was live.
  pub writers_refine :
      (p : PreparedDocument E.Float) (d : Bytes) (r : ℕ) (b : EmbeddedBackend E)
      → CorpusActivated
          (validate E p r)
          (next_activated E p r b.active)
          p
          r
          (view E b)
          (activate E p r b).0
          (view E (activate E p r b).1)
        × CorpusErased
            (next_erased E d b.active)
            d
            r
            (view E b)
            (erase_active E d r b).0
            (view E (erase_active E d r b).1)
  writers_refine p d r b = (
    Activated-CorpusActivated E (activate-Activated E p r b),
    Erased-CorpusErased E (erase_active-Erased E d r b),
  )

  CorpusReach-Activated :
      {G : Type 0} {valid : Result (Unit {0})} {built : Result G} {p : PreparedDocument E.Float}
      {r : ℕ} {s t u : Corpus E.Float} {answer : Result (Unit {0})}
      → CorpusActivated valid built p r t answer u
      → CorpusReach s t
      → CorpusReach s u
  CorpusReach-Activated (CorpusActivated.invalid _ _) before = before
  CorpusReach-Activated (CorpusActivated.stale _ _ _) before = before
  CorpusReach-Activated (CorpusActivated.repeats _ _) before = before
  CorpusReach-Activated (CorpusActivated.unbuilt _ _ _ _) before = before
  CorpusReach-Activated {p = p} {r = r} (CorpusActivated.commits _ _ newer _) before =
      activated p r before newer

  CorpusReach-Erased :
      {G : Type 0} {built : Result G} {d : Bytes} {r : ℕ} {s t u : Corpus E.Float}
      {answer : Result Bool}
      → CorpusErased built d r t answer u
      → CorpusReach s t
      → CorpusReach s u
  CorpusReach-Erased (CorpusErased.invalid _) before = before
  CorpusReach-Erased (CorpusErased.stale _ _ _) before = before
  CorpusReach-Erased (CorpusErased.repeats _ _ _) before = before
  CorpusReach-Erased (CorpusErased.unbuilt _ _ _ _) before = before
  CorpusReach-Erased {d = d} {r = r} (CorpusErased.commits _ _ newer _) before =
      erased d r before newer

  -- A compaction that is published shows the corpus that was there.
  view-compacted :
      (pointer : ℕ) (g : Generation E) (b : EmbeddedBackend E)
      → IsCurrent E b (pointer, g)
      → view E b ≡ view E (publish_compacted E pointer g b).1
  unfolding view
  view-compacted pointer g b h = elim (publish_compacted_cases E pointer g b h) [
    | inl same ↦ ap (view E) (sym same)
    | inr (swapped, documents, _) ↦
        (λ i. record {
          revisions = λ d. find d b.latest_revisions;
          live = λ d. find d (sym documents i);
        })
        ∙ ap (view E) (sym swapped)
  ]

  Write-CorpusReach :
      {a b : Writers E} {s : Corpus E.Float}
      → IsSafe E a
      → Write E a b
      → CorpusReach s (view E a.backend)
      → CorpusReach s (view E b.backend)
  unfolding view
  Write-CorpusReach {a} v (activates document revision) before =
      CorpusReach-Activated
        (Activated-CorpusActivated E (activate-Activated E document revision a.backend)) before
  Write-CorpusReach {a} v (erases document revision) before =
      CorpusReach-Erased (Erased-CorpusErased E (erase_active-Erased E document revision a.backend))
        before
  Write-CorpusReach v (compacts o g built) before = before
  Write-CorpusReach v (wakes _) before = before
  Write-CorpusReach {a} {b} {s} v (publishes front after pointer g e) before =
      subst (CorpusReach s)
        (view-compacted pointer g a.backend
          (All-split E (IsCurrent E a.backend) front after (pointer, g)
            (subst (All (IsCurrent E a.backend)) e v.current)).0)
        before

  -- Every order of the writers, compactions between them included, is a history of the corpus: activations and
  -- deletions, each under a revision newer than any that its document has had.
  pub written_refines :
      {a b c : Writers E}
      → IsNew E a
      → Written E a b
      → Written E b c
      → CorpusReach (view E b.backend) (view E c.backend)
  written_refines new r here = start
  written_refines {a} {b} new r (next q w) =
      Write-CorpusReach (Written-IsSafe E q (reached-IsSafe E new r)) w (written_refines new r q)
