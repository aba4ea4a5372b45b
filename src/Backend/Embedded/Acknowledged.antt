-- ===== src/Backend/Embedded/Acknowledged.antt =====
-- What a caller of `activate` of rag.cpp/src/backend/embedded_backend.cpp may rely on later.
use llama_rag_runtime.Base.{◌≡◌, refl, ℕ, some, arith}
use llama_rag_runtime.Core.Types.{Result, ok}
use llama_rag_runtime.Core.Map.{key_eq_refl, find}
use llama_rag_runtime.Backend.Types.{PreparedDocument}
use llama_rag_runtime.Dense.Engine.{Engine}
use llama_rag_runtime.Backend.Embedded.State.{ActiveDocument}
use llama_rag_runtime.Backend.Embedded.Write.{activate}
use llama_rag_runtime.Backend.Embedded.Corpus.{
  Corpus, with_document, CorpusActivated, IsLater, CorpusReach-IsLater,
}
use llama_rag_runtime.Backend.Embedded.System.{Writers, Written, next, activates, IsNew}
use llama_rag_runtime.Backend.Embedded.Promise.{view}
use llama_rag_runtime.Backend.Embedded.Refine.{written_refines, writers_refine}

-- A document stands under a revision, with the content of a prepared document.
abbrev pub Stands : {F : Type 0} → PreparedDocument F → ℕ → Corpus F → Type 0
Stands {F} p r s =
    (s.revisions p.key ≡ some r)
    × (a : ActiveDocument F) × (s.live p.key ≡ some a)
    × (a.revision ≡ r)
    × (a.prepared.content_hash ≡ p.content_hash)

pub CorpusActivated-Stands :
    {F G : Type 0} {valid : Result (Unit {0})} {built : Result G} {p : PreparedDocument F} {r : ℕ}
    {s t : Corpus F} {answer : Result (Unit {0})}
    → CorpusActivated valid built p r s answer t
    → answer ≡ ok tt
    → Stands p r t
unfolding with_document
CorpusActivated-Stands (CorpusActivated.invalid e _) h = absurd (ground (arith, h))
CorpusActivated-Stands (CorpusActivated.stale _ _ _) h = absurd (ground (arith, h))
CorpusActivated-Stands (CorpusActivated.unbuilt e _ _ _) h = absurd (ground (arith, h))
CorpusActivated-Stands (CorpusActivated.repeats _ (a, latest, there, revised, hashed)) h =
    (latest, a, there, revised, hashed)
CorpusActivated-Stands {p = p} {r = r} (CorpusActivated.commits _ _ newer _) h = (
  rw (key_eq_refl p.key) refl,
  record { revision = r; prepared = p },
  rw (key_eq_refl p.key) refl,
  refl,
  refl,
)

module _ (E : Engine) where
  -- An activation that reports success leaves the document live under its revision, with the content hash that was
  -- submitted; and whatever the writers do after that, the document stays so until it has a newer revision.
  pub acknowledged-Stands :
      {a b c : Writers E} (p : PreparedDocument E.Float) (r : ℕ)
      → IsNew E a
      → Written E a b
      → (activate E p r b.backend).0 ≡ ok tt
      → Written E (record b { backend = (activate E p r b.backend).1 }) c
      → Stands p r (view E (activate E p r b.backend).1)
        × IsLater p.key r
            (find p.key (activate E p r b.backend).1.active.documents)
            (view E c.backend)
  unfolding view
  acknowledged-Stands {a} {b} {c} p r new before success after =
      let stands : Stands p r (view E (activate E p r b.backend).1) =
        CorpusActivated-Stands (writers_refine E p p.key r b.backend).0 success in
      (
        stands,
        CorpusReach-IsLater p.key r stands.0
            (written_refines E new (next before (activates p r)) after),
      )
