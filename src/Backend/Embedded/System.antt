-- ===== src/Backend/Embedded/System.antt =====
-- The writers of an embedded backend in any order: callers of `activate` and `erase`, and compactions, which
-- build outside the mutex (rag.cpp/src/backend/embedded_backend.cpp).
use llama_rag_runtime.Base.{ℕ, Bool, ◌≡◌, List, [], ◌∷◌, ◌++◌}
use llama_rag_runtime.Core.Types.{Bytes, ok}
use llama_rag_runtime.Backend.Types.{PreparedDocument}
use llama_rag_runtime.Dense.Engine.{Engine}
use llama_rag_runtime.Backend.Embedded.State.{
  EmbeddedMaintenancePolicy, Generation, EmbeddedBackend,
}
use llama_rag_runtime.Backend.Embedded.Write.{
  activate, erase_active, built_compaction, publish_compacted, create,
}

module _ (E : Engine) where
  -- `building` are the compactions that have built their generation: the pointer that each has read, and
  -- what it has built.
  pub record Writers : Type 0 where
    pub backend : EmbeddedBackend E
    pub building : List (ℕ × Generation E)

  pub data Write (a : Writers) : Writers → Type 0 where
    activates :
        (document : PreparedDocument E.Float) (revision : ℕ)
        → Write a (record a { backend = (activate E document revision a.backend).1 })
    erases :
        (document : Bytes) (revision : ℕ)
        → Write a (record a { backend = (erase_active E document revision a.backend).1 })
    compacts :
        (override_memory_budget : Bool) (g : Generation E)
        → built_compaction E a.backend.policy override_memory_budget a.backend.active ≡ ok g
        → Write a (record a { building = (a.backend.stores, g) ∷ a.building })
    wakes :
        a.backend.maintenance_pending ≡ Bool.true
        → Write a (record a { backend = record a.backend { maintenance_pending = Bool.false } })
    publishes :
        (before after : List (ℕ × Generation E)) (pointer : ℕ) (g : Generation E)
        → a.building ≡ before ++ (pointer, g) ∷ after
        → Write a (record {
          backend = (publish_compacted E pointer g a.backend).1;
          building = before ++ after;
        })

  pub data Written (a : Writers) : Writers → Type 0 where
    here : Written a a
    next : {b c : Writers} → Written a b → Write b c → Written a c

  -- A backend as its constructor leaves it.
  pub data IsNew (a : Writers) : Type 0 where
    created :
        (policy : EmbeddedMaintenancePolicy)
        → create E policy ≡ ok a.backend
        → a.building ≡ []
        → IsNew a
