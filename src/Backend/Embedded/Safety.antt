-- ===== src/Backend/Embedded/Safety.antt =====
-- What holds in every order of the writers of rag.cpp/src/backend/embedded_backend.cpp.
use llama_rag_runtime.Base.{
  ℕ, ◌+◌, ◌≤◌, ◌<◌, Bool, false, ◌≡◌, refl, sym, subst, List, [], ◌∷◌, ◌++◌, arith, ◌⊎◌, inl, inr,
  All, Bool-cases, ◌==◌,
}
use llama_rag_runtime.Core.Types.{Bytes, ok, and_then_ok, unless_ok}
use llama_rag_runtime.Core.Map.{find}
use llama_rag_runtime.Core.Ordered.{IsOrdered}
use llama_rag_runtime.Backend.Types.{PreparedDocument}
use llama_rag_runtime.Dense.Engine.{Engine}
use llama_rag_runtime.Backend.Embedded.State.{
  Generation, EmbeddedBackend, EmbeddedMaintenancePolicy,
}
use llama_rag_runtime.Backend.Embedded.Catalog.{IsComplete}
use llama_rag_runtime.Backend.Embedded.Invariant.{
  IsFiled, IsSound, build_generation-documents, built-IsComplete, activated-IsSound, erased-IsSound,
}
use llama_rag_runtime.Backend.Embedded.Write.{
  Answer, scheduled, stored, built_compaction, publish_compacted, create,
}
use llama_rag_runtime.Backend.Embedded.Outcome.{
  Activated, Erased, refused, replayed, applied, activate-Activated, erase_active-Erased,
}
use llama_rag_runtime.Backend.Embedded.System.{
  Writers, Write, activates, erases, compacts, wakes, publishes, Written, here, next, IsNew,
  created,
}

module _ (E : Engine) where
  Activated-IsSound :
      {document : PreparedDocument E.Float} {revision : ℕ} {b : EmbeddedBackend E}
      {answer : Answer E (Unit {0})}
      → Activated E document revision b answer
      → IsSound E b
      → IsSound E answer.1
  Activated-IsSound (refused e _) v = v
  Activated-IsSound (replayed a _ _ _ _ _) v = v
  Activated-IsSound {document} {revision} {b} (applied g valid newer built) v =
      activated-IsSound E document revision b g v valid built

  Erased-IsSound :
      {document : Bytes} {revision : ℕ} {b : EmbeddedBackend E} {answer : Answer E Bool}
      → Erased E document revision b answer
      → IsSound E b
      → IsSound E answer.1
  Erased-IsSound (refused e _) v = v
  Erased-IsSound (replayed _ _ _) v = v
  Erased-IsSound {document} {revision} {b} (applied g _ newer built) v =
      erased-IsSound E document revision b g v built

  -- A compaction that was built on the active generation has its documents and is complete; one whose
  -- pointer is not the active one has no effect.
  abbrev pub IsCurrent : EmbeddedBackend E → ℕ × Generation E → Type 0
  IsCurrent b (pointer, g) =
      (pointer ≤ b.stores)
      × (pointer ≡ b.stores → (g.documents ≡ b.active.documents) × IsComplete E g)

  pub record IsSafe (a : Writers E) : Type 0 where
    pub sound : IsSound E a.backend
    pub current : All (IsCurrent a.backend) a.building

  built_compaction-documents :
      (policy : EmbeddedMaintenancePolicy) (o : Bool) (b : EmbeddedBackend E) (g : Generation E)
      → IsSound E b
      → built_compaction E policy o b.active ≡ ok g
      → (g.documents ≡ b.active.documents) × IsComplete E g
  unfolding built_compaction
  built_compaction-documents policy o b g v h =
      let (_, h1) = unless_ok _ _ _ _ g h in
      let (dense, _, built) = and_then_ok _ _ g h1 in
      (
        build_generation-documents E _ _ _ _ _ g built,
        built-IsComplete E _ _ _ _ _ g v.ordered v.filed built,
      )

  -- A pointer that is overtaken stays so.
  overtaken :
      (b c : EmbeddedBackend E) (gs : List (ℕ × Generation E))
      → b.stores < c.stores
      → All (IsCurrent b) gs
      → All (IsCurrent c) gs
  overtaken b c [] l h = tt
  overtaken b c ((p, g) ∷ gs) l h =
      ((omega (arith, l, h.0.0), λ e. absurd (omega (arith, e, l, h.0.0))), overtaken b c gs l h.1)

  Activated-IsCurrent :
      {document : PreparedDocument E.Float} {revision : ℕ} {b : EmbeddedBackend E}
      {answer : Answer E (Unit {0})} (gs : List (ℕ × Generation E))
      → Activated E document revision b answer
      → All (IsCurrent b) gs
      → All (IsCurrent answer.1) gs
  unfolding scheduled stored
  Activated-IsCurrent gs (refused e _) h = h
  Activated-IsCurrent gs (replayed a _ _ _ _ _) h = h
  Activated-IsCurrent {document} {revision} {b} gs (applied g _ _ _) h =
      overtaken b (scheduled E (stored E document.key revision g b)) gs (omega arith) h

  Erased-IsCurrent :
      {document : Bytes} {revision : ℕ} {b : EmbeddedBackend E} {answer : Answer E Bool}
      (gs : List (ℕ × Generation E))
      → Erased E document revision b answer
      → All (IsCurrent b) gs
      → All (IsCurrent answer.1) gs
  unfolding scheduled stored
  Erased-IsCurrent gs (refused e _) h = h
  Erased-IsCurrent gs (replayed _ _ _) h = h
  Erased-IsCurrent {document} {revision} {b} gs (applied g _ _ _) h =
      overtaken b (scheduled E (stored E document revision g b)) gs (omega arith) h

  -- `publish_compacted` swaps in the generation of the same documents, or changes nothing.
  pub publish_compacted_cases :
      (pointer : ℕ) (g : Generation E) (b : EmbeddedBackend E)
      → IsCurrent b (pointer, g)
      → ((publish_compacted E pointer g b).1 ≡ b)
        ⊎ (((publish_compacted E pointer g b).1 ≡ record b { active = g; stores = b.stores + 1 })
            × (g.documents ≡ b.active.documents)
            × IsComplete E g)
  unfolding publish_compacted
  publish_compacted_cases pointer g b h = elim (Bool-cases (b.stores == pointer)) [
    | inl same ↦
        let (documents, complete) = h.1 (ground (arith, same)) in
        inr (rw same refl, documents, complete)
    | inr other ↦ inl (rw other refl)
  ]

  IsSound-compacted :
      (g : Generation E) (b : EmbeddedBackend E)
      → g.documents ≡ b.active.documents
      → IsComplete E g
      → IsSound E b
      → IsSound E (record b { active = g; stores = b.stores + 1 })
  IsSound-compacted g b same complete v = record {
    ordered = subst IsOrdered (sym same) v.ordered;
    filed = subst (IsFiled E) (sym same) v.filed;
    latest = λ d a f. v.latest d a (ground (arith, same, f));
    complete = complete;
  }

  pub All-split :
      (P : ℕ × Generation E → Type 0) (before after : List (ℕ × Generation E))
      (x : ℕ × Generation E)
      → All P (before ++ x ∷ after)
      → P x × All P (before ++ after)
  All-split P [] after x h = h
  All-split P (y ∷ before) after x h =
      let (first, rest) = All-split P before after x h.1 in (first, (h.0, rest))

  pub Write-IsSafe : {a b : Writers E} → Write E a b → IsSafe a → IsSafe b
  Write-IsSafe {a} (activates document revision) v =
      let outcome = activate-Activated E document revision a.backend in
      record {
        sound = Activated-IsSound outcome v.sound;
        current = Activated-IsCurrent a.building outcome v.current;
      }
  Write-IsSafe {a} (erases document revision) v =
      let outcome = erase_active-Erased E document revision a.backend in
      record {
        sound = Erased-IsSound outcome v.sound;
        current = Erased-IsCurrent a.building outcome v.current;
      }
  Write-IsSafe {a} (compacts o g built) v = record {
    sound = v.sound;
    current = (
      (omega arith, λ _. built_compaction-documents a.backend.policy o a.backend g v.sound built),
      v.current,
    );
  }
  Write-IsSafe {a} (wakes _) v = record {
    sound = record {
      ordered = v.sound.ordered;
      filed = v.sound.filed;
      latest = v.sound.latest;
      complete = v.sound.complete;
    };
    current = v.current;
  }
  Write-IsSafe {a} (publishes before after pointer g e) v =
      let (one, others) =
        All-split (IsCurrent a.backend) before after (pointer, g)
          (subst (All (IsCurrent a.backend)) e v.current) in
      elim (publish_compacted_cases pointer g a.backend one) [
        | inl same ↦ record {
          sound = subst (IsSound E) (sym same) v.sound;
          current = subst (λ b. All (IsCurrent b) (before ++ after)) (sym same) others;
        }
        | inr (swapped, documents, complete) ↦ record {
          sound =
              subst (IsSound E) (sym swapped)
                (IsSound-compacted g a.backend documents complete v.sound);
          current =
              subst (λ b. All (IsCurrent b) (before ++ after)) (sym swapped)
                (overtaken a.backend
                  (record a.backend { active = g; stores = a.backend.stores + 1 }) (before ++ after)
                  (omega arith) others);
        }
      ]

  pub IsNew-IsSafe : {a : Writers E} → IsNew E a → IsSafe a
  unfolding create find
  IsNew-IsSafe {a} (created policy made none_building) =
      let (dense, _, h1) = and_then_ok _ _ a.backend made in
      let (g, built, h2) = and_then_ok _ _ a.backend h1 in
      let same : record {
        policy = policy;
        latest_revisions = [];
        active = g;
        stores = 1;
        maintenance_pending = false;
      }
          ≡ a.backend =
        ground (arith, h2) in
      let documents = build_generation-documents E _ _ _ _ _ g built in
      record {
        sound = subst (IsSound E) same (record {
          ordered = subst IsOrdered (sym documents) tt;
          filed = subst (IsFiled E) (sym documents) tt;
          latest = λ d r f. absurd (ground (arith, f, documents));
          complete = built-IsComplete E [] _ _ _ _ g tt tt built;
        });
        current = subst (All (IsCurrent a.backend)) (sym none_building) tt;
      }

  pub Written-IsSafe : {a b : Writers E} → Written E a b → IsSafe a → IsSafe b
  Written-IsSafe here v = v
  Written-IsSafe (next r w) v = Write-IsSafe w (Written-IsSafe r v)

  -- In every order of writers on a backend that its constructor has made.
  pub reached-IsSafe : {a b : Writers E} → IsNew E a → Written E a b → IsSafe b
  reached-IsSafe new r = Written-IsSafe r (IsNew-IsSafe new)
