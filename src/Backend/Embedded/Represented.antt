-- ===== src/Backend/Embedded/Represented.antt =====
-- Every live vector of rag.cpp/src/backend/embedded_backend.cpp is in the base or in the delta of the dense index.
use llama_rag_runtime.Base.{
  ℕ, Bool, true, false, ◌≡◌, refl, ap, sym, subst, none, some, [], arith, inl, inr, All, Bool-cases,
  ◌==◌, ◌∙◌,
}
use llama_rag_runtime.Core.Types.{Bytes, ok, and_then_ok, unless_ok}
use llama_rag_runtime.Core.Map.{key_eq_refl, find}
use llama_rag_runtime.Core.Keyset.{contains, insert, erase, contains-insert, contains-erase}
use llama_rag_runtime.Core.Ordered.{All-find, put, remove, find-put, find-remove, IsOrdered-IsFound}
use llama_rag_runtime.Backend.Types.{PreparedDocument}
use llama_rag_runtime.Dense.Engine.{Engine}
use llama_rag_runtime.Dense.Tiered.{
  DenseBase, native_exact, empty, TieredDenseIndex, contains_base, keys_of,
}
use llama_rag_runtime.Backend.Embedded.Validate.{validate}
use llama_rag_runtime.Backend.Embedded.State.{
  ActiveDocument, Generation, EmbeddedBackend, EmbeddedMaintenancePolicy,
}
use llama_rag_runtime.Backend.Embedded.Write.{
  Answer, scheduled, stored, chunk_keys, next_activated, next_erased, built_compaction,
  live_vectors, publish_compacted, create,
}
use llama_rag_runtime.Backend.Embedded.Read.{get_elem?}
use llama_rag_runtime.Backend.Embedded.Rows.{
  with_tier_ok, chunk_keys-get_elem?, chunk_keys-IsPlaced, compact_index_ok, live_vectors-find,
  live_vectors-live,
}
use llama_rag_runtime.Backend.Embedded.Catalog.{IsPlaced}
use llama_rag_runtime.Backend.Embedded.Invariant.{IsSound, IsFiled-AllPlaced, validate-IsPlaced}
use llama_rag_runtime.Backend.Embedded.Outcome.{
  Activated, Erased, refused, replayed, applied, activate-Activated, erase_active-Erased,
}
use llama_rag_runtime.Backend.Embedded.Tiers.{IsTiered, contains_base_of, build_generation-IsTiered}
use llama_rag_runtime.Backend.Embedded.Contract.{IsChanged, changed-IsHandedOver}
use llama_rag_runtime.Backend.Embedded.System.{
  Writers, Write, activates, erases, compacts, wakes, publishes, Written, here, next, IsNew,
  created,
}
use llama_rag_runtime.Backend.Embedded.Safety.{IsSafe, reached-IsSafe, All-split}

module _ (E : Engine) where
  pub old-IsPlaced :
      (b : EmbeddedBackend E) (d : Bytes) (o : ActiveDocument E.Float)
      → IsSound E b
      → find d b.active.documents ≡ some o
      → IsPlaced o.prepared.chunks o.prepared.chunks
  old-IsPlaced b d o v there =
      validate-IsPlaced E o.prepared o.revision
        (All-find (λ (d, a). (a.prepared.key ≡ d) × (validate E a.prepared a.revision ≡ ok tt)) d o
          b.active.documents v.filed there).1

  pub activated-IsChanged :
      (p : PreparedDocument E.Float) (r : ℕ) (b : EmbeddedBackend E)
      → validate E p r ≡ ok tt
      → IsChanged E b.active p.key p.chunks
          (put p.key (record { revision = r; prepared = p }) b.active.documents)
          (insert p.key b.active.delta_documents)
  activated-IsChanged p r b valid =
      let a : ActiveDocument E.Float = record { revision = r; prepared = p } in
      let self : find p.key (put p.key a b.active.documents) ≡ some a =
        find-put p.key p.key a b.active.documents ∙ rw (key_eq_refl p.key) refl in
      record {
        others = λ j other. find-put p.key j a b.active.documents ∙ rw other refl;
        delayed = λ j other. contains-insert p.key j b.active.delta_documents ∙ rw other refl;
        itself = λ c there.
            contains-insert p.key p.key b.active.delta_documents ∙ rw (key_eq_refl p.key) refl;
        given = λ c f chunk.
            let same : a ≡ c = ground (arith, chunk.0, self) in
            chunk_keys-get_elem? E f.ordinal p.chunks f (
              subst (λ (x : ActiveDocument E.Float). get_elem? f.ordinal x.prepared.chunks ≡ some f)
                (sym same) chunk.1);
        taken = λ k there.
            let (f, at, is) =
              chunk_keys-IsPlaced E k p.chunks p.chunks (validate-IsPlaced E p r valid) there in
            (a, f, (self, at), is);
      }

  pub activated-IsTiered :
      (p : PreparedDocument E.Float) (r : ℕ) (b : EmbeddedBackend E) (g : Generation E)
      → IsSound E b
      → IsTiered E b.active
      → validate E p r ≡ ok tt
      → next_activated E p r b.active ≡ ok g
      → IsTiered E g
  unfolding next_activated
  activated-IsTiered p r b g v tiered valid built =
      build_generation-IsTiered E _ _ _ _ _ g
        (changed-IsHandedOver E b.active p.key p.chunks _ _ v.complete
          (λ o there. old-IsPlaced b p.key o v there) tiered (activated-IsChanged p r b valid))
        built

  erased-IsChanged :
      (d : Bytes) (g : Generation E)
      → IsChanged E g d [] (remove d g.documents) (erase d g.delta_documents)
  unfolding chunk_keys contains
  erased-IsChanged d g =
      let gone : find d (remove d g.documents) ≡ none =
        find-remove d d g.documents ∙ rw (key_eq_refl d) refl in
      record {
        others = λ j other. find-remove d j g.documents ∙ rw other refl;
        delayed = λ j other. contains-erase d j g.delta_documents ∙ rw other refl;
        itself = λ a there. absurd (ground (arith, there, gone));
        given = λ a c chunk. absurd (ground (arith, chunk.0, gone));
        taken = λ k there. absurd (ground (arith, there));
      }

  erased-IsTiered :
      (d : Bytes) (b : EmbeddedBackend E) (g : Generation E)
      → IsSound E b
      → IsTiered E b.active
      → next_erased E d b.active ≡ ok g
      → IsTiered E g
  unfolding next_erased
  erased-IsTiered d b g v tiered built =
      build_generation-IsTiered E _ _ _ _ _ g
        (changed-IsHandedOver E b.active d [] _ _ v.complete (λ o there. old-IsPlaced b d o v there)
          tiered (erased-IsChanged d b.active))
        built

  built_compaction-IsTiered :
      (policy : EmbeddedMaintenancePolicy) (o : Bool) (b : EmbeddedBackend E) (g : Generation E)
      → IsSound E b
      → built_compaction E policy o b.active ≡ ok g
      → IsTiered E g
  unfolding built_compaction contains
  built_compaction-IsTiered policy o b g v h =
      let (_, h1) = unless_ok _ _ _ _ g h in
      let (dense, made, built) = and_then_ok _ _ g h1 in
      let (keys, bare) = compact_index_ok E _ _ policy.dense dense made in
      build_generation-IsTiered E b.active.documents dense [] [] _ g
        (record {
          hidden = λ k there. subst (λ ks. contains k ks ≡ true) bare there;
          kept = λ d a c chunk stands. refl;
          settled = λ d a c chunk there early.
              contains_base_of E c.key dense
              ∙ rw
                  (
                    keys,
                    bare,
                    live_vectors-find E d a c.ordinal c b.active.documents chunk.0 chunk.1 there,
                  )
                  refl;
          live = λ k stands shown.
              let listed : contains k (keys_of E (live_vectors E b.active.documents)) ≡ true =
                subst (λ ks. contains k ks ≡ true) keys
                  (ground (arith, stands, contains_base_of E k dense)) in
              let (d, a, c, there, at, is) =
                live_vectors-live E k b.active.documents b.active.documents
                  (IsOrdered-IsFound b.active.documents v.ordered)
                  (IsFiled-AllPlaced E b.active.documents v.filed) listed in
              (d, a, c, (there, at), is);
        })
        built

  -- The active generation and those that compactions have built.
  abbrev pub AreTiered : Writers E → Type 0
  AreTiered a = IsTiered E a.backend.active × All (λ (_, g). IsTiered E g) a.building

  Activated-IsTiered :
      {p : PreparedDocument E.Float} {r : ℕ} {b : EmbeddedBackend E} {answer : Answer E (Unit {0})}
      → Activated E p r b answer
      → IsSound E b
      → IsTiered E b.active
      → IsTiered E answer.1.active
  unfolding scheduled stored
  Activated-IsTiered (refused e _) v tiered = tiered
  Activated-IsTiered (replayed _ _ _ _ _ _) v tiered = tiered
  Activated-IsTiered {p} {r} {b} (applied g valid newer built) v tiered =
      activated-IsTiered p r b g v tiered valid built

  Erased-IsTiered :
      {d : Bytes} {r : ℕ} {b : EmbeddedBackend E} {answer : Answer E Bool}
      → Erased E d r b answer
      → IsSound E b
      → IsTiered E b.active
      → IsTiered E answer.1.active
  unfolding scheduled stored
  Erased-IsTiered (refused e _) v tiered = tiered
  Erased-IsTiered (replayed _ _ _) v tiered = tiered
  Erased-IsTiered {d} {r} {b} (applied g _ newer built) v tiered =
      erased-IsTiered d b g v tiered built

  publish_compacted-IsTiered :
      (pointer : ℕ) (g : Generation E) (b : EmbeddedBackend E)
      → IsTiered E b.active
      → IsTiered E g
      → IsTiered E (publish_compacted E pointer g b).1.active
  unfolding publish_compacted
  publish_compacted-IsTiered pointer g b v w = elim (Bool-cases (b.stores == pointer)) [
    | inl same ↦ rw same w
    | inr other ↦ rw other v
  ]

  Write-AreTiered : {a b : Writers E} → IsSafe E a → Write E a b → AreTiered a → AreTiered b
  Write-AreTiered {a} v (activates p r) h =
      (Activated-IsTiered (activate-Activated E p r a.backend) v.sound h.0, h.1)
  Write-AreTiered {a} v (erases d r) h =
      (Erased-IsTiered (erase_active-Erased E d r a.backend) v.sound h.0, h.1)
  Write-AreTiered {a} v (compacts o g built) h =
      (h.0, (built_compaction-IsTiered a.backend.policy o a.backend g v.sound built, h.1))
  Write-AreTiered v (wakes _) h = h
  Write-AreTiered {a} v (publishes front after pointer g e) h =
      let (one, others) =
        All-split E (λ (_, g). IsTiered E g) front after (pointer, g)
          (subst (All λ (_, g). IsTiered E g) e h.1) in
      (publish_compacted-IsTiered pointer g a.backend h.0 one, others)

  empty_base :
      (k : Bytes) (t : TieredDenseIndex E) → t.base.keys ≡ [] → contains_base E k t ≡ true → ⊥
  unfolding contains
  empty_base k t keys stands =
      let none_there : contains k t.base.keys ≡ false =
        subst (λ ks. contains k ks ≡ false) (sym keys) refl in
      ground (arith, stands, none_there, contains_base_of E k t)

  pub active_of :
      (policy : EmbeddedMaintenancePolicy) (g : Generation E) (b : EmbeddedBackend E)
      → ok (record {
        policy = policy;
        latest_revisions = [];
        active = g;
        stores = 1;
        maintenance_pending = false;
      })
        ≡ ok b
      → g ≡ b.active
  active_of policy g b h =
      let same : record {
        policy = policy;
        latest_revisions = [];
        active = g;
        stores = 1;
        maintenance_pending = false;
      }
          ≡ b =
        ground (arith, h) in
      ap (λ (x : EmbeddedBackend E). x.active) same

  IsNew-AreTiered : {a : Writers E} → IsNew E a → AreTiered a
  unfolding create contains find empty
  IsNew-AreTiered {a} (created policy made none_building) =
      let (dense, emptied, h1) = and_then_ok _ _ a.backend made in
      let (g, built, h2) = and_then_ok _ _ a.backend h1 in
      let (index, _, h3) = and_then_ok _ _ dense emptied in
      let (base, bare, _) =
        with_tier_ok E (record { index = native_exact index; keys = []; dimension = 0 }) [] [] 0
          dense h3 in
      let keys : dense.base.keys ≡ [] = ap (λ (x : DenseBase E). x.keys) base in
      let tiered : IsTiered E g =
        build_generation-IsTiered E [] dense [] [] _ g
          (record {
            hidden = λ k there. subst (λ ks. contains k ks ≡ true) bare there;
            kept = λ d o c chunk stands. refl;
            settled = λ d o c chunk there early. absurd (ground (arith, chunk.0));
            live = λ k stands shown. absurd (empty_base k dense keys stands);
          })
          built in
      let active : g ≡ a.backend.active = active_of policy g a.backend h2 in
      (subst (IsTiered E) active tiered, subst (All λ (_, g). IsTiered E g) (sym none_building) tt)

  pub Written-AreTiered : {a b : Writers E} → IsNew E a → Written E a b → AreTiered b
  Written-AreTiered new here = IsNew-AreTiered new
  Written-AreTiered new (next r w) =
      Write-AreTiered (reached-IsSafe E new r) w (Written-AreTiered new r)
