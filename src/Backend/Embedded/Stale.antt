-- ===== src/Backend/Embedded/Stale.antt =====
-- What an activation of rag.cpp/src/backend/embedded_backend.cpp does with a vector that the base stands for.
use llama_rag_runtime.Base.{ℕ, true, false, ◌≡◌, refl, ap, sym, subst, some, arith, ◌∙◌}
use llama_rag_runtime.Core.Types.{Bytes, ok}
use llama_rag_runtime.Core.Map.{key_eq_refl, find}
use llama_rag_runtime.Core.Keyset.{contains, insert}
use llama_rag_runtime.Core.Ordered.{put, find-put}
use llama_rag_runtime.Backend.Types.{PreparedChunk, PreparedDocument}
use llama_rag_runtime.Dense.Engine.{Engine}
use llama_rag_runtime.Dense.Tiered.{TieredDenseIndex, contains_base, contains_delta}
use llama_rag_runtime.Backend.Embedded.Validate.{validate}
use llama_rag_runtime.Backend.Embedded.State.{ActiveDocument, Generation, EmbeddedBackend}
use llama_rag_runtime.Backend.Embedded.Build.{generation_of}
use llama_rag_runtime.Backend.Embedded.Write.{
  Answer, scheduled, stored, tombstones_for, next_activated, activate,
}
use llama_rag_runtime.Backend.Embedded.Read.{get_elem?}
use llama_rag_runtime.Backend.Embedded.Rows.{with_delta_ok, All-get_elem?}
use llama_rag_runtime.Backend.Embedded.Catalog.{build_generation_ok}
use llama_rag_runtime.Backend.Embedded.Invariant.{IsSound, validate-IsPlaced}
use llama_rag_runtime.Backend.Embedded.Outcome.{
  Activated, refused, replayed, applied, activate-Activated,
}
use llama_rag_runtime.Backend.Embedded.Tiers.{IsTiered, contains_base_of, rebased}
use llama_rag_runtime.Backend.Embedded.Contract.{changed-IsHandedOver}
use llama_rag_runtime.Backend.Embedded.System.{Writers, Written, IsNew}
use llama_rag_runtime.Backend.Embedded.Safety.{reached-IsSafe}
use llama_rag_runtime.Backend.Embedded.Represented.{
  activated-IsChanged, activated-IsTiered, old-IsPlaced, Written-AreTiered,
}

module _ (E : Engine) where
  -- The vector of a key is still that of the base of the generation before.
  abbrev pub IsStale : Bytes → Generation E → Generation E → Type 0
  IsStale k before g =
      (g.dense.base ≡ before.dense.base)
      × (contains_base E k g.dense ≡ true)
      × (contains_delta E k g.dense ≡ false)

  applied-IsStale :
      (p : PreparedDocument E.Float) (r : ℕ) (i : ℕ) (c : PreparedChunk E.Float)
      (b : EmbeddedBackend E) (g : Generation E)
      → IsSound E b
      → IsTiered E b.active
      → validate E p r ≡ ok tt
      → get_elem? i p.chunks ≡ some c
      → contains_base E c.key b.active.dense ≡ true
      → next_activated E p r b.active ≡ ok g
      → IsStale c.key b.active g
  unfolding next_activated generation_of
  applied-IsStale p r i c b g v tiered valid at stands built =
      let a : ActiveDocument E.Float = record { revision = r; prepared = p } in
      let tombstones = tombstones_for E b.active p.key p.chunks in
      let (x, dense, added, with, same) = build_generation_ok E _ _ _ _ _ g built in
      let (base, hides, _) =
        with_delta_ok E x.delta_vectors tombstones x.dimension b.active.dense dense with in
      let kept =
        (changed-IsHandedOver E b.active p.key p.chunks (put p.key a b.active.documents)
          (insert p.key b.active.delta_documents) v.complete
          (λ o there. old-IsPlaced E b p.key o v there) tiered
          (activated-IsChanged E p r b valid)).kept in
      let self : find p.key (put p.key a b.active.documents) ≡ some a =
        find-put p.key p.key a b.active.documents ∙ rw (key_eq_refl p.key) refl in
      let placed : get_elem? c.ordinal p.chunks ≡ some c =
        All-get_elem? (λ (f : PreparedChunk E.Float). get_elem? f.ordinal p.chunks ≡ some f) i
          p.chunks c (validate-IsPlaced E p r valid) at in
      let bare : contains c.key tombstones ≡ false = kept p.key a c (self, placed) stands in
      let now = rebased E c.key dense b.active.dense tombstones base hides in
      let based : contains_base E c.key dense ≡ true =
        ground (arith, now, bare, stands, contains_base_of E c.key b.active.dense) in
      let dense_of : g.dense ≡ dense = ap (λ (y : Generation E). y.dense) same in
      let shown : contains_base E c.key g.dense ≡ true =
        subst (λ d. contains_base E c.key d ≡ true) (sym dense_of) based in
      (
        ap (λ (d : TieredDenseIndex E). d.base) dense_of ∙ base,
        shown,
        not_delta c.key g (activated-IsTiered E p r b g v tiered valid built) shown,
      )
    where
      not_delta :
          (k : Bytes) (g : Generation E)
          → IsTiered E g
          → contains_base E k g.dense ≡ true
          → contains_delta E k g.dense ≡ false
      not_delta k g t h = ground (arith, h, t.exclusive k)

  Activated-IsStale :
      {p : PreparedDocument E.Float} {r : ℕ} {b : EmbeddedBackend E} {answer : Answer E (Unit {0})}
      (i : ℕ) (c : PreparedChunk E.Float)
      → Activated E p r b answer
      → IsSound E b
      → IsTiered E b.active
      → get_elem? i p.chunks ≡ some c
      → contains_base E c.key b.active.dense ≡ true
      → answer.0 ≡ ok tt
      → IsStale c.key b.active answer.1.active
  unfolding scheduled stored
  Activated-IsStale i c (refused e _) v t at stands success = absurd (ground (arith, success))
  Activated-IsStale i c (replayed a _ _ _ _ _) v t at stands success =
      (refl, stands, ground (arith, stands, t.exclusive c.key))
  Activated-IsStale {p} {r} {b} i c (applied g valid newer built) v t at stands success =
      applied-IsStale p r i c b g v t valid at stands built

  -- On a backend reached from a new one: an activation that reports success of a document with a chunk whose key the
  -- base stands for keeps the base, with the vector it has, and puts no vector of that key in the delta, whatever the
  -- chunk's embedding is now.
  pub activate-IsStale :
      {a b : Writers E} (p : PreparedDocument E.Float) (r i : ℕ) (c : PreparedChunk E.Float)
      → IsNew E a
      → Written E a b
      → get_elem? i p.chunks ≡ some c
      → contains_base E c.key b.backend.active.dense ≡ true
      → (activate E p r b.backend).0 ≡ ok tt
      → IsStale c.key b.backend.active (activate E p r b.backend).1.active
  activate-IsStale {a} {b} p r i c new reached at stands success =
      Activated-IsStale i c (activate-Activated E p r b.backend)
        (reached-IsSafe E new reached).sound (Written-AreTiered E new reached).0 at stands success
