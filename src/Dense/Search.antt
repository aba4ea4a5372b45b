-- ===== src/Dense/Search.antt =====
-- What the search of the tiered index returns (rag.cpp/src/dense/tiered_index.cpp).
use llama_rag_runtime.Base.{
  ℕ, suc, ◌≤◌, ◌<◌, true, false, ◌≡◌, subst, List, [], ◌∷◌, ◌++◌, arith, inl, inr, All, All-append,
  Bool-cases, ◌==◌, length, length-append, sort_by,
}
use llama_rag_runtime.Core.Types.{Bytes, ok, and_then_ok}
use llama_rag_runtime.Core.Map.{key_eq, key_eq_iff}
use llama_rag_runtime.Core.Keyset.{contains, insert, contains-insert}
use llama_rag_runtime.Backend.Types.{Candidate}
use llama_rag_runtime.Dense.Engine.{Engine}
use llama_rag_runtime.Dense.Index.{ranks_before}
use llama_rag_runtime.Dense.Tiered.{TieredDenseIndex, keep_best, search_tiered}

-- No chunk stands twice.
abbrev pub IsDistinct : {F : Type 0} → List (Candidate F) → Type 0
IsDistinct [] = Unit
IsDistinct (c ∷ cs) = All (λ x. key_eq c.chunk x.chunk ≡ false) cs × IsDistinct cs

module _ {F : Type 0} where
  -- The keys of the candidates were all seen.
  abbrev AreSeen : List Bytes → List (Candidate F) → Type 0
  AreSeen seen = All λ c. contains c.chunk seen ≡ true

  AreSeen-insert :
      (k : Bytes) (seen : List Bytes) (cs : List (Candidate F))
      → AreSeen seen cs
      → AreSeen (insert k seen) cs
  AreSeen-insert k seen [] h = tt
  AreSeen-insert k seen (c ∷ cs) h =
      (ground (arith, contains-insert k c.chunk seen, h.0), AreSeen-insert k seen cs h.1)

  AreSeen-other :
      (c : Candidate F) (seen : List Bytes) (cs : List (Candidate F))
      → contains c.chunk seen ≡ false
      → AreSeen seen cs
      → All (λ x. key_eq x.chunk c.chunk ≡ false) cs
  AreSeen-other c seen [] new h = tt
  AreSeen-other c seen (x ∷ cs) new h = (differ, AreSeen-other c seen cs new h.1)
    where
      differ : key_eq x.chunk c.chunk ≡ false
      differ = elim (Bool-cases (key_eq x.chunk c.chunk)) [
        | inl same ↦
            let moved : contains c.chunk seen ≡ true =
              subst (λ k. contains k seen ≡ true) ((key_eq_iff x.chunk c.chunk).0 same) h.0 in
            absurd (ground (arith, moved, new))
        | inr other ↦ other
      ]

  IsDistinct-snoc :
      (c : Candidate F) (cs : List (Candidate F))
      → All (λ x. key_eq x.chunk c.chunk ≡ false) cs
      → IsDistinct cs
      → IsDistinct (cs ++ c ∷ [])
  IsDistinct-snoc c [] new h = (tt, tt)
  IsDistinct-snoc c (x ∷ cs) new h =
      (All-append _ cs (c ∷ []) h.0 (new.0, tt), IsDistinct-snoc c cs new.1 h.1)

module _ (E : Engine) where
  keep_best-IsDistinct :
      (k : ℕ) (seen : List Bytes) (output candidates : List (Candidate E.Float))
      → length output < k
      → AreSeen seen output
      → IsDistinct output
      → (length (keep_best E k seen output candidates) ≤ k)
        × IsDistinct (keep_best E k seen output candidates)
  unfolding keep_best
  keep_best-IsDistinct k seen output [] room known distinct = (omega (arith, room), distinct)
  keep_best-IsDistinct k seen output (c ∷ rest) room known distinct =
      elim (Bool-cases (contains c.chunk seen)) [
        | inl again ↦
            rw (again, keep_best) (keep_best-IsDistinct k seen output rest room known distinct)
        | inr new ↦
            let longer : List (Candidate E.Float) = output ++ c ∷ [] in
            let size : length longer ≡ suc (length output) =
              omega (arith, length-append output (c ∷ [])) in
            let apart : IsDistinct longer =
              IsDistinct-snoc c output (AreSeen-other c seen output new known) distinct in
            elim (Bool-cases (length longer == k)) [
              | inl full ↦ rw (new, full, keep_best) (omega (arith, size, room), apart)
              | inr more ↦
                  rw (new, more, keep_best)
                    (keep_best-IsDistinct k (insert c.chunk seen) longer rest
                      (ground (arith, size, room, more))
                      (All-append _ output (c ∷ []) (AreSeen-insert c.chunk seen output known) (
                        ground (
                          arith,
                          contains-insert c.chunk c.chunk seen,
                          key_eq_iff c.chunk c.chunk,
                        ),
                        tt,
                      ))
                      apart)
            ]
      ]

  -- A search of the tiers for one candidate at least that succeeds returns no more than were asked for, and no chunk
  -- twice, though the base and the delta may both have found it.
  pub search_tiered-IsDistinct :
      (tiered : TieredDenseIndex E) (query : List E.Float) (base_allowed delta_allowed : List Bytes)
      (k : ℕ) (out : List (Candidate E.Float))
      → 0 < k
      → search_tiered E tiered query base_allowed delta_allowed k ≡ ok out
      → (length out ≤ k) × IsDistinct out
  unfolding search_tiered
  search_tiered-IsDistinct tiered query base_allowed delta_allowed k out room h =
      let (base, _, h1) = and_then_ok _ _ out h in
      let (delta, _, h2) = and_then_ok _ _ out h1 in
      let same : keep_best E k [] [] (sort_by (ranks_before E) (base ++ delta)) ≡ out =
        ground (arith, h2) in
      subst (λ o. (length o ≤ k) × IsDistinct o) same
        (keep_best-IsDistinct k [] [] (sort_by (ranks_before E) (base ++ delta)) room tt tt)
