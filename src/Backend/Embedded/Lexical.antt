-- ===== src/Backend/Embedded/Lexical.antt =====
-- The lexical candidates of rag.cpp/src/backend/embedded_backend.cpp.
use llama_rag_runtime.Base.{
  ℕ, suc, zero, ◌≤◌, ◌<◌, false, ◌≡◌, refl, ap, sym, subst, ◌∙◌, some, List, [], ◌∷◌, ◌++◌, arith,
  inl, inr, ◌==◌, length, length-append, All, All-append, Bool-cases,
}
use llama_rag_runtime.Core.Types.{Bytes, ok}
use llama_rag_runtime.Core.Map.{find}
use llama_rag_runtime.Backend.Types.{Candidate, bm25, LexicalRequest, StoredChunk, is_filtered}
use llama_rag_runtime.Dense.Engine.{Engine}
use llama_rag_runtime.Backend.Embedded.State.{Generation}
use llama_rag_runtime.Backend.Embedded.Read.{get_elem?, take_hits, lexical_candidates}
use llama_rag_runtime.Backend.Embedded.Rows.{All-get_elem?}
use llama_rag_runtime.Backend.Embedded.Catalog.{IsKnown}
use llama_rag_runtime.Backend.Embedded.System.{Writers, Written, IsNew}
use llama_rag_runtime.Backend.Embedded.Safety.{reached-IsSafe}
use llama_rag_runtime.Backend.Embedded.Reference.{IsIndexOf, catalog_of, catalog_of-IsIndexed}
use llama_rag_runtime.Backend.Embedded.Equivalence.{Written-AreBuilt}

get_elem?-within :
    {A : Type 0} (i : ℕ) (xs : List A) → i < length xs → (x : A) × (get_elem? i xs ≡ some x)
unfolding get_elem?
get_elem?-within i [] h = absurd (omega (arith, h))
get_elem?-within zero (x ∷ xs) h = (x, refl)
get_elem?-within (suc i) (x ∷ xs) h = get_elem?-within i xs (omega (arith, h))

module _ (E : Engine) where
  -- A candidate is a live chunk that passes the filter.
  abbrev pub IsCandidate : Generation E → LexicalRequest → Candidate E.Float → Type 0
  IsCandidate g request c =
      (s : StoredChunk E.Float) × (find c.chunk g.chunks ≡ some s)
      × (is_filtered request.filter s.metadata ≡ false)

  take_hits-IsCandidate :
      (g : Generation E) (request : LexicalRequest) (output : List (Candidate E.Float))
      (hits : List (ℕ × E.Float))
      → IsKnown g.chunks g.ordinal_keys
      → All (λ (i, _). i < length g.ordinal_keys) hits
      → length output < request.k
      → All (IsCandidate g request) output
      → (out : List (Candidate E.Float)) × (take_hits E g request output hits ≡ ok out)
        × (length out ≤ request.k)
        × All (IsCandidate g request) out
  unfolding take_hits
  take_hits-IsCandidate g request output [] known within room fine =
      (output, refl, omega (arith, room), fine)
  take_hits-IsCandidate g request output ((i, score) ∷ hits) known within room fine =
      let (key, at) = get_elem?-within i g.ordinal_keys within.0 in
      let (s, there) =
        All-get_elem? (λ k. (v : StoredChunk E.Float) × (find k g.chunks ≡ some v)) i g.ordinal_keys
          key known at in
      let longer : List (Candidate E.Float) =
        output ++ record { chunk = key; raw_score = score; score_type = bm25 } ∷ [] in
      let size : length longer ≡ suc (length output) = omega (
        arith,
        length-append output (record { chunk = key; raw_score = score; score_type = bm25 } ∷ []),
      ) in
      elim (Bool-cases (is_filtered request.filter s.metadata)) [
        | inl out ↦
            rw (at, there, out, take_hits)
              (take_hits-IsCandidate g request output hits known within.1 room fine)
        | inr passes ↦
            let more : All (IsCandidate g request) longer =
              All-append _ output _ fine ((s, there, passes), tt) in
            elim (Bool-cases (length longer == request.k)) [
              | inl full ↦
                  rw (at, there, passes, full, take_hits) (longer, refl, ground (arith, full), more)
              | inr left ↦
                  rw (at, there, passes, left, take_hits)
                    (take_hits-IsCandidate g request longer hits known within.1
                      (ground (arith, size, room, left)) more)
            ]
      ]

  -- If the lexical index answers with ordinals under which texts were added: in every order of writers on a new backend,
  -- a search for lexical candidates succeeds, with no more candidates than were asked for, each a live chunk that passes
  -- the filter; the errors of a corrupt index do not occur.
  pub lexical_candidates_live :
      {a b : Writers E} (request : LexicalRequest)
      → ((n : ℕ) (l : E.Lexical) (query : Bytes) (limit : ℕ)
          → IsIndexOf E n l
          → All (λ (i, _). i < n) (E.search_lexical (E.finalize l) query limit))
      → IsNew E a
      → Written E a b
      → (out : List (Candidate E.Float)) × (lexical_candidates E b.backend.active request ≡ ok out)
        × (length out ≤ request.k)
        × All (IsCandidate b.backend.active request) out
  unfolding lexical_candidates
  lexical_candidates_live {a} {b} request in_range new r =
      let g = b.backend.active in
      let v = (Written-AreBuilt E new r).0 in
      let (indexed, size) = catalog_of-IsIndexed E g.documents in
      let count : (catalog_of E g.documents).ordinal ≡ length g.ordinal_keys =
        sym size ∙ sym (ap length v.keys) in
      let within : All (λ (i, _). i < length g.ordinal_keys)
          (E.search_lexical g.lexical request.query (length g.ordinal_keys)) =
        subst
          (λ l.
            All (λ (i, _). i < length g.ordinal_keys)
              (E.search_lexical l request.query (length g.ordinal_keys)))
          (sym v.lexical)
          (subst
            (λ n.
              All (λ (i, _). i < n)
                (E.search_lexical (E.finalize (catalog_of E g.documents).lexical) request.query
                  (length g.ordinal_keys)))
            count (in_range _ _ request.query (length g.ordinal_keys) indexed)) in
      elim (Bool-cases (request.k == 0)) [
        | inl none_asked ↦ rw (none_asked, lexical_candidates) ([], refl, omega arith, tt)
        | inr some_asked ↦
            rw (some_asked, lexical_candidates)
              (take_hits-IsCandidate g request [] _ (reached-IsSafe E new r).sound.complete.known
                within (ground (arith, some_asked)) tt)
      ]
