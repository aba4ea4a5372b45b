-- ===== src/Backend/Embedded/Invariant.antt =====
-- The invariant of `EmbeddedBackend` and its writers (rag.cpp/src/backend/embedded_backend.cpp).
use llama_rag_runtime.Base.{
  ℕ, suc, Bool, false, ◌≡◌, refl, ap, sym, subst, some, List, [], ◌∷◌, ◌++◌, arith, inl, inr, All,
  length, Bool-cases, append_assoc, length-append,
}
use llama_rag_runtime.Core.Types.{Bytes, Result, ok, unless_ok}
use llama_rag_runtime.Core.Map.{Map, find}
use llama_rag_runtime.Core.Ordered.{
  put, remove, find-put, find-remove, IsOrdered, put-IsOrdered, remove-IsOrdered, All-put,
  All-remove,
}
use llama_rag_runtime.Backend.Types.{PreparedChunk, PreparedDocument}
use llama_rag_runtime.Dense.Engine.{Engine}
use llama_rag_runtime.Dense.Index.{is_empty}
use llama_rag_runtime.Dense.Tiered.{TieredDenseIndex}
use llama_rag_runtime.Backend.Embedded.Write.{scheduled, stored, next_activated, next_erased}
use llama_rag_runtime.Backend.Embedded.Validate.{validate, check_chunks, check_values}
use llama_rag_runtime.Backend.Embedded.State.{ActiveDocument, Generation, EmbeddedBackend}
use llama_rag_runtime.Backend.Embedded.Build.{build_generation, generation_of}
use llama_rag_runtime.Backend.Embedded.Catalog.{
  IsPlaced, AllPlaced, IsComplete, build_generation-IsComplete, build_generation_ok,
}
use llama_rag_runtime.Backend.Embedded.Read.{get_elem?}

-- The ordinals of chunks count from `n` on.
abbrev pub IsNumbered : {F : Type 0} → ℕ → List (PreparedChunk F) → Type 0
IsNumbered n [] = Unit
IsNumbered n (c ∷ cs) = (c.ordinal ≡ n) × IsNumbered (suc n) cs

get_elem?-length :
    {A : Type 0} (xs ys : List A) (y : A) → get_elem? (length xs) (xs ++ y ∷ ys) ≡ some y
unfolding get_elem?
get_elem?-length [] ys y = refl
get_elem?-length (x ∷ xs) ys y = get_elem?-length xs ys y

IsNumbered-IsPlaced :
    {F : Type 0} (before cs : List (PreparedChunk F))
    → IsNumbered (length before) cs
    → IsPlaced (before ++ cs) cs
IsNumbered-IsPlaced before [] h = tt
IsNumbered-IsPlaced before (c ∷ cs) h = (
  subst (λ n. get_elem? n (before ++ c ∷ cs) ≡ some c) (sym h.0) (get_elem?-length before cs c),
  subst (λ whole. IsPlaced whole cs) (append_assoc before (c ∷ []) cs)
      (IsNumbered-IsPlaced (before ++ c ∷ []) cs
        (subst (λ n. IsNumbered n cs) (length_snoc before c) h.1)),
)
  where
    length_snoc : {A : Type 0} (xs : List A) (x : A) → suc (length xs) ≡ length (xs ++ x ∷ [])
    length_snoc xs x = omega (arith, length-append xs (x ∷ []))

module _ (E : Engine) where
  check_values_ok :
      (norm : E.Double) (values : List E.Float) (rest : Result (Unit {0}))
      → check_values E norm values rest ≡ ok tt
      → rest ≡ ok tt
  unfolding check_values
  check_values_ok norm [] rest h = (unless_ok _ _ _ _ tt h).1
  check_values_ok norm (value ∷ values) rest h =
      check_values_ok (E.add_square norm value) values rest (unless_ok _ _ _ _ tt h).1

  check_chunks-IsNumbered :
      (document : PreparedDocument E.Float) (index : ℕ) (keys : List Bytes) (dimension : ℕ)
      (any_embedding any_empty : Bool) (cs : List (PreparedChunk E.Float))
      → check_chunks E document index keys dimension any_embedding any_empty cs ≡ ok tt
      → IsNumbered index cs
  unfolding check_chunks
  check_chunks-IsNumbered document index keys dimension any_embedding any_empty [] h = tt
  check_chunks-IsNumbered document index keys dimension any_embedding any_empty (c ∷ cs) h =
      let (_, h1) = unless_ok _ _ _ _ tt h in
      let (placed, h2) = unless_ok _ _ _ _ tt h1 in
      let (_, h3) = unless_ok _ _ _ _ tt h2 in
      let (_, h4) = unless_ok _ _ _ _ tt h3 in
      (
        ground (arith, placed),
        elim (Bool-cases (is_empty c.embedding)) [
          | inl none_there ↦
              check_chunks-IsNumbered document (suc index) _ _ _ _ cs (simp none_there at h4)
          | inr there ↦
              let (_, h5) = unless_ok _ _ _ _ tt (simp there at h4) in
              check_chunks-IsNumbered document (suc index) _ _ _ _ cs (check_values_ok _ _ _ h5)
        ],
      )

  pub validate-IsNumbered :
      (document : PreparedDocument E.Float) (revision : ℕ)
      → validate E document revision ≡ ok tt
      → IsNumbered 0 document.chunks
  unfolding validate
  validate-IsNumbered document revision h =
      let (_, h1) = unless_ok _ _ _ _ tt h in
      let (_, h2) = unless_ok _ _ _ _ tt h1 in
      let (_, h3) = unless_ok _ _ _ _ tt h2 in
      check_chunks-IsNumbered document 0 [] 0 false false document.chunks h3

  -- Every active document stands under its own key and has been validated.
  abbrev pub IsFiled : Map (ActiveDocument E.Float) → Type 0
  IsFiled = All λ (d, a). (a.prepared.key ≡ d) × (validate E a.prepared a.revision ≡ ok tt)

  pub validate-IsPlaced :
      (document : PreparedDocument E.Float) (revision : ℕ)
      → validate E document revision ≡ ok tt
      → IsPlaced document.chunks document.chunks
  validate-IsPlaced document revision h =
      IsNumbered-IsPlaced [] document.chunks (validate-IsNumbered document revision h)

  pub IsFiled-AllPlaced : (m : Map (ActiveDocument E.Float)) → IsFiled m → AllPlaced E m
  IsFiled-AllPlaced [] h = tt
  IsFiled-AllPlaced ((d, a) ∷ m) h =
      (validate-IsPlaced a.prepared a.revision h.0.1, IsFiled-AllPlaced m h.1)

  pub build_generation-documents :
      (documents : Map (ActiveDocument E.Float)) (dense_index : TieredDenseIndex E)
      (delta tombstones : List Bytes) (number : ℕ) (g : Generation E)
      → build_generation E documents dense_index delta tombstones number ≡ ok g
      → g.documents ≡ documents
  unfolding generation_of
  build_generation-documents documents dense_index delta tombstones number g h =
      let (_, _, _, _, same) =
        build_generation_ok E documents dense_index delta tombstones number g h in
      ap (λ x. x.documents) same

  -- The catalog is complete and in order, each active document has the latest revision of its key, and the
  -- documents are filed.
  pub record IsSound (b : EmbeddedBackend E) : Type 0 where
    pub ordered : IsOrdered b.active.documents
    pub filed : IsFiled b.active.documents
    pub latest :
        (d : Bytes) (a : ActiveDocument E.Float)
        → find d b.active.documents ≡ some a
        → find d b.latest_revisions ≡ some a.revision
    pub complete : IsComplete E b.active

  -- A generation that is built of ordered and filed documents is complete.
  pub built-IsComplete :
      (documents : Map (ActiveDocument E.Float)) (dense_index : TieredDenseIndex E)
      (delta tombstones : List Bytes) (number : ℕ) (g : Generation E)
      → IsOrdered documents
      → IsFiled documents
      → build_generation E documents dense_index delta tombstones number ≡ ok g
      → IsComplete E g
  built-IsComplete documents dense_index delta tombstones number g ordered filed h =
      build_generation-IsComplete E documents dense_index delta tombstones number g ordered
        (IsFiled-AllPlaced documents filed) h

  -- A generation of the documents `m` in the place of the active one.
  replaced-IsSound :
      (b : EmbeddedBackend E) (m : Map (ActiveDocument E.Float)) (g : Generation E) (d : Bytes)
      (r : ℕ)
      → g.documents ≡ m
      → IsOrdered m
      → IsFiled m
      → ((j : Bytes) (a : ActiveDocument E.Float)
          → find j m ≡ some a
          → find j (put d r b.latest_revisions) ≡ some a.revision)
      → IsComplete E g
      → IsSound (scheduled E (stored E d r g b))
  unfolding scheduled stored
  replaced-IsSound b m g d r same ordered filed latest complete = record {
    ordered = subst IsOrdered (sym same) ordered;
    filed = subst IsFiled (sym same) filed;
    latest = λ j a f. latest j a (ground (arith, same, f));
    complete = complete;
  }

  pub activated-IsSound :
      (document : PreparedDocument E.Float) (revision : ℕ) (b : EmbeddedBackend E)
      (g : Generation E)
      → IsSound b
      → validate E document revision ≡ ok tt
      → next_activated E document revision b.active ≡ ok g
      → IsSound (scheduled E (stored E document.key revision g b))
  unfolding next_activated
  activated-IsSound document revision b g v valid h =
      let a : ActiveDocument E.Float = record { revision = revision; prepared = document } in
      let ordered = put-IsOrdered document.key a b.active.documents v.ordered in
      let filed = All-put _ document.key a b.active.documents (refl, valid) v.filed in
      replaced-IsSound b (put document.key a b.active.documents) g document.key revision
        (build_generation-documents _ _ _ _ _ g h) ordered filed
        (λ j w f. ground (
          arith,
          f,
          find-put document.key j a b.active.documents,
          find-put document.key j revision b.latest_revisions,
          v.latest j w,
        ))
        (built-IsComplete _ _ _ _ _ g ordered filed h)

  pub erased-IsSound :
      (document : Bytes) (revision : ℕ) (b : EmbeddedBackend E) (g : Generation E)
      → IsSound b
      → next_erased E document b.active ≡ ok g
      → IsSound (scheduled E (stored E document revision g b))
  unfolding next_erased
  erased-IsSound document revision b g v h =
      let ordered = remove-IsOrdered document b.active.documents v.ordered in
      let filed = All-remove _ document b.active.documents v.filed in
      replaced-IsSound b (remove document b.active.documents) g document revision
        (build_generation-documents _ _ _ _ _ g h) ordered filed
        (λ j w f. ground (
          arith,
          f,
          find-remove document j b.active.documents,
          find-put document j revision b.latest_revisions,
          v.latest j w,
        ))
        (built-IsComplete _ _ _ _ _ g ordered filed h)
