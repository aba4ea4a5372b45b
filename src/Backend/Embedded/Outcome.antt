-- ===== src/Backend/Embedded/Outcome.antt =====
-- How `activate` and `erase` of rag.cpp/src/backend/embedded_backend.cpp can end.
use llama_rag_runtime.Base.{
  ℕ, Bool, true, false, ◌≡◌, refl, Option, none, some, arith, ◌&&◌, ◌||◌, not, ◌==◌, inl, inr,
  Bool-cases,
}
use llama_rag_runtime.Core.Types.{
  Bytes, Result, ok, err, Result-cases, Error, ascii, invalid_argument, already_exists,
}
use llama_rag_runtime.Core.Map.{find, key_eq_iff}
use llama_rag_runtime.Backend.Types.{PreparedDocument}
use llama_rag_runtime.Dense.Engine.{Engine}
use llama_rag_runtime.Dense.Index.{is_empty}
use llama_rag_runtime.Backend.Embedded.Validate.{validate}
use llama_rag_runtime.Backend.Embedded.State.{ActiveDocument, Generation, EmbeddedBackend}
use llama_rag_runtime.Backend.Embedded.Write.{
  Answer, is_behind, is_latest, is_same, scheduled, stored, published, next_activated,
  activate_valid, activate, is_active, next_erased, erase_active,
}

module _ (E : Engine) where
  abbrev pub stale_error : Error
  stale_error = record { code = already_exists; message = ascii "document revision is stale" }

  -- Why a call of `activate` is refused.
  pub data Refusal (document : PreparedDocument E.Float) (revision : ℕ) (b : EmbeddedBackend E)
      : Error → Type 0 where
    invalid : (e : Error) → validate E document revision ≡ err e → Refusal document revision b e
    stale :
        validate E document revision ≡ ok tt
        → is_behind E revision (find document.key b.latest_revisions) ≡ true
        → (is_latest E revision (find document.key b.latest_revisions)
            && is_same E document revision (find document.key b.active.documents))
          ≡ false
        → Refusal document revision b stale_error
    unbuilt :
        (e : Error)
        → validate E document revision ≡ ok tt
        → is_behind E revision (find document.key b.latest_revisions) ≡ false
        → next_activated E document revision b.active ≡ err e
        → Refusal document revision b e

  -- Why a call of `erase` is refused.
  pub data EraseRefusal (document : Bytes) (revision : ℕ) (b : EmbeddedBackend E)
      : Error → Type 0 where
    invalid :
        (is_empty document || revision == 0) ≡ true
        → EraseRefusal document revision b (record {
          code = invalid_argument;
          message = ascii "document key and revision are required";
        })
    stale :
        (is_empty document || revision == 0) ≡ false
        → is_behind E revision (find document b.latest_revisions) ≡ true
        → (is_latest E revision (find document b.latest_revisions)
            && not (is_active E (find document b.active.documents)))
          ≡ false
        → EraseRefusal document revision b stale_error
    unbuilt :
        (e : Error)
        → (is_empty document || revision == 0) ≡ false
        → is_behind E revision (find document b.latest_revisions) ≡ false
        → next_erased E document b.active ≡ err e
        → EraseRefusal document revision b e

  -- A call of `activate` is refused and leaves the backend alone, finds its own revision active, or publishes
  -- a generation.
  pub data Activated (document : PreparedDocument E.Float) (revision : ℕ) (b : EmbeddedBackend E)
      : Answer E (Unit {0}) → Type 0 where
    refused : (e : Error) → Refusal document revision b e → Activated document revision b (err e, b)
    replayed :
        (a : ActiveDocument E.Float)
        → validate E document revision ≡ ok tt
        → find document.key b.latest_revisions ≡ some revision
        → find document.key b.active.documents ≡ some a
        → a.revision ≡ revision
        → a.prepared.content_hash ≡ document.content_hash
        → Activated document revision b (ok tt, b)
    applied :
        (g : Generation E)
        → validate E document revision ≡ ok tt
        → is_behind E revision (find document.key b.latest_revisions) ≡ false
        → next_activated E document revision b.active ≡ ok g
        → Activated document revision b (ok tt, scheduled E (stored E document.key revision g b))

  pub data Erased (document : Bytes) (revision : ℕ) (b : EmbeddedBackend E)
      : Answer E Bool → Type 0 where
    refused :
        (e : Error) → EraseRefusal document revision b e → Erased document revision b (err e, b)
    replayed :
        (is_empty document || revision == 0) ≡ false
        → find document b.latest_revisions ≡ some revision
        → find document b.active.documents ≡ none
        → Erased document revision b (ok false, b)
    applied :
        (g : Generation E)
        → (is_empty document || revision == 0) ≡ false
        → is_behind E revision (find document b.latest_revisions) ≡ false
        → next_erased E document b.active ≡ ok g
        → Erased document revision b (
          ok (is_active E (find document b.active.documents)),
          scheduled E (stored E document revision g b),
        )

  is_latest-some :
      (revision : ℕ) (latest : Option ℕ)
      → is_latest E revision latest ≡ true
      → latest ≡ some revision
  unfolding is_latest
  is_latest-some revision none h = absurd (ground (arith, h))
  is_latest-some revision (some r) h = ground (arith, h)

  is_same-some :
      (document : PreparedDocument E.Float) (revision : ℕ)
      (active : Option (ActiveDocument E.Float))
      → is_same E document revision active ≡ true
      → (a : ActiveDocument E.Float) × (active ≡ some a)
        × (a.revision ≡ revision)
        × (a.prepared.content_hash ≡ document.content_hash)
  unfolding is_same
  is_same-some document revision none h = absurd (ground (arith, h))
  is_same-some document revision (some a) h = (
    a,
    refl,
    ground (arith, h),
    ground (arith, h, key_eq_iff a.prepared.content_hash document.content_hash),
  )

  is_active-none : {A : Type 0} (o : Option A) → is_active E o ≡ false → o ≡ none
  unfolding is_active
  is_active-none none h = refl
  is_active-none (some a) h = absurd (ground (arith, h))

  published_cases :
      {A : Type 0} (P : Answer E A → Type 0) (document : Bytes) (revision : ℕ) (answer : A)
      (b : EmbeddedBackend E) (r : Result (Generation E))
      → ((e : Error) → r ≡ err e → P (err e, b))
      → ((g : Generation E)
          → r ≡ ok g
          → P (ok answer, scheduled E (stored E document revision g b)))
      → P (published E document revision answer b r)
  unfolding published
  published_cases P document revision answer b (ok g) fails holds = holds g refl
  published_cases P document revision answer b (err e) fails holds = fails e refl

  activate_valid-Activated :
      (document : PreparedDocument E.Float) (revision : ℕ) (b : EmbeddedBackend E)
      → validate E document revision ≡ ok tt
      → Activated document revision b (activate_valid E document revision b)
  unfolding activate_valid
  activate_valid-Activated document revision b valid =
      elim (Bool-cases (is_behind E revision (find document.key b.latest_revisions))) [
        | inl behind ↦
            elim (Bool-cases (
              is_latest E revision (find document.key b.latest_revisions)
              && is_same E document revision (find document.key b.active.documents))) [
                | inl again ↦
                    let (a, found, revised, hashed) =
                      is_same-some document revision (find document.key b.active.documents)
                        (ground (arith, again)) in
                    rw (behind, again)
                      (replayed a valid
                        (is_latest-some revision (find document.key b.latest_revisions)
                          (ground (arith, again)))
                        found revised hashed)
                | inr old ↦ rw (behind, old) (refused _ (Refusal.stale valid behind old))
              ]
        | inr newer ↦ rw newer (
            published_cases (Activated document revision b) document.key revision tt b
              (next_activated E document revision b.active)
              (λ e failed. refused e (Refusal.unbuilt e valid newer failed))
              (λ g built. applied g valid newer built))
      ]

  pub activate-Activated :
      (document : PreparedDocument E.Float) (revision : ℕ) (b : EmbeddedBackend E)
      → Activated document revision b (activate E document revision b)
  unfolding activate
  activate-Activated document revision b = elim (Result-cases (validate E document revision)) [
    | inl (_, valid) ↦ rw (valid, activate) (activate_valid-Activated document revision b valid)
    | inr (e, bad) ↦ rw (bad, activate) (refused e (Refusal.invalid e bad))
  ]

  pub erase_active-Erased :
      (document : Bytes) (revision : ℕ) (b : EmbeddedBackend E)
      → Erased document revision b (erase_active E document revision b)
  unfolding erase_active
  erase_active-Erased document revision b = elim (Bool-cases (is_empty document || revision == 0)) [
    | inl bad ↦ rw bad (refused _ (EraseRefusal.invalid bad))
    | inr valid ↦ elim (Bool-cases (is_behind E revision (find document b.latest_revisions))) [
      | inl behind ↦
          elim (Bool-cases (
            is_latest E revision (find document b.latest_revisions)
            && not (is_active E (find document b.active.documents)))) [
              | inl again ↦
                  rw (valid, behind, again)
                    (replayed valid
                      (is_latest-some revision (find document b.latest_revisions)
                        (ground (arith, again)))
                      (is_active-none (find document b.active.documents) (ground (arith, again))))
              | inr old ↦ rw (valid, behind, old) (refused _ (EraseRefusal.stale valid behind old))
            ]
      | inr newer ↦
          rw (valid, newer)
            (published_cases (Erased document revision b) document revision
              (is_active E (find document b.active.documents)) b (next_erased E document b.active)
              (λ e failed. refused e (EraseRefusal.unbuilt e valid newer failed))
              (λ g built. applied g valid newer built))
    ]
  ]
