-- ===== src/Backend/Embedded/Corpus.antt =====
-- What a candidate backend promises of its documents (rag.cpp/include/rag/backend/candidate_backend.hpp), without
-- generations, ordinals, indexes and maintenance.
use llama_rag_runtime.Base.{
  subst, ap, ◌∙◌, refl, ℕ, ◌≤◌, ◌<◌, Bool, true, false, ◌≡◌, Option, none, some, arith, inl, inr,
  Bool-cases, if◌then◌else◌, [],
}
use llama_rag_runtime.Core.Types.{
  Bytes, Result, ok, err, Error, fail, ascii, invalid_argument, already_exists,
}
use llama_rag_runtime.Core.Map.{key_eq, key_eq_iff}
use llama_rag_runtime.Backend.Types.{PreparedDocument}
use llama_rag_runtime.Backend.Embedded.State.{ActiveDocument}

-- The latest revision of each document, and the document that is live.
pub record Corpus (F : Type 0) : Type 0 where
  pub revisions : Bytes → Option ℕ
  pub live : Bytes → Option (ActiveDocument F)

-- A document gets a revision, with a new content or with none.
unfoldable pub with_document :
    {F : Type 0} → Bytes → ℕ → Option (ActiveDocument F) → Corpus F → Corpus F
with_document d r content s = record {
  revisions = λ j. if key_eq d j then some r else s.revisions j;
  live = λ j. if key_eq d j then content else s.live j;
}

-- The revision is newer than any that the document has had.
unfoldable pub IsNewer : ℕ → Option ℕ → Type 0
IsNewer r none = Unit
IsNewer r (some latest) = latest < r

pub data CorpusReach {F : Type 0} (s : Corpus F) : Corpus F → Type 0 where
  start : CorpusReach s s
  activated :
      {t : Corpus F} (p : PreparedDocument F) (r : ℕ)
      → CorpusReach s t
      → IsNewer r (t.revisions p.key)
      → CorpusReach s (with_document p.key r (some (record { revision = r; prepared = p })) t)
  erased :
      {t : Corpus F} (d : Bytes) (r : ℕ)
      → CorpusReach s t
      → IsNewer r (t.revisions d)
      → CorpusReach s (with_document d r none t)

-- Whether a document is live.
unfoldable pub is_there : {A : Type 0} → Option A → Bool
is_there none = false
is_there (some a) = true

-- The document has had a revision, and this one is not newer.
unfoldable pub IsOld : ℕ → Option ℕ → Type 0
IsOld r none = ⊥
IsOld r (some latest) = r ≤ latest

-- The revision is the latest of its document, and live with the same content.
abbrev pub IsRepeated : {F : Type 0} → PreparedDocument F → ℕ → Corpus F → Type 0
IsRepeated {F} p r s =
    (a : ActiveDocument F) × (s.revisions p.key ≡ some r)
    × (s.live p.key ≡ some a)
    × (a.revision ≡ r)
    × (a.prepared.content_hash ≡ p.content_hash)

-- What `activate` promises of the corpus, in each of its cases. `valid` is the check of the document and
-- `built` the attempt to build what is to be published.
pub data CorpusActivated {F G : Type 0} (valid : Result (Unit {0})) (built : Result G)
    (p : PreparedDocument F) (r : ℕ) (s : Corpus F) : Result (Unit {0}) → Corpus F → Type 0 where
  invalid : (e : Error) → valid ≡ err e → CorpusActivated valid built p r s (err e) s
  stale :
      valid ≡ ok tt
      → IsOld r (s.revisions p.key)
      → (IsRepeated p r s → ⊥)
      → CorpusActivated valid built p r s
          (fail already_exists (ascii "document revision is stale"))
          s
  repeats : valid ≡ ok tt → IsRepeated p r s → CorpusActivated valid built p r s (ok tt) s
  unbuilt :
      (e : Error)
      → valid ≡ ok tt
      → IsNewer r (s.revisions p.key)
      → built ≡ err e
      → CorpusActivated valid built p r s (err e) s
  commits :
      (g : G)
      → valid ≡ ok tt
      → IsNewer r (s.revisions p.key)
      → built ≡ ok g
      → CorpusActivated valid built p r s
          (ok tt)
          (with_document p.key r (some (record { revision = r; prepared = p })) s)

-- What a deletion has to name.
abbrev pub IsNamed : Bytes → ℕ → Type 0
IsNamed d r = (d ≡ [] → ⊥) × (r ≡ 0 → ⊥)

-- What `erase` promises, in each of its cases: it answers whether the document was live.
pub data CorpusErased {F G : Type 0} (built : Result G) (d : Bytes) (r : ℕ) (s : Corpus F)
    : Result Bool → Corpus F → Type 0 where
  invalid :
      (IsNamed d r → ⊥)
      → CorpusErased built d r s
          (fail invalid_argument (ascii "document key and revision are required"))
          s
  stale :
      IsNamed d r
      → IsOld r (s.revisions d)
      → ((s.revisions d ≡ some r) × (s.live d ≡ none) → ⊥)
      → CorpusErased built d r s (fail already_exists (ascii "document revision is stale")) s
  repeats :
      IsNamed d r → s.revisions d ≡ some r → s.live d ≡ none → CorpusErased built d r s (ok false) s
  unbuilt :
      (e : Error)
      → IsNamed d r
      → IsNewer r (s.revisions d)
      → built ≡ err e
      → CorpusErased built d r s (err e) s
  commits :
      (g : G)
      → IsNamed d r
      → IsNewer r (s.revisions d)
      → built ≡ ok g
      → CorpusErased built d r s (ok (is_there (s.live d))) (with_document d r none s)

-- A revision is at most another one, and the same content stands under the same revision.
pub record IsLater {F : Type 0} (d : Bytes) (r : ℕ) (content : Option (ActiveDocument F))
    (t : Corpus F) : Type 0 where
  pub revision : ℕ
  pub latest : t.revisions d ≡ some revision
  pub grown : r ≤ revision
  pub same : revision ≡ r → t.live d ≡ content

with_document-IsLater :
    {F : Type 0} (d k : Bytes) (r n : ℕ) (content other : Option (ActiveDocument F)) (t : Corpus F)
    → IsNewer n (t.revisions k)
    → IsLater d r content t
    → IsLater d r content (with_document k n other t)
unfolding with_document IsNewer
with_document-IsLater d k r n content other t newer h = elim (Bool-cases (key_eq k d)) [
  | inl here ↦
      let l : h.revision < n =
        subst (IsNewer n) (ap t.revisions ((key_eq_iff k d).0 here) ∙ h.latest) newer in
      record {
        revision = n;
        latest = rw here refl;
        grown = omega (arith, h.grown, l);
        same = λ e. absurd (omega (arith, h.grown, l, e));
      }
  | inr there ↦ record {
    revision = h.revision;
    latest = rw there h.latest;
    grown = h.grown;
    same = λ e. rw there (h.same e);
  }
]

-- What a document was under a revision, it is until it has a newer one.
pub CorpusReach-IsLater :
    {F : Type 0} {s t : Corpus F} (d : Bytes) (r : ℕ)
    → s.revisions d ≡ some r
    → CorpusReach s t
    → IsLater d r (s.live d) t
CorpusReach-IsLater {F} {s} d r e start = record {
  revision = r;
  latest = e;
  grown = omega arith;
  same = λ _. refl;
}
CorpusReach-IsLater {F} {s} d r e (activated {t} p n before newer) =
    with_document-IsLater d p.key r n (s.live d) _ t newer (CorpusReach-IsLater d r e before)
CorpusReach-IsLater {F} {s} d r e (erased {t} k n before newer) =
    with_document-IsLater d k r n (s.live d) none t newer (CorpusReach-IsLater d r e before)
