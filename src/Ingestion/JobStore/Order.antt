-- ===== src/Ingestion/JobStore/Order.antt =====
-- The order in which `latest_jobs` of job_store.cpp puts the jobs out, apart from its comparator.
use Prim.Native.Nat.{lt, eq, gt}
use llama_rag_runtime.Base.{
  ◌<◌, ◌≡◌, refl, subst, sym, ◌∙◌, ◌⊎◌, inl, inr, Bool, true, false, ◌==◌, List, [], ◌∷◌, All,
  arith, Bool-cases, sort_by,
}
use llama_rag_runtime.Base.Sort.{insert_by}
use llama_rag_runtime.Core.Types.{Bytes}
use llama_rag_runtime.Core.Metadata.{compare_bytes}
use llama_rag_runtime.Core.Ordered.{compare_bytes-eq, compare_bytes-gt}
use llama_rag_runtime.Ingestion.Job.{IngestionJob}
use llama_rag_runtime.Ingestion.JobStore.File.{created_before}
use llama_rag_runtime.Ingestion.JobStore.Selection.{Has, insert_by-Has, sort_by-Has}

-- A text stands before another one: it is a proper prefix, or smaller where they first differ.
abbrev pub IsBefore : Bytes → Bytes → Type 0
IsBefore xs [] = ⊥
IsBefore [] (y ∷ ys) = Unit
IsBefore (x ∷ xs) (y ∷ ys) = (x < y) ⊎ ((x ≡ y) × IsBefore xs ys)

compare_bytes-IsBefore : (a b : Bytes) → compare_bytes a b ≡ lt → IsBefore a b
unfolding compare_bytes
compare_bytes-IsBefore [] [] h = ground (arith, h)
compare_bytes-IsBefore [] (y ∷ ys) h = tt
compare_bytes-IsBefore (x ∷ xs) [] h = ground (arith, h)
compare_bytes-IsBefore (x ∷ xs) (y ∷ ys) h = elim (Bool-cases (x == y)) [
  | inl same ↦ inr (ground (arith, same), compare_bytes-IsBefore xs ys (ground (arith, h, same)))
  | inr other ↦ inl (ground (arith, h, other))
]

IsBefore-trans : (a b c : Bytes) → IsBefore a b → IsBefore b c → IsBefore a c
IsBefore-trans a b [] g h = h
IsBefore-trans a [] (z ∷ zs) g h = absurd g
IsBefore-trans [] (y ∷ ys) (z ∷ zs) g h = tt
IsBefore-trans (x ∷ xs) (y ∷ ys) (z ∷ zs) (inl l) (inl m) = inl (omega (arith, l, m))
IsBefore-trans (x ∷ xs) (y ∷ ys) (z ∷ zs) (inl l) (inr (f, m)) = inl (omega (arith, l, f))
IsBefore-trans (x ∷ xs) (y ∷ ys) (z ∷ zs) (inr (e, l)) (inl m) = inl (omega (arith, e, m))
IsBefore-trans (x ∷ xs) (y ∷ ys) (z ∷ zs) (inr (e, l)) (inr (f, m)) =
    inr (e ∙ f, IsBefore-trans xs ys zs l m)

module _ {A : Type 0} where
  -- Every entry is in a relation with all that stand behind it.
  abbrev pub AllPairs : (A → A → Type 0) → List A → Type 0
  AllPairs R [] = Unit
  AllPairs R (x ∷ xs) = All (R x) xs × AllPairs R xs

  pub All-Has : (P : A → Type 0) (xs : List A) → ((x : A) → Has x xs → P x) → All P xs
  All-Has P [] h = tt
  All-Has P (x ∷ xs) h = (h x (inl refl), All-Has P xs (λ y m. h y (inr m)))

  Has-All : (P : A → Type 0) (xs : List A) (x : A) → All P xs → Has x xs → P x
  Has-All P [] x h m = absurd m
  Has-All P (y ∷ ys) x h (inl e) = subst P (sym e) h.0
  Has-All P (y ∷ ys) x h (inr m) = Has-All P ys x h.1 m

  module _ (before : A → A → Bool) where
    All-insert_by :
        (P : A → Type 0) (x : A) (ys : List A) → P x → All P ys → All P (insert_by before x ys)
    All-insert_by P x ys p h = All-Has P (insert_by before x ys) λ y m.
        elim (insert_by-Has before y x ys m) [
          | inl e ↦ subst P (sym e) p
          | inr n ↦ Has-All P ys y h n
        ]

    All-sort_by : (P : A → Type 0) (xs : List A) → All P xs → All P (sort_by before xs)
    All-sort_by P xs h =
        All-Has P (sort_by before xs) λ y m. Has-All P xs y h (sort_by-Has before y xs m)

    module _ (R S : A → A → Type 0) (flip : (x y : A) → R x y → R y x)
        (first : (x y : A) → before x y ≡ true → S x y)
        (later : (x y : A) → before x y ≡ false → R x y → S y x)
        (S-trans : (x y z : A) → S x y → S y z → S x z) where
      insert_by-R :
          (x : A) (ys : List A) → All (R x) ys → AllPairs R ys → AllPairs R (insert_by before x ys)
      unfolding insert_by
      insert_by-R x [] a p = (tt, tt)
      insert_by-R x (y ∷ ys) a p = elim (Bool-cases (before y x)) [
        | inl front ↦
            simp front (All-insert_by (R y) x ys (flip x y a.0) p.0, insert_by-R x ys a.1 p.1)
        | inr behind ↦ simp behind (a, p)
      ]

      pub sort_by-R : (xs : List A) → AllPairs R xs → AllPairs R (sort_by before xs)
      unfolding sort_by
      sort_by-R [] p = tt
      sort_by-R (x ∷ xs) p =
          insert_by-R x (sort_by before xs) (All-sort_by (R x) xs p.0) (sort_by-R xs p.1)

      insert_by-S :
          (x : A) (ys : List A) → All (R x) ys → AllPairs S ys → AllPairs S (insert_by before x ys)
      unfolding insert_by
      insert_by-S x [] a p = (tt, tt)
      insert_by-S x (y ∷ ys) a p = elim (Bool-cases (before y x)) [
        | inl front ↦
            simp front (All-insert_by (S y) x ys (first y x front) p.0, insert_by-S x ys a.1 p.1)
        | inr behind ↦
            let next : S x y = later y x behind (flip x y a.0) in
            simp behind
              ((next, All-Has (S x) ys λ z m. S-trans x y z next (Has-All (S y) ys z p.0 m)), p)
      ]

      pub sort_by-S : (xs : List A) → AllPairs R xs → AllPairs S (sort_by before xs)
      unfolding sort_by
      sort_by-S [] p = tt
      sort_by-S (x ∷ xs) p =
          insert_by-S x (sort_by before xs) (All-sort_by (R x) xs p.0) (sort_by-S xs p.1)

module _ {P : Type 0} where
  -- The one is created earlier, or at the same time with a smaller identifier.
  abbrev pub IsEarlier : IngestionJob P → IngestionJob P → Type 0
  IsEarlier j k =
      (j.created_at_ms < k.created_at_ms)
      ⊎ ((j.created_at_ms ≡ k.created_at_ms) × IsBefore j.id k.id)

  abbrev pub HasOtherId : IngestionJob P → IngestionJob P → Type 0
  HasOtherId j k = j.id ≡ k.id → ⊥

  IsEarlier-trans : (i j k : IngestionJob P) → IsEarlier i j → IsEarlier j k → IsEarlier i k
  IsEarlier-trans i j k (inl l) (inl m) = inl (omega (arith, l, m))
  IsEarlier-trans i j k (inl l) (inr (f, m)) = inl (omega (arith, l, f))
  IsEarlier-trans i j k (inr (e, l)) (inl m) = inl (omega (arith, e, m))
  IsEarlier-trans i j k (inr (e, l)) (inr (f, m)) =
      inr (omega (arith, e, f), IsBefore-trans i.id j.id k.id l m)

  created_before-IsEarlier : (j k : IngestionJob P) → created_before j k ≡ true → IsEarlier j k
  unfolding created_before
  created_before-IsEarlier j k h = elim (Bool-cases (j.created_at_ms == k.created_at_ms)) [
    | inl same ↦
        inr (ground (arith, same), compare_bytes-IsBefore j.id k.id (ground (arith, h, same)))
    | inr other ↦ inl (ground (arith, h, other))
  ]

  created_after-IsEarlier :
      (j k : IngestionJob P) → created_before j k ≡ false → HasOtherId j k → IsEarlier k j
  unfolding created_before
  created_after-IsEarlier j k h ids = elim (Bool-cases (j.created_at_ms == k.created_at_ms)) [
    | inl same ↦
        let unequal : compare_bytes j.id k.id ≡ eq → ⊥ = λ e. ids (compare_bytes-eq j.id k.id e) in
        let greater : compare_bytes j.id k.id ≡ gt = ground (arith, h, same, unequal) in
        inr (
          ground (arith, same),
          compare_bytes-IsBefore k.id j.id (compare_bytes-gt j.id k.id greater),
        )
    | inr other ↦ inl (ground (arith, h, other))
  ]

  -- Jobs with different identifiers are sorted by their creation.
  pub sort_by-IsEarlier :
      (jobs : List (IngestionJob P))
      → AllPairs HasOtherId jobs
      → AllPairs HasOtherId (sort_by created_before jobs)
        × AllPairs IsEarlier (sort_by created_before jobs)
  sort_by-IsEarlier jobs h = (
    sort_by-R created_before HasOtherId IsEarlier (λ j k n e. n (sym e)) created_before-IsEarlier
        created_after-IsEarlier IsEarlier-trans jobs h,
    sort_by-S created_before HasOtherId IsEarlier (λ j k n e. n (sym e)) created_before-IsEarlier
        created_after-IsEarlier IsEarlier-trans jobs h,
  )
