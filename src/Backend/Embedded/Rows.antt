-- ===== src/Backend/Embedded/Rows.antt =====
-- The keys and rows that the writers of rag.cpp/src/backend/embedded_backend.cpp hand to the dense index.
use llama_rag_runtime.Base.{
  ℕ, suc, zero, Bool, true, false, ◌&&◌, ◌||◌, not, ◌≡◌, refl, ap, sym, subst, some, List, [], ◌∷◌,
  ◌++◌, arith, inl, inr, All, Bool-cases, if◌then◌else◌, ◌∙◌,
}
use llama_rag_runtime.Core.Types.{Bytes, ok, and_then_ok, unless_ok, Result-cases}
use llama_rag_runtime.Core.Map.{Map, key_eq, key_eq_iff, key_eq_refl, find}
use llama_rag_runtime.Core.Ordered.{IsFound}
use llama_rag_runtime.Core.Keyset.{contains, insert, contains-insert}
use llama_rag_runtime.Backend.Types.{PreparedChunk}
use llama_rag_runtime.Dense.Engine.{Engine}
use llama_rag_runtime.Dense.Policy.{DensePolicy}
use llama_rag_runtime.Dense.Index.{is_empty, VectorRecord, build_exact}
use llama_rag_runtime.Dense.Tiered.{
  DenseBase, TieredDenseIndex, keys_of, with_tier, with_delta, compact_index, contains_base,
}
use llama_rag_runtime.Backend.Embedded.State.{ActiveDocument}
use llama_rag_runtime.Backend.Embedded.Write.{chunk_keys, buried, chunk_vectors, live_vectors}
use llama_rag_runtime.Backend.Embedded.Read.{get_elem?}
use llama_rag_runtime.Backend.Embedded.Catalog.{IsPlaced}

-- What holds of every element holds of the one at a place.
pub All-get_elem? :
    {A : Type 0} (P : A → Type 0) (i : ℕ) (xs : List A) (x : A)
    → All P xs
    → get_elem? i xs ≡ some x
    → P x
unfolding get_elem?
All-get_elem? P i [] x h e = absurd (ground (arith, e))
All-get_elem? P zero (y ∷ ys) x h e = subst P (ground (arith, e)) h.0
All-get_elem? P (suc i) (y ∷ ys) x h e = All-get_elem? P i ys x h.1 e

module _ (E : Engine) where
  pub contains-chunk_keys_cons :
      (k : Bytes) (c : PreparedChunk E.Float) (cs : List (PreparedChunk E.Float))
      → contains k (chunk_keys E (c ∷ cs)) ≡ (key_eq c.key k || contains k (chunk_keys E cs))
  unfolding chunk_keys
  contains-chunk_keys_cons k c cs = contains-insert c.key k (chunk_keys E cs)

  pub chunk_keys-get_elem? :
      (i : ℕ) (cs : List (PreparedChunk E.Float)) (c : PreparedChunk E.Float)
      → get_elem? i cs ≡ some c
      → contains c.key (chunk_keys E cs) ≡ true
  unfolding get_elem?
  chunk_keys-get_elem? i [] c e = absurd (ground (arith, e))
  chunk_keys-get_elem? zero (d ∷ cs) c e =
      let is : d ≡ c = ground (arith, e) in
      let same : d.key ≡ c.key = ap (λ (x : PreparedChunk E.Float). x.key) is in
      ground (arith, contains-chunk_keys_cons c.key d cs, key_eq_iff d.key c.key, same)
  chunk_keys-get_elem? (suc i) (d ∷ cs) c e =
      ground (arith, contains-chunk_keys_cons c.key d cs, chunk_keys-get_elem? i cs c e)

  -- A key of a document's chunks is that of a chunk at its place.
  pub chunk_keys-IsPlaced :
      (k : Bytes) (whole cs : List (PreparedChunk E.Float))
      → IsPlaced whole cs
      → contains k (chunk_keys E cs) ≡ true
      → (c : PreparedChunk E.Float) × (get_elem? c.ordinal whole ≡ some c) × (c.key ≡ k)
  unfolding contains chunk_keys
  chunk_keys-IsPlaced k whole [] h e = absurd (ground (arith, e))
  chunk_keys-IsPlaced k whole (c ∷ cs) h e = elim (Bool-cases (key_eq c.key k)) [
    | inl same ↦ (c, h.0, (key_eq_iff c.key k).0 same)
    | inr other ↦
        chunk_keys-IsPlaced k whole cs h.1
          (ground (arith, e, other, contains-chunk_keys_cons k c cs))
  ]

  buried_head :
      (b d : Bool) (j k : Bytes) (tombstones : List Bytes)
      → (key_eq j k ≡ true → b ≡ d)
      → contains k (if b then insert j tombstones else tombstones)
        ≡ (contains k tombstones || (key_eq j k && d))
  buried_head true d j k tombstones h = elim (Bool-cases (key_eq j k)) [
    | inl same ↦ ground (arith, contains-insert j k tombstones, h same, same)
    | inr other ↦ ground (arith, contains-insert j k tombstones, other)
  ]
  buried_head false d j k tombstones h = elim (Bool-cases (key_eq j k)) [
    | inl same ↦ ground (arith, h same, same)
    | inr other ↦ ground (arith, other)
  ]

  -- The tombstones of a writer: those that were there, and the keys that the base has and that are not kept.
  pub contains-buried :
      (k : Bytes) (dense : TieredDenseIndex E) (kept : List Bytes)
      (cs : List (PreparedChunk E.Float)) (tombstones : List Bytes)
      → contains k (buried E dense kept cs tombstones) ≡ (
          contains k tombstones
          || (contains k (chunk_keys E cs) && (contains_base E k dense && not (contains k kept))))
  unfolding buried chunk_keys contains
  contains-buried k dense kept [] tombstones = ground arith
  contains-buried k dense kept (c ∷ cs) tombstones =
      let test : Bytes → Bool = λ j. contains_base E j dense && not (contains j kept) in
      let same : key_eq c.key k ≡ true → test c.key ≡ test k =
        λ e. ap test ((key_eq_iff c.key k).0 e) in
      contains-buried k dense kept cs (if test c.key then insert c.key tombstones else tombstones)
      ∙ rw
          (
            contains-chunk_keys_cons k c cs,
            buried_head (test c.key) (test k) c.key k tombstones same,
          )
          (regroup (contains k tombstones) (key_eq c.key k) (contains k (chunk_keys E cs)) (test k))
    where
      regroup : (t e m b : Bool) → ((t || (e && b)) || (m && b)) ≡ (t || ((e || m) && b))
      regroup t e m b = ground arith

  pub contains-keys_of_cons :
      (k j : Bytes) (v : List E.Float) (rows : List (VectorRecord E))
      → contains k (keys_of E ((j, v) ∷ rows)) ≡ (key_eq j k || contains k (keys_of E rows))
  unfolding keys_of
  contains-keys_of_cons k j v rows = contains-insert j k (keys_of E rows)

  pub contains-keys_of_append :
      (k : Bytes) (xs ys : List (VectorRecord E))
      → contains k (keys_of E (xs ++ ys)) ≡ (contains k (keys_of E xs) || contains k (keys_of E ys))
  unfolding keys_of contains
  contains-keys_of_append k [] ys = refl
  contains-keys_of_append k ((j, v) ∷ xs) ys = ground (
    arith,
    contains-keys_of_cons k j v (xs ++ ys),
    contains-keys_of_cons k j v xs,
    contains-keys_of_append k xs ys,
  )

  -- A key of rows with a property has it.
  pub keys_of-All :
      (P : Bytes → Type 0) (k : Bytes) (rows : List (VectorRecord E))
      → All (λ (j, _). P j) rows
      → contains k (keys_of E rows) ≡ true
      → P k
  unfolding keys_of contains
  keys_of-All P k [] h e = absurd (ground (arith, e))
  keys_of-All P k ((j, v) ∷ rows) h e = elim (Bool-cases (key_eq j k)) [
    | inl same ↦ subst P ((key_eq_iff j k).0 same) h.0
    | inr other ↦
        keys_of-All P k rows h.1 (ground (arith, e, other, contains-keys_of_cons k j v rows))
  ]

  pub with_tier_ok :
      (base : DenseBase E) (rows : List (VectorRecord E)) (tombstones : List Bytes) (n : ℕ)
      (t : TieredDenseIndex E)
      → with_tier E base rows tombstones n ≡ ok t
      → (t.base ≡ base) × (t.tombstones ≡ tombstones) × (t.delta_keys ≡ keys_of E rows)
  unfolding with_tier
  with_tier_ok base rows tombstones n t h = elim (Result-cases (build_exact E rows)) [
    | inl (delta, built) ↦
        let same : record {
          base = base;
          delta = delta;
          delta_keys = keys_of E rows;
          tombstones = tombstones;
          dimension = n;
        }
            ≡ t =
          ground (arith, h, built) in
        subst (λ u. (u.base ≡ base) × (u.tombstones ≡ tombstones) × (u.delta_keys ≡ keys_of E rows))
          same (refl, refl, refl)
    | inr (e, failed) ↦ absurd (ground (arith, h, failed))
  ]

  pub with_delta_ok :
      (rows : List (VectorRecord E)) (tombstones : List Bytes) (n : ℕ)
      (tiered t : TieredDenseIndex E)
      → with_delta E rows tombstones n tiered ≡ ok t
      → (t.base ≡ tiered.base) × (t.tombstones ≡ tombstones) × (t.delta_keys ≡ keys_of E rows)
  unfolding with_delta
  with_delta_ok rows tombstones n tiered t h =
      let (_, h1) = unless_ok _ _ _ _ t h in
      let (_, _, h2) = and_then_ok _ _ t h1 in
      let (_, _, h3) = and_then_ok _ _ t h2 in with_tier_ok tiered.base rows tombstones n t h3

  pub compact_index_ok :
      (rows : List (VectorRecord E)) (n : ℕ) (policy : DensePolicy) (t : TieredDenseIndex E)
      → compact_index E rows n policy ≡ ok t
      → (t.base.keys ≡ keys_of E rows) × (t.tombstones ≡ [])
  unfolding compact_index
  compact_index_ok rows n policy t h =
      let (_, _, h1) = and_then_ok _ _ t h in
      let (index, _, h2) = and_then_ok _ _ t h1 in
      let (base, tombstones, _) =
        with_tier_ok (record { index = index; keys = keys_of E rows; dimension = n }) [] [] n t
          h2 in
      (ap (λ (b : DenseBase E). b.keys) base, tombstones)

  chunk_vectors-get_elem? :
      (i : ℕ) (cs : List (PreparedChunk E.Float)) (c : PreparedChunk E.Float)
      → get_elem? i cs ≡ some c
      → is_empty c.embedding ≡ false
      → contains c.key (keys_of E (chunk_vectors E cs)) ≡ true
  unfolding get_elem? chunk_vectors
  chunk_vectors-get_elem? i [] c e there = absurd (ground (arith, e))
  chunk_vectors-get_elem? zero (d ∷ cs) c e there =
      let is : d ≡ c = ground (arith, e) in
      subst
        (λ (f : PreparedChunk E.Float).
          contains c.key (
            keys_of E (
              if is_empty f.embedding
              then chunk_vectors E cs
              else (f.key, f.embedding) ∷ chunk_vectors E cs))
          ≡ true)
        (sym is)
        (rw there (
          contains-keys_of_cons c.key c.key c.embedding (chunk_vectors E cs)
          ∙ rw (key_eq_refl c.key) refl))
  chunk_vectors-get_elem? (suc i) (d ∷ cs) c e there = elim (Bool-cases (is_empty d.embedding)) [
    | inl none_there ↦ rw none_there (chunk_vectors-get_elem? i cs c e there)
    | inr some_there ↦
        rw
          (
            some_there,
            contains-keys_of_cons c.key d.key d.embedding (chunk_vectors E cs),
            chunk_vectors-get_elem? i cs c e there,
          )
          (or_true (key_eq d.key c.key))
  ]
    where
      or_true : (b : Bool) → (b || true) ≡ true
      or_true b = ground arith

  -- The vectors that a compaction is given hold those of every document.
  pub live_vectors-find :
      (d : Bytes) (a : ActiveDocument E.Float) (i : ℕ) (c : PreparedChunk E.Float)
      (m : Map (ActiveDocument E.Float))
      → find d m ≡ some a
      → get_elem? i a.prepared.chunks ≡ some c
      → is_empty c.embedding ≡ false
      → contains c.key (keys_of E (live_vectors E m)) ≡ true
  unfolding find live_vectors
  live_vectors-find d a i c [] e placed there = absurd (ground (arith, e))
  live_vectors-find d a i c ((j, b) ∷ m) e placed there =
      contains-keys_of_append c.key (chunk_vectors E b.prepared.chunks) (live_vectors E m)
      ∙ elim (Bool-cases (key_eq j d)) [
        | inl same ↦
            let is : b ≡ a = ground (arith, e, same) in
            rw
              (chunk_vectors-get_elem? i b.prepared.chunks c
                (subst (λ x. get_elem? i x.prepared.chunks ≡ some c) (sym is) placed) there)
              refl
        | inr other ↦
            rw (live_vectors-find d a i c m (ground (arith, e, other)) placed there)
              (or_true (contains c.key (keys_of E (chunk_vectors E b.prepared.chunks))))
      ]
    where
      or_true : (b : Bool) → (b || true) ≡ true
      or_true b = ground arith

  chunk_vectors-IsPlaced :
      (k : Bytes) (whole cs : List (PreparedChunk E.Float))
      → IsPlaced whole cs
      → contains k (keys_of E (chunk_vectors E cs)) ≡ true
      → (c : PreparedChunk E.Float) × (get_elem? c.ordinal whole ≡ some c) × (c.key ≡ k)
  unfolding chunk_vectors keys_of contains
  chunk_vectors-IsPlaced k whole [] h e = absurd (ground (arith, e))
  chunk_vectors-IsPlaced k whole (c ∷ cs) h e = elim (Bool-cases (is_empty c.embedding)) [
    | inl none_there ↦ chunk_vectors-IsPlaced k whole cs h.1 (simp none_there at e)
    | inr there ↦ elim (Bool-cases (key_eq c.key k)) [
      | inl same ↦ (c, h.0, (key_eq_iff c.key k).0 same)
      | inr other ↦ chunk_vectors-IsPlaced k whole cs h.1 (
          ground (
            arith,
            e,
            there,
            other,
            contains-keys_of_cons k c.key c.embedding (chunk_vectors E cs),
          ))
    ]
  ]

  -- And no others.
  pub live_vectors-live :
      (k : Bytes) (whole m : Map (ActiveDocument E.Float))
      → IsFound whole m
      → All (λ (d, a). IsPlaced a.prepared.chunks a.prepared.chunks) m
      → contains k (keys_of E (live_vectors E m)) ≡ true
      → (d : Bytes) × (a : ActiveDocument E.Float) × (c : PreparedChunk E.Float) × (find d whole
          ≡ some a)
        × (get_elem? c.ordinal a.prepared.chunks ≡ some c)
        × (c.key ≡ k)
  unfolding live_vectors keys_of contains
  live_vectors-live k whole [] found placed e = absurd (ground (arith, e))
  live_vectors-live k whole ((d, a) ∷ m) found placed e =
      elim (Bool-cases (contains k (keys_of E (chunk_vectors E a.prepared.chunks)))) [
        | inl mine ↦
            let (c, at, is) =
              chunk_vectors-IsPlaced k a.prepared.chunks a.prepared.chunks placed.0 mine in
            (d, a, c, found.0, at, is)
        | inr others ↦ live_vectors-live k whole m found.1 placed.1 (
            ground (
              arith,
              e,
              others,
              contains-keys_of_append k (chunk_vectors E a.prepared.chunks) (live_vectors E m),
            ))
      ]
