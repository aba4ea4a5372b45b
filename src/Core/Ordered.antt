-- ===== src/Core/Ordered.antt =====
-- `std::map` with string keys: its entries in the order of their keys.
use Prim.Native.Nat.{Ordering}
use llama_rag_runtime.Base.{
  ◌≡◌, refl, true, false, none, some, [], ◌∷◌, All, arith, inl, inr, if◌then◌else◌, subst,
  Bool-cases,
}
use llama_rag_runtime.Core.Types.{Bytes}
use llama_rag_runtime.Core.Metadata.{compare_bytes}
use llama_rag_runtime.Core.Map.{Map, key_eq, key_eq_iff, key_eq_refl, find}

pub compare_bytes-eq : (a b : Bytes) → compare_bytes a b ≡ Ordering.eq → a ≡ b
unfolding compare_bytes
compare_bytes-eq [] [] h = refl
compare_bytes-eq [] (y ∷ ys) h = absurd (ground (arith, h))
compare_bytes-eq (x ∷ xs) [] h = absurd (ground (arith, h))
compare_bytes-eq (x ∷ xs) (y ∷ ys) h = ground (arith, compare_bytes-eq xs ys)

compare_bytes_refl : (a : Bytes) → compare_bytes a a ≡ Ordering.eq
unfolding compare_bytes
compare_bytes_refl [] = refl
compare_bytes_refl (x ∷ xs) = ground (arith, compare_bytes_refl xs)

compare_bytes_trans :
    (a b c : Bytes)
    → compare_bytes a b ≡ Ordering.lt
    → compare_bytes b c ≡ Ordering.lt
    → compare_bytes a c ≡ Ordering.lt
unfolding compare_bytes
compare_bytes_trans [] [] c g h = absurd (ground (arith, g))
compare_bytes_trans [] (y ∷ ys) [] g h = absurd (ground (arith, h))
compare_bytes_trans [] (y ∷ ys) (z ∷ zs) g h = refl
compare_bytes_trans (x ∷ xs) [] c g h = absurd (ground (arith, g))
compare_bytes_trans (x ∷ xs) (y ∷ ys) [] g h = absurd (ground (arith, h))
compare_bytes_trans (x ∷ xs) (y ∷ ys) (z ∷ zs) g h =
    ground (arith, g, h, compare_bytes_trans xs ys zs)

pub compare_bytes-gt :
    (a b : Bytes) → compare_bytes a b ≡ Ordering.gt → compare_bytes b a ≡ Ordering.lt
unfolding compare_bytes
compare_bytes-gt [] [] h = absurd (ground (arith, h))
compare_bytes-gt [] (y ∷ ys) h = absurd (ground (arith, h))
compare_bytes-gt (x ∷ xs) [] h = refl
compare_bytes-gt (x ∷ xs) (y ∷ ys) h = ground (arith, h, compare_bytes-gt xs ys)

pub compare_bytes-lt_ne : (a b : Bytes) → compare_bytes a b ≡ Ordering.lt → key_eq b a ≡ false
compare_bytes-lt_ne a b h =
    ground (arith, h, key_eq_iff b a, compare_bytes_refl a, compare_bytes_refl b)

pub key_eq_ne_sym : (a b : Bytes) → key_eq b a ≡ false → key_eq a b ≡ false
key_eq_ne_sym a b h = ground (arith, h, key_eq_iff a b, key_eq_iff b a)

module _ {V : Type 0} where
  -- `m[k] = v`.
  unfoldable pub put : Bytes → V → Map V → Map V
  put k v [] = (k, v) ∷ []
  put k v ((j, w) ∷ m) =
      let rest = put k v m in
      elim (compare_bytes k j) [
        | Ordering.lt ↦ (k, v) ∷ (j, w) ∷ m
        | Ordering.eq ↦ (j, v) ∷ m
        | Ordering.gt ↦ (j, w) ∷ rest
      ]

  -- `m.erase(k)`.
  unfoldable pub remove : Bytes → Map V → Map V
  remove k [] = []
  remove k ((j, w) ∷ m) = let rest = remove k m in if key_eq j k then rest else (j, w) ∷ rest

  pub find-put :
      (k j : Bytes) (v : V) (m : Map V)
      → find j (put k v m) ≡ (if key_eq k j then some v else find j m)
  unfolding find put
  find-put k j v [] = refl
  find-put k j v ((i, w) ∷ m) = ground (
    arith,
    key_eq_iff k j,
    key_eq_iff i k,
    key_eq_iff i j,
    find-put k j v m,
    compare_bytes-eq k i,
    compare_bytes_refl k,
  )

  pub find-remove :
      (k j : Bytes) (m : Map V) → find j (remove k m) ≡ (if key_eq k j then none else find j m)
  unfolding find remove
  find-remove k j [] = ground arith
  find-remove k j ((i, w) ∷ m) =
      ground (arith, key_eq_iff k j, key_eq_iff i k, key_eq_iff i j, find-remove k j m)

  -- `k` stands before every key.
  abbrev pub IsFirst : Bytes → Map V → Type 0
  IsFirst k = All λ (j, _). compare_bytes k j ≡ Ordering.lt

  abbrev pub IsOrdered : Map V → Type 0
  IsOrdered [] = Unit
  IsOrdered ((k, v) ∷ m) = IsFirst k m × IsOrdered m

  IsFirst-trans :
      (k j : Bytes) (m : Map V) → compare_bytes k j ≡ Ordering.lt → IsFirst j m → IsFirst k m
  IsFirst-trans k j [] h f = tt
  IsFirst-trans k j ((i, w) ∷ m) h f = (compare_bytes_trans k j i h f.0, IsFirst-trans k j m h f.1)

  put-IsFirst :
      (i k : Bytes) (v : V) (m : Map V)
      → compare_bytes i k ≡ Ordering.lt
      → IsFirst i m
      → IsFirst i (put k v m)
  unfolding put
  put-IsFirst i k v [] h f = (h, tt)
  put-IsFirst i k v ((j, w) ∷ m) h f = go (compare_bytes k j) (put-IsFirst i k v m h f.1)
    where
      go :
          (o : Ordering)
          → IsFirst i (put k v m)
          → IsFirst i (elim o [
            | Ordering.lt ↦ (k, v) ∷ (j, w) ∷ m
            | Ordering.eq ↦ (j, v) ∷ m
            | Ordering.gt ↦ (j, w) ∷ put k v m
          ])
      go Ordering.lt behind = (h, f)
      go Ordering.eq behind = f
      go Ordering.gt behind = (f.0, behind)

  pub put-IsOrdered : (k : Bytes) (v : V) (m : Map V) → IsOrdered m → IsOrdered (put k v m)
  unfolding put
  put-IsOrdered k v [] o = (tt, tt)
  put-IsOrdered k v ((j, w) ∷ m) o = go (compare_bytes k j) refl (put-IsOrdered k v m o.1)
    where
      go :
          (c : Ordering)
          → compare_bytes k j ≡ c
          → IsOrdered (put k v m)
          → IsOrdered (elim c [
            | Ordering.lt ↦ (k, v) ∷ (j, w) ∷ m
            | Ordering.eq ↦ (j, v) ∷ m
            | Ordering.gt ↦ (j, w) ∷ put k v m
          ])
      go Ordering.lt e rest = ((e, IsFirst-trans k j m e o.0), o)
      go Ordering.eq e rest = o
      go Ordering.gt e rest = (put-IsFirst j k v m (compare_bytes-gt k j e) o.0, rest)

  remove-IsFirst : (i k : Bytes) (m : Map V) → IsFirst i m → IsFirst i (remove k m)
  unfolding remove
  remove-IsFirst i k [] f = tt
  remove-IsFirst i k ((j, w) ∷ m) f =
      elim (key_eq j k) as (λ b. IsFirst i (if b then remove k m else (j, w) ∷ remove k m)) [
        | true ↦ remove-IsFirst i k m f.1
        | false ↦ (f.0, remove-IsFirst i k m f.1)
      ]

  pub remove-IsOrdered : (k : Bytes) (m : Map V) → IsOrdered m → IsOrdered (remove k m)
  unfolding remove
  remove-IsOrdered k [] o = tt
  remove-IsOrdered k ((j, w) ∷ m) o =
      elim (key_eq j k) as (λ b. IsOrdered (if b then remove k m else (j, w) ∷ remove k m)) [
        | true ↦ remove-IsOrdered k m o.1
        | false ↦ (remove-IsFirst j k m o.0, remove-IsOrdered k m o.1)
      ]

  abbrev pub IsFound : Map V → Map V → Type 0
  IsFound whole = All λ (k, v). find k whole ≡ some v

  IsFound-cons :
      (k : Bytes) (v : V) (whole m : Map V)
      → IsFirst k m
      → IsFound whole m
      → IsFound ((k, v) ∷ whole) m
  unfolding find
  IsFound-cons k v whole [] f h = tt
  IsFound-cons k v whole ((j, w) ∷ m) f h =
      (rw (key_eq_ne_sym k j (compare_bytes-lt_ne k j f.0), h.0), IsFound-cons k v whole m f.1 h.1)

  -- In an ordered map every entry is found under its key.
  pub IsOrdered-IsFound : (m : Map V) → IsOrdered m → IsFound m m
  unfolding find
  IsOrdered-IsFound [] o = tt
  IsOrdered-IsFound ((k, v) ∷ m) o =
      (rw (key_eq_refl k), IsFound-cons k v m m o.0 (IsOrdered-IsFound m o.1))

module _ {V : Type 0} (P : Bytes × V → Type 0) where
  pub All-put : (k : Bytes) (v : V) (m : Map V) → P (k, v) → All P m → All P (put k v m)
  unfolding put
  All-put k v [] p h = (p, tt)
  All-put k v ((j, w) ∷ m) p h = go (compare_bytes k j) refl (All-put k v m p h.1)
    where
      go :
          (c : Ordering)
          → compare_bytes k j ≡ c
          → All P (put k v m)
          → All P (elim c [
            | Ordering.lt ↦ (k, v) ∷ (j, w) ∷ m
            | Ordering.eq ↦ (j, v) ∷ m
            | Ordering.gt ↦ (j, w) ∷ put k v m
          ])
      go Ordering.lt e rest = (p, h)
      go Ordering.eq e rest = (subst (λ i. P (i, v)) (compare_bytes-eq k j e) p, h.1)
      go Ordering.gt e rest = (h.0, rest)

  pub All-remove : (k : Bytes) (m : Map V) → All P m → All P (remove k m)
  unfolding remove
  All-remove k [] h = tt
  All-remove k ((j, w) ∷ m) h =
      elim (key_eq j k) as (λ b. All P (if b then remove k m else (j, w) ∷ remove k m)) [
        | true ↦ All-remove k m h.1
        | false ↦ (h.0, All-remove k m h.1)
      ]

  -- What holds of every entry holds of the one that is found.
  pub All-find : (k : Bytes) (v : V) (m : Map V) → All P m → find k m ≡ some v → P (k, v)
  unfolding find
  All-find k v [] h e = absurd (ground (arith, e))
  All-find k v ((j, w) ∷ m) h e = elim (Bool-cases (key_eq j k)) [
    | inl same ↦ subst P (ground (arith, e, same, (key_eq_iff j k).0 same)) h.0
    | inr other ↦ All-find k v m h.1 (ground (arith, e, other))
  ]
