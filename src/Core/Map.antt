-- ===== src/Core/Map.antt =====
-- `std::unordered_map` with string keys, as an association list: a key stands once, and an assignment
-- to a new key goes to the end.
use llama_rag_runtime.Base.{
  ◌≡◌, ◌↔◌, refl, Bool, true, false, ◌&&◌, ◌==◌, ==_iff, if◌then◌else◌, Option, none, some, List,
  [], ◌∷◌, arith, ◌⊎◌, inl, inr, Bool-cases,
}
use llama_rag_runtime.Core.Types.{Bytes}

-- Equality of strings.
unfoldable pub key_eq : Bytes → Bytes → Bool
key_eq [] [] = true
key_eq [] (y ∷ ys) = false
key_eq (x ∷ xs) [] = false
key_eq (x ∷ xs) (y ∷ ys) = x == y && key_eq xs ys

pub key_eq_iff : (a b : Bytes) → (key_eq a b ≡ true) ↔ (a ≡ b)
unfolding key_eq
key_eq_iff [] [] = ground arith
key_eq_iff [] (y ∷ ys) = ground arith
key_eq_iff (x ∷ xs) [] = ground arith
key_eq_iff (x ∷ xs) (y ∷ ys) = ground (arith, key_eq_iff xs ys, ==_iff x y)

pub key_eq_refl : (a : Bytes) → key_eq a a ≡ true
key_eq_refl a = (key_eq_iff a a).1 refl

abbrev pub Map : Type 0 → Type 0
Map V = List (Bytes × V)

module _ {V : Type 0} where
  unfoldable pub find : Bytes → Map V → Option V
  find k [] = none
  find k ((j, v) ∷ m) = if key_eq j k then some v else find k m

  unfoldable pub assign : Bytes → V → Map V → Map V
  assign k v [] = (k, v) ∷ []
  assign k v ((j, w) ∷ m) = if key_eq j k then (j, v) ∷ m else (j, w) ∷ assign k v m

  pub find-assign :
      (k j : Bytes) (v : V) (m : Map V)
      → find j (assign k v m) ≡ (if key_eq k j then some v else find j m)
  unfolding find assign
  find-assign k j v [] = refl
  find-assign k j v ((i, w) ∷ m) =
      ground (arith, key_eq_iff k j, key_eq_iff i k, key_eq_iff i j, find-assign k j v m)

  pub find-assign_self : (k : Bytes) (v : V) (m : Map V) → find k (assign k v m) ≡ some v
  find-assign_self k v m = rw (find-assign, key_eq_refl k)

  pub find-assign_ne :
      (k j : Bytes) (v : V) (m : Map V) → key_eq k j ≡ false → find j (assign k v m) ≡ find j m
  find-assign_ne k j v m h = rw (find-assign, h)

  -- What is found after an assignment is the new value, or was there.
  pub find-assign_cases :
      (k j : Bytes) (v w : V) (m : Map V)
      → find j (assign k v m) ≡ some w
      → ((k ≡ j) × (w ≡ v)) ⊎ ((key_eq k j ≡ false) × (find j m ≡ some w))
  find-assign_cases k j v w m h = elim (Bool-cases (key_eq k j)) [
    | inl same ↦ inl ((key_eq_iff k j).0 same, ground (arith, find-assign k j v m))
    | inr other ↦ inr (other, ground (arith, find-assign k j v m))
  ]
