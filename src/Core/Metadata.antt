-- ===== src/Core/Metadata.antt =====
-- rag.cpp/include/rag/core/document.hpp: `Metadata`, a `std::map` of strings: its entries in the
-- order of their keys.
use Prim.Native.Nat.{compare, Ordering}
use llama_rag_runtime.Base.{◌≡◌, refl, ap, List, [], ◌∷◌, ◌++◌, All}
use llama_rag_runtime.Core.Types.{Bytes}

-- The order of `std::string`: byte by byte, a proper prefix first.
unfoldable pub compare_bytes : Bytes → Bytes → Ordering
compare_bytes [] [] = Ordering.eq
compare_bytes [] (y ∷ ys) = Ordering.lt
compare_bytes (x ∷ xs) [] = Ordering.gt
compare_bytes (x ∷ xs) (y ∷ ys) = elim (compare x y) [
  | Ordering.lt ↦ Ordering.lt
  | Ordering.gt ↦ Ordering.gt
  | Ordering.eq ↦ compare_bytes xs ys
]

abbrev pub Metadata : Type 0
Metadata = List (Bytes × Bytes)

-- `std::map::emplace`: a key that is present keeps its value.
unfoldable pub emplace : Bytes → Bytes → Metadata → Metadata
emplace k v [] = (k, v) ∷ []
emplace k v ((j, w) ∷ m) = elim (compare_bytes k j) [
  | Ordering.lt ↦ (k, v) ∷ (j, w) ∷ m
  | Ordering.eq ↦ (j, w) ∷ m
  | Ordering.gt ↦ (j, w) ∷ emplace k v m
]

-- `k` stands behind every key of the list.
abbrev pub IsLast : Bytes → Metadata → Type 0
IsLast k = All λ (j, _). compare_bytes k j ≡ Ordering.gt

-- The invariant of `std::map`: each key behind all before it. `seen` are the entries before.
abbrev pub SortedAfter : Metadata → Metadata → Type 0
SortedAfter seen [] = Unit
SortedAfter seen ((k, v) ∷ m) = IsLast k seen × SortedAfter (seen ++ (k, v) ∷ []) m

abbrev pub IsSorted : Metadata → Type 0
IsSorted m = SortedAfter [] m

pub emplace_last : (k v : Bytes) (m : Metadata) → IsLast k m → emplace k v m ≡ m ++ (k, v) ∷ []
unfolding emplace
emplace_last k v [] h = refl
emplace_last k v ((j, w) ∷ m) h = rw (h.0, emplace) (ap (◌∷◌ (j, w)) (emplace_last k v m h.1))
