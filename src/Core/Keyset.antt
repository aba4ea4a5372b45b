-- ===== src/Core/Keyset.antt =====
-- `std::unordered_set` of strings, as a list without repetition.
use llama_rag_runtime.Base.{◌≡◌, refl, Bool, false, ◌||◌, List, [], ◌∷◌, arith, if◌then◌else◌}
use llama_rag_runtime.Core.Types.{Bytes}
use llama_rag_runtime.Core.Map.{key_eq, key_eq_iff}

unfoldable pub contains : Bytes → List Bytes → Bool
contains k [] = false
contains k (j ∷ s) = key_eq j k || contains k s

-- `s.insert(k)`.
unfoldable pub insert : Bytes → List Bytes → List Bytes
insert k [] = k ∷ []
insert k (j ∷ s) = let rest = insert k s in if key_eq j k then j ∷ s else j ∷ rest

-- `s.erase(k)`.
unfoldable pub erase : Bytes → List Bytes → List Bytes
erase k [] = []
erase k (j ∷ s) = let rest = erase k s in if key_eq j k then rest else j ∷ rest

pub contains-insert :
    (k j : Bytes) (s : List Bytes) → contains j (insert k s) ≡ (key_eq k j || contains j s)
unfolding contains insert
contains-insert k j [] = refl
contains-insert k j (i ∷ s) =
    ground (arith, key_eq_iff k j, key_eq_iff i k, key_eq_iff i j, contains-insert k j s)

pub contains-erase :
    (k j : Bytes) (s : List Bytes)
    → contains j (erase k s) ≡ (if key_eq k j then false else contains j s)
unfolding contains erase
contains-erase k j [] = ground arith
contains-erase k j (i ∷ s) =
    ground (arith, key_eq_iff k j, key_eq_iff i k, key_eq_iff i j, contains-erase k j s)
