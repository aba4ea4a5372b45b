-- ===== src/Core/Keys.antt =====
-- rag.cpp/src/core/keys.cpp: normalised text, content hashes and chunk keys. `std::to_string` of a
-- number is its decimal digits.
use Prim.Native.Nat.{bit_xor}
use llama_rag_runtime.Base.{
  ℕ, zero, suc, ◌+◌, ◌*◌, ◌/◌, ◌%◌, ◌^◌, ◌==◌, ltb, if◌then◌else◌, [], ◌∷◌, ◌++◌, length,
}
use mathlib.Core.List.{foldl}
use llama_rag_runtime.Core.Types.{Bytes, ascii}
use llama_rag_runtime.Core.Metadata.{Metadata}

abbrev pub offset_basis : ℕ
offset_basis = 1469598103934665603

-- One byte of FNV-1a on a `uint64_t`.
fnv1a_byte : ℕ → ℕ → ℕ
fnv1a_byte hash value = bit_xor hash value * 1099511628211 % 2 ^ 64

unfoldable pub fnv1a : Bytes → ℕ → ℕ
unfolding fnv1a_byte
fnv1a text hash = foldl fnv1a_byte hash text

hex_digit : ℕ → ℕ
hex_digit d = if ltb d 10 then b'0' + d else 87 + d

-- The lowest `n` hexadecimal digits, the highest first.
hex_digits : ℕ → ℕ → Bytes
hex_digits zero value = []
hex_digits (suc n) value = hex_digits n (value / 16) ++ hex_digit (value % 16) ∷ []

unfoldable pub hex64 : ℕ → Bytes
unfolding hex_digits hex_digit
hex64 value = hex_digits 16 value

decimal_loop : ℕ → ℕ → Bytes
decimal_loop zero n = []
decimal_loop (suc f) n =
    let rest = decimal_loop f (n / 10) in
    if ltb n 10 then (b'0' + n) ∷ [] else rest ++ (b'0' + n % 10) ∷ []

-- The decimal digits of a `std::size_t` or smaller: twenty at most.
unfoldable pub to_decimal : ℕ → Bytes
unfolding decimal_loop
to_decimal n = decimal_loop 20 n

unfoldable pub hash_field : ℕ → Bytes → ℕ
hash_field hash value =
    fnv1a (10 ∷ []) (fnv1a value (fnv1a (ascii ":") (fnv1a (to_decimal (length value)) hash)))

hash_fields : ℕ → Metadata → ℕ
hash_fields hash [] = hash
hash_fields hash ((key, value) ∷ rest) = hash_fields (hash_field (hash_field hash key) value) rest

unfoldable pub document_content_hash : Bytes → Bytes → Metadata → Bytes
unfolding hash_fields
document_content_hash title content metadata =
    ascii "fnv1a64:"
    ++ hex64 (hash_fields (hash_field (hash_field offset_basis title) content) metadata)

-- A carriage return is dropped before a line feed, and is a line feed elsewhere.
unfoldable pub normalize_source_text : Bytes → Bytes
normalize_source_text [] = []
normalize_source_text (c ∷ []) = (if c == 13 then 10 else c) ∷ []
normalize_source_text (c ∷ d ∷ rest) =
    let behind = normalize_source_text (d ∷ rest) in
    if c == 13 then (if d == 10 then behind else 10 ∷ behind) else c ∷ behind

unfoldable pub stable_chunk_key : Bytes → ℕ → ℕ → Bytes → Bytes
stable_chunk_key document start_line end_line text =
    ascii "chk_"
    ++ hex64 (
        fnv1a
          (document
            ++ (10
                ∷ (to_decimal start_line
                    ++ (ascii ":" ++ (to_decimal end_line ++ (10 ∷ normalize_source_text text))))))
          offset_basis)
