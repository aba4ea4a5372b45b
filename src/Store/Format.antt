-- ===== src/Store/Format.antt =====
-- rag.cpp/include/rag/store/format.hpp: the byte writer and reader, and the limits. Integers are
-- little-endian, as on the hosts that the format names. A reader is the bytes it has not consumed
-- (`in_`); a read that answers false is `none` (the flag `ok_`, which no caller here reads, is left
-- out).
pub mod Laws
use llama_rag_runtime.Base.{
  ℕ, zero, suc, ◌+◌, ◌*◌, ◌/◌, ◌%◌, ◌^◌, [], ◌∷◌, ◌++◌, Option, none, some, ltb, if◌then◌else◌,
  length, take, drop,
}
use llama_rag_runtime.Core.Types.{Bytes}

abbrev pub format_major : ℕ
format_major = 1

abbrev pub max_sections : ℕ
max_sections = 64

abbrev pub max_metadata_entries : ℕ
max_metadata_entries = 1_000_000

abbrev pub max_wal_records : ℕ
max_wal_records = 10_000_000

abbrev pub max_wal_record_bytes : ℕ
max_wal_record_bytes = 67_108_864

-- `Writer::u` of a `w`-byte integer, least significant byte first.
unfoldable pub write_u : ℕ → ℕ → Bytes
write_u zero v = []
write_u (suc w) v = (v % 256) ∷ write_u w (v / 256)

-- `Writer::str`: the size as a `uint32_t`, then the bytes.
unfoldable pub write_str : Bytes → Bytes
write_str s = write_u 4 (length s % 2 ^ 32) ++ s

infixl 5 ◌>>=◌
abbrev pub ◌>>=◌ {ℓ κ} : {A : Type ℓ} {B : Type κ} → Option A → (A → Option B) → Option B
none >>= f = none
some a >>= f = f a

-- `Reader::u` of a `w`-byte integer.
unfoldable pub read_u : ℕ → Bytes → Option (ℕ × Bytes)
read_u zero input = some (0, input)
read_u (suc w) [] = none
read_u (suc w) (b ∷ input) = do (v, rest) ← read_u w input; some (b + 256 * v, rest)

-- `Reader::bytes`.
unfoldable pub read_bytes : ℕ → Bytes → Option (Bytes × Bytes)
read_bytes n input = if ltb (length input) n then none else some (take n input, drop n input)

-- `Reader::str`.
unfoldable pub read_str : Bytes → Option (Bytes × Bytes)
read_str input = do (n, rest) ← read_u 4 input; read_bytes n rest
