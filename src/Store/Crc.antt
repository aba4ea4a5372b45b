-- ===== src/Store/Crc.antt =====
-- rag.cpp/src/store/container.cpp: CRC-32 (IEEE 802.3, reflected). A `uint32_t` is a number below
-- 2 ^ 32; the table is the function that fills it.
use Prim.Native.Nat.{bit_and, bit_xor}
use mathlib.Core.List.{foldl}
use llama_rag_runtime.Base.{ℕ, zero, suc, ◌/◌, ◌%◌, ◌^◌, ◌<◌, ◌≡◌, refl, arith, ◌==◌, if◌then◌else◌}
use llama_rag_runtime.Core.Types.{Bytes, ascii}

-- One round of the inner loop of `crc_table`, and its eight rounds.
crc_bit : ℕ → ℕ
crc_bit current = if bit_and current 1 == 1 then bit_xor 0xEDB88320 (current / 2) else current / 2

crc_rounds : ℕ → ℕ → ℕ
crc_rounds zero current = current
crc_rounds (suc bit) current = crc_rounds bit (crc_bit current)

crc_table : ℕ → ℕ
unfolding crc_rounds crc_bit
crc_table i = crc_rounds 8 i

-- `Crc32Accumulator::update` on one byte.
crc_update : ℕ → ℕ → ℕ
unfolding crc_table
crc_update value byte = bit_xor (crc_table (bit_and (bit_xor value byte) 0xFF)) (value / 256)

unfoldable pub crc32 : Bytes → ℕ
unfolding crc_update
crc32 bytes = bit_xor (foldl crc_update 0xFFFFFFFF bytes) 0xFFFFFFFF % 2 ^ 32

pub crc32-lt : (bytes : Bytes) → crc32 bytes < 2 ^ 32
unfolding crc32
crc32-lt bytes = omega arith

-- The check value of CRC-32.
crc32_check_value : crc32 (ascii "123456789") ≡ 0xCBF43926
unfolding crc32 ascii
crc32_check_value = refl
