-- ===== src/Store/Frame.antt =====
-- The record framing that rag.cpp/src/store/wal.cpp and rag.cpp/src/ingestion/job_store.cpp share:
-- magic, length, CRC, payload. A log is read by position there; here by what follows the position.
pub mod Laws
use llama_rag_runtime.Base.{
  ℕ, zero, suc, ◌+◌, ◌%◌, ◌^◌, ◌==◌, Bool, true, false, not, ltb, leb, if◌then◌else◌, Option, none,
  some, ◌++◌, length, take, drop,
}
use llama_rag_runtime.Core.Types.{Bytes, Errc, Error, Result, ok, err, corrupt_index}
use llama_rag_runtime.Store.Format.{write_u, read_u, ◌>>=◌, max_wal_records, max_wal_record_bytes}
use llama_rag_runtime.Store.Crc.{crc32}

abbrev pub header_bytes : ℕ
header_bytes = 12

-- What differs between the two logs: the magic, the payload's decoder, the errors, and whether an
-- undecodable last record is dropped.
pub record Framing (A : Type 0) : Type 0 where
  pub magic : ℕ
  pub decode : Bytes → Option A
  pub bad_magic : Error
  pub too_large : Error
  pub bad_crc : Error
  pub undecodable : Bytes → Error
  pub drop_undecodable : Bool
  pub limit_exceeded : Error

-- A whole record: one buffer of header and payload.
unfoldable pub frame : ℕ → Bytes → Bytes
frame magic payload =
    write_u 4 magic
    ++ (write_u 4 (length payload % 2 ^ 32) ++ (write_u 4 (crc32 payload) ++ payload))

-- One round of a reader's loop: it breaks, fails, or has a record and goes on behind it.
pub data Scan (A : Type 0) : Type 0 where
  stop : Scan A
  corrupt : Error → Scan A
  found : Bytes → A → Bytes → Scan A

-- `body + len == blob.size()`.
abbrev at_end : Bytes → Bool
at_end rest = length rest == 0

module _ {A : Type 0} (f : Framing A) where
  unfoldable pub scan_decoded : Option A → Bytes → Bytes → Scan A
  scan_decoded (some a) payload rest = found payload a rest
  scan_decoded none payload rest =
      if f.drop_undecodable
      then (if at_end rest then stop else corrupt (f.undecodable payload))
      else corrupt (f.undecodable payload)

  unfoldable pub scan_payload : ℕ → Bytes → Bytes → Scan A
  scan_payload crc payload rest =
      if crc32 payload == crc
      then scan_decoded (f.decode payload) payload rest
      else if at_end rest
      then stop
      else corrupt f.bad_crc

  unfoldable pub scan_body : ℕ → ℕ → ℕ → Bytes → Scan A
  scan_body magic len crc body =
      if magic == f.magic
      then (if ltb max_wal_record_bytes len
          then corrupt f.too_large
          else if ltb (length body) len
          then stop
          else scan_payload crc (take len body) (drop len body))
      else corrupt f.bad_magic

  unfoldable pub read_header : Bytes → Option (ℕ × ℕ × ℕ)
  read_header input = do
    (magic, input₁) ← read_u 4 input
    (len, input₂) ← read_u 4 input₁
    (crc, input₃) ← read_u 4 input₂
    some (magic, len, crc)

  unfoldable pub scan_header : Option (ℕ × ℕ × ℕ) → Bytes → Scan A
  scan_header none body = stop
  scan_header (some (magic, len, crc)) body = scan_body magic len crc body

  unfoldable pub scan : Bytes → Scan A
  scan blob = scan_header (read_header (take header_bytes blob)) (drop header_bytes blob)

  -- The loop, over a state that takes up each record; `records` counts those before. A round
  -- consumes a header at least, so fuel above the length of the blob is enough.
  unfoldable pub scan_loop {ℓ} :
      {S : Type ℓ} → (S → Bytes → A → S) → ℕ → ℕ → S → Bytes → Option (Result S)
  scan_loop take_up zero records s blob = none
  scan_loop take_up (suc fuel) records s blob =
      if ltb (length blob) header_bytes
      then some (ok s)
      else if leb max_wal_records records
      then some (err f.limit_exceeded)
      else elim (scan blob) [
        | stop ↦ some (ok s)
        | corrupt e ↦ some (err e)
        | found payload a rest ↦ scan_loop take_up fuel (records + 1) (take_up s payload a) rest
      ]
