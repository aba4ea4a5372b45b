-- ===== src/Store/Wal/Reopen.antt =====
-- Where the log of rag.cpp/src/store/wal.cpp loses what it acknowledged: `open` leaves a torn tail in
-- place, and `append` writes more metadata than `replay` reads.
use llama_rag_runtime.Base.{
  ℕ, ◌+◌, ◌≤◌, ◌<◌, ◌≡◌, refl, inr, List, ◌++◌, length, take, arith, append_assoc, All, subst, some,
}
use llama_rag_runtime.Core.Types.{Bytes, ok}
use llama_rag_runtime.Store.Format.{max_wal_records, max_wal_record_bytes, max_metadata_entries}
use llama_rag_runtime.Store.Frame.{frame}
use llama_rag_runtime.Store.Frame.Laws.{Stops, scan-torn, scan_undecodable}
use llama_rag_runtime.Store.Wal.Codec.{WalRecord, encode}
use llama_rag_runtime.Store.Wal.Codec.Laws.{decode-encode_over}
use llama_rag_runtime.Store.Wal.File.{
  Wal, Os, returned, append, replay, record_magic, wal_framing, SyncMode, opened, open_log,
}
use llama_rag_runtime.Store.Wal.Append.{Appended, append-Appended, append_ok_small}
use llama_rag_runtime.Store.Wal.Durability.{log_bytes, IsStorable, Holds, replay-Stops}

-- The log of `rs` after a crash that cut the frame of `torn` behind `n` bytes.
abbrev pub crash_disk : List WalRecord → WalRecord → ℕ → Bytes
crash_disk rs torn n = log_bytes rs ++ take n (frame record_magic (encode torn))

torn-Stops :
    (torn : WalRecord) (n : ℕ) (extra : Bytes)
    → length (encode torn) ≤ max_wal_record_bytes
    → 12 ≤ n
    → n + length extra < length (frame record_magic (encode torn))
    → Stops wal_framing (take n (frame record_magic (encode torn)) ++ extra)
unfolding wal_framing
torn-Stops torn n extra small low high =
    inr (scan-torn wal_framing (omega arith) (encode torn) n extra small low high)

-- A log is reopened after a crash that cut a record behind its header. An append then reports
-- success; if its frame is shorter than what the cut record lacks, the replay of the disk has the
-- records from before the crash only, without the acknowledged one.
pub torn_append_lost :
    (old wal w : Wal) (rs : List WalRecord) (torn rec : WalRecord) (n : ℕ) (path : Bytes)
    (mode : SyncMode) (os : Os)
    → All IsStorable rs
    → length rs < max_wal_records
    → length (encode torn) ≤ max_wal_record_bytes
    → 12 ≤ n
    → n + length (frame record_magic (encode rec)) < length (frame record_magic (encode torn))
    → open_log (opened (crash_disk rs torn n)) path mode old ≡ (wal, ok tt)
    → append rec os wal ≡ returned w (ok tt)
    → replay (some w.disk) ≡ some (ok rs)
unfolding open_log
torn_append_lost old wal w rs torn rec n path mode os h room small low high reopened done =
    rw (wrote.0, disk, append_assoc (log_bytes rs))
      (replay-Stops rs _ h room
        (torn-Stops torn n (frame record_magic (encode rec)) small low high))
  where
    wrote : Appended wal (frame record_magic (encode rec)) (returned w (ok tt))
    wrote = subst (Appended wal (frame record_magic (encode rec))) done (append-Appended rec os wal)

    disk : wal.disk ≡ crash_disk rs torn n
    disk = ground arith

over-Stops :
    (rec : WalRecord)
    → length (encode rec) ≤ max_wal_record_bytes
    → max_metadata_entries < length rec.meta
    → Stops wal_framing (frame record_magic (encode rec))
unfolding wal_framing
over-Stops rec small over = inr (
    scan_undecodable wal_framing (omega arith) (encode rec) small
      (decode-encode_over rec small over) refl)

-- An append that reports success on a record with more metadata entries than the reader takes: the
-- replay of the disk is without it.
pub over_limit_lost :
    (wal w : Wal) (rs : List WalRecord) (rec : WalRecord) (os : Os)
    → Holds wal.disk rs
    → All IsStorable rs
    → length rs < max_wal_records
    → max_metadata_entries < length rec.meta
    → append rec os wal ≡ returned w (ok tt)
    → replay (some w.disk) ≡ some (ok rs)
over_limit_lost wal w rs rec os e h room over done =
    rw (wrote.0, e)
      (replay-Stops rs _ h room (over-Stops rec (append_ok_small rec os wal w done) over))
  where
    wrote : Appended wal (frame record_magic (encode rec)) (returned w (ok tt))
    wrote = subst (Appended wal (frame record_magic (encode rec))) done (append-Appended rec os wal)
