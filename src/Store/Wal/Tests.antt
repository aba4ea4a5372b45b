-- ===== src/Store/Wal/Tests.antt =====
-- Runs of the log of rag.cpp/src/store/wal.cpp, and its theorems at concrete records.
use llama_rag_runtime.Base.{
  ℕ, zero, suc, ◌+◌, ◌*◌, ◌≡◌, refl, ap, ◌⊎◌, [], ◌∷◌, ◌++◌, length, arith, true, some, List,
  length-append,
}
use llama_rag_runtime.Core.Types.{ascii, ok, Result}
use llama_rag_runtime.Core.Metadata.{Metadata}
use llama_rag_runtime.Store.Format.{write_u, write_str}
use llama_rag_runtime.Store.Format.Laws.{length-write_str}
use llama_rag_runtime.Store.Crc.{crc32}
use llama_rag_runtime.Store.Frame.{frame}
use llama_rag_runtime.Store.Frame.Laws.{stream}
use llama_rag_runtime.Store.Wal.Codec.{
  WalRecord, add_document, remove_document, encode, decode, write_entries,
}
use llama_rag_runtime.Store.Wal.Codec.Laws.{IsRecord, decode-encode, length-encode}
use llama_rag_runtime.Store.Wal.File.{
  Wal, Os, returned, append, replay, record_magic, flush, wrote, interrupted, open_log, write_loop,
  sync_now, finish_append,
}
use llama_rag_runtime.Store.Wal.Append.{append_completes, Appended, append-Appended}
use llama_rag_runtime.Store.Wal.Durability.{
  log_bytes, IsStorable, Holds, append_acknowledged, append_atomic, disk_after, replay_total,
}
use llama_rag_runtime.Store.Wal.Reopen.{torn_append_lost, over_limit_lost, crash_disk}

abbrev note : WalRecord
note = record {
  op = add_document;
  uri = 97 ∷ [];
  title = [];
  text = 104 ∷ 105 ∷ [];
  meta = (107 ∷ [], 118 ∷ []) ∷ [];
  doc_id = 0;
}

abbrev removal : WalRecord
removal = record { op = remove_document; uri = []; title = []; text = []; meta = []; doc_id = 3 }

abbrev empty_log : Wal
empty_log = record { is_open = true; mode = flush; size_bytes = 0; disk = [] }

-- The frame in three pieces, with an interruption.
abbrev slow : Os
slow = record {
  writes = wrote 5 ∷ interrupted ∷ wrote 20 ∷ wrote 1000 ∷ [];
  error_text = [];
  fsync = true;
  full_fsync = true;
}

note-IsRecord : IsRecord note
note-IsRecord = record { sorted = (tt, tt); doc_id_fits = omega arith }

note-IsStorable : IsStorable note
unfolding encode write_str write_u write_entries
note-IsStorable = record { valid = note-IsRecord; small = omega arith; few = omega arith }

removal-IsStorable : IsStorable removal
unfolding encode write_str write_u write_entries
removal-IsStorable = record {
  valid = record { sorted = tt; doc_id_fits = omega arith };
  small = omega arith;
  few = omega arith;
}

decode-encode_example : decode (encode note) ≡ some note
decode-encode_example = decode-encode note note-IsRecord note-IsStorable.small note-IsStorable.few

abbrev one_note : Wal
one_note = record {
  is_open = true;
  mode = flush;
  size_bytes = length (log_bytes (note ∷ []));
  disk = log_bytes (note ∷ []);
}

abbrev two_notes : Wal
two_notes = record one_note {
  disk = one_note.disk ++ frame record_magic (encode removal);
  size_bytes = one_note.size_bytes + length (frame record_magic (encode removal));
}

slow_run : append removal slow one_note ≡ returned two_notes (ok tt)
unfolding append finish_append write_loop sync_now log_bytes stream frame encode write_entries
    write_str write_u crc32
slow_run = refl

append_acknowledged_example :
    (replay (some two_notes.disk) ≡ some (ok (note ∷ removal ∷ [])))
    × Holds two_notes.disk (note ∷ removal ∷ [])
    × (two_notes.size_bytes ≡ length two_notes.disk)
append_acknowledged_example =
    append_acknowledged one_note two_notes (note ∷ []) removal slow refl refl (note-IsStorable, tt)
      removal-IsStorable.valid removal-IsStorable.few (omega arith) slow_run

-- The process dies behind 25 bytes of the frame.
abbrev dying : Os
dying = record slow { writes = wrote 5 ∷ wrote 20 ∷ [] }

append_atomic_example :
    (replay (some (disk_after (append removal dying one_note))) ≡ some (ok (note ∷ [])))
    ⊎ (replay (some (disk_after (append removal dying one_note))) ≡ some (ok (note ∷ removal ∷ [])))
append_atomic_example =
    append_atomic one_note (note ∷ []) removal dying refl (note-IsStorable, tt) removal-IsStorable
      (omega arith)

append_completes_example : (w : Wal) × (append note slow one_note ≡ returned w (ok tt))
unfolding encode write_entries write_str write_u
append_completes_example =
    append_completes note slow one_note refl note-IsStorable.small
      ((λ e. cc), ((λ e. cc), ((λ e. cc), ((λ e. cc), tt)))) (omega arith) refl

append-Appended_example :
    Appended one_note (frame record_magic (encode removal)) (append removal dying one_note)
append-Appended_example = append-Appended removal dying one_note

replay_total_example : (r : Result (List WalRecord)) × (replay (some two_notes.disk) ≡ some r)
replay_total_example = replay_total (some two_notes.disk)

replay_run : replay (some two_notes.disk) ≡ some (ok (note ∷ removal ∷ []))
replay_run = append_acknowledged_example.0

abbrev long_note : WalRecord
long_note = record note {
  text = ascii "a text that is long enough to hold the frame of the removal below";
}

long_note-IsStorable : IsStorable long_note
unfolding encode write_str write_u write_entries ascii
long_note-IsStorable = record {
  valid = record { sorted = (tt, tt); doc_id_fits = omega arith };
  small = omega arith;
  few = omega arith;
}

abbrev torn_log : Wal
torn_log = record {
  is_open = true;
  mode = flush;
  size_bytes = length (crash_disk (note ∷ []) long_note 20);
  disk = crash_disk (note ∷ []) long_note 20;
}

abbrev torn_after : Wal
torn_after = record torn_log {
  disk = torn_log.disk ++ frame record_magic (encode removal);
  size_bytes = torn_log.size_bytes + length (frame record_magic (encode removal));
}

torn_run : append removal slow torn_log ≡ returned torn_after (ok tt)
unfolding append finish_append write_loop sync_now log_bytes stream frame encode write_entries
    write_str write_u crc32 ascii
torn_run = refl

torn_append_lost_example : replay (some torn_after.disk) ≡ some (ok (note ∷ []))
unfolding open_log encode frame write_entries write_str write_u ascii
torn_append_lost_example =
    torn_append_lost empty_log torn_log torn_after (note ∷ []) long_note removal 20 [] flush slow
      (note-IsStorable, tt) (omega arith) long_note-IsStorable.small (omega arith) (omega arith)
      refl torn_run

-- A record with `n` empty metadata entries.
entries : ℕ → Metadata
entries zero = []
entries (suc n) = ([], []) ∷ entries n

length-entries : (n : ℕ) → length (entries n) ≡ n
unfolding entries
length-entries zero = refl
length-entries (suc n) = ap suc (length-entries n)

length-write_entries-entries : (n : ℕ) → length (write_entries (entries n)) ≡ 8 * n
unfolding entries write_entries
length-write_entries-entries zero = refl
length-write_entries-entries (suc n) = omega (
  arith,
  length-append (write_str []) (write_str [] ++ write_entries (entries n)),
  length-append (write_str []) (write_entries (entries n)),
  length-write_str [],
  length-write_entries-entries n,
)

abbrev crowded : WalRecord
crowded = record removal { meta = entries 1_000_001 }

abbrev wide : Os
wide = record slow { writes = wrote 100_000_000 ∷ [] }

crowded_run : (w : Wal) × (append crowded wide empty_log ≡ returned w (ok tt))
crowded_run =
    append_completes crowded wide empty_log refl
      (omega (arith, length-encode crowded, length-write_entries-entries 1_000_001)) ((λ e. cc), tt)
      (omega (arith, length-encode crowded, length-write_entries-entries 1_000_001)) refl

over_limit_lost_example : replay (some crowded_run.0.disk) ≡ some (ok [])
unfolding log_bytes stream
over_limit_lost_example =
    over_limit_lost empty_log crowded_run.0 [] crowded wide refl tt (omega arith)
      (omega (arith, length-entries 1_000_001)) crowded_run.1
