-- ===== src/Store/Wal/Durability.antt =====
-- What the log of rag.cpp/src/store/wal.cpp promises its caller: an acknowledged record is read back,
-- an interrupted one is there whole or not at all; and where that promise ends.
use llama_rag_runtime.Base.{
  ℕ, suc, ◌+◌, ◌≤◌, ◌<◌, ◌≡◌, refl, ◌⊎◌, inl, inr, List, [], ◌∷◌, ◌++◌, map, length, take, arith,
  append_assoc, append-nil, length-append, take_all, All, All-append, dec_lt, subst, Option, none,
  some, ap, ◌∙◌,
}
use mathlib.Core.List.{map-append}
use llama_rag_runtime.Core.Types.{Bytes, Result, ok, err}
use llama_rag_runtime.Store.Format.{max_wal_records, max_wal_record_bytes, max_metadata_entries}
use llama_rag_runtime.Store.Frame.{frame}
use llama_rag_runtime.Store.Frame.Laws.{
  length-frame, stream, stream-append, take_up_all, Readable, Stops, Stops-take-frame, loop-stream,
  loop_total,
}
use llama_rag_runtime.Store.Wal.Codec.{WalRecord, encode}
use llama_rag_runtime.Store.Wal.Codec.Laws.{IsRecord, decode-encode}
use llama_rag_runtime.Store.Wal.File.{
  Wal, Os, Outcome, returned, crashed, append, replay, record_magic, wal_framing, push_record,
}
use llama_rag_runtime.Store.Wal.Append.{Appended, append-Appended, append_ok_small}

abbrev pub entry : WalRecord → Bytes × WalRecord
entry r = (encode r, r)

-- The bytes of a log that holds these records.
unfoldable pub log_bytes : List WalRecord → Bytes
log_bytes rs = stream record_magic (map entry rs)

-- A record that the reader takes.
pub record IsStorable (r : WalRecord) : Type 0 where
  pub valid : IsRecord r
  pub small : length (encode r) ≤ max_wal_record_bytes
  pub few : length r.meta ≤ max_metadata_entries

pub Readable-entries :
    (rs : List WalRecord) → All IsStorable rs → Readable wal_framing (map entry rs)
unfolding wal_framing
Readable-entries [] h = tt
Readable-entries (r ∷ rs) h =
    ((h.0.small, decode-encode r h.0.valid h.0.small h.0.few), Readable-entries rs h.1)

push_all : (rs out : List WalRecord) → take_up_all push_record out (map entry rs) ≡ out ++ rs
unfolding take_up_all
push_all [] out = rw append-nil
push_all (r ∷ rs) out = push_all rs (out ++ r ∷ []) ∙ append_assoc out (r ∷ []) rs

length-log_bytes : (rs : List WalRecord) → length rs ≤ length (log_bytes rs)
unfolding log_bytes stream
length-log_bytes [] = omega arith
length-log_bytes (r ∷ rs) = omega (
  arith,
  length-append (frame record_magic (encode r)) (log_bytes rs),
  length-frame record_magic (encode r),
  length-log_bytes rs,
)

length-map-entry : (rs : List WalRecord) → length (map entry rs) ≡ length rs
length-map-entry [] = refl
length-map-entry (r ∷ rs) = ap suc (length-map-entry rs)

pub log_bytes-snoc :
    (rs : List WalRecord) (r : WalRecord)
    → log_bytes (rs ++ r ∷ []) ≡ log_bytes rs ++ frame record_magic (encode r)
unfolding log_bytes stream
log_bytes-snoc rs r = rw (
  map-append entry rs (r ∷ []),
  stream-append record_magic (map entry rs) (entry r ∷ []),
  append-nil,
)

-- A log with a harmless tail is replayed to its records.
pub replay-Stops :
    (rs : List WalRecord) (tail : Bytes)
    → All IsStorable rs
    → length rs < max_wal_records
    → Stops wal_framing tail
    → replay (some (log_bytes rs ++ tail)) ≡ some (ok rs)
unfolding replay log_bytes wal_framing
replay-Stops rs tail h room t =
    loop-stream wal_framing (omega arith) push_record (map entry rs) _ 0 [] tail
      (omega (
        arith,
        length-map-entry rs,
        length-log_bytes rs,
        length-append (stream record_magic (map entry rs)) tail,
      ))
      (omega (arith, length-map-entry rs)) (Readable-entries rs h) t
    ∙ ap (λ (out : List WalRecord). some (ok out)) (push_all rs [])

-- The disk of an open log holds the records and nothing else.
abbrev pub Holds : Bytes → List WalRecord → Type 0
Holds disk rs = disk ≡ log_bytes rs

-- A log that holds its records is replayed to them.
pub replay-Holds :
    (disk : Bytes) (rs : List WalRecord)
    → Holds disk rs
    → All IsStorable rs
    → length rs < max_wal_records
    → replay (some disk) ≡ some (ok rs)
replay-Holds disk rs e h room =
    rw (e, ← append-nil (log_bytes rs)) (replay-Stops rs [] h room (inl (omega arith)))

cut-Stops :
    (r : WalRecord) (n : ℕ)
    → length (encode r) ≤ max_wal_record_bytes
    → n < length (frame record_magic (encode r))
    → Stops wal_framing (take n (frame record_magic (encode r)))
unfolding wal_framing
cut-Stops r n small less = Stops-take-frame wal_framing (omega arith) (encode r) n small less

-- So is one that ends in a proper front part of a record's frame.
replay-cut :
    (rs : List WalRecord) (r : WalRecord) (n : ℕ)
    → All IsStorable rs
    → length rs < max_wal_records
    → length (encode r) ≤ max_wal_record_bytes
    → n < length (frame record_magic (encode r))
    → replay (some (log_bytes rs ++ take n (frame record_magic (encode r)))) ≡ some (ok rs)
replay-cut rs r n h room small less = replay-Stops rs _ h room (cut-Stops r n small less)

-- An append that reports success to its caller has the record on the disk behind those that were
-- there, and the replay of that disk returns them all in order; the byte count stays that of the disk.
pub append_acknowledged :
    (wal w : Wal) (rs : List WalRecord) (rec : WalRecord) (os : Os)
    → Holds wal.disk rs
    → wal.size_bytes ≡ length wal.disk
    → All IsStorable rs
    → IsRecord rec
    → length rec.meta ≤ max_metadata_entries
    → length rs + 1 < max_wal_records
    → append rec os wal ≡ returned w (ok tt)
    → (replay (some w.disk) ≡ some (ok (rs ++ rec ∷ [])))
      × Holds w.disk (rs ++ rec ∷ [])
      × (w.size_bytes ≡ length w.disk)
append_acknowledged wal w rs rec os e count h v few room done = (
  replay-Holds w.disk (rs ++ rec ∷ []) now
      (All-append IsStorable rs (rec ∷ []) h
        (record { valid = v; small = append_ok_small rec os wal w done; few = few }, tt))
      (omega (arith, length-append rs (rec ∷ []))),
  now,
  ground (arith, wrote, length-append wal.disk (frame record_magic (encode rec))),
)
  where
    wrote : Appended wal (frame record_magic (encode rec)) (returned w (ok tt))
    wrote = subst (Appended wal (frame record_magic (encode rec))) done (append-Appended rec os wal)

    now : Holds w.disk (rs ++ rec ∷ [])
    now = rw (wrote.0, e, log_bytes-snoc rs rec)

-- The disk that an append leaves, however it ends.
abbrev pub disk_after : Outcome → Bytes
disk_after (returned w r) = w.disk
disk_after (crashed d) = d

-- However an append ends (success, an error, or the death of the process between any two bytes), the
-- disk it leaves is replayed to the records that were there, with or without the new one.
pub append_atomic :
    (wal : Wal) (rs : List WalRecord) (rec : WalRecord) (os : Os)
    → Holds wal.disk rs
    → All IsStorable rs
    → IsStorable rec
    → length rs + 1 < max_wal_records
    → (replay (some (disk_after (append rec os wal))) ≡ some (ok rs))
      ⊎ (replay (some (disk_after (append rec os wal))) ≡ some (ok (rs ++ rec ∷ [])))
append_atomic wal rs rec os e h v room = go (append rec os wal) (append-Appended rec os wal)
  where
    whole :
        {d : Bytes}
        → d ≡ wal.disk ++ frame record_magic (encode rec)
        → replay (some d) ≡ some (ok (rs ++ rec ∷ []))
    whole {d} p =
        replay-Holds d (rs ++ rec ∷ []) (rw (p, e, log_bytes-snoc rs rec))
          (All-append IsStorable rs (rec ∷ []) h (v, tt))
          (omega (arith, length-append rs (rec ∷ [])))

    part :
        (d : Bytes) (n : ℕ)
        → d ≡ wal.disk ++ take n (frame record_magic (encode rec))
        → (replay (some d) ≡ some (ok rs)) ⊎ (replay (some d) ≡ some (ok (rs ++ rec ∷ [])))
    part d n p = elim (dec_lt n (length (frame record_magic (encode rec)))) [
      | yes less ↦ inl (rw (p, e) (replay-cut rs rec n h (omega arith) v.small less))
      | no more ↦ inr (
          whole (
            p
            ∙ ap (λ (t : Bytes). wal.disk ++ t)
                (take_all n (frame record_magic (encode rec)) (omega arith))))
    ]

    go :
        (o : Outcome)
        → Appended wal (frame record_magic (encode rec)) o
        → (replay (some (disk_after o)) ≡ some (ok rs))
          ⊎ (replay (some (disk_after o)) ≡ some (ok (rs ++ rec ∷ [])))
    go (returned w (ok _)) p = inr (whole p.0)
    go (returned w (err why)) ((n, _, p), _) = part w.disk n p
    go (crashed d) (n, _, p) = part d n p

-- The replay of any file returns: the loop has fuel enough.
pub replay_total : (file : Option Bytes) → (r : Result (List WalRecord)) × (replay file ≡ some r)
unfolding replay
replay_total none = (ok [], refl)
replay_total (some blob) = loop_total wal_framing push_record _ 0 [] blob (omega arith)
