-- ===== src/Store/Wal/Append.antt =====
-- What `append` of wal.cpp leaves on the disk, whatever the operating system answers.
use llama_rag_runtime.Base.{
  ℕ, ◌+◌, ◌≤◌, ◌<◌, ◌≡◌, ◌≢◌, refl, inl, inr, List, [], ◌∷◌, ◌++◌, length, take, drop, arith,
  append_assoc, append-nil, length-drop, take-append-drop, take-add, take_all, All, true,
  Bool-cases, ltb, sym, ◌∙◌, ap,
}
use llama_rag_runtime.Core.Types.{Bytes, Result, ok, err}
use llama_rag_runtime.Store.Frame.{frame}
use llama_rag_runtime.Store.Frame.Laws.{length-frame}
use llama_rag_runtime.Store.Format.{max_wal_record_bytes}
use llama_rag_runtime.Store.Wal.Codec.{WalRecord, encode}
use llama_rag_runtime.Store.Wal.File.{
  Wal, Os, WriteOutcome, wrote, interrupted, failed, Outcome, returned, crashed, Written, complete,
  broken, cut_off, write_loop, sync_now, finish_append, append, record_magic,
}

-- The disk got the whole buffer, or a proper prefix of it.
abbrev pub Wrote : Bytes → Bytes → Written → Type 0
Wrote disk buffer (complete d) = d ≡ disk ++ buffer
Wrote disk buffer (broken d) = (n : ℕ) × (n < length buffer) × (d ≡ disk ++ take n buffer)
Wrote disk buffer (cut_off d) = (n : ℕ) × (n < length buffer) × (d ≡ disk ++ take n buffer)

-- A partial write of `n` bytes, then the rest of the loop.
Wrote-partial :
    (disk buffer : Bytes) (n : ℕ) (w : Written)
    → Wrote (disk ++ take n buffer) (drop n buffer) w
    → Wrote disk buffer w
Wrote-partial disk buffer n (complete d) e =
    e
    ∙ append_assoc disk (take n buffer) (drop n buffer)
    ∙ ap (λ (t : Bytes). disk ++ t) (take-append-drop n buffer)
Wrote-partial disk buffer n (broken d) (m, less, e) = (
  n + m,
  omega (arith, length-drop n buffer),
  e
      ∙ append_assoc disk (take n buffer) (take m (drop n buffer))
      ∙ ap (λ (t : Bytes). disk ++ t) (sym (take-add n m buffer)),
)
Wrote-partial disk buffer n (cut_off d) (m, less, e) = (
  n + m,
  omega (arith, length-drop n buffer),
  e
      ∙ append_assoc disk (take n buffer) (take m (drop n buffer))
      ∙ ap (λ (t : Bytes). disk ++ t) (sym (take-add n m buffer)),
)

pub write_loop-Wrote :
    (os : List WriteOutcome) (buffer disk : Bytes) → Wrote disk buffer (write_loop os buffer disk)
unfolding write_loop
write_loop-Wrote [] [] disk = rw append-nil refl
write_loop-Wrote (o ∷ os) [] disk = rw append-nil refl
write_loop-Wrote [] (b ∷ bs) disk = (0, omega arith, rw append-nil refl)
write_loop-Wrote (wrote n ∷ os) (b ∷ bs) disk =
    Wrote-partial disk (b ∷ bs) n _
      (write_loop-Wrote os (drop n (b ∷ bs)) (disk ++ take n (b ∷ bs)))
write_loop-Wrote (interrupted ∷ os) (b ∷ bs) disk = write_loop-Wrote os (b ∷ bs) disk
write_loop-Wrote (failed ∷ os) (b ∷ bs) disk = (0, omega arith, rw append-nil refl)

-- The disk and the count of an append: all of the frame if it reports success, some front part of
-- it (perhaps none, perhaps all) if it reports an error, a proper front part if the process dies.
abbrev pub Appended : Wal → Bytes → Outcome → Type 0
Appended wal buffer (returned w (ok _)) =
    (w.disk ≡ wal.disk ++ buffer) × (w.size_bytes ≡ wal.size_bytes + length buffer)
Appended wal buffer (returned w (err e)) =
    ((n : ℕ) × (n ≤ length buffer) × (w.disk ≡ wal.disk ++ take n buffer))
    × (w.size_bytes ≡ wal.size_bytes)
Appended wal buffer (crashed d) = (n : ℕ) × (n < length buffer) × (d ≡ wal.disk ++ take n buffer)

finish_append-Appended :
    (wal : Wal) (buffer : Bytes) (os : Os) (w : Written)
    → Wrote wal.disk buffer w
    → Appended wal buffer (finish_append wal buffer os w)
unfolding finish_append
finish_append-Appended wal buffer os (complete d) e = go (sync_now wal.mode os)
  where
    go :
        (r : Result (Unit {0}))
        → Appended wal buffer (elim r [
          | ok _ ↦
              returned
                (record wal { disk = d; size_bytes = wal.size_bytes + length buffer })
                (ok tt)
          | err why ↦ returned (record wal { disk = d }) (err why)
        ])
    go (ok _) = (e, refl)
    go (err why) =
        ((length buffer, omega arith, rw (take_all (length buffer) buffer (omega arith)) e), refl)
finish_append-Appended wal buffer os (broken d) (n, less, e) = ((n, omega arith, e), refl)
finish_append-Appended wal buffer os (cut_off d) h = h

-- Whatever the answers to its calls, an append leaves on the disk what was there and a front part of
-- the record's frame, all of it if success is reported; only then is it counted.
pub append-Appended :
    (rec : WalRecord) (os : Os) (wal : Wal)
    → Appended wal (frame record_magic (encode rec)) (append rec os wal)
unfolding append
append-Appended rec os wal = elim (Bool-cases wal.is_open) [
  | inl live ↦ elim (Bool-cases (ltb max_wal_record_bytes (length (encode rec)))) [
    | inl large ↦ simp (live, large) ((0, omega arith, rw append-nil refl), refl)
    | inr small ↦
        simp (live, small)
          (finish_append-Appended wal (frame record_magic (encode rec)) os _
            (write_loop-Wrote os.writes (frame record_magic (encode rec)) wal.disk))
  ]
  | inr dead ↦ simp dead ((0, omega arith, rw append-nil refl), refl)
]

-- A record that an append acknowledges is within the limit.
pub append_ok_small :
    (rec : WalRecord) (os : Os) (wal w : Wal)
    → append rec os wal ≡ returned w (ok tt)
    → length (encode rec) ≤ max_wal_record_bytes
unfolding append
append_ok_small rec os wal w h = ground arith

-- The bytes that the `write` calls take, and their success.
abbrev pub taken : List WriteOutcome → ℕ
taken [] = 0
taken (wrote n ∷ os) = n + taken os
taken (o ∷ os) = taken os

abbrev pub NoFailure : List WriteOutcome → Type 0
NoFailure = All λ o. o ≢ failed

write_loop_completes :
    (os : List WriteOutcome) (buffer disk : Bytes)
    → NoFailure os
    → length buffer ≤ taken os
    → write_loop os buffer disk ≡ complete (disk ++ buffer)
unfolding write_loop
write_loop_completes [] [] disk h t = rw append-nil
write_loop_completes (o ∷ os) [] disk h t = rw append-nil
write_loop_completes [] (b ∷ bs) disk h t = absurd (omega arith)
write_loop_completes (wrote n ∷ os) (b ∷ bs) disk h t =
    write_loop_completes os (drop n (b ∷ bs)) (disk ++ take n (b ∷ bs)) h.1
      (omega (arith, length-drop n (b ∷ bs)))
    ∙ ap complete (append_assoc disk (take n (b ∷ bs)) (drop n (b ∷ bs)))
    ∙ ap (λ (t : Bytes). complete (disk ++ t)) (take-append-drop n (b ∷ bs))
write_loop_completes (interrupted ∷ os) (b ∷ bs) disk h t =
    write_loop_completes os (b ∷ bs) disk h.1 t
write_loop_completes (failed ∷ os) (b ∷ bs) disk h t = absurd (h.0 refl)

-- Calls that take enough bytes without an error, however they split them and however often they are
-- interrupted, and a sync that succeeds: the append returns success.
pub append_completes :
    (rec : WalRecord) (os : Os) (wal : Wal)
    → wal.is_open ≡ true
    → length (encode rec) ≤ max_wal_record_bytes
    → NoFailure os.writes
    → 12 + length (encode rec) ≤ taken os.writes
    → os.fsync ≡ true
    → (w : Wal) × (append rec os wal ≡ returned w (ok tt))
unfolding append finish_append sync_now
append_completes rec os wal live small fine enough synced = (
  record wal {
    disk = wal.disk ++ frame record_magic (encode rec);
    size_bytes = wal.size_bytes + length (frame record_magic (encode rec));
  },
  ground (
    arith,
    write_loop_completes os.writes (frame record_magic (encode rec)) wal.disk fine,
    length-frame record_magic (encode rec),
  ),
)
