-- ===== src/Store/Frame/Laws.antt =====
-- Reading back what was framed: whole records, a torn last one, and the loop's termination.
use llama_rag_runtime.Base.{
  ℕ, zero, suc, ◌+◌, ◌-◌, ◌%◌, ◌^◌, ◌≤◌, ◌<◌, ◌≡◌, ◌⊎◌, inl, inr, refl, some, List, [], ◌∷◌, ◌++◌,
  length, take, drop, dec_lt, take-add_append, length-drop, take_all, append-nil, true,
  Option-cases, Bool-cases, ltb, leb, none, arith, append_assoc, length-append, length-take,
  take-length_append, drop-length_append, All,
}
use llama_rag_runtime.Core.Types.{Bytes, Error, Result, ok, err}
use llama_rag_runtime.Store.Format.{write_u, max_wal_records, max_wal_record_bytes}
use llama_rag_runtime.Store.Format.Laws.{length-write_u, read_u-write_u, read_u-write_u_end}
use llama_rag_runtime.Store.Crc.{crc32, crc32-lt}
use llama_rag_runtime.Store.Frame.{
  Framing, Scan, corrupt, stop, found, frame, scan, scan_loop, read_header, scan_header, scan_body,
  scan_payload, scan_decoded,
}

abbrev pub header : ℕ → Bytes → Bytes
header magic payload =
    write_u 4 magic ++ (write_u 4 (length payload % 2 ^ 32) ++ write_u 4 (crc32 payload))

pub frame-header :
    (magic : ℕ) (payload : Bytes) → frame magic payload ≡ header magic payload ++ payload
unfolding frame
frame-header magic payload = simp append_assoc

length-header : (magic : ℕ) (payload : Bytes) → length (header magic payload) ≡ 12
length-header magic payload = omega (
  arith,
  length-append (write_u 4 magic)
      (write_u 4 (length payload % 2 ^ 32) ++ write_u 4 (crc32 payload)),
  length-append (write_u 4 (length payload % 2 ^ 32)) (write_u 4 (crc32 payload)),
  length-write_u 4 magic,
  length-write_u 4 (length payload % 2 ^ 32),
  length-write_u 4 (crc32 payload),
)

pub length-frame :
    (magic : ℕ) (payload : Bytes) → length (frame magic payload) ≡ 12 + length payload
length-frame magic payload =
    rw (frame-header magic payload)
      (omega (arith, length-append (header magic payload) payload, length-header magic payload))

pub take-header :
    (magic : ℕ) (payload body : Bytes)
    → take 12 (header magic payload ++ body) ≡ header magic payload
take-header magic payload body =
    rw (length-header magic payload) at (take-length_append (header magic payload) body)

pub drop-header : (magic : ℕ) (payload body : Bytes) → drop 12 (header magic payload ++ body) ≡ body
drop-header magic payload body =
    rw (length-header magic payload) at (drop-length_append (header magic payload) body)

module _ {A : Type 0} (f : Framing A) (fits : f.magic < 2 ^ 32) where
  pub read_header-header :
      (payload : Bytes)
      → length payload < 2 ^ 32
      → read_header f (header f.magic payload) ≡ some (f.magic, length payload, crc32 payload)
  unfolding read_header
  read_header-header payload h =
      let small : length payload % 2 ^ 32 ≡ length payload = omega arith in
      rw (
        read_u-write_u 4 f.magic (write_u 4 (length payload % 2 ^ 32) ++ write_u 4 (crc32 payload))
            fits,
        read_u-write_u 4 (length payload % 2 ^ 32) (write_u 4 (crc32 payload)) (omega arith),
        read_u-write_u_end 4 (crc32 payload) (crc32-lt payload),
        small,
      )

  scan-header :
      (payload body : Bytes)
      → length payload < 2 ^ 32
      → scan f (header f.magic payload ++ body)
        ≡ scan_body f f.magic (length payload) (crc32 payload) body
  unfolding scan scan_header
  scan-header payload body h = rw (
    take-header f.magic payload body,
    drop-header f.magic payload body,
    read_header-header payload h,
  )

  -- A whole record is found, and the scan goes on behind it.
  pub scan-frame :
      (payload rest : Bytes) {a : A}
      → length payload ≤ max_wal_record_bytes
      → f.decode payload ≡ some a
      → scan f (frame f.magic payload ++ rest) ≡ found payload a rest
  unfolding scan_body scan_payload scan_decoded
  scan-frame payload rest h d =
      rw
        (
          frame-header f.magic payload,
          append_assoc (header f.magic payload) payload rest,
          scan-header payload (payload ++ rest) (omega arith),
        )
        (ground (
          arith,
          take-length_append payload rest,
          drop-length_append payload rest,
          length-append payload rest,
          d,
        ))

  -- A cut record that announces more bytes than follow is no record and no error, whatever stands
  -- behind the cut.
  pub scan-torn :
      (payload : Bytes) (n : ℕ) (extra : Bytes)
      → length payload ≤ max_wal_record_bytes
      → 12 ≤ n
      → n + length extra < length (frame f.magic payload)
      → scan f (take n (frame f.magic payload) ++ extra) ≡ stop
  unfolding scan_body
  scan-torn payload n extra h low high =
      let all : length (frame f.magic payload) ≡ 12 + length payload =
        length-frame f.magic payload in
      let cut : n ≡ length (header f.magic payload) + (n - 12) =
        omega (arith, length-header f.magic payload) in
      rw (frame-header f.magic payload) (
        rw cut (
          rw (take-add_append (header f.magic payload) payload (n - 12)) (
            rw (append_assoc (header f.magic payload) (take (n - 12) payload) extra) (
              rw (scan-header payload (take (n - 12) payload ++ extra) (omega arith)) (
                ground (
                  arith,
                  length-take (n - 12) payload,
                  length-append (take (n - 12) payload) extra,
                ))))))

  -- A whole record whose payload the decoder refuses: the last of the log is dropped.
  pub scan_undecodable :
      (payload : Bytes)
      → length payload ≤ max_wal_record_bytes
      → f.decode payload ≡ none
      → f.drop_undecodable ≡ true
      → scan f (frame f.magic payload) ≡ stop
  unfolding scan_body scan_payload scan_decoded
  scan_undecodable payload h d drops =
      rw (frame-header f.magic payload, scan-header payload payload (omega arith))
        (ground (
          arith,
          take_all (length payload) payload (omega arith),
          length-drop (length payload) payload,
          d,
          drops,
        ))

-- What the loop ends on without an error: too short for a header, or a record that breaks it off.
abbrev pub Stops : {A : Type 0} → Framing A → Bytes → Type 0
Stops f tail = (length tail < 12) ⊎ (scan f tail ≡ stop)

-- The payloads of a log with what they decode to, and the log's bytes.
abbrev pub Readable : {A : Type 0} → Framing A → List (Bytes × A) → Type 0
Readable f =
    All λ (payload, a). (length payload ≤ max_wal_record_bytes) × (f.decode payload ≡ some a)

module _ {A : Type 0} where
  unfoldable pub stream : ℕ → List (Bytes × A) → Bytes
  stream magic [] = []
  stream magic ((payload, a) ∷ ps) = frame magic payload ++ stream magic ps

  unfoldable pub take_up_all {ℓ} : {S : Type ℓ} → (S → Bytes → A → S) → S → List (Bytes × A) → S
  take_up_all take_up s [] = s
  take_up_all take_up s ((payload, a) ∷ ps) = take_up_all take_up (take_up s payload a) ps

  pub stream-append :
      (magic : ℕ) (ps qs : List (Bytes × A))
      → stream magic (ps ++ qs) ≡ stream magic ps ++ stream magic qs
  unfolding stream
  stream-append magic [] qs = refl
  stream-append magic ((payload, a) ∷ ps) qs =
      rw (stream-append magic ps qs, append_assoc (frame magic payload))

module _ {A : Type 0} (f : Framing A) (fits : f.magic < 2 ^ 32) where
  pub Stops-take-frame :
      (payload : Bytes) (n : ℕ)
      → length payload ≤ max_wal_record_bytes
      → n < length (frame f.magic payload)
      → Stops f (take n (frame f.magic payload))
  Stops-take-frame payload n h high = elim (dec_lt n 12) [
    | yes low ↦ inl (omega (arith, length-take n (frame f.magic payload)))
    | no low ↦ inr (rw append-nil at (scan-torn f fits payload n [] h (omega arith) (omega arith)))
  ]

  module _ {ℓ} {S : Type ℓ} (take_up : S → Bytes → A → S) where
    loop-Stops :
        (fuel records : ℕ) (s : S) (tail : Bytes)
        → 0 < fuel
        → records < max_wal_records
        → Stops f tail
        → scan_loop f take_up fuel records s tail ≡ some (ok s)
    unfolding scan_loop
    loop-Stops zero records s tail h r t = absurd (omega arith)
    loop-Stops (suc fuel) records s tail h r t = ground arith

    loop_step :
        (fuel records : ℕ) (s : S) (payload : Bytes) (a : A) (rest : Bytes)
        → records < max_wal_records
        → (length payload ≤ max_wal_record_bytes) × (f.decode payload ≡ some a)
        → scan_loop f take_up (suc fuel) records s (frame f.magic payload ++ rest)
          ≡ scan_loop f take_up fuel (records + 1) (take_up s payload a) rest
    unfolding scan_loop
    loop_step fuel records s payload a rest r (small, d) = ground (
      arith,
      scan-frame f fits payload rest small d,
      length-append (frame f.magic payload) rest,
      length-frame f.magic payload,
    )

    -- A log of whole records with a harmless tail is read to its last whole record.
    pub loop-stream :
        (ps : List (Bytes × A)) (fuel records : ℕ) (s : S) (tail : Bytes)
        → length ps < fuel
        → records + length ps < max_wal_records
        → Readable f ps
        → Stops f tail
        → scan_loop f take_up fuel records s (stream f.magic ps ++ tail)
          ≡ some (ok (take_up_all take_up s ps))
    unfolding stream take_up_all
    loop-stream [] fuel records s tail hf hr h t =
        loop-Stops fuel records s tail (omega arith) (omega arith) t
    loop-stream ((payload, a) ∷ ps) zero records s tail hf hr h t = absurd (omega arith)
    loop-stream ((payload, a) ∷ ps) (suc fuel) records s tail hf hr h t =
        rw
          (
            append_assoc (frame f.magic payload) (stream f.magic ps) tail,
            loop_step fuel records s payload a (stream f.magic ps ++ tail) (omega arith) h.0,
          )
          (loop-stream ps fuel (records + 1) (take_up s payload a) tail (omega arith) (omega arith)
            h.1 t)

Scan-cases :
    {A : Type 0} (s : Scan A)
    → (s ≡ stop)
      ⊎ (((e : Error) × (s ≡ corrupt e))
          ⊎ ((payload : Bytes) × (a : A) × (rest : Bytes) × (s ≡ found payload a rest)))
Scan-cases stop = inl refl
Scan-cases (corrupt e) = inr (inl (e, refl))
Scan-cases (found payload a rest) = inr (inr (payload, a, rest, refl))

-- Fuel above the length of the blob is enough, whatever the bytes are.
module _ {A : Type 0} (f : Framing A) where
  scan_found_shorter :
      (blob payload rest : Bytes) (a : A)
      → 12 ≤ length blob
      → scan f blob ≡ found payload a rest
      → length rest < length blob
  unfolding scan scan_header scan_body scan_payload scan_decoded
  scan_found_shorter blob payload rest a long h =
      elim (Option-cases (read_header f (take 12 blob))) [
        | inl e ↦ cc (rw (e, scan_header) at h)
        | inr ((magic, len, crc), e) ↦
            ground
              (arith, rw (e, scan_header) at h, length-drop 12 blob, length-drop len (drop 12 blob))
      ]

  pub loop_total {ℓ} :
      {S : Type ℓ} (take_up : S → Bytes → A → S) (fuel records : ℕ) (s : S) (blob : Bytes)
      → length blob < fuel
      → (r : Result S) × (scan_loop f take_up fuel records s blob ≡ some r)
  unfolding scan_loop
  loop_total take_up zero records s blob h = absurd (omega arith)
  loop_total take_up (suc fuel) records s blob h = elim (Bool-cases (ltb (length blob) 12)) [
    | inl short ↦ (ok s, rw short)
    | inr long ↦ elim (Bool-cases (leb max_wal_records records)) [
      | inl over ↦ (err f.limit_exceeded, rw (long, over))
      | inr room ↦ elim (Scan-cases (scan f blob)) [
        | inl e ↦ (ok s, rw (long, room, e))
        | inr (inl (why, e)) ↦ (err why, rw (long, room, e))
        | inr (inr (payload, a, rest, e)) ↦
            rw (long, room, e)
              (loop_total take_up fuel (records + 1) (take_up s payload a) rest
                (omega (arith, scan_found_shorter blob payload rest a (ground arith) e)))
      ]
    ]
  ]
