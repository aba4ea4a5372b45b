-- ===== src/Store/Wal/Codec/Laws.antt =====
-- `decode` inverts `encode` of wal.cpp on the records that its limits admit.
use llama_rag_runtime.Base.{
  ◌+◌, ◌*◌, ◌%◌, ◌^◌, ◌≤◌, ◌<◌, ◌≡◌, refl, none, some, [], ◌∷◌, ◌++◌, length, arith, append_assoc,
  length-append, All, append-nil,
}
use llama_rag_runtime.Core.Types.{Bytes}
use llama_rag_runtime.Core.Metadata.{Metadata, SortedAfter, IsSorted, emplace_last}
use llama_rag_runtime.Store.Format.{write_u, write_str, max_metadata_entries, max_wal_record_bytes}
use llama_rag_runtime.Store.Format.Laws.{
  length-write_u, read_u-write_u, read_u-write_u_end, read_str-write_str, length-write_str,
}
use llama_rag_runtime.Store.Wal.Codec.{
  WalOp, add_document, remove_document, WalRecord, op_code, write_entries, encode, decode_op,
  read_entries, decode_meta, decode,
}

abbrev pub Short : Bytes → Type 0
Short s = length s < 2 ^ 32

abbrev pub ShortEntries : Metadata → Type 0
ShortEntries = All λ (k, v). Short k × Short v

pub length-write_entries : (m : Metadata) → 8 * length m ≤ length (write_entries m)
unfolding write_entries
length-write_entries [] = omega arith
length-write_entries ((k, v) ∷ m) = omega (
  arith,
  length-append (write_str k) (write_str v ++ write_entries m),
  length-append (write_str v) (write_entries m),
  length-write_str k,
  length-write_str v,
  length-write_entries m,
)

-- Entries whose bytes fit a `uint32_t` have strings that do.
short_entries : (m : Metadata) → length (write_entries m) < 2 ^ 32 → ShortEntries m
unfolding write_entries
short_entries [] h = tt
short_entries ((k, v) ∷ m) h =
    let e : length (write_entries ((k, v) ∷ m))
        ≡ 4 + length k + (4 + length v + length (write_entries m)) =
      omega (
        arith,
        length-append (write_str k) (write_str v ++ write_entries m),
        length-append (write_str v) (write_entries m),
        length-write_str k,
        length-write_str v,
      ) in
    ((omega arith, omega arith), short_entries m (omega arith))

read_entries-write_entries :
    (m seen : Metadata) (rest : Bytes)
    → ShortEntries m
    → SortedAfter seen m
    → read_entries (length m) (write_entries m ++ rest) seen ≡ some (seen ++ m, rest)
unfolding read_entries write_entries
read_entries-write_entries [] seen rest h s = rw append-nil
read_entries-write_entries ((k, v) ∷ m) seen rest h s = rw (
  append_assoc (write_str k) (write_str v ++ write_entries m) rest,
  append_assoc (write_str v) (write_entries m) rest,
  read_str-write_str k (write_str v ++ (write_entries m ++ rest)) h.0.0,
  read_str-write_str v (write_entries m ++ rest) h.0.1,
  emplace_last k v seen s.0,
  read_entries-write_entries m (seen ++ (k, v) ∷ []) rest h.1 s.1,
  append_assoc seen,
)

decode_meta-write :
    (m : Metadata) (rest : Bytes)
    → ShortEntries m
    → IsSorted m
    → length m ≤ max_metadata_entries
    → decode_meta (write_u 4 (length m % 2 ^ 32) ++ (write_entries m ++ rest)) ≡ some (m, rest)
unfolding decode_meta
decode_meta-write m rest h s small =
    let e : length m % 2 ^ 32 ≡ length m = omega arith in
    rw (read_u-write_u 4 (length m % 2 ^ 32) (write_entries m ++ rest) (omega arith), e)
      (ground (
        arith,
        read_entries-write_entries m [] rest h s,
        length-append (write_entries m) rest,
        length-write_entries m,
      ))

-- More entries than the limit are refused by `decode_meta`, whatever they are.
decode_meta_over :
    (m : Metadata) (rest : Bytes)
    → max_metadata_entries < length m
    → length m < 2 ^ 32
    → decode_meta (write_u 4 (length m % 2 ^ 32) ++ (write_entries m ++ rest)) ≡ none
unfolding decode_meta
decode_meta_over m rest over small =
    let e : length m % 2 ^ 32 ≡ length m = omega arith in
    rw (read_u-write_u 4 (length m % 2 ^ 32) (write_entries m ++ rest) (omega arith), e)
      (ground arith)

decode_op-op_code : (op : WalOp) → decode_op (op_code op) ≡ some op
unfolding decode_op
decode_op-op_code add_document = refl
decode_op-op_code remove_document = refl

op_code-lt : (op : WalOp) → op_code op < 256 ^ 1
op_code-lt add_document = omega arith
op_code-lt remove_document = omega arith

-- The size of a payload, string by string.
pub length-encode :
    (rec : WalRecord)
    → length (encode rec)
      ≡ 21 + length rec.uri + length rec.title + length rec.text + length (write_entries rec.meta)
unfolding encode
length-encode rec = simp (length-append, length-write_u, length-write_str) (omega arith)

-- What `std::map` and `std::uint32_t` guarantee of a record.
pub record IsRecord (rec : WalRecord) : Type 0 where
  pub sorted : IsSorted rec.meta
  pub doc_id_fits : rec.doc_id < 2 ^ 32

-- A payload within the log's limit, with no more metadata entries than the reader takes, is read
-- back as the record it was written from.
pub decode-encode :
    (rec : WalRecord)
    → IsRecord rec
    → length (encode rec) ≤ max_wal_record_bytes
    → length rec.meta ≤ max_metadata_entries
    → decode (encode rec) ≡ some rec
unfolding decode encode
decode-encode rec v small few =
    let size : length (encode rec)
        ≡ 21
          + length rec.uri
          + length rec.title
          + length rec.text
          + length (write_entries rec.meta) =
      length-encode rec in
    let tail₁ =
      write_u 4 (length rec.meta % 2 ^ 32) ++ (write_entries rec.meta ++ write_u 4 rec.doc_id) in
    rw (
      read_u-write_u 1 (op_code rec.op)
          (write_str rec.uri ++ (write_str rec.title ++ (write_str rec.text ++ tail₁)))
          (op_code-lt rec.op),
      decode_op-op_code rec.op,
      read_str-write_str rec.uri (write_str rec.title ++ (write_str rec.text ++ tail₁))
          (omega arith),
      read_str-write_str rec.title (write_str rec.text ++ tail₁) (omega arith),
      read_str-write_str rec.text tail₁ (omega arith),
      decode_meta-write rec.meta (write_u 4 rec.doc_id) (short_entries rec.meta (omega arith))
          v.sorted few,
      read_u-write_u_end 4 rec.doc_id v.doc_id_fits,
    )

-- The writer does not check the reader's limit on metadata entries: a record beyond it is encoded
-- to a payload that the reader refuses.
pub decode-encode_over :
    (rec : WalRecord)
    → length (encode rec) ≤ max_wal_record_bytes
    → max_metadata_entries < length rec.meta
    → decode (encode rec) ≡ none
unfolding decode encode
decode-encode_over rec small over =
    let size : length (encode rec)
        ≡ 21
          + length rec.uri
          + length rec.title
          + length rec.text
          + length (write_entries rec.meta) =
      length-encode rec in
    let entries : 8 * length rec.meta ≤ length (write_entries rec.meta) =
      length-write_entries rec.meta in
    let tail₁ =
      write_u 4 (length rec.meta % 2 ^ 32) ++ (write_entries rec.meta ++ write_u 4 rec.doc_id) in
    rw (
      read_u-write_u 1 (op_code rec.op)
          (write_str rec.uri ++ (write_str rec.title ++ (write_str rec.text ++ tail₁)))
          (op_code-lt rec.op),
      decode_op-op_code rec.op,
      read_str-write_str rec.uri (write_str rec.title ++ (write_str rec.text ++ tail₁))
          (omega arith),
      read_str-write_str rec.title (write_str rec.text ++ tail₁) (omega arith),
      read_str-write_str rec.text tail₁ (omega arith),
      decode_meta_over rec.meta (write_u 4 rec.doc_id) over (omega arith),
    )
