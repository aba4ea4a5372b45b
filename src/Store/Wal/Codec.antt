-- ===== src/Store/Wal/Codec.antt =====
-- The record and its payload: `encode` and `decode` of wal.cpp.
pub mod Laws
use llama_rag_runtime.Base.{
  ℕ, zero, suc, ◌/◌, ◌%◌, ◌^◌, ◌==◌, ◌||◌, ltb, if◌then◌else◌, Option, none, some, [], ◌∷◌, ◌++◌,
  length,
}
use llama_rag_runtime.Core.Types.{Bytes}
use llama_rag_runtime.Core.Metadata.{Metadata, emplace}
use llama_rag_runtime.Store.Format.{
  write_u, write_str, read_u, read_str, ◌>>=◌, max_metadata_entries,
}

pub data WalOp : Type 0 where
  add_document remove_document : WalOp

pub record WalRecord : Type 0 where
  pub op : WalOp
  pub uri : Bytes
  pub title : Bytes
  pub text : Bytes
  pub meta : Metadata
  pub doc_id : ℕ

abbrev pub op_code : WalOp → ℕ
op_code add_document = 1
op_code remove_document = 2

unfoldable pub write_entries : Metadata → Bytes
write_entries [] = []
write_entries ((k, v) ∷ m) = write_str k ++ (write_str v ++ write_entries m)

unfoldable pub encode : WalRecord → Bytes
encode rec =
    write_u 1 (op_code rec.op)
    ++ (write_str rec.uri
        ++ (write_str rec.title
            ++ (write_str rec.text
                ++ (write_u 4 (length rec.meta % 2 ^ 32)
                    ++ (write_entries rec.meta ++ write_u 4 rec.doc_id)))))

unfoldable pub decode_op : ℕ → Option WalOp
decode_op op = if op == 1 then some add_document else if op == 2 then some remove_document else none

-- The loop over the `n` entries announced.
unfoldable pub read_entries : ℕ → Bytes → Metadata → Option (Metadata × Bytes)
read_entries zero input meta = some (meta, input)
read_entries (suc n) input meta = do
  (k, input₁) ← read_str input
  (v, input₂) ← read_str input₁
  read_entries n input₂ (emplace k v meta)

unfoldable pub decode_meta : Bytes → Option (Metadata × Bytes)
decode_meta input = do
  (n, rest) ← read_u 4 input
  if ltb max_metadata_entries n || ltb (length rest / 8) n then none else read_entries n rest []

unfoldable pub decode : Bytes → Option WalRecord
decode payload = do
  (code, input₁) ← read_u 1 payload
  op ← decode_op code
  (uri, input₂) ← read_str input₁
  (title, input₃) ← read_str input₂
  (text, input₄) ← read_str input₃
  (meta, input₅) ← decode_meta input₄
  (doc_id, input₆) ← read_u 4 input₅
  if length input₆ == 0
      then some
          (record { op = op; uri = uri; title = title; text = text; meta = meta; doc_id = doc_id })
      else none
