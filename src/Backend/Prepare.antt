-- ===== src/Backend/Prepare.antt =====
-- `prepare_chunks` of rag.cpp/src/preparation/document_preparer.cpp. The chunker is a parameter: `chunk_document` with
-- its options, and their fingerprint.
use llama_rag_runtime.Base.{
  ℕ, suc, ◌≡◌, refl, Bool, true, false, ◌||◌, ◌==◌, ltb, List, [], ◌∷◌, ◌++◌, if◌then◌else◌, arith,
  All, Bool-cases, inl, inr,
}
use llama_rag_runtime.Core.Types.{Bytes, Result, ok, ascii, invalid_argument, unless}
use llama_rag_runtime.Core.Metadata.{Metadata}
use llama_rag_runtime.Core.Map.{key_eq_refl}
use llama_rag_runtime.Core.Keyset.{contains, insert}
use llama_rag_runtime.Core.Keys.{normalize_source_text, document_content_hash, stable_chunk_key}
use llama_rag_runtime.Core.Normal.{normalize-normalize}
use llama_rag_runtime.Backend.Types.{PreparedChunk, PreparedDocument}
use llama_rag_runtime.Dense.Engine.{Engine}
use llama_rag_runtime.Dense.Index.{is_empty}
use llama_rag_runtime.Backend.Embedded.Validate.{
  validate, check_chunks, check_embeddings, indexed_text_of,
}

pub record TextChunk : Type 0 where
  pub text : Bytes
  pub context : Bytes
  pub start_line : ℕ
  pub end_line : ℕ

module _ (F : Type 0) where
  unfoldable pub prepared_chunk : Bytes → ℕ → TextChunk → PreparedChunk F
  prepared_chunk key ordinal chunk = record {
    key = stable_chunk_key key chunk.start_line chunk.end_line chunk.text;
    ordinal = ordinal;
    text = chunk.text;
    indexed_text =
        if is_empty chunk.context then chunk.text else chunk.context ++ (10 ∷ chunk.text);
    context = chunk.context;
    start_line = chunk.start_line;
    end_line = chunk.end_line;
    embedding = [];
  }

  unfoldable pub prepared_chunks : Bytes → ℕ → List TextChunk → List (PreparedChunk F)
  prepared_chunks key ordinal [] = []
  prepared_chunks key ordinal (chunk ∷ chunks) =
      prepared_chunk key ordinal chunk ∷ prepared_chunks key (suc ordinal) chunks

  unfoldable pub prepared_document :
      (Bytes → List TextChunk) → Bytes → Bytes → Bytes → Metadata → Bytes → PreparedDocument F
  prepared_document chunk_document chunking_fingerprint key content metadata title = record {
    key = key;
    title = title;
    content = normalize_source_text content;
    metadata = metadata;
    content_hash = document_content_hash title (normalize_source_text content) metadata;
    chunking_fingerprint = chunking_fingerprint;
    embedding_identity = [];
    chunks = prepared_chunks key 0 (chunk_document (normalize_source_text content));
  }

  unfoldable pub prepare_chunks :
      (Bytes → List TextChunk)
      → Bytes
      → Bytes
      → Bytes
      → Metadata
      → Bytes
      → Result (PreparedDocument F)
  prepare_chunks chunk_document chunking_fingerprint key content metadata title =
      unless (is_empty key) invalid_argument (ascii "document key must not be empty") (
        unless (is_empty content) invalid_argument (ascii "document content must not be empty")
          (ok (prepared_document chunk_document chunking_fingerprint key content metadata title)))

-- What the chunker gives: texts that are not empty, with their lines in order.
abbrev pub AreTexts : List TextChunk → Type 0
AreTexts = All λ c. (is_empty c.text ≡ false) × (ltb c.end_line c.start_line ≡ false)

-- No two chunks have one key: the lines or the texts differ, and the hashes do not collide.
abbrev pub HaveKeys : Bytes → List Bytes → List TextChunk → Type 0
HaveKeys key seen [] = Unit
HaveKeys key seen (c ∷ cs) =
    (contains (stable_chunk_key key c.start_line c.end_line c.text) seen ≡ false)
    × HaveKeys key (insert (stable_chunk_key key c.start_line c.end_line c.text) seen) cs

has_key :
    (key : Bytes) (c : TextChunk)
    → is_empty (stable_chunk_key key c.start_line c.end_line c.text) ≡ false
unfolding stable_chunk_key ascii is_empty
has_key key c = refl

append_empty : (xs ys : Bytes) → is_empty xs ≡ false → is_empty (xs ++ ys) ≡ false
unfolding is_empty
append_empty [] ys h = absurd (ground (arith, h))
append_empty (x ∷ xs) ys h = refl

numbered : (n : ℕ) → (n == n) ≡ true
numbered n = ground arith

has_text :
    (c : TextChunk)
    → is_empty c.text ≡ false
    → is_empty (if is_empty c.context then c.text else c.context ++ (10 ∷ c.text)) ≡ false
has_text c h = elim (Bool-cases (is_empty c.context)) [
  | inl bare ↦ rw bare h
  | inr headed ↦ rw headed (append_empty c.context (10 ∷ c.text) headed)
]

module _ (E : Engine) where
  check_prepared :
      (p : PreparedDocument E.Float) (ordinal : ℕ) (seen : List Bytes) (n : ℕ) (none_there : Bool)
      (cs : List TextChunk)
      → AreTexts cs
      → HaveKeys p.key seen cs
      → check_chunks E p ordinal seen n false none_there (prepared_chunks E.Float p.key ordinal cs)
        ≡ ok tt
  unfolding check_chunks prepared_chunks prepared_chunk check_embeddings unless indexed_text_of
      is_empty
  check_prepared p ordinal seen n none_there [] texts keys = refl
  check_prepared p ordinal seen n none_there (c ∷ cs) texts keys =
      let key = stable_chunk_key p.key c.start_line c.end_line c.text in
      let key_there : (is_empty key || contains key seen) ≡ false =
        ground (arith, has_key p.key c, keys.0) in
      let text = if is_empty c.context then c.text else c.context ++ (10 ∷ c.text) in
      let text_there : (is_empty c.text || is_empty text) ≡ false =
        ground (arith, texts.0.0, has_text c texts.0.0) in
      rw (key_there, numbered ordinal, texts.0.1, text_there, key_eq_refl text, key_eq_refl key)
        (check_prepared p (suc ordinal) (insert key seen) n true cs texts.1 keys.1)

  has_hash :
      (title content : Bytes) (metadata : Metadata)
      → is_empty (document_content_hash title content metadata) ≡ false
  unfolding document_content_hash ascii is_empty
  has_hash title content metadata = refl

  -- A document with a key and content is prepared, and the backend's validation accepts it under any revision but 0, if
  -- the chunker gives texts that are not empty with their lines in order, no two chunks have one key, and its options
  -- have a fingerprint.
  pub prepare_chunks-validate :
      (chunk_document : Bytes → List TextChunk) (chunking_fingerprint key content : Bytes)
      (metadata : Metadata) (title : Bytes) (revision : ℕ)
      → is_empty key ≡ false
      → is_empty content ≡ false
      → is_empty chunking_fingerprint ≡ false
      → (revision == 0) ≡ false
      → AreTexts (chunk_document (normalize_source_text content))
      → HaveKeys key [] (chunk_document (normalize_source_text content))
      → (p : PreparedDocument E.Float) × (prepare_chunks E.Float chunk_document chunking_fingerprint
            key content metadata title
          ≡ ok p)
        × (validate E p revision ≡ ok tt)
  unfolding prepare_chunks prepared_document validate unless
  prepare_chunks-validate chunk_document chunking_fingerprint key content metadata title revision hk
        hc hf hr texts keys =
      let p =
        prepared_document E.Float chunk_document chunking_fingerprint key content metadata title in
      let text = normalize_source_text content in
      (
        p,
        rw (hk, hc) refl,
        rw
            (
              hk,
              hr,
              has_hash title text metadata,
              hf,
              normalize-normalize content,
              key_eq_refl text,
              key_eq_refl (document_content_hash title text metadata),
            )
            (check_prepared p 0 [] 0 false (chunk_document text) texts keys),
      )
