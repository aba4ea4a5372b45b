-- ===== src/Backend/Embedded/Fetching.antt =====
-- What the readers of rag.cpp/src/backend/embedded_backend.cpp return on a reachable generation.
use llama_rag_runtime.Base.{
  ◌≡◌, refl, Bool, true, false, arith, sym, subst, none, some, List, [], ◌∷◌, inl, inr,
  Option-cases, if◌then◌else◌,
}
use llama_rag_runtime.Core.Types.{Bytes, ok}
use llama_rag_runtime.Core.Map.{find, key_eq_refl}
use llama_rag_runtime.Core.Ordered.{All-find}
use llama_rag_runtime.Backend.Types.{PreparedChunk, StoredChunk, FetchOptions}
use llama_rag_runtime.Dense.Engine.{Engine}
use llama_rag_runtime.Backend.Embedded.State.{ActiveDocument, Generation}
use llama_rag_runtime.Backend.Embedded.Build.{stored_chunk}
use llama_rag_runtime.Backend.Embedded.Catalog.{IsComplete, IsSource, IsListed}
use llama_rag_runtime.Backend.Embedded.Rows.{All-get_elem?}
use llama_rag_runtime.Backend.Embedded.Read.{
  get_elem?, shown, embedding_source, fetch_one, then_fetched, fetch,
}
use llama_rag_runtime.Backend.Embedded.System.{Writers, Written, IsNew}
use llama_rag_runtime.Backend.Embedded.Safety.{reached-IsSafe}

module _ (E : Engine) where
  -- What a caller sees of a chunk of a document's active revision.
  abbrev pub seen :
      FetchOptions → Bytes → ActiveDocument E.Float → PreparedChunk E.Float → StoredChunk E.Float
  seen options d a c = record {
    key = c.key;
    document = d;
    revision = a.revision;
    ordinal = c.ordinal;
    title = a.prepared.title;
    text = if options.include_text then c.text else [];
    context = if options.include_text then c.context else [];
    metadata = a.prepared.metadata;
    start_line = c.start_line;
    end_line = c.end_line;
    embedding = if options.include_embedding then c.embedding else [];
  }

  -- A fetched chunk is one of its document's active revision: its key, its place and its content, as the
  -- options ask for them.
  abbrev pub IsLive : Generation E → FetchOptions → Bytes → StoredChunk E.Float → Type 0
  IsLive g options key s =
      (d : Bytes) × (a : ActiveDocument E.Float) × (c : PreparedChunk E.Float) × (find d g.documents
        ≡ some a)
      × (get_elem? c.ordinal a.prepared.chunks ≡ some c)
      × (c.key ≡ key)
      × (s ≡ seen options d a c)

  -- No active document has a chunk with this key.
  abbrev pub IsAbsent : Generation E → Bytes → Type 0
  IsAbsent g key =
      (d : Bytes) (a : ActiveDocument E.Float) (c : PreparedChunk E.Float)
      → find d g.documents ≡ some a
      → get_elem? c.ordinal a.prepared.chunks ≡ some c
      → c.key ≡ key
      → ⊥

  -- The chunks that are fetched, in the order of the keys; a key that is not live is passed over.
  pub data AreFetched (g : Generation E) (options : FetchOptions)
      : List Bytes → List (StoredChunk E.Float) → Type 0 where
    no_more : AreFetched g options [] []
    skipped :
        {key : Bytes} {keys : List Bytes} {out : List (StoredChunk E.Float)}
        → IsAbsent g key
        → AreFetched g options keys out
        → AreFetched g options (key ∷ keys) out
    taken :
        {key : Bytes} {keys : List Bytes} {s : StoredChunk E.Float}
        {out : List (StoredChunk E.Float)}
        → IsLive g options key s
        → AreFetched g options keys out
        → AreFetched g options (key ∷ keys) (s ∷ out)

  -- A key that the catalog does not have is of no active document.
  unknown-IsAbsent :
      (g : Generation E) (key : Bytes) → IsComplete E g → find key g.chunks ≡ none → IsAbsent g key
  unknown-IsAbsent g key v unknown d a c there placed same =
      let listed : find c.key g.chunks ≡ some (stored_chunk d a c) =
        All-get_elem? _ c.ordinal a.prepared.chunks c
          (All-find (λ (d, a). IsListed g.chunks d a a.prepared.chunks) d a g.documents v.listed
            there)
          placed in
      absurd (ground (arith, listed, unknown, same))

  fetch_stored-seen :
      (g : Generation E) (options : FetchOptions) (d : Bytes) (a : ActiveDocument E.Float)
      (c : PreparedChunk E.Float)
      → find d g.documents ≡ some a
      → get_elem? c.ordinal a.prepared.chunks ≡ some c
      → fetch_one E g options c.key (stored_chunk d a c) ≡ ok (seen options d a c)
  unfolding fetch_one embedding_source stored_chunk shown
  fetch_stored-seen g options d a c there placed = go options.include_text options.include_embedding
    where
      asked : Bool → Bool → FetchOptions
      asked text embedding = record { include_text = text; include_embedding = embedding }

      go :
          (text embedding : Bool)
          → fetch_one E g (asked text embedding) c.key (stored_chunk d a c)
            ≡ ok (seen (asked text embedding) d a c)
      go true true = rw (there, placed, key_eq_refl c.key) refl
      go false true = rw (there, placed, key_eq_refl c.key) refl
      go true false = refl
      go false false = refl

  fetch_stored-IsLive :
      (g : Generation E) (options : FetchOptions) (d : Bytes) (a : ActiveDocument E.Float)
      (c : PreparedChunk E.Float)
      → find d g.documents ≡ some a
      → get_elem? c.ordinal a.prepared.chunks ≡ some c
      → (s : StoredChunk E.Float) × (fetch_one E g options c.key (stored_chunk d a c) ≡ ok s)
        × IsLive g options c.key s
  fetch_stored-IsLive g options d a c there placed = (
    seen options d a c,
    fetch_stored-seen g options d a c there placed,
    (d, a, c, there, placed, refl, refl),
  )

  fetch_one-IsLive :
      (g : Generation E) (options : FetchOptions) (key : Bytes) (found : StoredChunk E.Float)
      → IsSource g.documents key found
      → (s : StoredChunk E.Float) × (fetch_one E g options key found ≡ ok s)
        × IsLive g options key s
  fetch_one-IsLive g options key found (d, a, c, there, placed, same, is) =
      subst
        (λ k.
          (s : StoredChunk E.Float) × (fetch_one E g options k found ≡ ok s) × IsLive g options k s)
        same
        (subst
          (λ f.
            (s : StoredChunk E.Float) × (fetch_one E g options c.key f ≡ ok s)
            × IsLive g options c.key s)
          (sym is) (fetch_stored-IsLive g options d a c there placed))

  fetch-AreFetched :
      (g : Generation E) (options : FetchOptions) (keys : List Bytes)
      → IsComplete E g
      → (out : List (StoredChunk E.Float)) × (fetch E g options keys ≡ ok out)
        × AreFetched g options keys out
  unfolding fetch then_fetched
  fetch-AreFetched g options [] v = ([], refl, no_more)
  fetch-AreFetched g options (key ∷ keys) v =
      let (out, rest, are) = fetch-AreFetched g options keys v in
      elim (Option-cases (find key g.chunks)) [
        | inl unknown ↦
            (out, rw (unknown, rest, fetch) refl, skipped (unknown-IsAbsent g key v unknown) are)
        | inr (found, there) ↦
            let (s, one, live) = fetch_one-IsLive g options key found (v.sourced key found there) in
            (s ∷ out, rw (there, one, rest, fetch) refl, taken live are)
      ]

  -- In every order of writers on a new backend, `fetch` returns the chunks of the keys that are live, each with
  -- every field of its document's active revision, the text, the context and the embedding if they are asked
  -- for; a key is passed over only if no active document has a chunk with it; the errors of a corrupt catalog
  -- do not occur.
  pub fetch_live :
      {a b : Writers E} (options : FetchOptions) (keys : List Bytes)
      → IsNew E a
      → Written E a b
      → (out : List (StoredChunk E.Float)) × (fetch E b.backend.active options keys ≡ ok out)
        × AreFetched b.backend.active options keys out
  fetch_live {a} {b} options keys new r =
      fetch-AreFetched b.backend.active options keys (reached-IsSafe E new r).sound.complete
