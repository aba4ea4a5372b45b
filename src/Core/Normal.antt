-- ===== src/Core/Normal.antt =====
-- `normalize_source_text` of rag.cpp/src/core/keys.cpp: line ends are line feeds.
use llama_rag_runtime.Base.{◌≡◌, refl, ap, false, [], ◌∷◌, ◌==◌, All, Bool-cases, inl, inr}
use llama_rag_runtime.Core.Types.{Bytes}
use llama_rag_runtime.Core.Keys.{normalize_source_text}

-- No byte is a carriage return.
abbrev pub HasNoReturn : Bytes → Type 0
HasNoReturn = All λ c. (c == 13) ≡ false

normalize-HasNoReturn : (text : Bytes) → HasNoReturn (normalize_source_text text)
unfolding normalize_source_text
normalize-HasNoReturn [] = tt
normalize-HasNoReturn (c ∷ []) = elim (Bool-cases (c == 13)) [
  | inl cr ↦ rw cr (refl, tt)
  | inr other ↦ rw other (other, tt)
]
normalize-HasNoReturn (c ∷ d ∷ rest) =
    let behind = normalize-HasNoReturn (d ∷ rest) in
    elim (Bool-cases (c == 13)) [
      | inl cr ↦ elim (Bool-cases (d == 10)) [
        | inl lf ↦ rw (cr, lf) behind
        | inr other ↦ rw (cr, other) (refl, behind)
      ]
      | inr other ↦ rw other (other, behind)
    ]

HasNoReturn-normalize : (text : Bytes) → HasNoReturn text → normalize_source_text text ≡ text
unfolding normalize_source_text
HasNoReturn-normalize [] h = refl
HasNoReturn-normalize (c ∷ []) h = rw h.0 refl
HasNoReturn-normalize (c ∷ d ∷ rest) h = rw h.0 (ap (◌∷◌ c) (HasNoReturn-normalize (d ∷ rest) h.1))

-- A normalised text is left alone, so that the check of `content != normalize_source_text(content)` accepts it.
pub normalize-normalize :
    (text : Bytes) → normalize_source_text (normalize_source_text text) ≡ normalize_source_text text
normalize-normalize text =
    HasNoReturn-normalize (normalize_source_text text) (normalize-HasNoReturn text)
