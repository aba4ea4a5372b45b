-- ===== src/Store/Container/Layout.antt =====
-- `validate_container_layout`. `std::sort`, whose order of equal offsets is not specified, is an argument.
use llama_rag_runtime.Base.{
  ℕ, zero, suc, ◌+◌, ◌-◌, ◌*◌, ◌/◌, ◌==◌, Bool, false, not, ◌||◌, ltb, if◌then◌else◌, Option, none,
  some, List, [], ◌∷◌, ◌++◌, length, take, drop,
}
use llama_rag_runtime.Core.Types.{Bytes, Result, ok, err, fail, ascii, corrupt_index}
use llama_rag_runtime.Core.Map.{key_eq}
use llama_rag_runtime.Core.Keys.{to_decimal}
use llama_rag_runtime.Store.Format.{read_u, read_bytes, format_major, max_sections}
use llama_rag_runtime.Store.Crc.{crc32}

pub record SectionRange : Type 0 where
  pub tag : ℕ
  pub offset : ℕ
  pub length : ℕ

pub record ContainerLayout : Type 0 where
  pub format_major : ℕ
  pub format_minor : ℕ
  pub flags : ℕ
  pub sections : List SectionRange

abbrev pub format_magic : Bytes
format_magic = 82 ∷ 65 ∷ 71 ∷ 68 ∷ 66 ∷ 0 ∷ 0 ∷ 0 ∷ []

abbrev pub header_size : ℕ
header_size = 28

abbrev pub entry_size : ℕ
entry_size = 20

abbrev pub trailer_size : ℕ
trailer_size = 4

abbrev pub damaged {ℓ} : {A : Type ℓ} → Bytes → Result A
damaged m = fail corrupt_index m

-- A read that answers false fails with the message.
abbrev pub or_fail {ℓ κ} : {A : Type ℓ} {B : Type κ} → Bytes → Option A → (A → Result B) → Result B
or_fail m none f = damaged m
or_fail m (some a) f = f a

-- The last four bytes; there are as many, since the size was checked.
unfoldable pub stored_crc : Bytes → ℕ
stored_crc bytes = elim (read_u 4 (drop (length bytes - trailer_size) bytes)) [
  | none ↦ 0
  | some (crc, rest) ↦ crc
]

unfoldable pub read_section : Bytes → Option (SectionRange × Bytes)
read_section input = elim (read_u 4 input) [
  | none ↦ none
  | some (tag, input₁) ↦ elim (read_u 8 input₁) [
    | none ↦ none
    | some (offset, input₂) ↦ elim (read_u 8 input₂) [
      | none ↦ none
      | some (size, input₃) ↦ some (record { tag = tag; offset = offset; length = size }, input₃)
    ]
  ]
]

-- `tags.insert(section.tag).second` is false.
unfoldable pub has_tag : ℕ → List ℕ → Bool
has_tag tag [] = false
has_tag tag (t ∷ tags) = t == tag || has_tag tag tags

abbrev pub cons_section : SectionRange → Result (List SectionRange) → Result (List SectionRange)
cons_section s (ok ss) = ok (s ∷ ss)
cons_section s (err e) = err e

-- The loop over the section table.
unfoldable pub read_sections : ℕ → List ℕ → Bytes → Result (List SectionRange)
read_sections zero tags input = ok []
read_sections (suc n) tags input = elim (read_section input) [
  | none ↦ damaged (ascii "section table")
  | some (s, rest) ↦
      if has_tag s.tag tags
      then damaged (ascii "duplicate section")
      else cons_section s (read_sections n (s.tag ∷ tags) rest)
]

-- The loop over the sorted sections.
unfoldable pub check_ranges : ℕ → ℕ → ℕ → List SectionRange → Result (Unit {0})
check_ranges from to previous [] = ok tt
check_ranges from to previous (s ∷ ss) =
    let rest = check_ranges from to (s.offset + s.length) ss in
    if ltb s.offset from || ltb to s.offset || ltb (to - s.offset) s.length
    then damaged (ascii "section out of bounds")
    else if ltb s.offset previous
    then damaged (ascii "overlapping sections")
    else rest

abbrev pub with_sections : ContainerLayout → Result (Unit {0}) → Result ContainerLayout
with_sections layout (ok _) = ok layout
with_sections layout (err e) = err e

module _ (sort : List SectionRange → List SectionRange) where
  unfoldable pub check_sections :
      Bytes → ℕ → ContainerLayout → Result (List SectionRange) → Result ContainerLayout
  check_sections bytes count layout (err e) = err e
  check_sections bytes count layout (ok sections) =
      let begin = header_size + entry_size * count in
      with_sections (record layout { sections = sort sections })
        (check_ranges begin (length bytes - trailer_size) begin (sort sections))

  -- Behind the magic: the versions, the flags, the count, the reserved word, the table.
  unfoldable pub read_layout : Bytes → Bytes → Result ContainerLayout
  read_layout bytes input = or_fail (ascii "version") (read_u 2 input) λ (major, input₁).
      or_fail (ascii "version") (read_u 2 input₁) λ (minor, input₂).
        if not (major == format_major)
        then damaged (
            ascii "unsupported format major "
            ++ (to_decimal major
                ++ (ascii " (reader supports " ++ (to_decimal format_major ++ ascii ")"))))
        else or_fail (ascii "header") (read_u 4 input₂) λ (flags, input₃).
          or_fail (ascii "header") (read_u 4 input₃) λ (count, input₄).
            or_fail (ascii "header") (read_u 8 input₄) λ (reserved, input₅).
              if ltb max_sections count
                || ltb ((length bytes - header_size - trailer_size) / entry_size) count
              then damaged (ascii "invalid section count")
              else check_sections bytes count
                  (record {
                    format_major = major;
                    format_minor = minor;
                    flags = flags;
                    sections = [];
                  })
                  (read_sections count [] input₅)

  unfoldable pub validate_container_layout : Bytes → Result ContainerLayout
  validate_container_layout bytes =
      if ltb (length bytes) (header_size + trailer_size)
      then damaged (ascii "too short")
      else if not (crc32 (take (length bytes - trailer_size) bytes) == stored_crc bytes)
      then damaged (ascii "crc mismatch")
      else or_fail (ascii "bad magic") (read_bytes 8 bytes) λ (magic, input).
        if not (key_eq magic format_magic)
        then damaged (ascii "bad magic")
        else read_layout bytes input
