-- ===== src/Store/Container/Sound.antt =====
-- What the callers of `validate_container_layout` rely on: the ranges that they cut out of the file.
use llama_rag_runtime.Base.{
  ℕ, zero, suc, ◌+◌, ◌-◌, ◌*◌, ◌/◌, ◌≤◌, ◌≡◌, refl, ◌==◌, ==_iff, Bool, true, false, not, ◌||◌, ltb,
  if◌then◌else◌, Option, none, some, Option-cases, Bool-cases, List, [], ◌∷◌, length, take, All,
  arith, inl, inr,
}
use llama_rag_runtime.Core.Types.{Bytes, Result, ok, err, Result-cases}
use llama_rag_runtime.Core.Map.{key_eq}
use llama_rag_runtime.Store.Format.{read_u, read_bytes, format_major, max_sections}
use llama_rag_runtime.Store.Crc.{crc32}
use llama_rag_runtime.Store.Container.Layout.{
  SectionRange, ContainerLayout, header_size, entry_size, trailer_size, damaged, or_fail,
  format_magic, stored_crc, read_section, has_tag, read_sections, cons_section, check_ranges,
  check_sections, with_sections, read_layout, validate_container_layout,
}

-- A section lies between two offsets.
abbrev pub Within : ℕ → ℕ → SectionRange → Type 0
Within from to s = (from ≤ s.offset) × (s.offset + s.length ≤ to)

-- Every section ends before those behind it begin.
abbrev pub Apart : List SectionRange → Type 0
Apart [] = Unit
Apart (s ∷ ss) = All (λ t. s.offset + s.length ≤ t.offset) ss × Apart ss

abbrev pub count_tag : ℕ → List SectionRange → ℕ
count_tag tag [] = 0
count_tag tag (s ∷ ss) = if s.tag == tag then 1 + count_tag tag ss else count_tag tag ss

-- What `std::sort` does of a list of any sections.
pub record IsSort (sort : List SectionRange → List SectionRange) : Type 0 where
  pub keeps_length : (ss : List SectionRange) → length (sort ss) ≡ length ss
  pub keeps_tags : (tag : ℕ) (ss : List SectionRange) → count_tag tag (sort ss) ≡ count_tag tag ss

All-later :
    (low high : ℕ) (ss : List SectionRange)
    → low ≤ high
    → All (λ t. high ≤ t.offset) ss
    → All (λ t. low ≤ t.offset) ss
All-later low high [] h a = tt
All-later low high (s ∷ ss) h a = (omega (arith, a.0), All-later low high ss h a.1)

check_ranges-Apart :
    (from to previous : ℕ) (ss : List SectionRange)
    → check_ranges from to previous ss ≡ ok tt
    → All (Within from to) ss × All (λ t. previous ≤ t.offset) ss × Apart ss
unfolding check_ranges
check_ranges-Apart from to previous [] h = (tt, tt, tt)
check_ranges-Apart from to previous (s ∷ ss) h =
    let fits : (from ≤ s.offset) × (s.offset + s.length ≤ to) × (previous ≤ s.offset) =
      ground arith in
    let rest : check_ranges from to (s.offset + s.length) ss ≡ ok tt = ground arith in
    let (within, behind, apart) = check_ranges-Apart from to (s.offset + s.length) ss rest in
    (
      ((fits.0, fits.1), within),
      (fits.2, All-later previous (s.offset + s.length) ss (omega (arith, fits)) behind),
      (behind, apart),
    )

or_fail_ok {ℓ κ} :
    {A : Type ℓ} {B : Type κ} (m : Bytes) (o : Option A) (f : A → Result B) {b : B}
    → or_fail m o f ≡ ok b
    → (a : A) × (o ≡ some a) × (f a ≡ ok b)
or_fail_ok m (some a) f h = (a, refl, h)
or_fail_ok m none f h = cc

-- A guard that fails when its test is true.
guard_ok {ℓ} :
    {A : Type ℓ} (test : Bool) (m : Bytes) (r : Result A) {b : A}
    → (if test then damaged m else r) ≡ ok b
    → (test ≡ false) × (r ≡ ok b)
guard_ok true m r h = cc
guard_ok false m r h = (refl, h)

cons_section_ok :
    (s : SectionRange) (r : Result (List SectionRange)) {out : List SectionRange}
    → cons_section s r ≡ ok out
    → (ss : List SectionRange) × (r ≡ ok ss) × (out ≡ s ∷ ss)
cons_section_ok s (ok ss) h = (ss, refl, cc)
cons_section_ok s (err e) h = cc

-- The table that was read has as many entries as announced, no tag twice and none of those before.
read_sections-tags :
    (n : ℕ) (tags : List ℕ) (input : Bytes) (out : List SectionRange)
    → read_sections n tags input ≡ ok out
    → (length out ≡ n)
      × ((tag : ℕ) → (count_tag tag out ≤ 1) × (has_tag tag tags ≡ true → count_tag tag out ≡ 0))
unfolding read_sections has_tag
read_sections-tags zero tags input out h = (ground arith, λ tag. ground arith)
read_sections-tags (suc n) tags input out h = elim (Option-cases (read_section input)) [
  | inl missing ↦ cc (rw (missing, read_sections) at h)
  | inr ((s, rest), there) ↦ elim (Bool-cases (has_tag s.tag tags)) [
    | inl again ↦ absurd (ground (arith, h, there, again))
    | inr fresh ↦
        let more : cons_section s (read_sections n (s.tag ∷ tags) rest) ≡ ok out =
          ground (arith, h, there, fresh) in
        let (ss, read, whole) = cons_section_ok s (read_sections n (s.tag ∷ tags) rest) more in
        let (size, unique) = read_sections-tags n (s.tag ∷ tags) rest ss read in
        (ground (arith, size, whole), λ tag. ground (arith, whole, unique tag, fresh))
  ]
]

-- What a valid file announces: its sections lie behind the table and before the trailer, in the order of
-- their offsets and without overlap; no tag stands twice.
pub record IsLaidOut (bytes : Bytes) (layout : ContainerLayout) : Type 0 where
  pub whole : crc32 (take (length bytes - trailer_size) bytes) ≡ stored_crc bytes
  pub known_major : layout.format_major ≡ format_major
  pub few : length layout.sections ≤ max_sections
  pub within :
      All
        (Within (header_size + entry_size * length layout.sections) (length bytes - trailer_size))
        layout.sections
  pub apart : Apart layout.sections
  pub unique : (tag : ℕ) → count_tag tag layout.sections ≤ 1

module _ (sort : List SectionRange → List SectionRange) (sorts : IsSort sort) where
  check_sections-IsLaidOut :
      (bytes : Bytes) (count : ℕ) (base layout : ContainerLayout) (input : Bytes)
      → crc32 (take (length bytes - trailer_size) bytes) ≡ stored_crc bytes
      → base.format_major ≡ format_major
      → count ≤ max_sections
      → check_sections sort bytes count base (read_sections count [] input) ≡ ok layout
      → IsLaidOut bytes layout
  unfolding check_sections has_tag
  check_sections-IsLaidOut bytes count base layout input crc major few h =
      elim (Result-cases (read_sections count [] input)) [
        | inr (e, bad) ↦ cc (rw (bad, check_sections) at h)
        | inl (ss, good) ↦ go ss good (rw (good, check_sections) at h)
      ]
    where
      begin : ℕ
      begin = header_size + entry_size * count

      made :
          (ss : List SectionRange)
          → read_sections count [] input ≡ ok ss
          → check_ranges begin (length bytes - trailer_size) begin (sort ss) ≡ ok tt
          → layout ≡ record base { sections = sort ss }
          → IsLaidOut bytes layout
      made ss good ranges same =
          let (within, behind, apart) =
            check_ranges-Apart begin (length bytes - trailer_size) begin (sort ss) ranges in
          let (size, unique) = read_sections-tags count [] input ss good in
          rw same (record {
            whole = crc;
            known_major = major;
            few = omega (arith, sorts.keeps_length ss);
            within = rw (sorts.keeps_length ss, size) within;
            apart = apart;
            unique = λ tag. omega (arith, sorts.keeps_tags tag ss, (unique tag).0);
          })

      go :
          (ss : List SectionRange)
          → read_sections count [] input ≡ ok ss
          → with_sections
              (record base { sections = sort ss })
              (check_ranges begin (length bytes - trailer_size) begin (sort ss))
            ≡ ok layout
          → IsLaidOut bytes layout
      go ss good h =
          elim (Result-cases (check_ranges begin (length bytes - trailer_size) begin (sort ss))) [
            | inl (_, fine) ↦ made ss good fine (ground (arith, h, fine))
            | inr (e, bad) ↦ absurd (ground (arith, h, bad))
          ]

  read_layout-IsLaidOut :
      (bytes input : Bytes) (layout : ContainerLayout)
      → crc32 (take (length bytes - trailer_size) bytes) ≡ stored_crc bytes
      → read_layout sort bytes input ≡ ok layout
      → IsLaidOut bytes layout
  unfolding read_layout
  read_layout-IsLaidOut bytes input layout crc h =
      let ((major, i₁), _, h₁) = or_fail_ok _ (read_u 2 input) _ h in
      let ((minor, i₂), _, h₂) = or_fail_ok _ (read_u 2 i₁) _ h₁ in
      let (major_known, h_known) = guard_ok (not (major == format_major)) _ _ h₂ in
      let ((flags, i₃), _, h₃) = or_fail_ok _ (read_u 4 i₂) _ h_known in
      let ((count, i₄), _, h₄) = or_fail_ok _ (read_u 4 i₃) _ h₃ in
      let ((reserved, i₅), _, h₅) = or_fail_ok _ (read_u 8 i₄) _ h₄ in
      let (few, h_few) =
        guard_ok
          (ltb max_sections count
            || ltb ((length bytes - header_size - trailer_size) / entry_size) count)
          _ _ h₅ in
      check_sections-IsLaidOut bytes count _ layout i₅ crc
        (ground (arith, major_known, ==_iff major format_major)) (ground (arith, few)) h_few

  -- A file that is accepted has the checksum that its trailer says and the major version of the reader;
  -- its sections, 64 at most, lie behind the table and before the trailer, in the order of their
  -- offsets and without overlap; no tag stands twice. Sorting keeps the number of sections and of each tag.
  pub validate-IsLaidOut :
      (bytes : Bytes) (layout : ContainerLayout)
      → validate_container_layout sort bytes ≡ ok layout
      → IsLaidOut bytes layout
  unfolding validate_container_layout
  validate-IsLaidOut bytes layout h =
      let (long, h₁) = guard_ok (ltb (length bytes) (header_size + trailer_size)) _ _ h in
      let (same, h₂) =
        guard_ok (not (crc32 (take (length bytes - trailer_size) bytes) == stored_crc bytes)) _ _
          h₁ in
      let ((magic, input), _, h₃) = or_fail_ok _ (read_bytes 8 bytes) _ h₂ in
      let (good, h₄) = guard_ok (not (key_eq magic format_magic)) _ _ h₃ in
      read_layout-IsLaidOut bytes input layout
        (ground (
          arith,
          same,
          ==_iff (crc32 (take (length bytes - trailer_size) bytes)) (stored_crc bytes),
        ))
        h₄
