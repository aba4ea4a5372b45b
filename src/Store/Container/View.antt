-- ===== src/Store/Container/View.antt =====
-- rag.cpp/src/store/container_view.cpp: a container file mapped into memory, and its sections.
use llama_rag_runtime.Base.{
  ℕ, ◌+◌, ◌*◌, ◌-◌, ◌≤◌, ◌≡◌, refl, sym, ◌==◌, ==_iff, if◌then◌else◌, Option, none, some,
  Bool-cases, List, [], ◌∷◌, ◌++◌, length, take, drop, All, arith, inl, inr, ◌⊎◌, subst,
  length-take, length-drop,
}
use llama_rag_runtime.Core.Types.{Bytes, Result, ok, err, fail, ascii, io_error, corrupt_index}
use llama_rag_runtime.Store.Container.Layout.{
  SectionRange, ContainerLayout, trailer_size, header_size, entry_size, validate_container_layout,
}
use llama_rag_runtime.Store.Container.Sound.{IsSort, Within, IsLaidOut, validate-IsLaidOut}

-- `data_` and `size_` are `bytes`.
pub record ContainerView : Type 0 where
  pub bytes : Bytes
  pub sections : List SectionRange
  pub flags : ℕ
  pub major : ℕ
  pub minor : ℕ

-- The answers of `open`, `fstat` and `mmap`: the text of an error, and the file's content from where it
-- is known.
pub data FileMapping : Type 0 where
  open_failed stat_failed : Bytes → FileMapping
  map_failed : Bytes → Bytes → FileMapping
  mapped : Bytes → FileMapping

abbrev view_of : Bytes → Result ContainerLayout → Result ContainerView
view_of content (err e) = err e
view_of content (ok layout) = ok (record {
  bytes = content;
  sections = layout.sections;
  flags = layout.flags;
  major = layout.format_major;
  minor = layout.format_minor;
})

abbrev io_failure : Bytes → Bytes → Bytes → Result ContainerView
io_failure call path why = fail io_error (call ++ (path ++ (ascii ": " ++ why)))

abbrev if_sized : Bytes → Result ContainerView → Result ContainerView
if_sized content r =
    if length content == 0 then fail corrupt_index (ascii "invalid container file size") else r

unfoldable pub open_view :
    (List SectionRange → List SectionRange) → Bytes → FileMapping → Result ContainerView
open_view sort path (open_failed why) = io_failure (ascii "open ") path why
open_view sort path (stat_failed why) = io_failure (ascii "stat ") path why
open_view sort path (map_failed content why) = if_sized content (io_failure (ascii "map ") path why)
open_view sort path (mapped content) =
    if_sized content (view_of content (validate_container_layout sort content))

unfoldable pub find_section : ℕ → List SectionRange → Option SectionRange
find_section tag [] = none
find_section tag (s ∷ ss) = if s.tag == tag then some s else find_section tag ss

unfoldable pub get_raw : ℕ → ContainerView → Option Bytes
get_raw tag view = elim (find_section tag view.sections) [
  | none ↦ none
  | some s ↦ some (take s.length (drop s.offset view.bytes))
]

-- An entry of a section table.
abbrev pub IsEntry : SectionRange → List SectionRange → Type 0
IsEntry s [] = ⊥
IsEntry s (r ∷ rs) = (s ≡ r) ⊎ IsEntry s rs

find_section-IsEntry :
    (tag : ℕ) (ss : List SectionRange) (s : SectionRange)
    → find_section tag ss ≡ some s
    → (s.tag ≡ tag) × IsEntry s ss
unfolding find_section
find_section-IsEntry tag [] s e = cc
find_section-IsEntry tag (r ∷ rs) s e = elim (Bool-cases (r.tag == tag)) [
  | inl same ↦
      let here : s ≡ r = ground (arith, e, same) in
      (ground (arith, here, same, ==_iff r.tag tag), inl here)
  | inr other ↦
      let (tagged, there) = find_section-IsEntry tag rs s (ground (arith, e, other)) in
      (tagged, inr there)
]

-- A tag that is not found has no entry.
find_section-none :
    (tag : ℕ) (ss : List SectionRange)
    → find_section tag ss ≡ none
    → (s : SectionRange) → IsEntry s ss
    → s.tag ≡ tag
    → ⊥
unfolding find_section
find_section-none tag [] e s there same = there
find_section-none tag (r ∷ rs) e s (inl here) same = ground (arith, e, here, same, ==_iff r.tag tag)
find_section-none tag (r ∷ rs) e s (inr there) same =
    find_section-none tag rs (ground (arith, e, same, ==_iff r.tag tag)) s there same

IsEntry-Within :
    (from to : ℕ) (ss : List SectionRange) (s : SectionRange)
    → All (Within from to) ss
    → IsEntry s ss
    → Within from to s
IsEntry-Within from to [] s h there = absurd there
IsEntry-Within from to (r ∷ rs) s h (inl here) = subst (Within from to) (sym here) h.0
IsEntry-Within from to (r ∷ rs) s h (inr there) = IsEntry-Within from to rs s h.1 there

view_of_ok :
    (content : Bytes) (r : Result ContainerLayout) (view : ContainerView)
    → view_of content r ≡ ok view
    → (layout : ContainerLayout) × (r ≡ ok layout)
      × (view.bytes ≡ content)
      × (view.sections ≡ layout.sections)
view_of_ok content (err e) view h = cc
view_of_ok content (ok layout) view h = (layout, refl, ground (arith, h), ground (arith, h))

if_sized_ok :
    (content : Bytes) (r : Result ContainerView) (view : ContainerView)
    → if_sized content r ≡ ok view
    → r ≡ ok view
if_sized_ok content r view h = ground (arith, h)

-- What a view gives out for a tag: the bytes of the entry with this tag, which lies whole within the
-- file before its trailer, or nothing where no entry has it.
abbrev pub IsGiven : Bytes → List SectionRange → ℕ → Option Bytes → Type 0
IsGiven content table tag none = (s : SectionRange) → IsEntry s table → s.tag ≡ tag → ⊥
IsGiven content table tag (some slice) =
    (s : SectionRange) × IsEntry s table
    × (s.tag ≡ tag)
    × (s.offset + s.length ≤ length content - trailer_size)
    × (slice ≡ take s.length (drop s.offset content))
    × (length slice ≡ s.length)

get_raw-IsGiven :
    (content : Bytes) (view : ContainerView) (from tag : ℕ)
    → view.bytes ≡ content
    → All (Within from (length content - trailer_size)) view.sections
    → IsGiven content view.sections tag (get_raw tag view)
unfolding get_raw
get_raw-IsGiven content view from tag same within = go (find_section tag view.sections) refl
  where
    go :
        (o : Option SectionRange)
        → find_section tag view.sections ≡ o
        → IsGiven content view.sections tag
            (elim o [ none ↦ none | some s ↦ some (take s.length (drop s.offset view.bytes)) ])
    go none missing = find_section-none tag view.sections missing
    go (some s) there =
        let (tagged, entry) = find_section-IsEntry tag view.sections s there in
        let inside = IsEntry-Within from _ view.sections s within entry in
        (
          s,
          entry,
          tagged,
          inside.1,
          rw same refl,
          rw same (
              omega (
                arith,
                inside,
                length-take s.length (drop s.offset content),
                length-drop s.offset content,
              )),
        )

-- A view of a file has the table of the layout that the file is valid with. For a tag it gives out the
-- bytes of the table's entry with this tag, which lies whole within the file before its trailer and is
-- as long as its entry says; it gives out nothing only if no entry has the tag. Sorting keeps the
-- number of sections and of each tag.
pub get_raw-Within :
    (sort : List SectionRange → List SectionRange) (path content : Bytes) (view : ContainerView)
    (tag : ℕ)
    → IsSort sort
    → open_view sort path (mapped content) ≡ ok view
    → (layout : ContainerLayout) × (validate_container_layout sort content ≡ ok layout)
      × (view.sections ≡ layout.sections)
      × IsGiven content view.sections tag (get_raw tag view)
unfolding open_view
get_raw-Within sort path content view tag sorts opened =
    let (layout, valid, same, sections) =
      view_of_ok content _ view (if_sized_ok content _ view opened) in
    let laid : IsLaidOut content layout = validate-IsLaidOut sort sorts content layout valid in
    (
      layout,
      valid,
      sections,
      get_raw-IsGiven content view (header_size + entry_size * length layout.sections) tag same (
          subst
            (All (
              Within (header_size + entry_size * length layout.sections)
                (length content - trailer_size)))
            (sym sections) laid.within),
    )
