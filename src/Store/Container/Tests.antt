-- ===== src/Store/Container/Tests.antt =====
-- A container file of two sections, laid out by hand.
use llama_rag_runtime.Base.{◌≡◌, refl, List, [], ◌∷◌, ◌++◌}
use llama_rag_runtime.Core.Types.{Bytes, ok}
use llama_rag_runtime.Core.Map.{key_eq}
use llama_rag_runtime.Store.Crc.{crc32}
use llama_rag_runtime.Store.Format.{write_u, read_u, read_bytes}
use llama_rag_runtime.Store.Container.Layout.{
  SectionRange, ContainerLayout, format_magic, read_section, has_tag, read_sections, check_ranges,
  check_sections, read_layout, stored_crc, validate_container_layout,
}
use llama_rag_runtime.Store.Container.View.{
  ContainerView, mapped, open_view, get_raw, IsGiven, get_raw-Within,
}
use llama_rag_runtime.Store.Container.Sound.{IsSort, IsLaidOut, validate-IsLaidOut}

abbrev file_body : Bytes
file_body =
    format_magic
    ++ write_u 2 1
    ++ write_u 2 2
    ++ write_u 4 0
    ++ write_u 4 2
    ++ write_u 8 0
    ++ write_u 4 0x4154454D
    ++ write_u 8 68
    ++ write_u 8 2
    ++ write_u 4 0x53434F44
    ++ write_u 8 70
    ++ write_u 8 1
    ++ 123 ∷ 125 ∷ 7 ∷ []

abbrev file_bytes : Bytes
file_bytes = file_body ++ write_u 4 (crc32 file_body)

abbrev file_layout : ContainerLayout
file_layout = record {
  format_major = 1;
  format_minor = 2;
  flags = 0;
  sections =
      record { tag = 0x4154454D; offset = 68; length = 2 }
      ∷ record { tag = 0x53434F44; offset = 70; length = 1 }
      ∷ [];
}

-- The table stands in the order of the offsets already.
abbrev as_written : List SectionRange → List SectionRange
as_written ss = ss

as_written-IsSort : IsSort as_written
as_written-IsSort = record { keeps_length = λ ss. refl; keeps_tags = λ tag ss. refl }

file-valid : validate_container_layout as_written file_bytes ≡ ok file_layout
unfolding validate_container_layout read_layout check_sections check_ranges read_sections
    read_section has_tag stored_crc read_u read_bytes write_u crc32 key_eq
file-valid = refl

validate-IsLaidOut_example : IsLaidOut file_bytes file_layout
validate-IsLaidOut_example =
    validate-IsLaidOut as_written as_written-IsSort file_bytes file_layout file-valid

abbrev file_view : ContainerView
file_view = record {
  bytes = file_bytes;
  sections = file_layout.sections;
  flags = 0;
  major = 1;
  minor = 2;
}

view_opens : open_view as_written [] (mapped file_bytes) ≡ ok file_view
unfolding open_view validate_container_layout read_layout check_sections check_ranges read_sections
    read_section has_tag stored_crc read_u read_bytes write_u crc32 key_eq
view_opens = refl

get_raw-Within_example :
    (layout : ContainerLayout) × (validate_container_layout as_written file_bytes ≡ ok layout)
    × (file_layout.sections ≡ layout.sections)
    × IsGiven file_bytes file_layout.sections 0x53434F44 (get_raw 0x53434F44 file_view)
get_raw-Within_example =
    get_raw-Within as_written [] file_bytes file_view 0x53434F44 as_written-IsSort view_opens
