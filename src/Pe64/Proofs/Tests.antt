-- ===== src/Pe64/Proofs/Tests.antt =====
-- Runs of the reader on the small image.
use linuxrecomp.Base.{
  zero, suc, ◌<◌, ◌*◌, ◌↔◌, ℕ, ◌+◌, ◌≡◌, refl, Bool, true, ◌&&◌, none, some, List, [], ◌∷◌, arith,
  ltb, slice, All, length, take,
}
use linuxrecomp.Pe64.{PeImage, Section, Result, ok, err, struct_error, index_error}
use linuxrecomp.Pe64.Sample.{sample_image, sample_bytes, header_bytes}
use linuxrecomp.Pe64.Bytes.{IsByte, u32_at}
use linuxrecomp.Pe64.Address.{read_rva, rva_to_offset, find_rva}
use linuxrecomp.Pe64.Headers.{parse_headers, find_optional}
use linuxrecomp.Pe64.Exports.{exports}
use linuxrecomp.Pe64.Relocations.{relocations}
use linuxrecomp.Pe64.Exceptions.{UnwindInfo}
use linuxrecomp.Pe64.Proofs.Reads.{Backs, read_rva_exact}
use linuxrecomp.Pe64.Proofs.Translation.{Translates, rva_to_offset_iff}
use linuxrecomp.Pe64.Proofs.Ordinals.{by_ordinal, exports-by_ordinal}
use linuxrecomp.Pe64.Proofs.Unwind.{IsUnwind, unwind_info-IsUnwind}
use linuxrecomp.Pe64.Proofs.Parse.{IsParsed, parse_headers-IsParsed}

unfoldable all_bytes : List ℕ → Bool
all_bytes [] = true
all_bytes (b ∷ bs) = ltb b 256 && all_bytes bs

all_bytes_sound : (bs : List ℕ) → all_bytes bs ≡ true → All IsByte bs
unfolding all_bytes
all_bytes_sound [] h = tt
all_bytes_sound (b ∷ bs) h = (ground arith, all_bytes_sound bs (ground arith))

sample_is_bytes : All IsByte sample_bytes
unfolding all_bytes
sample_is_bytes = all_bytes_sound sample_bytes refl

abbrev four : List ℕ
four = 1 ∷ 0 ∷ 0 ∷ 0 ∷ []

read_rva_exact_example :
    (length four ≡ 4)
    × (s : Section) × (offset : ℕ) × Backs sample_image 0x2030 4 offset s
    × (four ≡ slice sample_bytes offset (offset + 4))
unfolding linuxrecomp.Pe64.Address.read_rva linuxrecomp.Pe64.Address.rva_to_offset
    linuxrecomp.Pe64.Address.section_for_rva linuxrecomp.Pe64.Address.find_section
    linuxrecomp.Pe64.contains_rva linuxrecomp.Pe64.Address.offset_in linuxrecomp.Pe64.has_raw_data
    linuxrecomp.Pe64.end_rva linuxrecomp.Pe64.mapped_size
read_rva_exact_example = read_rva_exact sample_image 0x2030 4 four refl

rva_to_offset_iff_example :
    (rva_to_offset sample_image 0x2030 4 ≡ some 0x30)
    ↔ (s : Section) × Translates sample_image 0x2030 4 0x30 s
rva_to_offset_iff_example = rva_to_offset_iff sample_image 0x2030 4 0x30

-- The directory of the sample: ordinals from 1 on, two addresses at 0x2078.
abbrev export_header : List ℕ
export_header = slice sample_bytes 0x50 0x78

first_readable :
    (i : ℕ)
    → i < 1
    → (entry : List ℕ) × (read_rva sample_image (u32_at export_header 28 + 4 * i) 4 ≡ some entry)
unfolding read_rva rva_to_offset linuxrecomp.Pe64.Address.section_for_rva
    linuxrecomp.Pe64.Address.find_section linuxrecomp.Pe64.contains_rva
    linuxrecomp.Pe64.Address.offset_in linuxrecomp.Pe64.has_raw_data linuxrecomp.Pe64.end_rva
    linuxrecomp.Pe64.mapped_size linuxrecomp.Pe64.Bytes.field linuxrecomp.Pe64.Bytes.le_value
first_readable zero h = (0x48 ∷ 0x10 ∷ 0 ∷ 0 ∷ [], refl)
first_readable (suc i) h = absurd (omega arith)

exports-by_ordinal_example : by_ordinal (exports sample_image) 2 ≡ some 0x1060
unfolding read_rva rva_to_offset linuxrecomp.Pe64.Address.section_for_rva
    linuxrecomp.Pe64.Address.find_section linuxrecomp.Pe64.contains_rva
    linuxrecomp.Pe64.Address.offset_in linuxrecomp.Pe64.has_raw_data linuxrecomp.Pe64.end_rva
    linuxrecomp.Pe64.mapped_size linuxrecomp.Pe64.Bytes.field linuxrecomp.Pe64.Bytes.le_value
    linuxrecomp.Pe64.Address.directory linuxrecomp.Pe64.Address.find_directory
    linuxrecomp.Pe64.present linuxrecomp.Pe64.Imports.import_scan_limit
exports-by_ordinal_example =
    exports-by_ordinal sample_image export_header 1 (0x60 ∷ 0x10 ∷ 0 ∷ 0 ∷ []) refl refl
      (omega arith) first_readable refl

abbrev chained_record : UnwindInfo
chained_record = record {
  version = 1;
  flags = 4;
  prolog_size = 0;
  code_slots = 0;
  frame_register = 0;
  frame_offset = 0;
  handler_rva = none;
  chained_begin_rva = some 0x1000;
}

unwind_info-IsUnwind_example : IsUnwind sample_image 0x2034 chained_record
unfolding linuxrecomp.Pe64.Address.read_rva linuxrecomp.Pe64.Address.rva_to_offset
    linuxrecomp.Pe64.Address.section_for_rva linuxrecomp.Pe64.Address.find_section
    linuxrecomp.Pe64.contains_rva linuxrecomp.Pe64.Address.offset_in linuxrecomp.Pe64.has_raw_data
    linuxrecomp.Pe64.end_rva linuxrecomp.Pe64.mapped_size linuxrecomp.Pe64.Exceptions.unwind_info
    linuxrecomp.Pe64.Exceptions.unwind_of linuxrecomp.Pe64.Exceptions.optional_field
    linuxrecomp.Pe64.Bytes.field linuxrecomp.Pe64.Bytes.le_value
unwind_info-IsUnwind_example =
    unwind_info-IsUnwind sample_image 0x2034 chained_record sample_is_bytes refl

abbrev image_of : Result PeImage → PeImage
image_of (ok img) = img
image_of (err e) = sample_image

abbrev parsed_image : PeImage
parsed_image = image_of (parse_headers header_bytes)

parse_headers-IsParsed_example : IsParsed header_bytes parsed_image
unfolding parse_headers find_optional linuxrecomp.Pe64.Bytes.field linuxrecomp.Pe64.Bytes.le_value
    linuxrecomp.Pe64.Bytes.needs linuxrecomp.Pe64.Headers.parse_at
    linuxrecomp.Pe64.Headers.parse_directories linuxrecomp.Pe64.Headers.parse_sections
parse_headers-IsParsed_example = parse_headers-IsParsed header_bytes parsed_image refl

-- A file that ends in the fixed part of the optional header: neither error is PEFormatError.
truncated : parse_headers (take 150 header_bytes) ≡ err struct_error
unfolding parse_headers find_optional linuxrecomp.Pe64.Bytes.field linuxrecomp.Pe64.Bytes.le_value
    linuxrecomp.Pe64.Bytes.needs linuxrecomp.Pe64.Headers.parse_at
truncated = refl

truncated_at_linker : parse_headers (take 90 header_bytes) ≡ err index_error
unfolding parse_headers find_optional linuxrecomp.Pe64.Bytes.field linuxrecomp.Pe64.Bytes.le_value
    linuxrecomp.Pe64.Bytes.needs linuxrecomp.Pe64.Headers.parse_at
truncated_at_linker = refl

-- A block whose size is below 8 ends the table without an error.
broken_block :
    relocations
      (record sample_image { directories = record { index = 5; rva = 0x2034; size = 12 } ∷ [] })
    ≡ some []
unfolding relocations linuxrecomp.Pe64.Relocations.blocks_from
    linuxrecomp.Pe64.Relocations.relocation_block linuxrecomp.Pe64.Relocations.block_of
    linuxrecomp.Pe64.Relocations.entries_from linuxrecomp.Pe64.Relocations.relocation_scan_limit
    linuxrecomp.Pe64.Address.directory linuxrecomp.Pe64.Address.find_directory
    linuxrecomp.Pe64.present read_rva rva_to_offset linuxrecomp.Pe64.Address.section_for_rva
    linuxrecomp.Pe64.Address.find_section linuxrecomp.Pe64.contains_rva
    linuxrecomp.Pe64.Address.offset_in linuxrecomp.Pe64.has_raw_data linuxrecomp.Pe64.end_rva
    linuxrecomp.Pe64.mapped_size linuxrecomp.Pe64.Bytes.field linuxrecomp.Pe64.Bytes.le_value
broken_block = refl
