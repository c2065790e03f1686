-- ===== src/Pe64/Address.antt =====
-- Address translation and exact reads of `PE64Image`, and its directories and code ranges.
use linuxrecomp.Base.{
  ℕ, ◌+◌, ◌-◌, not, Option, none, some, List, [], ◌∷◌, if◌then◌else◌, leb, ltb, ◌==◌, length, slice,
  drop,
}
use linuxrecomp.Base.Int.{ℤ, pos, negsuc, sub_ℕ}
use linuxrecomp.Pe64.{
  Result, ok, err, va_outside, Section, Directory, PeImage, contains_rva, has_raw_data, is_code,
  end_rva,
}
use linuxrecomp.Pe64.Bytes.{until_nul}

-- `va` and `rva_of`
abbrev pub va_of : PeImage → ℕ → ℕ
va_of img rva = img.image_base + rva

abbrev pub rva_of : PeImage → ℕ → ℤ
rva_of img va = sub_ℕ va img.image_base

unfoldable pub find_section : List Section → ℕ → Option Section
find_section [] rva = none
find_section (s ∷ rest) rva = if contains_rva s rva then some s else find_section rest rva

-- `section_for_rva`
unfoldable pub section_for_rva : PeImage → ℕ → Option Section
section_for_rva img rva = find_section img.sections rva

-- The offset in one section.
unfoldable pub offset_in : List ℕ → Section → ℕ → ℕ → Option ℕ
offset_in bytes s rva size =
    let delta = rva - s.rva in
    if not (has_raw_data s)
    then none
    else if ltb s.raw_size (delta + size)
    then none
    else if ltb (length bytes) (s.raw_offset + delta + size)
    then none
    else some (s.raw_offset + delta)

-- `rva_to_offset`
unfoldable pub rva_to_offset : PeImage → ℕ → ℕ → Option ℕ
rva_to_offset img rva size = elim (section_for_rva img rva) [
  | none ↦ none
  | some s ↦ offset_in img.bytes s rva size
]

-- `read_rva`
unfoldable pub read_rva : PeImage → ℕ → ℕ → Option (List ℕ)
read_rva img rva size = elim (rva_to_offset img rva size) [
  | none ↦ none
  | some offset ↦ some (slice img.bytes offset (offset + size))
]

-- No section holds an RVA below zero.
unfoldable pub read_signed : PeImage → ℤ → ℕ → Option (List ℕ)
read_signed img (pos rva) size = read_rva img rva size
read_signed img (negsuc n) size = none

-- `read_va`
unfoldable pub read_va : PeImage → ℕ → ℕ → Option (List ℕ)
read_va img va size = read_signed img (rva_of img va) size

-- `read_cstring_rva` with its default limit.
unfoldable pub read_cstring_rva : PeImage → ℕ → Option (List ℕ)
read_cstring_rva img rva = elim (rva_to_offset img rva 1) [
  | none ↦ none
  | some offset ↦ until_nul 4096 (drop offset img.bytes)
]

unfoldable pub find_directory : List Directory → ℕ → Directory
find_directory [] index = record { index = index; rva = 0; size = 0 }
find_directory (d ∷ rest) index = if d.index == index then d else find_directory rest index

-- `directory`
unfoldable pub directory : PeImage → ℕ → Directory
unfolding find_directory
directory img index = find_directory img.directories index

unfoldable pub ranges_of : List Section → List (ℕ × ℕ)
ranges_of [] = []
ranges_of (s ∷ rest) = if is_code s then (s.rva, end_rva s) ∷ ranges_of rest else ranges_of rest

-- `code_ranges`
unfoldable pub code_ranges : PeImage → List (ℕ × ℕ)
unfolding ranges_of
code_ranges img = ranges_of img.sections

unfoldable pub in_image : PeImage → ℤ → Result ℕ
in_image img (pos rva) = if leb img.size_of_image rva then err va_outside else ok rva
in_image img (negsuc n) = err va_outside

-- `find_rva`
unfoldable pub find_rva : PeImage → ℕ → Result ℕ
unfolding in_image
find_rva img va = in_image img (rva_of img va)
