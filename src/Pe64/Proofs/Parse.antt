-- ===== src/Pe64/Proofs/Parse.antt =====
-- About `_parse_headers`: what a parsed file has in its headers.
use linuxrecomp.Base.{
  ◌∙◌, ◌*◌, ap, ℕ, zero, suc, ◌+◌, ◌-◌, ◌≤◌, ◌≡◌, refl, min, List, [], ◌∷◌, arith, length,
}
use mathlib.Core.Path.{subst}
use linuxrecomp.Pe64.{Result, ok, err, ◌>>=◌, Section, Directory, PeImage}
use linuxrecomp.Pe64.Bytes.{u16_at, u32_at, u64_at, needs}
use linuxrecomp.Pe64.Headers.{
  parse_directories, parse_sections, parse_section, find_optional, parse_at, parse_headers,
}

-- A chain that returns has a first step that returns.
returns->>= {ℓ κ} :
    {A : Type ℓ} {B : Type κ} (rest : A → Result B) (step : Result A) {result : B}
    → (step >>= rest) ≡ ok result
    → (value : A) × (step ≡ ok value) × (rest value ≡ ok result)
returns->>= rest (err raised) returned = cc
returns->>= rest (ok value) returned = (value, refl, returned)

-- The layout of a section header of 40 bytes.
abbrev pub IsSectionAt : List ℕ → ℕ → Section → Type 0
IsSectionAt bytes at s =
    (at + 40 ≤ length bytes)
    × (s.virtual_size ≡ u32_at bytes (at + 8))
    × (s.rva ≡ u32_at bytes (at + 12))
    × (s.raw_size ≡ u32_at bytes (at + 16))
    × (s.raw_offset ≡ u32_at bytes (at + 20))
    × (s.characteristics ≡ u32_at bytes (at + 36))

-- The sections are those of the headers from `at` on, one behind the other.
abbrev pub SectionsAt : List ℕ → ℕ → List Section → Type 0
SectionsAt bytes at [] = Unit
SectionsAt bytes at (s ∷ ss) = IsSectionAt bytes at s × SectionsAt bytes (at + 40) ss

-- The directories are the pairs of an address and a size from `at` on, numbered from `index` on.
abbrev pub DirectoriesAt : List ℕ → ℕ → ℕ → List Directory → Type 0
DirectoriesAt bytes at index [] = Unit
DirectoriesAt bytes at index (d ∷ ds) =
    ((d.index ≡ index) × (d.rva ≡ u32_at bytes at) × (d.size ≡ u32_at bytes (at + 4)))
    × DirectoriesAt bytes (at + 8) (index + 1) ds

parse_directories_lem :
    (n index : ℕ) (bytes : List ℕ) (opt at : ℕ) (ds : List Directory)
    → at ≡ opt + 112 + index * 8
    → parse_directories n index bytes opt ≡ ok ds
    → (length ds ≡ n) × DirectoriesAt bytes at index ds
unfolding parse_directories needs
parse_directories_lem zero index bytes opt at ds e h = ground arith
parse_directories_lem (suc n) index bytes opt at [] e h = ground arith
parse_directories_lem (suc n) index bytes opt at (d ∷ ds) e h =
    ground (arith, parse_directories_lem n (index + 1) bytes opt (at + 8) ds)

parse_sections_lem :
    (n index : ℕ) (bytes : List ℕ) (table at : ℕ) (ss : List Section)
    → at ≡ table + index * 40
    → parse_sections n index bytes table ≡ ok ss
    → (length ss ≡ n) × SectionsAt bytes at ss
unfolding parse_sections parse_section
parse_sections_lem zero index bytes table at ss e h = ground arith
parse_sections_lem (suc n) index bytes table at [] e h = ground arith
parse_sections_lem (suc n) index bytes table at (s ∷ ss) e h =
    ground (arith, parse_sections_lem n (index + 1) bytes table (at + 40) ss)

-- Where the PE signature is.
abbrev pub pe_at : List ℕ → ℕ
pe_at bytes = u32_at bytes 0x3C

-- A parsed image is what its headers say: the signature and the magic of PE32+, a section at least, as
-- many as the file header counts, in the table behind the optional header, up to sixteen directories, as
-- many as the optional header counts, and its entry point, base and size.
pub record IsParsed (bytes : List ℕ) (img : PeImage) : Type 0 where
  pub same : img.bytes ≡ bytes
  pub signature : u32_at bytes (pe_at bytes) ≡ 0x4550
  pub magic : u16_at bytes (pe_at bytes + 24) ≡ 0x20B
  pub has_section : 1 ≤ u16_at bytes (pe_at bytes + 6)
  pub section_count : length img.sections ≡ u16_at bytes (pe_at bytes + 6)
  pub sections : SectionsAt bytes (pe_at bytes + 24 + u16_at bytes (pe_at bytes + 20)) img.sections
  pub directory_count : length img.directories ≡ min (u32_at bytes (pe_at bytes + 132)) 16
  pub directories : DirectoriesAt bytes (pe_at bytes + 136) 0 img.directories
  pub entrypoint : img.entrypoint_rva ≡ u32_at bytes (pe_at bytes + 40)
  pub base : img.image_base ≡ u64_at bytes (pe_at bytes + 48)
  pub image_size : img.size_of_image ≡ u32_at bytes (pe_at bytes + 80)

find_optional_lem :
    (bytes : List ℕ) (opt : ℕ)
    → find_optional bytes ≡ ok opt
    → (opt ≡ pe_at bytes + 24)
      × (u32_at bytes (pe_at bytes) ≡ 0x4550)
      × (u16_at bytes (pe_at bytes + 24) ≡ 0x20B)
unfolding find_optional needs
find_optional_lem bytes opt h = ground arith

-- What `parse_at` returns for the optional header of `bytes`.
abbrev AtOptional : List ℕ → ℕ → PeImage → Type 0
AtOptional bytes opt img =
    (img.bytes ≡ bytes)
    × (1 ≤ u16_at bytes (opt - 20 + 2))
    × (length img.sections ≡ u16_at bytes (opt - 20 + 2))
    × SectionsAt bytes (opt + u16_at bytes (opt - 20 + 16)) img.sections
    × (length img.directories ≡ min (u32_at bytes (opt + 108)) 16)
    × DirectoriesAt bytes (opt + 112) 0 img.directories
    × (img.entrypoint_rva ≡ u32_at bytes (opt + 16))
    × (img.image_base ≡ u64_at bytes (opt + 24))
    × (img.size_of_image ≡ u32_at bytes (opt + 56))

parse_at_lem :
    (bytes : List ℕ) (opt : ℕ) (img : PeImage)
    → parse_at bytes opt ≡ ok img
    → AtOptional bytes opt img
unfolding parse_at needs
parse_at_lem bytes opt img h = ground (
  arith,
  parse_directories_lem (min (u32_at bytes (opt + 108)) 16) 0 bytes opt (opt + 112) img.directories,
  parse_sections_lem (u16_at bytes (opt - 20 + 2)) 0 bytes (opt + u16_at bytes (opt - 20 + 16))
      (opt + u16_at bytes (opt - 20 + 16)) img.sections,
)

parsed :
    (bytes : List ℕ) (img : PeImage)
    → u32_at bytes (pe_at bytes) ≡ 0x4550
    → u16_at bytes (pe_at bytes + 24) ≡ 0x20B
    → AtOptional bytes (pe_at bytes + 24) img
    → IsParsed bytes img
parsed bytes img signature magic h =
    let (
      same, some_section, section_count, sections, directory_count, directories, entry, base, size,
    ) =
      h in
    let pe = pe_at bytes in
    let counted : u16_at bytes (pe + 24 - 20 + 2) ≡ u16_at bytes (pe + 6) =
      ap (u16_at bytes) (omega arith) in
    record {
      same = same;
      signature = signature;
      magic = magic;
      has_section = omega (arith, some_section, counted);
      section_count = section_count ∙ counted;
      sections =
          subst (λ (at : ℕ). SectionsAt bytes (pe + 24 + u16_at bytes at) img.sections)
            (omega arith) sections;
      directory_count = directory_count ∙ ap (λ (at : ℕ). min (u32_at bytes at) 16) (omega arith);
      directories =
          subst (λ (at : ℕ). DirectoriesAt bytes at 0 img.directories) (omega arith) directories;
      entrypoint = entry ∙ ap (u32_at bytes) (omega arith);
      base = base ∙ ap (u64_at bytes) (omega arith);
      image_size = size ∙ ap (u32_at bytes) (omega arith);
    }

-- Whatever file is parsed without an error is laid out as its headers say: at the offset that is stated
-- at 0x3C stand the signature, the counts of sections and directories, the entry point, the base and the
-- size; the sections are those of the table behind the optional header, in order and each inside the
-- file, and the directories are numbered in their order.
pub parse_headers-IsParsed :
    (bytes : List ℕ) (img : PeImage) → parse_headers bytes ≡ ok img → IsParsed bytes img
unfolding parse_headers
parse_headers-IsParsed bytes img h =
    let (opt, found, rest) = returns->>= (parse_at bytes) (find_optional bytes) h in
    let (at, signature, magic) = find_optional_lem bytes opt found in
    parsed bytes img signature magic
      (subst (λ (o : ℕ). AtOptional bytes o img) at (parse_at_lem bytes opt img rest))
