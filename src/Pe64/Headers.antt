-- ===== src/Pe64/Headers.antt =====
-- `PE64Image._parse_headers`.
use linuxrecomp.Base.{
  ℕ, zero, suc, ◌+◌, ◌-◌, ◌*◌, min, not, ◌&&◌, List, [], ◌∷◌, leb, ltb, ◌==◌, length, slice, get_or,
}
use linuxrecomp.Pe64.{
  Result, ok, guard, ◌>>=◌, ◌>>◌, no_mz, no_signature, is_pe32, unknown_magic,
  short_optional_header, section_past_end, no_sections, index_error, Section, Directory, PeImage,
}
use linuxrecomp.Pe64.Bytes.{u16_at, u32_at, u64_at, needs, before_nul}

-- The loop over the data directories: `n` are left, from `index` on.
unfoldable pub parse_directories : ℕ → ℕ → List ℕ → ℕ → Result (List Directory)
parse_directories zero index bytes opt = ok []
parse_directories (suc n) index bytes opt = do
  let at = opt + 112 + index * 8
  needs bytes at 8
  rest ← parse_directories n (index + 1) bytes opt
  ok (record { index = index; rva = u32_at bytes at; size = u32_at bytes (at + 4) } ∷ rest)

-- One section header of 40 bytes.
unfoldable pub parse_section : List ℕ → ℕ → Section
parse_section bytes off = record {
  name = before_nul (slice bytes off (off + 8));
  rva = u32_at bytes (off + 12);
  virtual_size = u32_at bytes (off + 8);
  raw_offset = u32_at bytes (off + 20);
  raw_size = u32_at bytes (off + 16);
  characteristics = u32_at bytes (off + 36);
}

unfoldable pub parse_sections : ℕ → ℕ → List ℕ → ℕ → Result (List Section)
parse_sections zero index bytes table = ok []
parse_sections (suc n) index bytes table = do
  let off = table + index * 40
  guard (leb (off + 40) (length bytes)) section_past_end
  rest ← parse_sections n (index + 1) bytes table
  ok (parse_section bytes off ∷ rest)

-- The signatures and the magic: the offset of the optional header.
unfoldable pub find_optional : List ℕ → Result ℕ
find_optional bytes = do
  guard (leb 0x40 (length bytes) && (get_or bytes 0 0 == 0x4D && get_or bytes 1 0 == 0x5A)) no_mz
  let pe_offset = u32_at bytes 0x3C
  guard (leb (pe_offset + 24) (length bytes) && u32_at bytes pe_offset == 0x00004550) no_signature
  let opt = pe_offset + 24
  needs bytes opt 2
  let magic = u16_at bytes opt
  guard (not (magic == 0x10B)) is_pe32
  guard (magic == 0x20B) unknown_magic
  ok opt

-- The rest of `_parse_headers`, from the optional header on.
unfoldable pub parse_at : List ℕ → ℕ → Result PeImage
parse_at bytes opt = do
  let coff = opt - 20
  let opt_header_size = u16_at bytes (coff + 16)
  guard (ltb (opt + 3) (length bytes)) index_error
  needs bytes (opt + 4) 28
  needs bytes (opt + 32) 40
  needs bytes (opt + 72) 40
  let num_directories = u32_at bytes (opt + 108)
  directories ← parse_directories (min num_directories 16) 0 bytes opt
  guard (leb (112 + min num_directories 16 * 8) opt_header_size) short_optional_header
  sections ← parse_sections (u16_at bytes (coff + 2)) 0 bytes (opt + opt_header_size)
  guard (ltb 0 (length sections)) no_sections
  ok (record {
    bytes = bytes;
    machine = u16_at bytes coff;
    num_sections = u16_at bytes (coff + 2);
    timestamp = u32_at bytes (coff + 4);
    characteristics = u16_at bytes (coff + 18);
    linker_version = (get_or bytes (opt + 2) 0, get_or bytes (opt + 3) 0);
    size_of_code = u32_at bytes (opt + 4);
    size_of_initialized_data = u32_at bytes (opt + 8);
    size_of_uninitialized_data = u32_at bytes (opt + 12);
    entrypoint_rva = u32_at bytes (opt + 16);
    base_of_code = u32_at bytes (opt + 20);
    image_base = u64_at bytes (opt + 24);
    section_alignment = u32_at bytes (opt + 32);
    file_alignment = u32_at bytes (opt + 36);
    size_of_image = u32_at bytes (opt + 56);
    size_of_headers = u32_at bytes (opt + 60);
    checksum = u32_at bytes (opt + 64);
    subsystem = u16_at bytes (opt + 68);
    dll_characteristics = u16_at bytes (opt + 70);
    size_of_stack_reserve = u64_at bytes (opt + 72);
    size_of_stack_commit = u64_at bytes (opt + 80);
    size_of_heap_reserve = u64_at bytes (opt + 88);
    size_of_heap_commit = u64_at bytes (opt + 96);
    loader_flags = u32_at bytes (opt + 104);
    num_directories = num_directories;
    directories = directories;
    sections = sections;
  })

-- `PE64Image(data)`
unfoldable pub parse_headers : List ℕ → Result PeImage
parse_headers bytes = do opt ← find_optional bytes; parse_at bytes opt
