-- ===== src/Pe64/Sample.antt =====
-- A small image for the runs of the reader and of its clients: one section without raw data that is
-- code, and one with the tables.
use linuxrecomp.Base.{ℕ, zero, suc, List, [], ◌∷◌, ◌++◌}
use linuxrecomp.Pe64.{PeImage, Section}

abbrev pub zeros : ℕ → List ℕ
zeros zero = []
zeros (suc n) = 0 ∷ zeros n

-- Three entries: the second continues the first.
abbrev exception_table : List ℕ
exception_table =
    0x00 ∷ 0x10 ∷ 0 ∷ 0 ∷ 0x10 ∷ 0x10 ∷ 0 ∷ 0 ∷ 0x30 ∷ 0x20 ∷ 0 ∷ 0 ∷ 0x10 ∷ 0x10 ∷ 0 ∷ 0 ∷ 0x20
    ∷ 0x10 ∷ 0 ∷ 0 ∷ 0x34 ∷ 0x20 ∷ 0 ∷ 0 ∷ 0x40 ∷ 0x10 ∷ 0 ∷ 0 ∷ 0x50 ∷ 0x10 ∷ 0 ∷ 0 ∷ 0x30 ∷ 0x20
    ∷ 0 ∷ 0 ∷ []

-- A plain unwind record, and a chained one with the entry that it continues.
abbrev unwind_records : List ℕ
unwind_records =
    1 ∷ 0 ∷ 0 ∷ 0 ∷ 0x21 ∷ 0 ∷ 0 ∷ 0 ∷ 0x00 ∷ 0x10 ∷ 0 ∷ 0 ∷ 0x10 ∷ 0x10 ∷ 0 ∷ 0 ∷ 0x30 ∷ 0x20 ∷ 0
    ∷ 0 ∷ []

-- One block: a relocation of type 10 and padding.
abbrev relocation_table : List ℕ
relocation_table = 0x00 ∷ 0x10 ∷ 0 ∷ 0 ∷ 12 ∷ 0 ∷ 0 ∷ 0 ∷ 0x04 ∷ 0xA0 ∷ 0 ∷ 0 ∷ []

-- Two exports by ordinal: one inside the third range, one outside all of them.
abbrev export_table : List ℕ
export_table =
    zeros 16
    ++ (1 ∷ 0 ∷ 0 ∷ 0 ∷ 2 ∷ 0 ∷ 0 ∷ 0 ∷ 0 ∷ 0 ∷ 0 ∷ 0 ∷ 0x78 ∷ 0x20 ∷ 0 ∷ 0 ∷ [])
    ++ zeros 8
    ++ (0x48 ∷ 0x10 ∷ 0 ∷ 0 ∷ 0x60 ∷ 0x10 ∷ 0 ∷ 0 ∷ [])

abbrev pub sample_bytes : List ℕ
sample_bytes = exception_table ++ zeros 12 ++ unwind_records ++ relocation_table ++ export_table

abbrev pub code_section : Section
code_section = record {
  name = [];
  rva = 0x1000;
  virtual_size = 0x100;
  raw_offset = 0;
  raw_size = 0;
  characteristics = 0x20000020;
}

abbrev pub table_section : Section
table_section = record {
  name = [];
  rva = 0x2000;
  virtual_size = 0x80;
  raw_offset = 0;
  raw_size = 0x80;
  characteristics = 0x40;
}

abbrev pub sample_image : PeImage
sample_image = record {
  bytes = sample_bytes;
  machine = 0x8664;
  num_sections = 2;
  timestamp = 0;
  characteristics = 0;
  linker_version = (14, 0);
  size_of_code = 0x100;
  size_of_initialized_data = 0x80;
  size_of_uninitialized_data = 0;
  entrypoint_rva = 0x1070;
  base_of_code = 0x1000;
  image_base = 0x400000;
  section_alignment = 0x1000;
  file_alignment = 0x200;
  size_of_image = 0x3000;
  size_of_headers = 0x200;
  checksum = 0;
  subsystem = 3;
  dll_characteristics = 0;
  size_of_stack_reserve = 0;
  size_of_stack_commit = 0;
  size_of_heap_reserve = 0;
  size_of_heap_commit = 0;
  loader_flags = 0;
  num_directories = 16;
  directories =
      record { index = 0; rva = 0x2050; size = 40 }
      ∷ record { index = 3; rva = 0x2000; size = 36 }
      ∷ record { index = 5; rva = 0x2044; size = 12 }
      ∷ [];
  sections = code_section ∷ table_section ∷ [];
}

-- A file of 240 bytes with the headers of a PE32+ image: no directory and one section.
abbrev pub header_bytes : List ℕ
header_bytes =
    (0x4D ∷ 0x5A ∷ zeros 58)
    ++ (0x40 ∷ 0 ∷ 0 ∷ 0 ∷ 0x50 ∷ 0x45 ∷ 0 ∷ 0 ∷ [])
    ++ (0x64 ∷ 0x86 ∷ 1 ∷ 0 ∷ zeros 12)
    ++ (112 ∷ 0 ∷ 0 ∷ 0 ∷ 0x0B ∷ 0x02 ∷ zeros 150)
