-- ===== src/Cabinet/Header.antt =====
-- The directory of a cabinet: `CommonHeader`, `CabDescriptor`, `FileDescriptor` and `ISCabinet`.
use linuxrecomp.Base.{
  ℕ, zero, suc, ◌+◌, ◌*◌, Option, none, some, List, [], ◌∷◌, if◌then◌else◌, leb, ◌==◌, length,
  slice, drop, get_elem?, get_or,
}
use linuxrecomp.Pe64.Bytes.{field}
use linuxrecomp.Cabinet.{
  Parsed, raised, parsed, ◌>>=◌, ◌>>◌, require, bad_signature, struct_error, no_nul, index_error,
  CommonHeader, CabDescriptor, FileDescriptor, FileGroupDescriptor, Cabinet, major_version,
}

abbrev pub cab_signature : ℕ
cab_signature = 0x28635349

abbrev max_file_group_count : ℕ
max_file_group_count = 71

abbrev max_component_count : ℕ
max_component_count = 71

abbrev size_v6 : ℕ
size_v6 = 0x57

-- struct.unpack_from of one field of `width` bytes.
unfoldable pub read_field : ℕ → List ℕ → ℕ → Parsed ℕ
read_field width hdr_data offset =
    if leb (offset + width) (length hdr_data)
    then parsed (field width hdr_data offset)
    else raised struct_error

abbrev pub read_u16 : List ℕ → ℕ → Parsed ℕ
read_u16 = read_field 2

abbrev pub read_u32 : List ℕ → ℕ → Parsed ℕ
read_u32 = read_field 4

abbrev pub read_u64 : List ℕ → ℕ → Parsed ℕ
read_u64 = read_field 8

-- `count` numbers, one behind the other.
unfoldable pub read_words : ℕ → List ℕ → ℕ → Parsed (List ℕ)
read_words zero hdr_data offset = parsed []
read_words (suc count) hdr_data offset = do
  val ← read_u32 hdr_data offset
  rest ← read_words count hdr_data (offset + 4)
  parsed (val ∷ rest)

-- `CommonHeader.__init__`, at offset 0
unfoldable pub common_header : List ℕ → Parsed CommonHeader
common_header hdr_data = do
  require (leb 20 (length hdr_data)) struct_error
  parsed (record {
    signature = field 4 hdr_data 0;
    version = field 4 hdr_data 4;
    volume_info = field 4 hdr_data 8;
    cab_descriptor_offset = field 4 hdr_data 12;
    cab_descriptor_size = field 4 hdr_data 16;
  })

-- `CabDescriptor.__init__`
unfoldable pub cab_descriptor : List ℕ → ℕ → Parsed CabDescriptor
cab_descriptor hdr_data base = do
  table_offset ← read_u32 hdr_data (base + 0x0C)
  table_size ← read_u32 hdr_data (base + 0x14)
  table_size2 ← read_u32 hdr_data (base + 0x18)
  directories ← read_u32 hdr_data (base + 0x1C)
  files ← read_u32 hdr_data (base + 0x28)
  table_offset2 ← read_u32 hdr_data (base + 0x2C)
  groups ← read_words max_file_group_count hdr_data (base + 0x3E)
  components ← read_words max_component_count hdr_data (base + 0x15A)
  parsed (record {
    file_table_offset = table_offset;
    file_table_size = table_size;
    file_table_size2 = table_size2;
    directory_count = directories;
    file_count = files;
    file_table_offset2 = table_offset2;
    file_group_offsets = groups;
    component_offsets = components;
  })

-- `FileDescriptor.__init__` for versions up to 5; the name and the directory are still to be set.
unfoldable pub file_descriptor_v5 : List ℕ → ℕ → Parsed FileDescriptor
file_descriptor_v5 hdr_data offset = do
  name_at ← read_u32 hdr_data offset
  directory ← read_u16 hdr_data (offset + 0x04)
  flag_bits ← read_u16 hdr_data (offset + 0x08)
  expanded ← read_u32 hdr_data (offset + 0x0A)
  compressed ← read_u32 hdr_data (offset + 0x0E)
  data_at ← read_u32 hdr_data (offset + 0x26)
  parsed (record {
    name_offset = name_at;
    directory_index = directory;
    flags = flag_bits;
    expanded_size = expanded;
    compressed_size = compressed;
    data_offset = data_at;
    md5 = slice hdr_data (offset + 0x2A) (offset + 0x3A);
    volume = none;
    name = [];
    index = 0;
    directory = [];
  })

-- `FileDescriptor.__init__` from version 6 on.
unfoldable pub file_descriptor_v6 : List ℕ → ℕ → Parsed FileDescriptor
file_descriptor_v6 hdr_data offset = do
  flag_bits ← read_u16 hdr_data offset
  expanded ← read_u64 hdr_data (offset + 0x02)
  compressed ← read_u64 hdr_data (offset + 0x0A)
  data_at ← read_u64 hdr_data (offset + 0x12)
  name_at ← read_u32 hdr_data (offset + 0x3A)
  directory ← read_u16 hdr_data (offset + 0x3E)
  volume_number ← read_u16 hdr_data (offset + 0x55)
  parsed (record {
    name_offset = name_at;
    directory_index = directory;
    flags = flag_bits;
    expanded_size = expanded;
    compressed_size = compressed;
    data_offset = data_at;
    md5 = slice hdr_data (offset + 0x1A) (offset + 0x2A);
    volume = some volume_number;
    name = [];
    index = 0;
    directory = [];
  })

unfoldable pub file_descriptor : List ℕ → ℕ → ℕ → Parsed FileDescriptor
file_descriptor hdr_data offset major =
    if leb major 5 then file_descriptor_v5 hdr_data offset else file_descriptor_v6 hdr_data offset

-- The bytes in front of the first NUL.
unfoldable pub text_before_nul : List ℕ → Option (List ℕ)
text_before_nul [] = none
text_before_nul (b ∷ bytes) =
    let rest = text_before_nul bytes in
    if b == 0 then some [] else elim rest [ none ↦ none | some text ↦ some (b ∷ text) ]

-- hdr_data[at:hdr_data.index(0, at)]
unfoldable pub text_at : List ℕ → ℕ → Parsed (List ℕ)
text_at hdr_data at = elim (text_before_nul (drop at hdr_data)) [
  | none ↦ raised no_nul
  | some text ↦ parsed text
]

-- `_read_string`
unfoldable pub read_string : List ℕ → ℕ → ℕ → Parsed (List ℕ)
read_string hdr_data ft_base offset = text_at hdr_data (ft_base + offset)

-- The loop over the directories: `i` of them are read, `count` are left.
unfoldable pub directory_names : ℕ → List ℕ → ℕ → List ℕ → ℕ → Parsed (List (List ℕ))
directory_names zero hdr_data ft_base table i = parsed []
directory_names (suc count) hdr_data ft_base table i = elim (get_elem? table i) [
  | none ↦ raised index_error
  | some offset ↦ do
    name ← read_string hdr_data ft_base offset
    rest ← directory_names count hdr_data ft_base table (suc i)
    parsed (name ∷ rest)
]

-- Where the descriptor of file `i` is: through the table, or in the flat array.
unfoldable pub descriptor_offset : ℕ → CabDescriptor → ℕ → List ℕ → ℕ → Parsed ℕ
descriptor_offset major desc ft_base table i =
    if leb major 5
    then elim (get_elem? table (desc.directory_count + i)) [
      | none ↦ raised index_error
      | some offset ↦ parsed (ft_base + offset)
    ]
    else parsed (ft_base + desc.file_table_offset2 + i * size_v6)

-- One round of the loop over the files. A directory index out of range is the empty directory.
unfoldable pub read_file :
    ℕ → CabDescriptor → List ℕ → ℕ → List ℕ → List (List ℕ) → ℕ → Parsed FileDescriptor
read_file major desc hdr_data ft_base table names i = do
  at ← descriptor_offset major desc ft_base table i
  fd ← file_descriptor hdr_data at major
  text ← read_string hdr_data ft_base fd.name_offset
  parsed (record fd { name = text; index = i; directory = get_or names fd.directory_index [] })

-- The loop over the files: `i` of them are read, `count` are left.
unfoldable pub read_files :
    ℕ → ℕ → CabDescriptor → List ℕ → ℕ → List ℕ → List (List ℕ) → ℕ → Parsed (List FileDescriptor)
read_files zero major desc hdr_data ft_base table names i = parsed []
read_files (suc count) major desc hdr_data ft_base table names i = do
  fd ← read_file major desc hdr_data ft_base table names i
  rest ← read_files count major desc hdr_data ft_base table names (suc i)
  parsed (fd ∷ rest)

-- One round of the loop of `_parse_file_groups`, for an offset that is not 0.
unfoldable pub file_group : List ℕ → ℕ → ℕ → Parsed FileGroupDescriptor
file_group hdr_data cd_base fg_off = do
  name_off ← read_u32 hdr_data (cd_base + fg_off)
  desc_off ← read_u32 hdr_data (cd_base + fg_off + 4)
  group_name ← text_at hdr_data (cd_base + name_off)
  first ← read_u32 hdr_data (cd_base + desc_off + 0x4C)
  last ← read_u32 hdr_data (cd_base + desc_off + 0x50)
  parsed (record { name = group_name; first_file = first; last_file = last })

-- `_parse_file_groups`, over the offsets of the descriptor.
unfoldable pub parse_file_groups : List ℕ → ℕ → List ℕ → Parsed (List FileGroupDescriptor)
parse_file_groups hdr_data cd_base [] = parsed []
parse_file_groups hdr_data cd_base (fg_off ∷ offsets) =
    let rest = parse_file_groups hdr_data cd_base offsets in
    if fg_off == 0
    then rest
    else (do group ← file_group hdr_data cd_base fg_off; groups ← rest; parsed (group ∷ groups))

-- `ISCabinet.__init__` behind the check of the signature.
unfoldable pub parse_signed : List ℕ → CommonHeader → Parsed Cabinet
parse_signed hdr_data common = do
  desc ← cab_descriptor hdr_data common.cab_descriptor_offset
  let ft_base = common.cab_descriptor_offset + desc.file_table_offset
  let major = major_version common
  table ←
      read_words (desc.directory_count + (if leb major 5 then desc.file_count else 0)) hdr_data
        ft_base
  names ← directory_names desc.directory_count hdr_data ft_base table 0
  files ← read_files desc.file_count major desc hdr_data ft_base table names 0
  groups ← parse_file_groups hdr_data common.cab_descriptor_offset desc.file_group_offsets
  parsed (record {
    common = common;
    cab_desc = desc;
    file_table = table;
    directories = names;
    files = files;
    file_groups = groups;
  })

-- `ISCabinet.__init__`, on the bytes of the header file.
unfoldable pub parse_cabinet : List ℕ → Parsed Cabinet
parse_cabinet hdr_data = do
  common ← common_header hdr_data
  require (common.signature == cab_signature) bad_signature
  parse_signed hdr_data common
