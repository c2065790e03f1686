-- ===== src/Cabinet.antt =====
-- tools/assets/isextract.py: the extractor of InstallShield cabinets. Here: the records of the header,
-- their flags, and what the extractor raises. Names are kept as their bytes: the decoding of ASCII with
-- replacement is Python's.
pub mod Scramble
pub mod Header
pub mod Volumes
pub mod Extract
pub mod Batch
pub mod Proofs
use Prim.Native.Nat.{bit_and}
use linuxrecomp.Base.{ℕ, Bool, true, false, not, Option, none, some, List, ◌/◌, ◌%◌, ◌==◌, String}

-- What stops the parser, the extraction of a file or the whole run: what the system raises outside the
-- handlers, a position that `seek` refuses, an archive without the signature, a read behind
-- the end of the header, a text without its NUL, an index out of range; the cabinet's end in a chunk's
-- size or in its data (the bytes read and wanted), and data that zlib refuses, with the bytes read.
pub data CabError : Type 0 where
  bad_signature struct_error no_nul index_error : CabError
  os_error seek_overflow : CabError
  end_at_size : CabError
  end_in_chunk : ℕ → ℕ → CabError
  bad_deflate : ℕ → CabError

pub data Parsed {ℓ} (A : Type ℓ) : Type ℓ where
  raised : CabError → Parsed A
  parsed : A → Parsed A

infixl 5 ◌>>=◌ ◌>>◌
abbrev pub ◌>>=◌ {ℓ κ} : {A : Type ℓ} {B : Type κ} → Parsed A → (A → Parsed B) → Parsed B
raised error >>= next = raised error
parsed found >>= next = next found

abbrev pub ◌>>◌ {ℓ} : {B : Type ℓ} → Parsed (Unit {0}) → Parsed B → Parsed B
raised error >> next = raised error
parsed done >> next = next

-- `if not test: raise error`
abbrev pub require : Bool → CabError → Parsed (Unit {0})
require false error = raised error
require true error = parsed tt

-- `CommonHeader`
pub record CommonHeader : Type 0 where
  pub signature : ℕ
  pub version : ℕ
  pub volume_info : ℕ
  pub cab_descriptor_offset : ℕ
  pub cab_descriptor_size : ℕ

-- `CommonHeader.major_version`: (version >> 12) & 0xF
unfoldable pub major_version : CommonHeader → ℕ
major_version h = h.version / 0x1000 % 0x10

-- `CabDescriptor`
pub record CabDescriptor : Type 0 where
  pub file_table_offset : ℕ
  pub file_table_size : ℕ
  pub file_table_size2 : ℕ
  pub directory_count : ℕ
  pub file_count : ℕ
  pub file_table_offset2 : ℕ
  pub file_group_offsets : List ℕ
  pub component_offsets : List ℕ

-- `FileDescriptor`, with the name, the index and the directory that `ISCabinet` sets.
pub record FileDescriptor : Type 0 where
  pub name_offset : ℕ
  pub directory_index : ℕ
  pub flags : ℕ
  pub expanded_size : ℕ
  pub compressed_size : ℕ
  pub data_offset : ℕ
  pub md5 : List ℕ
  pub volume : Option ℕ
  pub name : List ℕ
  pub index : ℕ
  pub directory : List ℕ

abbrev pub file_split : ℕ
file_split = 1

abbrev pub file_obfuscated : ℕ
file_obfuscated = 2

abbrev pub file_compressed : ℕ
file_compressed = 4

abbrev pub file_invalid : ℕ
file_invalid = 8

-- bool(fd.flags & mask)
abbrev flag_set : FileDescriptor → ℕ → Bool
flag_set fd mask = not (bit_and fd.flags mask == 0)

unfoldable pub is_compressed : FileDescriptor → Bool
is_compressed fd = flag_set fd file_compressed

unfoldable pub is_obfuscated : FileDescriptor → Bool
is_obfuscated fd = flag_set fd file_obfuscated

unfoldable pub is_invalid : FileDescriptor → Bool
is_invalid fd = flag_set fd file_invalid

unfoldable pub is_split : FileDescriptor → Bool
is_split fd = flag_set fd file_split

-- `FileGroupDescriptor`
pub record FileGroupDescriptor : Type 0 where
  pub name : List ℕ
  pub first_file : ℕ
  pub last_file : ℕ

-- `Volume`: the index is the number in the file's name.
pub record Volume : Type 0 where
  pub path : String
  pub index : ℕ
  pub signature : ℕ
  pub version : ℕ
  pub first_file_index : ℕ
  pub last_file_index : ℕ

-- `ISCabinet`, less the paths.
pub record Cabinet : Type 0 where
  pub common : CommonHeader
  pub cab_desc : CabDescriptor
  pub file_table : List ℕ
  pub directories : List (List ℕ)
  pub files : List FileDescriptor
  pub file_groups : List FileGroupDescriptor
