-- ===== src/Pe64.antt =====
-- tools/linux64/pe64.py: the reader of PE32+ images. Here: the records, and the result of a read that
-- may raise. Names are kept as their bytes: the decoding of ASCII with replacement is Python's.
pub mod Bytes
pub mod Headers
pub mod Address
pub mod Imports
pub mod Exports
pub mod Relocations
pub mod Exceptions
pub mod Sample
pub mod Proofs
use Prim.Native.Nat.{bit_and}
use linuxrecomp.Base.{
  ℕ, ◌+◌, ◌-◌, ◌≤◌, ◌<◌, max, Bool, true, false, not, ◌&&◌, Option, none, some, List, [], ◌∷◌,
  if◌then◌else◌, leb, ltb, ◌==◌,
}
use linuxrecomp.Base.Int.{ℤ}

-- What the parser raises. `struct_error` and `index_error` are Python's own errors; the others are
-- PEFormatError with its messages.
pub data PeError : Type 0 where
  no_mz no_signature is_pe32 unknown_magic short_optional_header section_past_end : PeError
  no_sections va_outside struct_error index_error : PeError

-- A step of the parser: what it raises, or what it returns.
pub data Result {ℓ} (A : Type ℓ) : Type ℓ where
  err : PeError → Result A
  ok : A → Result A

-- `if not test: raise e`
abbrev pub guard : Bool → PeError → Result (Unit {0})
guard false error = err error
guard true error = ok tt

infixl 5 ◌>>=◌ ◌>>◌
abbrev pub ◌>>=◌ {ℓ κ} : {A : Type ℓ} {B : Type κ} → Result A → (A → Result B) → Result B
err error >>= rest = err error
ok value >>= rest = rest value

abbrev pub ◌>>◌ {ℓ} : {B : Type ℓ} → Result (Unit {0}) → Result B → Result B
err error >> rest = err error
ok done >> rest = rest

-- `Section`
pub record Section : Type 0 where
  pub name : List ℕ
  pub rva : ℕ
  pub virtual_size : ℕ
  pub raw_offset : ℕ
  pub raw_size : ℕ
  pub characteristics : ℕ

-- `bool(flags & mask)`
abbrev pub has_flag : ℕ → ℕ → Bool
has_flag flags mask = not (bit_and flags mask == 0)

abbrev pub scn_cnt_code : ℕ
scn_cnt_code = 0x00000020

abbrev pub scn_mem_execute : ℕ
scn_mem_execute = 0x20000000

-- `Section.is_code`: the two bits are apart, so their `|` is a sum.
unfoldable pub is_code : Section → Bool
is_code s = has_flag s.characteristics (scn_cnt_code + scn_mem_execute)

unfoldable pub is_executable : Section → Bool
is_executable s = has_flag s.characteristics scn_mem_execute

unfoldable pub has_raw_data : Section → Bool
has_raw_data s = ltb 0 s.raw_size

unfoldable pub mapped_size : Section → ℕ
mapped_size s = max s.virtual_size s.raw_size

unfoldable pub end_rva : Section → ℕ
unfolding mapped_size
end_rva s = s.rva + mapped_size s

unfoldable pub contains_rva : Section → ℕ → Bool
unfolding end_rva
contains_rva s rva = leb s.rva rva && ltb rva (end_rva s)

-- `Directory`, less its name, which is that of its index.
pub record Directory : Type 0 where
  pub index : ℕ
  pub rva : ℕ
  pub size : ℕ

unfoldable pub present : Directory → Bool
present d = not (d.rva == 0) && not (d.size == 0)

-- `PE64Image`: the data, and the header fields that the rest of the reader and its clients use.
pub record PeImage : Type 0 where
  pub bytes : List ℕ
  pub machine : ℕ
  pub num_sections : ℕ
  pub timestamp : ℕ
  pub characteristics : ℕ
  pub linker_version : ℕ × ℕ
  pub size_of_code : ℕ
  pub size_of_initialized_data : ℕ
  pub size_of_uninitialized_data : ℕ
  pub entrypoint_rva : ℕ
  pub base_of_code : ℕ
  pub image_base : ℕ
  pub section_alignment : ℕ
  pub file_alignment : ℕ
  pub size_of_image : ℕ
  pub size_of_headers : ℕ
  pub checksum : ℕ
  pub subsystem : ℕ
  pub dll_characteristics : ℕ
  pub size_of_stack_reserve : ℕ
  pub size_of_stack_commit : ℕ
  pub size_of_heap_reserve : ℕ
  pub size_of_heap_commit : ℕ
  pub loader_flags : ℕ
  pub num_directories : ℕ
  pub directories : List Directory
  pub sections : List Section
