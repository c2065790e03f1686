-- ===== src/Ne.antt =====
-- tools/ne/ne_parse.py: the reader of 16-bit NE executables. Here: what it returns and raises. Names are
-- kept as their bytes: the decoding of ASCII with replacement is Python's.
pub mod Reads
pub mod Segments
pub mod Tables
pub mod Parse
pub mod Proofs
use Prim.Native.Nat.{bit_and}
use linuxrecomp.Base.{ℕ, Bool, not, List, [], ◌∷◌, ◌&&◌, ltb, ◌==◌, ◌+◌, if◌then◌else◌, length}

-- A file that is no MZ file, or without a place for the NE header, or without its signature; a read behind
-- the end of the file. `out_of_fuel` is not the reader's.
pub data NeError : Type 0 where
  not_mz invalid_offset not_ne index_error struct_error out_of_fuel : NeError

pub record NeRelocation : Type 0 where
  pub src_type : ℕ
  pub flags : ℕ
  pub offset : ℕ
  pub target_seg : ℕ
  pub target_off : ℕ
  pub module_idx : ℕ
  pub ordinal : ℕ
  pub additive : Bool

pub record Segment : Type 0 where
  pub index : ℕ
  pub file_offset : ℕ
  pub file_size : ℕ
  pub flags : ℕ
  pub alloc_size : ℕ
  pub content : List ℕ
  pub relocations : List NeRelocation

-- bool(flags & mask)
abbrev pub has_bit : ℕ → ℕ → Bool
has_bit flags mask = not (bit_and flags mask == 0)

unfoldable pub is_code_segment : Segment → Bool
is_code_segment s = not (has_bit s.flags 0x0001)

unfoldable pub is_data_segment : Segment → Bool
is_data_segment s = has_bit s.flags 0x0001

unfoldable pub is_moveable : Segment → Bool
is_moveable s = has_bit s.flags 0x0010

unfoldable pub is_discardable : Segment → Bool
is_discardable s = has_bit s.flags 0x1000

-- `Segment.actual_size`, of the size in the file
unfoldable pub actual_size : ℕ → ℕ
actual_size file_size = if file_size == 0 then 65536 else file_size

pub record EntryPoint : Type 0 where
  pub ordinal : ℕ
  pub segment : ℕ
  pub offset : ℕ
  pub flags : ℕ
  pub name : List ℕ

-- `NEHeader`, less the file.
pub record NeHeader : Type 0 where
  pub ne_offset : ℕ
  pub linker_ver : ℕ
  pub linker_rev : ℕ
  pub flags : ℕ
  pub auto_data_seg : ℕ
  pub heap_size : ℕ
  pub stack_size : ℕ
  pub cs : ℕ
  pub ip : ℕ
  pub ss : ℕ
  pub sp : ℕ
  pub target_os : ℕ
  pub alignment_shift : ℕ
  pub segments : List Segment
  pub entries : List EntryPoint
  pub module_names : List (List ℕ)
  pub resident_names : List (List ℕ × ℕ)
  pub nonresident_names : List (List ℕ × ℕ)

-- `code_segments`, `data_segments` and the sums over them
unfoldable pub code_segments : List Segment → List Segment
code_segments [] = []
code_segments (s ∷ segments) =
    let rest = code_segments segments in
    if is_code_segment s && ltb 0 s.file_offset then s ∷ rest else rest

unfoldable pub data_segments : List Segment → List Segment
data_segments [] = []
data_segments (s ∷ segments) =
    let rest = data_segments segments in if is_data_segment s then s ∷ rest else rest

unfoldable pub sum_of_sizes : List Segment → ℕ
sum_of_sizes [] = 0
sum_of_sizes (s ∷ segments) = actual_size s.file_size + sum_of_sizes segments

unfoldable pub total_code_size : NeHeader → ℕ
total_code_size ne = sum_of_sizes (code_segments ne.segments)

unfoldable pub count_relocations : List Segment → ℕ
count_relocations [] = 0
count_relocations (s ∷ segments) = length s.relocations + count_relocations segments

unfoldable pub total_relocs : NeHeader → ℕ
total_relocs ne = count_relocations ne.segments
