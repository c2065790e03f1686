-- ===== src/Ne/Segments.antt =====
-- The segment table of `parse_ne`, with the data and the relocations of each segment.
use Prim.Native.Nat.{bit_and}
use linuxrecomp.Base.{
  ℕ, zero, suc, ◌+◌, ◌*◌, ◌^◌, List, [], ◌∷◌, ◌&&◌, if◌then◌else◌, ltb, leb, ◌==◌, length, slice,
}
use linuxrecomp.Base.Raises.{Raises, gives, ◌>>=◌}
use linuxrecomp.Ne.{NeError, NeRelocation, Segment, has_bit, actual_size}
use linuxrecomp.Ne.Reads.{byte_at, word_at}

-- A relocation whose target is still to be set.
unfoldable pub plain_relocation : ℕ → ℕ → ℕ → NeRelocation
plain_relocation src_type flags offset = record {
  src_type = src_type;
  flags = flags;
  offset = offset;
  target_seg = 0;
  target_off = 0;
  module_idx = 0;
  ordinal = 0;
  additive = has_bit flags 0x04;
}

-- The target of a relocation: the byte and the two words at offset 4 of its record.
unfoldable pub set_target : ℕ → ℕ → ℕ → ℕ → NeRelocation → NeRelocation
set_target target_type segment middle last rel =
    if target_type == 0
    then (if segment == 0xFF
        then record rel { target_seg = segment; ordinal = last }
        else record rel { target_seg = segment; target_off = last })
    else if target_type == 3
    then record rel { target_seg = middle; target_off = last }
    else record rel { module_idx = middle; ordinal = last }

-- The record at an offset that has eight bytes behind it.
unfoldable pub relocation_at : List ℕ → ℕ → Raises NeError NeRelocation
relocation_at file pos = do
  src_type ← byte_at file pos
  flags ← byte_at file (pos + 1)
  offset ← word_at file (pos + 2)
  segment ← byte_at file (pos + 4)
  middle ← word_at file (pos + 4)
  last ← word_at file (pos + 6)
  gives
      (set_target (bit_and flags 0x03) segment middle last (plain_relocation src_type flags offset))

-- The loop over the relocations of a segment.
unfoldable pub relocations_from : ℕ → List ℕ → ℕ → Raises NeError (List NeRelocation)
relocations_from zero file pos = gives []
relocations_from (suc count) file pos = if ltb (length file) (pos + 8) then gives [] else (do
  rel ← relocation_at file pos
  rest ← relocations_from count file (pos + 8)
  gives (rel ∷ rest))

-- The relocations behind a segment's data, if the flag says so and their number is in the file.
unfoldable pub relocations_of : List ℕ → ℕ → ℕ → ℕ → Raises NeError (List NeRelocation)
relocations_of file flags file_offset file_size =
    let base = file_offset + actual_size file_size in
    if has_bit flags 0x0100 && (ltb 0 file_offset && leb (base + 2) (length file))
    then (do count ← word_at file base; relocations_from count file (base + 2))
    else gives []

-- Where a segment's sector is in the file.
unfoldable pub segment_offset : ℕ → ℕ → ℕ
segment_offset sector shift = if ltb 0 sector then sector * 2 ^ shift else 0

unfoldable pub segment_content : List ℕ → ℕ → ℕ → List ℕ
segment_content file file_offset file_size =
    if ltb 0 file_offset && ltb file_offset (length file)
    then slice file file_offset (file_offset + actual_size file_size)
    else []

-- One round of the loop over the segment table.
unfoldable pub segment_at : List ℕ → ℕ → ℕ → ℕ → Raises NeError Segment
segment_at file shift pos number = do
  sector ← word_at file pos
  size ← word_at file (pos + 2)
  seg_flags ← word_at file (pos + 4)
  alloc ← word_at file (pos + 6)
  let offset = segment_offset sector shift
  rels ← relocations_of file seg_flags offset size
  gives (record {
    index = number;
    file_offset = offset;
    file_size = size;
    flags = seg_flags;
    alloc_size = alloc;
    content = segment_content file offset size;
    relocations = rels;
  })

-- The loop over the segment table: `count` segments are left, the next has this number.
unfoldable pub segments_from : ℕ → List ℕ → ℕ → ℕ → ℕ → Raises NeError (List Segment)
segments_from zero file shift pos number = gives []
segments_from (suc count) file shift pos number = do
  s ← segment_at file shift pos number
  rest ← segments_from count file shift (pos + 8) (suc number)
  gives (s ∷ rest)
