-- ===== src/Ne/Parse.antt =====
-- `parse_ne`, on the bytes of the file.
use linuxrecomp.Base.{
  ℕ, ◌+◌, ◌/◌, ◌%◌, List, [], ◌∷◌, ◌++◌, ◌&&◌, ◌||◌, Bool, false, if◌then◌else◌, leb, ◌==◌, length,
  drop,
}
use linuxrecomp.Base.Raises.{Raises, raises, gives, ◌>>=◌}
use linuxrecomp.Ne.{NeError, not_mz, invalid_offset, not_ne, NeHeader}
use linuxrecomp.Ne.Reads.{byte_at, word_at, dword_at}
use linuxrecomp.Ne.Segments.{segments_from}
use linuxrecomp.Ne.Tables.{
  modules_from, resident_names, nonresident_names, entry_table, enough, name_entries,
}

-- data[:2] == signature
unfoldable pub has_signature : ℕ → ℕ → List ℕ → Bool
has_signature first second [] = false
has_signature first second (a ∷ []) = false
has_signature first second (a ∷ b ∷ file) = (a == first) && (b == second)

-- alignment_shift, where 0 stands for sectors of 512 bytes
unfoldable pub shift_of : ℕ → ℕ
shift_of shift = if shift == 0 then 9 else shift

-- `parse_ne` behind the check of the NE signature. The header's fields are read from `nh`, the file from
-- the header on; the tables from the file.
unfoldable pub parse_tables : List ℕ → ℕ → Raises NeError NeHeader
parse_tables file ne_offset = do
  let nh = drop ne_offset file
  linker_ver ← byte_at nh 2
  linker_rev ← byte_at nh 3
  entry_table_off ← word_at nh 4
  entry_table_len ← word_at nh 6
  flags ← word_at nh 12
  auto_data_seg ← word_at nh 14
  heap_size ← word_at nh 16
  stack_size ← word_at nh 18
  cs_ip ← dword_at nh 20
  ss_sp ← dword_at nh 24
  seg_count ← word_at nh 28
  mod_ref_count ← word_at nh 30
  nonres_name_size ← word_at nh 32
  seg_table_off ← word_at nh 34
  res_table_off ← word_at nh 36
  resname_table_off ← word_at nh 38
  modref_table_off ← word_at nh 40
  import_table_off ← word_at nh 42
  nonres_name_off ← dword_at nh 44
  alignment ← word_at nh 50
  target_os ← byte_at nh 54
  let shift = shift_of alignment
  segments ← segments_from seg_count file shift (ne_offset + seg_table_off) 1
  modules ←
      modules_from mod_ref_count file (ne_offset + import_table_off) (ne_offset + modref_table_off)
  resident ← resident_names file (ne_offset + resname_table_off)
  nonresident ← nonresident_names file nonres_name_off nonres_name_size
  entries ←
      entry_table (enough file) file (ne_offset + entry_table_off + entry_table_len)
        (record { found = []; pos = ne_offset + entry_table_off; ordinal = 1 })
  gives (record {
    ne_offset = ne_offset;
    linker_ver = linker_ver;
    linker_rev = linker_rev;
    flags = flags;
    auto_data_seg = auto_data_seg;
    heap_size = heap_size;
    stack_size = stack_size;
    cs = cs_ip / 65536;
    ip = cs_ip % 65536;
    ss = ss_sp / 65536;
    sp = ss_sp % 65536;
    target_os = target_os;
    alignment_shift = shift;
    segments = segments;
    entries = name_entries (resident ++ nonresident) entries;
    module_names = modules;
    resident_names = resident;
    nonresident_names = nonresident;
  })

-- The checks of the NE header's offset and signature.
unfoldable pub parse_from : List ℕ → ℕ → Raises NeError NeHeader
parse_from file ne_offset =
    if (ne_offset == 0) || leb (length file) ne_offset
    then raises invalid_offset
    else if has_signature 78 69 (drop ne_offset file)
    then parse_tables file ne_offset
    else raises not_ne

-- `parse_ne`
unfoldable pub parse_ne : List ℕ → Raises NeError NeHeader
parse_ne file =
    if has_signature 77 90 file
    then (do ne_offset ← dword_at file 0x3C; parse_from file ne_offset)
    else raises not_mz
