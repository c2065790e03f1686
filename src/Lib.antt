-- ===== src/Lib.antt =====
-- linuxrecomp turns old Windows and DOS programs into C: readers of the executable formats, decoders,
-- recovery of function ranges, and lifters. This library models the parts of it that everything else
-- relies on, and that are functions of their input.
--
-- The 16-bit decoder, tools/disasm/decode16.py: Decode16.antt and its children.
--   Decode16 holds Operand, Instruction and the state of Decoder (data, base, pos and the two size
--   attributes, with WRAP_NEAR_TARGETS as a field); Decode16.Kinds is OpType. Decode16.Reader has the
--   reads `_u8` to `_s32` as a state monad whose `none` is a raised EndOfSegment (IndexError), and
--   `near`. Decode16.Operands has `_wreg`, `_wimm` and `_decode_modrm`. Decode16.Arms and its children
--   have the if chain of `decode_one` as lists of tests and bodies, a part of the opcodes each, in the
--   order of the source. Decode16.Decode puts them together: the prefix loop, `decode_one`,
--   `decode_range` with its `try`, and `decode_all`. Decode16.Proofs holds what they promise.
--
-- The x87 decoder, tools/disasm/fpu_decode.py: Fpu.antt (decode_fpu, format_fpu), Fpu.Tables
--   (FPUInstruction, MEM_TABLE), Fpu.Registers (decode_reg_d8 to decode_reg_df; an
--   IndexError of theirs is `none`), Fpu.Laws and Fpu.Forms for what they promise.
--
-- The PE32+ reader, tools/linux64/pe64.py: Pe64.antt (Section, Directory, the fields of PE64Image as a
--   record, the errors), Pe64.Bytes (struct reads), Pe64.Headers (`_parse_headers`), Pe64.Address
--   (rva_to_offset, read_rva and what stands on them), Pe64.Imports, Pe64.Exports, Pe64.Relocations,
--   Pe64.Exceptions (tls, runtime_functions, unwind_info), Pe64.Proofs. Pe64.Sample is a small image
--   for the runs in the test modules.
--
-- The recovery of functions, tools/linux64/functions.py: Functions.antt (Function, the lookups and
--   sorts, merge_unwind_regions), Functions.Recover (recover_functions), Functions.Validate
--   (validate_ranges), and what they promise in Functions.Order, Functions.Kept, Functions.Found,
--   Functions.Overlap, Functions.Regions, Functions.Disjoint and Functions.Apart. It reads the image through
--   Pe64.Address.code_ranges, Pe64.Exports.exports and Pe64.Exceptions.
--
-- The call graph, tools/disasm/callgraph.py: Callgraph.antt (in_exec, scan_edges, containing_func), with
--   Callgraph.Edges and Callgraph.Search for what they promise.
--
-- The InstallShield extractor, tools/assets/isextract.py: Cabinet.antt (the records of the header and
--   their flags), Cabinet.Scramble (deobfuscate), Cabinet.Header (CommonHeader, CabDescriptor,
--   FileDescriptor and ISCabinet's constructor), Cabinet.Volumes (Volume, volume_for), Cabinet.Extract
--   (`_extract_compressed`, with zlib and MD5 as parameters), Cabinet.Batch (extract_all,
--   extract_cab_only, with the answers of the file system and the terminal as a parameter), Cabinet.Proofs.
--
-- The names of symbols, tools/pe/merge_names.py: Merge.antt (sanitize and merge, a text as the list of
--   its character codes, Python's keyword list as a parameter), Merge.Identifiers, Merge.Named and
--   Merge.Claims for what they promise.
--
-- The reader of CodeWarrior's C++ names, tools/cpp/mac_unmangler.py: Unmangler.antt (the types of
--   arguments, the exceptions), Unmangler.Types (demangle_type, demangle_qualifiers), Unmangler.Args
--   (demangle_args and demangle_function_pointer, whose mutual calls share one fuel), Unmangler.Details
--   (UnmangledDetails and its text), Unmangler.Proofs, where Unmangler.Proofs.Grammar describes the
--   argument lists on their own.
--
-- The scores of a recovery, tools/disasm/score_recovery.py: Score.antt (classify, `_score_ends`, with a
--   catalog as the sorted list that load_catalog returns), Score.Inside.
--
-- The reader of NE executables, tools/ne/ne_parse.py: Ne.antt (Segment, Relocation, EntryPoint and
--   NEHeader), Ne.Reads, Ne.Segments (segments with their relocations), Ne.Tables (names and entries),
--   Ne.Parse (parse_ne), Ne.Proofs.
--
-- Base holds what all of them share: lists and tests on the native numbers, and integers below zero.
--
-- Numbers of the source that are never negative are natural numbers; a relative branch target is an
-- integer and wraps at 16 bits where the source wraps it. A byte is a number below 256 where a theorem
-- needs it. Fuel: the sweep of `decode_range` gets one more round than there are bytes in its range,
-- enough because each round takes a byte; the relocation loop gets one more round than the directory
-- has bytes, enough because each block has eight; the binary search gets one more round than there are
-- functions, enough because each round makes its range smaller; the extraction loop gets one more round
-- than the cabinet file has bytes, enough because each round that goes on takes bytes of it; the readers
-- of mangled names get the number of characters and one more, enough because each round and each nested
-- call takes a character; the loops over the tables of an NE file get one more round than the file has
-- bytes, enough because each round takes a byte. The scan limits of the source are its own.
--
-- Mangled names are ASCII: Python's isdigit and strip also know other characters.
--
-- Not modelled: command lines and file access (main, load, load_bounds_csv); hashes and the texts of
-- error messages; the text forms of operands and instructions; names of machines, subsystems and
-- directories. A parsed text stays a list of bytes, where the source decodes it as ASCII with
-- replacement marks, so that two names with different bytes above 127 stay apart here. The external
-- bounds are pairs of addresses, with the end known and not below the start, as load_bounds_csv returns
-- them.
pub mod Base
pub mod Cabinet
pub mod Callgraph
pub mod Decode16
pub mod Fpu
pub mod Functions
pub mod Merge
pub mod Ne
pub mod Pe64
pub mod Score
pub mod Unmangler
