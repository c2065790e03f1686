-- ===== src/Ne/Proofs/Tests.antt =====
-- Runs of the NE reader on a small file: no segments, two resident names, one entry.
use linuxrecomp.Base.{ℕ, ◌≡◌, refl, Option, none, some, List, [], ◌∷◌, ◌++◌, arith}
use linuxrecomp.Base.Text.{codes}
use linuxrecomp.Base.Raises.{Raises, raises, gives}
use linuxrecomp.Ne.{NeError, NeHeader, EntryPoint}
use linuxrecomp.Ne.Tables.{resident_names}
use linuxrecomp.Ne.Parse.{parse_ne}
use linuxrecomp.Ne.Proofs.Total.{Stops}
use linuxrecomp.Ne.Proofs.Entries.{parse_ne-Stops}
use linuxrecomp.Ne.Proofs.Names.{names_bytes, resident_names-names_bytes}
use linuxrecomp.Pe64.Sample.{zeros}

abbrev ne_header : List ℕ
ne_header =
    (78 ∷ 69 ∷ 5 ∷ 1 ∷ 73 ∷ 0 ∷ 7 ∷ 0 ∷ [])
    ++ (zeros 26
        ++ ((64 ∷ 0 ∷ 64 ∷ 0 ∷ 64 ∷ 0 ∷ 64 ∷ 0 ∷ 64 ∷ 0 ∷ []) ++ (zeros 10 ++ (2 ∷ zeros 9))))

abbrev ne_tables : List ℕ
ne_tables = (1 ∷ 77 ∷ 0 ∷ 0 ∷ 1 ∷ 70 ∷ 1 ∷ 0 ∷ 0 ∷ []) ++ (1 ∷ 1 ∷ 3 ∷ 16 ∷ 0 ∷ 0 ∷ 0 ∷ [])

abbrev small_file : List ℕ
small_file = 77 ∷ 90 ∷ zeros 58 ++ (64 ∷ 0 ∷ 0 ∷ 0 ∷ ne_header ++ ne_tables)

unfoldable entries_read : Raises NeError NeHeader → Option (List EntryPoint)
entries_read (raises error) = none
entries_read (gives ne) = some ne.entries

entries_known :
    entries_read (parse_ne small_file)
    ≡ some (record { ordinal = 1; segment = 1; offset = 16; flags = 3; name = codes "F" } ∷ [])
unfolding entries_read parse_ne linuxrecomp.Ne.Parse.parse_from linuxrecomp.Ne.Parse.parse_tables
    linuxrecomp.Ne.Parse.has_signature linuxrecomp.Ne.Parse.shift_of linuxrecomp.Ne.Reads.byte_at
    linuxrecomp.Ne.Reads.word_at linuxrecomp.Ne.Reads.dword_at linuxrecomp.Ne.Segments.segments_from
    linuxrecomp.Ne.Tables.modules_from resident_names linuxrecomp.Ne.Tables.nonresident_names
    linuxrecomp.Ne.Tables.name_table linuxrecomp.Ne.Tables.name_entry
    linuxrecomp.Ne.Tables.entry_table linuxrecomp.Ne.Tables.bundle
    linuxrecomp.Ne.Tables.fixed_bundle linuxrecomp.Ne.Tables.next_entry
    linuxrecomp.Ne.Tables.name_entries linuxrecomp.Ne.Tables.name_for
entries_known = refl

parse_ne-Stops_example : Stops (parse_ne small_file)
parse_ne-Stops_example = parse_ne-Stops small_file

abbrev two_names : List (List ℕ × ℕ)
two_names = (codes "MODULE", 0) ∷ (codes "WNDPROC", 258) ∷ []

resident_names-names_bytes_example :
    resident_names ((5 ∷ 6 ∷ []) ++ names_bytes two_names (7 ∷ [])) 2 ≡ gives two_names
resident_names-names_bytes_example =
    resident_names-names_bytes two_names (5 ∷ 6 ∷ []) (7 ∷ []) (omega arith, (omega arith, tt))
