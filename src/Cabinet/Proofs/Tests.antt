-- ===== src/Cabinet/Proofs/Tests.antt =====
-- Runs of the extractor on small cabinets. The compression of these runs puts a 1 in front of the data.
use linuxrecomp.Base.{
  false, ℕ, ◌==◌, ◌≡◌, refl, Option, none, some, List, [], ◌∷◌, ◌++◌, if◌then◌else◌, length, arith,
  true,
}
use linuxrecomp.Cabinet.{
  FileDescriptor, Volume, is_obfuscated, is_compressed, is_invalid, Parsed, parsed, end_at_size,
  end_in_chunk,
}
use linuxrecomp.Cabinet.{raised, Cabinet, Parsed, parsed}
use linuxrecomp.Pe64.Sample.{zeros}
use linuxrecomp.Cabinet.Header.{parse_cabinet}
use linuxrecomp.Cabinet.Volumes.{volume_for, stated_volume}
use linuxrecomp.Cabinet.Extract.{extracted, extract_compressed}
use linuxrecomp.Cabinet.Batch.{Outside, no_counts, missing, copied, extract_all, extract_cab_only}
use linuxrecomp.Cabinet.Proofs.Scramble.{obfuscate}
use linuxrecomp.Cabinet.Proofs.RoundTrip.{IsPiece, joined}
use linuxrecomp.Cabinet.Proofs.Whole.{made, extract_compressed-made}
use linuxrecomp.Cabinet.Proofs.Ends.{IsOutcome, extract_compressed-IsOutcome}
use linuxrecomp.Cabinet.Proofs.Counts.{Answers, Counted, extract_all-Counted}
use linuxrecomp.Cabinet.Proofs.Volumes.{volume_for_last}

unfoldable mark : List ℕ → List ℕ
mark plain = 1 ∷ plain

unfoldable unmark : List ℕ → Option (List ℕ)
unmark [] = none
unmark (b ∷ plain) = if b == 1 then some plain else none

-- A sum of the length, in place of a digest.
unfoldable sum_of : List ℕ → List ℕ
sum_of plain = length plain ∷ []

-- A scrambled file of five bytes.
abbrev five_bytes : FileDescriptor
five_bytes = record {
  name_offset = 0;
  directory_index = 0;
  flags = 6;
  expanded_size = 5;
  compressed_size = 11;
  data_offset = 1;
  md5 = 5 ∷ [];
  volume = none;
  name = 97 ∷ [];
  index = 0;
  directory = [];
}

abbrev two_pieces : List (List ℕ)
two_pieces = (10 ∷ 20 ∷ 30 ∷ []) ∷ (40 ∷ 255 ∷ []) ∷ []

-- The bytes of a cabinet that holds the file behind one other byte.
cabinet_known :
    made mark unmark sum_of five_bytes two_pieces (7 ∷ []) (9 ∷ [])
    ≡ 7 ∷ 197 ∷ 209 ∷ 217 ∷ 225 ∷ 181 ∷ 89 ∷ 241 ∷ 201 ∷ 241 ∷ 17 ∷ 241 ∷ 9 ∷ []
unfolding linuxrecomp.Cabinet.Proofs.Whole.made linuxrecomp.Cabinet.Proofs.Whole.first_seed
    linuxrecomp.Cabinet.Proofs.RoundTrip.sealed linuxrecomp.Cabinet.Proofs.RoundTrip.chunks
    linuxrecomp.Cabinet.Proofs.RoundTrip.chunk linuxrecomp.Cabinet.Proofs.Scramble.obfuscate
    linuxrecomp.Cabinet.Proofs.Scramble.obfuscate_byte
    linuxrecomp.Cabinet.Proofs.Scramble.rotate_back linuxrecomp.Cabinet.is_obfuscated mark
cabinet_known = refl

extract_compressed-made_example :
    extract_compressed unmark sum_of
      (made mark unmark sum_of five_bytes two_pieces (7 ∷ []) (9 ∷ []))
      five_bytes
    ≡ extracted (joined two_pieces) []
unfolding mark unmark sum_of linuxrecomp.Cabinet.Proofs.RoundTrip.joined
extract_compressed-made_example =
    extract_compressed-made mark unmark sum_of five_bytes two_pieces (7 ∷ []) (9 ∷ [])
      (
        record {
          some_bytes = omega arith;
          some_packed = omega arith;
          packed_fits = omega arith;
          packed_bytes = (omega arith, (omega arith, (omega arith, (omega arith, tt))));
          unpacks = refl;
        },
        (
          record {
            some_bytes = omega arith;
            some_packed = omega arith;
            packed_fits = omega arith;
            packed_bytes = (omega arith, (omega arith, (omega arith, tt)));
            unpacks = refl;
          },
          tt,
        ),
      )
      refl (omega arith) refl refl

extract_compressed-IsOutcome_example :
    IsOutcome five_bytes (extract_compressed unmark sum_of (7 ∷ 197 ∷ []) five_bytes)
extract_compressed-IsOutcome_example =
    extract_compressed-IsOutcome unmark sum_of (7 ∷ 197 ∷ []) five_bytes

abbrev volume : ℕ → ℕ → Volume
volume first last = record {
  path = "data1.cab";
  index = 1;
  signature = 0;
  version = 0;
  first_file_index = first;
  last_file_index = last;
}

-- Two volumes that both hold file 3.
volume_for_last_example :
    volume_for (five_bytes ∷ []) (volume 0 3 ∷ volume 3 5 ∷ []) 3 ≡ some (volume 3 5)
unfolding linuxrecomp.Cabinet.Volumes.stated_volume
volume_for_last_example =
    volume_for_last (five_bytes ∷ []) (volume 0 3 ∷ []) (volume 3 5) [] 3 refl (omega arith) tt

abbrev two_files : List FileDescriptor
two_files = five_bytes ∷ record five_bytes { flags = 0 } ∷ []

-- A system on which each output works; one of the files is not found.
abbrev working : Outside
working = record {
  makes_output = true;
  makes_directory = λ fd. true;
  opens = λ v. some (7 ∷ []);
  writes = λ fd. true;
  find_loose = λ fd. missing;
  print_progress = λ fd. true;
  print_error = λ fd. true;
}

working-Answers : Answers working
working-Answers = record {
  output_made = refl;
  directory_made = λ fd. refl;
  opened = λ v. (7 ∷ [], refl);
  searched = λ fd e. cc e;
  progress_printed = λ fd. refl;
  error_printed = λ fd. refl;
}

extract_all-Counted_example :
    Counted 2 (extract_all unmark sum_of working two_files (volume 0 3 ∷ []) true)
    × Counted 1 (extract_cab_only unmark sum_of working two_files (volume 0 3 ∷ []))
unfolding linuxrecomp.Cabinet.Batch.cab_files linuxrecomp.Cabinet.is_compressed
    linuxrecomp.Cabinet.is_invalid
extract_all-Counted_example =
    extract_all-Counted unmark sum_of working working-Answers two_files (volume 0 3) [] true

-- A file that is copied, but whose line on the progress cannot be printed, is counted twice.
counted_twice :
    extract_all unmark sum_of
      (record working { find_loose = λ fd. copied; print_progress = λ fd. false })
      (record five_bytes { flags = 0 } ∷ [])
      (volume 0 3 ∷ [])
      true
    ≡ parsed (record no_counts { errors = 1; loose_copied = 1 })
unfolding extract_all linuxrecomp.Cabinet.Batch.extract_from linuxrecomp.Cabinet.Batch.extract_file
    linuxrecomp.Cabinet.Batch.volume_handle linuxrecomp.Cabinet.Batch.count_loose
    linuxrecomp.Cabinet.Batch.shown linuxrecomp.Cabinet.Batch.handled
    linuxrecomp.Cabinet.is_compressed linuxrecomp.Cabinet.is_invalid volume_for
    linuxrecomp.Cabinet.Volumes.stated_volume linuxrecomp.Cabinet.Volumes.volume_by_range
    linuxrecomp.Cabinet.Volumes.last_starting
counted_twice = refl

-- A header of version 5 with the directory `d` and the file `f` in it.
abbrev header : List ℕ
header =
    (73 ∷ 83 ∷ 99 ∷ 40 ∷ 0 ∷ 80 ∷ 0 ∷ 1 ∷ 0 ∷ 0 ∷ 0 ∷ 0 ∷ 20 ∷ 0 ∷ 0 ∷ 0 ∷ [])
    ++ (zeros 16
        ++ ((128 ∷ 2 ∷ 0 ∷ 0 ∷ [])
            ++ (zeros 12
                ++ ((1 ∷ 0 ∷ 0 ∷ 0 ∷ [])
                    ++ (zeros 8
                        ++ ((1 ∷ 0 ∷ 0 ∷ 0 ∷ [])
                            ++ (zeros 596
                                ++ ((8 ∷ 0 ∷ 0 ∷ 0 ∷ 16 ∷ 0 ∷ 0 ∷ 0 ∷ 100 ∷ 0 ∷ 102 ∷ 0 ∷ 0 ∷ 0 ∷ 0
                                      ∷ 0 ∷ 10 ∷ [])
                                    ++ zeros 57))))))))

unfoldable names_of : List FileDescriptor → List (List ℕ × List ℕ)
names_of [] = []
names_of (fd ∷ files) = (fd.directory, fd.name) ∷ names_of files

unfoldable listing : Parsed Cabinet → Option (List (List ℕ × List ℕ))
listing (raised error) = none
listing (parsed c) = some (names_of c.files)

listing_known : listing (parse_cabinet header) ≡ some ((100 ∷ [], 102 ∷ []) ∷ [])
unfolding listing names_of parse_cabinet linuxrecomp.Cabinet.Header.parse_signed
    linuxrecomp.Cabinet.Header.common_header linuxrecomp.Cabinet.Header.cab_descriptor
    linuxrecomp.Cabinet.Header.read_field linuxrecomp.Cabinet.Header.read_words
    linuxrecomp.Cabinet.Header.directory_names linuxrecomp.Cabinet.Header.read_string
    linuxrecomp.Cabinet.Header.text_at linuxrecomp.Cabinet.Header.text_before_nul
    linuxrecomp.Cabinet.Header.descriptor_offset linuxrecomp.Cabinet.Header.read_file
    linuxrecomp.Cabinet.Header.read_files linuxrecomp.Cabinet.Header.file_descriptor
    linuxrecomp.Cabinet.Header.file_descriptor_v5 linuxrecomp.Cabinet.Header.parse_file_groups
    linuxrecomp.Cabinet.major_version linuxrecomp.Pe64.Bytes.field linuxrecomp.Pe64.Bytes.le_value
listing_known = refl
