-- ===== src/Cabinet/Batch.antt =====
-- `extract_all` and `extract_cab_only`: what becomes of each file of a cabinet, and the counts that are
-- reported. What the file system and the terminal answer is a parameter.
use linuxrecomp.Base.{ℕ, suc, Option, none, some, List, [], ◌∷◌, if◌then◌else◌, Bool, not, ◌&&◌}
use linuxrecomp.Cabinet.{
  Parsed, raised, parsed, ◌>>=◌, ◌>>◌, require, index_error, os_error, FileDescriptor, Volume,
  is_invalid, is_compressed,
}
use linuxrecomp.Cabinet.Volumes.{volume_for}
use linuxrecomp.Cabinet.Extract.{Extraction, extracted, failed, unfinished, extract_compressed}

-- What the search for a loose file and its copy come to: none is found, it is copied, the copy raises,
-- or the search raises.
pub data LooseCopy : Type 0 where
  missing copied refused search_raises : LooseCopy

-- What the system answers: whether os.makedirs returns, for the output directory and for that of a file;
-- the bytes of a volume, where it can be opened; whether the output of `_extract_compressed`, files and
-- warnings, can be written; the loose copy; whether the line on the progress and that on an error can be
-- printed.
pub record Outside : Type 0 where
  pub makes_output : Bool
  pub makes_directory : FileDescriptor → Bool
  pub opens : Volume → Option (List ℕ)
  pub writes : FileDescriptor → Bool
  pub find_loose : FileDescriptor → LooseCopy
  pub print_progress : FileDescriptor → Bool
  pub print_error : FileDescriptor → Bool

pub record Counts : Type 0 where
  pub extracted_count : ℕ
  pub skipped : ℕ
  pub errors : ℕ
  pub loose_copied : ℕ
  pub loose_missing : ℕ

abbrev pub no_counts : Counts
no_counts = record {
  extracted_count = 0;
  skipped = 0;
  errors = 0;
  loose_copied = 0;
  loose_missing = 0;
}

-- The files that `extract_cab_only` takes.
unfoldable pub cab_files : List FileDescriptor → List FileDescriptor
cab_files [] = []
cab_files (fd ∷ files) =
    let rest = cab_files files in
    if is_compressed fd && not (is_invalid fd) then fd ∷ rest else rest

module _ (decompress : List ℕ → Option (List ℕ)) (digest : List ℕ → List ℕ) (sys : Outside) where
  -- The handler of an exception: the count, then the line on the error, which nothing guards.
  unfoldable pub handled : FileDescriptor → Counts → Parsed Counts
  handled fd c = do
    require (sys.print_error fd) os_error
    parsed (record c { errors = suc c.errors })

  -- The line on the progress, inside the `try`, behind the count.
  unfoldable pub shown : FileDescriptor → Counts → Parsed Counts
  shown fd c = if sys.print_progress fd then parsed c else handled fd c

  -- The `try` around `_extract_compressed`. A run that does not end is counted nowhere.
  unfoldable pub count_extraction : FileDescriptor → Extraction → Counts → Parsed Counts
  count_extraction fd (extracted out warnings) c =
      if sys.writes fd
      then shown fd (record c { extracted_count = suc c.extracted_count })
      else handled fd c
  count_extraction fd (failed error out) c = handled fd c
  count_extraction fd unfinished c = parsed c

  -- The search for a loose file, and the `try` around its copy.
  unfoldable pub count_loose : FileDescriptor → LooseCopy → Counts → Parsed Counts
  count_loose fd missing c = do
    require (sys.print_progress fd) os_error
    parsed (record c { loose_missing = suc c.loose_missing })
  count_loose fd copied c = shown fd (record c { loose_copied = suc c.loose_copied })
  count_loose fd refused c = handled fd c
  count_loose fd search_raises c = raised os_error

  -- The body of the loop of `extract_all`, behind the look for the volume and its opening.
  unfoldable pub extract_file : Bool → List ℕ → FileDescriptor → Counts → Parsed Counts
  extract_file include_loose cab fd c =
      if is_invalid fd
      then parsed (record c { skipped = suc c.skipped })
      else if not (sys.makes_directory fd)
      then raised os_error
      else if is_compressed fd
      then count_extraction fd (extract_compressed decompress digest cab fd) c
      else if include_loose
      then count_loose fd (sys.find_loose fd) c
      else parsed (record c { skipped = suc c.skipped })

  -- `_volume_handle(handles, self.volume_for(index))`. `volume_for` raises where there is no volume, and
  -- open where the file cannot be opened. (A volume that was opened before is not opened again.)
  unfoldable pub volume_handle : List FileDescriptor → List Volume → ℕ → Parsed (List ℕ)
  volume_handle files volumes index = elim (volume_for files volumes index) [
    | none ↦ raised index_error
    | some v ↦ elim (sys.opens v) [ none ↦ raised os_error | some cab ↦ parsed cab ]
  ]

  -- The loop, from the file with this index on.
  unfoldable pub extract_from :
      List FileDescriptor → List Volume → Bool → List FileDescriptor → ℕ → Counts → Parsed Counts
  extract_from files volumes include_loose [] index c = parsed c
  extract_from files volumes include_loose (fd ∷ rest) index c = do
    cab ← volume_handle files volumes index
    c' ← extract_file include_loose cab fd c
    extract_from files volumes include_loose rest (suc index) c'

  -- `extract_all`, up to the lines with the counts.
  unfoldable pub extract_all : List FileDescriptor → List Volume → Bool → Parsed Counts
  extract_all files volumes include_loose = do
    require sys.makes_output os_error
    extract_from files volumes include_loose files 0 no_counts

  -- The loop of `extract_cab_only`. `files.index(fd)` is the index that the parser gave the descriptor.
  unfoldable pub cab_from :
      List FileDescriptor → List Volume → List FileDescriptor → Counts → Parsed Counts
  cab_from files volumes [] c = parsed c
  cab_from files volumes (fd ∷ rest) c = do
    cab ← volume_handle files volumes fd.index
    require (sys.makes_directory fd) os_error
    c' ← count_extraction fd (extract_compressed decompress digest cab fd) c
    cab_from files volumes rest c'

  -- `extract_cab_only`, up to the lines with the counts.
  unfoldable pub extract_cab_only : List FileDescriptor → List Volume → Parsed Counts
  extract_cab_only files volumes = do
    require sys.makes_output os_error
    cab_from files volumes (cab_files files) no_counts
