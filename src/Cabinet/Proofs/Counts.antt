-- ===== src/Cabinet/Proofs/Counts.antt =====
-- The counts of `extract_all` and `extract_cab_only`.
use linuxrecomp.Base.{
  false, Bool-cases, ◌≢◌, ℕ, suc, ◌+◌, ◌≡◌, refl, Option, some, List, [], ◌∷◌, arith, length, Bool,
  true, Option-cases, inl, inr,
}
use linuxrecomp.Cabinet.{
  Parsed, raised, parsed, ◌>>=◌, ◌>>◌, require, os_error, FileDescriptor, Volume, is_invalid,
  is_compressed,
}
use linuxrecomp.Cabinet.Volumes.{
  volume_for, stated_volume, volume_numbered, volume_by_range, last_starting,
}
use linuxrecomp.Cabinet.Extract.{Extraction, extracted, failed, unfinished, extract_compressed}
use linuxrecomp.Cabinet.Batch.{
  LooseCopy, missing, copied, refused, search_raises, Outside, handled, shown, volume_handle,
  Counts, no_counts, count_extraction, count_loose, extract_file, extract_from, extract_all,
  cab_files, cab_from, extract_cab_only,
}
use linuxrecomp.Cabinet.Proofs.Ends.{IsOutcome, extract_compressed-IsOutcome}

-- All that is counted.
unfoldable pub counted : Counts → ℕ
counted c = c.extracted_count + c.skipped + c.errors + c.loose_copied + c.loose_missing

-- The run raises nothing, and has counted `n` files.
abbrev pub Counted : ℕ → Parsed Counts → Type 0
Counted n (raised error) = ⊥
Counted n (parsed c) = counted c ≡ n

-- What the loops do not guard returns: the directories can be made, the volumes opened, a loose file
-- looked for, and the lines printed. The output and the copy of a file may fail.
pub record Answers (sys : Outside) : Type 0 where
  pub output_made : sys.makes_output ≡ true
  pub directory_made : (fd : FileDescriptor) → sys.makes_directory fd ≡ true
  pub opened : (v : Volume) → (cab : List ℕ) × (sys.opens v ≡ some cab)
  pub searched : (fd : FileDescriptor) → sys.find_loose fd ≢ search_raises
  pub progress_printed : (fd : FileDescriptor) → sys.print_progress fd ≡ true
  pub error_printed : (fd : FileDescriptor) → sys.print_error fd ≡ true

then-Counted :
    (n m : ℕ) (step : Parsed Counts) (rest : Counts → Parsed Counts)
    → Counted n step
    → ((c : Counts) → counted c ≡ n → Counted m (rest c))
    → Counted m (step >>= rest)
then-Counted n m (raised error) rest h next = elim h [ ]
then-Counted n m (parsed c) rest h next = next c h

-- Where there is a volume, one is chosen.
pub volume_for-some :
    (files : List FileDescriptor) (v : Volume) (volumes : List Volume) (index : ℕ)
    → (chosen : Volume) × (volume_for files (v ∷ volumes) index ≡ some chosen)
unfolding volume_for volume_by_range
volume_for-some files v volumes index = elim (Option-cases (stated_volume files index)) [
  | inl unstated ↦ (last_starting index (v ∷ volumes) v, rw (unstated, volume_for) refl)
  | inr (number, stated) ↦ elim (Option-cases (volume_numbered number (v ∷ volumes))) [
    | inl absent ↦ (last_starting index (v ∷ volumes) v, rw (stated, absent, volume_for) refl)
    | inr (w, present) ↦ (w, rw (stated, present, volume_for) refl)
  ]
]

require-Counted :
    (test : Bool) (n : ℕ) (rest : Parsed Counts)
    → test ≡ true
    → Counted n rest
    → Counted n (require test os_error >> rest)
require-Counted true n rest e h = h
require-Counted false n rest e h = cc e

module _ (decompress : List ℕ → Option (List ℕ)) (digest : List ℕ → List ℕ) (sys : Outside)
    (answers : Answers sys) where
  handled-Counted :
      (fd : FileDescriptor) (c : Counts)
      → Counted (suc (counted c)) (handled decompress digest sys fd c)
  unfolding handled counted
  handled-Counted fd c = rw (answers.error_printed fd, handled) (omega arith)

  shown-Counted :
      (fd : FileDescriptor) (c : Counts) (n : ℕ)
      → counted c ≡ n
      → Counted n (shown decompress digest sys fd c)
  unfolding shown
  shown-Counted fd c n h = rw (answers.progress_printed fd, shown) h

  count_extraction-Counted :
      (fd : FileDescriptor) (e : Extraction) (c : Counts)
      → IsOutcome fd e
      → Counted (suc (counted c)) (count_extraction decompress digest sys fd e c)
  unfolding count_extraction counted
  count_extraction-Counted fd (extracted out warnings) c h = elim (Bool-cases (sys.writes fd)) [
    | inl written ↦ rw written (shown-Counted fd _ _ (omega arith))
    | inr broken ↦ rw broken (handled-Counted fd c)
  ]
  count_extraction-Counted fd (failed error out) c h = handled-Counted fd c
  count_extraction-Counted fd unfinished c h = elim h [ ]

  count_loose-Counted :
      (fd : FileDescriptor) (l : LooseCopy) (c : Counts)
      → l ≢ search_raises
      → Counted (suc (counted c)) (count_loose decompress digest sys fd l c)
  unfolding count_loose counted
  count_loose-Counted fd missing c h = rw (answers.progress_printed fd, count_loose) (omega arith)
  count_loose-Counted fd copied c h = shown-Counted fd _ _ (omega arith)
  count_loose-Counted fd refused c h = handled-Counted fd c
  count_loose-Counted fd search_raises c h = absurd (h refl)

  skip_one :
      (c : Counts) → Counted (suc (counted c)) (parsed (record c { skipped = suc c.skipped }))
  unfolding counted
  skip_one c = omega arith

  extract_file-Counted :
      (loose : Bool) (cab : List ℕ) (fd : FileDescriptor) (c : Counts)
      → Counted (suc (counted c)) (extract_file decompress digest sys loose cab fd c)
  unfolding extract_file
  extract_file-Counted loose cab fd c = elim (Bool-cases (is_invalid fd)) [
    | inl bad ↦ rw bad (skip_one c)
    | inr good ↦
        rw (good, answers.directory_made fd)
          (elim (Bool-cases (is_compressed fd)) [
            | inl packed ↦ rw packed (
                count_extraction-Counted fd (extract_compressed decompress digest cab fd) c
                  (extract_compressed-IsOutcome decompress digest cab fd))
            | inr plain ↦ rw plain (elim (Bool-cases loose) [
              | inl taken ↦
                  rw taken (count_loose-Counted fd (sys.find_loose fd) c (answers.searched fd))
              | inr left ↦ rw left (skip_one c)
            ])
          ])
  ]

  volume_handle-parsed :
      (files : List FileDescriptor) (v : Volume) (volumes : List Volume) (index : ℕ)
      → (cab : List ℕ) × (volume_handle decompress digest sys files (v ∷ volumes) index
          ≡ parsed cab)
  unfolding volume_handle
  volume_handle-parsed files v volumes index =
      let (chosen, found) = volume_for-some files v volumes index in
      let (cab, opens) = answers.opened chosen in (cab, rw (found, volume_handle) (rw opens refl))

  extract_from-Counted :
      (files : List FileDescriptor) (v : Volume) (volumes : List Volume) (loose : Bool)
      (rest : List FileDescriptor) (index : ℕ) (c : Counts) (n : ℕ)
      → counted c + length rest ≡ n
      → Counted n (extract_from decompress digest sys files (v ∷ volumes) loose rest index c)
  unfolding extract_from
  extract_from-Counted files v volumes loose [] index c n h = omega arith
  extract_from-Counted files v volumes loose (fd ∷ rest) index c n h =
      let (cab, opened) = volume_handle-parsed files v volumes index in
      rw (opened, extract_from)
        (then-Counted (suc (counted c)) n (extract_file decompress digest sys loose cab fd c) _
          (extract_file-Counted loose cab fd c)
          (λ c' one.
            extract_from-Counted files v volumes loose rest (suc index) c' n (omega arith)))

  cab_from-Counted :
      (files : List FileDescriptor) (v : Volume) (volumes : List Volume)
      (rest : List FileDescriptor) (c : Counts) (n : ℕ)
      → counted c + length rest ≡ n
      → Counted n (cab_from decompress digest sys files (v ∷ volumes) rest c)
  unfolding cab_from
  cab_from-Counted files v volumes [] c n h = omega arith
  cab_from-Counted files v volumes (fd ∷ rest) c n h =
      let (cab, opened) = volume_handle-parsed files v volumes fd.index in
      let run = extract_compressed decompress digest cab fd in
      rw (opened, answers.directory_made fd, cab_from)
        (then-Counted (suc (counted c)) n (count_extraction decompress digest sys fd run c) _
          (count_extraction-Counted fd run c
            (extract_compressed-IsOutcome decompress digest cab fd))
          (λ c' one. cab_from-Counted files v volumes rest c' n (omega arith)))

  -- Where there is a volume and what the loops do not guard returns, `extract_all` raises nothing, although
  -- extractions, outputs and copies of files may fail, and its five counts add up to the number of
  -- files; neither does `extract_cab_only`, and its counts add up to the number of files that are
  -- compressed and not invalid.
  pub extract_all-Counted :
      (files : List FileDescriptor) (v : Volume) (volumes : List Volume) (loose : Bool)
      → Counted (length files) (extract_all decompress digest sys files (v ∷ volumes) loose)
        × Counted
            (length (cab_files files))
            (extract_cab_only decompress digest sys files (v ∷ volumes))
  unfolding extract_all extract_cab_only counted
  extract_all-Counted files v volumes loose = (
    require-Counted sys.makes_output (length files) _ answers.output_made
        (extract_from-Counted files v volumes loose files 0 no_counts (length files) (omega arith)),
    require-Counted sys.makes_output (length (cab_files files)) _ answers.output_made (
        cab_from-Counted files v volumes (cab_files files) no_counts (length (cab_files files))
          (omega arith)),
  )
