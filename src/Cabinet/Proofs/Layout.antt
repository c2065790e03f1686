-- ===== src/Cabinet/Proofs/Layout.antt =====
-- The layout of the header of a cabinet, and what the reads at its places yield.
use linuxrecomp.Base.{
  ℕ, zero, suc, ◌+◌, ◌*◌, ◌/◌, ◌%◌, ◌≤◌, ◌<◌, ◌≡◌, ◌⊎◌, refl, ap, ◌∙◌, Option, none, some, List, [],
  ◌∷◌, ◌++◌, if◌then◌else◌, leb, ◌==◌, length, drop, get_elem?, arith, All, Bool-cases, inl, inr,
}
use linuxrecomp.Pe64.Bytes.{field}
use linuxrecomp.Cabinet.{Parsed, raised, parsed, ◌>>=◌, no_nul, FileDescriptor, Cabinet}
use linuxrecomp.Cabinet.Header.{
  cab_signature, read_field, read_words, text_before_nul, text_at, read_string,
}

-- What is parsed has the property.
abbrev pub Yields {ℓ} : {A : Type ℓ} → (A → Type 0) → Parsed A → Type 0
Yields P (raised error) = Unit
Yields P (parsed a) = P a

pub then-Yields {ℓ κ} :
    {A : Type ℓ} {B : Type κ} (P : A → Type 0) (Q : B → Type 0) (x : Parsed A) (next : A → Parsed B)
    → Yields P x
    → ((a : A) → P a → Yields Q (next a))
    → Yields Q (x >>= next)
then-Yields P Q (raised error) next h rest = tt
then-Yields P Q (parsed a) next h rest = rest a h

-- Nothing is asked of what is parsed.
pub any-Yields {ℓ κ} :
    {A : Type ℓ} {B : Type κ} (Q : B → Type 0) (x : Parsed A) (next : A → Parsed B)
    → ((a : A) → Yields Q (next a))
    → Yields Q (x >>= next)
any-Yields Q (raised error) next rest = tt
any-Yields Q (parsed a) next rest = rest a

-- The text at `at`: the bytes there up to the first NUL.
abbrev pub IsText : List ℕ → ℕ → List ℕ → Type 0
IsText bytes at text =
    (tail : List ℕ) × (drop at bytes ≡ text ++ (0 ∷ tail)) × All (λ b. 0 < b) text

module _ (bytes : List ℕ) where
  -- Where the cabinet's descriptor and its file table are.
  abbrev pub desc_at : ℕ
  desc_at = field 4 bytes 12

  abbrev pub table_at : ℕ
  table_at = desc_at + field 4 bytes (desc_at + 0x0C)

  abbrev pub counted_directories : ℕ
  counted_directories = field 4 bytes (desc_at + 0x1C)

  abbrev pub counted_files : ℕ
  counted_files = field 4 bytes (desc_at + 0x28)

  -- The version of the format: four bits of the header's version.
  abbrev pub major_at : ℕ
  major_at = field 4 bytes 4 / 0x1000 % 0x10

  -- The directories' names, from number `i` on: the table at `base` has the place of each.
  abbrev pub AreDirectories : ℕ → ℕ → List (List ℕ) → Type 0
  AreDirectories base i [] = Unit
  AreDirectories base i (name ∷ names) =
      IsText bytes (base + field 4 bytes (base + 4 * i)) name × AreDirectories base (suc i) names

  -- Where the descriptor of file `i` is: up to version 5 the table says, behind the directories; later it
  -- is the i-th of an array of records of 0x57 bytes.
  abbrev pub file_at : ℕ → ℕ → ℕ → ℕ → ℕ
  file_at base directories array i =
      if leb major_at 5
      then base + field 4 bytes (base + 4 * (directories + i))
      else base + array + i * 0x57

  -- The places of a descriptor's fields up to version 5.
  abbrev pub OldFields : ℕ → FileDescriptor → Type 0
  OldFields at fd =
      (fd.flags ≡ field 2 bytes (at + 8))
      × (fd.expanded_size ≡ field 4 bytes (at + 10))
      × (fd.compressed_size ≡ field 4 bytes (at + 14))
      × (fd.data_offset ≡ field 4 bytes (at + 38))
      × (fd.name_offset ≡ field 4 bytes at)
      × (fd.directory_index ≡ field 2 bytes (at + 4))

  -- The places of a descriptor's fields from version 6 on, with sizes of 64 bits.
  abbrev pub NewFields : ℕ → FileDescriptor → Type 0
  NewFields at fd =
      (fd.flags ≡ field 2 bytes at)
      × (fd.expanded_size ≡ field 8 bytes (at + 2))
      × (fd.compressed_size ≡ field 8 bytes (at + 10))
      × (fd.data_offset ≡ field 8 bytes (at + 18))
      × (fd.name_offset ≡ field 4 bytes (at + 58))
      × (fd.directory_index ≡ field 2 bytes (at + 62))

  abbrev pub HasFields : ℕ → FileDescriptor → Type 0
  HasFields at fd = if leb major_at 5 then OldFields at fd else NewFields at fd

  -- The descriptor of file `i`, with its name, and with the directory of its index, or none.
  abbrev pub IsFile : ℕ → ℕ → ℕ → List (List ℕ) → ℕ → FileDescriptor → Type 0
  IsFile base directories array names i fd =
      (fd.index ≡ i)
      × HasFields (file_at base directories array i) fd
      × IsText bytes (base + fd.name_offset) fd.name
      × ((get_elem? names fd.directory_index ≡ some fd.directory)
          ⊎ ((length names ≤ fd.directory_index) × (fd.directory ≡ [])))

  -- The descriptors are those of the files from `i` on.
  abbrev pub AreFiles : ℕ → ℕ → ℕ → List (List ℕ) → ℕ → List FileDescriptor → Type 0
  AreFiles base directories array names i [] = Unit
  AreFiles base directories array names i (fd ∷ files) =
      IsFile base directories array names i fd × AreFiles base directories array names (suc i) files

  -- What the header says: its signature, and its directories and files, as many as it counts.
  abbrev pub AreListed : List (List ℕ) → List FileDescriptor → Type 0
  AreListed names files =
      (field 4 bytes 0 ≡ cab_signature)
      × (length names ≡ counted_directories)
      × AreDirectories table_at 0 names
      × (length files ≡ counted_files)
      × AreFiles table_at counted_directories (field 4 bytes (desc_at + 0x2C)) names 0 files

  abbrev pub IsCabinet : Cabinet → Type 0
  IsCabinet c = AreListed c.directories c.files

  pub read_field-Yields :
      (width at : ℕ) → Yields (λ n. n ≡ field width bytes at) (read_field width bytes at)
  unfolding read_field
  read_field-Yields width at = elim (Bool-cases (leb (at + width) (length bytes))) [
    | inl inside ↦ rw inside refl
    | inr outside ↦ rw outside tt
  ]

  -- The numbers of a table.
  abbrev pub AreWords : ℕ → ℕ → List ℕ → Type 0
  AreWords count at ws = (i : ℕ) → i < count → get_elem? ws i ≡ some (field 4 bytes (at + 4 * i))

  AreWords-cons :
      (count at w : ℕ) (ws : List ℕ)
      → w ≡ field 4 bytes at
      → AreWords count (at + 4) ws
      → AreWords (suc count) at (w ∷ ws)
  AreWords-cons count at w ws found rest zero below =
      ap some (found ∙ ap (field 4 bytes) (omega arith))
  AreWords-cons count at w ws found rest (suc i) below =
      rest i (omega arith) ∙ ap (λ (k : ℕ). some (field 4 bytes k)) (omega arith)

  pub read_words-Yields : (count at : ℕ) → Yields (AreWords count at) (read_words count bytes at)
  unfolding read_words
  read_words-Yields zero at = λ i below. absurd (omega arith)
  read_words-Yields (suc count) at =
      then-Yields _ _ (read_field 4 bytes at) _ (read_field-Yields 4 at) (λ w found.
        then-Yields _ _ (read_words count bytes (at + 4)) _ (read_words-Yields count (at + 4))
          (λ ws rest. AreWords-cons count at w ws found rest))

  -- What the search for a NUL finds: the bytes in front of the first.
  abbrev InFront : List ℕ → Option (List ℕ) → Type 0
  InFront xs none = Unit
  InFront xs (some text) = (tail : List ℕ) × (xs ≡ text ++ (0 ∷ tail)) × All (λ b. 0 < b) text

  InFront-cons :
      (b : ℕ) (xs : List ℕ) (rest : Option (List ℕ))
      → 0 < b
      → InFront xs rest
      → InFront (b ∷ xs) (elim rest [ none ↦ none | some text ↦ some (b ∷ text) ])
  InFront-cons b xs none positive h = tt
  InFront-cons b xs (some text) positive (tail, split, all) =
      (tail, ap (λ ys. b ∷ ys) split, (positive, all))

  text_before_nul-InFront : (xs : List ℕ) → InFront xs (text_before_nul xs)
  unfolding text_before_nul
  text_before_nul-InFront [] = tt
  text_before_nul-InFront (b ∷ xs) = elim (Bool-cases (b == 0)) [
    | inl nul ↦ rw nul (xs, ap (λ c. c ∷ xs) (ground arith), tt)
    | inr other ↦
        rw other
          (InFront-cons b xs (text_before_nul xs) (ground arith) (text_before_nul-InFront xs))
  ]

  InFront-Yields :
      (at : ℕ) (found : Option (List ℕ))
      → InFront (drop at bytes) found
      → Yields (IsText bytes at) (elim found [ none ↦ raised no_nul | some text ↦ parsed text ])
  InFront-Yields at none h = tt
  InFront-Yields at (some text) h = h

  pub read_string-Yields :
      (base offset : ℕ) → Yields (IsText bytes (base + offset)) (read_string bytes base offset)
  unfolding read_string text_at
  read_string-Yields base offset =
      InFront-Yields (base + offset) (text_before_nul (drop (base + offset) bytes))
        (text_before_nul-InFront (drop (base + offset) bytes))
