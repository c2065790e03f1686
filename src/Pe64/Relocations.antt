-- ===== src/Pe64/Relocations.antt =====
-- The base relocations of `PE64Image`: `relocations`.
use linuxrecomp.Base.{
  ℕ, zero, suc, ◌+◌, ◌-◌, ◌*◌, ◌/◌, ◌%◌, true, false, Option, none, some, List, [], ◌∷◌, ◌++◌,
  if◌then◌else◌, leb, ltb, ◌==◌,
}
use linuxrecomp.Pe64.{PeImage, present}
use linuxrecomp.Pe64.Bytes.{u16_at, u32_at}
use linuxrecomp.Pe64.Address.{read_rva, directory}

-- _RELOCATION_SCAN_LIMIT
unfoldable pub relocation_scan_limit : ℕ
relocation_scan_limit = 4194304

pub record Relocation : Type 0 where
  pub type : ℕ
  pub rva : ℕ

-- The entries of one block, from `index` on; type 0 is padding.
unfoldable pub entries_from : ℕ → ℕ → ℕ → List ℕ → List Relocation
entries_from zero index page_rva entries = []
entries_from (suc n) index page_rva entries =
    let value = u16_at entries (index * 2) in
    let rest = entries_from n (index + 1) page_rva entries in
    if value / 4096 == 0
    then rest
    else record { type = value / 4096; rva = page_rva + value % 4096 } ∷ rest

-- One block behind its header: its size, and its relocations.
unfoldable pub block_of : PeImage → ℕ → List ℕ → Option (ℕ × List Relocation)
unfolding relocation_scan_limit
block_of img rva header =
    let block_size = u32_at header 4 in
    let count = (block_size - 8) / 2 in
    if ltb block_size 8
    then none
    else if ltb relocation_scan_limit count
    then none
    else elim (read_rva img (rva + 8) (count * 2)) [
      | none ↦ none
      | some entries ↦ some (block_size, entries_from count 0 (u32_at header 0) entries)
    ]

-- What one block of the loop adds, and its size; `none` where the loop breaks.
unfoldable pub relocation_block : PeImage → ℕ → Option (ℕ × List Relocation)
relocation_block img rva = elim (read_rva img rva 8) [
  | none ↦ none
  | some header ↦ block_of img rva header
]

-- The loop over the blocks; `none` where the fuel runs out.
unfoldable pub blocks_from : ℕ → PeImage → ℕ → ℕ → ℕ → Option (List Relocation)
blocks_from zero img start size at = none
blocks_from (suc fuel) img start size at = elim (leb (at + 8) size) [
  | false ↦ some []
  | true ↦ elim (relocation_block img (start + at)) [
    | none ↦ some []
    | some block ↦ elim (blocks_from fuel img start size (at + block.0)) [
      | none ↦ none
      | some rest ↦ some (block.1 ++ rest)
    ]
  ]
]

-- `relocations`. Each block takes eight bytes of the directory at least.
unfoldable pub relocations : PeImage → Option (List Relocation)
relocations img =
    if present (directory img 5)
    then blocks_from (suc (directory img 5).size) img (directory img 5).rva (directory img 5).size 0
    else some []
