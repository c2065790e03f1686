-- ===== src/Pe64/Exports.antt =====
-- The export table of `PE64Image`: `exports`.
use linuxrecomp.Base.{
  ℕ, zero, suc, ◌+◌, min, not, ◌&&◌, Option, none, some, List, [], ◌∷◌, if◌then◌else◌, leb, ltb,
  ◌==◌,
}
use linuxrecomp.Pe64.{PeImage, Directory, present}
use linuxrecomp.Pe64.Bytes.{le_value, u32_at}
use linuxrecomp.Pe64.Address.{read_rva, read_cstring_rva, directory}
use linuxrecomp.Pe64.Imports.{import_scan_limit}

-- `ExportSymbol`
pub record ExportSymbol : Type 0 where
  pub name : Option (List ℕ)
  pub ordinal : ℕ
  pub rva : ℕ
  pub forwarder : Option (List ℕ)

-- The export address table: `n` entries are left, from `rva` on.
unfoldable pub functions_from : ℕ → PeImage → ℕ → List ℕ
functions_from zero img rva = []
functions_from (suc n) img rva = elim (read_rva img rva 4) [
  | none ↦ []
  | some raw ↦ le_value raw ∷ functions_from n img (rva + 4)
]

-- The name table, later entries first, so that a lookup finds the last one written.
unfoldable pub names_from :
    ℕ → PeImage → ℕ → ℕ → List (ℕ × Option (List ℕ)) → List (ℕ × Option (List ℕ))
names_from zero img names_rva ordinals_rva names = names
names_from (suc n) img names_rva ordinals_rva names = elim (read_rva img names_rva 4) [
  | none ↦ names
  | some raw ↦ elim (read_rva img ordinals_rva 2) [
    | none ↦ names
    | some ord_raw ↦
        names_from n img (names_rva + 4) (ordinals_rva + 2)
          ((le_value ord_raw, read_cstring_rva img (le_value raw)) ∷ names)
  ]
]

-- names.get(index)
unfoldable pub name_of : List (ℕ × Option (List ℕ)) → ℕ → Option (List ℕ)
name_of [] index = none
name_of ((i, name) ∷ rest) index = if i == index then name else name_of rest index

-- A function's address inside the export directory is a forwarder's text.
unfoldable pub forwarder_of : PeImage → Directory → ℕ → Option (List ℕ)
forwarder_of img d rva =
    if leb d.rva rva && ltb rva (d.rva + d.size) then read_cstring_rva img rva else none

-- The last loop of `exports`, over the addresses from `index` on; gaps are skipped.
unfoldable pub symbols_from :
    PeImage → Directory → List (ℕ × Option (List ℕ)) → ℕ → ℕ → List ℕ → List ExportSymbol
symbols_from img d names base index [] = []
symbols_from img d names base index (rva ∷ rvas) =
    let rest = symbols_from img d names base (index + 1) rvas in
    if rva == 0
    then rest
    else record {
      name = name_of names index;
      ordinal = base + index;
      rva = rva;
      forwarder = forwarder_of img d rva;
    }
      ∷ rest

unfoldable pub exports_of : PeImage → Directory → List ℕ → List ExportSymbol
unfolding import_scan_limit
exports_of img d header =
    symbols_from img d
      (names_from (min (u32_at header 24) import_scan_limit) img (u32_at header 32)
        (u32_at header 36) [])
      (u32_at header 16) 0
      (functions_from (min (u32_at header 20) import_scan_limit) img (u32_at header 28))

-- `exports`
unfoldable pub exports : PeImage → List ExportSymbol
exports img =
    if not (present (directory img 0)) then [] else elim (read_rva img (directory img 0).rva 40) [
      | none ↦ []
      | some header ↦ exports_of img (directory img 0) header
    ]
