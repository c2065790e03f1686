-- ===== src/Pe64/Imports.antt =====
-- The import tables of `PE64Image`: `import_descriptors` and `imports`.
use linuxrecomp.Base.{
  ℕ, zero, suc, ◌+◌, ◌/◌, ◌%◌, ◌^◌, Bool, not, ◌&&◌, Option, none, some, List, [], ◌∷◌, ◌++◌,
  if◌then◌else◌, ◌==◌,
}
use linuxrecomp.Pe64.{PeImage, present}
use linuxrecomp.Pe64.Bytes.{le_value, u16_at, u32_at}
use linuxrecomp.Pe64.Address.{read_rva, read_cstring_rva, directory}
use mathlib.Core.Option.{map as option_map}

-- _IMPORT_SCAN_LIMIT
unfoldable pub import_scan_limit : ℕ
import_scan_limit = 65536

-- `_ImportDescriptor`
pub record ImportDescriptor : Type 0 where
  pub ilt_rva : ℕ
  pub name_rva : ℕ
  pub iat_rva : ℕ

-- `ImportSymbol`; the DLL's name is `none` where the source writes "?".
pub record ImportSymbol : Type 0 where
  pub dll : Option (List ℕ)
  pub name : Option (List ℕ)
  pub ordinal : Option ℕ
  pub hint : Option ℕ
  pub iat_rva : ℕ
  pub ilt_rva : ℕ

unfoldable pub is_end_descriptor : List ℕ → Bool
is_end_descriptor raw = u32_at raw 0 == 0 && (u32_at raw 12 == 0 && u32_at raw 16 == 0)

-- The loop of `import_descriptors`: `n` rounds are left, from the descriptor at `rva` on.
unfoldable pub descriptors_from : ℕ → PeImage → ℕ → List ImportDescriptor
descriptors_from zero img rva = []
descriptors_from (suc n) img rva = elim (read_rva img rva 20) [
  | none ↦ []
  | some raw ↦
      let rest = descriptors_from n img (rva + 20) in
      if is_end_descriptor raw
      then []
      else record { ilt_rva = u32_at raw 0; name_rva = u32_at raw 12; iat_rva = u32_at raw 16 }
        ∷ rest
]

-- `import_descriptors`
unfoldable pub import_descriptors : PeImage → List ImportDescriptor
unfolding import_scan_limit
import_descriptors img =
    if present (directory img 1)
    then descriptors_from import_scan_limit img (directory img 1).rva
    else []

-- One thunk that is not zero: by ordinal if the top bit is set, else by hint and name.
unfoldable pub import_symbol : PeImage → Option (List ℕ) → ℕ → ℕ → ℕ → ImportSymbol
import_symbol img dll entry slot_rva iat_rva =
    if not (entry / 2 ^ 63 == 0)
    then (record {
      dll = dll;
      name = none;
      ordinal = some (entry % 0x10000);
      hint = none;
      iat_rva = iat_rva;
      ilt_rva = slot_rva;
    })
    else record {
      dll = dll;
      name = read_cstring_rva img (entry % 0x80000000 + 2);
      ordinal = none;
      hint = option_map (λ raw. u16_at raw 0) (read_rva img (entry % 0x80000000) 2);
      iat_rva = iat_rva;
      ilt_rva = slot_rva;
    }

-- The loop over the thunks of one descriptor, 8 bytes a slot.
unfoldable pub thunks_from : ℕ → PeImage → Option (List ℕ) → ℕ → ℕ → List ImportSymbol
thunks_from zero img dll slot_rva iat_rva = []
thunks_from (suc n) img dll slot_rva iat_rva = elim (read_rva img slot_rva 8) [
  | none ↦ []
  | some raw ↦
      let rest = thunks_from n img dll (slot_rva + 8) (iat_rva + 8) in
      if le_value raw == 0 then [] else import_symbol img dll (le_value raw) slot_rva iat_rva ∷ rest
]

-- descriptor.ilt_rva or descriptor.iat_rva
unfoldable pub thunk_rva : ImportDescriptor → ℕ
thunk_rva d = if d.ilt_rva == 0 then d.iat_rva else d.ilt_rva

-- The name of the DLL; an empty one counts as none (`or "?"`).
unfoldable pub dll_name : PeImage → ImportDescriptor → Option (List ℕ)
dll_name img d = elim (read_cstring_rva img d.name_rva) [
  | none ↦ none
  | some [] ↦ none
  | some (b ∷ bs) ↦ some (b ∷ bs)
]

unfoldable pub imports_of : PeImage → ImportDescriptor → List ImportSymbol
unfolding import_scan_limit
imports_of img d =
    if thunk_rva d == 0
    then []
    else thunks_from import_scan_limit img (dll_name img d) (thunk_rva d) d.iat_rva

unfoldable pub all_imports : PeImage → List ImportDescriptor → List ImportSymbol
all_imports img [] = []
all_imports img (d ∷ ds) = imports_of img d ++ all_imports img ds

-- `imports`
unfoldable pub imports : PeImage → List ImportSymbol
imports img = all_imports img (import_descriptors img)
