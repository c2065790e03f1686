-- ===== src/Functions/Recover.antt =====
-- `recover_functions`: the sources in trust order, and the names at the end.
use linuxrecomp.Base.{
  ℕ, ◌-◌, Bool, true, false, not, ◌&&◌, ◌||◌, Option, none, some, List, [], ◌∷◌, ◌++◌,
  if◌then◌else◌, leb, ltb, ◌==◌, any_of,
}
use linuxrecomp.Pe64.{PeImage}
use linuxrecomp.Pe64.Address.{code_ranges}
use linuxrecomp.Pe64.Exports.{ExportSymbol, exports}
use linuxrecomp.Functions.{
  Function, FunctionName, named, ordinal, entry, pdata, ghidra, export_, entrypoint, Region,
  is_covered, is_start, sort_by_start, add, merge_unwind_regions,
}

-- `notes`, as the set of its two reasons.
pub record Notes : Type 0 where
  pub bounds_outside_image : Bool
  pub split_starts : Bool

abbrev pub no_notes : Notes
no_notes = record { bounds_outside_image = false; split_starts = false }

-- The functions so far, and the notes.
abbrev pub Found : Type 0
Found = List Function × Notes

-- The ranges of `.pdata`; an empty or reversed one is left out.
unfoldable pub pdata_functions : List Region → List Function
pdata_functions [] = []
pdata_functions (r ∷ rs) =
    if ltb r.begin_rva r.end_rva
    then record { start_rva = r.begin_rva; end_rva = some r.end_rva; name = none; source = pdata }
      ∷ pdata_functions rs
    else pdata_functions rs

-- Tuples of RVAs, in their lexicographic order.
unfoldable pub insert_bounds : ℕ × ℕ → List (ℕ × ℕ) → List (ℕ × ℕ)
insert_bounds (s, e) [] = (s, e) ∷ []
insert_bounds (s, e) ((s', e') ∷ rest) =
    if ltb s s' || (s == s' && ltb e e')
    then (s, e) ∷ ((s', e') ∷ rest)
    else (s', e') ∷ insert_bounds (s, e) rest

-- The external bounds as sorted RVAs, and whether one lay below the image.
unfoldable pub external_bounds : ℕ → List (ℕ × ℕ) → List (ℕ × ℕ) × Bool
external_bounds base [] = ([], false)
external_bounds base ((start_va, end_va) ∷ rest) =
    let (found, outside) = external_bounds base rest in
    if ltb start_va base
    then (found, true)
    else (insert_bounds (start_va - base, end_va - base) found, outside)

-- One external range: a split where its start is covered, else a function.
unfoldable pub add_bound : ℕ × ℕ → Found → Found
add_bound (s, e) (fs, notes) =
    if is_covered fs s
    then (fs, record notes { split_starts = true })
    else (add (record { start_rva = s; end_rva = some e; name = none; source = ghidra }) fs, notes)

unfoldable pub add_bounds : List (ℕ × ℕ) → Found → Found
add_bounds [] found = found
add_bounds (b ∷ bs) found = add_bounds bs (add_bound b found)

-- names.get(rva)
unfoldable pub lookup_name : List (ℕ × FunctionName) → ℕ → Option FunctionName
lookup_name [] rva = none
lookup_name ((k, n) ∷ rest) rva = if k == rva then some n else lookup_name rest rva

-- symbol.name or f"ordinal_{symbol.ordinal}"
unfoldable pub symbol_name : ExportSymbol → FunctionName
symbol_name s = elim s.name [
  | none ↦ ordinal s.ordinal
  | some [] ↦ ordinal s.ordinal
  | some (b ∷ bs) ↦ named (b ∷ bs)
]

-- names.setdefault: the first name of an address stays.
unfoldable pub set_default : ℕ → FunctionName → List (ℕ × FunctionName) → List (ℕ × FunctionName)
set_default rva n names = elim (lookup_name names rva) [
  | none ↦ names ++ ((rva, n) ∷ [])
  | some old ↦ names
]

-- The name map, in the order of the first exports; forwarders have no code.
unfoldable pub name_map : List ExportSymbol → List (ℕ × FunctionName) → List (ℕ × FunctionName)
name_map [] names = names
name_map (s ∷ ss) names =
    name_map ss
      (elim s.forwarder [ none ↦ set_default s.rva (symbol_name s) names | some text ↦ names ])

unfoldable pub in_ranges : List (ℕ × ℕ) → ℕ → Bool
in_ranges ranges rva = any_of (λ (r : ℕ × ℕ). leb r.0 rva && ltb rva r.1) ranges

-- One export: a function where it is code, no start, and not covered.
unfoldable pub add_export : List (ℕ × ℕ) → ℕ × FunctionName → Found → Found
add_export code (rva, n) (fs, notes) =
    if not (in_ranges code rva)
    then (fs, notes)
    else if is_start fs rva
    then (fs, notes)
    else if is_covered fs rva
    then (fs, record notes { split_starts = true })
    else (
      add (record { start_rva = rva; end_rva = none; name = some n; source = export_ }) fs,
      notes,
    )

unfoldable pub add_exports : List (ℕ × ℕ) → List (ℕ × FunctionName) → Found → Found
add_exports code [] found = found
add_exports code (n ∷ ns) found = add_exports code ns (add_export code n found)

abbrev pub or_entry : Option FunctionName → FunctionName
or_entry none = entry
or_entry (some n) = n

-- The entry point, where nothing else covers it.
unfoldable pub add_entry : ℕ → List (ℕ × FunctionName) → Found → Found
add_entry rva names (fs, notes) =
    if rva == 0 || (is_start fs rva || is_covered fs rva) then (fs, notes) else (
      add
          (record {
            start_rva = rva;
            end_rva = none;
            name = some (or_entry (lookup_name names rva));
            source = entrypoint;
          })
          fs,
      notes,
    )

abbrev pub first_name : Option FunctionName → Option FunctionName → Option FunctionName
first_name (some n) other = some n
first_name none other = other

-- A function with its name filled in from the name map. (A function of the entry point has one.)
unfoldable pub with_name : List (ℕ × FunctionName) → Function → Function
with_name names f = record f { name = first_name f.name (lookup_name names f.start_rva) }

unfoldable pub with_names : List (ℕ × FunctionName) → List Function → List Function
with_names names [] = []
with_names names (f ∷ fs) = with_name names f ∷ with_names names fs

-- The functions and notes before the naming.
unfoldable pub collect :
    List Region → List (ℕ × ℕ) × Bool → List (ℕ × ℕ) → List (ℕ × FunctionName) → ℕ → Found
collect regions (external, outside) code names entry_rva = add_entry entry_rva names (
    add_exports code names (
      add_bounds external (
        sort_by_start (pdata_functions regions),
        record no_notes { bounds_outside_image = outside },
      )))

-- `recover_functions`
unfoldable pub recover_functions : PeImage → List (ℕ × ℕ) → Found
recover_functions img bounds =
    let names = name_map (exports img) [] in
    let (fs, notes) =
      collect (merge_unwind_regions img) (external_bounds img.image_base bounds) (code_ranges img)
        names img.entrypoint_rva in
    (sort_by_start (with_names names fs), notes)
