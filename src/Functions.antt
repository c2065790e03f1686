-- ===== src/Functions.antt =====
-- tools/linux64/functions.py: function ranges, merged from the unwind table, external bounds, exports
-- and the entry point. The end of an external range is not below its start (`load_bounds_csv` refuses
-- such a row), so that an RVA is a natural number here.
pub mod Recover
pub mod Order
pub mod Kept
pub mod Found
pub mod Overlap
pub mod Regions
pub mod Validate
pub mod Disjoint
pub mod Apart
mod Tests
use linuxrecomp.Base.{
  ℕ, ◌+◌, ◌-◌, ◌≤◌, ◌<◌, Bool, true, false, not, ◌&&◌, Option, none, some, List, [], ◌∷◌, ◌++◌,
  if◌then◌else◌, leb, ltb, ◌==◌, any_of,
}
use linuxrecomp.Pe64.{PeImage}
use linuxrecomp.Pe64.Exceptions.{RuntimeFunction, runtime_functions, unwind_info, is_chained}
use linuxrecomp.Pe64.Exports.{ExportSymbol}

-- `Function.source`
pub data Source : Type 0 where
  pdata ghidra export_ entrypoint : Source

-- A name: an exported text, `ordinal_<n>`, or "entrypoint".
pub data FunctionName : Type 0 where
  named : List ℕ → FunctionName
  ordinal : ℕ → FunctionName
  entry : FunctionName

-- `Function`; `end_rva` is `none` where the end is not known.
pub record Function : Type 0 where
  pub start_rva : ℕ
  pub end_rva : Option ℕ
  pub name : Option FunctionName
  pub source : Source

unfoldable pub covers : Function → ℕ → Bool
covers f rva = elim f.end_rva [ none ↦ false | some end ↦ leb f.start_rva rva && ltb rva end ]

-- `_covered_by(…) is not None`
unfoldable pub is_covered : List Function → ℕ → Bool
unfolding covers
is_covered fs rva = any_of (λ f. covers f rva) fs

-- `_at_start(…) is not None`
unfoldable pub is_start : List Function → ℕ → Bool
is_start fs rva = any_of (λ (f : Function). f.start_rva == rva) fs

-- Python's stable sort by `start_rva`: an item goes behind those with the same key.
unfoldable pub insert_by_start : Function → List Function → List Function
insert_by_start f [] = f ∷ []
insert_by_start f (g ∷ gs) =
    if ltb f.start_rva g.start_rva then f ∷ (g ∷ gs) else g ∷ insert_by_start f gs

unfoldable pub sort_onto : List Function → List Function → List Function
sort_onto sorted [] = sorted
sort_onto sorted (f ∷ fs) = sort_onto (insert_by_start f sorted) fs

unfoldable pub sort_by_start : List Function → List Function
sort_by_start fs = sort_onto [] fs

-- `add`: append, and sort again.
unfoldable pub add : Function → List Function → List Function
add f fs = sort_by_start (fs ++ (f ∷ []))

-- One merged range of `merge_unwind_regions`: begin, end and the number of regions.
pub record Region : Type 0 where
  pub begin_rva : ℕ
  pub end_rva : ℕ
  pub count : ℕ

unfoldable pub insert_by_begin : RuntimeFunction → List RuntimeFunction → List RuntimeFunction
insert_by_begin f [] = f ∷ []
insert_by_begin f (g ∷ gs) =
    if ltb f.begin_rva g.begin_rva then f ∷ (g ∷ gs) else g ∷ insert_by_begin f gs

unfoldable pub sort_regions : List RuntimeFunction → List RuntimeFunction → List RuntimeFunction
sort_regions sorted [] = sorted
sort_regions sorted (f ∷ fs) = sort_regions (insert_by_begin f sorted) fs

-- `info is not None and info.is_chained`
unfoldable pub chained_entry : PeImage → RuntimeFunction → Bool
chained_entry img f = elim (unwind_info img f.unwind_rva) [ none ↦ false | some u ↦ is_chained u ]

abbrev pub region_of : RuntimeFunction → Region
region_of e = record { begin_rva = e.begin_rva; end_rva = e.end_rva; count = 1 }

-- The loop over the sorted entries; `last` is `merged[-1]`.
unfoldable pub merge_onto : (RuntimeFunction → Bool) → Region → List RuntimeFunction → List Region
merge_onto chained last [] = last ∷ []
merge_onto chained last (e ∷ es) =
    let joined =
      merge_onto chained
        (record { begin_rva = last.begin_rva; end_rva = e.end_rva; count = last.count + 1 }) es in
    let apart = last ∷ merge_onto chained (region_of e) es in
    if chained e && last.end_rva == e.begin_rva then joined else apart

unfoldable pub merge_entries : (RuntimeFunction → Bool) → List RuntimeFunction → List Region
merge_entries chained [] = []
merge_entries chained (e ∷ es) = merge_onto chained (region_of e) es

-- `merge_unwind_regions`
unfoldable pub merge_unwind_regions : PeImage → List Region
merge_unwind_regions img =
    merge_entries (chained_entry img) (sort_regions [] (runtime_functions img))
