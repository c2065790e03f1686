-- ===== src/Functions/Kept.antt =====
-- About `recover_functions`: what becomes of the ranges of `.pdata` as the other sources are added.
use linuxrecomp.Base.{
  ℕ, ◌<◌, ◌≡◌, refl, ◌∙◌, Bool, true, false, ◌&&◌, none, some, List, [], ◌∷◌, arith, ◌==◌, any_of,
}
use linuxrecomp.Pe64.{PeImage}
use linuxrecomp.Pe64.Address.{code_ranges}
use linuxrecomp.Pe64.Exports.{exports}
use linuxrecomp.Functions.{Function, FunctionName, Region, sort_by_start, merge_unwind_regions}
use linuxrecomp.Functions.Recover.{
  Found, no_notes, pdata_functions, add_bound, add_bounds, external_bounds, add_export, add_exports,
  add_entry, with_name, with_names, collect, recover_functions, name_map,
}
use linuxrecomp.Functions.Order.{any_of-add, any_of-sort_by_start}

-- A test on a function that does not look at its name.
abbrev pub IgnoresName : (Function → Bool) → Type 0
IgnoresName p = (names : List (ℕ × FunctionName)) (f : Function) → p (with_name names f) ≡ p f

module _ (p : Function → Bool) where
  add_bound-keeps :
      (b : ℕ × ℕ) (found : Found) → any_of p found.0 ≡ true → any_of p (add_bound b found).0 ≡ true
  unfolding add_bound
  add_bound-keeps (s, e) (fs, notes) h = grind (arith, any_of-add)

  pub add_bounds-keeps :
      (bs : List (ℕ × ℕ)) (found : Found)
      → any_of p found.0 ≡ true
      → any_of p (add_bounds bs found).0 ≡ true
  unfolding add_bounds
  add_bounds-keeps [] found h = h
  add_bounds-keeps (b ∷ bs) found h =
      add_bounds-keeps bs (add_bound b found) (add_bound-keeps b found h)

  add_export-keeps :
      (code : List (ℕ × ℕ)) (n : ℕ × FunctionName) (found : Found)
      → any_of p found.0 ≡ true
      → any_of p (add_export code n found).0 ≡ true
  unfolding add_export
  add_export-keeps code (rva, n) (fs, notes) h = grind (arith, any_of-add)

  pub add_exports-keeps :
      (code : List (ℕ × ℕ)) (ns : List (ℕ × FunctionName)) (found : Found)
      → any_of p found.0 ≡ true
      → any_of p (add_exports code ns found).0 ≡ true
  unfolding add_exports
  add_exports-keeps code [] found h = h
  add_exports-keeps code (n ∷ ns) found h =
      add_exports-keeps code ns (add_export code n found) (add_export-keeps code n found h)

  add_entry-keeps :
      (rva : ℕ) (names : List (ℕ × FunctionName)) (found : Found)
      → any_of p found.0 ≡ true
      → any_of p (add_entry rva names found).0 ≡ true
  unfolding add_entry
  add_entry-keeps rva names (fs, notes) h = grind (arith, any_of-add)

  any_of-with_names :
      (names : List (ℕ × FunctionName)) (fs : List Function)
      → IgnoresName p
      → any_of p (with_names names fs) ≡ any_of p fs
  unfolding any_of with_names
  any_of-with_names names [] h = refl
  any_of-with_names names (f ∷ fs) h = ground (arith, h names f, any_of-with_names names fs h)

-- A function with this range.
unfoldable pub has_range : ℕ → ℕ → Function → Bool
has_range begin end f = f.start_rva == begin && elim f.end_rva [ none ↦ false | some e ↦ e == end ]

unfoldable pub is_region : ℕ → ℕ → Region → Bool
is_region begin end r = r.begin_rva == begin && r.end_rva == end

pub pdata_functions-has_range :
    (begin end : ℕ) (rs : List Region)
    → begin < end
    → any_of (is_region begin end) rs ≡ true
    → any_of (has_range begin end) (pdata_functions rs) ≡ true
unfolding pdata_functions has_range is_region any_of
pdata_functions-has_range begin end [] lt h = cc
pdata_functions-has_range begin end (r ∷ rs) lt h =
    grind (arith, pdata_functions-has_range begin end rs lt)

pub has_range-IgnoresName : (begin end : ℕ) → IgnoresName (has_range begin end)
unfolding has_range with_name
has_range-IgnoresName begin end names f = refl

abbrev pub names_of : PeImage → List (ℕ × FunctionName)
names_of img = name_map (exports img) []

abbrev pub sorted_pdata : PeImage → List Function
sorted_pdata img = sort_by_start (pdata_functions (merge_unwind_regions img))

abbrev pub with_bounds : PeImage → List (ℕ × ℕ) → Found
with_bounds img bounds =
    let (external, outside) = external_bounds img.image_base bounds in
    add_bounds external (sorted_pdata img, record no_notes { bounds_outside_image = outside })

abbrev pub with_exports : PeImage → List (ℕ × ℕ) → Found
with_exports img bounds = add_exports (code_ranges img) (names_of img) (with_bounds img bounds)

-- What is found before the naming is there after it.
module _ (p : Function → Bool) (any_name : IgnoresName p) (img : PeImage)
    (bounds : List (ℕ × ℕ)) where
  pub recover_functions-named :
      any_of p (add_entry img.entrypoint_rva (names_of img) (with_exports img bounds)).0 ≡ true
      → any_of p (recover_functions img bounds).0 ≡ true
  unfolding recover_functions collect
  recover_functions-named h =
      any_of-sort_by_start p (with_names (names_of img) fs)
      ∙ any_of-with_names p (names_of img) fs any_name
      ∙ h
    where
      fs : List Function
      fs = (add_entry img.entrypoint_rva (names_of img) (with_exports img bounds)).0

  pub with_exports-kept :
      any_of p (with_exports img bounds).0 ≡ true → any_of p (recover_functions img bounds).0 ≡ true
  with_exports-kept h =
      recover_functions-named
        (add_entry-keeps p img.entrypoint_rva (names_of img) (with_exports img bounds) h)

  pub with_bounds-kept :
      any_of p (with_bounds img bounds).0 ≡ true → any_of p (recover_functions img bounds).0 ≡ true
  with_bounds-kept h =
      with_exports-kept
        (add_exports-keeps p (code_ranges img) (names_of img) (with_bounds img bounds) h)

-- A range of the unwind table that is not empty is a function with the same start and end.
pub recover_functions-has_range :
    (img : PeImage) (bounds : List (ℕ × ℕ)) (begin end : ℕ)
    → begin < end
    → any_of (is_region begin end) (merge_unwind_regions img) ≡ true
    → any_of (has_range begin end) (recover_functions img bounds).0 ≡ true
recover_functions-has_range img bounds begin end lt h =
    with_bounds-kept p (has_range-IgnoresName begin end) img bounds (
      add_bounds-keeps p external.0
        (sorted_pdata img, record no_notes { bounds_outside_image = external.1 })
        (any_of-sort_by_start p (pdata_functions (merge_unwind_regions img))
          ∙ pdata_functions-has_range begin end (merge_unwind_regions img) lt h))
  where
    p : Function → Bool
    p = has_range begin end

    external : List (ℕ × ℕ) × Bool
    external = external_bounds img.image_base bounds
