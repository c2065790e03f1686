-- ===== src/Functions/Overlap.antt =====
-- An external range that starts before a range of `.pdata` and ends inside it.
use linuxrecomp.Base.{
  ℕ, ◌+◌, ◌-◌, ◌<◌, ◌≡◌, refl, ◌∙◌, ap, Bool, true, false, ◌&&◌, none, some, List, [], ◌∷◌, arith,
  ltb, leb, any_of,
}
use mathlib.Core.Path.{ap₂}
use linuxrecomp.Pe64.{PeImage}
use linuxrecomp.Functions.{Function, Region, is_covered, covers, ghidra, merge_unwind_regions}
use linuxrecomp.Functions.Recover.{
  Found, Notes, no_notes, pdata_functions, add_bound, add_bounds, external_bounds, insert_bounds,
  recover_functions,
}
use linuxrecomp.Functions.Order.{any_of-add, any_of-sort_by_start}
use linuxrecomp.Functions.Kept.{
  has_range, is_region, sorted_pdata, with_bounds-kept, has_range-IgnoresName,
  recover_functions-has_range,
}

unfoldable pub in_some_region : ℕ → Region → Bool
in_some_region rva r = ltb r.begin_rva r.end_rva && (leb r.begin_rva rva && ltb rva r.end_rva)

is_covered-pdata_functions :
    (rva : ℕ) (rs : List Region)
    → is_covered (pdata_functions rs) rva ≡ any_of (in_some_region rva) rs
unfolding is_covered pdata_functions any_of in_some_region
is_covered-pdata_functions rva [] = refl
is_covered-pdata_functions rva (r ∷ rs) = ground (arith, is_covered-pdata_functions rva rs)

add_bound-has_range :
    (s e : ℕ) (fs : List Function) (notes : Notes)
    → is_covered fs s ≡ false
    → any_of (has_range s e) (add_bound (s, e) (fs, notes)).0 ≡ true
unfolding add_bound has_range
add_bound-has_range s e fs notes h = ground (
  arith,
  h,
  any_of-add (has_range s e)
      (record { start_rva = s; end_rva = some e; name = none; source = ghidra }) fs,
)

external_bounds-one :
    (base s e : ℕ) → external_bounds base ((base + s, base + e) ∷ []) ≡ ((s, e) ∷ [], false)
unfolding external_bounds insert_bounds
external_bounds-one base s e =
    rw (not_below, external_bounds)
      (ap (λ b. ((b ∷ []), false)) (ap₂ (λ a b. (a, b)) less_s less_e))
  where
    not_below : ltb (base + s) base ≡ false
    not_below = ground arith

    less_s : base + s - base ≡ s
    less_s = omega arith

    less_e : base + e - base ≡ e
    less_e = omega arith

-- One external range with a start that no range of the unwind table holds is kept up to its end,
-- although a range of the unwind table starts inside it: both are returned, and they overlap.
pub recover_functions-overlap :
    (img : PeImage) (s e begin end : ℕ)
    → s < begin
    → begin < e
    → begin < end
    → any_of (in_some_region s) (merge_unwind_regions img) ≡ false
    → any_of (is_region begin end) (merge_unwind_regions img) ≡ true
    → (any_of
          (has_range s e)
          (recover_functions img ((img.image_base + s, img.image_base + e) ∷ [])).0
        ≡ true)
      × (any_of
            (has_range begin end)
            (recover_functions img ((img.image_base + s, img.image_base + e) ∷ [])).0
          ≡ true)
unfolding external_bounds insert_bounds add_bounds is_covered
recover_functions-overlap img s e begin end before inside nonempty free region = (
  with_bounds-kept (has_range s e) (has_range-IgnoresName s e) img bounds (
      ap (λ found. any_of (has_range s e) (bounds_of found).0)
        (external_bounds-one img.image_base s e)
      ∙ add_bound-has_range s e (sorted_pdata img)
          (record no_notes { bounds_outside_image = false })
          (any_of-sort_by_start (λ f. covers f s) (pdata_functions (merge_unwind_regions img))
            ∙ is_covered-pdata_functions s (merge_unwind_regions img)
            ∙ free)),
  recover_functions-has_range img bounds begin end nonempty region,
)
  where
    bounds : List (ℕ × ℕ)
    bounds = (img.image_base + s, img.image_base + e) ∷ []

    bounds_of : List (ℕ × ℕ) × Bool → Found
    bounds_of (external, outside) =
        add_bounds external (sorted_pdata img, record no_notes { bounds_outside_image = outside })
