-- ===== src/Functions/Regions.antt =====
-- About `merge_unwind_regions`.
use linuxrecomp.Base.{
  ℕ, suc, ◌+◌, ◌≤◌, ◌≡◌, refl, ap, ◌∙◌, Bool, ◌&&◌, ◌||◌, List, [], ◌∷◌, arith, leb, ltb, ◌==◌,
  any_of, length, All, Bool-cases, inl, inr,
}
use linuxrecomp.Pe64.{PeImage}
use linuxrecomp.Pe64.Exceptions.{RuntimeFunction, runtime_functions}
use linuxrecomp.Functions.{
  Region, region_of, insert_by_begin, sort_regions, chained_entry, merge_onto, merge_entries,
  merge_unwind_regions,
}

-- The number of unwind regions that a list of merged ranges stands for.
unfoldable pub total_count : List Region → ℕ
total_count [] = 0
total_count (r ∷ rs) = r.count + total_count rs

unfoldable pub in_region : ℕ → Region → Bool
in_region rva r = leb r.begin_rva rva && ltb rva r.end_rva

unfoldable pub in_entry : ℕ → RuntimeFunction → Bool
in_entry rva e = leb e.begin_rva rva && ltb rva e.end_rva

-- The range of an entry is not reversed.
abbrev pub IsProper : RuntimeFunction → Type 0
IsProper e = e.begin_rva ≤ e.end_rva

length-insert_by_begin :
    (e : RuntimeFunction) (es : List RuntimeFunction)
    → length (insert_by_begin e es) ≡ suc (length es)
unfolding insert_by_begin
length-insert_by_begin e [] = refl
length-insert_by_begin e (g ∷ gs) = ground (arith, length-insert_by_begin e gs)

length-sort_regions :
    (sorted es : List RuntimeFunction) → length (sort_regions sorted es) ≡ length sorted + length es
unfolding sort_regions
length-sort_regions sorted [] = omega arith
length-sort_regions sorted (e ∷ es) =
    ground
      (arith, length-sort_regions (insert_by_begin e sorted) es, length-insert_by_begin e sorted)

any_of-insert_by_begin :
    (p : RuntimeFunction → Bool) (e : RuntimeFunction) (es : List RuntimeFunction)
    → any_of p (insert_by_begin e es) ≡ p e || any_of p es
unfolding insert_by_begin any_of
any_of-insert_by_begin p e [] = refl
any_of-insert_by_begin p e (g ∷ gs) = ground (arith, any_of-insert_by_begin p e gs)

any_of-sort_regions :
    (p : RuntimeFunction → Bool) (sorted es : List RuntimeFunction)
    → any_of p (sort_regions sorted es) ≡ any_of p sorted || any_of p es
unfolding sort_regions any_of
any_of-sort_regions p sorted [] = ground arith
any_of-sort_regions p sorted (e ∷ es) =
    ground (
      arith,
      any_of-sort_regions p (insert_by_begin e sorted) es,
      any_of-insert_by_begin p e sorted,
    )

insert_by_begin-All :
    (e : RuntimeFunction) (es : List RuntimeFunction)
    → IsProper e
    → All IsProper es
    → All IsProper (insert_by_begin e es)
unfolding insert_by_begin
insert_by_begin-All e [] h all = (h, tt)
insert_by_begin-All e (g ∷ gs) h all = ground (arith, insert_by_begin-All e gs h all.1)

sort_regions-All :
    (sorted es : List RuntimeFunction)
    → All IsProper sorted
    → All IsProper es
    → All IsProper (sort_regions sorted es)
unfolding sort_regions
sort_regions-All sorted [] h all = h
sort_regions-All sorted (e ∷ es) h all =
    sort_regions-All (insert_by_begin e sorted) es (insert_by_begin-All e sorted all.0 h) all.1

module _ (chained : RuntimeFunction → Bool) where
  total_count-merge_onto :
      (last : Region) (es : List RuntimeFunction)
      → total_count (merge_onto chained last es) ≡ last.count + length es
  unfolding merge_onto total_count
  total_count-merge_onto last [] = refl
  total_count-merge_onto last (e ∷ es) = ground (
    arith,
    total_count-merge_onto
        (record { begin_rva = last.begin_rva; end_rva = e.end_rva; count = last.count + 1 }) es,
    total_count-merge_onto (region_of e) es,
  )

  any_of-merge_onto :
      (rva : ℕ) (last : Region) (es : List RuntimeFunction)
      → last.begin_rva ≤ last.end_rva
      → All IsProper es
      → any_of (in_region rva) (merge_onto chained last es)
        ≡ (in_region rva last || any_of (in_entry rva) es)
  unfolding merge_onto any_of in_region in_entry
  any_of-merge_onto rva last [] h all = refl
  any_of-merge_onto rva last (e ∷ es) h all =
      elim (Bool-cases (chained e && last.end_rva == e.begin_rva)) [
        | inl joined ↦
            rw joined
              (any_of-merge_onto rva joined_region es (ground arith) all.1 ∙ spliced (ground arith))
        | inr apart ↦
            rw apart (
              ap (λ b. in_region rva last || b)
                (any_of-merge_onto rva (region_of e) es all.0 all.1))
      ]
    where
      joined_region : Region
      joined_region = record {
        begin_rva = last.begin_rva;
        end_rva = e.end_rva;
        count = last.count + 1;
      }

      spliced :
          last.end_rva ≡ e.begin_rva
          → (in_region rva joined_region || any_of (in_entry rva) es)
            ≡ (in_region rva last || (in_entry rva e || any_of (in_entry rva) es))
      spliced meet = ground (arith, all.0)

length-merge_onto-le :
    (chained : RuntimeFunction → Bool) (last : Region) (es : List RuntimeFunction)
    → length (merge_onto chained last es) ≤ suc (length es)
unfolding merge_onto
length-merge_onto-le chained last [] = omega arith
length-merge_onto-le chained last (e ∷ es) = ground (
  arith,
  length-merge_onto-le chained
      (record { begin_rva = last.begin_rva; end_rva = e.end_rva; count = last.count + 1 }) es,
  length-merge_onto-le chained (region_of e) es,
)

total_count-merge_entries :
    (chained : RuntimeFunction → Bool) (es : List RuntimeFunction)
    → total_count (merge_entries chained es) ≡ length es
unfolding merge_entries total_count
total_count-merge_entries chained [] = refl
total_count-merge_entries chained (e ∷ es) =
    ground (arith, total_count-merge_onto chained (region_of e) es)

length-merge_entries :
    (chained : RuntimeFunction → Bool) (es : List RuntimeFunction)
    → length (merge_entries chained es) ≤ length es
unfolding merge_entries
length-merge_entries chained [] = omega arith
length-merge_entries chained (e ∷ es) = length-merge_onto-le chained (region_of e) es

any_of-merge_entries :
    (chained : RuntimeFunction → Bool) (rva : ℕ) (es : List RuntimeFunction)
    → All IsProper es
    → any_of (in_region rva) (merge_entries chained es) ≡ any_of (in_entry rva) es
unfolding merge_entries any_of in_region in_entry
any_of-merge_entries chained rva [] all = refl
any_of-merge_entries chained rva (e ∷ es) all =
    any_of-merge_onto chained rva (region_of e) es all.0 all.1

-- The counts of the merged ranges add up to the number of runtime functions, and there are no more ranges than these.
pub merge_unwind_regions-total_count :
    (img : PeImage)
    → (total_count (merge_unwind_regions img) ≡ length (runtime_functions img))
      × (length (merge_unwind_regions img) ≤ length (runtime_functions img))
unfolding merge_unwind_regions
merge_unwind_regions-total_count img = (
  total_count-merge_entries (chained_entry img) sorted
      ∙ omega (arith, length-sort_regions [] (runtime_functions img)),
  omega (
    arith,
    length-merge_entries (chained_entry img) sorted,
    length-sort_regions [] (runtime_functions img),
  ),
)
  where
    sorted : List RuntimeFunction
    sorted = sort_regions [] (runtime_functions img)

-- Where no entry of the table is reversed, an RVA lies in a merged range exactly when it lies in the
-- range of an entry.
pub merge_unwind_regions-in_region :
    (img : PeImage) (rva : ℕ)
    → All IsProper (runtime_functions img)
    → any_of (in_region rva) (merge_unwind_regions img)
      ≡ any_of (in_entry rva) (runtime_functions img)
unfolding merge_unwind_regions any_of
merge_unwind_regions-in_region img rva all =
    any_of-merge_entries (chained_entry img) rva (sort_regions [] (runtime_functions img))
      (sort_regions-All [] (runtime_functions img) tt all)
    ∙ any_of-sort_regions (in_entry rva) [] (runtime_functions img)
