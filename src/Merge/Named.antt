-- ===== src/Merge/Named.antt =====
-- The names of the table that `merge` returns.
use linuxrecomp.Base.{
  ℕ, Bool, true, false, List, [], ◌∷◌, ◌++◌, ◌≡◌, refl, Bool-cases, Option-cases, inl, inr, any_of,
  All,
}
use linuxrecomp.Base.Text.{codes, underscore, hex8}
use linuxrecomp.Merge.{
  is_reserved, sanitize, Entry, NameSource, Merged, lookup, is_chosen, claim, sort_by_address,
  distinct_name, merge_claim, merge_table, merge_sources, set_files, add_file, add_files, merge,
  nothing_merged,
}
use linuxrecomp.Merge.Identifiers.{
  is_identifier, has_underscore, sanitize-is_identifier, is_identifier-append, all_of, all_of-hex8,
  has_underscore-append, is_reserved-has_underscore,
}

module _ (kwlist : List (List ℕ)) where
  -- The name is an identifier of C, and no reserved word.
  abbrev pub IsNamed : ℕ × Entry → Type 0
  IsNamed (addr, e) = (is_identifier e.name ≡ true) × (is_reserved kwlist e.name ≡ false)

  abbrev AreNamed : Merged → Type 0
  AreNamed m = All IsNamed m.chosen

  All-last :
      (entries : List (ℕ × Entry)) (c : ℕ × Entry)
      → All IsNamed entries
      → IsNamed c
      → All IsNamed (entries ++ (c ∷ []))
  All-last [] c h last = (last, tt)
  All-last (e ∷ entries) c (h, hs) last = (h, All-last entries c hs last)

  module _ (plain : any_of has_underscore kwlist ≡ false) where
    suffixed_named :
        (ident : List ℕ) (addr : ℕ)
        → is_identifier ident ≡ true
        → (is_identifier (ident ++ (underscore ∷ hex8 addr)) ≡ true)
          × (is_reserved kwlist (ident ++ (underscore ∷ hex8 addr)) ≡ false)
    unfolding all_of
    suffixed_named ident addr h = (
      is_identifier-append ident (underscore ∷ hex8 addr) h (all_of-hex8 addr),
      is_reserved-has_underscore kwlist _ plain (has_underscore-append kwlist ident (hex8 addr)),
    )

    distinct_name-named :
        (ident : List ℕ) (addr : ℕ) (b : Bool)
        → is_identifier ident ≡ true
        → is_reserved kwlist ident ≡ false
        → (is_identifier (distinct_name ident addr b).0 ≡ true)
          × (is_reserved kwlist (distinct_name ident addr b).0 ≡ false)
    unfolding distinct_name
    distinct_name-named ident addr true h free = suffixed_named ident addr h
    distinct_name-named ident addr false h free = (h, free)

    merge_claim-AreNamed :
        (label : List ℕ) (c : ℕ × List ℕ) (m : Merged)
        → AreNamed m
        → AreNamed (merge_claim kwlist label c m)
    unfolding merge_claim claim
    merge_claim-AreNamed label (addr, raw) m h = elim (Bool-cases (is_chosen addr m.chosen)) [
      | inl chosen ↦ rw (chosen, merge_claim) h
      | inr free ↦ elim (Option-cases (sanitize kwlist raw)) [
        | inl unusable ↦ rw (free, unusable, merge_claim) h
        | inr (ident, usable) ↦
            let (good, word) = sanitize-is_identifier kwlist raw ident plain usable in
            rw (free, usable, merge_claim)
              (All-last m.chosen _ h (distinct_name-named ident addr _ good word))
      ]
    ]

    merge_table-AreNamed :
        (label : List ℕ) (table : List (ℕ × List ℕ)) (m : Merged)
        → AreNamed m
        → AreNamed (merge_table kwlist label table m)
    unfolding merge_table
    merge_table-AreNamed label [] m h = h
    merge_table-AreNamed label (c ∷ table) m h =
        merge_table-AreNamed label table _ (merge_claim-AreNamed label c m h)

    merge_sources-AreNamed :
        (sources : List NameSource) (m : Merged)
        → AreNamed m
        → AreNamed (merge_sources kwlist sources m)
    unfolding merge_sources
    merge_sources-AreNamed [] m h = h
    merge_sources-AreNamed (s ∷ sources) m h =
        merge_sources-AreNamed sources _
          (merge_table-AreNamed s.label (sort_by_address s.table) m h)

    set_files-IsNamed :
        (files : List (ℕ × List ℕ)) (entries : List (ℕ × Entry))
        → All IsNamed entries
        → All IsNamed (set_files files entries)
    unfolding set_files
    set_files-IsNamed files [] h = tt
    set_files-IsNamed files ((addr, e) ∷ entries) (h, hs) =
        elim (Option-cases (lookup addr files)) [
          | inl no_file ↦ rw (no_file, set_files) (h, set_files-IsNamed files entries hs)
          | inr (fname, found) ↦ rw (found, set_files) (h, set_files-IsNamed files entries hs)
        ]

    add_file-AreNamed : (f : ℕ × List ℕ) (m : Merged) → AreNamed m → AreNamed (add_file f m)
    unfolding add_file is_identifier all_of
    add_file-AreNamed (addr, fname) m h = elim (Bool-cases (is_chosen addr m.chosen)) [
      | inl chosen ↦ rw (chosen, add_file) h
      | inr free ↦
          rw (free, add_file) (All-last m.chosen _ h (suffixed_named (codes "sub") addr refl))
    ]

    add_files-AreNamed :
        (files : List (ℕ × List ℕ)) (m : Merged) → AreNamed m → AreNamed (add_files files m)
    unfolding add_files
    add_files-AreNamed [] m h = h
    add_files-AreNamed (f ∷ files) m h = add_files-AreNamed files _ (add_file-AreNamed f m h)

  -- Every name of the merged table is an identifier of C and no reserved word, where no keyword of Python
  -- has a `_`.
  pub merge-IsNamed :
      (sources : List NameSource) (files : List (ℕ × List ℕ))
      → any_of has_underscore kwlist ≡ false
      → All IsNamed (merge kwlist sources files).chosen
  unfolding merge
  merge-IsNamed sources files plain =
      let named = merge_sources kwlist sources nothing_merged in
      add_files-AreNamed plain files (record named { chosen = set_files files named.chosen })
        (set_files-IsNamed plain files named.chosen
          (merge_sources-AreNamed plain sources nothing_merged tt))
