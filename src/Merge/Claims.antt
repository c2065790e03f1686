-- ===== src/Merge/Claims.antt =====
-- Whose name an address gets from `merge`.
use linuxrecomp.Base.{
  ℕ, true, false, Option, none, some, List, [], ◌∷◌, ◌++◌, ◌==◌, leb, ◌≡◌, refl, ap, sym, ◌∙◌,
  if◌then◌else◌, arith, Bool-cases, Option-cases, inl, inr,
}
use linuxrecomp.Base.Text.{codes}
use linuxrecomp.Merge.{
  Entry, NameSource, Merged, lookup, is_chosen, claim, insert_by_address, sort_by_address, sanitize,
  merge_claim, merge_table, merge_sources, set_files, add_file, add_files, merge, nothing_merged,
}

-- The text and the source that an entry comes from.
unfoldable pub attribution : Option Entry → Option (List ℕ × List ℕ)
attribution none = none
attribution (some e) = some (e.raw, e.source)

unfoldable pub or_else {ℓ} : {A : Type ℓ} → Option A → Option A → Option A
or_else none other = other
or_else (some a) other = some a

or_else_assoc {ℓ} :
    {A : Type ℓ} (x y z : Option A) → or_else (or_else x y) z ≡ or_else x (or_else y z)
unfolding or_else
or_else_assoc none y z = refl
or_else_assoc (some a) y z = refl

or_else_none {ℓ} : {A : Type ℓ} (x : Option A) → or_else x none ≡ x
unfolding or_else
or_else_none none = refl
or_else_none (some a) = refl

module _ (kwlist : List (List ℕ)) (addr : ℕ) where
  -- What a table claims for the address: its first text that `sanitize` can use.
  unfoldable pub claim_of : List ℕ → ℕ × List ℕ → Option (List ℕ × List ℕ)
  claim_of label (a, raw) =
      if a == addr
      then elim (sanitize kwlist raw) [ none ↦ none | some ident ↦ some (raw, label) ]
      else none

  unfoldable pub table_claim : List ℕ → List (ℕ × List ℕ) → Option (List ℕ × List ℕ)
  table_claim label [] = none
  table_claim label (c ∷ table) = or_else (claim_of label c) (table_claim label table)

  -- The claim of the first source that has one.
  unfoldable pub first_claim : List NameSource → Option (List ℕ × List ℕ)
  first_claim [] = none
  first_claim (s ∷ sources) = or_else (table_claim s.label s.table) (first_claim sources)

  -- What is known of the address.
  known : Merged → Option (List ℕ × List ℕ)
  known m = attribution (lookup addr m.chosen)

  lookup_last :
      (a : ℕ) (e : Entry) (entries : List (ℕ × Entry))
      → attribution (lookup addr (entries ++ ((a, e) ∷ [])))
        ≡ or_else
            (attribution (lookup addr entries))
            (if a == addr then some (e.raw, e.source) else none)
  unfolding lookup attribution or_else
  lookup_last a e [] = elim (Bool-cases (a == addr)) [ inl same ↦ rw same | inr other ↦ rw other ]
  lookup_last a e ((b, f) ∷ entries) = elim (Bool-cases (b == addr)) [
    | inl same ↦ rw (same, lookup)
    | inr other ↦ rw (other, lookup) (lookup_last a e entries)
  ]

  -- An address that is chosen is known.
  known_chosen :
      (a : ℕ) (entries : List (ℕ × Entry)) (other : Option (List ℕ × List ℕ))
      → is_chosen a entries ≡ true
      → (a == addr) ≡ true
      → or_else (attribution (lookup addr entries)) other ≡ attribution (lookup addr entries)
  unfolding is_chosen lookup attribution or_else
  known_chosen a [] other h same = cc
  known_chosen a ((b, f) ∷ entries) other h same = elim (Bool-cases (b == addr)) [
    | inl here ↦ rw (here, lookup)
    | inr there ↦
        rw (there, lookup) (known_chosen a entries other (ground (arith, there, same, h)) same)
  ]

  known-merge_claim :
      (label : List ℕ) (c : ℕ × List ℕ) (m : Merged)
      → known (merge_claim kwlist label c m) ≡ or_else (known m) (claim_of label c)
  unfolding merge_claim claim_of known claim
  known-merge_claim label (a, raw) m = elim (Bool-cases (is_chosen a m.chosen)) [
    | inl chosen ↦ elim (Bool-cases (a == addr)) [
      | inl same ↦ rw (chosen, same, merge_claim) (sym (known_chosen a m.chosen _ chosen same))
      | inr other ↦ rw (chosen, other, merge_claim) (sym (or_else_none _))
    ]
    | inr free ↦ elim (Option-cases (sanitize kwlist raw)) [
      | inl unusable ↦ elim (Bool-cases (a == addr)) [
        | inl same ↦ rw (free, unusable, same, merge_claim) (sym (or_else_none _))
        | inr other ↦ rw (free, unusable, other, merge_claim) (sym (or_else_none _))
      ]
      | inr (ident, usable) ↦ rw (free, usable, merge_claim) (lookup_last a _ m.chosen)
    ]
  ]

  known-merge_table :
      (label : List ℕ) (table : List (ℕ × List ℕ)) (m : Merged)
      → known (merge_table kwlist label table m) ≡ or_else (known m) (table_claim label table)
  unfolding merge_table table_claim
  known-merge_table label [] m = sym (or_else_none (known m))
  known-merge_table label (c ∷ table) m =
      known-merge_table label table (merge_claim kwlist label c m)
      ∙ ap (λ k. or_else k (table_claim label table)) (known-merge_claim label c m)
      ∙ or_else_assoc (known m) (claim_of label c) (table_claim label table)

  -- Claims for different addresses can change places.
  claims_swap :
      (label : List ℕ) (a b : ℕ) (r s : List ℕ) (rest : Option (List ℕ × List ℕ))
      → leb a b ≡ false
      → or_else (claim_of label (b, s)) (or_else (claim_of label (a, r)) rest)
        ≡ or_else (claim_of label (a, r)) (or_else (claim_of label (b, s)) rest)
  unfolding claim_of or_else
  claims_swap label a b r s rest apart = elim (Bool-cases (a == addr)) [
    | inl here ↦ let other : (b == addr) ≡ false = ground (arith, apart, here) in rw (other, here)
    | inr there ↦ rw there
  ]

  table_claim-insert :
      (label : List ℕ) (c : ℕ × List ℕ) (table : List (ℕ × List ℕ))
      → table_claim label (insert_by_address c table) ≡ table_claim label (c ∷ table)
  unfolding table_claim insert_by_address
  table_claim-insert label (a, r) [] = refl
  table_claim-insert label (a, r) ((b, s) ∷ table) = elim (Bool-cases (leb a b)) [
    | inl front ↦ rw (front, insert_by_address)
    | inr behind ↦
        rw (behind, insert_by_address)
          (ap (or_else (claim_of label (b, s))) (table_claim-insert label (a, r) table)
            ∙ claims_swap label a b r s (table_claim label table) behind)
  ]

  table_claim-sort :
      (label : List ℕ) (table : List (ℕ × List ℕ))
      → table_claim label (sort_by_address table) ≡ table_claim label table
  unfolding sort_by_address table_claim
  table_claim-sort label [] = refl
  table_claim-sort label (c ∷ table) =
      table_claim-insert label c (sort_by_address table)
      ∙ ap (or_else (claim_of label c)) (table_claim-sort label table)

  known-merge_sources :
      (sources : List NameSource) (m : Merged)
      → known (merge_sources kwlist sources m) ≡ or_else (known m) (first_claim sources)
  unfolding merge_sources first_claim
  known-merge_sources [] m = sym (or_else_none (known m))
  known-merge_sources (s ∷ sources) m =
      let sorted = sort_by_address s.table in
      known-merge_sources sources (merge_table kwlist s.label sorted m)
      ∙ ap (λ k. or_else k (first_claim sources))
          (known-merge_table s.label sorted m
            ∙ ap (or_else (known m)) (table_claim-sort s.label s.table))
      ∙ or_else_assoc (known m) (table_claim s.label s.table) (first_claim sources)

  set_files_known :
      (files : List (ℕ × List ℕ)) (entries : List (ℕ × Entry))
      → attribution (lookup addr (set_files files entries)) ≡ attribution (lookup addr entries)
  unfolding set_files lookup attribution
  set_files_known files [] = refl
  set_files_known files ((a, e) ∷ entries) = elim (Bool-cases (a == addr)) [
    | inl here ↦ elim (Option-cases (lookup a files)) [
      | inl none_found ↦ rw (here, none_found, lookup)
      | inr (fname, found) ↦ rw (here, found, lookup)
    ]
    | inr there ↦ rw (there, lookup) (set_files_known files entries)
  ]

  -- What the files add for the address.
  unfoldable pub file_claim : List (ℕ × List ℕ) → Option (List ℕ × List ℕ)
  file_claim files = if is_chosen addr files then some ([], codes "unnamed") else none

  known-add_file :
      (a : ℕ) (fname : List ℕ) (m : Merged)
      → known (add_file (a, fname) m)
        ≡ or_else (known m) (if a == addr then some ([], codes "unnamed") else none)
  unfolding add_file known
  known-add_file a fname m = elim (Bool-cases (is_chosen a m.chosen)) [
    | inl chosen ↦ elim (Bool-cases (a == addr)) [
      | inl same ↦ rw (chosen, same, add_file) (sym (known_chosen a m.chosen _ chosen same))
      | inr other ↦ rw (chosen, other, add_file) (sym (or_else_none _))
    ]
    | inr free ↦ rw (free, add_file) (lookup_last a _ m.chosen)
  ]

  file_claim_cons :
      (a : ℕ) (fname : List ℕ) (files : List (ℕ × List ℕ))
      → or_else (if a == addr then some ([], codes "unnamed") else none) (file_claim files)
        ≡ file_claim ((a, fname) ∷ files)
  unfolding file_claim is_chosen or_else
  file_claim_cons a fname files = elim (Bool-cases (a == addr)) [
    | inl same ↦ rw (same, is_chosen)
    | inr other ↦ rw (other, is_chosen)
  ]

  known-add_files :
      (files : List (ℕ × List ℕ)) (m : Merged)
      → known (add_files files m) ≡ or_else (known m) (file_claim files)
  unfolding add_files file_claim is_chosen
  known-add_files [] m = sym (or_else_none (known m))
  known-add_files ((a, fname) ∷ files) m =
      known-add_files files (add_file (a, fname) m)
      ∙ ap (λ k. or_else k (file_claim files)) (known-add_file a fname m)
      ∙ or_else_assoc (known m) _ (file_claim files)
      ∙ ap (or_else (known m)) (file_claim_cons a fname files)

  -- For each address of the merged table, its text and its source are those of the first claim: the first
  -- source, in their order, that has a usable text for it; or, where none has, the file's.
  pub merge-first_claim :
      (sources : List NameSource) (files : List (ℕ × List ℕ))
      → attribution (lookup addr (merge kwlist sources files).chosen)
        ≡ or_else (first_claim sources) (file_claim files)
  unfolding merge known first_claim or_else attribution lookup
  merge-first_claim sources files =
      let named = merge_sources kwlist sources nothing_merged in
      known-add_files files (record named { chosen = set_files files named.chosen })
      ∙ ap (λ k. or_else k (file_claim files))
          (set_files_known files named.chosen ∙ known-merge_sources sources nothing_merged)
