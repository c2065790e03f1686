-- ===== src/Score/Tests.antt =====
-- A score of two small catalogs.
use linuxrecomp.Base.{ℕ, ◌≡◌, ◌≤◌, ◌<◌, refl, Option, none, some, List, [], ◌∷◌, length, arith}
use linuxrecomp.Score.{
  CatalogEntry, EntryKind, start, alias, Scores, classify, known_ranges, false_starts,
}
use linuxrecomp.Score.Inside.{covered, classify-covered}

abbrev entry : EntryKind → ℕ → Option ℕ → CatalogEntry
entry kind address end = record { address = address; end = end; kind = kind }

abbrev known : List CatalogEntry
known = entry start 16 (some 32) ∷ entry start 40 none ∷ entry start 48 (some 64) ∷ []

-- A function with a short end, a split of the last, one that is not known, and two other names.
abbrev recovered : List CatalogEntry
recovered =
    entry start 16 (some 28)
    ∷ entry alias 20 (some 32)
    ∷ entry start 40 (some 44)
    ∷ entry start 50 (some 64)
    ∷ entry start 80 none
    ∷ entry alias 48 (some 64)
    ∷ []

scores_known :
    ((classify known recovered).true_positives ≡ 2)
    × ((classify known recovered).fp_split ≡ 1)
    × ((classify known recovered).fp_invented ≡ 1)
    × ((classify known recovered).false_negatives ≡ 1)
    × ((classify known recovered).alias_on_reference_start ≡ 1)
    × ((classify known recovered).ends.end_short_max_bytes ≡ 4)
unfolding classify linuxrecomp.Score.is_alias linuxrecomp.Score.is_listed linuxrecomp.Score.keep
    linuxrecomp.Score.insert_once linuxrecomp.Score.sorted_set linuxrecomp.Score.starts_of
    linuxrecomp.Score.addresses_of linuxrecomp.Score.proper_end known_ranges
    linuxrecomp.Score.bisect_right linuxrecomp.Score.strictly_inside linuxrecomp.Score.inside_at
    linuxrecomp.Score.inside_before linuxrecomp.Score.inside_known linuxrecomp.Score.end_of
    linuxrecomp.Score.claims_of linuxrecomp.Score.count_end linuxrecomp.Score.count_ends
    linuxrecomp.Score.end_scores linuxrecomp.Score.score_ends linuxrecomp.Score.candidate_starts
    linuxrecomp.Score.candidate_aliases false_starts linuxrecomp.Score.split_counts
    linuxrecomp.Score.is_some_range linuxrecomp.Score.insert_number linuxrecomp.Score.sort_numbers
    linuxrecomp.Base.any_of
scores_known = (refl, refl, refl, refl, refl, refl)

classify-covered_example :
    (classify known recovered).fp_split
    ≡ length (covered (known_ranges known) (false_starts known recovered))
unfolding known_ranges linuxrecomp.Score.proper_end
classify-covered_example =
    classify-covered known recovered ((omega arith, omega arith, (omega arith, omega arith, tt)))
