-- ===== src/Score.antt =====
-- tools/disasm/score_recovery.py: the scoring of recovered function starts and ends against a reference.
-- A catalog is the sorted list that load_catalog returns. Ratios are floating-point numbers of the report
-- and are left out.
pub mod Inside
pub mod Tests
use linuxrecomp.Base.{
  ℕ, zero, suc, ◌+◌, ◌-◌, ◌/◌, Bool, true, false, not, ◌&&◌, ◌||◌, Option, none, some, List, [],
  ◌∷◌, if◌then◌else◌, ltb, leb, ◌==◌, length, get_elem?, get_or, any_of, map,
}

-- What an entry of a catalog claims: a function's start, or another name for a place in one.
pub data EntryKind : Type 0 where
  start alias : EntryKind

pub record CatalogEntry : Type 0 where
  pub address : ℕ
  pub end : Option ℕ
  pub kind : EntryKind

unfoldable pub is_alias : EntryKind → Bool
is_alias start = false
is_alias alias = true

-- address in addresses
unfoldable pub is_listed : ℕ → List ℕ → Bool
is_listed address addresses = any_of (λ a. a == address) addresses

-- [a for a in addresses if test(a)]
unfoldable pub keep : (ℕ → Bool) → List ℕ → List ℕ
keep test [] = []
keep test (a ∷ addresses) = let rest = keep test addresses in if test a then a ∷ rest else rest

-- sorted({...}): an address that is there already is not put in again.
unfoldable pub insert_once : ℕ → List ℕ → List ℕ
insert_once address [] = address ∷ []
insert_once address (a ∷ addresses) =
    if address == a
    then a ∷ addresses
    else if ltb address a
    then address ∷ a ∷ addresses
    else a ∷ insert_once address addresses

unfoldable pub sorted_set : List ℕ → List ℕ
sorted_set [] = []
sorted_set (a ∷ addresses) = insert_once a (sorted_set addresses)

-- sorted(numbers), with equal numbers kept
unfoldable pub insert_number : ℕ → List ℕ → List ℕ
insert_number n [] = n ∷ []
insert_number n (m ∷ numbers) = if leb n m then n ∷ m ∷ numbers else m ∷ insert_number n numbers

unfoldable pub sort_numbers : List ℕ → List ℕ
sort_numbers [] = []
sort_numbers (n ∷ numbers) = insert_number n (sort_numbers numbers)

unfoldable pub starts_of : List CatalogEntry → List ℕ
starts_of entries = map (λ e. e.address) entries

-- The addresses of the entries of one kind.
unfoldable pub addresses_of : Bool → List CatalogEntry → List ℕ
addresses_of aliases [] = []
addresses_of aliases (e ∷ entries) =
    let rest = addresses_of aliases entries in
    if is_alias e.kind
    then (if aliases then e.address ∷ rest else rest)
    else (if aliases then rest else e.address ∷ rest)

-- The end of an entry, where it is known and behind the start.
unfoldable pub proper_end : CatalogEntry → Option ℕ
proper_end e = elim e.end [ none ↦ none | some end ↦ if ltb e.address end then some end else none ]

-- `ranges`
unfoldable pub known_ranges : List CatalogEntry → List (ℕ × ℕ)
known_ranges [] = []
known_ranges (e ∷ entries) = elim (proper_end e) [
  | none ↦ known_ranges entries
  | some end ↦ (e.address, end) ∷ known_ranges entries
]

-- bisect.bisect_right on the starts of sorted ranges
unfoldable pub bisect_right : List (ℕ × ℕ) → ℕ → ℕ
bisect_right [] address = 0
bisect_right ((s, e) ∷ ranges) address =
    let behind = bisect_right ranges address in if leb s address then suc behind else 0

-- ranges[i][0] < address < ranges[i][1]
unfoldable pub strictly_inside : ℕ → ℕ × ℕ → Bool
strictly_inside address (s, e) = ltb s address && ltb address e

-- Is the address inside the range with this index?
unfoldable pub inside_at : List (ℕ × ℕ) → ℕ → ℕ → Bool
inside_at [] i address = false
inside_at (r ∷ ranges) zero address = strictly_inside address r
inside_at (r ∷ ranges) (suc i) address = inside_at ranges i address

-- The range in front of the place that the bisection found, if there is one.
unfoldable pub inside_before : List (ℕ × ℕ) → ℕ → ℕ → Bool
inside_before ranges zero address = false
inside_before ranges (suc i) address = inside_at ranges i address

-- `inside_known`
unfoldable pub inside_known : List (ℕ × ℕ) → ℕ → Bool
inside_known ranges address = inside_before ranges (bisect_right ranges address) address

-- ref_end.get(address) and cand_end.get(address): the last entry with a proper end decides.
unfoldable pub end_of : ℕ → List CatalogEntry → Option ℕ
end_of address [] = none
end_of address (e ∷ entries) = elim (end_of address entries) [
  | some end ↦ some end
  | none ↦ if e.address == address then proper_end e else none
]

-- The entries that are no aliases.
unfoldable pub claims_of : List CatalogEntry → List CatalogEntry
claims_of [] = []
claims_of (e ∷ entries) = let rest = claims_of entries in if is_alias e.kind then rest else e ∷ rest

-- The counts of `_score_ends`; `short_by` is the list that it sorts.
pub record EndCounts : Type 0 where
  pub exact : ℕ
  pub short : ℕ
  pub long : ℕ
  pub short_by : List ℕ

-- One round of its loop, for the two ends.
unfoldable pub count_end : Option ℕ → Option ℕ → EndCounts → EndCounts
count_end none got c = c
count_end (some want) none c = c
count_end (some want) (some got) c =
    if got == want
    then record c { exact = suc c.exact }
    else if ltb got want
    then record c { short = suc c.short; short_by = (want - got) ∷ c.short_by }
    else record c { long = suc c.long }

unfoldable pub count_ends : List ℕ → List CatalogEntry → List CatalogEntry → EndCounts → EndCounts
count_ends [] reference candidate c = c
count_ends (a ∷ tp) reference candidate c =
    count_ends tp reference candidate
      (count_end (end_of a reference) (end_of a (claims_of candidate)) c)

-- What `_score_ends` returns.
pub record EndScores : Type 0 where
  pub ends_scored : ℕ
  pub end_exact : ℕ
  pub end_short : ℕ
  pub end_long : ℕ
  pub end_short_median_bytes : ℕ
  pub end_short_max_bytes : ℕ

unfoldable pub end_scores : EndCounts → EndScores
end_scores c =
    let short_by = sort_numbers c.short_by in
    record {
      ends_scored = c.exact + c.short + c.long;
      end_exact = c.exact;
      end_short = c.short;
      end_long = c.long;
      end_short_median_bytes = get_or short_by (length short_by / 2) 0;
      end_short_max_bytes = get_or short_by (length short_by - 1) 0;
    }

-- `_score_ends`
unfoldable pub score_ends : List ℕ → List CatalogEntry → List CatalogEntry → EndScores
score_ends tp reference candidate =
    end_scores
      (count_ends tp reference candidate (record { exact = 0; short = 0; long = 0; short_by = [] }))

-- What `classify` returns.
pub record Scores : Type 0 where
  pub reference : ℕ
  pub candidate : ℕ
  pub true_positives : ℕ
  pub false_positives : ℕ
  pub false_negatives : ℕ
  pub fp_split : ℕ
  pub fp_invented : ℕ
  pub aliases : ℕ
  pub alias_inside_known : ℕ
  pub alias_on_reference_start : ℕ
  pub has_ranges : Bool
  pub ends : EndScores

-- `cand_starts` and `cand_alias`
unfoldable pub candidate_starts : List CatalogEntry → List ℕ
candidate_starts candidate = sorted_set (addresses_of false candidate)

unfoldable pub candidate_aliases : List CatalogEntry → List ℕ
candidate_aliases candidate =
    sorted_set
      (keep (λ a. not (is_listed a (candidate_starts candidate))) (addresses_of true candidate))

-- `fp`
unfoldable pub false_starts : List CatalogEntry → List CatalogEntry → List ℕ
false_starts reference candidate =
    keep (λ a. not (is_listed a (starts_of reference))) (candidate_starts candidate)

-- The loop over `fp`: how many are inside a known function, and how many are not.
unfoldable pub split_counts : List (ℕ × ℕ) → List ℕ → ℕ × ℕ
split_counts ranges [] = (0, 0)
split_counts ranges (a ∷ fp) =
    let (split, invented) = split_counts ranges fp in
    if inside_known ranges a then (suc split, invented) else (split, suc invented)

-- bool(ranges)
unfoldable pub is_some_range : List (ℕ × ℕ) → Bool
is_some_range [] = false
is_some_range (r ∷ ranges) = true

-- `classify`
unfoldable pub classify : List CatalogEntry → List CatalogEntry → Scores
classify reference candidate =
    let ref_starts = starts_of reference in
    let cand_starts = candidate_starts candidate in
    let cand_alias = candidate_aliases candidate in
    let ranges = known_ranges reference in
    let tp = keep (λ a. is_listed a ref_starts) cand_starts in
    let fp = false_starts reference candidate in
    let (split, invented) = split_counts ranges fp in
    record {
      reference = length ref_starts;
      candidate = length cand_starts;
      true_positives = length tp;
      false_positives = length fp;
      false_negatives = length (keep (λ a. not (is_listed a cand_starts)) ref_starts);
      fp_split = split;
      fp_invented = invented;
      aliases = length cand_alias;
      alias_inside_known = length (keep (inside_known ranges) cand_alias);
      alias_on_reference_start = length (keep (λ a. is_listed a ref_starts) cand_alias);
      has_ranges = is_some_range ranges;
      ends = score_ends tp reference candidate;
    }
