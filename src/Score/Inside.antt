-- ===== src/Score/Inside.antt =====
-- The bisection of `inside_known`, against a look at every range.
use linuxrecomp.Base.{
  ℕ, zero, suc, ◌≤◌, ◌<◌, ◌≡◌, refl, sym, ap, false, List, [], ◌∷◌, leb, length, any_of, arith,
  Bool-cases, inl, inr,
}
use linuxrecomp.Score.{
  CatalogEntry, keep, known_ranges, bisect_right, strictly_inside, inside_at, inside_before,
  inside_known, false_starts, split_counts, classify,
}

-- The ranges follow each other from this address on, none empty, none in another.
abbrev pub AreSeparate : ℕ → List (ℕ × ℕ) → Type 0
AreSeparate low [] = Unit
AreSeparate low ((s, e) ∷ ranges) = (low ≤ s) × (s < e) × AreSeparate e ranges

-- In front of all ranges, an address is in none.
outside_all :
    (low : ℕ) (ranges : List (ℕ × ℕ)) (address : ℕ)
    → AreSeparate low ranges
    → address < low
    → any_of (strictly_inside address) ranges ≡ false
unfolding any_of strictly_inside
outside_all low [] address h before = refl
outside_all low ((s, e) ∷ ranges) address (hl, he, hs) before =
    ground (arith, outside_all e ranges address hs (omega arith))

-- Where the bisection finds nothing, no range begins at or in front of the address.
bisect_none :
    (low : ℕ) (ranges : List (ℕ × ℕ)) (address : ℕ)
    → AreSeparate low ranges
    → bisect_right ranges address ≡ 0
    → any_of (strictly_inside address) ranges ≡ false
unfolding any_of strictly_inside bisect_right
bisect_none low [] address h found = refl
bisect_none low ((s, e) ∷ ranges) address (hl, he, hs) found = elim (Bool-cases (leb s address)) [
  | inl before ↦ absurd (omega (arith, rw (before, bisect_right) at found))
  | inr behind ↦ ground (arith, outside_all e ranges address hs (ground (arith, behind)))
]

-- Where it finds a range behind the first, the address is not in front of the second range's start.
bisect_some :
    (low : ℕ) (ranges : List (ℕ × ℕ)) (address k : ℕ)
    → AreSeparate low ranges
    → bisect_right ranges address ≡ suc k
    → low ≤ address
unfolding bisect_right
bisect_some low [] address k h found = absurd (omega (arith, found))
bisect_some low ((s, e) ∷ ranges) address k (hl, he, hs) found = elim (Bool-cases (leb s address)) [
  | inl before ↦ ground (arith, before, hl)
  | inr behind ↦ absurd (omega (arith, rw (behind, bisect_right) at found))
]

inside_at-any_of :
    (low : ℕ) (ranges : List (ℕ × ℕ)) (address k : ℕ)
    → AreSeparate low ranges
    → bisect_right ranges address ≡ suc k
    → inside_at ranges k address ≡ any_of (strictly_inside address) ranges
unfolding inside_at any_of bisect_right strictly_inside
inside_at-any_of low [] address k h found = absurd (omega (arith, found))
inside_at-any_of low ((s, e) ∷ ranges) address zero (hl, he, hs) found =
    elim (Bool-cases (leb s address)) [
      | inl before ↦
          let last : bisect_right ranges address ≡ 0 =
            omega (arith, rw (before, bisect_right) at found) in
          ground (arith, bisect_none e ranges address hs last)
      | inr behind ↦ absurd (omega (arith, rw (behind, bisect_right) at found))
    ]
inside_at-any_of low ((s, e) ∷ ranges) address (suc k) (hl, he, hs) found =
    elim (Bool-cases (leb s address)) [
      | inl before ↦
          let more : bisect_right ranges address ≡ suc k =
            omega (arith, rw (before, bisect_right) at found) in
          ground (
            arith,
            bisect_some e ranges address k hs more,
            inside_at-any_of e ranges address k hs more,
          )
      | inr behind ↦ absurd (omega (arith, rw (behind, bisect_right) at found))
    ]

-- For separate ranges, the bisection of `inside_known` finds what a look at every range finds.
inside_known-any_of :
    (low : ℕ) (ranges : List (ℕ × ℕ)) (address : ℕ)
    → AreSeparate low ranges
    → inside_known ranges address ≡ any_of (strictly_inside address) ranges
unfolding inside_known inside_before
inside_known-any_of low ranges address h = go (bisect_right ranges address) refl
  where
    go :
        (n : ℕ)
        → bisect_right ranges address ≡ n
        → inside_before ranges n address ≡ any_of (strictly_inside address) ranges
    go zero found = sym (bisect_none low ranges address h found)
    go (suc k) found = inside_at-any_of low ranges address k h found

-- The addresses that are inside one of the ranges.
unfoldable pub covered : List (ℕ × ℕ) → List ℕ → List ℕ
covered ranges addresses = keep (λ a. any_of (strictly_inside a) ranges) addresses

split_counts-covered :
    (ranges : List (ℕ × ℕ)) (fp : List ℕ)
    → AreSeparate 0 ranges
    → (split_counts ranges fp).0 ≡ length (covered ranges fp)
unfolding split_counts covered keep
split_counts-covered ranges [] h = refl
split_counts-covered ranges (a ∷ fp) h =
    let same = inside_known-any_of 0 ranges a h in
    elim (Bool-cases (any_of (strictly_inside a) ranges)) [
      | inl inside ↦ rw (same, inside) (ap suc (split_counts-covered ranges fp h))
      | inr outside ↦ rw (same, outside) (split_counts-covered ranges fp h)
    ]

-- Where the reference's functions do not overlap, the splits that `classify` counts are the false positives
-- strictly inside one of them, with each compared.
pub classify-covered :
    (reference candidate : List CatalogEntry)
    → AreSeparate 0 (known_ranges reference)
    → (classify reference candidate).fp_split
      ≡ length (covered (known_ranges reference) (false_starts reference candidate))
unfolding classify
classify-covered reference candidate h =
    split_counts-covered (known_ranges reference) (false_starts reference candidate) h
