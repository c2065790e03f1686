-- ===== src/Pe64/Proofs/Translation.antt =====
-- `rva_to_offset` against a description of the sections.
use linuxrecomp.Base.{
  ◌∙◌, ℕ, ◌+◌, ◌-◌, ◌≤◌, ◌<◌, ◌≡◌, ◌↔◌, ◌⊎◌, ap, refl, max, true, false, some, List, [], ◌∷◌, ◌++◌,
  arith, length, All, Bool-cases, inl, inr,
}
use linuxrecomp.Pe64.{Section, PeImage, contains_rva, has_raw_data, end_rva, mapped_size}
use linuxrecomp.Pe64.Address.{find_section, section_for_rva, offset_in, rva_to_offset}
use linuxrecomp.Pe64.Proofs.Reads.{rva_to_offset-Backs}

-- A section's range of addresses is as long as the larger of its two sizes.
abbrev pub Holds : ℕ → Section → Type 0
Holds rva s = (s.rva ≤ rva) × (rva < s.rva + max s.virtual_size s.raw_size)

abbrev pub Misses : ℕ → Section → Type 0
Misses rva s = (rva < s.rva) ⊎ (s.rva + max s.virtual_size s.raw_size ≤ rva)

-- The first of the sections that holds the address: none in front of it does.
abbrev pub FirstHolding : List Section → ℕ → Section → Type 0
FirstHolding sections rva s =
    (front back : List Section) × (sections ≡ front ++ (s ∷ back))
    × All (Misses rva) front
    × Holds rva s

-- The first section that holds the address has raw data, all of the range is in them and in the file,
-- and the offset is as far from their start as the address is from the section's.
pub record Translates (img : PeImage) (rva size offset : ℕ) (s : Section) : Type 0 where
  pub first : FirstHolding img.sections rva s
  pub has_raw : 0 < s.raw_size
  pub in_raw : rva - s.rva + size ≤ s.raw_size
  pub at : offset ≡ s.raw_offset + (rva - s.rva)
  pub in_file : offset + size ≤ length img.bytes

contains_rva-Holds : (s : Section) (rva : ℕ) → contains_rva s rva ≡ true → Holds rva s
unfolding contains_rva end_rva mapped_size
contains_rva-Holds s rva h = ground arith

contains_rva-Misses : (s : Section) (rva : ℕ) → contains_rva s rva ≡ false → Misses rva s
unfolding contains_rva end_rva mapped_size
contains_rva-Misses s rva h = ground arith

Holds-contains_rva : (s : Section) (rva : ℕ) → Holds rva s → contains_rva s rva ≡ true
unfolding contains_rva end_rva mapped_size
Holds-contains_rva s rva h = ground arith

Misses-contains_rva : (s : Section) (rva : ℕ) → Misses rva s → contains_rva s rva ≡ false
unfolding contains_rva end_rva mapped_size
Misses-contains_rva s rva h = ground arith

find_section-FirstHolding :
    (sections : List Section) (rva : ℕ) (s : Section)
    → find_section sections rva ≡ some s
    → FirstHolding sections rva s
unfolding find_section
find_section-FirstHolding [] rva s h = cc
find_section-FirstHolding (t ∷ sections) rva s h = elim (Bool-cases (contains_rva t rva)) [
  | inl here ↦
      let same : t ≡ s = cc (rw here at h) in
      ([], sections, ap (λ u. u ∷ sections) same, tt, rw (← same) (contains_rva-Holds t rva here))
  | inr later ↦
      let (front, back, split, misses, holds) =
        find_section-FirstHolding sections rva s (rw later at h) in
      (t ∷ front, back, ap (λ us. t ∷ us) split, (contains_rva-Misses t rva later, misses), holds)
]

find_section-append :
    (front : List Section) (s : Section) (back : List Section) (rva : ℕ)
    → All (Misses rva) front
    → Holds rva s
    → find_section (front ++ (s ∷ back)) rva ≡ some s
unfolding find_section
find_section-append [] s back rva misses holds = rw (Holds-contains_rva s rva holds) refl
find_section-append (t ∷ front) s back rva (miss, misses) holds =
    rw (Misses-contains_rva t rva miss) (find_section-append front s back rva misses holds)

offset_in-has_raw :
    (bytes : List ℕ) (s : Section) (rva size offset : ℕ)
    → offset_in bytes s rva size ≡ some offset
    → 0 < s.raw_size
unfolding offset_in has_raw_data
offset_in-has_raw bytes s rva size offset h = ground arith

offset_in-some :
    (img : PeImage) (s : Section) (rva size offset : ℕ)
    → Translates img rva size offset s
    → offset_in img.bytes s rva size ≡ some offset
unfolding offset_in has_raw_data
offset_in-some img s rva size offset t = ground (arith, t.has_raw, t.in_raw, t.at, t.in_file)

-- `rva_to_offset` returns an offset exactly where the first section that holds the address backs the
-- whole range there, with raw data that are in the file.
pub rva_to_offset_iff :
    (img : PeImage) (rva size offset : ℕ)
    → (rva_to_offset img rva size ≡ some offset) ↔ (s : Section) × Translates img rva size offset s
unfolding rva_to_offset section_for_rva
rva_to_offset_iff img rva size offset = (
  λ h.
      let (s, backs) = rva_to_offset-Backs img rva size offset h in
      (
        s,
        record {
          first = find_section-FirstHolding img.sections rva s backs.found;
          has_raw =
              offset_in-has_raw img.bytes s rva size offset (rw (backs.found, rva_to_offset) at h);
          in_raw = backs.in_raw;
          at = backs.at;
          in_file = backs.in_file;
        },
      ),
  λ (s, t).
      let (front, back, split, misses, holds) = t.first in
      let found : section_for_rva img rva ≡ some s =
        ap (λ us. find_section us rva) split ∙ find_section-append front s back rva misses holds in
      rw (found, rva_to_offset) (offset_in-some img s rva size offset t),
)
