-- ===== src/Pe64/Proofs/Reads.antt =====
-- Address translation: what a translated address and an exact read promise.
use linuxrecomp.Base.{
  ℕ, zero, suc, ◌+◌, ◌-◌, ◌^◌, ◌≤◌, ◌<◌, ◌≡◌, ap, sym, true, some, List, [], ◌∷◌, arith, length,
  slice, take, drop, All, length-slice, length-take, Option-cases, Bool-cases, inl, inr,
}
use native.Mathlib.Nat.{pow-suc}
use linuxrecomp.Pe64.{Section, PeImage, contains_rva, has_raw_data}
use linuxrecomp.Pe64.Bytes.{le_value, field, IsByte}
use linuxrecomp.Pe64.Address.{find_section, section_for_rva, offset_in, rva_to_offset, read_rva}

-- The section that backs a range of `size` bytes at `rva`: one of the image, all of the range in its
-- raw data, and all of that in the file.
pub record Backs (img : PeImage) (rva size offset : ℕ) (s : Section) : Type 0 where
  pub found : section_for_rva img rva ≡ some s
  pub starts : s.rva ≤ rva
  pub in_raw : rva - s.rva + size ≤ s.raw_size
  pub at : offset ≡ s.raw_offset + (rva - s.rva)
  pub in_file : offset + size ≤ length img.bytes

find_section-contains :
    (sections : List Section) (rva : ℕ) {s : Section}
    → find_section sections rva ≡ some s
    → contains_rva s rva ≡ true
unfolding find_section
find_section-contains [] rva h = cc
find_section-contains (t ∷ sections) rva {s} h = elim (Bool-cases (contains_rva t rva)) [
  | inl here ↦ let same : t ≡ s = cc (rw (here) at h) in rw (← same) here
  | inr later ↦ find_section-contains sections rva (rw later at h)
]

offset_in-Backs :
    (img : PeImage) (s : Section) (rva size offset : ℕ)
    → section_for_rva img rva ≡ some s
    → contains_rva s rva ≡ true
    → offset_in img.bytes s rva size ≡ some offset
    → Backs img rva size offset s
unfolding offset_in contains_rva has_raw_data
offset_in-Backs img s rva size offset found inside h = record {
  found = found;
  starts = ground arith;
  in_raw = ground arith;
  at = ground arith;
  in_file = ground arith;
}

-- An address that `rva_to_offset` translates is backed by the file over the whole range.
pub rva_to_offset-Backs :
    (img : PeImage) (rva size offset : ℕ)
    → rva_to_offset img rva size ≡ some offset
    → (s : Section) × Backs img rva size offset s
unfolding rva_to_offset
rva_to_offset-Backs img rva size offset h = elim (Option-cases (section_for_rva img rva)) [
  | inl missing ↦ cc (rw (missing, rva_to_offset) at h)
  | inr (s, found) ↦ (
    s,
    offset_in-Backs img s rva size offset found
        (find_section-contains img.sections rva (unfold section_for_rva in found))
        (rw (found, rva_to_offset) at h),
  )
]

-- `read_rva` returns exactly the bytes asked for, from the section that holds the address, or None:
-- never a short slice.
pub read_rva_exact :
    (img : PeImage) (rva size : ℕ) (bytes : List ℕ)
    → read_rva img rva size ≡ some bytes
    → (length bytes ≡ size)
      × (s : Section) × (offset : ℕ) × Backs img rva size offset s
      × (bytes ≡ slice img.bytes offset (offset + size))
unfolding read_rva
read_rva_exact img rva size bytes h = elim (Option-cases (rva_to_offset img rva size)) [
  | inl missing ↦ cc (rw (missing, read_rva) at h)
  | inr (offset, found) ↦
      let (s, backs) = rva_to_offset-Backs img rva size offset found in
      let cut : slice img.bytes offset (offset + size) ≡ bytes = cc (rw (found, read_rva) at h) in
      let long = length-slice img.bytes offset (offset + size) backs.in_file in
      (omega (arith, ap length cut, long), s, offset, backs, sym cut)
]

-- A number read from `n` bytes is below 256 ^ n.
pub le_value-lt : (xs : List ℕ) → All IsByte xs → le_value xs < 256 ^ length xs
unfolding le_value
le_value-lt [] h = omega arith
le_value-lt (b ∷ xs) h = rw pow-suc (omega (arith, le_value-lt xs h.1, h.0))

pub All-drop {ℓ κ} :
    {A : Type ℓ} (P : A → Type κ) (n : ℕ) (xs : List A) → All P xs → All P (drop n xs)
All-drop P zero xs h = h
All-drop P (suc n) [] h = tt
All-drop P (suc n) (x ∷ xs) h = All-drop P n xs h.1

pub All-take {ℓ κ} :
    {A : Type ℓ} (P : A → Type κ) (n : ℕ) (xs : List A) → All P xs → All P (take n xs)
All-take P zero xs h = tt
All-take P (suc n) [] h = tt
All-take P (suc n) (x ∷ xs) h = (h.0, All-take P n xs h.1)

-- A field of `n` bytes is below 256 ^ n, also where the data ends inside it.
pub u16-lt : (xs : List ℕ) (offset : ℕ) → All IsByte xs → field 2 xs offset < 65536
unfolding field
u16-lt xs offset h =
    two_bytes (slice xs offset (offset + 2)) (All-take IsByte _ _ (All-drop IsByte offset xs h))
      (omega (arith, length-take (offset + 2 - offset) (drop offset xs)))
  where
    two_bytes : (ys : List ℕ) → All IsByte ys → length ys ≤ 2 → le_value ys < 65536
    two_bytes [] h l = omega (arith, le_value-lt [] h)
    two_bytes (a ∷ []) h l = omega (arith, le_value-lt (a ∷ []) h)
    two_bytes (a ∷ b ∷ []) h l = omega (arith, le_value-lt (a ∷ b ∷ []) h)
    two_bytes (a ∷ b ∷ c ∷ ys) h l = absurd (omega arith)

pub u32-lt : (xs : List ℕ) (offset : ℕ) → All IsByte xs → field 4 xs offset < 0x100000000
unfolding field
u32-lt xs offset h =
    four_bytes (slice xs offset (offset + 4)) (All-take IsByte _ _ (All-drop IsByte offset xs h))
      (omega (arith, length-take (offset + 4 - offset) (drop offset xs)))
  where
    four_bytes : (ys : List ℕ) → All IsByte ys → length ys ≤ 4 → le_value ys < 0x100000000
    four_bytes [] h l = omega (arith, le_value-lt [] h)
    four_bytes (a ∷ []) h l = omega (arith, le_value-lt (a ∷ []) h)
    four_bytes (a ∷ b ∷ []) h l = omega (arith, le_value-lt (a ∷ b ∷ []) h)
    four_bytes (a ∷ b ∷ c ∷ []) h l = omega (arith, le_value-lt (a ∷ b ∷ c ∷ []) h)
    four_bytes (a ∷ b ∷ c ∷ d ∷ []) h l = omega (arith, le_value-lt (a ∷ b ∷ c ∷ d ∷ []) h)
    four_bytes (a ∷ b ∷ c ∷ d ∷ e ∷ ys) h l = absurd (omega arith)
