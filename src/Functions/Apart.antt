-- ===== src/Functions/Apart.antt =====
-- About `validate_ranges` on sorted functions, as `recover_functions` returns them.
use linuxrecomp.Base.{ℕ, ◌≡◌, ◌↔◌, ◌⊎◌, inl, inr, List, [], ◌∷◌, arith, All}
use linuxrecomp.Pe64.{PeImage}
use linuxrecomp.Pe64.Address.{code_ranges}
use linuxrecomp.Functions.{Function}
use linuxrecomp.Functions.Validate.{validate_ranges}
use linuxrecomp.Functions.Order.{IsSorted, StartsFrom}
use linuxrecomp.Functions.Disjoint.{
  IsClosed, EndsBy-at, EndsAfter-at, IsInCode, IsBefore, AreDisjoint, validate_ranges-in_order,
}

-- Two ranges do not overlap: one of them ends where the other starts, or before.
abbrev pub IsApart : Function → Function → Type 0
IsApart f g = IsBefore f g ⊎ IsBefore g f

-- No two of the ranges overlap, in whatever order they stand.
abbrev pub AreApart : List Function → Type 0
AreApart [] = Unit
AreApart (f ∷ fs) = All (IsApart f) fs × AreApart fs

module _ (code : List (ℕ × ℕ)) where
  IsBefore-apart :
      (f g : Function)
      → IsClosed g
      → IsInCode code g
      → StartsFrom f.start_rva g
      → IsApart f g
      → IsBefore f g
  IsBefore-apart f g (end, e) (coded, nonempty) later (inl before) = before
  IsBefore-apart f g (end, e) (coded, nonempty) later (inr behind) = absurd (
      omega (
        arith,
        EndsAfter-at g.end_rva g.start_rva end nonempty e,
        EndsBy-at g.end_rva f.start_rva end behind e,
      ))

  IsBefore-All :
      (f : Function) (fs : List Function)
      → All IsClosed fs
      → All (IsInCode code) fs
      → All (StartsFrom f.start_rva) fs
      → All (IsApart f) fs
      → All (IsBefore f) fs
  IsBefore-All f [] closed coded later apart = tt
  IsBefore-All f (g ∷ gs) (c, closed) (d, coded) (l, later) (a, apart) =
      (IsBefore-apart f g c d l a, IsBefore-All f gs closed coded later apart)

  AreDisjoint-apart :
      (fs : List Function)
      → All IsClosed fs
      → All (IsInCode code) fs
      → IsSorted fs
      → AreApart fs
      → AreDisjoint fs
  AreDisjoint-apart [] closed coded sorted apart = tt
  AreDisjoint-apart (f ∷ fs) (c, closed) (d, coded) (later, sorted) (a, apart) =
      (IsBefore-All f fs closed coded later a, AreDisjoint-apart fs closed coded sorted apart)

IsApart-All : (f : Function) (fs : List Function) → All (IsBefore f) fs → All (IsApart f) fs
IsApart-All f [] h = tt
IsApart-All f (g ∷ gs) (h, hs) = (inl h, IsApart-All f gs hs)

AreApart-disjoint : (fs : List Function) → AreDisjoint fs → AreApart fs
AreApart-disjoint [] h = tt
AreApart-disjoint (f ∷ fs) (h, hs) = (IsApart-All f fs h, AreApart-disjoint fs hs)

-- For functions sorted by their start, with the end of each known, the checks report nothing exactly
-- when every function starts in an executable section and is not empty, and no two of them overlap.
pub validate_ranges-fine :
    (img : PeImage) (fs : List Function)
    → IsSorted fs
    → All IsClosed fs
    → (validate_ranges img fs ≡ []) ↔ (All (IsInCode (code_ranges img)) fs × AreApart fs)
validate_ranges-fine img fs sorted closed = (
  λ quiet.
      let (coded, disjoint) = (validate_ranges-in_order img fs closed).0 quiet in
      (coded, AreApart-disjoint fs disjoint),
  λ (coded, apart).
      (validate_ranges-in_order img fs closed).1
        (coded, AreDisjoint-apart (code_ranges img) fs closed coded sorted apart),
)
