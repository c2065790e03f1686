-- ===== src/Functions/Validate.antt =====
-- `validate_ranges`: the structural checks on function ranges, each with the messages it adds.
use linuxrecomp.Base.{ℕ, Option, none, some, List, [], ◌∷◌, ◌++◌, if◌then◌else◌, leb, ltb, ◌==◌}
use linuxrecomp.Pe64.{PeImage}
use linuxrecomp.Pe64.Address.{code_ranges}
use linuxrecomp.Functions.{Function}
use linuxrecomp.Functions.Recover.{in_ranges}

-- The four messages, with the numbers that they print.
pub data Problem : Type 0 where
  end_not_after_start : ℕ → ℕ → Problem
  outside_code : ℕ → Problem
  duplicate_start : ℕ → Problem
  overlaps : ℕ → ℕ → ℕ → Problem

unfoldable pub check_end : Function → List Problem
check_end f = elim f.end_rva [
  | none ↦ []
  | some end ↦ if leb end f.start_rva then end_not_after_start f.start_rva end ∷ [] else []
]

unfoldable pub check_code : List (ℕ × ℕ) → Function → List Problem
check_code code f = if in_ranges code f.start_rva then [] else outside_code f.start_rva ∷ []

-- `previous[1] is not None and function.end_rva is not None and function.start_rva < previous[1]`
unfoldable pub check_ends : ℕ → Option ℕ → Function → List Problem
check_ends start none f = []
check_ends start (some end) f = elim f.end_rva [
  | none ↦ []
  | some own ↦ if ltb f.start_rva end then overlaps f.start_rva start end ∷ [] else []
]

unfoldable pub check_previous : Option Function → Function → List Problem
check_previous none f = []
check_previous (some g) f =
    if g.start_rva == f.start_rva
    then duplicate_start f.start_rva ∷ []
    else check_ends g.start_rva g.end_rva f

unfoldable pub validate_from : List (ℕ × ℕ) → Option Function → List Function → List Problem
validate_from code previous [] = []
validate_from code previous (f ∷ fs) =
    check_end f
    ++ (check_code code f ++ (check_previous previous f ++ validate_from code (some f) fs))

-- `validate_ranges`
unfoldable pub validate_ranges : PeImage → List Function → List Problem
validate_ranges img fs = validate_from (code_ranges img) none fs
