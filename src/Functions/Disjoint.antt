-- ===== src/Functions/Disjoint.antt =====
-- About `validate_ranges`: its answer and the order of the ranges.
use linuxrecomp.Base.{
  ℕ, ◌≤◌, ◌<◌, ◌≡◌, ◌↔◌, refl, true, Option, none, some, List, [], ◌∷◌, ◌++◌, arith, All,
}
use linuxrecomp.Pe64.{PeImage}
use linuxrecomp.Pe64.Address.{code_ranges}
use linuxrecomp.Functions.{Function}
use linuxrecomp.Functions.Recover.{in_ranges}
use linuxrecomp.Functions.Validate.{
  Problem, check_end, check_code, check_ends, check_previous, validate_from, validate_ranges,
}

-- The end is known.
abbrev pub IsClosed : Function → Type 0
IsClosed f = (end : ℕ) × (f.end_rva ≡ some end)

abbrev pub EndsBy : Option ℕ → ℕ → Type 0
EndsBy none rva = Unit
EndsBy (some end) rva = end ≤ rva

abbrev pub EndsAfter : Option ℕ → ℕ → Type 0
EndsAfter none rva = Unit
EndsAfter (some end) rva = rva < end

pub EndsBy-all : (o : Option ℕ) (rva : ℕ) → ((end : ℕ) → o ≡ some end → end ≤ rva) → EndsBy o rva
EndsBy-all none rva h = tt
EndsBy-all (some end) rva h = h end refl

pub EndsBy-at : (o : Option ℕ) (rva end : ℕ) → EndsBy o rva → o ≡ some end → end ≤ rva
EndsBy-at none rva end h e = cc
EndsBy-at (some e') rva end h e = ground arith

EndsAfter-all : (o : Option ℕ) (rva : ℕ) → ((end : ℕ) → o ≡ some end → rva < end) → EndsAfter o rva
EndsAfter-all none rva h = tt
EndsAfter-all (some end) rva h = h end refl

pub EndsAfter-at : (o : Option ℕ) (rva end : ℕ) → EndsAfter o rva → o ≡ some end → rva < end
EndsAfter-at none rva end h e = cc
EndsAfter-at (some e') rva end h e = ground arith

-- The range starts in code, and is not empty.
abbrev pub IsInCode : List (ℕ × ℕ) → Function → Type 0
IsInCode code f = (in_ranges code f.start_rva ≡ true) × EndsAfter f.end_rva f.start_rva

-- A range ends where the other starts, or before.
abbrev pub IsBefore : Function → Function → Type 0
IsBefore f g = EndsBy f.end_rva g.start_rva

abbrev pub AreDisjoint : List Function → Type 0
AreDisjoint [] = Unit
AreDisjoint (f ∷ fs) = All (IsBefore f) fs × AreDisjoint fs

append-nil : {A : Type 0} (xs ys : List A) → xs ++ ys ≡ [] → (xs ≡ []) × (ys ≡ [])
append-nil [] ys h = (refl, h)
append-nil (x ∷ xs) ys h = cc

check_end-nil :
    (f : Function) (end : ℕ) → check_end f ≡ [] → f.end_rva ≡ some end → f.start_rva < end
unfolding check_end
check_end-nil f end h e = ground arith

check_code-nil :
    (code : List (ℕ × ℕ)) (f : Function)
    → check_code code f ≡ []
    → in_ranges code f.start_rva ≡ true
unfolding check_code
check_code-nil code f h = ground arith

check_previous-nil :
    (g f : Function) (end own : ℕ)
    → check_previous (some g) f ≡ []
    → g.end_rva ≡ some end
    → f.end_rva ≡ some own
    → end ≤ f.start_rva
unfolding check_previous check_ends
check_previous-nil g f end own h e o = ground arith

IsBefore-All :
    (g f : Function) (fs : List Function) (own : ℕ)
    → f.end_rva ≡ some own
    → f.start_rva < own
    → IsBefore g f
    → All (IsBefore f) fs
    → All (IsBefore g) fs
IsBefore-All g f [] own o lt b all = tt
IsBefore-All g f (h ∷ hs) own o lt b all = (
  EndsBy-all g.end_rva h.start_rva (λ end e. omega (
    arith,
    EndsBy-at g.end_rva f.start_rva end b e,
    EndsBy-at f.end_rva h.start_rva own all.0 o,
  )),
  IsBefore-All g f hs own o lt b all.1,
)

abbrev IsFine : List (ℕ × ℕ) → List Function → Type 0
IsFine code fs = All (IsInCode code) fs × AreDisjoint fs

first_checks :
    (code : List (ℕ × ℕ)) (f : Function) (rest : List Problem)
    → check_end f ++ (check_code code f ++ rest) ≡ []
    → IsInCode code f × (rest ≡ [])
first_checks code f rest h = (
  (
    check_code-nil code f second.0,
    EndsAfter-all f.end_rva f.start_rva (λ end e. check_end-nil f end first.0 e),
  ),
  second.1,
)
  where
    first : (check_end f ≡ []) × (check_code code f ++ rest ≡ [])
    first = append-nil (check_end f) (check_code code f ++ rest) h

    second : (check_code code f ≡ []) × (rest ≡ [])
    second = append-nil (check_code code f) rest first.1

checks-nil :
    (code : List (ℕ × ℕ)) (g f : Function) (fs : List Function)
    → IsClosed f
    → validate_from code (some g) (f ∷ fs) ≡ []
    → (IsInCode code f × IsBefore g f) × (validate_from code (some f) fs ≡ [])
unfolding validate_from
checks-nil code g f fs (own, o) h = (
  (
    checked.0,
    EndsBy-all g.end_rva f.start_rva (λ end e. check_previous-nil g f end own both.0 e o),
  ),
  both.1,
)
  where
    others : List Problem
    others = check_previous (some g) f ++ validate_from code (some f) fs

    checked : IsInCode code f × (others ≡ [])
    checked = first_checks code f others h

    both : (check_previous (some g) f ≡ []) × (validate_from code (some f) fs ≡ [])
    both = append-nil (check_previous (some g) f) (validate_from code (some f) fs) checked.1

validate_from_sound :
    (code : List (ℕ × ℕ)) (g : Function) (fs : List Function)
    → IsClosed g
    → All IsClosed fs
    → validate_from code (some g) fs ≡ []
    → All (IsBefore g) fs × IsFine code fs
unfolding validate_from
validate_from_sound code g [] gc closed h = (tt, (tt, tt))
validate_from_sound code g (f ∷ fs) gc ((own, o), closed) h =
    let ((in_code, before), rest) = checks-nil code g f fs (own, o) h in
    let (after, (fine, apart)) = validate_from_sound code f fs (own, o) closed rest in
    (
      (
        before,
        IsBefore-All g f fs own o (EndsAfter-at f.end_rva f.start_rva own in_code.1 o) before after,
      ),
      ((in_code, fine), (after, apart)),
    )

check_end-fine : (f : Function) → IsClosed f → EndsAfter f.end_rva f.start_rva → check_end f ≡ []
unfolding check_end
check_end-fine f (own, o) h = ground (arith, EndsAfter-at f.end_rva f.start_rva own h o)

check_code-fine :
    (code : List (ℕ × ℕ)) (f : Function)
    → in_ranges code f.start_rva ≡ true
    → check_code code f ≡ []
unfolding check_code
check_code-fine code f h = ground arith

check_previous-fine :
    (code : List (ℕ × ℕ)) (g f : Function)
    → IsClosed g
    → IsInCode code g
    → IsBefore g f
    → check_previous (some g) f ≡ []
unfolding check_previous check_ends
check_previous-fine code g f c h b = ground (
  arith,
  EndsBy-at g.end_rva f.start_rva c.0 b c.1,
  EndsAfter-at g.end_rva g.start_rva c.0 h.1 c.1,
)

validate_from_complete :
    (code : List (ℕ × ℕ)) (g : Function) (fs : List Function)
    → IsClosed g
    → IsInCode code g
    → All IsClosed fs
    → All (IsBefore g) fs
    → IsFine code fs
    → validate_from code (some g) fs ≡ []
unfolding validate_from
validate_from_complete code g [] gc gi closed all fine = refl
validate_from_complete code g (f ∷ fs) gc gi closed all fine =
    rw (check_end-fine f closed.0 fine.0.0.1) (
      rw (check_code-fine code f fine.0.0.0) (
        rw (check_previous-fine code g f gc gi all.0) (
          validate_from_complete code f fs closed.0 fine.0.0 closed.1 fine.1.0
            (fine.0.1, fine.1.1))))

-- Where the end of every function is known, the checks report nothing exactly when every function
-- starts in an executable section and is not empty, and each ends where any later one of the list
-- starts, or before.
pub validate_ranges-in_order :
    (img : PeImage) (fs : List Function)
    → All IsClosed fs
    → (validate_ranges img fs ≡ []) ↔ (All (IsInCode (code_ranges img)) fs × AreDisjoint fs)
unfolding validate_ranges validate_from check_previous
validate_ranges-in_order img [] closed = (λ h. (tt, tt), λ h. refl)
validate_ranges-in_order img (f ∷ fs) (c, closed) = (
  λ h.
      let (in_code, rest) = first_checks code f (validate_from code (some f) fs) h in
      let (after, (fine, apart)) = validate_from_sound code f fs c closed rest in
      ((in_code, fine), (after, apart)),
  λ ((in_code, fine), (after, apart)). rw (check_end-fine f c in_code.1) (
      rw (check_code-fine code f in_code.0)
        (validate_from_complete code f fs c in_code closed after (fine, apart))),
)
  where
    code : List (ℕ × ℕ)
    code = code_ranges img

-- A range whose end is not known, between two ranges, keeps their overlap from being reported: the
-- first ends behind the start of the third, and the checks report nothing.
pub validate_ranges-hidden :
    (img : PeImage) (f g h : Function) (f_end h_end : ℕ)
    → f.end_rva ≡ some f_end
    → g.end_rva ≡ none
    → h.end_rva ≡ some h_end
    → f.start_rva < g.start_rva
    → g.start_rva < h.start_rva
    → h.start_rva < f_end
    → h.start_rva < h_end
    → All (λ k. in_ranges (code_ranges img) k.start_rva ≡ true) (f ∷ g ∷ h ∷ [])
    → validate_ranges img (f ∷ g ∷ h ∷ []) ≡ []
unfolding validate_ranges validate_from check_previous check_ends check_code check_end
validate_ranges-hidden img f g h f_end h_end fe ge he fg gh over nonempty code =
    ground (arith, code.0, code.1.0, code.1.1.0)
