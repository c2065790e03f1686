-- ===== src/Unmangler/Proofs/Words.antt =====
-- The readers of names and return types, on the words of the grammar.
use linuxrecomp.Base.{
  ℕ, zero, suc, ◌+◌, ◌*◌, ◌-◌, ◌/◌, ◌%◌, ◌<◌, ◌≡◌, refl, true, false, not, ◌||◌, List, [], ◌∷◌,
  ◌++◌, ltb, ◌==◌, length, take, drop, All, arith, Bool-cases, inl, inr, length-append,
}
use linuxrecomp.Base.Text.{is_digit, underscore}
use linuxrecomp.Unmangler.{read}
use linuxrecomp.Unmangler.Types.{
  leading_digits, int_from, sized_text, demangle_type, demangle_types, demangle_qualifiers,
  fundamental_type,
}
use linuxrecomp.Unmangler.Args.{return_type, pointer_return}
use linuxrecomp.Unmangler.Proofs.Grammar.{
  digits_of, decimal, class_spelling, classes_spelling, nested_spelling, is_class_name, IsClassName,
  AreClassNames, IsLetter, ReturnType, returns_letter, returns_class, returns_pointer,
  returns_nested, return_spelling, return_name, IsReturnType,
}

abbrev pub IsDigit : ℕ → Type 0
IsDigit c = is_digit c ≡ true

All-append_digits : (xs ys : List ℕ) → All IsDigit xs → All IsDigit ys → All IsDigit (xs ++ ys)
All-append_digits [] ys h k = k
All-append_digits (x ∷ xs) ys (h, hs) k = (h, All-append_digits xs ys hs k)

digits_of-IsDigit : (fuel n : ℕ) → All IsDigit (digits_of fuel n)
unfolding digits_of
digits_of-IsDigit zero n = tt
digits_of-IsDigit (suc fuel) n = elim (Bool-cases (ltb n 10)) [
  | inl last ↦ rw (last, digits_of) (ground arith, tt)
  | inr more ↦
      rw (more, digits_of)
        (All-append_digits _ _ (digits_of-IsDigit fuel (n / 10)) (ground arith, tt))
]

int_from-append :
    (value : ℕ) (xs : List ℕ) (c : ℕ)
    → int_from value (xs ++ (c ∷ [])) ≡ int_from value xs * 10 + (c - 48)
unfolding int_from
int_from-append value [] c = refl
int_from-append value (x ∷ xs) c = int_from-append (value * 10 + (x - 48)) xs c

int_from-digits_of : (fuel n : ℕ) → n < fuel → int_from 0 (digits_of fuel n) ≡ n
unfolding digits_of int_from
int_from-digits_of zero n h = absurd (omega arith)
int_from-digits_of (suc fuel) n h = elim (Bool-cases (ltb n 10)) [
  | inl last ↦ rw (last, digits_of) (omega arith)
  | inr more ↦
      let smaller : n / 10 < fuel = ground arith in
      rw (more, digits_of, int_from-append 0 (digits_of fuel (n / 10)) (48 + n % 10))
        (omega (arith, int_from-digits_of fuel (n / 10) smaller))
]

digits_of_some : (fuel n : ℕ) → 0 < length (digits_of (suc fuel) n)
unfolding digits_of
digits_of_some fuel n = elim (Bool-cases (ltb n 10)) [
  | inl last ↦ rw (last, digits_of) (omega arith)
  | inr more ↦
      rw (more, digits_of)
        (omega (arith, length-append (digits_of fuel (n / 10)) ((48 + n % 10) ∷ [])))
]

leading_digits-append :
    (xs text : List ℕ)
    → All IsDigit xs
    → leading_digits text ≡ ([], text)
    → leading_digits (xs ++ text) ≡ (xs, text)
unfolding leading_digits
leading_digits-append [] text h k = k
leading_digits-append (x ∷ xs) text (h, hs) k = rw (h, leading_digits-append xs text hs k)

leading_digits-name :
    (name tail : List ℕ) → IsClassName name → leading_digits (name ++ tail) ≡ ([], name ++ tail)
unfolding leading_digits is_class_name
leading_digits-name [] tail h = cc
leading_digits-name (c ∷ name) tail h = elim (Bool-cases (is_digit c)) [
  | inl digit ↦ cc (rw (digit, is_class_name) at h)
  | inr other ↦ rw other
]

take_name : (xs ys : List ℕ) → take (length xs) (xs ++ ys) ≡ xs
take_name [] ys = refl
take_name (x ∷ xs) ys = rw (take_name xs ys)

drop_name : (xs ys : List ℕ) → drop (length xs) (xs ++ ys) ≡ ys
drop_name [] ys = refl
drop_name (x ∷ xs) ys = drop_name xs ys

sized_text-name :
    (digits name tail : List ℕ)
    → 0 < length digits
    → int_from 0 digits ≡ length name
    → sized_text (digits, name ++ tail) ≡ read (name, tail)
unfolding sized_text
sized_text-name [] name tail some_digits value = absurd (omega arith)
sized_text-name (d ∷ digits) name tail some_digits value =
    let enough : ltb (length (name ++ tail)) (length name) ≡ false =
      ground (arith, length-append name tail) in
    rw (value, enough) (rw (take_name name tail, drop_name name tail))

-- A class is read back.
pub demangle_type-class_spelling :
    (name tail : List ℕ)
    → IsClassName name
    → demangle_type (class_spelling name tail) ≡ read (name, tail)
unfolding demangle_type class_spelling decimal
demangle_type-class_spelling name tail h =
    let n = length name in
    rw
      (leading_digits-append (digits_of (suc n) n) (name ++ tail) (digits_of-IsDigit (suc n) n)
        (leading_digits-name name tail h))
      (sized_text-name (digits_of (suc n) n) name tail (digits_of_some n n)
        (int_from-digits_of (suc n) n (omega arith)))

pub demangle_types-classes_spelling :
    (names : List (List ℕ)) (tail : List ℕ)
    → All IsClassName names
    → demangle_types (length names) (classes_spelling names tail) ≡ read (names, tail)
unfolding demangle_types classes_spelling
demangle_types-classes_spelling [] tail h = refl
demangle_types-classes_spelling (name ∷ names) tail (h, hs) = rw (
  demangle_type-class_spelling name (classes_spelling names tail) h,
  demangle_types-classes_spelling names tail hs,
)

-- A class in its namespaces is read back.
pub demangle_qualifiers-nested_spelling :
    (names : List (List ℕ)) (tail : List ℕ)
    → AreClassNames names
    → demangle_qualifiers (nested_spelling names tail) ≡ read (names, tail)
unfolding demangle_qualifiers nested_spelling
demangle_qualifiers-nested_spelling names tail (some_names, few, h) =
    let n = length names in
    let plain : ((48 + n) == underscore) ≡ false = ground arith in
    let counts : not (is_digit (48 + n)) || ((48 + n) == 48) ≡ false = ground arith in
    let number : 48 + n - 48 ≡ n = omega arith in
    rw (plain, counts, number) (demangle_types-classes_spelling names tail h)

-- The letters of the table are between `b` and `w`.
pub letter_bounds : (c : ℕ) → IsLetter c → (97 < c) × (c < 120)
unfolding fundamental_type
letter_bounds c h = (ground arith, ground arith)

-- The spelling of a class begins with a digit.
pub class_spelling_digit :
    (name tail : List ℕ)
    → (d : ℕ) × (rest : List ℕ) × (class_spelling name tail ≡ d ∷ rest) × (is_digit d ≡ true)
unfolding class_spelling decimal
class_spelling_digit name tail =
    front (digits_of (suc (length name)) (length name))
      (digits_of-IsDigit (suc (length name)) (length name))
      (digits_of_some (length name) (length name))
  where
    front :
        (digits : List ℕ)
        → All IsDigit digits
        → 0 < length digits
        → (d : ℕ) × (rest : List ℕ) × (digits ++ (name ++ tail) ≡ d ∷ rest) × (is_digit d ≡ true)
    front [] h some_digits = absurd (omega arith)
    front (d ∷ digits) (h, hs) some_digits = (d, digits ++ (name ++ tail), refl, h)

pub return_type-return_spelling :
    (returned : ReturnType) (tail : List ℕ)
    → IsReturnType returned
    → return_type (return_spelling returned tail) ≡ read (return_name returned, tail)
unfolding return_type return_spelling return_name pointer_return
return_type-return_spelling (returns_letter c) tail h =
    let (above, below) = letter_bounds c h in
    let digit : is_digit c ≡ false = ground arith in
    let no_q : (c == 81) ≡ false = ground arith in
    let no_p : (c == 80) ≡ false = ground arith in rw (digit, no_q, no_p, h)
return_type-return_spelling (returns_class name) tail h =
    let (d, rest, same, digit) = class_spelling_digit name tail in
    rw (same) (rw digit (rw (← same) (demangle_type-class_spelling name tail h)))
return_type-return_spelling (returns_pointer name) tail h =
    let (d, rest, same, digit) = class_spelling_digit name tail in
    rw (same) (rw digit (rw (← same, demangle_type-class_spelling name tail h)))
return_type-return_spelling (returns_nested names) tail h =
    rw (demangle_qualifiers-nested_spelling names tail h)

pub class_spelling_longer : (name tail : List ℕ) → length tail < length (class_spelling name tail)
unfolding class_spelling decimal
class_spelling_longer name tail = omega (
  arith,
  length-append (digits_of (suc (length name)) (length name)) (name ++ tail),
  length-append name tail,
  digits_of_some (length name) (length name),
)
