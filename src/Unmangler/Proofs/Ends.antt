-- ===== src/Unmangler/Proofs/Ends.antt =====
-- How the readers of the parts of a mangled name end.
use linuxrecomp.Base.{
  ℕ, zero, suc, ◌+◌, ◌-◌, ◌≤◌, ◌<◌, ◌≡◌, refl, Bool, true, false, not, ◌||◌, Option, none, some,
  List, [], ◌∷◌, if◌then◌else◌, ltb, ◌==◌, length, arith, length-drop, Bool-cases, inl, inr,
}
use linuxrecomp.Base.Text.{is_digit, underscore}
use linuxrecomp.Unmangler.{Outcome, refused, read, out_of_fuel, ◌>>=◌, ArgList, not_implemented}
use linuxrecomp.Unmangler.Types.{
  leading_digits, int_from, sized_text, demangle_type, demangle_types, demangle_qualifiers,
  fundamental_type,
}
use linuxrecomp.Unmangler.Args.{
  member_class, class_of, expect, pointer_return, return_type, demangle_function_pointer,
}

-- The outcome is not for want of fuel, and less than `n` characters are left where there is a result.
abbrev pub Ends {ℓ} : {A : Type ℓ} → (A → List ℕ) → ℕ → Outcome A → Type 0
Ends left n (refused why) = Unit
Ends left n (read a) = length (left a) < n
Ends left n out_of_fuel = ⊥

-- What a pair leaves.
abbrev pub rest_of {ℓ} : {A : Type ℓ} → A × List ℕ → List ℕ
rest_of (a, rest) = rest

pub >>=-Ends {ℓ κ} :
    {A : Type ℓ} {B : Type κ} (left : A → List ℕ) (left' : B → List ℕ) (m n : ℕ) (x : Outcome A)
    (next : A → Outcome B)
    → Ends left m x
    → ((a : A) → length (left a) < m → Ends left' n (next a))
    → Ends left' n (x >>= next)
>>=-Ends left left' m n (refused why) next h rest = tt
>>=-Ends left left' m n (read a) next h rest = rest a h
>>=-Ends left left' m n out_of_fuel next h rest = h

pub if-Ends {ℓ} :
    {A : Type ℓ} (left : A → List ℕ) (n : ℕ) (b : Bool) (x y : Outcome A)
    → Ends left n x
    → Ends left n y
    → Ends left n (if b then x else y)
if-Ends left n true x y hx hy = hx
if-Ends left n false x y hx hy = hy

-- A result that is given on with the same rest.
pub map-Ends {ℓ κ} :
    {A : Type ℓ} {B : Type κ} (f : A → B) (m n : ℕ) (x : Outcome (A × List ℕ))
    → Ends rest_of m x
    → m ≤ n
    → Ends rest_of n (x >>= λ p. read (f p.0, p.1))
map-Ends f m n (refused why) h le = tt
map-Ends f m n (read (a, rest)) h le = omega arith
map-Ends f m n out_of_fuel h le = h

pub weaken-Ends {ℓ} :
    {A : Type ℓ} (left : A → List ℕ) (m n : ℕ) (x : Outcome A)
    → Ends left m x
    → m ≤ n
    → Ends left n x
weaken-Ends left m n (refused why) h le = tt
weaken-Ends left m n (read a) h le = omega arith
weaken-Ends left m n out_of_fuel h le = h

length-leading_digits :
    (text : List ℕ) → length (leading_digits text).0 + length (leading_digits text).1 ≡ length text
unfolding leading_digits
length-leading_digits [] = refl
length-leading_digits (c ∷ text) = elim (Bool-cases (is_digit c)) [
  | inl digit ↦ rw digit (omega (arith, length-leading_digits text))
  | inr other ↦ rw other (omega arith)
]

sized_text-Ends :
    (parts : List ℕ × List ℕ) → Ends rest_of (length parts.0 + length parts.1) (sized_text parts)
unfolding sized_text
sized_text-Ends ([], rest) = tt
sized_text-Ends (d ∷ digits, rest) =
    elim (Bool-cases (ltb (length rest) (int_from 0 (d ∷ digits)))) [
      | inl short ↦ rw short tt
      | inr enough ↦ rw enough (omega (arith, length-drop (int_from 0 (d ∷ digits)) rest))
    ]

pub demangle_type-Ends : (mangled : List ℕ) → Ends rest_of (length mangled) (demangle_type mangled)
unfolding demangle_type
demangle_type-Ends mangled =
    rw (← length-leading_digits mangled) (sized_text-Ends (leading_digits mangled))

pub demangle_types-Ends :
    (count : ℕ) (mangled : List ℕ)
    → Ends rest_of (suc (length mangled)) (demangle_types count mangled)
unfolding demangle_types
demangle_types-Ends zero mangled = omega arith
demangle_types-Ends (suc count) mangled =
    >>=-Ends rest_of rest_of (length mangled) _ (demangle_type mangled) _
      (demangle_type-Ends mangled)
      (λ (name, rest) h.
        >>=-Ends rest_of rest_of (suc (length rest)) _ (demangle_types count rest) _
          (demangle_types-Ends count rest) (λ (names, end) h'. omega arith))

pub demangle_qualifiers-Ends :
    (mangled : List ℕ) → Ends rest_of (length mangled) (demangle_qualifiers mangled)
unfolding demangle_qualifiers
demangle_qualifiers-Ends [] = tt
demangle_qualifiers-Ends (c ∷ mangled) = if-Ends rest_of _ (c == underscore) _ _ tt (
    if-Ends rest_of _ (not (is_digit c) || (c == 48)) _ _ tt (demangle_types-Ends (c - 48) mangled))

-- The names behind a `Q`, put together.
pub scoped-Ends :
    {B : Type 0} (f : List (List ℕ) → B) (mangled : List ℕ)
    → Ends rest_of (suc (length mangled)) (demangle_qualifiers mangled >>= λ p. read (f p.0, p.1))
scoped-Ends f mangled =
    map-Ends f (length mangled) _ (demangle_qualifiers mangled) (demangle_qualifiers-Ends mangled)
      (omega arith)

pub type-Ends :
    {B : Type 0} (f : List ℕ → B) (mangled : List ℕ)
    → Ends rest_of (length mangled) (demangle_type mangled >>= λ p. read (f p.0, p.1))
type-Ends f mangled =
    map-Ends f (length mangled) _ (demangle_type mangled) (demangle_type-Ends mangled) (omega arith)

class_of-Ends :
    (b : Bool) (mangled : List ℕ) → Ends rest_of (suc (length mangled)) (class_of b mangled)
unfolding class_of member_class
class_of-Ends true [] = tt
class_of-Ends true (c ∷ mangled) =
    if-Ends rest_of _ (is_digit c) _ _
      (weaken-Ends rest_of _ _ _ (demangle_type-Ends (c ∷ mangled)) (omega arith))
      (if-Ends rest_of _ (c == 81) _ _
        (weaken-Ends rest_of _ _ _ (scoped-Ends _ mangled) (omega arith)) tt)
class_of-Ends false mangled = omega arith

expect-Ends :
    (letter : ℕ) (mangled : List ℕ) → Ends (λ rest. rest) (length mangled) (expect letter mangled)
unfolding expect
expect-Ends letter [] = tt
expect-Ends letter (c ∷ mangled) = if-Ends (λ rest. rest) _ (c == letter) _ _ (omega arith) tt

return_type-Ends : (mangled : List ℕ) → Ends rest_of (suc (length mangled)) (return_type mangled)
unfolding return_type pointer_return
return_type-Ends [] = omega arith
return_type-Ends (c ∷ mangled) =
    if-Ends rest_of _ (is_digit c) _ _
      (weaken-Ends rest_of _ _ _ (demangle_type-Ends (c ∷ mangled)) (omega arith))
      (if-Ends rest_of _ (c == 81) _ _
        (weaken-Ends rest_of _ _ _ (scoped-Ends _ mangled) (omega arith))
        (if-Ends rest_of _ (c == 80) _ _ (behind mangled) (letter (fundamental_type c))))
  where
    behind : (text : List ℕ) → Ends rest_of (suc (suc (length text))) (pointer_return text)
    behind [] = tt
    behind (d ∷ text) =
        if-Ends rest_of _ (is_digit d) _ _
          (weaken-Ends rest_of _ _ _ (type-Ends _ (d ∷ text)) (omega arith)) tt

    letter :
        (o : Option (List ℕ))
        → Ends rest_of
            (suc (suc (length mangled)))
            (elim o [ none ↦ refused not_implemented | some name ↦ read (name, mangled) ])
    letter none = tt
    letter (some name) = omega arith

-- The reader of the arguments ends on each text below a length.
abbrev pub EndsBelow : ℕ → (List ℕ → Outcome (ArgList × List ℕ)) → Type 0
EndsBelow n read_args =
    (text : List ℕ) → length text < n → Ends rest_of (suc (length text)) (read_args text)

pub demangle_function_pointer-Ends :
    (read_args : List ℕ → Outcome (ArgList × List ℕ)) (mangled : List ℕ) (is_member : Bool)
    → EndsBelow (length mangled) read_args
    → Ends rest_of (length mangled) (demangle_function_pointer read_args mangled is_member)
unfolding demangle_function_pointer
demangle_function_pointer-Ends read_args mangled is_member h =
    >>=-Ends rest_of rest_of _ _ (class_of is_member mangled) _ (class_of-Ends is_member mangled)
      (λ (class_type, at_f) h0.
        >>=-Ends (λ rest. rest) rest_of _ _ (expect 70 at_f) _ (expect-Ends 70 at_f)
          (λ at_args h1.
            >>=-Ends rest_of rest_of _ _ (read_args at_args) _ (h at_args (omega arith))
              (λ (args, at_end) h2.
                >>=-Ends (λ rest. rest) rest_of _ _ (expect underscore at_end) _
                  (expect-Ends underscore at_end)
                  (λ at_return h3.
                    >>=-Ends rest_of rest_of _ _ (return_type at_return) _
                      (return_type-Ends at_return) (λ (returned, rest) h4. omega arith)))))
