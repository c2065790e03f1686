-- ===== src/Unmangler/Types.antt =====
-- `demangle_type` and `demangle_qualifiers`, and the table of the fundamental types.
use linuxrecomp.Base.{
  ℕ, zero, suc, ◌+◌, ◌-◌, ◌*◌, Bool, not, ◌||◌, Option, none, some, List, [], ◌∷◌, ◌++◌,
  if◌then◌else◌, ltb, ◌==◌, length, take, drop,
}
use linuxrecomp.Base.Text.{codes, is_digit, underscore}
use linuxrecomp.Unmangler.{
  Outcome, refused, read, ◌>>=◌, assertion_error, value_error, index_error, not_implemented,
}

-- The leading digits, and the text behind them.
unfoldable pub leading_digits : List ℕ → List ℕ × List ℕ
leading_digits [] = ([], [])
leading_digits (c ∷ text) =
    let (digits, rest) = leading_digits text in
    if is_digit c then (c ∷ digits, rest) else ([], c ∷ text)

-- int(digits), with the value of the digits in front
unfoldable pub int_from : ℕ → List ℕ → ℕ
int_from value [] = value
int_from value (c ∷ digits) = int_from (value * 10 + (c - 48)) digits

-- The end of `demangle_type`, behind the loop.
unfoldable pub sized_text : List ℕ × List ℕ → Outcome (List ℕ × List ℕ)
sized_text ([], rest) = refused value_error
sized_text (d ∷ digits, rest) =
    let size = int_from 0 (d ∷ digits) in
    if ltb (length rest) size
    then refused assertion_error
    else read (take size rest, drop size rest)

-- `demangle_type`
unfoldable pub demangle_type : List ℕ → Outcome (List ℕ × List ℕ)
demangle_type mangled = sized_text (leading_digits mangled)

-- The loop of `demangle_qualifiers`: `count` names are left.
unfoldable pub demangle_types : ℕ → List ℕ → Outcome (List (List ℕ) × List ℕ)
demangle_types zero mangled = read ([], mangled)
demangle_types (suc count) mangled = do
  (name, rest) ← demangle_type mangled
  (names, end) ← demangle_types count rest
  read (name ∷ names, end)

-- `demangle_qualifiers`
unfoldable pub demangle_qualifiers : List ℕ → Outcome (List (List ℕ) × List ℕ)
demangle_qualifiers [] = refused index_error
demangle_qualifiers (c ∷ mangled) =
    if c == underscore
    then refused not_implemented
    else if not (is_digit c) || (c == 48)
    then refused assertion_error
    else demangle_types (c - 48) mangled

-- separator.join(names)
unfoldable pub join : List ℕ → List (List ℕ) → List ℕ
join separator [] = []
join separator (name ∷ []) = name
join separator (name ∷ other ∷ names) = name ++ (separator ++ join separator (other ∷ names))

-- "::".join(names)
unfoldable pub scoped : List (List ℕ) → List ℕ
scoped names = join (codes "::") names

-- fundamental_types.get(c)
unfoldable pub fundamental_type : ℕ → Option (List ℕ)
fundamental_type c =
    if c == 98
    then some (codes "bool")
    else if c == 118
    then some (codes "void")
    else if c == 99
    then some (codes "char")
    else if c == 119
    then some (codes "wchar_t")
    else if c == 115
    then some (codes "short")
    else if c == 105
    then some (codes "int")
    else if c == 108
    then some (codes "long")
    else if c == 102
    then some (codes "float")
    else if c == 100
    then some (codes "double")
    else if c == 101
    then some (codes "...")
    else none

-- fundamental_types[c] in unsignable_types, for a letter of the table
unfoldable pub is_unsignable : ℕ → Bool
is_unsignable c = (c == 99) || (c == 115) || (c == 105) || (c == 108)
