-- ===== src/Unmangler/Proofs/Grammar.antt =====
-- The argument lists of CodeWarrior's mangled names: a grammar, how its words are spelled, and what they
-- mean. Each spelling is put in front of a text.
use linuxrecomp.Base.{
  ℕ, zero, suc, ◌+◌, ◌/◌, ◌%◌, ◌<◌, ◌≡◌, Bool, true, false, ◌&&◌, none, some, List, [], ◌∷◌, ◌++◌,
  if◌then◌else◌, ltb, ◌==◌, length, All,
}
use linuxrecomp.Base.Text.{codes, is_digit, underscore}
use linuxrecomp.Unmangler.{
  Qualifier, pointer, reference, const, named, function, ArgList, no_args, arg,
}
use linuxrecomp.Unmangler.Types.{scoped, fundamental_type, is_unsignable}
use linuxrecomp.Unmangler.Args.{calling_convention}

-- The digits of a number, on fuel.
unfoldable pub digits_of : ℕ → ℕ → List ℕ
digits_of zero n = []
digits_of (suc fuel) n =
    let front = digits_of fuel (n / 10) in
    if ltb n 10 then (48 + n) ∷ [] else front ++ ((48 + n % 10) ∷ [])

-- str(n)
unfoldable pub decimal : ℕ → List ℕ
decimal n = digits_of (suc n) n

-- A class: the length of its name, and the name.
unfoldable pub class_spelling : List ℕ → List ℕ → List ℕ
class_spelling name tail = decimal (length name) ++ (name ++ tail)

unfoldable pub classes_spelling : List (List ℕ) → List ℕ → List ℕ
classes_spelling [] tail = tail
classes_spelling (name ∷ names) tail = class_spelling name (classes_spelling names tail)

-- A class in its namespaces, behind the `Q`: their number, and each of them.
unfoldable pub nested_spelling : List (List ℕ) → List ℕ → List ℕ
nested_spelling names tail = (48 + length names) ∷ classes_spelling names tail

-- The types that have a name: a letter of the table, with or without a sign, or a class.
pub data PlainType : Type 0 where
  letter unsigned_letter signed_letter : ℕ → PlainType
  class_named : List ℕ → PlainType
  class_nested : List (List ℕ) → PlainType

unfoldable pub plain_spelling : PlainType → List ℕ → List ℕ
plain_spelling (letter c) tail = c ∷ tail
plain_spelling (unsigned_letter c) tail = 85 ∷ c ∷ tail
plain_spelling (signed_letter c) tail = 83 ∷ c ∷ tail
plain_spelling (class_named name) tail = class_spelling name tail
plain_spelling (class_nested names) tail = 81 ∷ nested_spelling names tail

-- The word of a letter.
unfoldable pub word_of : ℕ → List ℕ
word_of c = elim (fundamental_type c) [ none ↦ [] | some word ↦ word ]

unfoldable pub plain_name : PlainType → List ℕ
plain_name (letter c) = word_of c
plain_name (unsigned_letter c) = codes "unsigned " ++ word_of c
plain_name (signed_letter c) = codes "signed " ++ word_of c
plain_name (class_named name) = name
plain_name (class_nested names) = scoped names

-- The return types.
pub data ReturnType : Type 0 where
  returns_letter : ℕ → ReturnType
  returns_class returns_pointer : List ℕ → ReturnType
  returns_nested : List (List ℕ) → ReturnType

unfoldable pub return_spelling : ReturnType → List ℕ → List ℕ
return_spelling (returns_letter c) tail = c ∷ tail
return_spelling (returns_class name) tail = class_spelling name tail
return_spelling (returns_pointer name) tail = 80 ∷ class_spelling name tail
return_spelling (returns_nested names) tail = 81 ∷ nested_spelling names tail

unfoldable pub return_name : ReturnType → List ℕ
return_name (returns_letter c) = word_of c
return_name (returns_class name) = name
return_name (returns_pointer name) = name ++ codes "*"
return_name (returns_nested names) = scoped names

-- A list of arguments: each has its qualifiers, and a named type, a pointer to a function, or a pointer to
-- a member function of a class, with these functions' arguments and return type.
pub data Params : Type 0 where
  nothing : Params
  plain : List Qualifier → PlainType → Params → Params
  callback : List Qualifier → Params → ReturnType → Params → Params
  method : List Qualifier → List ℕ → Params → ReturnType → Params → Params

unfoldable pub qualifier_letter : Qualifier → ℕ
qualifier_letter pointer = 80
qualifier_letter reference = 82
qualifier_letter const = 67

unfoldable pub qualifiers_spelling : List Qualifier → List ℕ → List ℕ
qualifiers_spelling [] tail = tail
qualifiers_spelling (q ∷ qualifiers) tail = qualifier_letter q ∷ qualifiers_spelling qualifiers tail

unfoldable pub params_spelling : Params → List ℕ → List ℕ
params_spelling nothing tail = tail
params_spelling (plain qualifiers type params) tail =
    qualifiers_spelling qualifiers (plain_spelling type (params_spelling params tail))
params_spelling (callback qualifiers inner returned params) tail = qualifiers_spelling qualifiers (
    80
    ∷ 70
    ∷ params_spelling inner (underscore ∷ return_spelling returned (params_spelling params tail)))
params_spelling (method qualifiers name inner returned params) tail =
    qualifiers_spelling qualifiers (
      77
      ∷ class_spelling name (
          70
          ∷ params_spelling inner
              (underscore ∷ return_spelling returned (params_spelling params tail))))

-- The arguments that the list means.
unfoldable pub args_of : Params → ArgList
args_of nothing = no_args
args_of (plain qualifiers type params) = arg qualifiers (named (plain_name type)) (args_of params)
args_of (callback qualifiers inner returned params) =
    arg qualifiers
      (function (return_name returned) (args_of inner) false [] (calling_convention false))
      (args_of params)
args_of (method qualifiers name inner returned params) =
    arg qualifiers
      (function (return_name returned) (args_of inner) true name (calling_convention true))
      (args_of params)

-- A name that can stand behind its length: not empty, with no digit in front.
unfoldable pub is_class_name : List ℕ → Bool
is_class_name [] = false
is_class_name (c ∷ name) = if is_digit c then false else true

abbrev pub IsClassName : List ℕ → Type 0
IsClassName name = is_class_name name ≡ true

-- The names behind a `Q`: one to nine.
abbrev pub AreClassNames : List (List ℕ) → Type 0
AreClassNames names = (0 < length names) × (length names < 10) × All IsClassName names

-- A letter of the table of the fundamental types.
abbrev pub IsLetter : ℕ → Type 0
IsLetter c = fundamental_type c ≡ some (word_of c)

abbrev pub IsPlainType : PlainType → Type 0
IsPlainType (letter c) = IsLetter c
IsPlainType (unsigned_letter c) = IsLetter c × (is_unsignable c ≡ true)
IsPlainType (signed_letter c) = IsLetter c × (is_unsignable c ≡ true)
IsPlainType (class_named name) = IsClassName name
IsPlainType (class_nested names) = AreClassNames names

abbrev pub IsReturnType : ReturnType → Type 0
IsReturnType (returns_letter c) = IsLetter c
IsReturnType (returns_class name) = IsClassName name
IsReturnType (returns_pointer name) = IsClassName name
IsReturnType (returns_nested names) = AreClassNames names

-- The letters and the names of the list can be spelled.
abbrev pub IsSpellable : Params → Type 0
IsSpellable nothing = Unit
IsSpellable (plain qualifiers type params) = IsPlainType type × IsSpellable params
IsSpellable (callback qualifiers inner returned params) =
    IsSpellable inner × IsReturnType returned × IsSpellable params
IsSpellable (method qualifiers name inner returned params) =
    IsClassName name × IsSpellable inner × IsReturnType returned × IsSpellable params

-- Behind the arguments the text ends, or, where the reader stops at one, a `_` stands.
unfoldable pub is_args_end : Bool → List ℕ → Bool
is_args_end stop [] = true
is_args_end stop (c ∷ tail) = stop && (c == underscore)
