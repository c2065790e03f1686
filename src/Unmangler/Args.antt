-- ===== src/Unmangler/Args.antt =====
-- `demangle_args` and `demangle_function_pointer`, which call each other.
use linuxrecomp.Base.{
  ℕ, zero, suc, Bool, true, false, ◌&&◌, Option, none, some, List, [], ◌∷◌, ◌++◌, if◌then◌else◌,
  ◌==◌, length,
}
use linuxrecomp.Base.Text.{codes, is_digit, underscore}
use linuxrecomp.Unmangler.{
  Outcome, refused, read, out_of_fuel, ◌>>=◌, assertion_error, index_error, key_error,
  not_implemented, Qualifier, pointer, reference, const, TypeName, named, function, ArgList,
  no_args, arg,
}
use linuxrecomp.Unmangler.Types.{
  demangle_type, demangle_qualifiers, scoped, fundamental_type, is_unsignable,
}

-- qualifier_map.get(c)
unfoldable pub qualifier_of : ℕ → Option Qualifier
qualifier_of c =
    if c == 80
    then some pointer
    else if c == 82
    then some reference
    else if c == 67
    then some const
    else none

-- The class of a member function pointer.
unfoldable pub member_class : List ℕ → Outcome (List ℕ × List ℕ)
member_class [] = refused index_error
member_class (c ∷ mangled) =
    if is_digit c
    then demangle_type (c ∷ mangled)
    else if c == 81
    then (do (classes, rest) ← demangle_qualifiers mangled; read (scoped classes, rest))
    else refused not_implemented

unfoldable pub class_of : Bool → List ℕ → Outcome (List ℕ × List ℕ)
class_of true mangled = member_class mangled
class_of false mangled = read ([], mangled)

-- Skips one character that must stand there.
unfoldable pub expect : ℕ → List ℕ → Outcome (List ℕ)
expect letter [] = refused not_implemented
expect letter (c ∷ mangled) = if c == letter then read mangled else refused not_implemented

-- The return type behind a `P`.
unfoldable pub pointer_return : List ℕ → Outcome (List ℕ × List ℕ)
pointer_return [] = refused not_implemented
pointer_return (c ∷ mangled) =
    if is_digit c
    then (do (name, rest) ← demangle_type (c ∷ mangled); read (name ++ codes "*", rest))
    else refused not_implemented

-- The return type, which is missing where the text ends.
unfoldable pub return_type : List ℕ → Outcome (List ℕ × List ℕ)
return_type [] = read ([], [])
return_type (c ∷ mangled) =
    if is_digit c
    then demangle_type (c ∷ mangled)
    else if c == 81
    then (do (names, rest) ← demangle_qualifiers mangled; read (scoped names, rest))
    else if c == 80
    then pointer_return mangled
    else elim (fundamental_type c) [
      | none ↦ refused not_implemented
      | some name ↦ read (name, mangled)
    ]

unfoldable pub calling_convention : Bool → List ℕ
calling_convention true = codes "__thiscall"
calling_convention false = codes "__cdecl"

-- `demangle_function_pointer`, with the reader of its arguments.
unfoldable pub demangle_function_pointer :
    (List ℕ → Outcome (ArgList × List ℕ)) → List ℕ → Bool → Outcome (TypeName × List ℕ)
demangle_function_pointer read_args mangled is_member = do
  (class_type, at_f) ← class_of is_member mangled
  at_args ← expect 70 at_f
  (args, at_end) ← read_args at_args
  at_return ← expect underscore at_end
  (returned, rest) ← return_type at_return
  read (function returned args is_member class_type (calling_convention is_member), rest)

-- `arg.qualifiers` less its last, which must be a pointer.
unfoldable pub without_pointer : List Qualifier → Outcome (List Qualifier)
without_pointer [] = refused index_error
without_pointer (pointer ∷ []) = read []
without_pointer (reference ∷ []) = refused assertion_error
without_pointer (const ∷ []) = refused assertion_error
without_pointer (q ∷ r ∷ qualifiers) = do rest ← without_pointer (r ∷ qualifiers); read (q ∷ rest)

-- The letter behind `U` or `S`, with the word that these stand for.
unfoldable pub signed_type : List ℕ → List ℕ → Outcome (TypeName × List ℕ)
signed_type sign [] = refused index_error
signed_type sign (c ∷ mangled) = elim (fundamental_type c) [
  | none ↦ refused key_error
  | some name ↦
      if is_unsignable c then read (named (sign ++ name), mangled) else refused assertion_error
]

-- The last branch of the loop of `demangle_args`.
unfoldable pub fundamental : ℕ → List ℕ → Outcome (TypeName × List ℕ)
fundamental c mangled =
    if c == 85
    then signed_type (codes "unsigned ") mangled
    else if c == 83
    then signed_type (codes "signed ") mangled
    else elim (fundamental_type c) [
      | none ↦ refused assertion_error
      | some name ↦ read (named name, mangled)
    ]

-- The branches of the loop that complete an argument: its qualifiers, its type, and the rest.
unfoldable pub argument_type :
    (List ℕ → Outcome (ArgList × List ℕ))
    → List Qualifier
    → ℕ
    → List ℕ
    → Outcome (List Qualifier × TypeName × List ℕ)
argument_type read_args qualifiers c mangled =
    if c == 77
    then (do
      (type, rest) ← demangle_function_pointer read_args mangled true
      read (qualifiers, type, rest))
    else if c == 70
    then (do
      outer ← without_pointer qualifiers
      (type, rest) ← demangle_function_pointer read_args (c ∷ mangled) false
      read (outer, type, rest))
    else if is_digit c
    then (do (name, rest) ← demangle_type (c ∷ mangled); read (qualifiers, named name, rest))
    else if c == 81
    then (do
      (names, rest) ← demangle_qualifiers mangled
      read (qualifiers, named (scoped names), rest))
    else (do (type, rest) ← fundamental c mangled; read (qualifiers, type, rest))

-- The loop of `demangle_args` on fuel, with the qualifiers of the argument that has begun. The arguments
-- are those from here on; qualifiers in front of the end are dropped.
unfoldable pub args_loop : ℕ → Bool → List Qualifier → List ℕ → Outcome (ArgList × List ℕ)
args_loop zero stop qualifiers mangled = out_of_fuel
args_loop (suc fuel) stop qualifiers [] = read (no_args, [])
args_loop (suc fuel) stop qualifiers (c ∷ mangled) =
    if stop && (c == underscore) then read (no_args, c ∷ mangled) else elim (qualifier_of c) [
      | some q ↦ args_loop fuel stop (qualifiers ++ (q ∷ [])) mangled
      | none ↦ (do
        (qs, type, rest) ← argument_type (args_loop fuel true []) qualifiers c mangled
        (args, end) ← args_loop fuel stop [] rest
        read (arg qs type args, end))
    ]

-- `demangle_args`. The fuel is one more than the characters.
unfoldable pub demangle_args : List ℕ → Bool → Outcome (ArgList × List ℕ)
demangle_args mangled stop = args_loop (suc (length mangled)) stop [] mangled
