-- ===== src/Unmangler/Details.antt =====
-- `UnmangledDetails`: the reader of a whole name, and its text.
use linuxrecomp.Base.{
  ℕ, zero, suc, ◌-◌, Bool, true, false, not, ◌&&◌, ◌||◌, Option, none, some, List, [], ◌∷◌, ◌++◌,
  if◌then◌else◌, leb, ◌==◌, length, drop, map,
}
use linuxrecomp.Base.Text.{codes, same_text, is_digit, underscore}
use linuxrecomp.Unmangler.{
  Outcome, refused, read, out_of_fuel, ◌>>=◌, assertion_error, index_error, attribute_error,
  not_implemented, Qualifier, pointer, reference, const, TypeName, named, function, ArgList,
  no_args, arg,
}
use linuxrecomp.Unmangler.Types.{demangle_type, demangle_types, join, scoped}
use linuxrecomp.Unmangler.Args.{demangle_args}

-- text.startswith(prefix)
unfoldable pub starts_with : List ℕ → List ℕ → Bool
starts_with [] text = true
starts_with (p ∷ prefix) [] = false
starts_with (p ∷ prefix) (c ∷ text) = p == c && starts_with prefix text

-- part in text
unfoldable pub contains : List ℕ → List ℕ → Bool
contains part [] = starts_with part []
contains part (c ∷ text) = starts_with part (c ∷ text) || contains part text

abbrev pub separator : List ℕ
separator = codes "__"

-- text.count("__"), which counts occurrences that do not overlap: `skip` tells that the character is the
-- second of one.
unfoldable pub count_separators : Bool → List ℕ → ℕ
count_separators skip [] = 0
count_separators true (c ∷ text) = count_separators false text
count_separators false (c ∷ text) =
    if starts_with separator (c ∷ text)
    then suc (count_separators true text)
    else count_separators false text

-- text.split("__", 1), for a text that has a separator
unfoldable pub split_name : List ℕ → List ℕ × List ℕ
split_name [] = ([], [])
split_name (c ∷ text) =
    let (name, rest) = split_name text in
    if starts_with separator (c ∷ text) then ([], drop 1 text) else (c ∷ name, rest)

-- "__" in text and "___" not in text and text.count("__") == 1
unfoldable pub has_one_separator : List ℕ → Bool
has_one_separator text =
    contains separator text
    && (not (contains (codes "___") text) && (count_separators false text == 1))

-- The function's name, and the text behind the separator.
unfoldable pub function_part : List ℕ → Outcome (List ℕ × List ℕ)
function_part mangled =
    if starts_with separator mangled && has_one_separator (drop 2 mangled)
    then (let (name, rest) = split_name (drop 2 mangled) in read (separator ++ name, rest))
    else if has_one_separator mangled
    then read (split_name mangled)
    else refused not_implemented

-- The attributes of `UnmangledDetails`; two of them are there only once they are set.
pub record UnmangledDetails : Type 0 where
  pub function_name : List ℕ
  pub isconst : Bool
  pub args : ArgList
  pub namespace : Option (List ℕ)
  pub type_name : Option (List ℕ)

-- components[:-1] and components[-1]
unfoldable pub split_last : List (List ℕ) → Outcome (List (List ℕ) × List ℕ)
split_last [] = refused index_error
split_last (name ∷ []) = read ([], name)
split_last (name ∷ other ∷ names) = do
  (front, last) ← split_last (other ∷ names)
  read (name ∷ front, last)

-- The branch of the loop behind a `Q`.
unfoldable pub qualified_class : List ℕ → UnmangledDetails → Outcome (UnmangledDetails × List ℕ)
qualified_class [] d = refused index_error
qualified_class (c ∷ mangled) d =
    if c == underscore
    then refused not_implemented
    else if not (is_digit c)
    then refused assertion_error
    else (do
      (components, rest) ← demangle_types (c - 48) mangled
      (front, last) ← split_last components
      read (record d { namespace = some (scoped front); type_name = some last }, rest))

-- A round of the loop over the signature.
unfoldable pub signature_round : ℕ → List ℕ → UnmangledDetails → Outcome (UnmangledDetails × List ℕ)
signature_round c mangled d =
    if c == 81
    then qualified_class mangled d
    else if c == 67
    then read (record d { isconst = true }, mangled)
    else if is_digit c
    then (do
      (name, rest) ← demangle_type (c ∷ mangled)
      read (record d { type_name = some name }, rest))
    else if c == 70
    then (do (found, rest) ← demangle_args mangled false; read (record d { args = found }, rest))
    else refused not_implemented

-- The loop over the signature, on fuel.
unfoldable pub signature_loop : ℕ → List ℕ → UnmangledDetails → Outcome UnmangledDetails
signature_loop fuel [] d = read d
signature_loop zero (c ∷ mangled) d = out_of_fuel
signature_loop (suc fuel) (c ∷ mangled) d = do
  (next, rest) ← signature_round c mangled d
  signature_loop fuel rest next

-- The ASCII characters that `str.strip` takes off.
abbrev is_space : ℕ → Bool
is_space c = (c == 32) || (leb 9 c && leb c 13) || (leb 28 c && leb c 31)

unfoldable pub strip_left : (ℕ → Bool) → List ℕ → List ℕ
strip_left p [] = []
strip_left p (c ∷ text) = if p c then strip_left p text else c ∷ text

unfoldable pub strip_right : (ℕ → Bool) → List ℕ → List ℕ
strip_right p [] = []
strip_right p (c ∷ text) = elim (strip_right p text) [
  | [] ↦ if p c then [] else c ∷ []
  | d ∷ rest ↦ c ∷ d ∷ rest
]

-- `UnmangledDetails.__init__`
unfoldable pub details_of : List ℕ → Outcome UnmangledDetails
details_of mangled = do
  (name, signature) ←
      function_part (strip_left (λ c. c == 46) (strip_right is_space (strip_left is_space mangled)))
  signature_loop (length signature) signature (record {
    function_name = name;
    isconst = false;
    args = no_args;
    namespace = none;
    type_name = none;
  })

unfoldable pub qualifier_text : Qualifier → List ℕ
qualifier_text pointer = codes "*"
qualifier_text reference = codes "&"
qualifier_text const = codes "const"

-- qualifiers[::-1]
unfoldable pub reversed_qualifiers : List Qualifier → List Qualifier
reversed_qualifiers [] = []
reversed_qualifiers (q ∷ qualifiers) = reversed_qualifiers qualifiers ++ (q ∷ [])

-- The qualifiers of `Arg.__str__`, last first, with a space in front of each.
unfoldable pub qualifiers_text : List Qualifier → List ℕ
qualifiers_text [] = []
qualifiers_text (q ∷ qualifiers) =
    codes " " ++ join (codes " ") (map qualifier_text (reversed_qualifiers (q ∷ qualifiers)))

-- The class of a member function pointer.
unfoldable pub member_part : Bool → List ℕ → List ℕ
member_part true class_type = class_type ++ codes "::"
member_part false class_type = []

unfoldable mutual
  unfolding qualifiers_text member_part join

  -- `Arg.__str__` less the qualifiers, and `FunctionType.__str__`.
  pub type_text : TypeName → List ℕ
  type_text (named name) = name
  type_text (function returned args is_member class_type call_conv) =
      returned
      ++ (codes " ("
          ++ (call_conv
              ++ (codes " "
                  ++ (member_part is_member class_type
                      ++ (codes "*)(" ++ (join (codes ", ") (arg_texts args) ++ codes ")"))))))

  -- map(str, args)
  pub arg_texts : ArgList → List (List ℕ)
  arg_texts no_args = []
  arg_texts (arg qualifiers type args) =
      (type_text type ++ qualifiers_text qualifiers) ∷ arg_texts args

-- The parts of a signature's text behind the function's name.
unfoldable pub call_text : UnmangledDetails → List ℕ → List ℕ
call_text d name =
    name
    ++ (codes "("
        ++ (join (codes ", ") (arg_texts d.args)
            ++ (codes ")" ++ (if d.isconst then codes " const" else []))))

-- self.type_name, which raises where it was not set.
unfoldable pub class_name : UnmangledDetails → Outcome (List ℕ)
class_name d = elim d.type_name [ none ↦ refused attribute_error | some name ↦ read name ]

-- `get_post_namespace_signature`
unfoldable pub get_post_namespace_signature : UnmangledDetails → Outcome (List ℕ)
get_post_namespace_signature d =
    if same_text d.function_name (codes "__ct")
    then (do name ← class_name d; read (call_text d name))
    else if same_text d.function_name (codes "__dt")
    then (do name ← class_name d; read (codes "~" ++ (name ++ codes "()")))
    else read (call_text d d.function_name)

-- The branches of `__str__`, with the signature's text.
unfoldable pub with_scope : UnmangledDetails → List ℕ → Outcome (List ℕ)
with_scope d signature = elim d.namespace [
  | some namespace ↦ (do
    name ← class_name d
    read (namespace ++ (codes "::" ++ (name ++ (codes "::" ++ signature)))))
  | none ↦ elim d.type_name [
    | some name ↦ read (name ++ (codes "::" ++ signature))
    | none ↦ read signature
  ]
]

-- `UnmangledDetails.__str__`
unfoldable pub details_text : UnmangledDetails → Outcome (List ℕ)
details_text d = do signature ← get_post_namespace_signature d; with_scope d signature

-- `demangle`
unfoldable pub demangle : List ℕ → Outcome (List ℕ)
demangle mangled = do d ← details_of mangled; details_text d
