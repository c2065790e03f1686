-- ===== src/Unmangler/Proofs/Lengths.antt =====
-- The lengths of the spellings of the grammar.
use linuxrecomp.Base.{ℕ, ◌≤◌, ◌<◌, List, [], ◌∷◌, length, arith}
use linuxrecomp.Unmangler.{Qualifier}
use linuxrecomp.Unmangler.Proofs.Grammar.{
  class_spelling, classes_spelling, nested_spelling, ReturnType, returns_letter, returns_class,
  returns_pointer, returns_nested, return_spelling, PlainType, letter, unsigned_letter,
  signed_letter, class_named, class_nested, plain_spelling, Params, nothing, plain, callback,
  method, qualifiers_spelling, params_spelling,
}
use linuxrecomp.Unmangler.Proofs.Words.{class_spelling_longer}

classes_longer :
    (names : List (List ℕ)) (tail : List ℕ) → length tail ≤ length (classes_spelling names tail)
unfolding classes_spelling
classes_longer [] tail = omega arith
classes_longer (name ∷ names) tail =
    omega
      (arith, class_spelling_longer name (classes_spelling names tail), classes_longer names tail)

pub plain_longer :
    (type : PlainType) (tail : List ℕ) → length tail < length (plain_spelling type tail)
unfolding plain_spelling nested_spelling
plain_longer (letter c) tail = omega arith
plain_longer (unsigned_letter c) tail = omega arith
plain_longer (signed_letter c) tail = omega arith
plain_longer (class_named name) tail = class_spelling_longer name tail
plain_longer (class_nested names) tail = omega (arith, classes_longer names tail)

pub return_longer :
    (returned : ReturnType) (tail : List ℕ) → length tail ≤ length (return_spelling returned tail)
unfolding return_spelling nested_spelling
return_longer (returns_letter c) tail = omega arith
return_longer (returns_class name) tail = omega (arith, class_spelling_longer name tail)
return_longer (returns_pointer name) tail = omega (arith, class_spelling_longer name tail)
return_longer (returns_nested names) tail = omega (arith, classes_longer names tail)

pub qualifiers_longer :
    (qs : List Qualifier) (tail : List ℕ) → length tail ≤ length (qualifiers_spelling qs tail)
unfolding qualifiers_spelling
qualifiers_longer [] tail = omega arith
qualifiers_longer (q ∷ qs) tail = omega (arith, qualifiers_longer qs tail)

-- What stands behind the arguments of a function.
abbrev pub after_args : ReturnType → List ℕ → List ℕ
after_args returned tail = 95 ∷ return_spelling returned tail

pub params_longer : (ps : Params) (tail : List ℕ) → length tail ≤ length (params_spelling ps tail)
unfolding params_spelling
params_longer nothing tail = omega arith
params_longer (plain qs type ps) tail = omega (
  arith,
  qualifiers_longer qs (plain_spelling type (params_spelling ps tail)),
  plain_longer type (params_spelling ps tail),
  params_longer ps tail,
)
params_longer (callback qs inner returned ps) tail =
    let after = after_args returned (params_spelling ps tail) in
    omega (
      arith,
      qualifiers_longer qs (80 ∷ 70 ∷ params_spelling inner after),
      params_longer inner after,
      return_longer returned (params_spelling ps tail),
      params_longer ps tail,
    )
params_longer (method qs name inner returned ps) tail =
    let after = after_args returned (params_spelling ps tail) in
    omega (
      arith,
      qualifiers_longer qs (77 ∷ class_spelling name (70 ∷ params_spelling inner after)),
      class_spelling_longer name (70 ∷ params_spelling inner after),
      params_longer inner after,
      return_longer returned (params_spelling ps tail),
      params_longer ps tail,
    )
