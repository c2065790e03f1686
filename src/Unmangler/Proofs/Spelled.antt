-- ===== src/Unmangler/Proofs/Spelled.antt =====
-- The loop of `demangle_args` on the words of the grammar.
use linuxrecomp.Base.{
  ℕ, zero, suc, ◌<◌, ◌≡◌, refl, ap, sym, ◌∙◌, Bool, true, false, ◌&&◌, none, List, [], ◌∷◌, ◌++◌,
  ◌==◌, length, arith,
}
use mathlib.Core.List.{append_assoc, append-nil}
use linuxrecomp.Base.Text.{codes, is_digit, underscore}
use linuxrecomp.Unmangler.{
  Outcome, read, ◌>>=◌, Qualifier, pointer, reference, const, TypeName, named, ArgList, arg,
}
use linuxrecomp.Unmangler.Types.{demangle_type, scoped, is_unsignable}
use linuxrecomp.Unmangler.Args.{
  qualifier_of, without_pointer, signed_type, fundamental, argument_type, args_loop,
}
use linuxrecomp.Unmangler.Proofs.Grammar.{
  nested_spelling, word_of, IsLetter, PlainType, letter, unsigned_letter, signed_letter,
  class_named, class_nested, plain_spelling, plain_name, IsPlainType, qualifier_letter,
  qualifiers_spelling,
}
use linuxrecomp.Unmangler.Proofs.Words.{
  demangle_type-class_spelling, demangle_qualifiers-nested_spelling, letter_bounds,
  class_spelling_digit,
}

-- The round of a qualifier.
args_loop-qualifier :
    (fuel : ℕ) (stop : Bool) (front : List Qualifier) (q : Qualifier) (text : List ℕ)
    → args_loop (suc fuel) stop front (qualifier_letter q ∷ text)
      ≡ args_loop fuel stop (front ++ (q ∷ [])) text
unfolding args_loop qualifier_letter qualifier_of
args_loop-qualifier fuel true front pointer text = refl
args_loop-qualifier fuel true front reference text = refl
args_loop-qualifier fuel true front const text = refl
args_loop-qualifier fuel false front pointer text = refl
args_loop-qualifier fuel false front reference text = refl
args_loop-qualifier fuel false front const text = refl

-- Qualifiers are collected in front of what follows.
pub args_loop-qualifiers :
    (qs : List Qualifier) (fuel : ℕ) (stop : Bool) (front : List Qualifier) (text : List ℕ)
    (result : Outcome (ArgList × List ℕ))
    → length (qualifiers_spelling qs text) < fuel
    → ((f : ℕ) → length text < f → args_loop f stop (front ++ qs) text ≡ result)
    → args_loop fuel stop front (qualifiers_spelling qs text) ≡ result
unfolding qualifiers_spelling
args_loop-qualifiers [] fuel stop front text result h next =
    ap (λ qs. args_loop fuel stop qs text) (sym (append-nil front)) ∙ next fuel h
args_loop-qualifiers (q ∷ qs) zero stop front text result h next = absurd (omega arith)
args_loop-qualifiers (q ∷ qs) (suc fuel) stop front text result h next =
    args_loop-qualifier fuel stop front q (qualifiers_spelling qs text)
    ∙ args_loop-qualifiers qs fuel stop (front ++ (q ∷ [])) text result (omega arith)
        (λ f l. ap (λ all. args_loop f stop all text) (append_assoc front (q ∷ []) qs) ∙ next f l)

-- The round that completes an argument, and those behind it.
pub argument_round :
    (fuel : ℕ) (stop : Bool) (qualifiers outer : List Qualifier) (c : ℕ) (text rest end : List ℕ)
    (type : TypeName) (args : ArgList)
    → (c == underscore) ≡ false
    → qualifier_of c ≡ none
    → argument_type (args_loop fuel true []) qualifiers c text ≡ read (outer, type, rest)
    → args_loop fuel stop [] rest ≡ read (args, end)
    → args_loop (suc fuel) stop qualifiers (c ∷ text) ≡ read (arg outer type args, end)
unfolding args_loop
argument_round fuel stop qualifiers outer c text rest end type args plain_c none_c found more =
    let going : stop && (c == underscore) ≡ false = ground arith in rw (going, none_c, found, more)

-- A digit is none of the letters that the loop looks for.
digit_apart : (d : ℕ) → is_digit d ≡ true → ((d == underscore) ≡ false) × (qualifier_of d ≡ none)
unfolding qualifier_of
digit_apart d h = (ground arith, ground arith)

argument_type-digit :
    (read_args : List ℕ → Outcome (ArgList × List ℕ)) (qualifiers : List Qualifier) (d : ℕ)
    (text name rest : List ℕ)
    → is_digit d ≡ true
    → demangle_type (d ∷ text) ≡ read (name, rest)
    → argument_type read_args qualifiers d text ≡ read (qualifiers, named name, rest)
unfolding argument_type
argument_type-digit read_args qualifiers d text name rest h found =
    let no_m : (d == 77) ≡ false = ground arith in
    let no_f : (d == 70) ≡ false = ground arith in rw (no_m, no_f, h, found)

letter_falls :
    (read_args : List ℕ → Outcome (ArgList × List ℕ)) (qualifiers : List Qualifier) (c : ℕ)
    (text : List ℕ)
    → 82 < c
    → argument_type read_args qualifiers c text
      ≡ (fundamental c text >>= λ p. read (qualifiers, p.0, p.1))
unfolding argument_type
letter_falls read_args qualifiers c text h =
    let no_m : (c == 77) ≡ false = ground arith in
    let no_f : (c == 70) ≡ false = ground arith in
    let digit : is_digit c ≡ false = ground arith in
    let no_q : (c == 81) ≡ false = ground arith in rw (no_m, no_f, digit, no_q)

fundamental-letter :
    (c : ℕ) (text : List ℕ) → IsLetter c → fundamental c text ≡ read (named (word_of c), text)
unfolding fundamental
fundamental-letter c text h =
    let (above, below) = letter_bounds c h in
    let no_u : (c == 85) ≡ false = ground arith in
    let no_s : (c == 83) ≡ false = ground arith in rw (no_u, no_s, h)

signed_type-letter :
    (sign : List ℕ) (c : ℕ) (text : List ℕ)
    → IsLetter c
    → is_unsignable c ≡ true
    → signed_type sign (c ∷ text) ≡ read (named (sign ++ word_of c), text)
unfolding signed_type
signed_type-letter sign c text h signs = rw (h, signs, signed_type)

pub without_pointer-last : (qs : List Qualifier) → without_pointer (qs ++ (pointer ∷ [])) ≡ read qs
unfolding without_pointer
without_pointer-last [] = refl
without_pointer-last (pointer ∷ []) = refl
without_pointer-last (reference ∷ []) = refl
without_pointer-last (const ∷ []) = refl
without_pointer-last (q ∷ r ∷ qs) = rw (without_pointer-last (r ∷ qs))

-- The round of a named type.
pub plain_round :
    (type : PlainType) (fuel : ℕ) (stop : Bool) (qualifiers : List Qualifier) (rest end : List ℕ)
    (args : ArgList)
    → IsPlainType type
    → args_loop fuel stop [] rest ≡ read (args, end)
    → args_loop (suc fuel) stop qualifiers (plain_spelling type rest)
      ≡ read (arg qualifiers (named (plain_name type)) args, end)
unfolding plain_spelling plain_name qualifier_of fundamental argument_type
plain_round (letter c) fuel stop qualifiers rest end args h more =
    let (above, below) = letter_bounds c h in
    argument_round fuel stop qualifiers qualifiers c rest rest end (named (word_of c)) args
      (ground arith) (ground arith)
      (letter_falls _ qualifiers c rest (omega arith)
        ∙ ap (λ o. o >>= λ p. read (qualifiers, p.0, p.1)) (fundamental-letter c rest h))
      more
plain_round (unsigned_letter c) fuel stop qualifiers rest end args (h, signs) more =
    argument_round fuel stop qualifiers qualifiers 85 (c ∷ rest) rest end _ args refl refl
      (letter_falls (args_loop fuel true []) qualifiers 85 (c ∷ rest) (omega arith)
        ∙ ap (λ o. o >>= λ p. read (qualifiers, p.0, p.1))
            (signed_type-letter (codes "unsigned ") c rest h signs))
      more
plain_round (signed_letter c) fuel stop qualifiers rest end args (h, signs) more =
    argument_round fuel stop qualifiers qualifiers 83 (c ∷ rest) rest end _ args refl refl
      (letter_falls (args_loop fuel true []) qualifiers 83 (c ∷ rest) (omega arith)
        ∙ ap (λ o. o >>= λ p. read (qualifiers, p.0, p.1))
            (signed_type-letter (codes "signed ") c rest h signs))
      more
plain_round (class_named name) fuel stop qualifiers rest end args h more =
    let (d, text, same, digit) = class_spelling_digit name rest in
    let (no_end, no_qualifier) = digit_apart d digit in
    let found : demangle_type (d ∷ text) ≡ read (name, rest) =
      ap demangle_type (sym same) ∙ demangle_type-class_spelling name rest h in
    ap (args_loop (suc fuel) stop qualifiers) same
    ∙ argument_round fuel stop qualifiers qualifiers d text rest end (named name) args no_end
        no_qualifier (argument_type-digit _ qualifiers d text name rest digit found) more
plain_round (class_nested names) fuel stop qualifiers rest end args h more =
    argument_round fuel stop qualifiers qualifiers 81 (nested_spelling names rest) rest end _ args
      refl refl (nested (args_loop fuel true [])) more
  where
    nested :
        (read_args : List ℕ → Outcome (ArgList × List ℕ))
        → argument_type read_args qualifiers 81 (nested_spelling names rest)
          ≡ read (qualifiers, named (scoped names), rest)
    nested read_args = rw (demangle_qualifiers-nested_spelling names rest h, argument_type)
