-- ===== src/Unmangler/Proofs/Total.antt =====
-- How `demangle_args` ends.
use linuxrecomp.Base.{
  ℕ, zero, suc, ◌<◌, Bool, true, false, ◌&&◌, Option, none, some, List, [], ◌∷◌, ◌++◌,
  if◌then◌else◌, ◌==◌, length, arith,
}
use linuxrecomp.Base.Text.{is_digit, underscore}
use linuxrecomp.Unmangler.{
  Outcome, refused, read, out_of_fuel, ◌>>=◌, Qualifier, pointer, reference, const, TypeName,
  ArgList, assertion_error, key_error, named, arg,
}
use linuxrecomp.Unmangler.Types.{fundamental_type, is_unsignable}
use linuxrecomp.Unmangler.Args.{
  qualifier_of, without_pointer, signed_type, fundamental, argument_type, args_loop, demangle_args,
}
use linuxrecomp.Unmangler.Proofs.Ends.{
  Ends, >>=-Ends, if-Ends, map-Ends, weaken-Ends, rest_of, demangle_type-Ends,
  demangle_qualifiers-Ends, EndsBelow, demangle_function_pointer-Ends,
}

-- The outcome is not for want of fuel.
abbrev pub Terminates {ℓ} : {A : Type ℓ} → Outcome A → Type 0
Terminates (refused why) = Unit
Terminates (read a) = Unit
Terminates out_of_fuel = ⊥

pub >>=-Terminates {ℓ κ} :
    {A : Type ℓ} {B : Type κ} (x : Outcome A) (next : A → Outcome B)
    → Terminates x
    → ((a : A) → Terminates (next a))
    → Terminates (x >>= next)
>>=-Terminates (refused why) next h rest = tt
>>=-Terminates (read a) next h rest = rest a
>>=-Terminates out_of_fuel next h rest = h

without_pointer-Terminates : (qualifiers : List Qualifier) → Terminates (without_pointer qualifiers)
unfolding without_pointer
without_pointer-Terminates [] = tt
without_pointer-Terminates (pointer ∷ []) = tt
without_pointer-Terminates (reference ∷ []) = tt
without_pointer-Terminates (const ∷ []) = tt
without_pointer-Terminates (q ∷ r ∷ qualifiers) =
    >>=-Terminates (without_pointer (r ∷ qualifiers)) _
      (without_pointer-Terminates (r ∷ qualifiers)) (λ rest. tt)

-- A computation that takes no characters, in front of one that does.
pub behind-Ends {ℓ κ} :
    {A : Type ℓ} {B : Type κ} (left : B → List ℕ) (n : ℕ) (x : Outcome A) (next : A → Outcome B)
    → Terminates x
    → ((a : A) → Ends left n (next a))
    → Ends left n (x >>= next)
behind-Ends left n (refused why) next h rest = tt
behind-Ends left n (read a) next h rest = rest a
behind-Ends left n out_of_fuel next h rest = h

signed_type-Ends :
    (sign mangled : List ℕ) → Ends rest_of (suc (length mangled)) (signed_type sign mangled)
unfolding signed_type
signed_type-Ends sign [] = tt
signed_type-Ends sign (c ∷ mangled) = letter (fundamental_type c)
  where
    letter :
        (o : Option (List ℕ))
        → Ends rest_of (suc (suc (length mangled))) (elim o [
          | none ↦ refused key_error
          | some name ↦
              if is_unsignable c
              then read (named (sign ++ name), mangled)
              else refused assertion_error
        ])
    letter none = tt
    letter (some name) = if-Ends rest_of _ (is_unsignable c) _ _ (omega arith) tt

fundamental-Ends :
    (c : ℕ) (mangled : List ℕ) → Ends rest_of (suc (length mangled)) (fundamental c mangled)
unfolding fundamental
fundamental-Ends c mangled =
    if-Ends rest_of _ (c == 85) _ _ (signed_type-Ends _ mangled)
      (if-Ends rest_of _ (c == 83) _ _ (signed_type-Ends _ mangled) (letter (fundamental_type c)))
  where
    letter :
        (o : Option (List ℕ))
        → Ends rest_of
            (suc (length mangled))
            (elim o [ none ↦ refused assertion_error | some name ↦ read (named name, mangled) ])
    letter none = tt
    letter (some name) = omega arith

-- What is left behind an argument.
abbrev pub behind_type : List Qualifier × TypeName × List ℕ → List ℕ
behind_type (qualifiers, type, rest) = rest

-- An argument's type, with the qualifiers that it keeps.
keep-Ends :
    {A : Type 0} (f : A → TypeName) (qualifiers : List Qualifier) (n : ℕ) (x : Outcome (A × List ℕ))
    → Ends rest_of n x
    → Ends behind_type n (x >>= λ p. read (qualifiers, f p.0, p.1))
keep-Ends f qualifiers n (refused why) h = tt
keep-Ends f qualifiers n (read (a, rest)) h = h
keep-Ends f qualifiers n out_of_fuel h = h

argument_type-Ends :
    (read_args : List ℕ → Outcome (ArgList × List ℕ)) (qualifiers : List Qualifier) (c : ℕ)
    (mangled : List ℕ)
    → EndsBelow (suc (length mangled)) read_args
    → Ends behind_type (suc (length mangled)) (argument_type read_args qualifiers c mangled)
unfolding argument_type
argument_type-Ends read_args qualifiers c mangled h =
    if-Ends behind_type _ (c == 77) _ _
      (keep-Ends (λ t. t) qualifiers _ _
        (weaken-Ends rest_of _ _ _
          (demangle_function_pointer-Ends read_args mangled true (λ text l. h text (omega arith)))
          (omega arith)))
      (if-Ends behind_type _ (c == 70) _ _
        (behind-Ends behind_type _ (without_pointer qualifiers) _
          (without_pointer-Terminates qualifiers)
          (λ outer.
            keep-Ends (λ t. t) outer _ _
              (demangle_function_pointer-Ends read_args (c ∷ mangled) false h)))
        (if-Ends behind_type _ (is_digit c) _ _
          (keep-Ends named qualifiers _ _ (demangle_type-Ends (c ∷ mangled)))
          (if-Ends behind_type _ (c == 81) _ _
            (keep-Ends _ qualifiers _ _
              (weaken-Ends rest_of _ _ _ (demangle_qualifiers-Ends mangled) (omega arith)))
            (keep-Ends (λ t. t) qualifiers _ _ (fundamental-Ends c mangled)))))

option-Ends :
    (n : ℕ) (o : Option Qualifier) (go_on : Qualifier → Outcome (ArgList × List ℕ))
    (next : Outcome (ArgList × List ℕ))
    → ((q : Qualifier) → Ends rest_of n (go_on q))
    → Ends rest_of n next
    → Ends rest_of n (elim o [ some q ↦ go_on q | none ↦ next ])
option-Ends n none go_on next hq hn = hn
option-Ends n (some q) go_on next hq hn = hq q

pub args_loop-Ends :
    (fuel : ℕ) (stop : Bool) (qualifiers : List Qualifier) (mangled : List ℕ)
    → length mangled < fuel
    → Ends rest_of (suc (length mangled)) (args_loop fuel stop qualifiers mangled)
unfolding args_loop
args_loop-Ends zero stop qualifiers mangled h = absurd (omega arith)
args_loop-Ends (suc fuel) stop qualifiers [] h = omega arith
args_loop-Ends (suc fuel) stop qualifiers (c ∷ mangled) h =
    if-Ends rest_of _ (stop && (c == underscore)) _ _ (omega arith) (
      option-Ends _ (qualifier_of c) _ _
        (λ q.
          weaken-Ends rest_of _ _ _
            (args_loop-Ends fuel stop (qualifiers ++ (q ∷ [])) mangled (omega arith)) (omega arith))
        (>>=-Ends behind_type rest_of _ _
          (argument_type (args_loop fuel true []) qualifiers c mangled) _
          (argument_type-Ends (args_loop fuel true []) qualifiers c mangled
            (λ text l. args_loop-Ends fuel true [] text (omega arith)))
          (λ (qs, type, rest) l.
            map-Ends (arg qs type) (suc (length rest)) (suc (suc (length mangled)))
              (args_loop fuel stop [] rest) (args_loop-Ends fuel stop [] rest (omega arith))
              (omega arith))))

-- `demangle_args` ends on every text, and its rest is no longer than the text.
pub demangle_args-Ends :
    (mangled : List ℕ) (stop : Bool)
    → Ends rest_of (suc (length mangled)) (demangle_args mangled stop)
unfolding demangle_args
demangle_args-Ends mangled stop =
    args_loop-Ends (suc (length mangled)) stop [] mangled (omega arith)
