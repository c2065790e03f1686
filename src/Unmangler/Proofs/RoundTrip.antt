-- ===== src/Unmangler/Proofs/RoundTrip.antt =====
-- `demangle_args` on the argument lists of the grammar.
use linuxrecomp.Base.{
  ℕ, zero, suc, ◌<◌, ◌≡◌, refl, ap, sym, ◌∙◌, Bool, true, false, List, [], ◌∷◌, ◌++◌, length, arith,
}
use linuxrecomp.Unmangler.{
  Outcome, read, Qualifier, pointer, TypeName, named, function, ArgList, no_args, arg,
}
use linuxrecomp.Unmangler.Types.{demangle_type}
use linuxrecomp.Unmangler.Args.{
  qualifier_of, member_class, class_of, expect, demangle_function_pointer, calling_convention,
  argument_type, args_loop, demangle_args,
}
use linuxrecomp.Unmangler.Proofs.Grammar.{
  class_spelling, IsClassName, ReturnType, return_name, IsReturnType, plain_spelling, plain_name,
  PlainType, IsPlainType, Params, nothing, plain, callback, method, qualifier_letter,
  qualifiers_spelling, params_spelling, args_of, IsSpellable, is_args_end,
}
use linuxrecomp.Unmangler.Proofs.Words.{
  demangle_type-class_spelling, class_spelling_digit, class_spelling_longer,
  return_type-return_spelling,
}
use linuxrecomp.Unmangler.Proofs.Lengths.{plain_longer, return_longer, params_longer, after_args}
use linuxrecomp.Unmangler.Proofs.Spelled.{
  args_loop-qualifiers, argument_round, plain_round, without_pointer-last,
}

-- Behind a `_`, the return type, and the end of a function type.
module _ (read_args : List ℕ → Outcome (ArgList × List ℕ)) (inner : Params) (returned : ReturnType)
    (tail : List ℕ)
    (inner_read : read_args (params_spelling inner (after_args returned tail))
      ≡ read (args_of inner, after_args returned tail))
    (h : IsReturnType returned) where
  function_pointer-read :
      demangle_function_pointer read_args
        (70 ∷ params_spelling inner (after_args returned tail))
        false
      ≡ read (
        function (return_name returned) (args_of inner) false [] (calling_convention false),
        tail,
      )
  unfolding demangle_function_pointer class_of expect
  function_pointer-read = rw (inner_read, return_type-return_spelling returned tail h)

  member_class-class_spelling :
      (name text : List ℕ)
      → IsClassName name
      → member_class (class_spelling name text) ≡ read (name, text)
  unfolding member_class
  member_class-class_spelling name text named_h =
      let (d, rest, same, digit) = class_spelling_digit name text in
      rw same
        (rw digit (ap demangle_type (sym same) ∙ demangle_type-class_spelling name text named_h))

  member_pointer-read :
      (name : List ℕ)
      → IsClassName name
      → demangle_function_pointer read_args
          (class_spelling name (70 ∷ params_spelling inner (after_args returned tail)))
          true
        ≡ read (
          function (return_name returned) (args_of inner) true name (calling_convention true),
          tail,
        )
  unfolding demangle_function_pointer class_of expect
  member_pointer-read name named_h = rw (
    member_class-class_spelling name (70 ∷ params_spelling inner (after_args returned tail))
        named_h,
    inner_read,
    return_type-return_spelling returned tail h,
  )

callback_type :
    (read_args : List ℕ → Outcome (ArgList × List ℕ)) (qs : List Qualifier) (text rest : List ℕ)
    (type : TypeName)
    → demangle_function_pointer read_args (70 ∷ text) false ≡ read (type, rest)
    → argument_type read_args (qs ++ (pointer ∷ [])) 70 text ≡ read (qs, type, rest)
unfolding argument_type
callback_type read_args qs text rest type found = rw (without_pointer-last qs, found)

method_type :
    (read_args : List ℕ → Outcome (ArgList × List ℕ)) (qs : List Qualifier) (text rest : List ℕ)
    (type : TypeName)
    → demangle_function_pointer read_args text true ≡ read (type, rest)
    → argument_type read_args qs 77 text ≡ read (qs, type, rest)
unfolding argument_type
method_type read_args qs text rest type found = rw found

args_loop-end :
    (fuel : ℕ) (stop : Bool) (tail : List ℕ)
    → is_args_end stop tail ≡ true
    → length tail < fuel
    → args_loop fuel stop [] tail ≡ read (no_args, tail)
unfolding args_loop is_args_end
args_loop-end zero stop tail h enough = absurd (omega arith)
args_loop-end (suc fuel) stop [] h enough = refl
args_loop-end (suc fuel) stop (c ∷ tail) h enough = rw h

-- The loop reads the text to these arguments and this end, with fuel enough for the text.
abbrev Reads : Bool → List ℕ → ArgList → List ℕ → Type 0
Reads stop text args end = (f : ℕ) → length text < f → args_loop f stop [] text ≡ read (args, end)

plain_step :
    (type : PlainType) (f : ℕ) (stop : Bool) (qs : List Qualifier) (rest end : List ℕ)
    (args : ArgList)
    → IsPlainType type
    → length (plain_spelling type rest) < f
    → Reads stop rest args end
    → args_loop f stop qs (plain_spelling type rest)
      ≡ read (arg qs (named (plain_name type)) args, end)
plain_step type zero stop qs rest end args h enough next = absurd (omega arith)
plain_step type (suc f) stop qs rest end args h enough next =
    plain_round type f stop qs rest end args h (next f (omega (arith, plain_longer type rest)))

module _ (stop : Bool) (inner : Params) (returned : ReturnType) (rest end : List ℕ) (args : ArgList)
    (inner_reads : Reads true
      (params_spelling inner (after_args returned rest))
      (args_of inner)
      (after_args returned rest))
    (h : IsReturnType returned) (next : Reads stop rest args end) where
  -- What is left behind the function type is shorter.
  rest_shorter : length rest < length (params_spelling inner (after_args returned rest))
  rest_shorter =
      omega (arith, params_longer inner (after_args returned rest), return_longer returned rest)

  callback_step :
      (f : ℕ) (qs : List Qualifier)
      → length {A = ℕ} (70 ∷ params_spelling inner (after_args returned rest)) < f
      → args_loop f stop
          (qs ++ (pointer ∷ []))
          (70 ∷ params_spelling inner (after_args returned rest))
        ≡ read (
          arg qs
              (function (return_name returned) (args_of inner) false [] (calling_convention false))
              args,
          end,
        )
  unfolding qualifier_of
  callback_step zero qs enough = absurd (omega arith)
  callback_step (suc f) qs enough =
      argument_round f stop (qs ++ (pointer ∷ [])) qs 70 _ rest end _ args refl refl
        (callback_type (args_loop f true []) qs _ rest _ (
          function_pointer-read (args_loop f true []) inner returned rest
            (inner_reads f (omega arith)) h))
        (next f (omega (arith, rest_shorter)))

  method_step :
      (f : ℕ) (qs : List Qualifier) (name : List ℕ)
      → IsClassName name
      → length {A = ℕ}
          (77 ∷ class_spelling name (70 ∷ params_spelling inner (after_args returned rest)))
        < f
      → args_loop f stop qs
          (77 ∷ class_spelling name (70 ∷ params_spelling inner (after_args returned rest)))
        ≡ read (
          arg qs
              (function (return_name returned) (args_of inner) true name (calling_convention true))
              args,
          end,
        )
  unfolding qualifier_of
  method_step zero qs name hn enough = absurd (omega arith)
  method_step (suc f) qs name hn enough =
      let longer =
        class_spelling_longer name (70 ∷ params_spelling inner (after_args returned rest)) in
      argument_round f stop qs qs 77 _ rest end _ args refl refl
        (method_type (args_loop f true []) qs _ rest _ (
          member_pointer-read (args_loop f true []) inner returned rest
            (inner_reads f (omega (arith, longer))) h name hn))
        (next f (omega (arith, rest_shorter, longer)))

args_loop-params_spelling :
    (ps : Params) (stop : Bool) (tail : List ℕ)
    → IsSpellable ps
    → is_args_end stop tail ≡ true
    → Reads stop (params_spelling ps tail) (args_of ps) tail
unfolding params_spelling args_of qualifiers_spelling qualifier_letter is_args_end
args_loop-params_spelling nothing stop tail h end fuel enough =
    args_loop-end fuel stop tail end enough
args_loop-params_spelling (plain qs type ps) stop tail (ht, hs) end fuel enough =
    args_loop-qualifiers qs fuel stop [] _ _ enough (λ f l.
      plain_step type f stop qs _ tail (args_of ps) ht l
        (args_loop-params_spelling ps stop tail hs end))
args_loop-params_spelling (callback qs inner returned ps) stop tail (hi, hr, hs) end fuel enough =
    let after = after_args returned (params_spelling ps tail) in
    args_loop-qualifiers qs fuel stop [] _ _ enough (λ f l.
      args_loop-qualifiers (pointer ∷ []) f stop qs (70 ∷ params_spelling inner after) _ l (λ g k.
        callback_step stop inner returned (params_spelling ps tail) tail (args_of ps)
          (args_loop-params_spelling inner true after hi refl) hr
          (args_loop-params_spelling ps stop tail hs end) g qs k))
args_loop-params_spelling (method qs name inner returned ps) stop tail (hn, hi, hr, hs) end fuel
      enough =
    let after = after_args returned (params_spelling ps tail) in
    args_loop-qualifiers qs fuel stop [] _ _ enough (λ f l.
      method_step stop inner returned (params_spelling ps tail) tail (args_of ps)
        (args_loop-params_spelling inner true after hi refl) hr
        (args_loop-params_spelling ps stop tail hs end) f qs name hn l)

-- Every argument list of the grammar, with function types inside each other to any depth, is read back
-- from its spelling, and what stands behind it is left: nothing, or, where the reader stops at a `_`, a
-- text with that in front.
pub demangle_args-params_spelling :
    (ps : Params) (stop : Bool) (tail : List ℕ)
    → IsSpellable ps
    → is_args_end stop tail ≡ true
    → demangle_args (params_spelling ps tail) stop ≡ read (args_of ps, tail)
unfolding demangle_args
demangle_args-params_spelling ps stop tail h end =
    args_loop-params_spelling ps stop tail h end (suc (length (params_spelling ps tail)))
      (omega arith)
