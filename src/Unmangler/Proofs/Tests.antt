-- ===== src/Unmangler/Proofs/Tests.antt =====
-- Runs of the reader on mangled names.
use linuxrecomp.Base.{ℕ, ◌≡◌, refl, false, true, List, [], ◌∷◌, String, arith}
use linuxrecomp.Base.Text.{codes}
use linuxrecomp.Unmangler.{
  Outcome, read, refused, not_implemented, Qualifier, pointer, reference, const, ArgList,
}
use linuxrecomp.Unmangler.Args.{demangle_args}
use linuxrecomp.Unmangler.Details.{demangle}
use linuxrecomp.Unmangler.Proofs.Grammar.{
  Params, nothing, plain, callback, method, letter, unsigned_letter, class_named, class_nested,
  returns_letter, returns_pointer, params_spelling, args_of,
}
use linuxrecomp.Unmangler.Proofs.Ends.{Ends, rest_of}
use linuxrecomp.Unmangler.Proofs.Total.{Terminates, demangle_args-Ends}
use linuxrecomp.Unmangler.Proofs.Signature.{demangle-Terminates}
use linuxrecomp.Unmangler.Proofs.RoundTrip.{demangle_args-params_spelling}

unfoldable demangled : String → Outcome (List ℕ)
demangled name = demangle (codes name)

demangle_known :
    (demangled "Draw__7CWindowFPCci" ≡ read (codes "CWindow::Draw(char const *, int)"))
    × (demangled "__dt__Q23gfx7CWindowFv" ≡ read (codes "gfx::CWindow::~CWindow()"))
    × (demangled "Sort__FPvPFPCvPCv_i"
        ≡ read (codes "Sort(void *, int (__cdecl *)(void const *, void const *))"))
    × (demangled "main" ≡ refused not_implemented)
unfolding demangled demangle linuxrecomp.Unmangler.Details.details_of
    linuxrecomp.Unmangler.Details.function_part linuxrecomp.Unmangler.Details.starts_with
    linuxrecomp.Unmangler.Details.contains linuxrecomp.Unmangler.Details.count_separators
    linuxrecomp.Unmangler.Details.split_name linuxrecomp.Unmangler.Details.has_one_separator
    linuxrecomp.Unmangler.Details.split_last linuxrecomp.Unmangler.Details.qualified_class
    linuxrecomp.Unmangler.Details.signature_round linuxrecomp.Unmangler.Details.signature_loop
    linuxrecomp.Unmangler.Details.strip_left linuxrecomp.Unmangler.Details.strip_right
    linuxrecomp.Unmangler.Details.qualifier_text linuxrecomp.Unmangler.Details.reversed_qualifiers
    linuxrecomp.Unmangler.Details.qualifiers_text linuxrecomp.Unmangler.Details.member_part
    linuxrecomp.Unmangler.Details.type_text linuxrecomp.Unmangler.Details.call_text
    linuxrecomp.Unmangler.Details.class_name linuxrecomp.Unmangler.Details.with_scope
    linuxrecomp.Unmangler.Details.get_post_namespace_signature
    linuxrecomp.Unmangler.Details.details_text linuxrecomp.Unmangler.Types.leading_digits
    linuxrecomp.Unmangler.Types.int_from linuxrecomp.Unmangler.Types.sized_text
    linuxrecomp.Unmangler.Types.demangle_type linuxrecomp.Unmangler.Types.demangle_types
    linuxrecomp.Unmangler.Types.join linuxrecomp.Unmangler.Types.scoped
    linuxrecomp.Unmangler.Types.fundamental_type linuxrecomp.Unmangler.Args.qualifier_of
    linuxrecomp.Unmangler.Args.class_of linuxrecomp.Unmangler.Args.expect
    linuxrecomp.Unmangler.Args.return_type linuxrecomp.Unmangler.Args.calling_convention
    linuxrecomp.Unmangler.Args.demangle_function_pointer linuxrecomp.Unmangler.Args.without_pointer
    linuxrecomp.Unmangler.Args.fundamental linuxrecomp.Unmangler.Args.argument_type
    linuxrecomp.Unmangler.Args.args_loop demangle_args
demangle_known = (refl, refl, refl, refl)

-- (gfx::CWindow &, unsigned char, int (CList::*)(void const *), CItem * (*)(double))
abbrev params : Params
params = plain (reference ∷ []) (class_nested (codes "gfx" ∷ codes "CWindow" ∷ [])) (
    plain [] (unsigned_letter 99) (
      method [] (codes "CList") (plain (pointer ∷ const ∷ []) (letter 118) nothing)
        (returns_letter 105)
        (callback [] (plain [] (letter 100) nothing) (returns_pointer (codes "CItem")) nothing)))

demangle_args-params_spelling_example :
    demangle_args (params_spelling params []) false ≡ read (args_of params, [])
unfolding linuxrecomp.Unmangler.Types.fundamental_type linuxrecomp.Unmangler.Types.is_unsignable
    linuxrecomp.Unmangler.Proofs.Grammar.word_of linuxrecomp.Unmangler.Proofs.Grammar.is_class_name
    linuxrecomp.Unmangler.Proofs.Grammar.is_args_end
demangle_args-params_spelling_example =
    demangle_args-params_spelling params false []
      (
        (omega arith, omega arith, (refl, (refl, tt))),
        ((refl, refl), (refl, (refl, tt), refl, ((refl, tt), refl, tt))),
      )
      refl

demangle-Terminates_example : Terminates (demangle (codes "f__FPF"))
demangle-Terminates_example = demangle-Terminates (codes "f__FPF")

demangle_args-Ends_example : Ends rest_of 4 (demangle_args (codes "PF_") true)
demangle_args-Ends_example = demangle_args-Ends (codes "PF_") true
