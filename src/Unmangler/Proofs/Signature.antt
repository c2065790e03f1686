-- ===== src/Unmangler/Proofs/Signature.antt =====
-- How `demangle` ends.
use linuxrecomp.Base.{
  ℕ, zero, suc, ◌-◌, ◌≤◌, ◌<◌, Bool, true, false, not, ◌&&◌, List, [], ◌∷◌, if◌then◌else◌, ◌==◌,
  length, drop, arith, Option-cases, inl, inr,
}
use linuxrecomp.Base.Text.{codes, is_digit, underscore, same_text}
use linuxrecomp.Unmangler.{Outcome, refused, read, out_of_fuel, ◌>>=◌}
use linuxrecomp.Unmangler.Types.{demangle_types}
use linuxrecomp.Unmangler.Args.{demangle_args}
use linuxrecomp.Unmangler.Details.{
  UnmangledDetails, starts_with, separator, has_one_separator, function_part, split_last,
  qualified_class, signature_round, signature_loop, details_of, class_name,
  get_post_namespace_signature, with_scope, details_text, demangle,
}
use linuxrecomp.Unmangler.Proofs.Ends.{
  Ends, >>=-Ends, if-Ends, map-Ends, rest_of, demangle_types-Ends, type-Ends,
}
use linuxrecomp.Unmangler.Proofs.Total.{Terminates, >>=-Terminates, behind-Ends, demangle_args-Ends}

split_last-Terminates : (names : List (List ℕ)) → Terminates (split_last names)
unfolding split_last
split_last-Terminates [] = tt
split_last-Terminates (name ∷ []) = tt
split_last-Terminates (name ∷ other ∷ names) =
    >>=-Terminates (split_last (other ∷ names)) _ (split_last-Terminates (other ∷ names)) (λ p. tt)

qualified_class-Ends :
    (mangled : List ℕ) (d : UnmangledDetails)
    → Ends rest_of (suc (length mangled)) (qualified_class mangled d)
unfolding qualified_class
qualified_class-Ends [] d = tt
qualified_class-Ends (c ∷ mangled) d = if-Ends rest_of _ (c == underscore) _ _ tt (
    if-Ends rest_of _ (not (is_digit c)) _ _ tt (
      >>=-Ends rest_of rest_of _ _ (demangle_types (c - 48) mangled) _
        (demangle_types-Ends (c - 48) mangled)
        (λ (names, rest) h.
          behind-Ends rest_of _ (split_last names) _ (split_last-Terminates names)
            (λ parts. omega arith))))

signature_round-Ends :
    (c : ℕ) (mangled : List ℕ) (d : UnmangledDetails)
    → Ends rest_of (suc (length mangled)) (signature_round c mangled d)
unfolding signature_round
signature_round-Ends c mangled d =
    if-Ends rest_of _ (c == 81) _ _ (qualified_class-Ends mangled d) (
      if-Ends rest_of _ (c == 67) _ _ (omega arith) (
        if-Ends rest_of _ (is_digit c) _ _ (type-Ends _ (c ∷ mangled)) (
          if-Ends rest_of _ (c == 70) _ _
            (map-Ends _ _ _ (demangle_args mangled false) (demangle_args-Ends mangled false)
              (omega arith))
            tt)))

signature_loop-Terminates :
    (fuel : ℕ) (mangled : List ℕ) (d : UnmangledDetails)
    → length mangled ≤ fuel
    → Terminates (signature_loop fuel mangled d)
unfolding signature_loop
signature_loop-Terminates zero [] d h = tt
signature_loop-Terminates (suc fuel) [] d h = tt
signature_loop-Terminates zero (c ∷ mangled) d h = absurd (omega arith)
signature_loop-Terminates (suc fuel) (c ∷ mangled) d h =
    round_Terminates (signature_round c mangled d) (signature_round-Ends c mangled d)
      (λ next rest l. signature_loop-Terminates fuel rest next (omega arith))
  where
    round_Terminates :
        (x : Outcome (UnmangledDetails × List ℕ))
        → Ends rest_of (suc (length mangled)) x
        → ((next : UnmangledDetails) (rest : List ℕ)
            → length rest < suc (length mangled)
            → Terminates (signature_loop fuel rest next))
        → Terminates (x >>= λ p. signature_loop fuel p.1 p.0)
    round_Terminates (refused why) e go = tt
    round_Terminates (read (next, rest)) e go = go next rest e
    round_Terminates out_of_fuel e go = e

if-Terminates {ℓ} :
    {A : Type ℓ} (b : Bool) (x y : Outcome A)
    → Terminates x
    → Terminates y
    → Terminates (if b then x else y)
if-Terminates true x y hx hy = hx
if-Terminates false x y hx hy = hy

function_part-Terminates : (mangled : List ℕ) → Terminates (function_part mangled)
unfolding function_part
function_part-Terminates mangled =
    if-Terminates (starts_with separator mangled && has_one_separator (drop 2 mangled)) (read _) _
      tt (if-Terminates (has_one_separator mangled) (read _) (refused _) tt tt)

details_of-Terminates : (mangled : List ℕ) → Terminates (details_of mangled)
unfolding details_of
details_of-Terminates mangled =
    >>=-Terminates _ _ (function_part-Terminates _)
      (λ p. signature_loop-Terminates (length p.1) p.1 _ (omega arith))

class_name-Terminates : (d : UnmangledDetails) → Terminates (class_name d)
unfolding class_name
class_name-Terminates d = elim (Option-cases d.type_name) [
  | inl missing ↦ rw (missing, class_name) tt
  | inr (name, known) ↦ rw (known, class_name) tt
]

with_scope-Terminates :
    (d : UnmangledDetails) (signature : List ℕ) → Terminates (with_scope d signature)
unfolding with_scope
with_scope-Terminates d signature = elim (Option-cases d.namespace) [
  | inl plain ↦ elim (Option-cases d.type_name) [
    | inl missing ↦ rw (plain, missing, with_scope) tt
    | inr (name, known) ↦ rw (plain, known, with_scope) tt
  ]
  | inr (space, nested) ↦
      rw (nested, with_scope)
        (>>=-Terminates (class_name d) _ (class_name-Terminates d) (λ name. tt))
]

details_text-Terminates : (d : UnmangledDetails) → Terminates (details_text d)
unfolding details_text get_post_namespace_signature
details_text-Terminates d =
    >>=-Terminates (get_post_namespace_signature d) _
      (if-Terminates (same_text d.function_name (codes "__ct")) _ _
        (>>=-Terminates (class_name d) _ (class_name-Terminates d) (λ name. tt))
        (if-Terminates (same_text d.function_name (codes "__dt")) _ _
          (>>=-Terminates (class_name d) _ (class_name-Terminates d) (λ name. tt)) tt))
      (with_scope-Terminates d)

-- `demangle` ends on every text: it returns one, or raises.
pub demangle-Terminates : (mangled : List ℕ) → Terminates (demangle mangled)
unfolding demangle
demangle-Terminates mangled =
    >>=-Terminates (details_of mangled) _ (details_of-Terminates mangled) details_text-Terminates
