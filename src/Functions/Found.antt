-- ===== src/Functions/Found.antt =====
-- About the exports and the entry point in `recover_functions`.
use linuxrecomp.Base.{
  ℕ, ◌≡◌, ◌≢◌, refl, sym, ◌∙◌, Bool, true, false, ◌⊎◌, ◌||◌, none, some, List, [], ◌∷◌, arith, ◌==◌,
  any_of, any_of-append, Bool-cases, Option-cases, inl, inr,
}
use mathlib.Core.Path.{subst}
use linuxrecomp.Pe64.{PeImage}
use linuxrecomp.Pe64.Address.{code_ranges}
use linuxrecomp.Pe64.Exports.{ExportSymbol, exports}
use linuxrecomp.Functions.{Function, FunctionName, is_covered, is_start, covers}
use linuxrecomp.Functions.Recover.{
  Found, add_export, add_exports, add_entry, symbol_name, with_name, recover_functions, name_map,
  set_default, lookup_name, in_ranges,
}
use linuxrecomp.Functions.Order.{any_of-add}
use linuxrecomp.Functions.Kept.{
  IgnoresName, add_exports-keeps, names_of, with_bounds, with_exports, recover_functions-named,
  with_exports-kept,
}

-- A function that starts at an address or covers it.
unfoldable pub accounts_for : ℕ → Function → Bool
accounts_for rva f = f.start_rva == rva || covers f rva

-- An export of code at this address.
unfoldable pub exports_at : ℕ → ExportSymbol → Bool
exports_at rva s = elim s.forwarder [ none ↦ s.rva == rva | some text ↦ false ]

abbrev key_is : ℕ → ℕ × FunctionName → Bool
key_is rva n = n.0 == rva

any_of-accounts_for :
    (rva : ℕ) (fs : List Function)
    → any_of (accounts_for rva) fs ≡ (is_start fs rva || is_covered fs rva)
unfolding accounts_for is_start is_covered any_of
any_of-accounts_for rva [] = refl
any_of-accounts_for rva (f ∷ fs) = ground (arith, any_of-accounts_for rva fs)

add_export-accounts_for :
    (code : List (ℕ × ℕ)) (rva : ℕ) (n : FunctionName) (found : Found)
    → in_ranges code rva ≡ true
    → any_of (accounts_for rva) (add_export code (rva, n) found).0 ≡ true
unfolding add_export accounts_for
add_export-accounts_for code rva n (fs, notes) h =
    grind (arith, any_of-add, any_of-accounts_for rva fs)

add_exports-accounts_for :
    (code : List (ℕ × ℕ)) (rva : ℕ) (ns : List (ℕ × FunctionName)) (found : Found)
    → in_ranges code rva ≡ true
    → any_of (key_is rva) ns ≡ true
    → any_of (accounts_for rva) (add_exports code ns found).0 ≡ true
unfolding add_exports any_of
add_exports-accounts_for code rva [] found h e = cc
add_exports-accounts_for code rva ((k, n) ∷ ns) found h e = elim (Bool-cases (k == rva)) [
  | inl here ↦
      add_exports-keeps (accounts_for rva) code ns (add_export code (k, n) found)
        (at_key k (ground arith))
  | inr other ↦ add_exports-accounts_for code rva ns (add_export code (k, n) found) h (ground arith)
]
  where
    at_key : (j : ℕ) → j ≡ rva → any_of (accounts_for rva) (add_export code (j, n) found).0 ≡ true
    at_key j same = rw same (add_export-accounts_for code rva n found h)

lookup_name-key_is :
    (rva : ℕ) (n : FunctionName) (names : List (ℕ × FunctionName))
    → lookup_name names rva ≡ some n
    → any_of (key_is rva) names ≡ true
unfolding lookup_name any_of
lookup_name-key_is rva n [] h = cc
lookup_name-key_is rva n ((k, m) ∷ names) h = ground (arith, lookup_name-key_is rva n names)

set_default-key_is :
    (rva k : ℕ) (n : FunctionName) (names : List (ℕ × FunctionName))
    → (any_of (key_is rva) names || k == rva) ≡ true
    → any_of (key_is rva) (set_default k n names) ≡ true
unfolding set_default any_of
set_default-key_is rva k n names h = elim (Option-cases (lookup_name names k)) [
  | inl e ↦ rw (e, set_default) (ground (arith, any_of-append (key_is rva) names ((k, n) ∷ [])))
  | inr (old, e) ↦ rw (e, set_default) (is_there old e (Bool-cases (k == rva)))
]
  where
    is_there :
        (old : FunctionName)
        → lookup_name names k ≡ some old
        → ((k == rva) ≡ true) ⊎ ((k == rva) ≡ false)
        → any_of (key_is rva) names ≡ true
    is_there old e (inl same) =
        subst (λ j. any_of (key_is j) names ≡ true) (ground arith)
          (lookup_name-key_is k old names e)
    is_there old e (inr other) = ground arith

name_map-key_is :
    (rva : ℕ) (ss : List ExportSymbol) (names : List (ℕ × FunctionName))
    → (any_of (key_is rva) names || any_of (exports_at rva) ss) ≡ true
    → any_of (key_is rva) (name_map ss names) ≡ true
unfolding name_map any_of exports_at
name_map-key_is rva [] names h = ground arith
name_map-key_is rva (s ∷ ss) names h = elim (Option-cases s.forwarder) [
  | inl e ↦
      rw (e, name_map)
        (name_map-key_is rva ss (set_default s.rva (symbol_name s) names)
          (ground (arith, set_default-key_is rva s.rva (symbol_name s) names)))
  | inr (text, e) ↦ rw (e, name_map) (name_map-key_is rva ss names (ground arith))
]

accounts_for-IgnoresName : (rva : ℕ) → IgnoresName (accounts_for rva)
unfolding accounts_for covers with_name
accounts_for-IgnoresName rva names f = refl

-- Every export that is no forwarder and lies in an executable section is the start of a function or
-- covered by one.
pub recover_functions-exports :
    (img : PeImage) (bounds : List (ℕ × ℕ)) (rva : ℕ)
    → in_ranges (code_ranges img) rva ≡ true
    → any_of (exports_at rva) (exports img) ≡ true
    → (is_start (recover_functions img bounds).0 rva
        || is_covered (recover_functions img bounds).0 rva)
      ≡ true
unfolding any_of
recover_functions-exports img bounds rva code exported =
    sym (any_of-accounts_for rva (recover_functions img bounds).0)
    ∙ with_exports-kept (accounts_for rva) (accounts_for-IgnoresName rva) img bounds (
        add_exports-accounts_for (code_ranges img) rva (names_of img) (with_bounds img bounds) code
          (name_map-key_is rva (exports img) [] exported))

add_entry-accounts_for :
    (rva : ℕ) (names : List (ℕ × FunctionName)) (found : Found)
    → rva ≢ 0
    → any_of (accounts_for rva) (add_entry rva names found).0 ≡ true
unfolding add_entry accounts_for
add_entry-accounts_for rva names (fs, notes) h =
    grind (arith, any_of-add, any_of-accounts_for rva fs)

-- An entry point that is not zero is the start of a function or covered by one.
pub recover_functions-entrypoint :
    (img : PeImage) (bounds : List (ℕ × ℕ))
    → img.entrypoint_rva ≢ 0
    → (is_start (recover_functions img bounds).0 img.entrypoint_rva
        || is_covered (recover_functions img bounds).0 img.entrypoint_rva)
      ≡ true
recover_functions-entrypoint img bounds h =
    sym (any_of-accounts_for img.entrypoint_rva (recover_functions img bounds).0)
    ∙ recover_functions-named (accounts_for img.entrypoint_rva)
        (accounts_for-IgnoresName img.entrypoint_rva) img bounds
        (add_entry-accounts_for img.entrypoint_rva (names_of img) (with_exports img bounds) h)
