-- ===== src/Unmangler.antt =====
-- tools/cpp/mac_unmangler.py: the reader of CodeWarrior's mangled C++ names. Here: what it returns and
-- raises. A text is a list of ASCII codes.
pub mod Types
pub mod Args
pub mod Details
pub mod Proofs
use linuxrecomp.Base.{ℕ, Bool, List, [], ◌∷◌, Option, none, some}

-- Python's exceptions in the reader.
pub data Refusal : Type 0 where
  assertion_error value_error index_error key_error attribute_error not_implemented : Refusal

-- `out_of_fuel` is not the reader's: its loops have no bound.
pub data Outcome {ℓ} (A : Type ℓ) : Type ℓ where
  refused : Refusal → Outcome A
  read : A → Outcome A
  out_of_fuel : Outcome A

infixl 5 ◌>>=◌
abbrev pub ◌>>=◌ {ℓ κ} : {A : Type ℓ} {B : Type κ} → Outcome A → (A → Outcome B) → Outcome B
refused why >>= next = refused why
read a >>= next = next a
out_of_fuel >>= next = out_of_fuel

-- `Arg.Qualifier`
pub data Qualifier : Type 0 where
  pointer reference const : Qualifier

-- `Arg` and `FunctionType`: a list of arguments, and the type of one, which is a name or a function type
-- (its return type, its arguments, whether it is a member and of which class, its calling convention).
mutual
  pub data TypeName : Type 0 where
    named : List ℕ → TypeName
    function : List ℕ → ArgList → Bool → List ℕ → List ℕ → TypeName

  pub data ArgList : Type 0 where
    no_args : ArgList
    arg : List Qualifier → TypeName → ArgList → ArgList
