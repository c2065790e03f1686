-- ===== src/Decode16/Arms.antt =====
-- What the arms of the opcode dispatch of `decode_one` share: `if`/`elif` chains as lists of arms,
-- the ways an arm fills in the instruction, and the forms that many arms have.
pub mod Alu
pub mod Moves
pub mod Flow
pub mod Extended
use linuxrecomp.Base.{
  ℕ, ◌+◌, ◌-◌, String, Bool, true, false, ◌&&◌, ◌||◌, Option, none, some, List, [], ◌∷◌,
  if◌then◌else◌, ltb, leb, ◌==◌, get_or, any_of,
}
use linuxrecomp.Base.Int.{ℤ}
use linuxrecomp.Decode16.{Operand, Instruction}
use linuxrecomp.Decode16.Reader.{M, ◌>>=◌, pure, s8, s16, u8, near_target}
use linuxrecomp.Decode16.Operands.{decode_modrm, imm8, rel8, rel16}

-- An arm: its test, and its body.
abbrev pub Arm : Type 0
Arm = Bool × M Instruction

-- The first arm whose test holds, else the `else` branch.
unfoldable pub choose : List Arm → M Instruction → M Instruction
choose [] otherwise = otherwise
choose ((test, body) ∷ arms) otherwise = if test then body else choose arms otherwise

-- `opcode in (…)`
abbrev pub is_in : ℕ → List ℕ → Bool
is_in x [] = false
is_in x (y ∷ ys) = x == y || is_in x ys

-- `lo <= opcode <= hi`
abbrev pub is_between : ℕ → ℕ → ℕ → Bool
is_between lo x hi = leb lo x && leb x hi

-- names[i], where `i` is in range.
abbrev pub name_at : List String → ℕ → String
name_at names i = get_or names i ""

-- str(n) for a digit.
unfoldable pub digit : ℕ → String
digit n = name_at ("0" ∷ "1" ∷ "2" ∷ "3" ∷ "4" ∷ "5" ∷ "6" ∷ "7" ∷ "8" ∷ "9" ∷ []) n

unfoldable pub alu_names : List String
alu_names = "add" ∷ "or" ∷ "adc" ∷ "sbb" ∷ "and" ∷ "sub" ∷ "xor" ∷ "cmp" ∷ []

unfoldable pub shift_names : List String
shift_names = "rol" ∷ "ror" ∷ "rcl" ∷ "rcr" ∷ "shl" ∷ "shr" ∷ "sal" ∷ "sar" ∷ []

module _ (inst : Instruction) where
  unfoldable pub emit0 : String → M Instruction
  emit0 m = pure (record inst { mnemonic = m })

  unfoldable pub emit1 : String → Operand → M Instruction
  emit1 m a = pure (record inst { mnemonic = m; op1 = some a })

  unfoldable pub emit2 : String → Operand → Operand → M Instruction
  emit2 m a b = pure (record inst { mnemonic = m; op1 = some a; op2 = some b })

  unfoldable pub emit3 : String → Operand → Operand → Operand → M Instruction
  emit3 m a b c = pure (record inst { mnemonic = m; op1 = some a; op2 = some b; op3 = some c })

  -- `op1 = rm; op2 = reg`
  unfoldable pub emit_rm_reg : String → Bool → String → M Instruction
  emit_rm_reg m wide seg = do (reg, rm, n) ← decode_modrm wide seg; emit2 m rm reg

  -- `op1 = reg; op2 = rm`
  unfoldable pub emit_reg_rm : String → Bool → String → M Instruction
  emit_reg_rm m wide seg = do (reg, rm, n) ← decode_modrm wide seg; emit2 m reg rm

  -- `op1 = rm`, and the mnemonic by the register field
  unfoldable pub emit_rm : (ℕ → String) → Bool → String → M Instruction
  emit_rm m wide seg = do (reg, rm, n) ← decode_modrm wide seg; emit1 (m n) rm

  -- a short branch
  unfoldable pub emit_rel8 : String → M Instruction
  emit_rel8 m = do rel ← s8; target ← near_target rel; emit1 m (rel8 target)

  -- a near branch
  unfoldable pub emit_rel16 : String → M Instruction
  emit_rel16 m = do rel ← s16; target ← near_target rel; emit1 m (rel16 target)

  -- a byte register or the like, and an immediate byte
  unfoldable pub emit_imm8 : String → Operand → M Instruction
  emit_imm8 m a = do v ← u8; emit2 m a (imm8 v)
