-- ===== src/Decode16/Proofs/Forward/Arms.antt =====
-- About the arms of the dispatch: how far they move the position.
use linuxrecomp.Base.{ℕ, String, Bool}
use linuxrecomp.Decode16.{Operand, Instruction}
use linuxrecomp.Decode16.Reader.{M}
use linuxrecomp.Decode16.Arms.{
  choose, emit0, emit1, emit2, emit3, emit_rm_reg, emit_reg_rm, emit_rm, emit_rel8, emit_rel16,
  emit_imm8,
}
use linuxrecomp.Decode16.Arms.Alu.{
  alu_form, signed_imm, group1, imul3, emit_wreg, emit_sized, alu_arms, stack_arms, group1_arms,
}
use linuxrecomp.Decode16.Arms.Moves.{imm_byte}
use linuxrecomp.Decode16.Proofs.Forward.{Forward, AllForward}
use linuxrecomp.Decode16.Proofs.Forward.Operands.{forward_operands, Forward-wimm}

module _ (inst : Instruction) where
  pub Forward-emit0 : (m : String) → Forward 0 (emit0 inst m)
  unfolding emit0
  Forward-emit0 m = search forward_operands

  pub Forward-emit1 : (m : String) (a : Operand) → Forward 0 (emit1 inst m a)
  unfolding emit1
  Forward-emit1 m a = search forward_operands

  pub Forward-emit2 : (m : String) (a b : Operand) → Forward 0 (emit2 inst m a b)
  unfolding emit2
  Forward-emit2 m a b = search forward_operands

  pub Forward-emit3 : (m : String) (a b c : Operand) → Forward 0 (emit3 inst m a b c)
  unfolding emit3
  Forward-emit3 m a b c = search forward_operands

pub ruleset forward_emits =
    (forward_operands, Forward-emit0, Forward-emit1, Forward-emit2, Forward-emit3)

module _ (inst : Instruction) (m : String) where
  pub Forward-emit_rm_reg : (wide : Bool) (seg : String) → Forward 0 (emit_rm_reg inst m wide seg)
  unfolding emit_rm_reg
  Forward-emit_rm_reg wide seg = search forward_emits

  pub Forward-emit_reg_rm : (wide : Bool) (seg : String) → Forward 0 (emit_reg_rm inst m wide seg)
  unfolding emit_reg_rm
  Forward-emit_reg_rm wide seg = search forward_emits

  pub Forward-emit_rel8 : Forward 0 (emit_rel8 inst m)
  unfolding emit_rel8
  Forward-emit_rel8 = search forward_emits

  pub Forward-emit_rel16 : Forward 0 (emit_rel16 inst m)
  unfolding emit_rel16
  Forward-emit_rel16 = search forward_emits

  pub Forward-emit_imm8 : (a : Operand) → Forward 0 (emit_imm8 inst m a)
  unfolding emit_imm8
  Forward-emit_imm8 a = search forward_emits

pub Forward-emit_rm :
    (inst : Instruction) (m : ℕ → String) (wide : Bool) (seg : String)
    → Forward 0 (emit_rm inst m wide seg)
unfolding emit_rm
Forward-emit_rm inst m wide seg = search forward_emits

pub ruleset forward_forms = (
  forward_emits, Forward-emit_rm_reg, Forward-emit_reg_rm, Forward-emit_rm, Forward-emit_rel8,
  Forward-emit_rel16, Forward-emit_imm8,
)

module _ (inst : Instruction) (seg : String) where
  pub alu_form-Forward : (m : String) (k : ℕ) → Forward 0 (alu_form inst seg m k)
  unfolding alu_form choose
  alu_form-Forward m k = search forward_forms depth 20

  pub signed_imm-Forward : Forward 0 (signed_imm inst seg)
  unfolding signed_imm
  signed_imm-Forward = search forward_forms

  pub imm_byte-Forward : Forward 0 (imm_byte inst seg)
  unfolding imm_byte
  imm_byte-Forward = search forward_forms

  pub group1-Forward : (opcode : ℕ) → Forward 0 (group1 inst seg opcode)
  unfolding group1
  group1-Forward opcode = search (forward_forms, signed_imm-Forward) depth 20

  pub imul3-Forward : (imm : M Operand) → Forward 0 imm → Forward 0 (imul3 inst seg imm)
  unfolding imul3
  imul3-Forward imm h = search forward_forms depth 10

  pub emit_wreg-Forward : (m : String) (r : ℕ) → Forward 0 (emit_wreg inst seg m r)
  unfolding emit_wreg
  emit_wreg-Forward m r = search forward_forms

  pub emit_sized-Forward : (a b : String) → Forward 0 (emit_sized inst seg a b)
  unfolding emit_sized
  emit_sized-Forward a b = search forward_forms

pub ruleset forward_alu = (
  forward_forms, alu_form-Forward, signed_imm-Forward, imm_byte-Forward, group1-Forward,
  imul3-Forward, emit_wreg-Forward, emit_sized-Forward,
)

module _ (inst : Instruction) (seg : String) (opcode : ℕ) where
  pub alu_arms-Forward : AllForward 0 (alu_arms inst seg opcode)
  unfolding alu_arms
  alu_arms-Forward = search forward_alu

  pub stack_arms-Forward : AllForward 0 (stack_arms inst seg opcode)
  unfolding stack_arms
  stack_arms-Forward = search forward_alu

  pub group1_arms-Forward : AllForward 0 (group1_arms inst seg opcode)
  unfolding group1_arms
  group1_arms-Forward = search forward_alu
