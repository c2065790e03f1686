-- ===== src/Decode16/Arms/Alu.antt =====
-- `decode_one`, opcodes 0x00 to 0x6B and 0x80 to 0x83: arithmetic, stack and immediate forms.
use linuxrecomp.Base.{
  ℕ, ◌-◌, ◌/◌, ◌%◌, String, true, false, ◌&&◌, List, [], ◌∷◌, if◌then◌else◌, ltb, leb, ◌==◌,
}
use linuxrecomp.Base.Int.{wrap}
use linuxrecomp.Decode16.{Operand, Instruction}
use linuxrecomp.Decode16.Reader.{M, ◌>>=◌, pure, gets, u8, s8}
use linuxrecomp.Decode16.Operands.{decode_modrm, wreg, wimm, imm8, imm8_word, imm32, reg8, sreg}
use linuxrecomp.Decode16.Arms.{
  Arm, choose, is_in, is_between, name_at, alu_names, emit0, emit1, emit2, emit3, emit_rm_reg,
  emit_reg_rm, emit_imm8,
}

module _ (inst : Instruction) (seg : String) where
  -- The six encodings of an ALU operation, by the low three bits.
  unfoldable pub alu_form : String → ℕ → M Instruction
  alu_form m alu_sub =
      choose
        ((alu_sub == 0, emit_rm_reg inst m false seg)
          ∷ (alu_sub == 1, emit_rm_reg inst m true seg)
          ∷ (alu_sub == 2, emit_reg_rm inst m false seg)
          ∷ (alu_sub == 3, emit_reg_rm inst m true seg)
          ∷ (alu_sub == 4, emit_imm8 inst m (reg8 0))
          ∷ [])
        (do a ← wreg 0; v ← wimm; emit2 inst m a v)

  -- An immediate byte sign-extended to the operand size.
  unfoldable pub signed_imm : M Operand
  signed_imm = do
    wide ← gets (λ d. d.op32)
    rel ← s8
    pure (if wide then imm32 (wrap 0x100000000 rel) else imm8_word rel)

  -- 0x80 to 0x83: group 1.
  unfoldable pub group1 : ℕ → M Instruction
  group1 opcode = do
    let wide = is_in opcode (0x81 ∷ 0x83 ∷ [])
    let sign_ext = is_in opcode (0x82 ∷ 0x83 ∷ [])
    (reg, rm, alu_op) ← decode_modrm wide seg
    v ← (if sign_ext && wide then signed_imm else if wide then wimm else (do v ← u8; pure (imm8 v)))
    emit2 inst (name_at alu_names alu_op) rm v

  -- 0x69 and 0x6B: the immediate stands in op2, and the source in op3.
  unfoldable pub imul3 : M Operand → M Instruction
  imul3 imm = do (reg, rm, rn) ← decode_modrm true seg; v ← imm; emit3 inst "imul" reg v rm

  -- One register operand, by the low three bits of the opcode.
  unfoldable pub emit_wreg : String → ℕ → M Instruction
  emit_wreg m r = do a ← wreg r; emit1 inst m a

  -- a mnemonic that depends on the operand size
  unfoldable pub emit_sized : String → String → M Instruction
  emit_sized wide narrow = do op32 ← gets (λ d. d.op32); emit0 inst (if op32 then wide else narrow)

  -- Opcodes 0x00 to 0x5F.
  unfoldable pub alu_arms : ℕ → List Arm
  alu_arms opcode =
      (
        leb opcode 0x3F && leb (opcode % 8) 5 && ltb (opcode / 8) 8,
        alu_form (name_at alu_names (opcode / 8)) (opcode % 8),
      )
      ∷ (is_in opcode (0x06 ∷ 0x0E ∷ 0x16 ∷ 0x1E ∷ []), emit1 inst "push" (sreg (opcode / 8 % 4)))
      ∷ (is_in opcode (0x07 ∷ 0x17 ∷ 0x1F ∷ []), emit1 inst "pop" (sreg (opcode / 8 % 4)))
      ∷ (opcode == 0x27, emit0 inst "daa")
      ∷ (opcode == 0x2F, emit0 inst "das")
      ∷ (opcode == 0x37, emit0 inst "aaa")
      ∷ (opcode == 0x3F, emit0 inst "aas")
      ∷ (is_between 0x40 opcode 0x47, emit_wreg "inc" (opcode - 0x40))
      ∷ (is_between 0x48 opcode 0x4F, emit_wreg "dec" (opcode - 0x48))
      ∷ (is_between 0x50 opcode 0x57, emit_wreg "push" (opcode - 0x50))
      ∷ (is_between 0x58 opcode 0x5F, emit_wreg "pop" (opcode - 0x58))
      ∷ []

  -- Opcodes 0x60 to 0x6B.
  unfoldable pub stack_arms : ℕ → List Arm
  stack_arms opcode =
      (opcode == 0x60, emit_sized "pushad" "pusha")
      ∷ (opcode == 0x61, emit_sized "popad" "popa")
      ∷ (opcode == 0x68, (do v ← wimm; emit1 inst "push" v))
      ∷ (opcode == 0x69, imul3 wimm)
      ∷ (opcode == 0x6A, (do v ← signed_imm; emit1 inst "push" v))
      ∷ (opcode == 0x6B, imul3 (do rel ← s8; pure (imm8_word rel)))
      ∷ []

  -- Opcodes 0x80 to 0x87, after the short jumps.
  unfoldable pub group1_arms : ℕ → List Arm
  group1_arms opcode =
      (is_in opcode (0x80 ∷ 0x81 ∷ 0x82 ∷ 0x83 ∷ []), group1 opcode)
      ∷ (opcode == 0x84, emit_rm_reg inst "test" false seg)
      ∷ (opcode == 0x85, emit_rm_reg inst "test" true seg)
      ∷ (opcode == 0x86, emit_rm_reg inst "xchg" false seg)
      ∷ (opcode == 0x87, emit_rm_reg inst "xchg" true seg)
      ∷ []
