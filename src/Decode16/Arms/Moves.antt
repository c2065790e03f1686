-- ===== src/Decode16/Arms/Moves.antt =====
-- `decode_one`, opcodes 0x88 to 0xC9: moves, exchanges, string operations and shifts by a byte.
use linuxrecomp.Base.{ℕ, ◌-◌, ◌%◌, String, Bool, true, false, List, [], ◌∷◌, if◌then◌else◌, ◌==◌}
use linuxrecomp.Decode16.{Operand, Instruction}
use linuxrecomp.Decode16.Reader.{M, ◌>>=◌, pure, u8, u16}
use linuxrecomp.Decode16.Operands.{
  decode_modrm, wreg, wimm, wbytes, imm8, imm16, reg8, sreg, far, moffs,
}
use linuxrecomp.Decode16.Arms.{
  Arm, is_in, is_between, name_at, shift_names, emit0, emit1, emit2, emit_rm_reg, emit_reg_rm,
  emit_rm, emit_imm8,
}
use linuxrecomp.Decode16.Arms.Alu.{emit_sized}

module _ (inst : Instruction) (seg : String) where
  -- 0x8C and 0x8E: the segment register is the register field, two bits of it.
  unfoldable pub mov_sreg : Bool → M Instruction
  mov_sreg load = do
    (reg, rm, rn) ← decode_modrm true seg
    if load then emit2 inst "mov" (sreg (rn % 4)) rm else emit2 inst "mov" rm (sreg (rn % 4))

  -- An r/m operand, and then an immediate.
  unfoldable pub rm_imm : (ℕ → String) → Bool → M Operand → M Instruction
  rm_imm m wide imm = do (reg, rm, n) ← decode_modrm wide seg; v ← imm; emit2 inst (m n) rm v

  unfoldable pub imm_byte : M Operand
  imm_byte = do v ← u8; pure (imm8 v)

  unfoldable pub moffs_byte : M Operand
  moffs_byte = do off ← u16; pure (moffs off seg 1)

  unfoldable pub moffs_wide : M Operand
  moffs_wide = do off ← u16; n ← wbytes; pure (moffs off seg n)

  -- call far, jmp far: the offset and then the segment.
  unfoldable pub far_target : String → M Instruction
  far_target m = do off ← u16; s ← u16; emit1 inst m (far off s)

  unfoldable pub wreg_wimm : String → ℕ → M Instruction
  wreg_wimm m r = do a ← wreg r; v ← wimm; emit2 inst m a v

  unfoldable pub enter : M Instruction
  enter = do size ← u16; level ← u8; emit2 inst "enter" (imm16 size) (imm8 level)

  unfoldable pub emit_imm16 : String → M Instruction
  emit_imm16 m = do v ← u16; emit1 inst m (imm16 v)

  -- Opcodes 0x88 to 0xA3.
  unfoldable pub mov_arms : ℕ → List Arm
  mov_arms opcode =
      (opcode == 0x88, emit_rm_reg inst "mov" false seg)
      ∷ (opcode == 0x89, emit_rm_reg inst "mov" true seg)
      ∷ (opcode == 0x8A, emit_reg_rm inst "mov" false seg)
      ∷ (opcode == 0x8B, emit_reg_rm inst "mov" true seg)
      ∷ (opcode == 0x8C, mov_sreg false)
      ∷ (opcode == 0x8D, emit_reg_rm inst "lea" true seg)
      ∷ (opcode == 0x8E, mov_sreg true)
      ∷ (opcode == 0x8F, emit_rm inst (λ n. "pop") true seg)
      ∷ (opcode == 0x90, emit0 inst "nop")
      ∷ (
        is_between 0x91 opcode 0x97,
        (do a ← wreg 0; b ← wreg (opcode - 0x90); emit2 inst "xchg" a b),
      )
      ∷ (opcode == 0x98, emit_sized inst seg "cwde" "cbw")
      ∷ (opcode == 0x99, emit_sized inst seg "cdq" "cwd")
      ∷ (opcode == 0x9A, far_target "call")
      ∷ (opcode == 0x9C, emit_sized inst seg "pushfd" "pushf")
      ∷ (opcode == 0x9D, emit_sized inst seg "popfd" "popf")
      ∷ (opcode == 0x9E, emit0 inst "sahf")
      ∷ (opcode == 0x9F, emit0 inst "lahf")
      ∷ (opcode == 0xA0, (do b ← moffs_byte; emit2 inst "mov" (reg8 0) b))
      ∷ (opcode == 0xA1, (do a ← wreg 0; b ← moffs_wide; emit2 inst "mov" a b))
      ∷ (opcode == 0xA2, (do a ← moffs_byte; emit2 inst "mov" a (reg8 0)))
      ∷ (opcode == 0xA3, (do a ← moffs_wide; b ← wreg 0; emit2 inst "mov" a b))
      ∷ []

  -- Port and string operations, and TEST with an immediate.
  unfoldable pub string_arms : ℕ → List Arm
  string_arms opcode =
      (opcode == 0x6C, emit0 inst "insb")
      ∷ (opcode == 0x6D, emit_sized inst seg "insd" "insw")
      ∷ (opcode == 0x6E, emit0 inst "outsb")
      ∷ (opcode == 0x6F, emit_sized inst seg "outsd" "outsw")
      ∷ (opcode == 0xA4, emit0 inst "movsb")
      ∷ (opcode == 0xA5, emit_sized inst seg "movsd" "movsw")
      ∷ (opcode == 0xA6, emit0 inst "cmpsb")
      ∷ (opcode == 0xA7, emit_sized inst seg "cmpsd" "cmpsw")
      ∷ (opcode == 0xA8, emit_imm8 inst "test" (reg8 0))
      ∷ (opcode == 0xA9, wreg_wimm "test" 0)
      ∷ (opcode == 0xAA, emit0 inst "stosb")
      ∷ (opcode == 0xAB, emit_sized inst seg "stosd" "stosw")
      ∷ (opcode == 0xAC, emit0 inst "lodsb")
      ∷ (opcode == 0xAD, emit_sized inst seg "lodsd" "lodsw")
      ∷ (opcode == 0xAE, emit0 inst "scasb")
      ∷ (opcode == 0xAF, emit_sized inst seg "scasd" "scasw")
      ∷ []

  -- Opcodes 0xB0 to 0xC9.
  unfoldable pub imm_arms : ℕ → List Arm
  imm_arms opcode =
      (is_between 0xB0 opcode 0xB7, emit_imm8 inst "mov" (reg8 (opcode - 0xB0)))
      ∷ (is_between 0xB8 opcode 0xBF, wreg_wimm "mov" (opcode - 0xB8))
      ∷ (is_in opcode (0xC0 ∷ 0xC1 ∷ []), rm_imm (name_at shift_names) (opcode == 0xC1) imm_byte)
      ∷ (opcode == 0xC2, emit_imm16 "ret")
      ∷ (opcode == 0xC3, emit0 inst "ret")
      ∷ (opcode == 0xC4, emit_reg_rm inst "les" true seg)
      ∷ (opcode == 0xC5, emit_reg_rm inst "lds" true seg)
      ∷ (opcode == 0xC6, rm_imm (λ n. "mov") false imm_byte)
      ∷ (opcode == 0xC7, rm_imm (λ n. "mov") true wimm)
      ∷ (opcode == 0xC8, enter)
      ∷ (opcode == 0xC9, emit0 inst "leave")
      ∷ (opcode == 0xCA, emit_imm16 "retf")
      ∷ (opcode == 0xCB, emit0 inst "retf")
      ∷ []
