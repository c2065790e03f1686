-- ===== src/Decode16/Arms/Flow.antt =====
-- `decode_one`, opcodes 0x70 to 0x7F and 0xCC to 0xFF: jumps, calls, interrupts, ports and groups 2 to 5.
use linuxrecomp.Base.{
  ℕ, ◌+◌, ◌-◌, String, Bool, true, false, ◌&&◌, List, [], ◌∷◌, if◌then◌else◌, ltb, leb, ◌==◌,
  length,
}
use linuxrecomp.Base.Int.{pos}
use linuxrecomp.Decode16.{Operand, Instruction}
use linuxrecomp.Decode16.Reader.{M, ◌>>=◌, pure, gets, u8, u16}
use linuxrecomp.Decode16.Operands.{decode_modrm, wimm, imm8, reg8, reg16}
use linuxrecomp.Decode16.Arms.{
  Arm, is_in, is_between, name_at, digit, shift_names, emit0, emit1, emit2, emit_rm, emit_rel8,
  emit_rel16, emit_imm8,
}
use linuxrecomp.Decode16.Arms.Moves.{far_target, imm_byte}
use Prim.Native.String.{◌++◌}

unfoldable pub cc_names : List String
cc_names =
    "jo" ∷ "jno" ∷ "jb" ∷ "jae" ∷ "je" ∷ "jne" ∷ "jbe" ∷ "ja" ∷ "js" ∷ "jns" ∷ "jp" ∷ "jnp" ∷ "jl"
    ∷ "jge" ∷ "jle" ∷ "jg" ∷ []

unfoldable pub grp3 : List String
grp3 = "test" ∷ "test" ∷ "not" ∷ "neg" ∷ "mul" ∷ "imul" ∷ "div" ∷ "idiv" ∷ []

unfoldable pub grp5 : List String
grp5 = "inc" ∷ "dec" ∷ "call" ∷ "call" ∷ "jmp" ∷ "jmp" ∷ "push" ∷ "?" ∷ []

-- GRP5[grp_op], with ' far' for the far variants
unfoldable pub grp5_name : ℕ → String
grp5_name n = name_at grp5 n ++ (if is_in n (3 ∷ 5 ∷ []) then " far" else "")

unfoldable pub grp4_name : ℕ → String
grp4_name n = if n == 0 then "inc" else if n == 1 then "dec" else "grp4_" ++ digit n

-- The three bytes behind an INT 3Fh, an overlay call, where they are there.
unfoldable pub overlay_read : Instruction → Bool → M Instruction
overlay_read i true = do
  num ← u8
  off ← u16
  pure (record i { overlay_num = pos num; overlay_off = off })
overlay_read i false = pure i

unfoldable pub overlay : ℕ → Instruction → M Instruction
unfolding overlay_read
overlay int_num i = do
  room ← gets (λ d. ltb (d.pos + 2) (length d.bytes))
  overlay_read i (int_num == 0x3F && room)

module _ (inst : Instruction) (seg : String) where
  -- 0xCD
  unfoldable pub int_imm8 : M Instruction
  int_imm8 = do int_num ← u8; i ← emit1 inst "int" (imm8 int_num); overlay int_num i

  -- 0xD0 to 0xD3: by one, or by CL.
  unfoldable pub shift_arm : ℕ → M Instruction
  shift_arm opcode = do
    let by_cl = is_in opcode (0xD2 ∷ 0xD3 ∷ [])
    (reg, rm, shift_op) ← decode_modrm (is_in opcode (0xD1 ∷ 0xD3 ∷ [])) seg
    emit2 inst (name_at shift_names shift_op) rm (if by_cl then reg8 1 else imm8 1)

  unfoldable pub emit_byte : String → M Instruction
  emit_byte m = do v ← u8; emit1 inst m (imm8 v)

  -- 0xD8 to 0xDF: the ModR/M byte is read and dropped.
  unfoldable pub esc : ℕ → M Instruction
  esc opcode = do
    (reg, rm, n) ← decode_modrm false seg
    emit0 inst ("esc_" ++ digit (opcode - 0xD8))

  unfoldable pub out_imm8 : Operand → M Instruction
  out_imm8 b = do v ← u8; emit2 inst "out" (imm8 v) b

  -- 0xF6 and 0xF7: TEST alone has an immediate.
  unfoldable pub group3 : Bool → M Instruction
  group3 wide = do
    (reg, rm, n) ← decode_modrm wide seg
    if leb n 1
        then (do v ← (if wide then wimm else imm_byte inst seg); emit2 inst (name_at grp3 n) rm v)
        else emit1 inst (name_at grp3 n) rm

  -- Opcodes 0x70 to 0x7F.
  unfoldable pub jcc_arms : ℕ → List Arm
  jcc_arms opcode =
      (is_between 0x70 opcode 0x7F, emit_rel8 inst (name_at cc_names (opcode - 0x70))) ∷ []

  -- Opcodes 0xCC to 0xE3.
  unfoldable pub int_arms : ℕ → List Arm
  int_arms opcode =
      (opcode == 0xCC, emit1 inst "int" (imm8 3))
      ∷ (opcode == 0xCD, int_imm8)
      ∷ (opcode == 0xCE, emit0 inst "into")
      ∷ (opcode == 0xCF, emit0 inst "iret")
      ∷ (is_in opcode (0xD0 ∷ 0xD1 ∷ 0xD2 ∷ 0xD3 ∷ []), shift_arm opcode)
      ∷ (opcode == 0xD4, emit_byte "aam")
      ∷ (opcode == 0xD5, emit_byte "aad")
      ∷ (opcode == 0xD7, emit0 inst "xlat")
      ∷ (is_between 0xD8 opcode 0xDF, esc opcode)
      ∷ (opcode == 0xE0, emit_rel8 inst "loopnz")
      ∷ (opcode == 0xE1, emit_rel8 inst "loopz")
      ∷ (opcode == 0xE2, emit_rel8 inst "loop")
      ∷ (opcode == 0xE3, emit_rel8 inst "jcxz")
      ∷ []

  -- Opcodes 0xE4 to 0xEF.
  unfoldable pub port_arms : ℕ → List Arm
  port_arms opcode =
      (opcode == 0xE4, emit_imm8 inst "in" (reg8 0))
      ∷ (opcode == 0xE5, emit_imm8 inst "in" (reg16 0))
      ∷ (opcode == 0xE6, out_imm8 (reg8 0))
      ∷ (opcode == 0xE7, out_imm8 (reg16 0))
      ∷ (opcode == 0xE8, emit_rel16 inst "call")
      ∷ (opcode == 0xE9, emit_rel16 inst "jmp")
      ∷ (opcode == 0xEA, far_target inst seg "jmp")
      ∷ (opcode == 0xEB, emit_rel8 inst "jmp")
      ∷ (opcode == 0xEC, emit2 inst "in" (reg8 0) (reg16 2))
      ∷ (opcode == 0xED, emit2 inst "in" (reg16 0) (reg16 2))
      ∷ (opcode == 0xEE, emit2 inst "out" (reg16 2) (reg8 0))
      ∷ (opcode == 0xEF, emit2 inst "out" (reg16 2) (reg16 0))
      ∷ []

  -- Opcodes 0xF4 to 0xFF, and 0x9B.
  unfoldable pub group_arms : ℕ → List Arm
  group_arms opcode =
      (opcode == 0xF4, emit0 inst "hlt")
      ∷ (opcode == 0xF5, emit0 inst "cmc")
      ∷ (is_in opcode (0xF6 ∷ 0xF7 ∷ []), group3 (opcode == 0xF7))
      ∷ (opcode == 0xF8, emit0 inst "clc")
      ∷ (opcode == 0xF9, emit0 inst "stc")
      ∷ (opcode == 0xFA, emit0 inst "cli")
      ∷ (opcode == 0xFB, emit0 inst "sti")
      ∷ (opcode == 0xFC, emit0 inst "cld")
      ∷ (opcode == 0xFD, emit0 inst "std")
      ∷ (opcode == 0xFE, emit_rm inst grp4_name false seg)
      ∷ (opcode == 0xFF, emit_rm inst grp5_name true seg)
      ∷ (opcode == 0x9B, emit0 inst "wait")
      ∷ []
