-- ===== src/Decode16/Arms/Extended.antt =====
-- `decode_one`, the two-byte opcodes behind 0x0F.
use linuxrecomp.Base.{ℕ, ◌-◌, String, Bool, true, false, List, [], ◌∷◌, if◌then◌else◌, ◌==◌}
use linuxrecomp.Decode16.{OpType, Operand, Instruction}
use linuxrecomp.Decode16.Reader.{M, ◌>>=◌, ◌>>◌, pure, u8, unread}
use linuxrecomp.Decode16.Operands.{decode_modrm, imm8, reg8, sreg}
use linuxrecomp.Decode16.Arms.{
  Arm, choose, is_in, is_between, name_at, emit0, emit1, emit2, emit3, emit_rm_reg, emit_reg_rm,
  emit_rm, emit_rel16,
}
use linuxrecomp.Decode16.Arms.Moves.{rm_imm, imm_byte}
use Prim.Native.String.{◌++◌}

unfoldable pub cc_suffixes : List String
cc_suffixes =
    "o" ∷ "no" ∷ "b" ∷ "ae" ∷ "e" ∷ "ne" ∷ "be" ∷ "a" ∷ "s" ∷ "ns" ∷ "p" ∷ "np" ∷ "l" ∷ "ge" ∷ "le"
    ∷ "g" ∷ []

unfoldable pub bt_group : List String
bt_group = "?" ∷ "?" ∷ "?" ∷ "?" ∷ "bt" ∷ "bts" ∷ "btr" ∷ "btc" ∷ []

unfoldable pub bt_name : ℕ → String
bt_name op2b =
    if op2b == 0xA3
    then "bt"
    else if op2b == 0xAB
    then "bts"
    else if op2b == 0xB3
    then "btr"
    else "btc"

unfoldable pub far_load_name : ℕ → String
far_load_name op2b = if op2b == 0xB2 then "lss" else if op2b == 0xB4 then "lfs" else "lgs"

-- `rm.type` of a MOVZX or MOVSX source: a register is renamed to the source's width.
unfoldable pub narrow_type : Bool → OpType → OpType
narrow_type src_word OpType.reg16 = if src_word then OpType.reg16 else OpType.reg8
narrow_type src_word OpType.reg32 = if src_word then OpType.reg16 else OpType.reg8
narrow_type src_word t = t

unfoldable pub narrow : Bool → Operand → Operand
narrow src_word rm = record rm {
  type = narrow_type src_word rm.type;
  size = if src_word then 2 else 1;
}

module _ (inst : Instruction) (seg : String) where
  -- MOVZX and MOVSX
  unfoldable pub move_extend : ℕ → M Instruction
  move_extend op2b = do
    (reg, rm, n) ← decode_modrm true seg
    emit2 inst (if is_in op2b (0xBE ∷ 0xBF ∷ []) then "movsx" else "movzx") reg
        (narrow (is_in op2b (0xB7 ∷ 0xBF ∷ [])) rm)

  -- SHLD and SHRD: the count is an immediate, or CL.
  unfoldable pub double_shift : ℕ → M Instruction
  double_shift op2b = do
    (reg, rm, n) ← decode_modrm true seg
    count ← (if is_in op2b (0xA4 ∷ 0xAC ∷ []) then imm_byte inst seg else pure (reg8 1))
    emit3 inst (if is_in op2b (0xA4 ∷ 0xA5 ∷ []) then "shld" else "shrd") rm reg count

  unfoldable pub long_nop : M Instruction
  long_nop = do (reg, rm, n) ← decode_modrm true seg; emit0 inst "nop"

  -- An unknown second byte: the 0x0F becomes a `db`, and the second byte is decoded next.
  unfoldable pub resync : M Instruction
  resync = unread >> emit1 inst "db" (imm8 0x0F)

  unfoldable pub extended_arms : ℕ → List Arm
  extended_arms op2b =
      (is_between 0x80 op2b 0x8F, emit_rel16 inst ("j" ++ name_at cc_suffixes (op2b - 0x80)))
      ∷ (
        is_between 0x90 op2b 0x9F,
        emit_rm inst (λ n. "set" ++ name_at cc_suffixes (op2b - 0x90)) false seg,
      )
      ∷ (op2b == 0xAF, emit_reg_rm inst "imul" true seg)
      ∷ (is_in op2b (0xB6 ∷ 0xB7 ∷ 0xBE ∷ 0xBF ∷ []), move_extend op2b)
      ∷ (is_in op2b (0xA3 ∷ 0xAB ∷ 0xB3 ∷ 0xBB ∷ []), emit_rm_reg inst (bt_name op2b) true seg)
      ∷ (op2b == 0xBA, rm_imm inst seg (name_at bt_group) true (imm_byte inst seg))
      ∷ (is_in op2b (0xA4 ∷ 0xA5 ∷ 0xAC ∷ 0xAD ∷ []), double_shift op2b)
      ∷ (
        is_in op2b (0x02 ∷ 0x03 ∷ []),
        emit_reg_rm inst (if op2b == 0x02 then "lar" else "lsl") true seg,
      )
      ∷ (is_in op2b (0xB2 ∷ 0xB4 ∷ 0xB5 ∷ []), emit_reg_rm inst (far_load_name op2b) true seg)
      ∷ (
        is_in op2b (0xA0 ∷ 0xA1 ∷ 0xA8 ∷ 0xA9 ∷ []),
        emit1 inst (if is_in op2b (0xA0 ∷ 0xA8 ∷ []) then "push" else "pop")
            (sreg (if is_in op2b (0xA0 ∷ 0xA1 ∷ []) then 4 else 5)),
      )
      ∷ (op2b == 0x1F, long_nop)
      ∷ []

  unfoldable pub two_byte : M Instruction
  two_byte = do op2b ← u8; choose (extended_arms op2b) resync
