-- ===== src/Decode16/Kinds.antt =====
-- tools/disasm/decode16.py: the operand types.
pub data OpType : Type 0 where
  none reg8 reg16 reg32 sreg mem imm8 imm16 imm32 rel8 rel16 far moffs : OpType
