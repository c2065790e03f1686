-- ===== src/Decode16/Operands.antt =====
-- The operand builders (`_wbytes`, `_wreg`, `_wimm`) and the ModR/M byte (`_decode_modrm`).
use linuxrecomp.Base.{
  ℕ, ◌/◌, ◌%◌, String, Bool, true, false, ◌&&◌, none, if◌then◌else◌, ◌==◌, get_or,
}
use linuxrecomp.Base.Int.{ℤ, pos, wrap}
use linuxrecomp.Decode16.{OpType, Operand, default_operand, ea_bases, ea_default_seg}
use linuxrecomp.Decode16.Reader.{M, ◌>>=◌, pure, gets, u8, u16, u32, s8, s16}
use mathlib.Core.Option.{get_or as option_or}
use text.Mathlib.Text.{◌==◌ as str_eq}

abbrev pub reg8 : ℕ → Operand
reg8 r = record default_operand { type = OpType.reg8; reg = r; size = 1 }

abbrev pub reg16 : ℕ → Operand
reg16 r = record default_operand { type = OpType.reg16; reg = r; size = 2 }

abbrev pub reg32 : ℕ → Operand
reg32 r = record default_operand { type = OpType.reg32; reg = r; size = 4 }

abbrev pub sreg : ℕ → Operand
sreg r = record default_operand { type = OpType.sreg; reg = r; size = 2 }

abbrev pub imm8 : ℕ → Operand
imm8 v = record default_operand { type = OpType.imm8; disp = pos v; size = 1 }

-- An imm8 that is sign-extended to a word.
abbrev pub imm8_word : ℤ → Operand
imm8_word z = record default_operand { type = OpType.imm8; disp = pos (wrap 0x10000 z); size = 2 }

abbrev pub imm16 : ℕ → Operand
imm16 v = record default_operand { type = OpType.imm16; disp = pos v; size = 2 }

abbrev pub imm32 : ℕ → Operand
imm32 v = record default_operand { type = OpType.imm32; disp = pos v; size = 4 }

abbrev pub rel8 : ℤ → Operand
rel8 target = record default_operand { type = OpType.rel8; disp = target; size = 2 }

abbrev pub rel16 : ℤ → Operand
rel16 target = record default_operand { type = OpType.rel16; disp = target; size = 2 }

abbrev pub far : ℕ → ℕ → Operand
far off seg = record default_operand { type = OpType.far; disp = pos off; far_seg = seg; size = 4 }

-- `a or b` on texts
abbrev pub text_or : String → String → String
text_or a b = if str_eq a "" then b else a

abbrev pub moffs : ℕ → String → ℕ → Operand
moffs off seg_override n = record default_operand {
  type = OpType.moffs;
  disp = pos off;
  seg = text_or seg_override "ds";
  size = n;
}

-- `_wbytes`
unfoldable pub wbytes : M ℕ
wbytes = gets (λ d. if d.op32 then 4 else 2)

-- `_wreg`
unfoldable pub wreg : ℕ → M Operand
wreg r = gets (λ d. if d.op32 then reg32 r else reg16 r)

unfoldable pub wimm_of : Bool → M Operand
wimm_of true = do v ← u32; pure (imm32 v)
wimm_of false = do v ← u16; pure (imm16 v)

-- `_wimm`
unfoldable pub wimm : M Operand
unfolding wimm_of
wimm = do wide ← gets (λ d. d.op32); wimm_of wide

-- The register operand of `_decode_modrm`, and its r/m operand when mod is 3.
unfoldable pub modrm_reg : Bool → Bool → ℕ → Operand
modrm_reg wide op32 r = if wide then (if op32 then reg32 r else reg16 r) else reg8 r

-- mod 0 with r/m 6 is a bare 16-bit address.
unfoldable pub is_direct : ℕ → ℕ → Bool
is_direct md rm = md == 0 && rm == 6

-- The displacement: by the table of mod and r/m.
unfoldable pub modrm_disp : ℕ → ℕ → M ℤ
modrm_disp md rm =
    if is_direct md rm
    then (do v ← u16; pure (pos v))
    else if md == 1
    then s8
    else if md == 2
    then s16
    else pure (pos 0)

-- The memory operand, from its displacement.
unfoldable pub modrm_mem : ℕ → ℕ → ℕ → String → ℤ → Operand
modrm_mem md rm n seg_override disp =
    let direct = is_direct md rm in
    let bases = get_or ea_bases rm ("", none) in
    record default_operand {
      type = OpType.mem;
      base = if direct then "" else bases.0;
      index = if direct then "" else option_or bases.1 "";
      disp = disp;
      seg = text_or seg_override (if direct then "ds" else get_or ea_default_seg rm "");
      size = n;
    }

unfoldable pub modrm_rm : Bool → Bool → String → ℕ → ℕ → M Operand
modrm_rm wide op32 seg_override md rm = if md == 3 then pure (modrm_reg wide op32 rm) else (do
  disp ← modrm_disp md rm
  pure (modrm_mem md rm (if wide then (if op32 then 4 else 2) else 1) seg_override disp))

-- `_decode_modrm`: the register operand, the r/m operand and the register field. The r/m field is
-- below 8, so the tables are never read out of range.
unfoldable pub decode_modrm : Bool → String → M (Operand × Operand × ℕ)
decode_modrm wide seg_override = do
  prefixed ← gets (λ d. d.op32)
  let op32 = wide && prefixed
  modrm ← u8
  let md = modrm / 64 % 4
  let reg = modrm / 8 % 8
  let rm = modrm % 8
  rm_op ← modrm_rm wide op32 seg_override md rm
  pure (modrm_reg wide op32 reg, rm_op, reg)
