-- ===== src/Fpu/Tests.antt =====
-- Runs of the ESC decoder.
use linuxrecomp.Base.{◌≡◌, refl, inl, true, some, none, arith}
use linuxrecomp.Fpu.{decode_fpu}
use linuxrecomp.Fpu.Tables.{FpuInstruction}
use linuxrecomp.Fpu.Registers.{decode_reg_d8, decode_reg_dc, decode_reg_de}
use linuxrecomp.Fpu.Laws.{reversed, dc_reverses_d8, de_pops_dc}
use linuxrecomp.Fpu.Forms.{format, decode_fpu-operation}
use Prim.Native.String.{◌++◌}

-- fld qword ptr [bx]
decode_fpu-operation_example :
    (f : FpuInstruction) × (decode_fpu 0xDD 0x07 0 0 "[bx]" ≡ some f)
    × (f.is_memory ≡ true)
    × (f.mnemonic ≡ (format 0xDD).0 ++ "ld")
    × (f.mem_size ≡ (format 0xDD).1)
decode_fpu-operation_example =
    decode_fpu-operation 0xDD 0x07 0 0 "[bx]" "ld" (omega arith) (omega arith) (omega arith)
      (omega arith) refl

-- fsub st(1), st
dc_reverses_d8_example :
    (dc d8 reversed_d8 : FpuInstruction) × (decode_reg_dc 0xE9 ≡ some dc)
    × (decode_reg_d8 0xE9 ≡ some d8)
    × (decode_reg_d8 (reversed 0xE9) ≡ some reversed_d8)
    × (dc.mnemonic ≡ reversed_d8.mnemonic)
    × (dc.st_src ≡ d8.st_dst)
    × (dc.st_dst ≡ d8.st_src)
dc_reverses_d8_example = dc_reverses_d8 0xE9 (omega arith) (omega arith)

-- faddp st(1), st
de_pops_dc_example :
    (de dc : FpuInstruction) × (decode_reg_de 0xC1 ≡ some de)
    × (decode_reg_dc 0xC1 ≡ some dc)
    × (de.mnemonic ≡ dc.mnemonic ++ "p")
    × (de.operand ≡ dc.operand)
    × (de.st_src ≡ dc.st_src)
    × (de.st_dst ≡ dc.st_dst)
de_pops_dc_example = de_pops_dc 0xC1 (omega arith) (omega arith) (inl (omega arith))

-- A second byte below 0x80 is outside the list, and one from 0x80 on counts from its end.
outside : decode_reg_d8 0x7F ≡ none
unfolding decode_reg_d8 linuxrecomp.Fpu.Registers.op_of
outside = refl
