-- ===== src/Fpu.antt =====
-- tools/disasm/fpu_decode.py: the x87 decoder, from the ESC opcode and the ModR/M byte to a mnemonic
-- with its operands. `st_src` and `st_dst` are -1 where there is none.
pub mod Tables
pub mod Registers
pub mod Laws
pub mod Forms
mod Tests
use Tables.{FpuInstruction, fpu, mem_table, hex_byte, digit}
use Registers.{decode_reg}
use linuxrecomp.Base.{
  ℕ, String, Bool, true, false, Option, none, some, List, [], ◌∷◌, if◌then◌else◌, ◌==◌, ltb, length,
  get_or,
}
use linuxrecomp.Base.Int.{ℤ, negsuc}
use Prim.Native.String.{◌++◌}
use text.Mathlib.Text.{◌==◌ as str_eq}

-- The memory form: by the table of the opcode and the register field.
unfoldable pub decode_mem : ℕ → ℕ → String → FpuInstruction
decode_mem opcode reg mem_operand =
    let table = mem_table opcode in
    if ltb reg (length table)
    then (let entry = get_or table reg ("", "") in
        record (fpu entry.0) {
          operand = if str_eq mem_operand "" then entry.1 else entry.1 ++ (" " ++ mem_operand);
          mem_size = entry.1;
          is_memory = true;
        })
    else record (fpu ("fpu_" ++ (hex_byte opcode ++ ("_m" ++ digit reg)))) {
      operand = mem_operand;
      is_memory = true;
    }

-- The register form: by the decoder listed for the opcode, else the placeholder.
unfoldable pub or_unknown : ℕ → ℕ → Option (ℕ → Option FpuInstruction) → Option FpuInstruction
or_unknown opcode modrm none = some (fpu ("fpu_" ++ (hex_byte opcode ++ ("_" ++ hex_byte modrm))))
or_unknown opcode modrm (some decoder) = decoder modrm

-- `decode_fpu`. (The argument `rm` is not read.) `none` is an IndexError.
unfoldable pub decode_fpu : ℕ → ℕ → ℕ → ℕ → String → Option FpuInstruction
decode_fpu opcode modrm md reg mem_operand =
    if md == 3
    then or_unknown opcode modrm (decode_reg opcode)
    else some (decode_mem opcode reg mem_operand)

-- `format_fpu`
unfoldable pub format_fpu : FpuInstruction → String
format_fpu f = if str_eq f.operand "" then f.mnemonic else f.mnemonic ++ (" " ++ f.operand)
