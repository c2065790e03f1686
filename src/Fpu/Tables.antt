-- ===== src/Fpu/Tables.antt =====
-- tools/disasm/fpu_decode.py: `FPUInstruction` and MEM_TABLE.
use linuxrecomp.Base.{ℕ, ◌/◌, ◌%◌, String, Bool, false, List, [], ◌∷◌, if◌then◌else◌, ◌==◌, get_or}
use linuxrecomp.Base.Int.{ℤ, negsuc}
use Prim.Native.String.{◌++◌}

pub record FpuInstruction : Type 0 where
  pub mnemonic : String
  pub operand : String
  pub mem_size : String
  pub is_memory : Bool
  pub st_src : ℤ
  pub st_dst : ℤ

-- `FPUInstruction(mnemonic)`, with the dataclass's defaults.
abbrev pub fpu : String → FpuInstruction
fpu m = record {
  mnemonic = m;
  operand = "";
  mem_size = "";
  is_memory = false;
  st_src = negsuc 0;
  st_dst = negsuc 0;
}

unfoldable pub hex_digits : List String
hex_digits =
    "0" ∷ "1" ∷ "2" ∷ "3" ∷ "4" ∷ "5" ∷ "6" ∷ "7" ∷ "8" ∷ "9" ∷ "A" ∷ "B" ∷ "C" ∷ "D" ∷ "E" ∷ "F"
    ∷ []

-- f'{n}' for a digit
unfoldable pub digit : ℕ → String
unfolding hex_digits
digit n = get_or hex_digits n ""

-- f'{b:02X}' for a byte
unfoldable pub hex_byte : ℕ → String
unfolding digit
hex_byte b = digit (b / 16) ++ digit (b % 16)

-- The names of eight memory instructions of one operand size.
abbrev sized : String → List String → List (String × String)
sized size [] = []
sized size (m ∷ ms) = (m, size) ∷ sized size ms

-- MEM_TABLE.get(opcode, [])
unfoldable pub mem_table : ℕ → List (String × String)
mem_table opcode =
    if opcode == 0xD8
    then sized "dword"
        ("fadd" ∷ "fmul" ∷ "fcom" ∷ "fcomp" ∷ "fsub" ∷ "fsubr" ∷ "fdiv" ∷ "fdivr" ∷ [])
    else if opcode == 0xD9
    then (("fld", "dword")
        ∷ ("???", "")
        ∷ ("fst", "dword")
        ∷ ("fstp", "dword")
        ∷ ("fldenv", "14byte")
        ∷ ("fldcw", "word")
        ∷ ("fstenv", "14byte")
        ∷ ("fstcw", "word")
        ∷ [])
    else if opcode == 0xDA
    then sized "dword"
        ("fiadd" ∷ "fimul" ∷ "ficom" ∷ "ficomp" ∷ "fisub" ∷ "fisubr" ∷ "fidiv" ∷ "fidivr" ∷ [])
    else if opcode == 0xDB
    then (("fild", "dword")
        ∷ ("fisttp", "dword")
        ∷ ("fist", "dword")
        ∷ ("fistp", "dword")
        ∷ ("???", "")
        ∷ ("fld", "tword")
        ∷ ("???", "")
        ∷ ("fstp", "tword")
        ∷ [])
    else if opcode == 0xDC
    then sized "qword"
        ("fadd" ∷ "fmul" ∷ "fcom" ∷ "fcomp" ∷ "fsub" ∷ "fsubr" ∷ "fdiv" ∷ "fdivr" ∷ [])
    else if opcode == 0xDD
    then (("fld", "qword")
        ∷ ("fisttp", "qword")
        ∷ ("fst", "qword")
        ∷ ("fstp", "qword")
        ∷ ("frstor", "94byte")
        ∷ ("???", "")
        ∷ ("fsave", "94byte")
        ∷ ("fstsw", "word")
        ∷ [])
    else if opcode == 0xDE
    then sized "word"
        ("fiadd" ∷ "fimul" ∷ "ficom" ∷ "ficomp" ∷ "fisub" ∷ "fisubr" ∷ "fidiv" ∷ "fidivr" ∷ [])
    else if opcode == 0xDF
    then (("fild", "word")
        ∷ ("fisttp", "word")
        ∷ ("fist", "word")
        ∷ ("fistp", "word")
        ∷ ("fbld", "tword")
        ∷ ("fild", "qword")
        ∷ ("fbstp", "tword")
        ∷ ("fistp", "qword")
        ∷ [])
    else []
