-- ===== src/Fpu/Registers.antt =====
-- tools/disasm/fpu_decode.py: `decode_reg_d8` to `decode_reg_df` and REG_DECODERS, the register forms.
-- A decoder that indexes a list of operations raises IndexError outside it, which is `none` here.
use linuxrecomp.Base.{
  ℕ, ◌+◌, ◌-◌, ◌/◌, ◌%◌, String, Bool, ◌&&◌, Option, none, some, List, [], ◌∷◌, if◌then◌else◌, leb,
  ◌==◌, get_elem?,
}
use linuxrecomp.Base.Int.{pos}
use linuxrecomp.Fpu.Tables.{FpuInstruction, fpu, digit, hex_byte}
use Prim.Native.String.{◌++◌}

-- f'st({i})'
abbrev st : ℕ → String
st i = "st(" ++ (digit i ++ ")")

-- ops[(byte2 - 0xC0) >> 3], for a list of eight: the shift rounds down, an index from -8 to -1 counts
-- from the end, and any other outside the list raises IndexError.
unfoldable pub op_of : List String → ℕ → Option String
op_of ops byte2 =
    if leb 0xC0 byte2
    then get_elem? ops ((byte2 - 0xC0) / 8)
    else if leb ((0xC0 - byte2 + 7) / 8) 8
    then get_elem? ops (8 - (0xC0 - byte2 + 7) / 8)
    else none

abbrev within : ℕ → ℕ → ℕ → Bool
within lo b hi = leb lo b && leb b hi

-- op st(0), st(i)
abbrev pub to_top : String → ℕ → FpuInstruction
to_top m i = record (fpu m) { operand = "st(0), " ++ st i; st_src = pos i; st_dst = pos 0 }

-- op st(i), st(0)
abbrev pub from_top : String → ℕ → FpuInstruction
from_top m i = record (fpu m) { operand = st i ++ ", st(0)"; st_src = pos 0; st_dst = pos i }

abbrev reads_st : String → ℕ → FpuInstruction
reads_st m i = record (fpu m) { operand = st i; st_src = pos i }

abbrev writes_st : String → ℕ → FpuInstruction
writes_st m i = record (fpu m) { operand = st i; st_dst = pos i }

-- The instruction that a decoder makes of its operation, where there is one.
abbrev pub named : (String → ℕ → FpuInstruction) → Option String → ℕ → Option FpuInstruction
named form none i = none
named form (some op) i = some (form op i)

unfoldable pub d8_ops : List String
d8_ops = "fadd" ∷ "fmul" ∷ "fcom" ∷ "fcomp" ∷ "fsub" ∷ "fsubr" ∷ "fdiv" ∷ "fdivr" ∷ []

unfoldable pub decode_reg_d8 : ℕ → Option FpuInstruction
unfolding d8_ops op_of
decode_reg_d8 byte2 = named to_top (op_of d8_ops byte2) (byte2 % 8)

-- The single instructions of D9, by their second byte.
unfoldable pub d9_names : List (ℕ × String)
d9_names =
    (0xD0, "fnop")
    ∷ (0xE0, "fchs")
    ∷ (0xE1, "fabs")
    ∷ (0xE4, "ftst")
    ∷ (0xE5, "fxam")
    ∷ (0xE8, "fld1")
    ∷ (0xE9, "fldl2t")
    ∷ (0xEA, "fldl2e")
    ∷ (0xEB, "fldpi")
    ∷ (0xEC, "fldlg2")
    ∷ (0xED, "fldln2")
    ∷ (0xEE, "fldz")
    ∷ (0xF0, "f2xm1")
    ∷ (0xF1, "fyl2x")
    ∷ (0xF2, "fptan")
    ∷ (0xF3, "fpatan")
    ∷ (0xF4, "fxtract")
    ∷ (0xF5, "fprem1")
    ∷ (0xF6, "fdecstp")
    ∷ (0xF7, "fincstp")
    ∷ (0xF8, "fprem")
    ∷ (0xF9, "fyl2xp1")
    ∷ (0xFA, "fsqrt")
    ∷ (0xFB, "fsincos")
    ∷ (0xFC, "frndint")
    ∷ (0xFD, "fscale")
    ∷ (0xFE, "fsin")
    ∷ (0xFF, "fcos")
    ∷ []

-- The first name whose byte this is, else the placeholder.
unfoldable pub name_of_byte : List (ℕ × String) → ℕ → String → String
name_of_byte [] b otherwise = otherwise
name_of_byte ((k, name) ∷ rest) b otherwise = if b == k then name else name_of_byte rest b otherwise

unfoldable pub decode_reg_d9 : ℕ → Option FpuInstruction
unfolding d9_names name_of_byte hex_byte
decode_reg_d9 byte2 =
    if within 0xC0 byte2 0xC7
    then some (reads_st "fld" (byte2 % 8))
    else if within 0xC8 byte2 0xCF
    then some
        (record (fpu "fxch") { operand = st (byte2 % 8); st_src = pos (byte2 % 8); st_dst = pos 0 })
    else some (fpu (name_of_byte d9_names byte2 ("fpu_d9_" ++ hex_byte byte2)))

unfoldable pub da_ops : List String
da_ops = "fcmovb" ∷ "fcmove" ∷ "fcmovbe" ∷ "fcmovu" ∷ "???" ∷ "???" ∷ "???" ∷ "???" ∷ []

unfoldable pub decode_reg_da : ℕ → Option FpuInstruction
unfolding op_of da_ops
decode_reg_da byte2 =
    if byte2 == 0xE9 then some (fpu "fucompp") else named to_top (op_of da_ops byte2) (byte2 % 8)

unfoldable pub db_ops : List String
db_ops = "fcmovnb" ∷ "fcmovne" ∷ "fcmovnbe" ∷ "fcmovnu" ∷ "???" ∷ "fucomi" ∷ "fcomi" ∷ "???" ∷ []

unfoldable pub decode_reg_db : ℕ → Option FpuInstruction
unfolding op_of db_ops
decode_reg_db byte2 =
    if byte2 == 0xE2
    then some (fpu "fclex")
    else if byte2 == 0xE3
    then some (fpu "finit")
    else named to_top (op_of db_ops byte2) (byte2 % 8)

unfoldable pub dc_ops : List String
dc_ops = "fadd" ∷ "fmul" ∷ "fcom" ∷ "fcomp" ∷ "fsubr" ∷ "fsub" ∷ "fdivr" ∷ "fdiv" ∷ []

unfoldable pub decode_reg_dc : ℕ → Option FpuInstruction
unfolding dc_ops op_of
decode_reg_dc byte2 = named from_top (op_of dc_ops byte2) (byte2 % 8)

unfoldable pub decode_reg_dd : ℕ → Option FpuInstruction
unfolding hex_byte
decode_reg_dd byte2 =
    if within 0xC0 byte2 0xC7
    then some (reads_st "ffree" (byte2 % 8))
    else if within 0xD0 byte2 0xD7
    then some (writes_st "fst" (byte2 % 8))
    else if within 0xD8 byte2 0xDF
    then some (writes_st "fstp" (byte2 % 8))
    else if within 0xE0 byte2 0xE7
    then some (reads_st "fucom" (byte2 % 8))
    else if within 0xE8 byte2 0xEF
    then some (reads_st "fucomp" (byte2 % 8))
    else some (fpu ("fpu_dd_" ++ hex_byte byte2))

unfoldable pub de_ops : List String
de_ops = "faddp" ∷ "fmulp" ∷ "fcomp" ∷ "???" ∷ "fsubrp" ∷ "fsubp" ∷ "fdivrp" ∷ "fdivp" ∷ []

unfoldable pub decode_reg_de : ℕ → Option FpuInstruction
unfolding de_ops op_of
decode_reg_de byte2 =
    if byte2 == 0xD9 then some (fpu "fcompp") else named from_top (op_of de_ops byte2) (byte2 % 8)

unfoldable pub decode_reg_df : ℕ → Option FpuInstruction
unfolding hex_byte
decode_reg_df byte2 =
    if byte2 == 0xE0
    then some (record (fpu "fstsw") { operand = "ax" })
    else if within 0xC0 byte2 0xC7
    then some (reads_st "ffreep" (byte2 % 8))
    else if within 0xE8 byte2 0xEF
    then some (to_top "fucomip" (byte2 % 8))
    else if within 0xF0 byte2 0xF7
    then some (to_top "fcomip" (byte2 % 8))
    else some (fpu ("fpu_df_" ++ hex_byte byte2))

-- REG_DECODERS.get(opcode)
unfoldable pub decode_reg : ℕ → Option (ℕ → Option FpuInstruction)
decode_reg opcode =
    if opcode == 0xD8
    then some decode_reg_d8
    else if opcode == 0xD9
    then some decode_reg_d9
    else if opcode == 0xDA
    then some decode_reg_da
    else if opcode == 0xDB
    then some decode_reg_db
    else if opcode == 0xDC
    then some decode_reg_dc
    else if opcode == 0xDD
    then some decode_reg_dd
    else if opcode == 0xDE
    then some decode_reg_de
    else if opcode == 0xDF
    then some decode_reg_df
    else none
