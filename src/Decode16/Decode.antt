-- ===== src/Decode16/Decode.antt =====
-- `decode_one`, `decode_range` and `decode_all`: the prefix loop, the dispatch on the opcode and the
-- sweep over a range with its recovery from a truncated instruction.
use linuxrecomp.Base.{
  ℕ, zero, suc, ◌+◌, ◌-◌, String, Bool, true, false, ◌&&◌, Option, none, some, List, [], ◌∷◌, ◌++◌,
  if◌then◌else◌, ltb, leb, ◌==◌, length, get_elem?, get_or, drop, slice,
}
use linuxrecomp.Decode16.{Instruction, Decoder, default_instruction}
use linuxrecomp.Decode16.Reader.{M, ◌>>=◌, pure, u8}
use linuxrecomp.Decode16.Operands.{imm8}
use linuxrecomp.Decode16.Arms.{Arm, choose, is_between, emit1}
use linuxrecomp.Decode16.Arms.Alu.{alu_arms, stack_arms, group1_arms}
use linuxrecomp.Decode16.Arms.Moves.{mov_arms, string_arms, imm_arms}
use linuxrecomp.Decode16.Arms.Flow.{jcc_arms, int_arms, port_arms, group_arms}
use linuxrecomp.Decode16.Arms.Extended.{two_byte}

-- What the prefix loop sets.
pub record Prefixes : Type 0 where
  pub seg_override : String
  pub rep_prefix : String
  pub op32 : Bool
  pub addr32 : Bool

abbrev pub no_prefixes : Prefixes
no_prefixes = record { seg_override = ""; rep_prefix = ""; op32 = false; addr32 = false }

-- 0x9B is a prefix where an ESC opcode follows it.
unfoldable pub is_fwait : Option ℕ → Bool
is_fwait none = false
is_fwait (some next) = is_between 0xD8 next 0xDF

-- One round of the prefix loop: `none` where the byte is no prefix.
unfoldable pub prefix_step : ℕ → Option ℕ → Prefixes → Option Prefixes
prefix_step b next p =
    if b == 0x26
    then some (record p { seg_override = "es" })
    else if b == 0x2E
    then some (record p { seg_override = "cs" })
    else if b == 0x36
    then some (record p { seg_override = "ss" })
    else if b == 0x3E
    then some (record p { seg_override = "ds" })
    else if b == 0x64
    then some (record p { seg_override = "fs" })
    else if b == 0x65
    then some (record p { seg_override = "gs" })
    else if b == 0x66
    then some (record p { op32 = true })
    else if b == 0x67
    then some (record p { addr32 = true })
    else if b == 0x9B && is_fwait next
    then some p
    else if b == 0xF2
    then some (record p { rep_prefix = "repnz" })
    else if b == 0xF3
    then some (record p { rep_prefix = "rep" })
    else if b == 0xF0
    then some p
    else none

-- The prefix loop, over the bytes from the position on: the prefixes, and how many bytes they took.
unfoldable pub scan_prefixes : List ℕ → ℕ → Prefixes → Prefixes × ℕ
scan_prefixes [] n p = (p, n)
scan_prefixes (b ∷ rest) n p = elim (prefix_step b (get_elem? rest 0) p) [
  | none ↦ (p, n)
  | some p' ↦ scan_prefixes rest (n + 1) p'
]

-- An opcode that no arm knows.
unfoldable pub unknown : Instruction → ℕ → M Instruction
unknown inst opcode = emit1 inst "db" (imm8 opcode)

-- The arms of the dispatch, in the order of the source.
unfoldable pub opcode_arms : Instruction → String → ℕ → List Arm
opcode_arms inst seg opcode =
    alu_arms inst seg opcode
    ++ (stack_arms inst seg opcode
        ++ (jcc_arms inst seg opcode
            ++ (group1_arms inst seg opcode
                ++ (mov_arms inst seg opcode
                    ++ (string_arms inst seg opcode
                        ++ (imm_arms inst seg opcode
                            ++ (int_arms inst seg opcode
                                ++ (port_arms inst seg opcode
                                    ++ (group_arms inst seg opcode
                                        ++ ((opcode == 0x0F, two_byte inst seg) ∷ []))))))))))

unfoldable pub dispatch : Instruction → String → M Instruction
dispatch inst seg = do opcode ← u8; choose (opcode_arms inst seg opcode) (unknown inst opcode)

-- `inst.length = self.pos - start; inst.raw = self.data[start:self.pos]`
unfoldable pub finish : ℕ → Instruction → M Instruction
finish start inst d =
    some (record inst { length = d.pos - start; raw = slice d.bytes start d.pos }, d)

unfoldable pub start_instruction : Decoder → Prefixes → Instruction
start_instruction d p = record default_instruction {
  offset = d.base + d.pos;
  address = d.pos;
  prefix = p.rep_prefix;
  seg_override = p.seg_override;
}

-- The decoder behind the prefixes.
unfoldable pub after_prefixes : Decoder → Prefixes × ℕ → Decoder
after_prefixes d (p, n) = record d { pos = d.pos + n; op32 = p.op32; addr32 = p.addr32 }

-- What `decode_one` does behind the prefixes: `none` inside is the early `return None`.
unfoldable pub decode_body : Decoder → Prefixes × ℕ → Option (Option Instruction × Decoder)
decode_body d found =
    if leb (length d.bytes) (after_prefixes d found).pos
    then some (none, after_prefixes d found)
    else (dispatch (start_instruction d found.0) found.0.seg_override >>= λ inst.
          finish d.pos inst >>= λ done. pure (some done))
        (after_prefixes d found)

-- `decode_one`
unfoldable pub decode_one : M (Option Instruction)
decode_one d =
    if leb (length d.bytes) d.pos
    then some (none, d)
    else decode_body d (scan_prefixes (drop d.pos d.bytes) 0 no_prefixes)

-- The handler of `decode_range`: one byte of data, from where the failed decode began. (The prefix
-- attributes that the failed decode set are not kept: `decode_one` sets them anew.)
unfoldable pub db_instruction : Decoder → Instruction
db_instruction d = record default_instruction {
  offset = d.base + d.pos;
  address = d.pos;
  mnemonic = "db";
  op1 = some (imm8 (get_or d.bytes d.pos 0));
  raw = slice d.bytes d.pos (d.pos + 1);
  length = 1;
}

-- The `try` and its handler.
unfoldable pub decode_or_db : Decoder → Option Instruction × Decoder
decode_or_db d = elim (decode_one d) [
  | none ↦ (some (db_instruction d), record d { pos = d.pos + 1 })
  | some r ↦ r
]

-- The loop of `decode_range`; `none` where the fuel runs out.
unfoldable pub range_loop : ℕ → ℕ → Decoder → Option (List Instruction × Decoder)
range_loop zero stop d = none
range_loop (suc fuel) stop d = elim (ltb d.pos stop) [
  | false ↦ some ([], d)
  | true ↦
      let (o, d') = decode_or_db d in
      elim o [
        | none ↦ some ([], d')
        | some inst ↦ elim (range_loop fuel stop d') [
          | none ↦ none
          | some r ↦ some (inst ∷ r.0, r.1)
        ]
      ]
]

-- `decode_range`. Each round takes a byte at least.
unfoldable pub decode_range : ℕ → ℕ → Decoder → Option (List Instruction × Decoder)
decode_range start stop d = range_loop (suc (stop - start)) stop (record d { pos = start })

-- `decode_all`
unfoldable pub decode_all : Decoder → Option (List Instruction × Decoder)
decode_all d = decode_range 0 (length d.bytes) d
