-- ===== src/Decode16.antt =====
-- tools/disasm/decode16.py: the tables, the operand and instruction records, and the decoder's state.
-- A byte string is a list of numbers. The children hold the readers, the operand builders, the arms
-- of the opcode dispatch, the decode loops, and the proofs.
mod Kinds
pub mod Reader
pub mod Operands
pub mod Arms
pub mod Decode
pub mod Proofs
pub use Kinds.{OpType}
use linuxrecomp.Base.{
  ℕ, ◌%◌, String, Bool, true, false, Option, none, some, List, [], ◌∷◌, if◌then◌else◌,
}
use linuxrecomp.Base.Int.{ℤ, pos, negsuc, wrap}

-- EA_BASES: the base and index register of each r/m value.
unfoldable pub ea_bases : List (String × Option String)
ea_bases =
    ("bx", some "si")
    ∷ ("bx", some "di")
    ∷ ("bp", some "si")
    ∷ ("bp", some "di")
    ∷ ("si", none)
    ∷ ("di", none)
    ∷ ("bp", none)
    ∷ ("bx", none)
    ∷ []

-- EA_DEFAULT_SEG: the segment of each r/m value when no prefix names one.
unfoldable pub ea_default_seg : List String
ea_default_seg = "ds" ∷ "ds" ∷ "ss" ∷ "ss" ∷ "ds" ∷ "ds" ∷ "ss" ∷ "ds" ∷ []

pub record Operand : Type 0 where
  pub type : OpType
  pub reg : ℕ
  pub seg : String
  pub base : String
  pub index : String
  pub disp : ℤ
  pub size : ℕ
  pub far_seg : ℕ

-- `Operand()`, with the dataclass's defaults.
abbrev pub default_operand : Operand
default_operand = record {
  type = OpType.none;
  reg = 0;
  seg = "";
  base = "";
  index = "";
  disp = pos 0;
  size = 0;
  far_seg = 0;
}

pub record Instruction : Type 0 where
  pub offset : ℕ
  pub address : ℕ
  pub length : ℕ
  pub raw : List ℕ
  pub mnemonic : String
  pub op1 : Option Operand
  pub op2 : Option Operand
  pub op3 : Option Operand
  pub prefix : String
  pub seg_override : String
  pub overlay_num : ℤ
  pub overlay_off : ℕ

-- `Instruction()`, with the dataclass's defaults.
abbrev pub default_instruction : Instruction
default_instruction = record {
  offset = 0;
  address = 0;
  length = 0;
  raw = [];
  mnemonic = "";
  op1 = none;
  op2 = none;
  op3 = none;
  prefix = "";
  seg_override = "";
  overlay_num = negsuc 0;
  overlay_off = 0;
}

-- The `Decoder` object. `wrap_near_targets` is the module's flag WRAP_NEAR_TARGETS, which a project
-- sets once; `op32` and `addr32` are the attributes that `decode_one` sets from the prefixes.
pub record Decoder : Type 0 where
  pub bytes : List ℕ
  pub base : ℕ
  pub pos : ℕ
  pub op32 : Bool
  pub addr32 : Bool
  pub wrap_near_targets : Bool

-- `Decoder(data, base_offset)`
unfoldable pub new_decoder : Bool → List ℕ → ℕ → Decoder
new_decoder wrapping data_ base_offset = record {
  bytes = data_;
  base = base_offset;
  pos = 0;
  op32 = false;
  addr32 = false;
  wrap_near_targets = wrapping;
}

-- `_near`: a relative branch target, wrapped inside its segment or not.
unfoldable pub near : Bool → ℤ → ℤ
near wrapping target = if wrapping then pos (wrap 0x10000 target) else target
