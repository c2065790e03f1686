-- ===== src/Fpu/Forms.antt =====
-- What `decode_fpu` answers for the fields of a ModR/M byte, in both of its forms.
use linuxrecomp.Base.{
  ℕ, ◌+◌, ◌-◌, ◌*◌, ◌/◌, ◌%◌, ◌≤◌, ◌<◌, ◌≡◌, refl, String, Bool, true, false, ◌&&◌, Option, none,
  some, List, [], ◌∷◌, arith, if◌then◌else◌, ltb, ◌==◌, length, get_or, get_elem?, holds_below,
  holds_below_at,
}
use linuxrecomp.Fpu.{decode_fpu, decode_mem}
use linuxrecomp.Fpu.Tables.{FpuInstruction, mem_table}
use Prim.Native.String.{◌++◌}
use mathlib.Core.Path.{subst₂}
use text.Mathlib.Text.{◌==◌ as str_eq}
use text.Mathlib.TextEquality.{eq_iff}

-- No table has fewer than eight entries, so that a memory form is listed.
memory_listed :
    (opcode reg : ℕ)
    → 0xD8 ≤ opcode
    → opcode ≤ 0xDF
    → reg < 8
    → ltb reg (length (mem_table opcode)) ≡ true
unfolding mem_table
memory_listed opcode reg lo hi h = ground arith

-- The arithmetic operations, by the register field.
abbrev pub arithmetic : List String
arithmetic = "add" ∷ "mul" ∷ "com" ∷ "comp" ∷ "sub" ∷ "subr" ∷ "div" ∷ "divr" ∷ []

-- The loads and stores of the register fields 0, 2 and 3.
abbrev pub transfer : ℕ → Option String
transfer reg =
    if reg == 0
    then some "ld"
    else if reg == 2
    then some "st"
    else if reg == 3
    then some "stp"
    else none

-- The operation of an encoding: arithmetic for an even opcode, a load or store for an odd one.
abbrev pub operation : ℕ → ℕ → Option String
operation opcode reg = if opcode % 2 == 0 then get_elem? arithmetic reg else transfer reg

-- The four formats of an operand in memory, by the two bits above the lowest of the opcode: how the
-- mnemonic begins, and the size.
abbrev pub format : ℕ → String × String
format opcode =
    get_or (("f", "dword") ∷ ("fi", "dword") ∷ ("f", "qword") ∷ ("fi", "word") ∷ [])
      (opcode / 2 % 4) ("", "")

numeric_entry : ℕ → ℕ → Bool
unfolding mem_table
numeric_entry opcode reg =
    let entry = get_or (mem_table opcode) reg ("", "") in
    elim (operation opcode reg) [
      | none ↦ true
      | some op ↦ str_eq entry.0 ((format opcode).0 ++ op) && str_eq entry.1 (format opcode).1
    ]

numeric_checked : holds_below (λ k. numeric_entry (0xD8 + k / 8) (k % 8)) 64 ≡ true
unfolding numeric_entry holds_below
numeric_checked = refl

numeric_at :
    (opcode reg : ℕ) → 0xD8 ≤ opcode → opcode ≤ 0xDF → reg < 8 → numeric_entry opcode reg ≡ true
numeric_at opcode reg lo hi h =
    let k : ℕ = (opcode - 0xD8) * 8 + reg in
    let e₁ : 0xD8 + k / 8 ≡ opcode = omega arith in
    let e₂ : k % 8 ≡ reg = omega arith in
    subst₂ (λ (o r : ℕ). numeric_entry o r ≡ true) e₁ e₂
      (holds_below_at (λ k. numeric_entry (0xD8 + k / 8) (k % 8)) 64 k (omega arith)
        numeric_checked)

numeric_names :
    (opcode reg : ℕ) (op : String)
    → operation opcode reg ≡ some op
    → numeric_entry opcode reg ≡ true
    → ((get_or (mem_table opcode) reg ("", "")).0 ≡ (format opcode).0 ++ op)
      × ((get_or (mem_table opcode) reg ("", "")).1 ≡ (format opcode).1)
unfolding numeric_entry
numeric_names opcode reg op found h = ground (
  arith,
  eq_iff (get_or (mem_table opcode) reg ("", "")).0 ((format opcode).0 ++ op),
  eq_iff (get_or (mem_table opcode) reg ("", "")).1 (format opcode).1,
)

-- The numeric memory forms follow one scheme, which the decoder's tables keep to: the opcode's lowest
-- bit tells arithmetic from loads and stores, the two bits above it tell the format (32-bit real, 32-bit
-- integer, 64-bit real, 16-bit integer), and the register field the operation. The mnemonic is the
-- format's `f` or `fi` with the operation, and the size is the format's.
pub decode_fpu-operation :
    (opcode modrm md reg : ℕ) (mem_operand op : String)
    → 0xD8 ≤ opcode
    → opcode ≤ 0xDF
    → md < 3
    → reg < 8
    → operation opcode reg ≡ some op
    → (f : FpuInstruction) × (decode_fpu opcode modrm md reg mem_operand ≡ some f)
      × (f.is_memory ≡ true)
      × (f.mnemonic ≡ (format opcode).0 ++ op)
      × (f.mem_size ≡ (format opcode).1)
unfolding decode_fpu decode_mem
decode_fpu-operation opcode modrm md reg mem_operand op lo hi memory field found =
    let not_3 : (md == 3) ≡ false = ground arith in
    let (named, sized) = numeric_names opcode reg op found (numeric_at opcode reg lo hi field) in
    rw (not_3, memory_listed opcode reg lo hi field, decode_fpu) (_, refl, refl, named, sized)
