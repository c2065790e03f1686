-- ===== src/Fpu/Laws.antt =====
-- How the register forms of different ESC opcodes relate.
use linuxrecomp.Base.{
  none, zero, suc, Option, List, [], ◌∷◌, get_elem?, ap, refl, ℕ, ◌+◌, ◌-◌, ◌/◌, ◌%◌, ◌≤◌, ◌<◌, ◌≡◌,
  String, Bool, true, false, ◌&&◌, ◌||◌, some, arith, if◌then◌else◌, leb, ltb, ◌==◌, length, get_or,
  holds_below, holds_below_at, ◌⊎◌,
}
use linuxrecomp.Base.Int.{ℤ, pos, negsuc}
use linuxrecomp.Fpu.Tables.{FpuInstruction}
use linuxrecomp.Fpu.Registers.{
  op_of, named, to_top, from_top, d8_ops, dc_ops, de_ops, decode_reg_d8, decode_reg_dc,
  decode_reg_de,
}
use Prim.Native.String.{◌++◌}
use mathlib.Core.Path.{subst}
use text.Mathlib.Text.{◌==◌ as str_eq}
use text.Mathlib.TextEquality.{eq_iff}

-- A stack register: -1 for none, else 0 to 7.
abbrev pub IsSt : ℤ → Type 0
IsSt (pos i) = i < 8
IsSt (negsuc n) = n ≡ 0

-- An instruction on stack registers.
abbrev pub IsRegisterForm : FpuInstruction → Type 0
IsRegisterForm f = (f.is_memory ≡ false) × IsSt f.st_src × IsSt f.st_dst

-- The decoder raises nothing, and returns a register form.
abbrev pub Decodes : Option FpuInstruction → Type 0
Decodes none = ⊥
Decodes (some f) = IsRegisterForm f

get_elem?-get_or :
    (ops : List String) (i : ℕ) → i < length ops → get_elem? ops i ≡ some (get_or ops i "")
get_elem?-get_or [] i h = absurd (omega arith)
get_elem?-get_or (op ∷ ops) zero h = refl
get_elem?-get_or (op ∷ ops) (suc i) h = get_elem?-get_or ops i (omega arith)

module _ (b : ℕ) (lo : 0xC0 ≤ b) (hi : b ≤ 0xFF) where
  op_of-get_or :
      (ops : List String) → length ops ≡ 8 → op_of ops b ≡ some (get_or ops ((b - 0xC0) / 8) "")
  unfolding op_of
  op_of-get_or ops long =
      rw (in_range, op_of) (get_elem?-get_or ops ((b - 0xC0) / 8) (omega (arith, long)))
    where
      in_range : leb 0xC0 b ≡ true
      in_range = ground arith

  decode_reg_d8_lem : decode_reg_d8 b ≡ some (to_top (get_or d8_ops ((b - 0xC0) / 8) "") (b % 8))
  unfolding decode_reg_d8 d8_ops
  decode_reg_d8_lem = ap (λ op. named to_top op (b % 8)) (op_of-get_or d8_ops refl)

  decode_reg_dc_lem : decode_reg_dc b ≡ some (from_top (get_or dc_ops ((b - 0xC0) / 8) "") (b % 8))
  unfolding decode_reg_dc dc_ops
  decode_reg_dc_lem = ap (λ op. named from_top op (b % 8)) (op_of-get_or dc_ops refl)

  pub named-Decodes :
      (form : String → ℕ → FpuInstruction) (ops : List String)
      → length ops ≡ 8
      → ((op : String) → IsRegisterForm (form op (b % 8)))
      → Decodes (named form (op_of ops b) (b % 8))
  named-Decodes form ops long h = rw (op_of-get_or ops long) (h _)

  decode_reg_de_lem :
      (b == 0xD9) ≡ false
      → decode_reg_de b ≡ some (from_top (get_or de_ops ((b - 0xC0) / 8) "") (b % 8))
  unfolding decode_reg_de de_ops
  decode_reg_de_lem other =
      rw other (ap (λ op. named from_top op (b % 8)) (op_of-get_or de_ops refl))

-- b ^ 8 for the subtractions and divisions (0xE0 on), which DC encodes the other way round.
abbrev pub reversed : ℕ → ℕ
reversed b = if ltb b 0xE0 then b else if leb (b / 8 % 2) 0 then b + 8 else b - 8

same_reversed : ℕ → Bool
unfolding d8_ops dc_ops
same_reversed k =
    str_eq (get_or dc_ops (k / 8) "") (get_or d8_ops ((reversed (0xC0 + k) - 0xC0) / 8) "")

same_reversed_checked : holds_below same_reversed 64 ≡ true
unfolding same_reversed holds_below
same_reversed_checked = refl

reversed-in_range : (b : ℕ) → 0xC0 ≤ b → b ≤ 0xFF → (0xC0 ≤ reversed b) × (reversed b ≤ 0xFF)
reversed-in_range b lo hi = ground arith

-- DC is D8 with the operands exchanged: both decode every byte of mod 3, with the same mnemonic, but
-- for the reversed subtractions and divisions, and each operand register in the other's place.
pub dc_reverses_d8 :
    (b : ℕ)
    → 0xC0 ≤ b
    → b ≤ 0xFF
    → (dc d8 reversed_d8 : FpuInstruction) × (decode_reg_dc b ≡ some dc)
      × (decode_reg_d8 b ≡ some d8)
      × (decode_reg_d8 (reversed b) ≡ some reversed_d8)
      × (dc.mnemonic ≡ reversed_d8.mnemonic)
      × (dc.st_src ≡ d8.st_dst)
      × (dc.st_dst ≡ d8.st_src)
dc_reverses_d8 b lo hi =
    let e : 0xC0 + (b - 0xC0) ≡ b = omega arith in
    let checked = holds_below_at same_reversed 64 (b - 0xC0) (omega arith) same_reversed_checked in
    let named =
      subst
        (λ (c : ℕ).
          str_eq (get_or dc_ops ((b - 0xC0) / 8) "") (get_or d8_ops ((reversed c - 0xC0) / 8) "")
          ≡ true)
        e (unfold same_reversed in checked) in
    let (lo', hi') = reversed-in_range b lo hi in
    (
      _,
      _,
      _,
      decode_reg_dc_lem b lo hi,
      decode_reg_d8_lem b lo hi,
      decode_reg_d8_lem (reversed b) lo' hi',
      (eq_iff _ _).0 named,
      refl,
      refl,
    )

same_popping : ℕ → Bool
unfolding dc_ops de_ops
same_popping k =
    (leb 0x10 k && leb k 0x1F)
    || str_eq (get_or de_ops (k / 8) "") (get_or dc_ops (k / 8) "" ++ "p")

same_popping_checked : holds_below same_popping 64 ≡ true
unfolding same_popping holds_below
same_popping_checked = refl

popping_of :
    (k : ℕ)
    → (k < 0x10) ⊎ (0x1F < k)
    → same_popping k ≡ true
    → str_eq (get_or de_ops (k / 8) "") (get_or dc_ops (k / 8) "" ++ "p") ≡ true
unfolding same_popping
popping_of k out h = ground arith

-- DE is DC with a pop: both decode every byte of mod 3, and outside the comparisons (0xD0 to 0xDF) the
-- mnemonic is that of DC with a `p`, and the operands are those of DC.
pub de_pops_dc :
    (b : ℕ)
    → 0xC0 ≤ b
    → b ≤ 0xFF
    → (b < 0xD0) ⊎ (0xDF < b)
    → (de dc : FpuInstruction) × (decode_reg_de b ≡ some de)
      × (decode_reg_dc b ≡ some dc)
      × (de.mnemonic ≡ dc.mnemonic ++ "p")
      × (de.operand ≡ dc.operand)
      × (de.st_src ≡ dc.st_src)
      × (de.st_dst ≡ dc.st_dst)
de_pops_dc b lo hi out =
    let checked = holds_below_at same_popping 64 (b - 0xC0) (omega arith) same_popping_checked in
    (
      _,
      _,
      decode_reg_de_lem b lo hi (ground arith),
      decode_reg_dc_lem b lo hi,
      (eq_iff _ _).0 (popping_of (b - 0xC0) (omega arith) checked),
      refl,
      refl,
      refl,
    )
