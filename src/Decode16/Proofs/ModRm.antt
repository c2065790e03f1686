-- ===== src/Decode16/Proofs/ModRm.antt =====
-- About `_decode_modrm`, against an encoder of operands.
use linuxrecomp.Base.{
  ℕ, ◌+◌, ◌*◌, ◌/◌, ◌%◌, ◌<◌, ◌≡◌, ◌≢◌, refl, ap, ◌∙◌, String, Bool, false, ◌&&◌, none, some, List,
  [], ◌∷◌, ◌++◌, arith, if◌then◌else◌, ◌==◌, length, drop, get_or,
}
use mathlib.Core.Path.{ap₂}
use linuxrecomp.Base.Int.{ℤ, pos}
use linuxrecomp.Decode16.{Operand, Decoder, default_operand, ea_bases, ea_default_seg}
use linuxrecomp.Decode16.Kinds.{OpType}
use linuxrecomp.Decode16.Reader.{M, ◌>>=◌, pure, gets, u8, u16, signed8, signed16}
use linuxrecomp.Decode16.Operands.{
  modrm_reg, is_direct, modrm_disp, modrm_mem, modrm_rm, decode_modrm, text_or,
}
use mathlib.Core.Option.{get_or as option_or}
use linuxrecomp.Decode16.Proofs.Steps.{drop-get_elem?, bind_at, u8_at, u16_at, s8_at, s16_at}

-- An operand of the r/m field: a register, an absolute address (its two bytes), or a base with no
-- displacement, a byte of it, or a word of it.
pub data Ea : Type 0 where
  in_register : ℕ → Ea
  absolute : ℕ → ℕ → Ea
  indexed : ℕ → Ea
  indexed8 : ℕ → ℕ → Ea
  indexed16 : ℕ → ℕ → ℕ → Ea

-- The fields fit; base 6 without a displacement is the absolute address instead.
abbrev pub IsEa : Ea → Type 0
IsEa (in_register r) = r < 8
IsEa (absolute lo hi) = Unit
IsEa (indexed rm) = (rm < 8) × (rm ≢ 6)
IsEa (indexed8 rm b) = rm < 8
IsEa (indexed16 rm lo hi) = rm < 8

-- The ModR/M byte of a register field and an operand, with its displacement.
abbrev pub encode : ℕ → Ea → List ℕ
encode reg (in_register r) = (192 + reg * 8 + r) ∷ []
encode reg (absolute lo hi) = (reg * 8 + 6) ∷ lo ∷ hi ∷ []
encode reg (indexed rm) = (reg * 8 + rm) ∷ []
encode reg (indexed8 rm b) = (64 + reg * 8 + rm) ∷ b ∷ []
encode reg (indexed16 rm lo hi) = (128 + reg * 8 + rm) ∷ lo ∷ hi ∷ []

abbrev memory_at : ℕ → String → ℕ → ℤ → Operand
memory_at n seg rm disp =
    let bases = get_or ea_bases rm ("", none) in
    record default_operand {
      type = OpType.mem;
      base = bases.0;
      index = option_or bases.1 "";
      disp = disp;
      seg = text_or seg (get_or ea_default_seg rm "");
      size = n;
    }

-- The operand, of `n` bytes where it is in memory.
abbrev pub operand : Bool → Bool → ℕ → String → Ea → Operand
operand wide op32 n seg (in_register r) = modrm_reg wide op32 r
operand wide op32 n seg (absolute lo hi) = record default_operand {
  type = OpType.mem;
  disp = pos (lo + hi * 256);
  seg = text_or seg "ds";
  size = n;
}
operand wide op32 n seg (indexed rm) = memory_at n seg rm (pos 0)
operand wide op32 n seg (indexed8 rm b) = memory_at n seg rm (signed8 b)
operand wide op32 n seg (indexed16 rm lo hi) = memory_at n seg rm (signed16 (lo + hi * 256))

abbrev pub operand_size : Bool → Bool → ℕ
operand_size wide op32 = if wide then (if op32 then 4 else 2) else 1

decode_modrm_at :
    (wide : Bool) (seg : String) (d : Decoder) (md reg rm : ℕ) (rest : List ℕ) (rm_op : Operand)
    (d' : Decoder)
    → md < 4
    → reg < 8
    → rm < 8
    → drop d.pos d.bytes ≡ (md * 64 + reg * 8 + rm) ∷ rest
    → modrm_rm wide (wide && d.op32) seg md rm (record d { pos = d.pos + 1 }) ≡ some (rm_op, d')
    → decode_modrm wide seg d ≡ some ((modrm_reg wide (wide && d.op32) reg, rm_op, reg), d')
unfolding decode_modrm gets pure
decode_modrm_at wide seg d md reg rm rest rm_op d' m r n left ran =
    bind_at u8 behind d (u8_at d b rest left)
    ∙ ap (λ md'. fields md' (b / 8 % 8) (b % 8) (record d { pos = d.pos + 1 })) e₁
    ∙ ap₂ (λ reg' rm'. fields md reg' rm' (record d { pos = d.pos + 1 })) e₂ e₃
    ∙ bind_at (modrm_rm wide (wide && d.op32) seg md rm)
        (λ rm_op. pure (modrm_reg wide (wide && d.op32) reg, rm_op, reg))
        (record d { pos = d.pos + 1 }) ran
  where
    b : ℕ
    b = md * 64 + reg * 8 + rm

    fields : ℕ → ℕ → ℕ → M (Operand × Operand × ℕ)
    fields md' reg' rm' = modrm_rm wide (wide && d.op32) seg md' rm' >>= λ op.
        pure (modrm_reg wide (wide && d.op32) reg', op, reg')

    behind : ℕ → M (Operand × Operand × ℕ)
    behind modrm = fields (modrm / 64 % 4) (modrm / 8 % 8) (modrm % 8)

    e₁ : b / 64 % 4 ≡ md
    e₁ = omega arith

    e₂ : b / 8 % 8 ≡ reg
    e₂ = omega arith

    e₃ : b % 8 ≡ rm
    e₃ = omega arith

not_direct : (rm : ℕ) → rm ≢ 6 → is_direct 0 rm ≡ false
unfolding is_direct
not_direct rm h = ground arith

modrm_disp_zero : (rm : ℕ) (d : Decoder) → rm ≢ 6 → modrm_disp 0 rm d ≡ some (pos 0, d)
unfolding modrm_disp pure
modrm_disp_zero rm d h = rw (not_direct rm h, modrm_disp) refl

modrm_mem_zero :
    (rm n : ℕ) (seg : String) (disp : ℤ)
    → rm ≢ 6
    → modrm_mem 0 rm n seg disp ≡ memory_at n seg rm disp
unfolding modrm_mem
modrm_mem_zero rm n seg disp h = rw (not_direct rm h, modrm_mem) refl

memory_form :
    (wide : Bool) (seg : String) (d : Decoder) (md reg rm byte : ℕ) (rest : List ℕ) (disp : ℤ)
    (p q : ℕ)
    → md < 3
    → reg < 8
    → rm < 8
    → byte ≡ md * 64 + reg * 8 + rm
    → drop d.pos d.bytes ≡ byte ∷ rest
    → modrm_disp md rm (record d { pos = d.pos + 1 }) ≡ some (disp, record d { pos = p })
    → p ≡ q
    → decode_modrm wide seg d
      ≡ some (
        (
          modrm_reg wide (wide && d.op32) reg,
          modrm_mem md rm (operand_size wide (wide && d.op32)) seg disp,
          reg,
        ),
        record d { pos = q },
      )
unfolding modrm_rm pure
memory_form wide seg d md reg rm byte rest disp p q m r n is_byte left read there =
    decode_modrm_at wide seg d md reg rm rest _ (record d { pos = p }) (omega arith) r n
      (left ∙ ap (λ b. b ∷ rest) is_byte)
      (rw no_register (
        bind_at (modrm_disp md rm)
          (λ z. pure (modrm_mem md rm (operand_size wide (wide && d.op32)) seg z))
          (record d { pos = d.pos + 1 }) read))
    ∙ ap
        (λ k. some (
          (
            modrm_reg wide (wide && d.op32) reg,
            modrm_mem md rm (operand_size wide (wide && d.op32)) seg disp,
            reg,
          ),
          record d { pos = k },
        ))
        there
  where
    no_register : (md == 3) ≡ false
    no_register = ground arith

-- What `_decode_modrm` reads of an encoded operand: the register field, and the operand with its
-- segment (the override, else the default of its base), whatever the sizes; it takes the encoding.
pub decode_modrm-encode :
    (wide : Bool) (seg : String) (d : Decoder) (reg : ℕ) (ea : Ea) (rest : List ℕ)
    → reg < 8
    → IsEa ea
    → drop d.pos d.bytes ≡ encode reg ea ++ rest
    → decode_modrm wide seg d
      ≡ some (
        (
          modrm_reg wide (wide && d.op32) reg,
          operand wide (wide && d.op32) (operand_size wide (wide && d.op32)) seg ea,
          reg,
        ),
        record d { pos = d.pos + length (encode reg ea) },
      )
unfolding modrm_rm modrm_disp modrm_mem is_direct pure
decode_modrm-encode wide seg d reg (in_register r) rest n fit left =
    decode_modrm_at wide seg d 3 reg r rest _ _ (omega arith) n fit left refl
decode_modrm-encode wide seg d reg (absolute lo hi) rest n fit left =
    memory_form wide seg d 0 reg 6 (reg * 8 + 6) (lo ∷ hi ∷ rest) (pos (lo + hi * 256))
      (d.pos + 1 + 1 + 1) (d.pos + 3) (omega arith) n (omega arith) (omega arith) left
      (bind_at u16 (λ v. pure (pos v)) (record d { pos = d.pos + 1 })
        (u16_at (record d { pos = d.pos + 1 }) lo hi rest (drop-get_elem? d.bytes d.pos left).1))
      (omega arith)
decode_modrm-encode wide seg d reg (indexed rm) rest n (small, based) left =
    memory_form wide seg d 0 reg rm (reg * 8 + rm) rest (pos 0) (d.pos + 1) (d.pos + 1)
      (omega arith) n small (omega arith) left
      (modrm_disp_zero rm (record d { pos = d.pos + 1 }) based) refl
    ∙ ap (λ op. some ((modrm_reg wide (wide && d.op32) reg, op, reg), record d { pos = d.pos + 1 }))
        (modrm_mem_zero rm (operand_size wide (wide && d.op32)) seg (pos 0) based)
decode_modrm-encode wide seg d reg (indexed8 rm b) rest n fit left =
    memory_form wide seg d 1 reg rm (64 + reg * 8 + rm) (b ∷ rest) (signed8 b) (d.pos + 1 + 1)
      (d.pos + 2) (omega arith) n fit (omega arith) left
      (s8_at (record d { pos = d.pos + 1 }) b rest (drop-get_elem? d.bytes d.pos left).1)
      (omega arith)
decode_modrm-encode wide seg d reg (indexed16 rm lo hi) rest n fit left =
    memory_form wide seg d 2 reg rm (128 + reg * 8 + rm) (lo ∷ hi ∷ rest) (signed16 (lo + hi * 256))
      (d.pos + 1 + 1 + 1) (d.pos + 3) (omega arith) n fit (omega arith) left
      (s16_at (record d { pos = d.pos + 1 }) lo hi rest (drop-get_elem? d.bytes d.pos left).1)
      (omega arith)
