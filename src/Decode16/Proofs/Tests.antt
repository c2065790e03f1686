-- ===== src/Decode16/Proofs/Tests.antt =====
-- Runs of the sweep.
use linuxrecomp.Base.{
  refl, false, some, arith, inl, ℕ, ◌≡◌, ◌++◌, String, true, Option, none, some, List, [], ◌∷◌, map,
  All,
}
use linuxrecomp.Decode16.{Instruction, Decoder, new_decoder}
use linuxrecomp.Decode16.Operands.{decode_modrm, modrm_reg, reg16}
use linuxrecomp.Decode16.Arms.Flow.{cc_names}
use linuxrecomp.Decode16.Decode.{decode_one, decode_range, decode_all}
use linuxrecomp.Decode16.Proofs.ModRm.{indexed8, operand, decode_modrm-encode}
use linuxrecomp.Decode16.Proofs.Jumps.{IsShort, decode_one-IsShort}
use linuxrecomp.Decode16.Proofs.Branches.{IsNear, decode_one-IsNear}
use linuxrecomp.Decode16.Proofs.Progress.{IsPrefixByte}
use linuxrecomp.Decode16.Proofs.Tiling.{
  Tiles, Ended, raw_bytes, decode_range-Tiles, decode_all_covers,
}

abbrev mnemonics : Option (List Instruction × Decoder) → List String
mnemonics none = []
mnemonics (some r) = map (λ (i : Instruction). i.mnemonic) r.0

-- push bp; mov bp, sp; int 35h; pop es; a `mov` that is cut short, with a prefix byte behind it.
abbrev code : List ℕ
code = 0x55 ∷ 0x8B ∷ 0xEC ∷ 0xCD ∷ 0x35 ∷ 0x07 ∷ 0xC7 ∷ 0x66 ∷ []

abbrev decoder : Decoder
decoder = new_decoder true code 0x100

run : List String
run = mnemonics (decode_all decoder)

decode_range-Tiles_example :
    (is : List Instruction) × (d' : Decoder) × (e : ℕ) × (decode_range 1 6 decoder ≡ some (is, d'))
    × Tiles code 0x100 1 is e
    × Ended code 6 e d'.pos
unfolding new_decoder
decode_range-Tiles_example = decode_range-Tiles 1 6 decoder

decode_all_covers_example :
    (is : List Instruction) × (d' : Decoder) × (tail : List ℕ) × (decode_all decoder
      ≡ some (is, d'))
    × (raw_bytes is ++ tail ≡ code)
    × All IsPrefixByte tail
unfolding new_decoder
decode_all_covers_example = decode_all_covers decoder

-- mov cx, [bp+4]: its ModR/M byte and displacement.
abbrev local_variable : Decoder
local_variable = new_decoder true (0x4E ∷ 4 ∷ 0x90 ∷ []) 0

decode_modrm-encode_example :
    decode_modrm true "" local_variable
    ≡ some ((reg16 1, operand true false 2 "" (indexed8 6 4), 1), record local_variable { pos = 2 })
unfolding new_decoder modrm_reg
decode_modrm-encode_example =
    decode_modrm-encode true "" local_variable 1 (indexed8 6 4) (0x90 ∷ []) (omega arith)
      (omega arith) refl

-- A call backwards, to the address of the `call` itself.
abbrev back : Decoder
back = new_decoder true (0xE8 ∷ 0xFD ∷ 0xFF ∷ []) 0

decode_one-IsNear_example :
    (i : Instruction) × (d' : Decoder) × (decode_one back ≡ some (some i, d'))
    × IsNear "call" 0 back d' i
unfolding new_decoder
decode_one-IsNear_example =
    decode_one-IsNear back 0xE8 0xFD 0xFF [] refl (omega arith) (omega arith) (inl refl) refl

-- A jump back over itself and a byte in front of it.
abbrev jump_back : Decoder
jump_back = record (new_decoder true (0x90 ∷ 0x75 ∷ 0xFD ∷ []) 0) { pos = 1 }

decode_one-IsShort_example :
    (i : Instruction) × (d' : Decoder) × (decode_one jump_back ≡ some (some i, d'))
    × IsShort "jne" 0 jump_back d' i
unfolding new_decoder cc_names
decode_one-IsShort_example =
    decode_one-IsShort jump_back 5 0xFD [] refl (omega arith) (omega arith) refl
