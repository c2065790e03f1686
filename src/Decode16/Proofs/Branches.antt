-- ===== src/Decode16/Proofs/Branches.antt =====
-- Relative branches: the target that `decode_one` computes.
use linuxrecomp.Base.{
  ℕ, ◌+◌, ◌*◌, ◌%◌, ◌<◌, ◌≡◌, refl, ap, ◌∙◌, ◌⊎◌, inl, inr, String, Bool, true, Option, none, some,
  List, ◌∷◌, arith, if◌then◌else◌, ◌==◌, drop,
}
use linuxrecomp.Base.Int.{pos, ◌+ℤ◌, wrap}
use linuxrecomp.Decode16.{Instruction, Decoder, near}
use linuxrecomp.Decode16.Reader.{◌>>=◌, pure, s16, signed16, near_target}
use linuxrecomp.Decode16.Operands.{rel16}
use linuxrecomp.Decode16.Arms.{choose, emit1, emit_rel16}
use linuxrecomp.Decode16.Arms.Alu.{alu_arms, stack_arms, group1_arms}
use linuxrecomp.Decode16.Arms.Moves.{mov_arms, string_arms, imm_arms}
use linuxrecomp.Decode16.Arms.Flow.{jcc_arms, int_arms, port_arms, group_arms}
use linuxrecomp.Decode16.Decode.{
  no_prefixes, prefix_step, opcode_arms, start_instruction, decode_one, unknown,
}
use linuxrecomp.Decode16.Proofs.Steps.{
  drop-get_elem?, bind_at, s16_at, without_prefixes, finished, decode_one_at, dispatch_at,
}

-- A sign-extended word added modulo 2 ^ 16 is the word added modulo 2 ^ 16.
wrap-signed16 : (p v : ℕ) → v < 65536 → wrap 65536 (pos p +ℤ signed16 v) ≡ (p + v) % 65536
unfolding wrap signed16 ◌+ℤ◌
wrap-signed16 p v h = ground arith

near_wrapped :
    (wrapping : Bool) (p v : ℕ)
    → wrapping ≡ true
    → v < 65536
    → near wrapping (pos p +ℤ signed16 v) ≡ pos ((p + v) % 65536)
unfolding near
near_wrapped wrapping p v on h = rw on (ap pos (wrap-signed16 p v h))

emit_rel16_at :
    (inst : Instruction) (m : String) (d : Decoder) (lo hi : ℕ) (rest : List ℕ)
    → d.wrap_near_targets ≡ true
    → lo < 256
    → hi < 256
    → drop d.pos d.bytes ≡ lo ∷ hi ∷ rest
    → emit_rel16 inst m d
      ≡ some (
        record inst {
          mnemonic = m;
          op1 = some (rel16 (pos ((d.pos + 1 + 1 + (lo + hi * 256)) % 65536)));
        },
        record d { pos = d.pos + 1 + 1 },
      )
unfolding emit_rel16 near_target pure emit1
emit_rel16_at inst m d lo hi rest wrapping l h left =
    bind_at s16 (λ rel. near_target rel >>= λ target. emit1 inst m (rel16 target)) d
      (s16_at d lo hi rest left)
    ∙ ap
        (λ target. some (
          record inst { mnemonic = m; op1 = some (rel16 target) },
          record d { pos = d.pos + 1 + 1 },
        ))
        (near_wrapped d.wrap_near_targets (d.pos + 1 + 1) (lo + hi * 256) wrapping (omega arith))

-- The instruction is a near branch with this name and target, and takes three bytes.
pub record IsNear (m : String) (target : ℕ) (d d' : Decoder) (i : Instruction) : Type 0 where
  pub mnemonic : i.mnemonic ≡ m
  pub op1 : i.op1 ≡ some (rel16 (pos target))
  pub op2 : i.op2 ≡ none
  pub length : i.length ≡ 3
  pub moved : d'.pos ≡ d.pos + 3

IsNear-branch :
    (opcode : ℕ) (m : String) (d : Decoder) (lo hi : ℕ) (rest : List ℕ)
    → d.wrap_near_targets ≡ true
    → lo < 256
    → hi < 256
    → drop d.pos d.bytes ≡ opcode ∷ lo ∷ hi ∷ rest
    → prefix_step opcode (some lo) no_prefixes ≡ none
    → choose
        (opcode_arms (start_instruction d no_prefixes) "" opcode)
        (unknown (start_instruction d no_prefixes) opcode)
      ≡ emit_rel16 (start_instruction d no_prefixes) m
    → (i : Instruction) × (d' : Decoder) × (decode_one d ≡ some (some i, d'))
      × IsNear m ((d.pos + 3 + (lo + hi * 256)) % 65536) d d' i
unfolding start_instruction
IsNear-branch opcode m d lo hi rest wrapping l h left plain chosen = (
  finished d.pos found after,
  after,
  decode_one_at d opcode (lo ∷ hi ∷ rest) found after left plain (
      dispatch_at (start_instruction d no_prefixes) (without_prefixes d) opcode (lo ∷ hi ∷ rest)
        (emit_rel16 (start_instruction d no_prefixes) m) left chosen
      ∙ emit_rel16_at (start_instruction d no_prefixes) m behind lo hi rest wrapping l h
          (drop-get_elem? d.bytes d.pos left).1),
  record {
    mnemonic = refl;
    op1 = ap (λ n. some (rel16 (pos ((n + (lo + hi * 256)) % 65536)))) three;
    op2 = refl;
    length = omega arith;
    moved = three;
  },
)
  where
    behind : Decoder
    behind = record (without_prefixes d) { pos = d.pos + 1 }

    after : Decoder
    after = record behind { pos = d.pos + 1 + 1 + 1 }

    found : Instruction
    found = record (start_instruction d no_prefixes) {
      mnemonic = m;
      op1 = some (rel16 (pos ((d.pos + 1 + 1 + 1 + (lo + hi * 256)) % 65536)));
    }

    three : d.pos + 1 + 1 + 1 ≡ d.pos + 3
    three = omega arith

near_arm :
    (inst : Instruction) (opcode : ℕ)
    → (opcode ≡ 0xE8) ⊎ (opcode ≡ 0xE9)
    → choose (opcode_arms inst "" opcode) (unknown inst opcode)
      ≡ emit_rel16 inst (if opcode == 0xE8 then "call" else "jmp")
unfolding choose opcode_arms alu_arms stack_arms jcc_arms group1_arms mov_arms string_arms imm_arms
    int_arms port_arms group_arms
near_arm inst opcode (inl call) = rw call refl
near_arm inst opcode (inr jmp) = rw jmp refl

near_is_no_prefix :
    (opcode : ℕ) (next : Option ℕ)
    → (opcode ≡ 0xE8) ⊎ (opcode ≡ 0xE9)
    → prefix_step opcode next no_prefixes ≡ none
unfolding prefix_step
near_is_no_prefix opcode next (inl call) = rw call refl
near_is_no_prefix opcode next (inr jmp) = rw jmp refl

-- A near `call` (0xE8) or `jmp` (0xE9) without prefixes, where targets wrap: it takes three bytes, and
-- its target is the address behind it plus the displacement word, modulo 2 ^ 16.
pub decode_one-IsNear :
    (d : Decoder) (opcode lo hi : ℕ) (rest : List ℕ)
    → d.wrap_near_targets ≡ true
    → lo < 256
    → hi < 256
    → (opcode ≡ 0xE8) ⊎ (opcode ≡ 0xE9)
    → drop d.pos d.bytes ≡ opcode ∷ lo ∷ hi ∷ rest
    → (i : Instruction) × (d' : Decoder) × (decode_one d ≡ some (some i, d'))
      × IsNear
          (if opcode == 0xE8 then "call" else "jmp")
          ((d.pos + 3 + (lo + hi * 256)) % 65536)
          d
          d'
          i
decode_one-IsNear d opcode lo hi rest wrapping l h near_opcode left =
    IsNear-branch opcode (if opcode == 0xE8 then "call" else "jmp") d lo hi rest wrapping l h left
      (near_is_no_prefix opcode (some lo) near_opcode)
      (near_arm (start_instruction d no_prefixes) opcode near_opcode)
