-- ===== src/Decode16/Proofs/Jumps.antt =====
-- About the short conditional jumps of `decode_one`.
use linuxrecomp.Base.{
  ℕ, zero, suc, ◌+◌, ◌%◌, ◌<◌, ◌≡◌, refl, ap, ◌∙◌, String, Bool, true, Option, none, some, List,
  ◌∷◌, arith, if◌then◌else◌, ltb, ◌==◌, ==_iff, Bool-cases, inl, inr, sym, drop,
}
use mathlib.Core.Path.{subst}
use linuxrecomp.Base.Int.{pos, ◌+ℤ◌, wrap}
use linuxrecomp.Decode16.{Instruction, Decoder, near}
use linuxrecomp.Decode16.Reader.{◌>>=◌, pure, s8, signed8, near_target}
use linuxrecomp.Decode16.Operands.{rel8}
use linuxrecomp.Decode16.Arms.{choose, name_at, emit1, emit_rel8}
use linuxrecomp.Decode16.Arms.Alu.{alu_arms, stack_arms}
use linuxrecomp.Decode16.Arms.Flow.{cc_names, jcc_arms}
use linuxrecomp.Decode16.Decode.{
  no_prefixes, prefix_step, opcode_arms, start_instruction, decode_one, unknown,
}
use linuxrecomp.Decode16.Proofs.Steps.{
  drop-get_elem?, bind_at, s8_at, without_prefixes, finished, decode_one_at, dispatch_at,
}

-- The sign extension of a byte to a word.
abbrev pub extended : ℕ → ℕ
extended b = if ltb b 128 then b else b + 0xFF00

wrap-signed8 : (p b : ℕ) → b < 256 → wrap 65536 (pos p +ℤ signed8 b) ≡ (p + extended b) % 65536
unfolding wrap signed8 ◌+ℤ◌
wrap-signed8 p b h = ground arith

near_wrapped8 :
    (wrapping : Bool) (p b : ℕ)
    → wrapping ≡ true
    → b < 256
    → near wrapping (pos p +ℤ signed8 b) ≡ pos ((p + extended b) % 65536)
unfolding near
near_wrapped8 wrapping p b on h = rw on (ap pos (wrap-signed8 p b h))

emit_rel8_at :
    (inst : Instruction) (m : String) (d : Decoder) (b : ℕ) (rest : List ℕ)
    → d.wrap_near_targets ≡ true
    → b < 256
    → drop d.pos d.bytes ≡ b ∷ rest
    → emit_rel8 inst m d
      ≡ some (
        record inst { mnemonic = m; op1 = some (rel8 (pos ((d.pos + 1 + extended b) % 65536))) },
        record d { pos = d.pos + 1 },
      )
unfolding emit_rel8 near_target pure emit1
emit_rel8_at inst m d b rest wrapping h left =
    bind_at s8 (λ rel. near_target rel >>= λ target. emit1 inst m (rel8 target)) d
      (s8_at d b rest left)
    ∙ ap
        (λ target.
          some
            (record inst { mnemonic = m; op1 = some (rel8 target) }, record d { pos = d.pos + 1 }))
        (near_wrapped8 d.wrap_near_targets (d.pos + 1) b wrapping h)

-- A family of types, at every number below a limit.
abbrev EachBelow : (ℕ → Type 0) → ℕ → Type 0
EachBelow P zero = Unit
EachBelow P (suc n) = P n × EachBelow P n

EachBelow-at : (P : ℕ → Type 0) (n k : ℕ) → EachBelow P n → k < n → P k
EachBelow-at P zero k all lt = absurd (omega arith)
EachBelow-at P (suc n) k all lt = elim (Bool-cases (k == n)) [
  | inl same ↦ subst P (sym ((==_iff k n).0 same)) all.0
  | inr other ↦ EachBelow-at P n k all.1 (ground arith)
]

abbrev IsJccArm : Instruction → ℕ → Type 0
IsJccArm inst k =
    choose (opcode_arms inst "" (0x70 + k)) (unknown inst (0x70 + k))
    ≡ emit_rel8 inst (name_at cc_names k)

jcc_arms_at : (inst : Instruction) → EachBelow (IsJccArm inst) 16
unfolding choose opcode_arms alu_arms stack_arms jcc_arms
jcc_arms_at inst = (
  refl,
  (
    refl,
    (
      refl,
      (
        refl,
        (
          refl,
          (
            refl,
            (refl, (refl, (refl, (refl, (refl, (refl, (refl, (refl, (refl, (refl, tt)))))))))),
          ),
        ),
      ),
    ),
  ),
)

jcc_is_no_prefix :
    (k : ℕ) (next : Option ℕ) → k < 16 → prefix_step (0x70 + k) next no_prefixes ≡ none
unfolding prefix_step
jcc_is_no_prefix k next h = ground arith

-- The instruction is a short jump with this name and target, and takes two bytes.
pub record IsShort (m : String) (target : ℕ) (d d' : Decoder) (i : Instruction) : Type 0 where
  pub mnemonic : i.mnemonic ≡ m
  pub op1 : i.op1 ≡ some (rel8 (pos target))
  pub op2 : i.op2 ≡ none
  pub length : i.length ≡ 2
  pub moved : d'.pos ≡ d.pos + 2

-- A conditional jump 0x70 + k without prefixes, where targets wrap: it has the k-th condition, takes
-- two bytes, and its target is the address behind it plus the sign-extended displacement, modulo 2 ^ 16.
pub decode_one-IsShort :
    (d : Decoder) (k b : ℕ) (rest : List ℕ)
    → d.wrap_near_targets ≡ true
    → k < 16
    → b < 256
    → drop d.pos d.bytes ≡ (0x70 + k) ∷ b ∷ rest
    → (i : Instruction) × (d' : Decoder) × (decode_one d ≡ some (some i, d'))
      × IsShort (name_at cc_names k) ((d.pos + 2 + extended b) % 65536) d d' i
unfolding start_instruction
decode_one-IsShort d k b rest wrapping small h left = (
  finished d.pos found after,
  after,
  decode_one_at d (0x70 + k) (b ∷ rest) found after left (jcc_is_no_prefix k (some b) small) (
      dispatch_at inst (without_prefixes d) (0x70 + k) (b ∷ rest)
        (emit_rel8 inst (name_at cc_names k)) left
        (EachBelow-at (IsJccArm inst) 16 k (jcc_arms_at inst) small)
      ∙ emit_rel8_at inst (name_at cc_names k) behind b rest wrapping h
          (drop-get_elem? d.bytes d.pos left).1),
  record {
    mnemonic = refl;
    op1 = ap (λ n. some (rel8 (pos ((n + extended b) % 65536)))) two;
    op2 = refl;
    length = omega arith;
    moved = two;
  },
)
  where
    inst : Instruction
    inst = start_instruction d no_prefixes

    behind : Decoder
    behind = record (without_prefixes d) { pos = d.pos + 1 }

    after : Decoder
    after = record behind { pos = d.pos + 1 + 1 }

    found : Instruction
    found = record (start_instruction d no_prefixes) {
      mnemonic = name_at cc_names k;
      op1 = some (rel8 (pos ((d.pos + 1 + 1 + extended b) % 65536)));
    }

    two : d.pos + 1 + 1 ≡ d.pos + 2
    two = omega arith
