-- ===== src/Decode16/Proofs/Stamped.antt =====
-- About the arms of the dispatch: the address, the offset and the prefix fields that `decode_one` has
-- set before it.
use linuxrecomp.Base.{
  ℕ, String, ◌≡◌, refl, Bool, true, false, some, List, [], ◌∷◌, ◌++◌, arith, if◌then◌else◌,
}
use linuxrecomp.Base.Int.{ℤ}
use linuxrecomp.Decode16.{Operand, Instruction, Decoder}
use linuxrecomp.Decode16.Reader.{M, ◌>>=◌, pure}
use linuxrecomp.Decode16.Arms.{
  Arm, choose, emit0, emit1, emit2, emit3, emit_rm_reg, emit_reg_rm, emit_rm, emit_rel8, emit_rel16,
  emit_imm8,
}
use linuxrecomp.Decode16.Arms.Alu.{
  alu_form, group1, imul3, emit_wreg, emit_sized, alu_arms, stack_arms, group1_arms,
}
use linuxrecomp.Decode16.Arms.Moves.{
  mov_sreg, rm_imm, far_target, wreg_wimm, enter, emit_imm16, mov_arms, string_arms, imm_arms,
}
use linuxrecomp.Decode16.Arms.Flow.{out_imm8, group3, jcc_arms, port_arms, group_arms}
use linuxrecomp.Decode16.Arms.Extended.{move_extend, double_shift, long_nop, extended_arms}
use linuxrecomp.Decode16.Proofs.Forward.{bind-some}
use linuxrecomp.Decode16.Arms.Flow.{
  int_arms, shift_arm, esc, overlay_read, overlay, emit_byte, int_imm8,
}
use linuxrecomp.Decode16.Arms.Extended.{two_byte, resync}
use linuxrecomp.Decode16.Decode.{opcode_arms, unknown, dispatch}

pub record SameStamp (i j : Instruction) : Type 0 where
  pub offset : j.offset ≡ i.offset
  pub address : j.address ≡ i.address
  pub prefix : j.prefix ≡ i.prefix
  pub seg_override : j.seg_override ≡ i.seg_override

pub record Stamped (inst : Instruction) (m : M Instruction) : Type 0 where
  pub at : (d : Decoder) (i : Instruction) (d' : Decoder) → m d ≡ some (i, d') → SameStamp inst i

module _ (inst : Instruction) where
  Stamped-pure : (i : Instruction) → SameStamp inst i → Stamped inst (pure i)
  unfolding pure
  Stamped-pure i h = record { at = λ d j d' e. ground arith }

  Stamped-bind :
      {A : Type 0} (m : M A) (f : A → M Instruction)
      → ((a : A) → Stamped inst (f a))
      → Stamped inst (m >>= f)
  Stamped-bind m f h = record {
    at = λ d i d'' e. let (a, d', p, q) = bind-some m f d e in (h a).at d' i d'' q;
  }

  Stamped-bind-Stamped :
      (m : M Instruction) (f : Instruction → M Instruction)
      → Stamped inst m
      → ((i : Instruction) → SameStamp inst i → Stamped inst (f i))
      → Stamped inst (m >>= f)
  Stamped-bind-Stamped m f hm hf = record {
    at =
        λ d i d'' e. let (j, d', p, q) = bind-some m f d e in (hf j (hm.at d j d' p)).at d' i d'' q;
  }

  Stamped-if :
      (b : Bool) (m n : M Instruction)
      → Stamped inst m
      → Stamped inst n
      → Stamped inst (if b then m else n)
  Stamped-if true m n hm hn = hm
  Stamped-if false m n hm hn = hn

  Stamped-emit0 : (m : String) → Stamped inst (emit0 inst m)
  unfolding emit0
  Stamped-emit0 m =
      Stamped-pure _ (record { offset = refl; address = refl; prefix = refl; seg_override = refl })

  Stamped-emit1 : (m : String) (a : Operand) → Stamped inst (emit1 inst m a)
  unfolding emit1
  Stamped-emit1 m a =
      Stamped-pure _ (record { offset = refl; address = refl; prefix = refl; seg_override = refl })

  Stamped-emit2 : (m : String) (a b : Operand) → Stamped inst (emit2 inst m a b)
  unfolding emit2
  Stamped-emit2 m a b =
      Stamped-pure _ (record { offset = refl; address = refl; prefix = refl; seg_override = refl })

  Stamped-emit3 : (m : String) (a b c : Operand) → Stamped inst (emit3 inst m a b c)
  unfolding emit3
  Stamped-emit3 m a b c =
      Stamped-pure _ (record { offset = refl; address = refl; prefix = refl; seg_override = refl })

ruleset stamped_rules =
    (Stamped-bind, Stamped-if, Stamped-emit0, Stamped-emit1, Stamped-emit2, Stamped-emit3)

abbrev AllStamped : Instruction → List Arm → Type 0
AllStamped inst [] = Unit
AllStamped inst ((test, body) ∷ arms) = Stamped inst body × AllStamped inst arms

AllStamped-append :
    (inst : Instruction) (xs ys : List Arm)
    → AllStamped inst xs
    → AllStamped inst ys
    → AllStamped inst (xs ++ ys)
AllStamped-append inst [] ys h g = g
AllStamped-append inst ((test, body) ∷ xs) ys h g = (h.0, AllStamped-append inst xs ys h.1 g)

Stamped-choose :
    (inst : Instruction) (arms : List Arm) (otherwise : M Instruction)
    → AllStamped inst arms
    → Stamped inst otherwise
    → Stamped inst (choose arms otherwise)
unfolding choose
Stamped-choose inst [] otherwise h g = g
Stamped-choose inst ((test, body) ∷ arms) otherwise h g =
    Stamped-if inst test body (choose arms otherwise) h.0 (Stamped-choose inst arms otherwise h.1 g)

module _ (inst : Instruction) (seg : String) (opcode : ℕ) where
  alu_arms-Stamped : AllStamped inst (alu_arms inst seg opcode)
  unfolding alu_arms alu_form choose emit_rm_reg emit_reg_rm emit_imm8 emit_wreg
  alu_arms-Stamped = search stamped_rules depth 20

  stack_arms-Stamped : AllStamped inst (stack_arms inst seg opcode)
  unfolding stack_arms emit_sized imul3
  stack_arms-Stamped = search stamped_rules depth 20

  group1_arms-Stamped : AllStamped inst (group1_arms inst seg opcode)
  unfolding group1_arms group1 emit_rm_reg
  group1_arms-Stamped = search stamped_rules depth 20

  mov_arms-Stamped : AllStamped inst (mov_arms inst seg opcode)
  unfolding mov_arms emit_rm_reg emit_reg_rm mov_sreg emit_rm emit_sized far_target
  mov_arms-Stamped = search stamped_rules depth 20

  string_arms-Stamped : AllStamped inst (string_arms inst seg opcode)
  unfolding string_arms emit_sized emit_imm8 wreg_wimm
  string_arms-Stamped = search stamped_rules depth 20

  imm_arms-Stamped : AllStamped inst (imm_arms inst seg opcode)
  unfolding imm_arms emit_imm8 wreg_wimm rm_imm emit_imm16 emit_reg_rm enter
  imm_arms-Stamped = search stamped_rules depth 20

  jcc_arms-Stamped : AllStamped inst (jcc_arms inst seg opcode)
  unfolding jcc_arms emit_rel8
  jcc_arms-Stamped = search stamped_rules depth 20

  port_arms-Stamped : AllStamped inst (port_arms inst seg opcode)
  unfolding port_arms emit_imm8 out_imm8 emit_rel16 emit_rel8 far_target
  port_arms-Stamped = search stamped_rules depth 20

  group_arms-Stamped : AllStamped inst (group_arms inst seg opcode)
  unfolding group_arms group3 emit_rm
  group_arms-Stamped = search stamped_rules depth 20

  extended_arms-Stamped : AllStamped inst (extended_arms inst seg opcode)
  unfolding extended_arms emit_rel16 emit_rm emit_reg_rm emit_rm_reg move_extend rm_imm double_shift
      long_nop
  extended_arms-Stamped = search stamped_rules depth 20

-- The overlay fields are written after the rest.
SameStamp-overlay :
    (inst i : Instruction) (num : ℤ) (off : ℕ)
    → SameStamp inst i
    → SameStamp inst (record i { overlay_num = num; overlay_off = off })
SameStamp-overlay inst i num off h = record {
  offset = h.offset;
  address = h.address;
  prefix = h.prefix;
  seg_override = h.seg_override;
}

overlay_read-Stamped :
    (inst i : Instruction) (there : Bool) → SameStamp inst i → Stamped inst (overlay_read i there)
unfolding overlay_read
overlay_read-Stamped inst i true h = search (Stamped-bind, Stamped-pure, SameStamp-overlay)
overlay_read-Stamped inst i false h = Stamped-pure inst i h

int_imm8-Stamped : (inst : Instruction) (seg : String) → Stamped inst (int_imm8 inst seg)
unfolding int_imm8 overlay
int_imm8-Stamped inst seg =
    search (Stamped-bind, Stamped-bind-Stamped, Stamped-emit1, overlay_read-Stamped) depth 8

module _ (inst : Instruction) (seg : String) (opcode : ℕ) where
  int_arms-Stamped : AllStamped inst (int_arms inst seg opcode)
  unfolding int_arms shift_arm emit_byte esc emit_rel8
  int_arms-Stamped = search (stamped_rules, int_imm8-Stamped) depth 20

two_byte-Stamped : (inst : Instruction) (seg : String) → Stamped inst (two_byte inst seg)
unfolding two_byte resync
two_byte-Stamped inst seg =
    search (Stamped-bind, Stamped-choose, extended_arms-Stamped, Stamped-emit1)

-- The arms in their order, by the arms of each part.
opcode_arms-Stamped :
    (inst : Instruction) (seg : String) (opcode : ℕ) → AllStamped inst (opcode_arms inst seg opcode)
unfolding opcode_arms
opcode_arms-Stamped inst seg opcode =
    AllStamped-append inst _ _ (alu_arms-Stamped inst seg opcode) (
      AllStamped-append inst _ _ (stack_arms-Stamped inst seg opcode) (
        AllStamped-append inst _ _ (jcc_arms-Stamped inst seg opcode) (
          AllStamped-append inst _ _ (group1_arms-Stamped inst seg opcode) (
            AllStamped-append inst _ _ (mov_arms-Stamped inst seg opcode) (
              AllStamped-append inst _ _ (string_arms-Stamped inst seg opcode) (
                AllStamped-append inst _ _ (imm_arms-Stamped inst seg opcode) (
                  AllStamped-append inst _ _ (int_arms-Stamped inst seg opcode) (
                    AllStamped-append inst _ _ (port_arms-Stamped inst seg opcode) (
                      AllStamped-append inst _ _ (group_arms-Stamped inst seg opcode)
                        (two_byte-Stamped inst seg, tt))))))))))

pub dispatch-Stamped : (inst : Instruction) (seg : String) → Stamped inst (dispatch inst seg)
unfolding dispatch unknown
dispatch-Stamped inst seg =
    search (Stamped-bind, Stamped-choose, opcode_arms-Stamped, Stamped-emit1)
