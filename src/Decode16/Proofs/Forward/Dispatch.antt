-- ===== src/Decode16/Proofs/Forward/Dispatch.antt =====
-- About the other arms of the dispatch, and the dispatch itself: how far they move the position.
use linuxrecomp.Base.{ℕ, String, Bool, true, false}
use linuxrecomp.Decode16.{Operand, Instruction}
use linuxrecomp.Decode16.Reader.{M, ◌>>=◌, unread, u8}
use linuxrecomp.Decode16.Decode.{opcode_arms, unknown, dispatch}
use linuxrecomp.Decode16.Operands.{imm8}
use linuxrecomp.Decode16.Arms.Extended.{two_byte, resync}
use linuxrecomp.Decode16.Proofs.Forward.{
  Forward-u8, u8_step, bind-some, Forward-choose, AllForward-weaken, AllForward-append,
}
use linuxrecomp.Decode16.Proofs.Forward.Arms.{
  Forward-emit1, alu_arms-Forward, stack_arms-Forward, group1_arms-Forward,
}
use linuxrecomp.Base.{◌+◌, ◌-◌, ◌≤◌, ◌≡◌, ◌∙◌, ap, some, arith, length, get_elem?_lt}
use linuxrecomp.Decode16.{Decoder}
use linuxrecomp.Decode16.Arms.Moves.{
  mov_sreg, rm_imm, moffs_byte, moffs_wide, far_target, wreg_wimm, enter, emit_imm16, mov_arms,
  string_arms, imm_arms,
}
use linuxrecomp.Decode16.Arms.Flow.{
  overlay, overlay_read, int_imm8, shift_arm, emit_byte, esc, out_imm8, group3, jcc_arms, int_arms,
  port_arms, group_arms,
}
use linuxrecomp.Decode16.Arms.Extended.{move_extend, double_shift, long_nop, extended_arms}
use linuxrecomp.Decode16.Proofs.Forward.{Forward, AllForward}
use linuxrecomp.Decode16.Proofs.Forward.Arms.{forward_alu}

module _ (inst : Instruction) (seg : String) where
  mov_sreg-Forward : (load : Bool) → Forward 0 (mov_sreg inst seg load)
  unfolding mov_sreg
  mov_sreg-Forward load = search forward_alu depth 10

  rm_imm-Forward :
      (m : ℕ → String) (wide : Bool) (imm : M Operand)
      → Forward 0 imm
      → Forward 0 (rm_imm inst seg m wide imm)
  unfolding rm_imm
  rm_imm-Forward m wide imm h = search forward_alu depth 10

  moffs_byte-Forward : Forward 0 (moffs_byte inst seg)
  unfolding moffs_byte
  moffs_byte-Forward = search forward_alu

  moffs_wide-Forward : Forward 0 (moffs_wide inst seg)
  unfolding moffs_wide
  moffs_wide-Forward = search forward_alu

  far_target-Forward : (m : String) → Forward 0 (far_target inst seg m)
  unfolding far_target
  far_target-Forward m = search forward_alu

  wreg_wimm-Forward : (m : String) (r : ℕ) → Forward 0 (wreg_wimm inst seg m r)
  unfolding wreg_wimm
  wreg_wimm-Forward m r = search forward_alu

  enter-Forward : Forward 0 (enter inst seg)
  unfolding enter
  enter-Forward = search forward_alu

  emit_imm16-Forward : (m : String) → Forward 0 (emit_imm16 inst seg m)
  unfolding emit_imm16
  emit_imm16-Forward m = search forward_alu

ruleset forward_moves = (
  forward_alu, mov_sreg-Forward, rm_imm-Forward, moffs_byte-Forward, moffs_wide-Forward,
  far_target-Forward, wreg_wimm-Forward, enter-Forward, emit_imm16-Forward,
)

overlay_read-Forward : (i : Instruction) (there : Bool) → Forward 0 (overlay_read i there)
unfolding overlay_read
overlay_read-Forward i true = search forward_alu
overlay_read-Forward i false = search forward_alu

overlay-Forward : (n : ℕ) (i : Instruction) → Forward 0 (overlay n i)
unfolding overlay
overlay-Forward n i = search (forward_alu, overlay_read-Forward)

module _ (inst : Instruction) (seg : String) where
  int_imm8-Forward : Forward 0 (int_imm8 inst seg)
  unfolding int_imm8
  int_imm8-Forward = search (forward_alu, overlay-Forward)

  shift_arm-Forward : (opcode : ℕ) → Forward 0 (shift_arm inst seg opcode)
  unfolding shift_arm
  shift_arm-Forward opcode = search forward_alu depth 10

  emit_byte-Forward : (m : String) → Forward 0 (emit_byte inst seg m)
  unfolding emit_byte
  emit_byte-Forward m = search forward_alu

  esc-Forward : (opcode : ℕ) → Forward 0 (esc inst seg opcode)
  unfolding esc
  esc-Forward opcode = search forward_alu

  out_imm8-Forward : (b : Operand) → Forward 0 (out_imm8 inst seg b)
  unfolding out_imm8
  out_imm8-Forward b = search forward_alu

  group3-Forward : (wide : Bool) → Forward 0 (group3 inst seg wide)
  unfolding group3
  group3-Forward wide = search forward_moves depth 10

  move_extend-Forward : (op2b : ℕ) → Forward 0 (move_extend inst seg op2b)
  unfolding move_extend
  move_extend-Forward op2b = search forward_alu depth 10

  double_shift-Forward : (op2b : ℕ) → Forward 0 (double_shift inst seg op2b)
  unfolding double_shift
  double_shift-Forward op2b = search forward_alu depth 10

  long_nop-Forward : Forward 0 (long_nop inst seg)
  unfolding long_nop
  long_nop-Forward = search forward_alu

ruleset forward_flow = (
  forward_moves, int_imm8-Forward, shift_arm-Forward, emit_byte-Forward, esc-Forward,
  out_imm8-Forward, group3-Forward, move_extend-Forward, double_shift-Forward, long_nop-Forward,
)

module _ (inst : Instruction) (seg : String) (opcode : ℕ) where
  mov_arms-Forward : AllForward 0 (mov_arms inst seg opcode)
  unfolding mov_arms
  mov_arms-Forward = search forward_moves

  string_arms-Forward : AllForward 0 (string_arms inst seg opcode)
  unfolding string_arms
  string_arms-Forward = search forward_moves

  imm_arms-Forward : AllForward 0 (imm_arms inst seg opcode)
  unfolding imm_arms
  imm_arms-Forward = search forward_moves

  jcc_arms-Forward : AllForward 0 (jcc_arms inst seg opcode)
  unfolding jcc_arms
  jcc_arms-Forward = search forward_moves

  int_arms-Forward : AllForward 0 (int_arms inst seg opcode)
  unfolding int_arms
  int_arms-Forward = search forward_flow

  port_arms-Forward : AllForward 0 (port_arms inst seg opcode)
  unfolding port_arms
  port_arms-Forward = search forward_flow

  group_arms-Forward : AllForward 0 (group_arms inst seg opcode)
  unfolding group_arms
  group_arms-Forward = search forward_flow

  extended_arms-Forward : AllForward 0 (extended_arms inst seg opcode)
  unfolding extended_arms
  extended_arms-Forward = search forward_flow

-- A read that begins with a byte moves by it, less the slack of the rest.
u8-then :
    {B : Type 0} (k : ℕ) (f : ℕ → M B)
    → ((a : ℕ) → Forward k (f a))
    → (d : Decoder) (b : B) (d' : Decoder) → (u8 >>= f) d ≡ some (b, d')
    → (d'.bytes ≡ d.bytes)
      × (d'.base ≡ d.base)
      × (d.pos + 1 ≤ d'.pos + k)
      × (d'.pos ≤ length d.bytes)
u8-then k f h d b d' e =
    let (a, d₁, p, q) = bind-some u8 f d e in
    let r = (h a).at d₁ b d' q in
    let r₁ = Forward-u8.at d a d₁ p in
    let (found, moved) = u8_step d p in
    let step : d₁.pos ≡ d.pos + 1 = ap (λ (x : Decoder). x.pos) moved in
    let inside : d₁.pos ≤ length d₁.bytes =
      rw r₁.bytes (omega (arith, step, get_elem?_lt d.bytes d.pos found)) in
    (
      r.bytes ∙ r₁.bytes,
      r.base ∙ r₁.base,
      omega (arith, r.forward, step),
      rw (← r₁.bytes) (r.inside inside),
    )

resync-Forward : (inst : Instruction) (seg : String) → Forward 1 (resync inst seg)
unfolding resync unread
resync-Forward inst seg = record {
  at = λ d i d' e.
      let r = (Forward-emit1 inst "db" (imm8 0x0F)).at (record d { pos = d.pos - 1 }) i d' e in
      record {
        bytes = r.bytes;
        base = r.base;
        forward = omega (arith, r.forward);
        inside = λ h. r.inside (omega arith);
      };
}

two_byte-Forward : (inst : Instruction) (seg : String) → Forward 0 (two_byte inst seg)
unfolding two_byte
two_byte-Forward inst seg = record {
  at = λ d i d' e.
      let (p, q, r, s) =
        u8-then 1 _
          (λ op2b.
            Forward-choose _ _ (AllForward-weaken _ (extended_arms-Forward inst seg op2b))
              (resync-Forward inst seg))
          d i d' e in
      record { bytes = p; base = q; forward = omega (arith, r); inside = λ h. s };
}

opcode_arms-Forward :
    (inst : Instruction) (seg : String) (opcode : ℕ) → AllForward 0 (opcode_arms inst seg opcode)
unfolding opcode_arms
opcode_arms-Forward inst seg opcode = AllForward-append 0 _ _ (alu_arms-Forward inst seg opcode) (
    AllForward-append 0 _ _ (stack_arms-Forward inst seg opcode) (
      AllForward-append 0 _ _ (jcc_arms-Forward inst seg opcode) (
        AllForward-append 0 _ _ (group1_arms-Forward inst seg opcode) (
          AllForward-append 0 _ _ (mov_arms-Forward inst seg opcode) (
            AllForward-append 0 _ _ (string_arms-Forward inst seg opcode) (
              AllForward-append 0 _ _ (imm_arms-Forward inst seg opcode) (
                AllForward-append 0 _ _ (int_arms-Forward inst seg opcode) (
                  AllForward-append 0 _ _ (port_arms-Forward inst seg opcode) (
                    AllForward-append 0 _ _ (group_arms-Forward inst seg opcode)
                      (two_byte-Forward inst seg, tt))))))))))

-- The dispatch takes a byte at least, and stays inside the data.
pub dispatch_advances :
    (inst : Instruction) (seg : String) (d : Decoder) (i : Instruction) (d' : Decoder)
    → dispatch inst seg d ≡ some (i, d')
    → (d'.bytes ≡ d.bytes)
      × (d'.base ≡ d.base)
      × (d.pos + 1 ≤ d'.pos + 0)
      × (d'.pos ≤ length d.bytes)
unfolding dispatch unknown
dispatch_advances inst seg =
    u8-then 0 _
      (λ opcode. Forward-choose _ _ (opcode_arms-Forward inst seg opcode) (Forward-emit1 inst _ _))
