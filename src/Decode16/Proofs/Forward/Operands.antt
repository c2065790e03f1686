-- ===== src/Decode16/Proofs/Forward/Operands.antt =====
-- About the operand builders: how far they move the position.
use linuxrecomp.Base.{ℕ, String, Bool, true, false}
use linuxrecomp.Decode16.Operands.{wbytes, wreg, wimm, wimm_of, modrm_disp, modrm_rm, decode_modrm}
use linuxrecomp.Decode16.Proofs.Forward.{Forward, forward_reads}

pub Forward-wbytes : Forward 0 wbytes
unfolding wbytes
Forward-wbytes = search forward_reads

pub Forward-wreg : (r : ℕ) → Forward 0 (wreg r)
unfolding wreg
Forward-wreg r = search forward_reads

pub Forward-wimm_of : (wide : Bool) → Forward 0 (wimm_of wide)
unfolding wimm_of
Forward-wimm_of true = search forward_reads
Forward-wimm_of false = search forward_reads

pub Forward-wimm : Forward 0 wimm
unfolding wimm
Forward-wimm = search (forward_reads, Forward-wimm_of)

pub Forward-modrm_disp : (md rm : ℕ) → Forward 0 (modrm_disp md rm)
unfolding modrm_disp
Forward-modrm_disp md rm = search forward_reads depth 10

pub Forward-modrm_rm :
    (wide op32 : Bool) (seg : String) (md rm : ℕ) → Forward 0 (modrm_rm wide op32 seg md rm)
unfolding modrm_rm
Forward-modrm_rm wide op32 seg md rm = search (forward_reads, Forward-modrm_disp) depth 10

pub Forward-decode_modrm : (wide : Bool) (seg : String) → Forward 0 (decode_modrm wide seg)
unfolding decode_modrm
Forward-decode_modrm wide seg = search (forward_reads, Forward-modrm_rm) depth 10

pub ruleset forward_operands =
    (forward_reads, Forward-wbytes, Forward-wreg, Forward-wimm, Forward-decode_modrm)
