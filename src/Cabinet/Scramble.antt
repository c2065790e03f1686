-- ===== src/Cabinet/Scramble.antt =====
-- The byte scramble of InstallShield 6: `deobfuscate`.
use Prim.Native.Nat.{bit_xor}
use linuxrecomp.Base.{ℕ, suc, ◌+◌, ◌*◌, ◌/◌, ◌%◌, List, [], ◌∷◌}
use linuxrecomp.Base.Int.{sub_ℕ, wrap}

-- ror8 by 2. The two parts have no bit in common, so their `|` is a sum.
unfoldable pub rotate : ℕ → ℕ
rotate x = (x / 4 + x * 64) % 256

-- One round of the loop of `deobfuscate`.
unfoldable pub deobfuscate_byte : ℕ → ℕ → ℕ
deobfuscate_byte seed b = wrap 256 (sub_ℕ (rotate (bit_xor b 0xD5)) (seed % 0x47))

-- The bytes, and the seed behind them.
unfoldable pub deobfuscate : List ℕ → ℕ → List ℕ × ℕ
deobfuscate [] seed = ([], seed)
deobfuscate (b ∷ buf) seed =
    let (out, next) = deobfuscate buf (suc seed) in (deobfuscate_byte seed b ∷ out, next)
