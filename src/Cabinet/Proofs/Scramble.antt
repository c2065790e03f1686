-- ===== src/Cabinet/Proofs/Scramble.antt =====
-- The byte scramble: the scramble that `deobfuscate` undoes.
use Prim.Native.Nat.{bit_xor}
use linuxrecomp.Base.{
  ℕ, suc, ◌+◌, ◌*◌, ◌/◌, ◌%◌, ◌<◌, ◌≡◌, refl, true, Bool, ◌==◌, List, [], ◌∷◌, arith, length, All,
  holds_below, holds_below_at,
}
use linuxrecomp.Base.Int.{sub_ℕ, wrap}
use linuxrecomp.Pe64.Bytes.{IsByte}
use linuxrecomp.Cabinet.Scramble.{rotate, deobfuscate_byte, deobfuscate}

-- The inverse of `rotate` on bytes.
unfoldable pub rotate_back : ℕ → ℕ
rotate_back x = (x * 4 + x / 64) % 256

-- The byte that `deobfuscate_byte` turns into `b`.
unfoldable pub obfuscate_byte : ℕ → ℕ → ℕ
obfuscate_byte seed b = bit_xor (rotate_back ((b + seed % 0x47) % 256)) 0xD5

-- What the maker of a cabinet writes.
unfoldable pub obfuscate : List ℕ → ℕ → List ℕ
obfuscate [] seed = []
obfuscate (b ∷ buf) seed = obfuscate_byte seed b ∷ obfuscate buf (suc seed)

inverse_test : ℕ → Bool
inverse_test y = rotate (bit_xor (bit_xor (rotate_back y) 0xD5) 0xD5) == y

inverse_table : holds_below inverse_test 256 ≡ true
unfolding holds_below inverse_test rotate rotate_back
inverse_table = refl

rotate-rotate_back : (y : ℕ) → y < 256 → rotate (bit_xor (bit_xor (rotate_back y) 0xD5) 0xD5) ≡ y
unfolding inverse_test
rotate-rotate_back y h = ground (arith, holds_below_at inverse_test 256 y h inverse_table)

unshift : (b k : ℕ) → b < 256 → k < 71 → wrap 256 (sub_ℕ ((b + k) % 256) k) ≡ b
unfolding wrap
unshift b k hb hk = ground arith

pub deobfuscate_byte-obfuscate_byte :
    (seed b : ℕ) → b < 256 → deobfuscate_byte seed (obfuscate_byte seed b) ≡ b
unfolding deobfuscate_byte obfuscate_byte
deobfuscate_byte-obfuscate_byte seed b h =
    rw (rotate-rotate_back ((b + seed % 71) % 256) (omega arith))
      (unshift b (seed % 71) h (omega arith))

-- Unscrambling what was scrambled from the same seed gives the bytes, and the seed has moved on by
-- their number.
pub deobfuscate-obfuscate :
    (buf : List ℕ) (seed : ℕ)
    → All IsByte buf
    → deobfuscate (obfuscate buf seed) seed ≡ (buf, seed + length buf)
unfolding deobfuscate obfuscate
deobfuscate-obfuscate [] seed h = ground arith
deobfuscate-obfuscate (b ∷ buf) seed h =
    rw (deobfuscate-obfuscate buf (suc seed) h.1, deobfuscate_byte-obfuscate_byte seed b h.0)
      (ground arith)
