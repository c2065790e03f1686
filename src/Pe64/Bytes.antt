-- ===== src/Pe64/Bytes.antt =====
-- Little-endian reads, as `struct.unpack_from` makes them, and the text up to a NUL byte.
use linuxrecomp.Base.{
  ℕ, zero, suc, ◌+◌, ◌*◌, ◌<◌, Option, none, some, List, [], ◌∷◌, if◌then◌else◌, leb, ◌==◌, length,
  slice,
}
use linuxrecomp.Pe64.{Result, guard, struct_error}

-- The number that little-endian bytes stand for.
unfoldable pub le_value : List ℕ → ℕ
le_value [] = 0
le_value (b ∷ bs) = b + 256 * le_value bs

-- The field of `width` bytes at `offset`, where they are known to be there.
unfoldable pub field : ℕ → List ℕ → ℕ → ℕ
field width bytes offset = le_value (slice bytes offset (offset + width))

abbrev pub u16_at : List ℕ → ℕ → ℕ
u16_at = field 2

abbrev pub u32_at : List ℕ → ℕ → ℕ
u32_at = field 4

abbrev pub u64_at : List ℕ → ℕ → ℕ
u64_at = field 8

-- `struct.unpack_from` of `size` bytes at `offset` raises where they are not all there.
unfoldable pub needs : List ℕ → ℕ → ℕ → Result (Unit {0})
needs bytes offset size = guard (leb (offset + size) (length bytes)) struct_error

-- The bytes up to the first NUL, within `limit` bytes.
unfoldable pub until_nul : ℕ → List ℕ → Option (List ℕ)
until_nul zero bytes = none
until_nul (suc limit) [] = none
until_nul (suc limit) (b ∷ bytes) =
    let rest = until_nul limit bytes in
    if b == 0 then some [] else elim rest [ none ↦ none | some name ↦ some (b ∷ name) ]

-- data.split(b"\x00", 1)[0]
unfoldable pub before_nul : List ℕ → List ℕ
before_nul [] = []
before_nul (b ∷ bytes) = if b == 0 then [] else b ∷ before_nul bytes

abbrev pub IsByte : ℕ → Type 0
IsByte b = b < 256
