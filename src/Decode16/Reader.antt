-- ===== src/Decode16/Reader.antt =====
-- The state-and-exception monad of the decoder, and its byte readers (`_u8` to `_s32`, `_near`).
-- `none` is `EndOfSegment`. The position that a failed read leaves behind is not kept: the one
-- handler, in `decode_range`, sets it back.
use linuxrecomp.Base.{ℕ, ◌+◌, ◌*◌, ◌-◌, Option, none, some, ltb, if◌then◌else◌, get_elem?}
use linuxrecomp.Base.Int.{ℤ, pos, sub_ℕ, ◌+ℤ◌}
use linuxrecomp.Decode16.{Decoder, near}

abbrev pub M : Type 0 → Type 0
M A = Decoder → Option (A × Decoder)

infixl 5 ◌>>=◌ ◌>>◌
abbrev pub ◌>>=◌ : {A B : Type 0} → M A → (A → M B) → M B
◌>>=◌ m f d = elim (m d) [ none ↦ none | some (a, d') ↦ f a d' ]

abbrev pub ◌>>◌ : {A B : Type 0} → M A → M B → M B
m >> k = m >>= λ _. k

unfoldable pub pure : {A : Type 0} → A → M A
pure a d = some (a, d)

-- A read of an attribute.
unfoldable pub gets : {A : Type 0} → (Decoder → A) → M A
gets f d = some (f d, d)

-- `_u8`
unfoldable pub u8 : M ℕ
u8 d = elim (get_elem? d.bytes d.pos) [
  | none ↦ none
  | some b ↦ some (b, record d { pos = d.pos + 1 })
]

-- `self.pos -= 1`
unfoldable pub unread : M (Unit {0})
unread d = some (tt, record d { pos = d.pos - 1 })

-- `b if b < 128 else b - 256`
unfoldable pub signed8 : ℕ → ℤ
signed8 b = if ltb b 128 then pos b else sub_ℕ b 256

-- `_s8`
unfoldable pub s8 : M ℤ
s8 = do b ← u8; pure (signed8 b)

-- `_u16`. The low byte is below 256, so `lo | (hi << 8)` is a sum.
unfoldable pub u16 : M ℕ
u16 = do lo ← u8; hi ← u8; pure (lo + hi * 256)

unfoldable pub signed16 : ℕ → ℤ
signed16 v = if ltb v 32768 then pos v else sub_ℕ v 65536

-- `_s16`
unfoldable pub s16 : M ℤ
s16 = do v ← u16; pure (signed16 v)

-- `_u32`
unfoldable pub u32 : M ℕ
u32 = do lo ← u16; hi ← u16; pure (lo + hi * 65536)

unfoldable pub signed32 : ℕ → ℤ
signed32 v = if ltb v 0x80000000 then pos v else sub_ℕ v 0x100000000

-- `_s32`
unfoldable pub s32 : M ℤ
s32 = do v ← u32; pure (signed32 v)

-- `_near(self.pos + rel)`, at the position after the displacement.
unfoldable pub near_target : ℤ → M ℤ
near_target rel d = some (near d.wrap_near_targets (pos d.pos +ℤ rel), d)
