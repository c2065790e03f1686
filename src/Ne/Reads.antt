-- ===== src/Ne/Reads.antt =====
-- The reads of `parse_ne`: a byte of the data, and the little-endian fields of `struct.unpack_from`.
use linuxrecomp.Base.{ℕ, ◌+◌, ◌*◌, List, [], ◌∷◌, drop}
use linuxrecomp.Base.Raises.{Raises, raises, gives}
use linuxrecomp.Ne.{NeError, index_error, struct_error}

abbrev pub first_byte : List ℕ → Raises NeError ℕ
first_byte [] = raises index_error
first_byte (b ∷ bytes) = gives b

-- data[pos]
unfoldable pub byte_at : List ℕ → ℕ → Raises NeError ℕ
byte_at file pos = first_byte (drop pos file)

abbrev pub first_word : List ℕ → Raises NeError ℕ
first_word [] = raises struct_error
first_word (a ∷ []) = raises struct_error
first_word (a ∷ b ∷ bytes) = gives (a + b * 256)

-- struct.unpack_from("<H", data, pos)[0]
unfoldable pub word_at : List ℕ → ℕ → Raises NeError ℕ
word_at file pos = first_word (drop pos file)

abbrev pub first_dword : List ℕ → Raises NeError ℕ
first_dword [] = raises struct_error
first_dword (a ∷ []) = raises struct_error
first_dword (a ∷ b ∷ []) = raises struct_error
first_dword (a ∷ b ∷ c ∷ []) = raises struct_error
first_dword (a ∷ b ∷ c ∷ d ∷ bytes) = gives (a + b * 256 + c * 65536 + d * 0x1000000)

-- struct.unpack_from("<I", data, pos)[0]
unfoldable pub dword_at : List ℕ → ℕ → Raises NeError ℕ
dword_at file pos = first_dword (drop pos file)
