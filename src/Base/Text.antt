-- ===== src/Base/Text.antt =====
-- Python's texts as lists of character codes, and the tests and rewritings on them that the tools use.
use Prim.Native.String.{String, [], ◌∷◌}
use Prim.Native.Char.{code}
use Prim.Native.Nat.{ℕ, zero, suc, ◌+◌, ◌/◌, ◌%◌}
use mathlib.Core.Bool.{Bool, true, false, ◌&&◌, ◌||◌}
use mathlib.Core.List as L
use mathlib.Core.Path.{◌≡◌, refl}
use native.Mathlib.Omega.{arith}
use linuxrecomp.Base.Tests.{if◌then◌else◌, leb, ltb, ◌==◌}

abbrev pub codes : String → L.List ℕ
codes [] = L.[]
codes (c ∷ s) = L.◌∷◌ (code c) (codes s)

-- a == b, on texts
abbrev pub same_text : L.List ℕ → L.List ℕ → Bool
same_text L.[] L.[] = true
same_text L.[] (L.◌∷◌ y ys) = false
same_text (L.◌∷◌ x xs) L.[] = false
same_text (L.◌∷◌ x xs) (L.◌∷◌ y ys) = x == y && same_text xs ys

-- text in texts
abbrev pub is_member : L.List ℕ → L.List (L.List ℕ) → Bool
is_member text L.[] = false
is_member text (L.◌∷◌ t texts) = same_text text t || is_member text texts

-- An ASCII digit.
abbrev pub is_digit : ℕ → Bool
is_digit c = leb 48 c && leb c 57

-- The character `_`.
abbrev pub underscore : ℕ
underscore = 95

-- An ASCII letter.
abbrev pub is_letter : ℕ → Bool
is_letter c = (leb 65 c && leb c 90) || (leb 97 c && leb c 122)

pub same_text_refl : (xs : L.List ℕ) → same_text xs xs ≡ true
same_text_refl L.[] = refl
same_text_refl (L.◌∷◌ x xs) = ground (arith, same_text_refl xs)

-- The digit `d` of a hexadecimal number, in capitals.
abbrev hex_digit : ℕ → ℕ
hex_digit d = if ltb d 10 then 48 + d else 55 + d

-- The last `width` hexadecimal digits of a number, in front of a text.
abbrev pub hex_digits : ℕ → ℕ → L.List ℕ → L.List ℕ
hex_digits zero n text = text
hex_digits (suc width) n text = hex_digits width (n / 16) (L.◌∷◌ (hex_digit (n % 16)) text)

-- The hexadecimal digits of a number, as many as there are, in front of a text. The fuel is the
-- number of rounds at most.
abbrev pub hex_front : ℕ → ℕ → L.List ℕ → L.List ℕ
hex_front zero n text = text
hex_front (suc fuel) n text =
    if n == 0 then text else hex_front fuel (n / 16) (L.◌∷◌ (hex_digit (n % 16)) text)

-- f"{n:08X}"
abbrev pub hex8 : ℕ → L.List ℕ
hex8 n = hex_front (n / 0x100000000) (n / 0x100000000) (hex_digits 8 n L.[])
