-- ===== src/Ne/Proofs/Names.antt =====
-- Name tables as a linker writes them.
use linuxrecomp.Base.{
  ℕ, zero, suc, ◌+◌, ◌*◌, ◌-◌, ◌/◌, ◌%◌, ◌≤◌, ◌<◌, ◌≡◌, refl, ap, sym, ◌∙◌, true, false, ◌&&◌, List,
  [], ◌∷◌, ◌++◌, ltb, ◌==◌, length, take, drop, All, arith, length-append, length-drop, drop-drop,
}
use linuxrecomp.Base.Raises.{gives}
use linuxrecomp.Ne.Reads.{byte_at, word_at}
use linuxrecomp.Ne.Tables.{name_table, name_entry, enough, resident_names}

-- A name with its ordinal, in front of a text: the length, the name, and two bytes.
unfoldable pub name_bytes : List ℕ × ℕ → List ℕ → List ℕ
name_bytes (name, ordinal) tail = length name ∷ name ++ (ordinal % 256 ∷ ordinal / 256 ∷ tail)

-- A table, ended by a length of 0.
unfoldable pub names_bytes : List (List ℕ × ℕ) → List ℕ → List ℕ
names_bytes [] tail = 0 ∷ tail
names_bytes (entry ∷ names) tail = name_bytes entry (names_bytes names tail)

-- A name with at least one byte.
abbrev pub IsNamed : List ℕ × ℕ → Type 0
IsNamed (name, ordinal) = 0 < length name

drop_length : (xs ys : List ℕ) → drop (length xs) (xs ++ ys) ≡ ys
drop_length [] ys = refl
drop_length (x ∷ xs) ys = drop_length xs ys

take_length : (xs ys : List ℕ) → take (length xs) (xs ++ ys) ≡ xs
take_length [] ys = refl
take_length (x ∷ xs) ys = rw (take_length xs ys)

module _ (file : List ℕ) where
  -- A position with bytes at it is in the file.
  inside : (pos b : ℕ) (rest : List ℕ) → drop pos file ≡ b ∷ rest → pos < length file
  inside pos b rest at = ground (arith, ap length at, length-drop pos file)

  -- What is behind the front of a text.
  at_front :
      (pos : ℕ) (front rest : List ℕ)
      → drop pos file ≡ front ++ rest
      → drop (pos + length front) file ≡ rest
  at_front pos front rest at =
      sym (drop-drop pos (length front) file) ∙ ap (drop (length front)) at ∙ drop_length front rest

  name_entry-name_bytes :
      (pos : ℕ) (name : List ℕ) (ordinal : ℕ) (tail : List ℕ)
      → drop pos file ≡ name_bytes (name, ordinal) tail
      → (name_entry file pos (length name) ≡ gives (name, ordinal))
        × (drop (pos + 1 + length name + 2) file ≡ tail)
  unfolding name_entry name_bytes word_at
  name_entry-name_bytes pos name ordinal tail at =
      let n = length name in
      let at_name : drop (pos + 1) file ≡ name ++ (ordinal % 256 ∷ ordinal / 256 ∷ tail) =
        at_front pos (n ∷ []) _ at in
      let at_ordinal = at_front (pos + 1) name _ at_name in
      let at_end = at_front (pos + 1 + n) (ordinal % 256 ∷ ordinal / 256 ∷ []) tail at_ordinal in
      let length_n : pos + 1 + n - (pos + 1) ≡ n = omega arith in
      let value : ordinal % 256 + ordinal / 256 * 256 ≡ ordinal = omega arith in
      (
        rw (
          at_ordinal,
          at_name,
          length_n,
          take_length name (ordinal % 256 ∷ ordinal / 256 ∷ tail),
          value,
        ),
        at_end,
      )

  byte_known : (pos b : ℕ) (rest : List ℕ) → drop pos file ≡ b ∷ rest → byte_at file pos ≡ gives b
  unfolding byte_at
  byte_known pos b rest at = rw at

  going_on :
      (pos end b : ℕ) (rest : List ℕ)
      → drop pos file ≡ b ∷ rest
      → pos < end
      → ltb pos end && ltb pos (length file) ≡ true
  going_on pos end b rest at before = ground (arith, inside pos b rest at)

  name_table-names_bytes :
      (names : List (List ℕ × ℕ)) (fuel pos end : ℕ) (tail : List ℕ)
      → All IsNamed names
      → drop pos file ≡ names_bytes names tail
      → pos + length (names_bytes names []) ≤ end
      → length file < pos + fuel
      → name_table fuel file pos end ≡ gives names
  unfolding name_table names_bytes name_bytes
  name_table-names_bytes [] zero pos end tail h at fits some_fuel =
      absurd (omega (arith, inside pos 0 tail at))
  name_table-names_bytes [] (suc fuel) pos end tail h at fits some_fuel =
      rw (going_on pos end 0 tail at (omega arith), byte_known pos 0 tail at)
  name_table-names_bytes ((name, ordinal) ∷ names) zero pos end tail h at fits some_fuel =
      absurd (omega (arith, inside pos (length name) _ at))
  name_table-names_bytes ((name, ordinal) ∷ names) (suc fuel) pos end tail (h, hs) at fits
        some_fuel =
      let n = length name in
      let long = length-append name (ordinal % 256 ∷ ordinal / 256 ∷ names_bytes names []) in
      let (entry_read, at_next) =
        name_entry-name_bytes pos name ordinal (names_bytes names tail) at in
      let not_last : (n == 0) ≡ false = ground (arith, h) in
      let rest_read =
        name_table-names_bytes names fuel (pos + 1 + n + 2) end tail hs at_next
          (omega (arith, long)) (omega arith) in
      rw (
        going_on pos end n _ at (omega (arith, long)),
        byte_known pos n _ at,
        not_last,
        entry_read,
        rest_read,
      )

names_longer :
    (names : List (List ℕ × ℕ)) (tail : List ℕ)
    → (0 < length (names_bytes names []))
      × (length (names_bytes names []) ≤ length (names_bytes names tail))
unfolding names_bytes name_bytes
names_longer [] tail = (omega arith, omega arith)
names_longer ((name, ordinal) ∷ names) tail =
    let (some_bytes, more) = names_longer names tail in
    let short = length-append name (ordinal % 256 ∷ ordinal / 256 ∷ names_bytes names []) in
    let long = length-append name (ordinal % 256 ∷ ordinal / 256 ∷ names_bytes names tail) in
    (omega arith, omega (arith, more, short, long))

-- A table of names that each have a byte at least, ended by a 0, is read back with its ordinals, whatever
-- stands in front of it and behind it.
pub resident_names-names_bytes :
    (names : List (List ℕ × ℕ)) (front tail : List ℕ)
    → All IsNamed names
    → resident_names (front ++ names_bytes names tail) (length front) ≡ gives names
unfolding resident_names
resident_names-names_bytes names front tail h =
    let file = front ++ names_bytes names tail in
    let at = drop_length front (names_bytes names tail) in
    let (some_bytes, more) = names_longer names tail in
    name_table-names_bytes file names (enough file) (length front) (length file) tail h at
      (omega (arith, more, length-append front (names_bytes names tail))) (omega arith)
