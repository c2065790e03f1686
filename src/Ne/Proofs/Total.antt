-- ===== src/Ne/Proofs/Total.antt =====
-- How the readers of the tables of an NE file end.
use linuxrecomp.Base.{
  ℕ, zero, suc, ◌+◌, ◌-◌, ◌<◌, Bool, true, false, ◌&&◌, List, [], ◌∷◌, if◌then◌else◌, ltb, ◌==◌,
  length, drop, arith, Bool-cases, inl, inr,
}
use linuxrecomp.Base.Raises.{Raises, raises, gives, ◌>>=◌, Gives}
use linuxrecomp.Ne.{NeError, not_mz, invalid_offset, not_ne, index_error, struct_error, out_of_fuel}
use linuxrecomp.Ne.Reads.{byte_at, word_at, dword_at, first_byte, first_word, first_dword}
use linuxrecomp.Ne.Segments.{
  relocation_at, relocations_from, relocations_of, segment_at, segments_from,
}
use linuxrecomp.Ne.Tables.{with_module, modules_from, name_entry, name_table}

-- An error of the reader, not the want of fuel.
abbrev pub IsRefusal : NeError → Type 0
IsRefusal not_mz = Unit
IsRefusal invalid_offset = Unit
IsRefusal not_ne = Unit
IsRefusal index_error = Unit
IsRefusal struct_error = Unit
IsRefusal out_of_fuel = ⊥

abbrev pub Anything {ℓ} : {A : Type ℓ} → A → Type 0
Anything a = Unit

-- The computation ends.
abbrev pub Stops {ℓ} : {A : Type ℓ} → Raises NeError A → Type 0
Stops x = Gives IsRefusal Anything x

pub then_Stops {ℓ κ} :
    {A : Type ℓ} {B : Type κ} (x : Raises NeError A) (next : A → Raises NeError B)
    → Stops x
    → ((a : A) → Stops (next a))
    → Stops (x >>= next)
then_Stops (raises error) next h rest = h
then_Stops (gives a) next h rest = rest a

pub if-Stops {ℓ} :
    {A : Type ℓ} (b : Bool) (x y : Raises NeError A)
    → Stops x
    → Stops y
    → Stops (if b then x else y)
if-Stops true x y hx hy = hx
if-Stops false x y hx hy = hy

pub byte_at-Stops : (file : List ℕ) (pos : ℕ) → Stops (byte_at file pos)
unfolding byte_at
byte_at-Stops file pos = first (drop pos file)
  where
    first : (bytes : List ℕ) → Stops (first_byte bytes)
    first [] = tt
    first (b ∷ bytes) = tt

pub word_at-Stops : (file : List ℕ) (pos : ℕ) → Stops (word_at file pos)
unfolding word_at
word_at-Stops file pos = first (drop pos file)
  where
    first : (bytes : List ℕ) → Stops (first_word bytes)
    first [] = tt
    first (a ∷ []) = tt
    first (a ∷ b ∷ bytes) = tt

pub dword_at-Stops : (file : List ℕ) (pos : ℕ) → Stops (dword_at file pos)
unfolding dword_at
dword_at-Stops file pos = first (drop pos file)
  where
    first : (bytes : List ℕ) → Stops (first_dword bytes)
    first [] = tt
    first (a ∷ []) = tt
    first (a ∷ b ∷ []) = tt
    first (a ∷ b ∷ c ∷ []) = tt
    first (a ∷ b ∷ c ∷ d ∷ bytes) = tt

module _ (file : List ℕ) where
  -- A byte, or a word, and what is done with it.
  pub with_byte {κ} :
      {B : Type κ} (pos : ℕ) (next : ℕ → Raises NeError B)
      → ((b : ℕ) → Stops (next b))
      → Stops (byte_at file pos >>= next)
  with_byte pos next rest = then_Stops (byte_at file pos) next (byte_at-Stops file pos) rest

  pub with_word {κ} :
      {B : Type κ} (pos : ℕ) (next : ℕ → Raises NeError B)
      → ((w : ℕ) → Stops (next w))
      → Stops (word_at file pos >>= next)
  with_word pos next rest = then_Stops (word_at file pos) next (word_at-Stops file pos) rest

  relocation_at-Stops : (pos : ℕ) → Stops (relocation_at file pos)
  unfolding relocation_at
  relocation_at-Stops pos = with_byte pos _ (λ a. with_byte (pos + 1) _ (λ b.
      with_word (pos + 2) _ (λ c.
        with_byte (pos + 4) _ (λ d. with_word (pos + 4) _ (λ e. with_word (pos + 6) _ (λ f. tt))))))

  relocations_from-Stops : (count pos : ℕ) → Stops (relocations_from count file pos)
  unfolding relocations_from
  relocations_from-Stops zero pos = tt
  relocations_from-Stops (suc count) pos = if-Stops _ (gives []) _ tt (
      then_Stops (relocation_at file pos) _ (relocation_at-Stops pos) (λ rel.
        then_Stops (relocations_from count file (pos + 8)) _
          (relocations_from-Stops count (pos + 8)) (λ rest. tt)))

  relocations_of-Stops : (flags offset size : ℕ) → Stops (relocations_of file flags offset size)
  unfolding relocations_of
  relocations_of-Stops flags offset size =
      if-Stops _ _ (gives []) (with_word _ _ (λ count. relocations_from-Stops count _)) tt

  pub segments_from-Stops :
      (count shift pos number : ℕ) → Stops (segments_from count file shift pos number)
  unfolding segments_from segment_at
  segments_from-Stops zero shift pos number = tt
  segments_from-Stops (suc count) shift pos number =
      then_Stops (segment_at file shift pos number) _
        (with_word pos _ (λ a. with_word (pos + 2) _ (λ b. with_word (pos + 4) _ (λ c.
          with_word (pos + 6) _ (λ d.
            then_Stops (relocations_of file c _ b) _ (relocations_of-Stops c _ b) (λ rels. tt))))))
        (λ s.
          then_Stops (segments_from count file shift (pos + 8) (suc number)) _
            (segments_from-Stops count shift (pos + 8) (suc number)) (λ rest. tt))

  pub modules_from-Stops : (count base pos : ℕ) → Stops (modules_from count file base pos)
  unfolding modules_from with_module
  modules_from-Stops zero base pos = tt
  modules_from-Stops (suc count) base pos = with_word pos _ (λ name_off.
      then_Stops (modules_from count file base (pos + 2)) _
        (modules_from-Stops count base (pos + 2))
        (λ rest. if-Stops _ _ (gives rest) (with_byte _ _ (λ n. tt)) tt))

  name_entry-Stops : (pos n : ℕ) → Stops (name_entry file pos n)
  unfolding name_entry
  name_entry-Stops pos n = with_word _ _ (λ ordinal. tt)

  pub name_table-Stops :
      (fuel pos end : ℕ) → length file - pos < fuel → Stops (name_table fuel file pos end)
  unfolding name_table
  name_table-Stops zero pos end h = absurd (omega arith)
  name_table-Stops (suc fuel) pos end h = elim (Bool-cases (ltb pos end && ltb pos (length file))) [
    | inl more ↦
        let inside : pos < length file = ground (arith, more) in
        rw more (
          with_byte pos _ (λ n. if-Stops (n == 0) (gives []) _ tt (
            then_Stops (name_entry file pos n) _ (name_entry-Stops pos n) (λ entry.
              then_Stops (name_table fuel file (pos + 1 + n + 2) end) _
                (name_table-Stops fuel (pos + 1 + n + 2) end (omega arith)) (λ rest. tt)))))
    | inr last ↦ rw last tt
  ]
