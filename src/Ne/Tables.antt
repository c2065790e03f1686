-- ===== src/Ne/Tables.antt =====
-- The name tables and the entry table of `parse_ne`.
use linuxrecomp.Base.{
  ℕ, zero, suc, ◌+◌, List, [], ◌∷◌, ◌++◌, ◌&&◌, Option, none, some, if◌then◌else◌, ltb, ◌==◌,
  length, slice,
}
use linuxrecomp.Base.Raises.{Raises, raises, gives, ◌>>=◌}
use linuxrecomp.Ne.{NeError, out_of_fuel, EntryPoint}
use linuxrecomp.Ne.Reads.{byte_at, word_at}

-- A module's name in front of the others, if it is in the file.
unfoldable pub with_module : List ℕ → ℕ → List (List ℕ) → Raises NeError (List (List ℕ))
with_module file at rest =
    if ltb at (length file)
    then (do name_len ← byte_at file at; gives (slice file (at + 1) (at + 1 + name_len) ∷ rest))
    else gives rest

-- The loop over the module references: `count` are left. A name behind the end of the file is left out.
unfoldable pub modules_from : ℕ → List ℕ → ℕ → ℕ → Raises NeError (List (List ℕ))
modules_from zero file import_base pos = gives []
modules_from (suc count) file import_base pos = do
  name_off ← word_at file pos
  let at = import_base + name_off
  rest ← modules_from count file import_base (pos + 2)
  with_module file at rest

-- A round of the loop over a name table, for a name of this length.
unfoldable pub name_entry : List ℕ → ℕ → ℕ → Raises NeError (List ℕ × ℕ)
name_entry file pos name_len = do
  ordinal ← word_at file (pos + 1 + name_len)
  gives (slice file (pos + 1) (pos + 1 + name_len), ordinal)

-- The loop over a name table that ends at `end`, on fuel.
unfoldable pub name_table : ℕ → List ℕ → ℕ → ℕ → Raises NeError (List (List ℕ × ℕ))
name_table zero file pos end = raises out_of_fuel
name_table (suc fuel) file pos end =
    if ltb pos end && ltb pos (length file)
    then (do
      name_len ← byte_at file pos
      (if name_len == 0 then gives [] else (do
        entry ← name_entry file pos name_len
        rest ← name_table fuel file (pos + 1 + name_len + 2) end
        gives (entry ∷ rest))))
    else gives []

-- The fuel of the two loops.
abbrev pub enough : List ℕ → ℕ
enough file = suc (length file)

-- The resident names, up to the end of the file.
unfoldable pub resident_names : List ℕ → ℕ → Raises NeError (List (List ℕ × ℕ))
resident_names file pos = name_table (enough file) file pos (length file)

unfoldable pub nonresident_names : List ℕ → ℕ → ℕ → Raises NeError (List (List ℕ × ℕ))
nonresident_names file pos size =
    if ltb 0 pos && ltb pos (length file)
    then name_table (enough file) file pos (pos + size)
    else gives []

-- What is left to read of the entry table: the entries so far, the position, and the next ordinal.
pub record Cursor : Type 0 where
  pub found : List EntryPoint
  pub pos : ℕ
  pub ordinal : ℕ

-- An entry is put behind those found.
unfoldable pub next_entry : Cursor → ℕ → ℕ → ℕ → ℕ → Cursor
next_entry c size segment offset flags = record {
  found =
      c.found
      ++ (record {
        ordinal = c.ordinal;
        segment = segment;
        offset = offset;
        flags = flags;
        name = [];
      }
          ∷ []);
  pos = c.pos + size;
  ordinal = suc c.ordinal;
}

-- The entries of a bundle of moveable segments; it ends where the file does.
unfoldable pub moveable_bundle : ℕ → List ℕ → Cursor → Raises NeError Cursor
moveable_bundle zero file c = gives c
moveable_bundle (suc count) file c = if ltb (length file) (c.pos + 6) then gives c else (do
  e_flags ← byte_at file c.pos
  e_seg ← byte_at file (c.pos + 3)
  e_off ← word_at file (c.pos + 4)
  moveable_bundle count file (next_entry c 6 e_seg e_off e_flags))

-- The entries of a bundle of one fixed segment.
unfoldable pub fixed_bundle : ℕ → ℕ → List ℕ → Cursor → Raises NeError Cursor
fixed_bundle zero segment file c = gives c
fixed_bundle (suc count) segment file c = if ltb (length file) (c.pos + 3) then gives c else (do
  e_flags ← byte_at file c.pos
  e_off ← word_at file (c.pos + 1)
  fixed_bundle count segment file (next_entry c 3 segment e_off e_flags))

-- The three kinds of bundles; an unused one skips its ordinals.
unfoldable pub bundle : ℕ → ℕ → List ℕ → Cursor → Raises NeError Cursor
bundle count type file c =
    if type == 0
    then gives (record c { ordinal = c.ordinal + count })
    else if type == 0xFF
    then moveable_bundle count file c
    else fixed_bundle count type file c

-- The loop over the entry table, on fuel.
unfoldable pub entry_table : ℕ → List ℕ → ℕ → Cursor → Raises NeError (List EntryPoint)
entry_table zero file end c = raises out_of_fuel
entry_table (suc fuel) file end c =
    if ltb c.pos end && ltb c.pos (length file)
    then (do
      bundle_count ← byte_at file c.pos
      bundle_type ← byte_at file (c.pos + 1)
      (if bundle_count == 0 then gives c.found else (do
        next ← bundle bundle_count bundle_type file (record c { pos = c.pos + 2 })
        entry_table fuel file end next)))
    else gives c.found

-- name_map.get(ordinal): the last name with the ordinal.
unfoldable pub name_for : ℕ → List (List ℕ × ℕ) → Option (List ℕ)
name_for ordinal [] = none
name_for ordinal ((name, o) ∷ names) = elim (name_for ordinal names) [
  | some later ↦ some later
  | none ↦ if o == ordinal then some name else none
]

-- The last loop of `parse_ne`.
unfoldable pub name_entries : List (List ℕ × ℕ) → List EntryPoint → List EntryPoint
name_entries names [] = []
name_entries names (e ∷ entries) =
    elim (name_for e.ordinal names) [ none ↦ e | some name ↦ record e { name = name } ]
    ∷ name_entries names entries
