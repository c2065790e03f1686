-- ===== src/Merge.antt =====
-- tools/pe/merge_names.py: one name for each address, from several sources. Here: `sanitize` and `merge`.
-- A text is a list of character codes, a dict a list of its entries in their order.
pub mod Identifiers
pub mod Named
pub mod Claims
pub mod Tests
use linuxrecomp.Base.{
  ℕ, Bool, true, false, not, ◌&&◌, ◌||◌, Option, none, some, List, [], ◌∷◌, ◌++◌, ◌==◌, ◌+◌, suc,
  leb, if◌then◌else◌, String, map,
}
use linuxrecomp.Base.Text.{codes, same_text, is_member, is_digit, is_letter, underscore, hex8}

-- The words of `_RESERVED` that are not Python's own.
abbrev pub reserved_words : List (List ℕ)
reserved_words = map codes (
    "auto" ∷ "break" ∷ "case" ∷ "char" ∷ "const" ∷ "continue" ∷ "default" ∷ "do" ∷ "double" ∷ "else"
    ∷ "enum" ∷ "extern" ∷ "float" ∷ "for" ∷ "goto" ∷ "if" ∷ "inline" ∷ "int" ∷ "long" ∷ "register"
    ∷ "restrict" ∷ "return" ∷ "short" ∷ "signed" ∷ "sizeof" ∷ "static" ∷ "struct" ∷ "switch"
    ∷ "typedef" ∷ "union" ∷ "unsigned" ∷ "void" ∷ "volatile" ∷ "while" ∷ "bool" ∷ "true" ∷ "false"
    ∷ "class" ∷ "new" ∷ "delete" ∷ "template" ∷ "this" ∷ "operator" ∷ "namespace" ∷ "try" ∷ "catch"
    ∷ [])

-- [?_@]
abbrev is_decoration : ℕ → Bool
is_decoration c = (c == 63) || (c == 95) || (c == 64)

-- [0-9A-Za-z_]
abbrev pub is_ident_char : ℕ → Bool
is_ident_char c = is_digit c || is_letter c || (c == underscore)

-- re.sub("^[p]+", "", text)
unfoldable pub strip_front : (ℕ → Bool) → List ℕ → List ℕ
strip_front p [] = []
strip_front p (c ∷ text) = if p c then strip_front p text else c ∷ text

-- text.rstrip("_")
unfoldable pub strip_back : List ℕ → List ℕ
strip_back [] = []
strip_back (c ∷ text) = elim (strip_back text) [
  | [] ↦ if c == underscore then [] else c ∷ []
  | d ∷ rest ↦ c ∷ d ∷ rest
]

-- re.sub("[p]+", "_", text), where `inside` tells whether the character in front of the text was one of
-- `p`. A single `_` is itself, so that this is also re.sub("_{2,}", "_", text).
unfoldable pub sub_runs : (ℕ → Bool) → Bool → List ℕ → List ℕ
sub_runs p inside [] = []
sub_runs p inside (c ∷ text) =
    if p c
    then (if inside then sub_runs p true text else underscore ∷ sub_runs p true text)
    else c ∷ sub_runs p false text

-- re.sub("[^0-9A-Za-z_]", "_", text)
unfoldable pub ident_char : ℕ → ℕ
ident_char c = if is_ident_char c then c else underscore

-- The readable part of a symbol: `sanitize` down to its `if not s`.
unfoldable pub readable : List ℕ → List ℕ
readable name =
    let bare = strip_front is_decoration name in
    let joined = sub_runs (λ c. c == 64) false bare in
    let plain = map ident_char joined in
    strip_back (strip_front (λ c. c == underscore) (sub_runs (λ c. c == underscore) false plain))

-- "f_" + s, where s begins with a digit.
unfoldable pub with_letter : List ℕ → List ℕ
with_letter [] = []
with_letter (c ∷ text) = if is_digit c then 102 ∷ underscore ∷ c ∷ text else c ∷ text

-- What a source claims, and what the merged table holds for an address.
pub record Entry : Type 0 where
  pub name : List ℕ
  pub raw : List ℕ
  pub source : List ℕ
  pub file : Option (List ℕ)

pub record NameSource : Type 0 where
  pub label : List ℕ
  pub table : List (ℕ × List ℕ)

-- `chosen`, `taken`, the keys of `stats` that were counted, and `collisions`.
pub record Merged : Type 0 where
  pub chosen : List (ℕ × Entry)
  pub taken : List (List ℕ × ℕ)
  pub stats : List (List ℕ)
  pub collisions : ℕ

-- chosen.get(addr)
unfoldable pub lookup {ℓ} : {A : Type ℓ} → ℕ → List (ℕ × A) → Option A
lookup addr [] = none
lookup addr ((a, x) ∷ entries) = if a == addr then some x else lookup addr entries

-- taken.get(ident): the entry written last stands first.
unfoldable pub owner_of : List ℕ → List (List ℕ × ℕ) → Option ℕ
owner_of ident [] = none
owner_of ident ((name, addr) ∷ taken) =
    if same_text name ident then some addr else owner_of ident taken

-- sorted(table)
unfoldable pub insert_by_address : ℕ × List ℕ → List (ℕ × List ℕ) → List (ℕ × List ℕ)
insert_by_address (addr, raw) [] = (addr, raw) ∷ []
insert_by_address (addr, raw) ((a, r) ∷ table) =
    if leb addr a
    then (addr, raw) ∷ (a, r) ∷ table
    else (a, r) ∷ insert_by_address (addr, raw) table

unfoldable pub sort_by_address : List (ℕ × List ℕ) → List (ℕ × List ℕ)
sort_by_address [] = []
sort_by_address (claim ∷ table) = insert_by_address claim (sort_by_address table)

-- owner is not None and owner != addr
unfoldable pub is_owned_elsewhere : Option ℕ → ℕ → Bool
is_owned_elsewhere none addr = false
is_owned_elsewhere (some owner) addr = not (owner == addr)

-- The identifier that an address gets, and the collisions counted for it.
unfoldable pub distinct_name : List ℕ → ℕ → Bool → List ℕ × ℕ
distinct_name ident addr true = (ident ++ (underscore ∷ hex8 addr), 1)
distinct_name ident addr false = (ident, 0)

-- The writes at the end of the inner loop.
unfoldable pub claim : List ℕ → ℕ → List ℕ → List ℕ → Merged → Merged
claim label addr raw ident m =
    let (name, collided) =
      distinct_name ident addr (is_owned_elsewhere (owner_of ident m.taken) addr) in
    record {
      chosen =
          m.chosen ++ ((addr, record { name = name; raw = raw; source = label; file = none }) ∷ []);
      taken = (name, addr) ∷ m.taken;
      stats = m.stats ++ (label ∷ []);
      collisions = m.collisions + collided;
    }

-- addr in chosen
unfoldable pub is_chosen {ℓ} : {A : Type ℓ} → ℕ → List (ℕ × A) → Bool
is_chosen addr [] = false
is_chosen addr ((a, x) ∷ entries) = a == addr || is_chosen addr entries

module _ (kwlist : List (List ℕ)) where
  -- s in _RESERVED, where `kwlist` is Python's list of its keywords.
  unfoldable pub is_reserved : List ℕ → Bool
  is_reserved text = is_member text (kwlist ++ reserved_words)

  -- The last two steps of `sanitize`, on a text that is not empty.
  unfoldable pub finish_name : List ℕ → List ℕ
  finish_name text =
      let name = with_letter text in if is_reserved name then name ++ (underscore ∷ []) else name

  unfoldable pub sanitize : List ℕ → Option (List ℕ)
  sanitize name = elim (readable name) [ [] ↦ none | c ∷ text ↦ some (finish_name (c ∷ text)) ]

  -- One round of the inner loop of `merge`.
  unfoldable pub merge_claim : List ℕ → ℕ × List ℕ → Merged → Merged
  merge_claim label (addr, raw) m = if is_chosen addr m.chosen then m else elim (sanitize raw) [
    | none ↦ record m { stats = m.stats ++ ((label ++ codes " (unusable)") ∷ []) }
    | some ident ↦ claim label addr raw ident m
  ]

  unfoldable pub merge_table : List ℕ → List (ℕ × List ℕ) → Merged → Merged
  merge_table label [] m = m
  merge_table label (c ∷ table) m = merge_table label table (merge_claim label c m)

  -- The first loop of `merge`.
  unfoldable pub merge_sources : List NameSource → Merged → Merged
  merge_sources [] m = m
  merge_sources (s ∷ sources) m =
      merge_sources sources (merge_table s.label (sort_by_address s.table) m)

-- The second loop: the file of each chosen address.
unfoldable pub set_files : List (ℕ × List ℕ) → List (ℕ × Entry) → List (ℕ × Entry)
set_files files [] = []
set_files files ((addr, entry) ∷ entries) =
    (
      addr,
      elim (lookup addr files) [ none ↦ entry | some fname ↦ record entry { file = some fname } ],
    )
    ∷ set_files files entries

-- One round of the third loop: the file of an address that nothing named.
unfoldable pub add_file : ℕ × List ℕ → Merged → Merged
add_file (addr, fname) m = if is_chosen addr m.chosen then m else record m {
  chosen =
      m.chosen
      ++ ((
        addr,
        record {
          name = codes "sub_" ++ hex8 addr;
          raw = [];
          source = codes "unnamed";
          file = some fname;
        },
      )
          ∷ []);
  stats = m.stats ++ (codes "file-only" ∷ []);
}

-- The third loop.
unfoldable pub add_files : List (ℕ × List ℕ) → Merged → Merged
add_files [] m = m
add_files (f ∷ files) m = add_files files (add_file f m)

abbrev pub nothing_merged : Merged
nothing_merged = record { chosen = []; taken = []; stats = []; collisions = 0 }

-- `merge`
unfoldable pub merge : List (List ℕ) → List NameSource → List (ℕ × List ℕ) → Merged
merge kwlist sources files =
    let named = merge_sources kwlist sources nothing_merged in
    add_files files (record named { chosen = set_files files named.chosen })
