-- ===== src/Callgraph.antt =====
-- tools/disasm/callgraph.py: the scan for direct calls and jumps, and the search for the function that
-- holds an address.
pub mod Edges
pub mod Search
mod Tests
use linuxrecomp.Base.{
  ℕ, zero, suc, ◌+◌, ◌-◌, ◌/◌, Bool, true, false, ◌&&◌, Option, none, some, List, [], ◌∷◌, ◌++◌,
  if◌then◌else◌, ltb, leb, ◌==◌, any_of, length, get_or, slice, drop,
}
use linuxrecomp.Base.Int.{pos, ◌+ℤ◌, wrap}
use linuxrecomp.Decode16.Reader.{signed32}
use linuxrecomp.Pe64.Bytes.{u32_at}

-- An executable section: its address and size, and the offset and size of its raw data.
pub record ExecSection : Type 0 where
  pub va : ℕ
  pub size : ℕ
  pub raw_off : ℕ
  pub raw_size : ℕ

-- `in_exec`
unfoldable pub in_exec : ℕ → List ExecSection → Bool
in_exec va secs = any_of (λ (s : ExecSection). leb s.va va && ltb va (s.va + s.size)) secs

-- One edge: the site, the target, and whether it is a call.
pub record Edge : Type 0 where
  pub site : ℕ
  pub target : ℕ
  pub is_call : Bool

-- The edge at `j`, if the opcode there is E8 or E9 and the target is in code.
unfoldable pub edge_at : List ExecSection → ℕ → List ℕ → ℕ → List Edge
edge_at secs section_va seg j =
    let op = get_or seg j 0 in
    let site = section_va + j in
    let target = wrap 0x100000000 (pos (site + 5) +ℤ signed32 (u32_at seg (j + 1))) in
    if op == 0xE8
    then (if in_exec target secs
        then record { site = site; target = target; is_call = true } ∷ []
        else [])
    else if op == 0xE9
    then (if in_exec target secs
        then record { site = site; target = target; is_call = false } ∷ []
        else [])
    else []

-- The loop over the offsets of one section, `n` of them from `j` on.
unfoldable pub edges_from : List ExecSection → ℕ → List ℕ → ℕ → ℕ → List Edge
edges_from secs section_va seg zero j = []
edges_from secs section_va seg (suc n) j =
    edge_at secs section_va seg j ++ edges_from secs section_va seg n (j + 1)

unfoldable pub edges_of : List ExecSection → List ℕ → List ExecSection → List Edge
edges_of secs bytes [] = []
edges_of secs bytes (s ∷ rest) =
    let seg = slice bytes s.raw_off (s.raw_off + s.raw_size) in
    edges_from secs s.va seg (length seg - 4) 0 ++ edges_of secs bytes rest

-- `scan_edges`
unfoldable pub scan_edges : List ℕ → List ExecSection → List Edge
scan_edges bytes secs = edges_of secs bytes secs

-- A function's start and end.
abbrev pub Bounds : Type 0
Bounds = ℕ × ℕ

-- funcs[i][0], where it is there
abbrev pub start_at : List Bounds → ℕ → ℕ
start_at funcs i = (get_or funcs i (0, 0)).0

-- The `while` of `containing_func`: the final `lo`, and `none` where the fuel runs out.
unfoldable pub search : ℕ → List Bounds → ℕ → ℕ → ℕ → Option ℕ
search zero funcs va lo hi = none
search (suc fuel) funcs va lo hi = elim (ltb lo hi) [
  | false ↦ some lo
  | true ↦ elim (leb (start_at funcs ((lo + hi) / 2)) va) [
    | true ↦ search fuel funcs va ((lo + hi) / 2 + 1) hi
    | false ↦ search fuel funcs va lo ((lo + hi) / 2)
  ]
]

abbrev pub holds : Bounds → ℕ → Bool
holds (start, end) va = leb start va && ltb va end

-- What is returned for the final `lo`: the function at lo - 1, if it holds the address.
unfoldable pub answer : List Bounds → ℕ → ℕ → Option ℕ
answer funcs va zero = none
answer funcs va (suc i) =
    if ltb i (length funcs) && holds (get_or funcs i (0, 0)) va
    then some (start_at funcs i)
    else none

-- `containing_func`. Each round makes the range of the search smaller.
unfoldable pub containing_func : ℕ → List Bounds → Option (Option ℕ)
containing_func va funcs = elim (search (suc (length funcs)) funcs va 0 (length funcs)) [
  | none ↦ none
  | some lo ↦ some (answer funcs va lo)
]
