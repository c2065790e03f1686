-- ===== src/Callgraph/Tests.antt =====
-- Runs of the search and of the scan.
use linuxrecomp.Base.{true, ◌↔◌, ℕ, ◌≡◌, some, List, [], ◌∷◌, arith}
use linuxrecomp.Callgraph.{Bounds, ExecSection, Edge, containing_func, scan_edges}
use linuxrecomp.Callgraph.Search.{first_holding, containing_func-first_holding}
use linuxrecomp.Callgraph.Edges.{IsEdgeOf, scan_edges-IsEdgeOf}
use mathlib.Core.List.{Memᴰ}

abbrev three : List Bounds
three = (0x10, 0x20) ∷ (0x20, 0x28) ∷ (0x30, 0x40) ∷ []

containing_func-first_holding_example : containing_func 0x24 three ≡ some (first_holding three 0x24)
containing_func-first_holding_example = containing_func-first_holding 0x24 three (
  omega arith,
  (omega arith, (omega arith, tt)),
  (omega arith, (omega arith, tt), (omega arith, tt, tt)),
)

-- A call to itself, between two bytes of padding.
abbrev code : List ℕ
code = 0x90 ∷ 0xE8 ∷ 0xFB ∷ 0xFF ∷ 0xFF ∷ 0xFF ∷ 0x90 ∷ []

abbrev text : List ExecSection
text = record { va = 0x1000; size = 7; raw_off = 0; raw_size = 7 } ∷ []

-- The call, as the scan finds it.
abbrev to_itself : Edge
to_itself = record { site = 0x1001; target = 0x1001; is_call = true }

scan_edges-IsEdgeOf_example :
    Memᴰ to_itself (scan_edges code text) ↔ IsEdgeOf text code text to_itself
scan_edges-IsEdgeOf_example = scan_edges-IsEdgeOf code text to_itself (
  omega arith,
  (omega arith, (omega arith, (omega arith, (omega arith, (omega arith, (omega arith, tt)))))),
)
