-- ===== src/Callgraph/Edges.antt =====
-- What the scan for calls and jumps returns.
use linuxrecomp.Base.{
  ◌&&◌, ℕ, zero, suc, ◌+◌, ◌-◌, ◌%◌, ◌≤◌, ◌<◌, ◌≡◌, ◌↔◌, refl, ◌∙◌, sym, Bool, true, false, List,
  [], ◌∷◌, arith, length, slice, get_or, if◌then◌else◌, ltb, leb, ◌==◌, All, any_of, Bool-cases,
  inl, inr,
}
use linuxrecomp.Base.Int.{pos, ◌+ℤ◌, wrap}
use linuxrecomp.Decode16.Reader.{signed32}
use linuxrecomp.Pe64.Bytes.{u32_at, IsByte}
use linuxrecomp.Pe64.Proofs.Reads.{u32-lt, All-drop, All-take}
use mathlib.Core.Path.{subst}
use mathlib.Core.List.{Memᴰ}
use mathlib.Core.List.Memᴰ.{
  not-nil, eq_of_singleton, head, tail, append_left, append_right, append_cases,
}
use linuxrecomp.Callgraph.{ExecSection, Edge, in_exec, edge_at, edges_from, edges_of, scan_edges}

-- The address is in one of the sections.
abbrev pub InCode : ℕ → List ExecSection → Type 0
InCode va secs = (s : ExecSection) × Memᴰ s secs × (s.va ≤ va) × (va < s.va + s.size)

-- The opcode of a call, or of a jump.
abbrev pub opcode_of : Bool → ℕ
opcode_of true = 0xE8
opcode_of false = 0xE9

-- The bytes of a section.
abbrev pub seg_of : List ℕ → ExecSection → List ℕ
seg_of bytes s = slice bytes s.raw_off (s.raw_off + s.raw_size)

-- A direct call or jump at offset `j` of a section, with all five bytes there: the target is 32 bits of
-- the address behind it and of the displacement, and is in a section.
abbrev pub IsEdgeAt : List ExecSection → ℕ → List ℕ → ℕ → Edge → Type 0
IsEdgeAt secs va seg j e =
    (e.site ≡ va + j)
    × (get_or seg j 0 ≡ opcode_of e.is_call)
    × (e.target ≡ (va + j + 5 + u32_at seg (j + 1)) % 0x100000000)
    × InCode e.target secs

in_exec-InCode : (va : ℕ) (secs : List ExecSection) → in_exec va secs ≡ true → InCode va secs
unfolding in_exec any_of
in_exec-InCode va [] h = cc h
in_exec-InCode va (s ∷ secs) h = elim (Bool-cases (leb s.va va && ltb va (s.va + s.size))) [
  | inl here ↦ (s, head refl, ground arith, ground arith)
  | inr not_here ↦
      let (t, later, lo, hi) = in_exec-InCode va secs (ground arith) in (t, tail later, lo, hi)
]

InCode-in_exec : (va : ℕ) (secs : List ExecSection) → InCode va secs → in_exec va secs ≡ true
unfolding in_exec any_of
InCode-in_exec va [] (s, among, lo, hi) = elim among [ ]
InCode-in_exec va (t ∷ secs) (s, head same, lo, hi) =
    let lo' : t.va ≤ va = rw (← same) lo in
    let hi' : va < t.va + t.size = rw (← same) hi in ground arith
InCode-in_exec va (t ∷ secs) (s, tail later, lo, hi) =
    ground (arith, InCode-in_exec va secs (s, later, lo, hi))

-- The sign of the displacement does not matter modulo 2 ^ 32.
target_lem :
    (n v : ℕ) → v < 0x100000000 → wrap 0x100000000 (pos n +ℤ signed32 v) ≡ (n + v) % 0x100000000
unfolding wrap ◌+ℤ◌ signed32
target_lem n v h = ground arith

module _ (secs : List ExecSection) (va : ℕ) (seg : List ℕ) (bytes : All IsByte seg) where
  target_at :
      (j : ℕ)
      → wrap 0x100000000 (pos (va + j + 5) +ℤ signed32 (u32_at seg (j + 1)))
        ≡ (va + j + 5 + u32_at seg (j + 1)) % 0x100000000
  target_at j = target_lem (va + j + 5) (u32_at seg (j + 1)) (u32-lt seg (j + 1) bytes)

  -- The edge that the scan makes at `j`.
  abbrev made : ℕ → Bool → Edge
  made j call = record {
    site = va + j;
    target = wrap 0x100000000 (pos (va + j + 5) +ℤ signed32 (u32_at seg (j + 1)));
    is_call = call;
  }

  made-IsEdgeAt :
      (j : ℕ) (call : Bool) (e : Edge)
      → get_or seg j 0 ≡ opcode_of call
      → Memᴰ e (if in_exec (made j call).target secs then made j call ∷ [] else [])
      → IsEdgeAt secs va seg j e
  made-IsEdgeAt j call e op h = elim (Bool-cases (in_exec (made j call).target secs)) [
    | inl inside ↦
        subst (IsEdgeAt secs va seg j) (sym (eq_of_singleton (rw inside at h)))
          (refl, op, target_at j, in_exec-InCode (made j call).target secs inside)
    | inr outside ↦ absurd (not-nil (rw outside at h))
  ]

  edge_at-IsEdgeAt : (j : ℕ) (e : Edge) → Memᴰ e (edge_at secs va seg j) → IsEdgeAt secs va seg j e
  unfolding edge_at
  edge_at-IsEdgeAt j e h = elim (Bool-cases (get_or seg j 0 == 0xE8)) [
    | inl call ↦ made-IsEdgeAt j true e (ground arith) (rw (call, edge_at) at h)
    | inr other ↦ elim (Bool-cases (get_or seg j 0 == 0xE9)) [
      | inl jump ↦ made-IsEdgeAt j false e (ground arith) (rw (other, jump, edge_at) at h)
      | inr neither ↦ absurd (not-nil (rw (other, neither, edge_at) at h))
    ]
  ]

  made-edge_at :
      (j : ℕ) (call : Bool)
      → get_or seg j 0 ≡ opcode_of call
      → in_exec (made j call).target secs ≡ true
      → edge_at secs va seg j ≡ made j call ∷ []
  unfolding edge_at
  made-edge_at j true op inside = rw (op, inside, edge_at) refl
  made-edge_at j false op inside = rw (op, inside, edge_at) refl

  IsEdgeAt-edge_at : (j : ℕ) (e : Edge) → IsEdgeAt secs va seg j e → Memᴰ e (edge_at secs va seg j)
  IsEdgeAt-edge_at j e (site, op, target, code) =
      let reached : e.target ≡ (made j e.is_call).target = target ∙ sym (target_at j) in
      let inside =
        InCode-in_exec (made j e.is_call).target secs
          (subst (λ (va : ℕ). InCode va secs) reached code) in
      subst (Memᴰ e) (sym (made-edge_at j e.is_call op inside))
        (head (λ i. record { site = site i; target = reached i; is_call = e.is_call }))

  edges_from-IsEdgeAt :
      (n j : ℕ) (e : Edge)
      → Memᴰ e (edges_from secs va seg n j)
      → (i : ℕ) × (i < n) × IsEdgeAt secs va seg (j + i) e
  unfolding edges_from
  edges_from-IsEdgeAt zero j e h = elim h [ ]
  edges_from-IsEdgeAt (suc n) j e h = elim (append_cases (edge_at secs va seg j) h) [
    | inl here ↦ (
      0,
      omega arith,
      subst (λ (k : ℕ). IsEdgeAt secs va seg k e) (omega arith) (edge_at-IsEdgeAt j e here),
    )
    | inr later ↦
        let (i, below, edge) = edges_from-IsEdgeAt n (j + 1) e later in
        (suc i, omega arith, subst (λ (k : ℕ). IsEdgeAt secs va seg k e) (omega arith) edge)
  ]

  IsEdgeAt-edges_from :
      (n j i : ℕ) (e : Edge)
      → i < n
      → IsEdgeAt secs va seg (j + i) e
      → Memᴰ e (edges_from secs va seg n j)
  unfolding edges_from
  IsEdgeAt-edges_from zero j i e below edge = absurd (omega arith)
  IsEdgeAt-edges_from (suc n) j zero e below edge =
      append_left _
        (IsEdgeAt-edge_at j e (subst (λ (k : ℕ). IsEdgeAt secs va seg k e) (omega arith) edge))
  IsEdgeAt-edges_from (suc n) j (suc i) e below edge = append_right (edge_at secs va seg j) (
      IsEdgeAt-edges_from n (j + 1) i e (omega arith)
        (subst (λ (k : ℕ). IsEdgeAt secs va seg k e) (omega arith) edge))

-- An edge of one of the sections `rest`.
abbrev pub IsEdgeOf : List ExecSection → List ℕ → List ExecSection → Edge → Type 0
IsEdgeOf secs bytes rest e =
    (s : ExecSection) × (j : ℕ) × Memᴰ s rest
    × (j + 4 < length (seg_of bytes s))
    × IsEdgeAt secs s.va (seg_of bytes s) j e

module _ (secs : List ExecSection) (bytes : List ℕ) (valid : All IsByte bytes) where
  seg_bytes : (s : ExecSection) → All IsByte (seg_of bytes s)
  seg_bytes s = All-take IsByte _ _ (All-drop IsByte s.raw_off bytes valid)

  edges_of-IsEdgeOf :
      (rest : List ExecSection) (e : Edge)
      → Memᴰ e (edges_of secs bytes rest)
      → IsEdgeOf secs bytes rest e
  unfolding edges_of
  edges_of-IsEdgeOf [] e h = elim h [ ]
  edges_of-IsEdgeOf (s ∷ rest) e h =
      elim (append_cases (edges_from secs s.va (seg_of bytes s) (length (seg_of bytes s) - 4) 0)
        h) [
          | inl here ↦
              let (j, below, edge) =
                edges_from-IsEdgeAt secs s.va (seg_of bytes s) (seg_bytes s)
                  (length (seg_of bytes s) - 4) 0 e here in
              (
                s,
                j,
                head refl,
                omega arith,
                subst (λ (k : ℕ). IsEdgeAt secs s.va (seg_of bytes s) k e) (omega arith) edge,
              )
          | inr later ↦
              let (t, j, among, below, edge) = edges_of-IsEdgeOf rest e later in
              (t, j, tail among, below, edge)
        ]

  IsEdgeOf-edges_of :
      (rest : List ExecSection) (e : Edge) (s : ExecSection) (j : ℕ)
      → Memᴰ s rest
      → j + 4 < length (seg_of bytes s)
      → IsEdgeAt secs s.va (seg_of bytes s) j e
      → Memᴰ e (edges_of secs bytes rest)
  unfolding edges_of
  IsEdgeOf-edges_of [] e s j among below edge = elim among [ ]
  IsEdgeOf-edges_of (t ∷ rest) e s j (head same) below edge = append_left _ (
      subst
        (λ (u : ExecSection).
          Memᴰ e (edges_from secs u.va (seg_of bytes u) (length (seg_of bytes u) - 4) 0))
        same
        (IsEdgeAt-edges_from secs s.va (seg_of bytes s) (seg_bytes s) (length (seg_of bytes s) - 4)
          0 j e (omega arith)
          (subst (λ (k : ℕ). IsEdgeAt secs s.va (seg_of bytes s) k e) (omega arith) edge)))
  IsEdgeOf-edges_of (t ∷ rest) e s j (tail later) below edge =
      append_right (edges_from secs t.va (seg_of bytes t) (length (seg_of bytes t) - 4) 0)
        (IsEdgeOf-edges_of rest e s j later below edge)

-- The scan returns exactly the direct calls and jumps of the executable sections: an edge is returned
-- where, at an offset of a section with four bytes behind it, E8 stands for a call or E9 for a jump, and
-- the sum of the address behind the instruction and of the displacement, in 32 bits, is in a section.
pub scan_edges-IsEdgeOf :
    (bytes : List ℕ) (secs : List ExecSection) (e : Edge)
    → All IsByte bytes
    → Memᴰ e (scan_edges bytes secs) ↔ IsEdgeOf secs bytes secs e
unfolding scan_edges
scan_edges-IsEdgeOf bytes secs e valid = (
  edges_of-IsEdgeOf secs bytes valid secs e,
  λ (s, j, among, below, edge). IsEdgeOf-edges_of secs bytes valid secs e s j among below edge,
)
