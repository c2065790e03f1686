-- ===== src/Decode16/Proofs/Tiling.antt =====
-- About the sweep of `decode_range` and `decode_all`.
use linuxrecomp.Base.{
  ℕ, zero, suc, ◌+◌, ◌-◌, ◌≤◌, ◌≡◌, refl, sym, ap, ◌∙◌, ◌⊎◌, inl, inr, true, false, Option, none,
  some, List, [], ◌∷◌, ◌++◌, arith, ltb, length, drop, take, slice, All, drop-drop,
  take-append-drop, Bool-cases, Option-cases,
}
use mathlib.Core.List.{append_assoc}
use mathlib.Core.Path.{ap₂, ◌≡⟨◌⟩◌, ◌∎, subst, subst₂, subst₃}
use linuxrecomp.Decode16.{Instruction, Decoder}
use linuxrecomp.Decode16.Decode.{decode_or_db, range_loop, decode_range, decode_all}
use linuxrecomp.Decode16.Proofs.Progress.{
  Decoded, IsPrefixByte, decode_or_db-Decoded, decode_or_db-none,
}

-- The instructions stand one behind the other from position `s` to position `e` of the data: each
-- begins where the one before it ends, takes a byte at least, and holds the bytes of its place.
abbrev pub Tiles : List ℕ → ℕ → ℕ → List Instruction → ℕ → Type 0
Tiles bytes base s [] e = s ≡ e
Tiles bytes base s (i ∷ is) e =
    (i.address ≡ s)
    × (i.offset ≡ base + s)
    × (1 ≤ i.length)
    × (s + i.length ≤ length bytes)
    × (i.raw ≡ slice bytes s (s + i.length))
    × Tiles bytes base (s + i.length) is e

-- Where the sweep has ended: at or behind the stop, or where only prefix bytes are left.
abbrev pub Ended : List ℕ → ℕ → ℕ → ℕ → Type 0
Ended bytes stop e pos =
    ((stop ≤ e) × (pos ≡ e)) ⊎ ((length bytes ≤ pos) × All IsPrefixByte (drop e bytes))

tile_step :
    (d d' : Decoder) (i : Instruction) (is : List Instruction) (e : ℕ)
    → Decoded d d' i
    → Tiles d'.bytes d'.base d'.pos is e
    → Tiles d.bytes d.base d.pos (i ∷ is) e
tile_step d d' i is e h t = (
  h.address,
  h.offset,
  h.nonempty,
  omega (arith, h.end, h.inside),
  h.raw ∙ ap (λ k. slice d.bytes d.pos k) (sym h.end),
  subst₃ (λ b o p. Tiles b o p is e) h.bytes h.base (sym h.end) t,
)

module _ (fuel stop : ℕ) (d : Decoder) where
  range_loop_stop : ltb d.pos stop ≡ false → range_loop (suc fuel) stop d ≡ some ([], d)
  unfolding range_loop
  range_loop_stop h = rw (h, range_loop)

  range_loop_none :
      (d₁ : Decoder)
      → ltb d.pos stop ≡ true
      → decode_or_db d ≡ (none, d₁)
      → range_loop (suc fuel) stop d ≡ some ([], d₁)
  unfolding range_loop
  range_loop_none d₁ h e =
      rw (h, range_loop)
        (rw (
          ap (λ (x : Option Instruction × Decoder). x.0) e,
          ap (λ (x : Option Instruction × Decoder). x.1) e,
        ))

  range_loop_more :
      (i : Instruction) (d₁ : Decoder)
      → ltb d.pos stop ≡ true
      → decode_or_db d ≡ (some i, d₁)
      → range_loop (suc fuel) stop d
        ≡ elim (range_loop fuel stop d₁) [ none ↦ none | some r ↦ some (i ∷ r.0, r.1) ]
  unfolding range_loop
  range_loop_more i d₁ h e =
      rw (h, range_loop)
        (rw (
          ap (λ (x : Option Instruction × Decoder). x.0) e,
          ap (λ (x : Option Instruction × Decoder). x.1) e,
        ))

ltb-false : (stop : ℕ) (d : Decoder) → ltb d.pos stop ≡ false → stop ≤ d.pos
ltb-false stop d h = ground arith

All-drop_past : (xs : List ℕ) (e : ℕ) → length xs ≤ e → All IsPrefixByte (drop e xs)
All-drop_past [] zero h = tt
All-drop_past [] (suc e) h = tt
All-drop_past (x ∷ xs) zero h = absurd (omega arith)
All-drop_past (x ∷ xs) (suc e) h = All-drop_past xs e (omega arith)

-- The two answers of a round, with the equation.
decode_or_db-cases :
    (d : Decoder)
    → ((d₁ : Decoder) × (decode_or_db d ≡ (none, d₁)))
      ⊎ ((i : Instruction) × (d₁ : Decoder) × (decode_or_db d ≡ (some i, d₁)))
decode_or_db-cases d = go (decode_or_db d).0 refl
  where
    go :
        (o : Option Instruction)
        → (decode_or_db d).0 ≡ o
        → ((d₁ : Decoder) × (decode_or_db d ≡ (none, d₁)))
          ⊎ ((i : Instruction) × (d₁ : Decoder) × (decode_or_db d ≡ (some i, d₁)))
    go none e = inl ((decode_or_db d).1, ap (λ x. (x, (decode_or_db d).1)) e)
    go (some i) e = inr (i, (decode_or_db d).1, ap (λ x. (x, (decode_or_db d).1)) e)

no_fuel :
    (stop : ℕ) (d : Decoder) (is : List Instruction) (d' : Decoder)
    → range_loop zero stop d ≡ some (is, d')
    → ⊥
unfolding range_loop
no_fuel stop d is d' h = cc

-- The sweep from `d`, whatever its fuel.
pub range_loop-Tiles :
    (fuel stop : ℕ) (d : Decoder) (is : List Instruction) (d' : Decoder)
    → range_loop fuel stop d ≡ some (is, d')
    → (e : ℕ) × Tiles d.bytes d.base d.pos is e × Ended d.bytes stop e d'.pos
range_loop-Tiles zero stop d is d' h = absurd (no_fuel stop d is d' h)
range_loop-Tiles (suc fuel) stop d is d' h = elim (Bool-cases (ltb d.pos stop)) [
  | inl more ↦ elim (decode_or_db-cases d) [
    | inl (d₁, ended) ↦
        let r : some ([], d₁) ≡ some (is, d') =
          sym (range_loop_none fuel stop d d₁ more ended) ∙ h in
        let (b, past, all) = decode_or_db-none d d₁ ended in
        let empty : [] ≡ is = cc r in
        let moved : d₁ ≡ d' = cc r in
        (
          d.pos,
          subst (λ l. Tiles d.bytes d.base d.pos l d.pos) empty refl,
          inr (subst (λ (x : Decoder). length d.bytes ≤ x.pos) moved past, all),
        )
    | inr (i, d₁, got) ↦ elim (Option-cases (range_loop fuel stop d₁)) [
      | inl stuck ↦
          absurd (cc (rw (stuck) at (sym (range_loop_more fuel stop d i d₁ more got) ∙ h)))
      | inr ((js, d₂), rest) ↦
          let made = decode_or_db-Decoded d i d₁ got in
          let (e, tiles, ended) = range_loop-Tiles fuel stop d₁ js d₂ rest in
          let r = rw rest at (sym (range_loop_more fuel stop d i d₁ more got) ∙ h) in
          let listed : i ∷ js ≡ is = cc r in
          let moved : d₂ ≡ d' = cc r in
          (
            e,
            subst (λ l. Tiles d.bytes d.base d.pos l e) listed (tile_step d d₁ i js e made tiles),
            subst₂ (λ b (x : Decoder). Ended b stop e x.pos) made.bytes moved ended,
          )
    ]
  ]
  | inr done ↦
      let r : some ([], d) ≡ some (is, d') = sym (range_loop_stop fuel stop d done) ∙ h in
      let empty : [] ≡ is = cc r in
      let moved : d ≡ d' = cc r in
      (
        d.pos,
        subst (λ l. Tiles d.bytes d.base d.pos l d.pos) empty refl,
        inl (ltb-false stop d done, ap (λ (x : Decoder). x.pos) (sym moved)),
      )
]

-- With as much fuel as there are bytes up to the stop, and one round more, the sweep ends.
pub range_loop_total :
    (fuel stop : ℕ) (d : Decoder)
    → stop ≤ d.pos + fuel
    → (is : List Instruction) × (d' : Decoder) × (range_loop (suc fuel) stop d ≡ some (is, d'))
range_loop_total zero stop d h = ([], d, range_loop_stop zero stop d (ground arith))
range_loop_total (suc fuel) stop d h = elim (Bool-cases (ltb d.pos stop)) [
  | inr done ↦ ([], d, range_loop_stop (suc fuel) stop d done)
  | inl more ↦ elim (decode_or_db-cases d) [
    | inl (d₁, ended) ↦ ([], d₁, range_loop_none (suc fuel) stop d d₁ more ended)
    | inr (i, d₁, got) ↦
        let made = decode_or_db-Decoded d i d₁ got in
        let (js, d₂, rest) =
          range_loop_total fuel stop d₁ (omega (arith, made.end, made.nonempty)) in
        (i ∷ js, d₂, range_loop_more (suc fuel) stop d i d₁ more got ∙ rw rest)
  ]
]

-- The bytes of a list of instructions, one behind the other.
abbrev pub raw_bytes : List Instruction → List ℕ
raw_bytes [] = []
raw_bytes (i ∷ is) = i.raw ++ raw_bytes is

-- Tiles lose no byte: their bytes and what stands behind them are the data from their beginning on.
pub Tiles-raw_bytes :
    (bytes : List ℕ) (base s e : ℕ) (is : List Instruction)
    → Tiles bytes base s is e
    → raw_bytes is ++ drop e bytes ≡ drop s bytes
Tiles-raw_bytes bytes base s e [] t = rw t
Tiles-raw_bytes bytes base s e (i ∷ is) (a, o, n, fits, raw, rest) =
    (i.raw ++ raw_bytes is) ++ drop e bytes
    ≡⟨ append_assoc i.raw (raw_bytes is) (drop e bytes) ⟩ i.raw ++ (raw_bytes is ++ drop e bytes)
    ≡⟨ ap (λ l. i.raw ++ l) (Tiles-raw_bytes bytes base (s + i.length) e is rest) ⟩
      i.raw ++ drop (s + i.length) bytes
    ≡⟨ ap₂ (λ a b. a ++ b) (raw ∙ ap (λ k. take k (drop s bytes)) (omega arith))
        (sym (drop-drop s i.length bytes)) ⟩
      take i.length (drop s bytes) ++ drop i.length (drop s bytes)
    ≡⟨ take-append-drop i.length (drop s bytes) ⟩ drop s bytes ∎

-- `decode_range` ends on every decoder and range, and its instructions tile the bytes from `start`
-- up to where the sweep ended: at or behind `stop`, or where only prefix bytes are left.
pub decode_range-Tiles :
    (start stop : ℕ) (d : Decoder)
    → (is : List Instruction) × (d' : Decoder) × (e : ℕ) × (decode_range start stop d
        ≡ some (is, d'))
      × Tiles d.bytes d.base start is e
      × Ended d.bytes stop e d'.pos
unfolding decode_range
decode_range-Tiles start stop d =
    let from = record d { pos = start } in
    let (is, d', ran) = range_loop_total (stop - start) stop from (omega arith) in
    let (e, tiles, ended) = range_loop-Tiles (suc (stop - start)) stop from is d' ran in
    (is, d', e, ran, tiles, ended)

-- `decode_all` loses no byte: it returns, and the bytes of its instructions are the whole data, less
-- a tail that holds only prefix bytes.
pub decode_all_covers :
    (d : Decoder)
    → (is : List Instruction) × (d' : Decoder) × (tail : List ℕ) × (decode_all d ≡ some (is, d'))
      × (raw_bytes is ++ tail ≡ d.bytes)
      × All IsPrefixByte tail
unfolding decode_all
decode_all_covers d =
    let (is, d', e, ran, tiles, ended) = decode_range-Tiles 0 (length d.bytes) d in
    (
      is,
      d',
      drop e d.bytes,
      ran,
      Tiles-raw_bytes d.bytes d.base 0 e is tiles,
      elim ended [ inl (past, at) ↦ All-drop_past d.bytes e past | inr (past, all) ↦ all ],
    )
