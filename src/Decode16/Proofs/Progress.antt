-- ===== src/Decode16/Proofs/Progress.antt =====
-- About one call of `decode_one`: the instruction and the bytes that were consumed.
use linuxrecomp.Base.{
  ℕ, ◌+◌, ◌-◌, ◌≤◌, ◌<◌, ◌≡◌, refl, ap, ◌∙◌, inl, inr, true, Option, none, some, List, [], ◌∷◌,
  arith, leb, length, drop, slice, All, length-drop, get_elem?, Bool-cases, Option-cases, leb→le,
}
use linuxrecomp.Decode16.{Instruction, Decoder}
use linuxrecomp.Decode16.Reader.{◌>>=◌, pure}
use linuxrecomp.Decode16.Arms.{is_in}
use linuxrecomp.Decode16.Decode.{
  Prefixes, no_prefixes, prefix_step, scan_prefixes, after_prefixes, start_instruction, dispatch,
  finish, decode_body, decode_one, db_instruction, decode_or_db,
}
use linuxrecomp.Decode16.Proofs.Forward.{bind-some}
use linuxrecomp.Decode16.Proofs.Forward.Dispatch.{dispatch_advances}
use linuxrecomp.Decode16.Proofs.Stamped.{dispatch-Stamped}

-- `i` describes the bytes between the positions of `d` and `d'`, one at least and all in the data.
pub record Decoded (d d' : Decoder) (i : Instruction) : Type 0 where
  pub bytes : d'.bytes ≡ d.bytes
  pub base : d'.base ≡ d.base
  pub address : i.address ≡ d.pos
  pub offset : i.offset ≡ d.base + d.pos
  pub end : d.pos + i.length ≡ d'.pos
  pub nonempty : 1 ≤ i.length
  pub inside : d'.pos ≤ length d.bytes
  pub raw : i.raw ≡ slice d.bytes d.pos d'.pos

-- The bytes that the prefix loop may take.
abbrev pub IsPrefixByte : ℕ → Type 0
IsPrefixByte b =
    is_in b (0x26 ∷ 0x2E ∷ 0x36 ∷ 0x3E ∷ 0x64 ∷ 0x65 ∷ 0x66 ∷ 0x67 ∷ 0x9B ∷ 0xF0 ∷ 0xF2 ∷ 0xF3 ∷ [])
    ≡ true

prefix_step-IsPrefixByte :
    (b : ℕ) (next : Option ℕ) (p : Prefixes) {q : Prefixes}
    → prefix_step b next p ≡ some q
    → IsPrefixByte b
unfolding prefix_step
prefix_step-IsPrefixByte b next p h = ground arith

-- The prefix loop takes no more than there is; if it takes all, every byte was a prefix.
pub scan_prefixes_bounds :
    (xs : List ℕ) (n : ℕ) (p : Prefixes)
    → (n ≤ (scan_prefixes xs n p).1)
      × ((scan_prefixes xs n p).1 ≤ n + length xs)
      × (n + length xs ≤ (scan_prefixes xs n p).1 → All IsPrefixByte xs)
unfolding scan_prefixes
scan_prefixes_bounds [] n p = (omega arith, omega arith, λ h. tt)
scan_prefixes_bounds (b ∷ xs) n p = elim (Option-cases (prefix_step b (get_elem? xs 0) p)) [
  | inl e ↦ rw (e, scan_prefixes) (omega arith, omega arith, λ h. absurd (omega arith))
  | inr (q, e) ↦
      let (lo, hi, all) = scan_prefixes_bounds xs (n + 1) q in
      rw (e, scan_prefixes)
        (omega arith, omega arith, λ h. (prefix_step-IsPrefixByte b _ p e, all (omega arith)))
]

finish_lem :
    (start : ℕ) (inst : Instruction) (d : Decoder) {i : Instruction} {d' : Decoder}
    → (finish start inst >>= λ done. pure (some done)) d ≡ some (some i, d')
    → (i ≡ record inst { length = d.pos - start; raw = slice d.bytes start d.pos }) × (d' ≡ d)
unfolding finish pure
finish_lem start inst d e = ground arith

-- Behind the prefixes: the instruction describes the bytes from the first prefix on.
body_Decoded :
    (d : Decoder) (found : Prefixes × ℕ) (i : Instruction) (d' : Decoder)
    → (dispatch (start_instruction d found.0) found.0.seg_override >>= λ inst.
          finish d.pos inst >>= λ done. pure (some done))
        (after_prefixes d found)
      ≡ some (some i, d')
    → Decoded d d' i
unfolding start_instruction after_prefixes
body_Decoded d (p, n) i d' e =
    let m = dispatch (start_instruction d p) p.seg_override in
    let rest = λ (inst : Instruction). finish d.pos inst >>= λ done. pure (some done) in
    let (inst, d₂, q, r) = bind-some m rest (after_prefixes d (p, n)) e in
    let (b, o, f, s) =
      dispatch_advances (start_instruction d p) p.seg_override (after_prefixes d (p, n)) inst d₂
        q in
    let stamp =
      (dispatch-Stamped (start_instruction d p) p.seg_override).at (after_prefixes d (p, n)) inst d₂
        q in
    let (same, moved) = finish_lem d.pos inst d₂ r in
    let moved_pos : d'.pos ≡ d₂.pos = ap (λ (x : Decoder). x.pos) moved in
    let made : i ≡ record inst { length = d₂.pos - d.pos; raw = slice d₂.bytes d.pos d₂.pos } =
      same in
    let long : i.length ≡ d₂.pos - d.pos = ap (λ (x : Instruction). x.length) made in
    record {
      bytes = ap (λ (x : Decoder). x.bytes) moved ∙ b;
      base = ap (λ (x : Decoder). x.base) moved ∙ o;
      address = ap (λ (x : Instruction). x.address) made ∙ stamp.address;
      offset = ap (λ (x : Instruction). x.offset) made ∙ stamp.offset;
      end = omega (arith, long, moved_pos, f);
      nonempty = omega (arith, long, f);
      inside = omega (arith, moved_pos, s);
      raw = ap (λ (x : Instruction). x.raw) made ∙ rw (b, moved_pos) refl;
    }

-- An instruction that `decode_one` returns describes the bytes that it consumed.
pub decode_one-Decoded :
    (d : Decoder) (i : Instruction) (d' : Decoder)
    → decode_one d ≡ some (some i, d')
    → Decoded d d' i
unfolding decode_one decode_body
decode_one-Decoded d i d' e = elim (Bool-cases (leb (length d.bytes) d.pos)) [
  | inl out ↦ cc (rw out at e)
  | inr in_data ↦
      let found = scan_prefixes (drop d.pos d.bytes) 0 no_prefixes in
      let e' = rw in_data at e in
      elim (Bool-cases (leb (length d.bytes) (after_prefixes d found).pos)) [
        | inl out ↦ cc (rw out at e')
        | inr more ↦ body_Decoded d found i d' (rw more at e')
      ]
]

finish-ne-none :
    (start : ℕ) (inst : Instruction) (d d' : Decoder)
    → (finish start inst >>= λ done. pure (some done)) d ≡ some (none, d')
    → ⊥
unfolding finish pure
finish-ne-none start inst d d' e = cc

body_ne_none :
    (d : Decoder) (found : Prefixes × ℕ) (d' : Decoder)
    → (dispatch (start_instruction d found.0) found.0.seg_override >>= λ inst.
          finish d.pos inst >>= λ done. pure (some done))
        (after_prefixes d found)
      ≡ some (none, d')
    → ⊥
body_ne_none d found d' e =
    let m = dispatch (start_instruction d found.0) found.0.seg_override in
    let rest = λ (inst : Instruction). finish d.pos inst >>= λ done. pure (some done) in
    let (inst, d₂, q, r) = bind-some m rest (after_prefixes d found) e in
    finish-ne-none d.pos inst d₂ d' r

-- Where `decode_one` returns None, what is left of the data is prefix bytes (or nothing).
pub decode_one-none :
    (d d' : Decoder)
    → decode_one d ≡ some (none, d')
    → (d'.bytes ≡ d.bytes) × (length d.bytes ≤ d'.pos) × All IsPrefixByte (drop d.pos d.bytes)
unfolding decode_one decode_body after_prefixes
decode_one-none d d' e =
    let xs = drop d.pos d.bytes in
    let (lo, hi, all) = scan_prefixes_bounds xs 0 no_prefixes in
    elim (Bool-cases (leb (length d.bytes) d.pos)) [
      | inl out ↦
          let moved : d' ≡ d = cc (rw out at e) in
          let past : length d.bytes ≤ d.pos = leb→le (length d.bytes) d.pos out in
          (
            ap (λ (x : Decoder). x.bytes) moved,
            omega (arith, past, ap (λ (x : Decoder). x.pos) moved),
            all (omega (arith, length-drop d.pos d.bytes)),
          )
      | inr in_data ↦
          let found = scan_prefixes xs 0 no_prefixes in
          let e' = rw in_data at e in
          elim (Bool-cases (leb (length d.bytes) (d.pos + found.1))) [
            | inr more ↦ absurd (body_ne_none d found d' (rw more at e'))
            | inl out ↦
                let moved : d' ≡ after_prefixes d found = cc (rw out at e') in
                let past = leb→le (length d.bytes) (d.pos + found.1) out in
                (
                  ap (λ (x : Decoder). x.bytes) moved,
                  omega (arith, past, ap (λ (x : Decoder). x.pos) moved),
                  all (omega (arith, past, length-drop d.pos d.bytes)),
                )
          ]
    ]

db_instruction-Decoded :
    (d : Decoder)
    → d.pos < length d.bytes
    → Decoded d (record d { pos = d.pos + 1 }) (db_instruction d)
unfolding db_instruction
db_instruction-Decoded d h = record {
  bytes = refl;
  base = refl;
  address = refl;
  offset = refl;
  end = refl;
  nonempty = omega arith;
  inside = omega arith;
  raw = refl;
}

-- A decode that raises was not at the end of the data.
decode_one-raises : (d : Decoder) → decode_one d ≡ none → d.pos < length d.bytes
unfolding decode_one
decode_one-raises d e = ground arith

-- One round of the sweep: an instruction or a `db` that describes the bytes consumed, or the end.
pub decode_or_db-Decoded :
    (d : Decoder) (i : Instruction) (d' : Decoder) → decode_or_db d ≡ (some i, d') → Decoded d d' i
unfolding decode_or_db
decode_or_db-Decoded d i d' e = elim (Option-cases (decode_one d)) [
  | inl raised ↦
      let h = rw (raised, decode_or_db) at e in
      let made : i ≡ db_instruction d = cc h in
      let moved : d' ≡ record d { pos = d.pos + 1 } = cc h in
      rw (made, moved) (db_instruction-Decoded d (decode_one-raises d raised))
  | inr (r, returned) ↦
      decode_one-Decoded d i d' (returned ∙ ap some (rw (returned, decode_or_db) at e))
]

pub decode_or_db-none :
    (d d' : Decoder)
    → decode_or_db d ≡ (none, d')
    → (d'.bytes ≡ d.bytes) × (length d.bytes ≤ d'.pos) × All IsPrefixByte (drop d.pos d.bytes)
unfolding decode_or_db
decode_or_db-none d d' e = elim (Option-cases (decode_one d)) [
  | inl raised ↦ absurd (cc (rw (raised, decode_or_db) at e))
  | inr (r, returned) ↦ decode_one-none d d' (returned ∙ ap some (rw (returned, decode_or_db) at e))
]
