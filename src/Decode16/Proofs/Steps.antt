-- ===== src/Decode16/Proofs/Steps.antt =====
-- Runs of the reads and of `decode_one` where the bytes at the position are known.
use linuxrecomp.Base.{
  ℕ, zero, suc, ◌+◌, ◌-◌, ◌*◌, ◌<◌, ◌≡◌, refl, ap, ◌∙◌, false, Option, none, some, List, [], ◌∷◌,
  arith, if◌then◌else◌, leb, length, drop, slice, get_elem?,
}
use native.Mathlib.Nat.{add-zero}
use linuxrecomp.Decode16.{Instruction, Decoder}
use linuxrecomp.Decode16.Reader.{M, ◌>>=◌, pure, u8, u16, s8, s16, signed8, signed16}
use linuxrecomp.Decode16.Arms.{choose}
use linuxrecomp.Decode16.Decode.{
  no_prefixes, prefix_step, scan_prefixes, opcode_arms, dispatch, finish, start_instruction,
  after_prefixes, decode_body, decode_one, unknown,
}

-- The head of what is left is the byte at the position.
pub drop-get_elem? :
    (xs : List ℕ) (n : ℕ) {b : ℕ} {rest : List ℕ}
    → drop n xs ≡ b ∷ rest
    → (get_elem? xs n ≡ some b) × (drop (n + 1) xs ≡ rest) × (n < length xs)
drop-get_elem? [] zero h = cc
drop-get_elem? [] (suc n) h = cc
drop-get_elem? (x ∷ xs) zero h = (cc, cc, omega arith)
drop-get_elem? (x ∷ xs) (suc n) {b} {rest} h =
    let (found, left, inside) = drop-get_elem? xs n h in
    (found, ap (λ k. drop k (x ∷ xs)) shift ∙ left, omega (arith, inside))
  where
    shift : suc n + 1 ≡ suc (n + 1)
    shift = omega arith

pub u8_at :
    (d : Decoder) (b : ℕ) (rest : List ℕ)
    → drop d.pos d.bytes ≡ b ∷ rest
    → u8 d ≡ some (b, record d { pos = d.pos + 1 })
unfolding u8
u8_at d b rest h = rw ((drop-get_elem? d.bytes d.pos h).0, u8) refl

module _ {A B : Type 0} where
  option_bind_at :
      (o : Option (A × Decoder)) (f : A → M B) {a : A} {d : Decoder}
      → o ≡ some (a, d)
      → elim o [ none ↦ none | some (b, e) ↦ f b e ] ≡ f a d
  option_bind_at none f e = cc
  option_bind_at (some (b, d')) f e = cc

  -- A chain goes on where its first step returns.
  pub bind_at :
      (m : M A) (f : A → M B) (d : Decoder) {a : A} {d' : Decoder}
      → m d ≡ some (a, d')
      → (m >>= f) d ≡ f a d'
  bind_at m f d e = option_bind_at (m d) f e

pub u16_at :
    (d : Decoder) (lo hi : ℕ) (rest : List ℕ)
    → drop d.pos d.bytes ≡ lo ∷ hi ∷ rest
    → u16 d ≡ some (lo + hi * 256, record d { pos = d.pos + 1 + 1 })
unfolding u16 pure
u16_at d lo hi rest left =
    bind_at u8 (λ low. u8 >>= λ high. pure (low + high * 256)) d (u8_at d lo (hi ∷ rest) left)
    ∙ bind_at u8 (λ high. pure (lo + high * 256)) (record d { pos = d.pos + 1 })
        (u8_at (record d { pos = d.pos + 1 }) hi rest (drop-get_elem? d.bytes d.pos left).1)

pub s16_at :
    (d : Decoder) (lo hi : ℕ) (rest : List ℕ)
    → drop d.pos d.bytes ≡ lo ∷ hi ∷ rest
    → s16 d ≡ some (signed16 (lo + hi * 256), record d { pos = d.pos + 1 + 1 })
unfolding s16 pure
s16_at d lo hi rest left = bind_at u16 (λ v. pure (signed16 v)) d (u16_at d lo hi rest left)

scan_prefixes_none :
    (xs : List ℕ) (opcode : ℕ) (rest : List ℕ)
    → xs ≡ opcode ∷ rest
    → prefix_step opcode (get_elem? rest 0) no_prefixes ≡ none
    → scan_prefixes xs 0 no_prefixes ≡ (no_prefixes, 0)
unfolding scan_prefixes
scan_prefixes_none xs opcode rest left plain = rw left (rw (plain, scan_prefixes) refl)

abbrev pub without_prefixes : Decoder → Decoder
without_prefixes d = record d { op32 = false; addr32 = false }

abbrev pub finished : ℕ → Instruction → Decoder → Instruction
finished start i d = record i { length = d.pos - start; raw = slice d.bytes start d.pos }

pub s8_at :
    (d : Decoder) (b : ℕ) (rest : List ℕ)
    → drop d.pos d.bytes ≡ b ∷ rest
    → s8 d ≡ some (signed8 b, record d { pos = d.pos + 1 })
unfolding s8 pure
s8_at d b rest left = bind_at u8 (λ v. pure (signed8 v)) d (u8_at d b rest left)

-- Without prefixes: what `decode_one` does with the opcode at the position.
pub decode_one_at :
    (d : Decoder) (opcode : ℕ) (rest : List ℕ) (i : Instruction) (d' : Decoder)
    → drop d.pos d.bytes ≡ opcode ∷ rest
    → prefix_step opcode (get_elem? rest 0) no_prefixes ≡ none
    → dispatch (start_instruction d no_prefixes) "" (without_prefixes d) ≡ some (i, d')
    → decode_one d ≡ some (some (finished d.pos i d'), d')
unfolding decode_one decode_body after_prefixes finish pure
decode_one_at d opcode rest i d' left plain ran =
    rw (in_data, decode_one)
      (ap (decode_body d) (scan_prefixes_none (drop d.pos d.bytes) opcode rest left plain)
        ∙ ap after (add-zero d.pos)
        ∙ rw in_data (
            bind_at body (λ inst. finish d.pos inst >>= λ done. pure (some done))
              (without_prefixes d) ran))
  where
    in_data : leb (length d.bytes) d.pos ≡ false
    in_data = ground (arith, (drop-get_elem? d.bytes d.pos left).2)

    body : M Instruction
    body = dispatch (start_instruction d no_prefixes) ""

    after : ℕ → Option (Option Instruction × Decoder)
    after p =
        let e = record d { pos = p; op32 = false; addr32 = false } in
        if leb (length d.bytes) p
        then some (none, e)
        else (body >>= λ inst. finish d.pos inst >>= λ done. pure (some done)) e

pub dispatch_at :
    (inst : Instruction) (d : Decoder) (opcode : ℕ) (rest : List ℕ) (arm : M Instruction)
    → drop d.pos d.bytes ≡ opcode ∷ rest
    → choose (opcode_arms inst "" opcode) (unknown inst opcode) ≡ arm
    → dispatch inst "" d ≡ arm (record d { pos = d.pos + 1 })
unfolding dispatch
dispatch_at inst d opcode rest arm left chosen =
    bind_at u8 (λ op. choose (opcode_arms inst "" op) (unknown inst op)) d
      (u8_at d opcode rest left)
    ∙ ap (λ (m : M Instruction). m (record d { pos = d.pos + 1 })) chosen
