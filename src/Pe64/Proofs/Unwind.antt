-- ===== src/Pe64/Proofs/Unwind.antt =====
-- What a decoded unwind record holds.
use linuxrecomp.Base.{
  refl, length, ap, ◌∙◌, ℕ, zero, suc, ◌+◌, ◌*◌, ◌/◌, ◌%◌, ◌<◌, ◌≡◌, Bool, true, false, Option,
  none, some, List, [], ◌∷◌, arith, if◌then◌else◌, ◌==◌, get_or, All, Option-cases, inl, inr,
}
use mathlib.Core.Path.{subst, ap₂}
use linuxrecomp.Pe64.{PeImage, has_flag}
use linuxrecomp.Pe64.Bytes.{IsByte, u32_at}
use linuxrecomp.Pe64.Address.{read_rva}
use linuxrecomp.Pe64.Exceptions.{UnwindInfo, unwind_of, unwind_info, optional_field}
use linuxrecomp.Pe64.Proofs.Reads.{read_rva_exact}
use linuxrecomp.Pe64.Proofs.Tables.{read_rva-IsByte}

-- A field that is there where the flag is set, and then holds the first 32 bits of `size` bytes at `at`.
abbrev pub IsOptional : PeImage → Bool → ℕ → ℕ → Option ℕ → Type 0
IsOptional img false at size found = found ≡ none
IsOptional img true at size found =
    (raw : List ℕ) × (read_rva img at size ≡ some raw) × (found ≡ some (u32_at raw 0))

-- Where the codes of a record end: two bytes each, and one more where their number is odd.
abbrev pub codes_end : ℕ → UnwindInfo → ℕ
codes_end rva u = rva + 4 + 2 * (u.code_slots + u.code_slots % 2)

-- The four bytes of the header hold the fields, each in its bits; the handler's address (flags 1 and 2)
-- and then the entry that is continued (flag 4) stand behind the codes.
pub record IsUnwind (img : PeImage) (rva : ℕ) (u : UnwindInfo) : Type 0 where
  pub header :
      read_rva img rva 4
      ≡ some (
          (u.version + 8 * u.flags)
          ∷ u.prolog_size
          ∷ u.code_slots
          ∷ (u.frame_register + 16 * u.frame_offset)
          ∷ [])
  pub version : u.version < 8
  pub flags : u.flags < 32
  pub prolog_size : u.prolog_size < 256
  pub code_slots : u.code_slots < 256
  pub frame_register : u.frame_register < 16
  pub frame_offset : u.frame_offset < 16
  pub handler : IsOptional img (has_flag u.flags 3) (codes_end rva u) 4 u.handler_rva
  pub chained :
      IsOptional img
        (has_flag u.flags 4)
        (codes_end rva u + (if has_flag u.flags 3 then 4 else 0))
        12
        u.chained_begin_rva

get_or-IsByte : (xs : List ℕ) (i : ℕ) → All IsByte xs → get_or xs i 0 < 256
get_or-IsByte [] i h = omega arith
get_or-IsByte (x ∷ xs) zero h = h.0
get_or-IsByte (x ∷ xs) (suc i) h = get_or-IsByte xs i h.1

four_bytes :
    (xs : List ℕ)
    → length xs ≡ 4
    → xs ≡ get_or xs 0 0 ∷ get_or xs 1 0 ∷ get_or xs 2 0 ∷ get_or xs 3 0 ∷ []
four_bytes [] h = absurd (omega arith)
four_bytes (a ∷ []) h = absurd (omega arith)
four_bytes (a ∷ b ∷ []) h = absurd (omega arith)
four_bytes (a ∷ b ∷ c ∷ []) h = absurd (omega arith)
four_bytes (a ∷ b ∷ c ∷ d ∷ []) h = refl
four_bytes (a ∷ b ∷ c ∷ d ∷ e ∷ xs) h = absurd (omega arith)

header_fields :
    (a b c d : ℕ)
    → Path
        (List ℕ)
        (a ∷ b ∷ c ∷ d ∷ [])
        ((a % 8 + 8 * (a / 8)) ∷ b ∷ c ∷ (d % 16 + 16 * (d / 16)) ∷ [])
header_fields a b c d =
    let low : a ≡ a % 8 + 8 * (a / 8) = omega arith in
    let high : d ≡ d % 16 + 16 * (d / 16) = omega arith in ap₂ (λ x y. x ∷ b ∷ c ∷ y ∷ []) low high

optional_field-IsOptional :
    (img : PeImage) (flag : Bool) (at size : ℕ) {field : Option ℕ}
    → optional_field img flag at size ≡ some field
    → IsOptional img flag at size field
unfolding optional_field
optional_field-IsOptional img true at size e = elim (Option-cases (read_rva img at size)) [
  | inl missing ↦ cc (rw (missing, optional_field) at e)
  | inr (raw, got) ↦ (raw, got, cc (rw (got, optional_field) at e))
]
optional_field-IsOptional img false at size e = cc e

unwind_of-IsUnwind :
    (img : PeImage) (rva : ℕ) (header : List ℕ) (u : UnwindInfo)
    → read_rva img rva 4 ≡ some header
    → length header ≡ 4
    → All IsByte header
    → unwind_of img rva header ≡ some u
    → IsUnwind img rva u
unfolding unwind_of
unwind_of-IsUnwind img rva header u found long h e =
    let flags = get_or header 0 0 / 8 in
    let code_slots = get_or header 2 0 in
    let trailing = rva + 4 + code_slots * 2 + (if code_slots % 2 == 0 then 0 else 2) in
    let behind : trailing ≡ rva + 4 + 2 * (code_slots + code_slots % 2) = ground arith in
    let handled = has_flag flags 3 in
    let chain_at = trailing + (if handled then 4 else 0) in
    elim (Option-cases (optional_field img handled trailing 4)) [
      | inl missing ↦ cc (rw (missing, unwind_of) at e)
      | inr (handler, got) ↦
          let e₁ = rw (got, unwind_of) at e in
          elim (Option-cases (optional_field img (has_flag flags 4) chain_at 12)) [
            | inl missing ↦ cc (rw missing at e₁)
            | inr (chained, got') ↦
                let e₂ = rw got' at e₁ in
                let made : record {
                  version = get_or header 0 0 % 8;
                  flags = flags;
                  prolog_size = get_or header 1 0;
                  code_slots = code_slots;
                  frame_register = get_or header 3 0 % 16;
                  frame_offset = get_or header 3 0 / 16;
                  handler_rva = handler;
                  chained_begin_rva = chained;
                }
                    ≡ u =
                  cc e₂ in
                subst (IsUnwind img rva) made (record {
                  header =
                      found
                      ∙ ap some (
                          four_bytes header long
                          ∙ header_fields (get_or header 0 0) (get_or header 1 0)
                              (get_or header 2 0) (get_or header 3 0));
                  version = omega arith;
                  flags = omega (arith, get_or-IsByte header 0 h);
                  prolog_size = get_or-IsByte header 1 h;
                  code_slots = get_or-IsByte header 2 h;
                  frame_register = omega arith;
                  frame_offset = omega (arith, get_or-IsByte header 3 h);
                  handler =
                      subst (λ (at : ℕ). IsOptional img handled at 4 handler) behind
                        (optional_field-IsOptional img handled trailing 4 got);
                  chained =
                      subst
                        (λ (at : ℕ).
                          IsOptional img (has_flag flags 4) (at + (if handled then 4 else 0)) 12
                            chained)
                        behind (optional_field-IsOptional img (has_flag flags 4) chain_at 12 got');
                })
          ]
    ]

-- A decoded UNWIND_INFO: the four bytes at its address are its six header fields packed into their
-- bits, and the handler and the chained function, which are there exactly when the flags say so, are
-- read behind the unwind codes, whose number is rounded up to an even one.
pub unwind_info-IsUnwind :
    (img : PeImage) (rva : ℕ) (u : UnwindInfo)
    → All IsByte img.bytes
    → unwind_info img rva ≡ some u
    → IsUnwind img rva u
unfolding unwind_info
unwind_info-IsUnwind img rva u h e = elim (Option-cases (read_rva img rva 4)) [
  | inl missing ↦ cc (rw (missing, unwind_info) at e)
  | inr (header, got) ↦
      unwind_of-IsUnwind img rva header u got (read_rva_exact img rva 4 header got).0
        (read_rva-IsByte img rva 4 header h got) (rw (got, unwind_info) at e)
]
