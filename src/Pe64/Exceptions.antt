-- ===== src/Pe64/Exceptions.antt =====
-- The TLS directory, the exception directory and the unwind records of `PE64Image`.
use linuxrecomp.Base.{
  ℕ, zero, suc, ◌+◌, ◌*◌, ◌/◌, ◌%◌, Bool, true, false, not, ◌&&◌, Option, none, some, List, [], ◌∷◌,
  if◌then◌else◌, ◌==◌, get_or,
}
use linuxrecomp.Base.Int.{ℤ, pos, ◌+ℤ◌}
use linuxrecomp.Pe64.{PeImage, present, has_flag}
use linuxrecomp.Pe64.Bytes.{le_value, u32_at, u64_at}
use linuxrecomp.Pe64.Address.{read_rva, read_signed, rva_of, directory}

-- `TlsInfo`
pub record TlsInfo : Type 0 where
  pub raw_start_va : ℕ
  pub raw_end_va : ℕ
  pub index_va : ℕ
  pub callbacks_va : ℕ
  pub callbacks : List ℕ
  pub zero_fill_size : ℕ
  pub characteristics : ℕ

-- The loop over the TLS callbacks, up to a zero.
unfoldable pub callbacks_from : ℕ → PeImage → ℤ → List ℕ
callbacks_from zero img rva = []
callbacks_from (suc n) img rva = elim (read_signed img rva 8) [
  | none ↦ []
  | some entry ↦
      let rest = callbacks_from n img (rva +ℤ pos 8) in
      if le_value entry == 0 then [] else le_value entry ∷ rest
]

unfoldable pub tls_info : PeImage → List ℕ → TlsInfo
tls_info img raw = record {
  raw_start_va = u64_at raw 0;
  raw_end_va = u64_at raw 8;
  index_va = u64_at raw 16;
  callbacks_va = u64_at raw 24;
  callbacks =
      if u64_at raw 24 == 0 then [] else callbacks_from 1024 img (rva_of img (u64_at raw 24));
  zero_fill_size = u32_at raw 32;
  characteristics = u32_at raw 36;
}

-- `tls`
unfoldable pub tls : PeImage → Option TlsInfo
tls img =
    if not (present (directory img 9)) then none else elim (read_rva img (directory img 9).rva 40) [
      | none ↦ none
      | some raw ↦ some (tls_info img raw)
    ]

-- `RuntimeFunction`
pub record RuntimeFunction : Type 0 where
  pub begin_rva : ℕ
  pub end_rva : ℕ
  pub unwind_rva : ℕ

unfoldable pub runtime_entry : List ℕ → ℕ → RuntimeFunction
runtime_entry raw index = record {
  begin_rva = u32_at raw (index * 12);
  end_rva = u32_at raw (index * 12 + 4);
  unwind_rva = u32_at raw (index * 12 + 8);
}

unfoldable pub is_empty_entry : RuntimeFunction → Bool
is_empty_entry f = f.begin_rva == 0 && (f.end_rva == 0 && f.unwind_rva == 0)

-- The entries of the table from `index` on; empty ones are skipped.
unfoldable pub entries_of_pdata : ℕ → ℕ → List ℕ → List RuntimeFunction
entries_of_pdata zero index raw = []
entries_of_pdata (suc n) index raw =
    let entry = runtime_entry raw index in
    let rest = entries_of_pdata n (index + 1) raw in
    if is_empty_entry entry then rest else entry ∷ rest

-- `runtime_functions`
unfoldable pub runtime_functions : PeImage → List RuntimeFunction
runtime_functions img =
    let count = (directory img 3).size / 12 in
    if not (present (directory img 3))
    then []
    else elim (read_rva img (directory img 3).rva (count * 12)) [
      | none ↦ []
      | some raw ↦ entries_of_pdata count 0 raw
    ]

-- `UnwindInfo`
pub record UnwindInfo : Type 0 where
  pub version : ℕ
  pub flags : ℕ
  pub prolog_size : ℕ
  pub code_slots : ℕ
  pub frame_register : ℕ
  pub frame_offset : ℕ
  pub handler_rva : Option ℕ
  pub chained_begin_rva : Option ℕ

unfoldable pub is_chained : UnwindInfo → Bool
is_chained u = has_flag u.flags 4

-- An optional field behind the unwind codes: read if the flag is set, and then the record ends where
-- the bytes are not there.
unfoldable pub optional_field : PeImage → Bool → ℕ → ℕ → Option (Option ℕ)
optional_field img false rva size = some none
optional_field img true rva size = elim (read_rva img rva size) [
  | none ↦ none
  | some raw ↦ some (some (u32_at raw 0))
]

-- The header byte of flags, with `handler` and `chain` at their places.
unfoldable pub unwind_of : PeImage → ℕ → List ℕ → Option UnwindInfo
unwind_of img rva header =
    let flags = get_or header 0 0 / 8 in
    let code_slots = get_or header 2 0 in
    let trailing = rva + 4 + code_slots * 2 + (if code_slots % 2 == 0 then 0 else 2) in
    let handled = has_flag flags 3 in
    elim (optional_field img handled trailing 4) [
      | none ↦ none
      | some handler ↦
          elim (optional_field img (has_flag flags 4) (trailing + (if handled then 4 else 0)) 12) [
            | none ↦ none
            | some chained ↦ some (record {
              version = get_or header 0 0 % 8;
              flags = flags;
              prolog_size = get_or header 1 0;
              code_slots = code_slots;
              frame_register = get_or header 3 0 % 16;
              frame_offset = get_or header 3 0 / 16;
              handler_rva = handler;
              chained_begin_rva = chained;
            })
          ]
    ]

-- `unwind_info`
unfoldable pub unwind_info : PeImage → ℕ → Option UnwindInfo
unwind_info img rva = elim (read_rva img rva 4) [
  | none ↦ none
  | some header ↦ unwind_of img rva header
]
