-- ===== src/Cabinet/Proofs/Ends.antt =====
-- The loop of `_extract_compressed`: how it ends, on every cabinet file.
use linuxrecomp.Base.{
  ◌⊎◌, ℕ, zero, suc, ◌+◌, ◌≤◌, ◌<◌, ◌≡◌, refl, ap, Option, List, [], ◌∷◌, ◌++◌, leb, ltb, ◌==◌,
  length, take, drop, arith, true, false, Bool-cases, Bool, not, any_of, Option-cases, inl, inr,
  length-append, length-drop, length-take,
}
use linuxrecomp.Pe64.Bytes.{le_value}
use linuxrecomp.Cabinet.{FileDescriptor}
use linuxrecomp.Cabinet.Scramble.{deobfuscate}
use linuxrecomp.Cabinet.Extract.{
  Stream, rd, Progress, LoopEnd, ended, stopped, out_of_fuel, written, Round, ends, continues,
  data_read, size_read, loop_round, chunk_loop, open_stream, extract_chunks, Extraction, extracted,
  failed, unfinished, extract_compressed, size_warnings, md5_warnings, after_loop, seek_limit,
  Warning, size_differs, md5_differs,
}

-- The count of the loop is the length of the output.
abbrev pub IsCounted : Progress → Type 0
IsCounted p = p.total_written ≡ length p.out

abbrev pub IsLoopEnd : ℕ → LoopEnd → Type 0
IsLoopEnd expanded (ended p) = IsCounted p
IsLoopEnd expanded (stopped error p) = IsCounted p × (length p.out < expanded)
IsLoopEnd expanded out_of_fuel = ⊥

abbrev IsRound : ℕ → ℕ → Round → Type 0
IsRound expanded left (ends result) = IsLoopEnd expanded result
IsRound expanded left (continues p s) = IsCounted p × (length s.rest < left)

length-deobfuscate : (xs : List ℕ) (seed : ℕ) → length (deobfuscate xs seed).0 ≡ length xs
unfolding deobfuscate
length-deobfuscate [] seed = refl
length-deobfuscate (x ∷ xs) seed = ap suc (length-deobfuscate xs (suc seed))

-- A read takes what it returns from the stream.
pub rd_rest : (n : ℕ) (s : Stream) → (rd n s).1.rest ≡ drop n s.rest
unfolding rd
rd_rest n s = elim (Option-cases s.seed) [
  | inl plain ↦ rw plain
  | inr (seed, scrambled) ↦ rw scrambled
]

rd_length : (n : ℕ) (s : Stream) → length (rd n s).0 ≡ length (take n s.rest)
unfolding rd
rd_length n s = elim (Option-cases s.seed) [
  | inl plain ↦ rw plain
  | inr (seed, scrambled) ↦ rw scrambled (length-deobfuscate (take n s.rest) seed)
]

rd_shorter : (n : ℕ) (s : Stream) → length (rd n s).0 + length (rd n s).1.rest ≤ length s.rest
rd_shorter n s =
    omega
      (arith, rd_length n s, ap length (rd_rest n s), length-drop n s.rest, length-take n s.rest)

module _ (decompress : List ℕ → Option (List ℕ)) (expanded : ℕ) where
  data_read-IsRound :
      (n : ℕ) (p : Progress) (left : ℕ) (read : List ℕ × Stream)
      → IsCounted p
      → p.total_written < expanded
      → length read.1.rest < left
      → IsRound expanded left (data_read decompress n p read)
  unfolding data_read written
  data_read-IsRound n p left (bytes, s) counted below shorter =
      elim (Bool-cases (ltb (length bytes) n)) [
        | inl short ↦ rw short (counted, omega arith)
        | inr full ↦ elim (Option-cases (decompress bytes)) [
          | inl bad ↦ rw (full, bad) (counted, omega arith)
          | inr (plain, good) ↦
              rw (full, good) (omega (arith, counted, length-append p.out plain), shorter)
        ]
      ]

  size_read-IsRound :
      (p : Progress) (left : ℕ) (read : List ℕ × Stream)
      → IsCounted p
      → p.total_written < expanded
      → length read.0 + length read.1.rest ≤ left
      → IsRound expanded left (size_read decompress p read)
  unfolding size_read
  size_read-IsRound p left (bytes, s) counted below shorter =
      elim (Bool-cases (ltb (length bytes) 2)) [
        | inl short ↦ rw short (counted, omega arith)
        | inr full ↦ elim (Bool-cases (le_value bytes == 0)) [
          | inl last ↦ rw (full, last) counted
          | inr more ↦
              rw (full, more)
                (data_read-IsRound (le_value bytes) p left (rd (le_value bytes) s) counted below
                  (ground (arith, rd_shorter (le_value bytes) s)))
        ]
      ]

  pub chunk_loop-IsLoopEnd :
      (fuel : ℕ) (p : Progress) (s : Stream)
      → IsCounted p
      → length s.rest < fuel
      → IsLoopEnd expanded (chunk_loop decompress fuel expanded p s)
  unfolding chunk_loop loop_round
  chunk_loop-IsLoopEnd zero p s counted h = absurd (omega arith)
  chunk_loop-IsLoopEnd (suc fuel) p s counted h = elim (Bool-cases (leb expanded p.total_written)) [
    | inl full ↦ rw full counted
    | inr more ↦ rw more (
        go_on (loop_round decompress p s)
          (λ p' s' counted' shorter. chunk_loop-IsLoopEnd fuel p' s' counted' (omega arith))
          (size_read-IsRound p (length s.rest) (rd 2 s) counted (ground arith)
            (omega (arith, rd_shorter 2 s))))
  ]
    where
      go_on :
          (r : Round)
          → ((p' : Progress) (s' : Stream)
              → IsCounted p'
              → length s'.rest < length s.rest
              → IsLoopEnd expanded (chunk_loop decompress fuel expanded p' s'))
          → IsRound expanded (length s.rest) r
          → IsLoopEnd expanded (elim r [
            | ends result ↦ result
            | continues p' s' ↦ chunk_loop decompress fuel expanded p' s'
          ])
      go_on (ends result) next h = h
      go_on (continues p' s') next (counted', shorter) = next p' s' counted' shorter

unfoldable pub is_size_warning : Warning → Bool
is_size_warning (size_differs n m) = true
is_size_warning md5_differs = false

-- What an extraction may come to, for a file of `fd.expanded_size` bytes: its warning on the size says
-- exactly whether the output has another length, and a failure leaves a shorter output, or none at all
-- where `seek` refuses the position.
abbrev pub IsOutcome : FileDescriptor → Extraction → Type 0
IsOutcome fd (extracted out warnings) =
    any_of is_size_warning warnings ≡ not (length out == fd.expanded_size)
IsOutcome fd (failed error out) =
    (length out < fd.expanded_size) ⊎ ((seek_limit ≤ fd.data_offset) × (out ≡ []))
IsOutcome fd unfinished = ⊥

ended-IsOutcome :
    (digest : List ℕ → List ℕ) (fd : FileDescriptor) (p : Progress)
    → IsCounted p
    → IsOutcome fd (extracted p.out (size_warnings p fd ++ md5_warnings digest p fd))
unfolding size_warnings md5_warnings any_of is_size_warning
ended-IsOutcome digest fd p counted = ground (arith, counted)

loop_ends :
    (decompress : List ℕ → Option (List ℕ)) (cab : List ℕ) (fd : FileDescriptor)
    → IsLoopEnd fd.expanded_size (extract_chunks decompress cab fd)
unfolding extract_chunks open_stream
loop_ends decompress cab fd =
    chunk_loop-IsLoopEnd decompress fd.expanded_size (suc (length cab)) _ _ refl
      (omega (arith, length-drop fd.data_offset cab))

after_loop-IsOutcome :
    (digest : List ℕ → List ℕ) (fd : FileDescriptor) (e : LoopEnd)
    → IsLoopEnd fd.expanded_size e
    → IsOutcome fd (after_loop digest fd e)
unfolding after_loop
after_loop-IsOutcome digest fd (ended p) counted = ended-IsOutcome digest fd p counted
after_loop-IsOutcome digest fd (stopped error p) (counted, below) = inl below
after_loop-IsOutcome digest fd out_of_fuel finished = elim finished [ ]

-- Extraction ends on every cabinet file and descriptor. Where it succeeds, the warning on the size is
-- there exactly where the output has not the expected size; where it fails, the output is shorter, or
-- nothing was written and the file's position is one that `seek` refuses.
pub extract_compressed-IsOutcome :
    (decompress : List ℕ → Option (List ℕ)) (digest : List ℕ → List ℕ) (cab : List ℕ)
    (fd : FileDescriptor)
    → IsOutcome fd (extract_compressed decompress digest cab fd)
unfolding extract_compressed
extract_compressed-IsOutcome decompress digest cab fd =
    elim (Bool-cases (leb seek_limit fd.data_offset)) [
      | inl refused ↦ rw refused (inr (ground arith, refl))
      | inr sought ↦ rw sought (
          after_loop-IsOutcome digest fd (extract_chunks decompress cab fd)
            (loop_ends decompress cab fd))
    ]
