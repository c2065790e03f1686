-- ===== src/Cabinet/Extract.antt =====
-- `_extract_compressed`: the loop over the chunks of one file. `zlib.decompress` of raw deflate data is
-- a parameter, which is `none` where zlib raises; so is the MD5 digest.
use linuxrecomp.Base.{
  ℕ, zero, suc, ◌+◌, Option, none, some, List, [], ◌∷◌, ◌++◌, if◌then◌else◌, leb, ltb, ◌==◌, length,
  take, drop, ◌||◌,
}
use linuxrecomp.Base.Text.{same_text}
use linuxrecomp.Pe64.Bytes.{le_value}
use linuxrecomp.Cabinet.{
  CabError, seek_overflow, end_at_size, end_in_chunk, bad_deflate, FileDescriptor, is_obfuscated,
}
use linuxrecomp.Cabinet.Scramble.{deobfuscate}

-- The cabinet file behind its position, and the seed, where the stream is scrambled.
pub record Stream : Type 0 where
  pub rest : List ℕ
  pub seed : Option ℕ

-- `rd`
unfoldable pub rd : ℕ → Stream → List ℕ × Stream
rd n s =
    let raw = take n s.rest in
    let left = drop n s.rest in
    elim s.seed [
      | none ↦ (raw, record { rest = left; seed = none })
      | some seed ↦
          let (plain, next) = deobfuscate raw seed in
          (plain, record { rest = left; seed = some next })
    ]

-- What is in the output file, and the two counts of the loop.
pub record Progress : Type 0 where
  pub out : List ℕ
  pub total_written : ℕ
  pub total_comp_read : ℕ

-- How the loop ends: the end of its condition or a chunk size 0, an exception, which leaves what was
-- written, or too little fuel.
pub data LoopEnd : Type 0 where
  ended : Progress → LoopEnd
  stopped : CabError → Progress → LoopEnd
  out_of_fuel : LoopEnd

-- out.write(decompressed), and the counts.
unfoldable pub written : Progress → ℕ → List ℕ → Progress
written p chunk_size plain = record {
  out = p.out ++ plain;
  total_written = p.total_written + length plain;
  total_comp_read = p.total_comp_read + 2 + chunk_size;
}

-- What a round of the loop does: it ends the loop, or goes on with the stream.
pub data Round : Type 0 where
  ends : LoopEnd → Round
  continues : Progress → Stream → Round

abbrev pub start : Progress
start = record { out = []; total_written = 0; total_comp_read = 0 }

-- The stream of a file: `seek` to a position it does not refuse, and the first seed.
unfoldable pub open_stream : List ℕ → FileDescriptor → Stream
open_stream cab fd = record {
  rest = drop fd.data_offset cab;
  seed = if is_obfuscated fd then some 0 else none;
}

module _ (decompress : List ℕ → Option (List ℕ)) where
  -- A round behind the read of the chunk's data.
  unfoldable pub data_read : ℕ → Progress → List ℕ × Stream → Round
  data_read chunk_size p (chunk_data, s) =
      if ltb (length chunk_data) chunk_size
      then ends (stopped (end_in_chunk (length chunk_data) chunk_size) p)
      else elim (decompress chunk_data) [
        | none ↦ ends (stopped (bad_deflate (p.total_comp_read + 2 + chunk_size)) p)
        | some plain ↦ continues (written p chunk_size plain) s
      ]

  -- A round behind the read of the chunk's size.
  unfoldable pub size_read : Progress → List ℕ × Stream → Round
  size_read p (size_bytes, s) =
      if ltb (length size_bytes) 2
      then ends (stopped end_at_size p)
      else if le_value size_bytes == 0
      then ends (ended p)
      else data_read (le_value size_bytes) p (rd (le_value size_bytes) s)

  -- The body of the loop.
  unfoldable pub loop_round : Progress → Stream → Round
  loop_round p s = size_read p (rd 2 s)

  -- The loop, on fuel.
  unfoldable pub chunk_loop : ℕ → ℕ → Progress → Stream → LoopEnd
  chunk_loop zero expanded p s = out_of_fuel
  chunk_loop (suc fuel) expanded p s =
      if leb expanded p.total_written then ended p else elim (loop_round p s) [
        | ends result ↦ result
        | continues p' s' ↦ chunk_loop fuel expanded p' s'
      ]

  -- The loop of `_extract_compressed`. The fuel is the length of the cabinet file
  -- and one more.
  unfoldable pub extract_chunks : List ℕ → FileDescriptor → LoopEnd
  extract_chunks cab fd = chunk_loop (suc (length cab)) fd.expanded_size start (open_stream cab fd)

-- The warnings that `_extract_compressed` prints.
pub data Warning : Type 0 where
  size_differs : ℕ → ℕ → Warning
  md5_differs : Warning

pub data Extraction : Type 0 where
  extracted : List ℕ → List Warning → Extraction
  failed : CabError → List ℕ → Extraction
  unfinished : Extraction

abbrev no_digest : List ℕ
no_digest = 0 ∷ 0 ∷ 0 ∷ 0 ∷ 0 ∷ 0 ∷ 0 ∷ 0 ∷ 0 ∷ 0 ∷ 0 ∷ 0 ∷ 0 ∷ 0 ∷ 0 ∷ 0 ∷ []

unfoldable pub size_warnings : Progress → FileDescriptor → List Warning
size_warnings p fd =
    if p.total_written == fd.expanded_size
    then []
    else size_differs p.total_written fd.expanded_size ∷ []

unfoldable pub md5_warnings : (List ℕ → List ℕ) → Progress → FileDescriptor → List Warning
md5_warnings digest p fd =
    if same_text fd.md5 no_digest || same_text (digest p.out) fd.md5 then [] else md5_differs ∷ []

-- What the end of the loop comes to.
unfoldable pub after_loop : (List ℕ → List ℕ) → FileDescriptor → LoopEnd → Extraction
after_loop digest fd (ended p) = extracted p.out (size_warnings p fd ++ md5_warnings digest p fd)
after_loop digest fd (stopped error p) = failed error p.out
after_loop digest fd out_of_fuel = unfinished

-- The positions of a file: `seek` raises OverflowError from here on.
abbrev pub seek_limit : ℕ
seek_limit = 0x8000000000000000

-- `_extract_compressed`, where the output file can be opened and written.
unfoldable pub extract_compressed :
    (List ℕ → Option (List ℕ)) → (List ℕ → List ℕ) → List ℕ → FileDescriptor → Extraction
extract_compressed decompress digest cab fd =
    if leb seek_limit fd.data_offset
    then failed seek_overflow []
    else after_loop digest fd (extract_chunks decompress cab fd)
