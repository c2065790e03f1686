-- ===== src/Cabinet/Proofs/Whole.antt =====
-- The extraction of a whole file that a maker has written.
use linuxrecomp.Base.{
  leb, false, ℕ, suc, ◌≤◌, ◌<◌, ◌≡◌, ap, ◌∙◌, Option, none, some, List, [], ◌∷◌, ◌++◌,
  if◌then◌else◌, ◌==◌, length, All, arith, true, length-append,
}
use linuxrecomp.Base.Text.{same_text, same_text_refl}
use linuxrecomp.Cabinet.{FileDescriptor, is_obfuscated}
use linuxrecomp.Cabinet.Extract.{
  Progress, ended, open_stream, extract_chunks, start, extracted, extract_compressed, after_loop,
  seek_limit, size_warnings, md5_warnings,
}
use linuxrecomp.Cabinet.Proofs.RoundTrip.{
  sealed, length-sealed, chunk, chunks, joined, IsPiece, drop_front,
}
use linuxrecomp.Cabinet.Proofs.Rounds.{wrote, wrote_out, wrote_total, chunk_loop-chunks}

-- The seed that the extraction of a file begins with.
unfoldable pub first_seed : FileDescriptor → Option ℕ
first_seed fd = if is_obfuscated fd then some 0 else none

length-chunks :
    (compress : List ℕ → List ℕ) (pieces : List (List ℕ))
    → length pieces ≤ length (chunks compress pieces)
unfolding chunks chunk
length-chunks compress [] = omega arith
length-chunks compress (plain ∷ pieces) =
    omega (
      arith,
      length-chunks compress pieces,
      length-append (compress plain) (chunks compress pieces),
    )

no_warnings :
    (digest : List ℕ → List ℕ) (fd : FileDescriptor) (p : Progress)
    → p.total_written ≡ fd.expanded_size
    → digest p.out ≡ fd.md5
    → size_warnings p fd ++ md5_warnings digest p fd ≡ []
unfolding size_warnings md5_warnings
no_warnings digest fd p sized summed =
    let same : (p.total_written == fd.expanded_size) ≡ true = ground arith in
    let equal = ap (λ d. same_text d fd.md5) summed ∙ same_text_refl fd.md5 in
    rw (same, equal) (ground arith)

module _ (compress : List ℕ → List ℕ) (decompress : List ℕ → Option (List ℕ))
    (digest : List ℕ → List ℕ) (fd : FileDescriptor) where
  -- A cabinet file with a file's chunks at its offset.
  unfoldable pub made : List (List ℕ) → List ℕ → List ℕ → List ℕ
  made pieces front tail = front ++ (sealed (first_seed fd) (chunks compress pieces) ++ tail)

  made-chunks :
      (pieces : List (List ℕ)) (front tail : List ℕ)
      → All (IsPiece compress decompress) pieces
      → length front ≡ fd.data_offset
      → length (joined pieces) ≡ fd.expanded_size
      → extract_chunks decompress (made pieces front tail) fd ≡ ended (wrote compress start pieces)
  unfolding extract_chunks open_stream made first_seed
  made-chunks pieces front tail h at total =
      let content = sealed (first_seed fd) (chunks compress pieces) in
      let enough : length pieces < suc (length (front ++ (content ++ tail))) = omega (
        arith,
        length-append front (content ++ tail),
        length-append content tail,
        length-chunks compress pieces,
        length-sealed (first_seed fd) (chunks compress pieces),
      ) in
      rw (drop_front front (content ++ tail) fd.data_offset at) (
        chunk_loop-chunks compress decompress pieces _ fd.expanded_size start (first_seed fd) tail h
          enough (omega arith))

  -- A file that was cut into pieces, each compressed and put behind its size, the whole scrambled where
  -- the flag says so, is extracted to the joined pieces without a warning, whatever stands in front of
  -- it and behind it. Each piece is not empty, its compressed form takes 1 to 65,535 bytes, and the
  -- decompressor undoes the compression; the descriptor has the offset, which is below 2 ^ 63, the size
  -- and the digest.
  pub extract_compressed-made :
      (pieces : List (List ℕ)) (front tail : List ℕ)
      → All (IsPiece compress decompress) pieces
      → length front ≡ fd.data_offset
      → fd.data_offset < seek_limit
      → length (joined pieces) ≡ fd.expanded_size
      → digest (joined pieces) ≡ fd.md5
      → extract_compressed decompress digest (made pieces front tail) fd
        ≡ extracted (joined pieces) []
  unfolding extract_compressed after_loop
  extract_compressed-made pieces front tail h at sought total summed =
      let in_range : leb seek_limit fd.data_offset ≡ false = ground arith in
      let out = wrote_out compress decompress start pieces in
      let count = wrote_total compress decompress start pieces in
      let quiet =
        no_warnings digest fd (wrote compress start pieces) (omega arith)
          (ap digest out ∙ summed) in
      rw (in_range, made-chunks pieces front tail h at total, extract_compressed, quiet)
        (ap (λ o. extracted o []) out)
