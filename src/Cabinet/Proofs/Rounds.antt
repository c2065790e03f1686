-- ===== src/Cabinet/Proofs/Rounds.antt =====
-- The rounds of the loop of `_extract_compressed` on the chunks of a maker.
use linuxrecomp.Base.{
  ℕ, zero, suc, ◌+◌, ◌/◌, ◌%◌, ◌<◌, ◌≡◌, refl, ap, sym, ◌∙◌, Option, some, List, [], ◌∷◌, ◌++◌, leb,
  ltb, ◌==◌, length, All, arith, true, false, length-append,
}
use mathlib.Core.List.{append_assoc, append-nil}
use linuxrecomp.Pe64.Bytes.{le_value}
use linuxrecomp.Cabinet.Extract.{
  Stream, rd, Progress, ended, written, continues, data_read, size_read, loop_round, chunk_loop,
}
use linuxrecomp.Cabinet.Proofs.RoundTrip.{
  sealed, moved, sealed-append, rd-sealed, chunk, chunks, joined, IsPiece,
}

-- What the loop has written behind these pieces.
unfoldable pub wrote : (List ℕ → List ℕ) → Progress → List (List ℕ) → Progress
wrote compress p [] = p
wrote compress p (plain ∷ pieces) =
    wrote compress (written p (length (compress plain)) plain) pieces

module _ (compress : List ℕ → List ℕ) (decompress : List ℕ → Option (List ℕ)) where
  pub wrote_out :
      (p : Progress) (pieces : List (List ℕ))
      → (wrote compress p pieces).out ≡ p.out ++ joined pieces
  unfolding wrote joined written
  wrote_out p [] = sym (append-nil p.out)
  wrote_out p (plain ∷ pieces) =
      wrote_out (written p (length (compress plain)) plain) pieces
      ∙ append_assoc p.out plain (joined pieces)

  pub wrote_total :
      (p : Progress) (pieces : List (List ℕ))
      → (wrote compress p pieces).total_written ≡ p.total_written + length (joined pieces)
  unfolding wrote joined written
  wrote_total p [] = omega arith
  wrote_total p (plain ∷ pieces) = omega (
    arith,
    wrote_total (written p (length (compress plain)) plain) pieces,
    length-append plain (joined pieces),
  )

  abbrev size_bytes : List ℕ → List ℕ
  size_bytes packed = length packed % 256 ∷ length packed / 256 ∷ []

  data_read_whole :
      (n : ℕ) (p : Progress) (packed plain : List ℕ) (s : Stream)
      → length packed ≡ n
      → decompress packed ≡ some plain
      → data_read decompress n p (packed, s) ≡ continues (written p n plain) s
  unfolding data_read
  data_read_whole n p packed plain s whole unpacked =
      let full : ltb (length packed) n ≡ false = ground arith in rw (full, unpacked)

  size_read_more :
      (p : Progress) (size : List ℕ) (n : ℕ) (s : Stream)
      → length size ≡ 2
      → le_value size ≡ n
      → 0 < n
      → size_read decompress p (size, s) ≡ data_read decompress n p (rd n s)
  unfolding size_read
  size_read_more p size n s two value positive =
      let enough : ltb (length size) 2 ≡ false = ground arith in
      let more : (le_value size == 0) ≡ false = ground arith in
      rw (enough, more) (ap (λ k. data_read decompress k p (rd k s)) value)

  sizes_value : (packed : List ℕ) → le_value (size_bytes packed) ≡ length packed
  unfolding le_value
  sizes_value packed = omega arith

  -- The round that reads a chunk of the maker.
  loop_round-chunk :
      (p : Progress) (seed : Option ℕ) (plain tail : List ℕ)
      → IsPiece compress decompress plain
      → loop_round decompress p (record {
        rest =
            sealed seed (size_bytes (compress plain))
            ++ (sealed (moved seed 2) (compress plain) ++ tail);
        seed = seed;
      })
        ≡ continues
            (written p (length (compress plain)) plain)
            (record { rest = tail; seed = moved (moved seed 2) (length (compress plain)) })
  unfolding loop_round
  loop_round-chunk p seed plain tail piece =
      let packed = compress plain in
      let n = length packed in
      let seed' = moved seed 2 in
      let after : Stream = record { rest = sealed seed' packed ++ tail; seed = seed' } in
      ap (size_read decompress p) (
        rd-sealed seed (size_bytes packed) (sealed seed' packed ++ tail) 2
          (omega arith, (omega (arith, piece.packed_fits), tt)) refl)
      ∙ size_read_more p (size_bytes packed) n after refl (sizes_value packed) piece.some_packed
      ∙ ap (data_read decompress n p) (rd-sealed seed' packed tail n piece.packed_bytes refl)
      ∙ data_read_whole n p packed plain _ refl piece.unpacks

  sum_moves :
      (p : Progress) (n : ℕ) (plain : List ℕ) (pieces : List (List ℕ)) {expanded : ℕ}
      → p.total_written + length (joined (plain ∷ pieces)) ≡ expanded
      → (written p n plain).total_written + length (joined pieces) ≡ expanded
  unfolding written joined
  sum_moves p n plain pieces total = omega (arith, length-append plain (joined pieces))

  regroup : (us vs ws zs : List ℕ) → us ++ (vs ++ ws) ++ zs ≡ us ++ (vs ++ (ws ++ zs))
  regroup us vs ws zs = rw (append_assoc us (vs ++ ws) zs, append_assoc vs ws zs)

  -- The stream of the chunks of the pieces, in the parts that the rounds read.
  sealed-chunk :
      (seed : Option ℕ) (packed more tail : List ℕ)
      → sealed seed (chunk packed ++ more) ++ tail
        ≡ sealed seed (size_bytes packed)
          ++ (sealed (moved seed 2) packed
              ++ (sealed (moved (moved seed 2) (length packed)) more ++ tail))
  unfolding chunk
  sealed-chunk seed packed more tail =
      rw
        (
          sealed-append seed (size_bytes packed) (packed ++ more),
          sealed-append (moved seed 2) packed more,
        )
        (regroup (sealed seed (size_bytes packed)) (sealed (moved seed 2) packed)
          (sealed (moved (moved seed 2) (length packed)) more) tail)

  pub chunk_loop-chunks :
      (pieces : List (List ℕ)) (fuel expanded : ℕ) (p : Progress) (seed : Option ℕ) (tail : List ℕ)
      → All (IsPiece compress decompress) pieces
      → length pieces < fuel
      → p.total_written + length (joined pieces) ≡ expanded
      → chunk_loop decompress fuel expanded p
          (record { rest = sealed seed (chunks compress pieces) ++ tail; seed = seed })
        ≡ ended (wrote compress p pieces)
  unfolding chunk_loop joined chunks wrote
  chunk_loop-chunks pieces zero expanded p seed tail h enough total = absurd (omega arith)
  chunk_loop-chunks [] (suc fuel) expanded p seed tail h enough total =
      let stop : leb expanded p.total_written ≡ true = ground arith in rw stop
  chunk_loop-chunks (plain ∷ pieces) (suc fuel) expanded p seed tail (piece, h) enough total =
      let n = length (compress plain) in
      let long = length-append plain (joined pieces) in
      let go : leb expanded p.total_written ≡ false = ground (arith, long, piece.some_bytes) in
      rw
        (
          go,
          sealed-chunk seed (compress plain) (chunks compress pieces) tail,
          loop_round-chunk p seed plain
              (sealed (moved (moved seed 2) n) (chunks compress pieces) ++ tail) piece,
        )
        (chunk_loop-chunks pieces fuel expanded (written p n plain) (moved (moved seed 2) n) tail h
          (omega arith) (sum_moves p n plain pieces total))
