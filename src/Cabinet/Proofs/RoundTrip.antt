-- ===== src/Cabinet/Proofs/RoundTrip.antt =====
-- Cabinets as a maker writes them, chunk by chunk, and their extraction.
use linuxrecomp.Base.{
  ℕ, zero, suc, ◌+◌, ◌/◌, ◌%◌, ◌<◌, ◌≡◌, refl, ap, ◌∙◌, Option, none, some, List, [], ◌∷◌, ◌++◌,
  length, take, drop, All, arith,
}
use linuxrecomp.Pe64.Bytes.{IsByte}
use linuxrecomp.Cabinet.Extract.{rd}
use linuxrecomp.Cabinet.Proofs.Scramble.{obfuscate, deobfuscate-obfuscate}

-- What stands in the cabinet for these bytes, with the seed in front of them, and the seed behind `n`.
unfoldable pub sealed : Option ℕ → List ℕ → List ℕ
sealed none xs = xs
sealed (some seed) xs = obfuscate xs seed

unfoldable pub moved : Option ℕ → ℕ → Option ℕ
moved none n = none
moved (some seed) n = some (seed + n)

length-obfuscate : (xs : List ℕ) (seed : ℕ) → length (obfuscate xs seed) ≡ length xs
unfolding obfuscate
length-obfuscate [] seed = refl
length-obfuscate (x ∷ xs) seed = ap suc (length-obfuscate xs (suc seed))

pub length-sealed : (seed : Option ℕ) (xs : List ℕ) → length (sealed seed xs) ≡ length xs
unfolding sealed
length-sealed none xs = refl
length-sealed (some seed) xs = length-obfuscate xs seed

obfuscate-append :
    (xs ys : List ℕ) (seed : ℕ)
    → obfuscate (xs ++ ys) seed ≡ obfuscate xs seed ++ obfuscate ys (seed + length xs)
unfolding obfuscate
obfuscate-append [] ys seed = ground arith
obfuscate-append (x ∷ xs) ys seed = rw (obfuscate-append xs ys (suc seed)) (ground arith)

pub sealed-append :
    (seed : Option ℕ) (xs ys : List ℕ)
    → sealed seed (xs ++ ys) ≡ sealed seed xs ++ sealed (moved seed (length xs)) ys
unfolding sealed moved
sealed-append none xs ys = refl
sealed-append (some seed) xs ys = obfuscate-append xs ys seed

take_front : (xs ys : List ℕ) (n : ℕ) → length xs ≡ n → take n (xs ++ ys) ≡ xs
take_front [] ys zero h = refl
take_front [] ys (suc n) h = absurd (omega arith)
take_front (x ∷ xs) ys zero h = absurd (omega arith)
take_front (x ∷ xs) ys (suc n) h = rw (take_front xs ys n (omega arith))

pub drop_front : (xs ys : List ℕ) (n : ℕ) → length xs ≡ n → drop n (xs ++ ys) ≡ ys
drop_front [] ys zero h = refl
drop_front [] ys (suc n) h = absurd (omega arith)
drop_front (x ∷ xs) ys zero h = absurd (omega arith)
drop_front (x ∷ xs) ys (suc n) h = drop_front xs ys n (omega arith)

-- A read of as many bytes as were sealed returns them, and moves the seed.
pub rd-sealed :
    (seed : Option ℕ) (xs tail : List ℕ) (n : ℕ)
    → All IsByte xs
    → length xs ≡ n
    → rd n (record { rest = sealed seed xs ++ tail; seed = seed })
      ≡ (xs, record { rest = tail; seed = moved seed n })
unfolding rd sealed moved
rd-sealed none xs tail n h l = rw (take_front xs tail n l, drop_front xs tail n l)
rd-sealed (some seed) xs tail n h l =
    let long : length (obfuscate xs seed) ≡ n = length-obfuscate xs seed ∙ l in
    rw (
      take_front (obfuscate xs seed) tail n long,
      drop_front (obfuscate xs seed) tail n long,
      deobfuscate-obfuscate xs seed h,
      l,
    )

-- A chunk: its size in two bytes, and the compressed data.
unfoldable pub chunk : List ℕ → List ℕ
chunk packed = length packed % 256 ∷ length packed / 256 ∷ packed

-- The chunks of a file.
unfoldable pub chunks : (List ℕ → List ℕ) → List (List ℕ) → List ℕ
chunks compress [] = []
chunks compress (plain ∷ pieces) = chunk (compress plain) ++ chunks compress pieces

unfoldable pub joined : List (List ℕ) → List ℕ
joined [] = []
joined (plain ∷ pieces) = plain ++ joined pieces

-- A piece that fits a chunk, and that the decompressor gives back.
pub record IsPiece (compress : List ℕ → List ℕ) (decompress : List ℕ → Option (List ℕ))
    (plain : List ℕ) : Type 0 where
  pub some_bytes : 0 < length plain
  pub some_packed : 0 < length (compress plain)
  pub packed_fits : length (compress plain) < 65536
  pub packed_bytes : All IsByte (compress plain)
  pub unpacks : decompress (compress plain) ≡ some plain
