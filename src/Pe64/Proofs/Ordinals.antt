-- ===== src/Pe64/Proofs/Ordinals.antt =====
-- The exports by their ordinals.
use linuxrecomp.Base.{
  ℕ, zero, suc, ◌+◌, ◌*◌, ◌<◌, ◌≡◌, refl, ap, min, true, Option, none, some, List, [], ◌∷◌, arith,
  if◌then◌else◌, ◌==◌, get_elem?, ◌∙◌,
}
use mathlib.Core.Path.{subst}
use linuxrecomp.Pe64.{PeImage, Directory, present}
use linuxrecomp.Pe64.Bytes.{le_value, u32_at}
use linuxrecomp.Pe64.Address.{directory, read_rva}
use linuxrecomp.Pe64.Imports.{import_scan_limit}
use linuxrecomp.Pe64.Exports.{ExportSymbol, functions_from, symbols_from, exports_of, exports}

-- The export of an ordinal, in a list of exports.
abbrev pub by_ordinal : List ExportSymbol → ℕ → Option ℕ
by_ordinal [] ordinal = none
by_ordinal (s ∷ rest) ordinal = if s.ordinal == ordinal then some s.rva else by_ordinal rest ordinal

-- An entry of the export address table; zero is a gap.
abbrev pub not_gap : Option ℕ → Option ℕ
not_gap none = none
not_gap (some rva) = if rva == 0 then none else some rva

shift : (base i k : ℕ) → base + i + suc k ≡ base + (i + 1) + k
shift base i k = omega arith

by_ordinal_before :
    (img : PeImage) (d : Directory) (names : List (ℕ × Option (List ℕ))) (base i ordinal : ℕ)
    (rvas : List ℕ)
    → ordinal < base + i
    → by_ordinal (symbols_from img d names base i rvas) ordinal ≡ none
unfolding symbols_from
by_ordinal_before img d names base i ordinal [] h = refl
by_ordinal_before img d names base i ordinal (rva ∷ rvas) h =
    ground (arith, by_ordinal_before img d names base (i + 1) ordinal rvas)

-- An ordinal names the entry of the addresses that is as far behind the first.
by_ordinal-symbols_from :
    (img : PeImage) (d : Directory) (names : List (ℕ × Option (List ℕ))) (base i k : ℕ)
    (rvas : List ℕ)
    → by_ordinal (symbols_from img d names base i rvas) (base + i + k) ≡ not_gap (get_elem? rvas k)
unfolding symbols_from
by_ordinal-symbols_from img d names base i k [] = refl
by_ordinal-symbols_from img d names base i zero (rva ∷ rvas) =
    ground (arith, by_ordinal_before img d names base (i + 1) (base + i + 0) rvas)
by_ordinal-symbols_from img d names base i (suc k) (rva ∷ rvas) = ground (
  arith,
  by_ordinal-symbols_from img d names base (i + 1) k rvas,
  ap (λ (n : ℕ). by_ordinal (symbols_from img d names base (i + 1) rvas) n) (shift base i k),
)

read_at :
    (img : PeImage) (a b : ℕ) {raw : List ℕ}
    → a ≡ b
    → read_rva img a 4 ≡ some raw
    → read_rva img b 4 ≡ some raw
read_at img a b {raw} same h = subst (λ (rva : ℕ). read_rva img rva 4 ≡ some raw) same h

functions_from-get_elem? :
    (n k : ℕ) (img : PeImage) (rva : ℕ) (raw : List ℕ)
    → k < n
    → ((i : ℕ) → i < k → (entry : List ℕ) × (read_rva img (rva + 4 * i) 4 ≡ some entry))
    → read_rva img (rva + 4 * k) 4 ≡ some raw
    → get_elem? (functions_from n img rva) k ≡ some (le_value raw)
unfolding functions_from
functions_from-get_elem? zero k img rva raw h readable found = absurd (omega arith)
functions_from-get_elem? (suc n) zero img rva raw h readable found =
    rw (read_at img (rva + 4 * 0) rva (omega arith) found, functions_from) refl
functions_from-get_elem? (suc n) (suc k) img rva raw h readable found =
    let (entry, first) = readable 0 (omega arith) in
    rw (read_at img (rva + 4 * 0) rva (omega arith) first, functions_from)
      (functions_from-get_elem? n k img (rva + 4) raw (omega arith)
        (λ i below.
          let (entry, next) = readable (suc i) (omega arith) in
          (entry, read_at img (rva + 4 * suc i) (rva + 4 + 4 * i) (omega arith) next))
        (read_at img (rva + 4 * suc k) (rva + 4 + 4 * k) (omega arith) found))

-- The export directory of 40 bytes names the first ordinal at 16, the number of addresses at 20, and
-- their table at 28. The export of ordinal first + k is the k-th address of the table, and where that is
-- zero there is none; k is below the number of addresses and the scan limit, and the table can be read
-- up to there.
pub exports-by_ordinal :
    (img : PeImage) (header : List ℕ) (k : ℕ) (raw : List ℕ)
    → present (directory img 0) ≡ true
    → read_rva img (directory img 0).rva 40 ≡ some header
    → k < min (u32_at header 20) import_scan_limit
    → ((i : ℕ)
        → i < k
        → (entry : List ℕ) × (read_rva img (u32_at header 28 + 4 * i) 4 ≡ some entry))
    → read_rva img (u32_at header 28 + 4 * k) 4 ≡ some raw
    → by_ordinal (exports img) (u32_at header 16 + k)
      ≡ (if le_value raw == 0 then none else some (le_value raw))
unfolding exports exports_of
exports-by_ordinal img header k raw there got below readable found =
    let count = min (u32_at header 20) import_scan_limit in
    let rvas = functions_from count img (u32_at header 28) in
    let at : u32_at header 16 + k ≡ u32_at header 16 + 0 + k = omega arith in
    rw (there, exports)
      (rw got (
        ap (λ (ordinal : ℕ). by_ordinal (exports_of img (directory img 0) header) ordinal) at
        ∙ by_ordinal-symbols_from img (directory img 0) _ (u32_at header 16) 0 k rvas
        ∙ ap not_gap
            (functions_from-get_elem? count k img (u32_at header 28) raw below readable found)))
