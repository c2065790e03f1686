-- ===== src/Pe64/Proofs/Tables.antt =====
-- About the relocation loop: what its blocks hold, and that it ends.
use linuxrecomp.Base.{ℕ, zero, suc, ◌+◌, ◌*◌, ◌≤◌, ◌<◌, ◌≡◌, some, List, arith, All}
use linuxrecomp.Pe64.{PeImage}
use linuxrecomp.Pe64.Bytes.{IsByte}
use linuxrecomp.Pe64.Address.{read_rva}
use linuxrecomp.Pe64.Relocations.{Relocation, entries_from}
use linuxrecomp.Pe64.Proofs.Reads.{u16-lt, read_rva_exact, All-drop, All-take}

-- A relocation of the page: padding is left out, and the type fits four bits.
abbrev pub IsOfPage : ℕ → Relocation → Type 0
IsOfPage page r = (1 ≤ r.type) × (r.type < 16) × (page ≤ r.rva) × (r.rva < page + 4096)

-- A relocation of some page.
abbrev pub IsRelocation : Relocation → Type 0
IsRelocation r = (1 ≤ r.type) × (r.type < 16)

-- The entries of one block stay on its page.
pub entries_from-IsOfPage :
    (n index page : ℕ) (entries : List ℕ)
    → All IsByte entries
    → All (IsOfPage page) (entries_from n index page entries)
unfolding entries_from
entries_from-IsOfPage zero index page entries h = tt
entries_from-IsOfPage (suc n) index page entries h =
    ground (arith, u16-lt entries (index * 2) h, entries_from-IsOfPage n (index + 1) page entries h)

pub read_rva-IsByte :
    (img : PeImage) (rva size : ℕ) (bytes : List ℕ)
    → All IsByte img.bytes
    → read_rva img rva size ≡ some bytes
    → All IsByte bytes
read_rva-IsByte img rva size bytes h e =
    let (long, s, offset, backs, cut) = read_rva_exact img rva size bytes e in
    rw cut (All-take IsByte _ _ (All-drop IsByte offset img.bytes h))
