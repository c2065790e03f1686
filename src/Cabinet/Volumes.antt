-- ===== src/Cabinet/Volumes.antt =====
-- The volumes of a cabinet set: `Volume` and `volume_for`.
use linuxrecomp.Base.{
  ℕ, Option, none, some, List, [], ◌∷◌, if◌then◌else◌, leb, ◌==◌, get_elem?, take, String,
}
use linuxrecomp.Cabinet.{Parsed, parsed, ◌>>=◌, Volume, FileDescriptor}
use linuxrecomp.Cabinet.Header.{read_u32}

-- `Volume.__init__`, on the bytes of the file and the number in its name.
unfoldable pub volume_header : String → ℕ → List ℕ → Parsed Volume
volume_header path number content = do
  let head = take 64 content
  sig ← read_u32 head 0
  version_bits ← read_u32 head 4
  first ← read_u32 head 28
  last ← read_u32 head 32
  parsed (record {
    path = path;
    index = number;
    signature = sig;
    version = version_bits;
    first_file_index = first;
    last_file_index = last;
  })

-- The first loop of `volume_for`: the volume with the number of the descriptor.
unfoldable pub volume_numbered : ℕ → List Volume → Option Volume
volume_numbered number [] = none
volume_numbered number (v ∷ volumes) =
    if v.index == number then some v else volume_numbered number volumes

-- The second loop: the last volume that starts at or in front of the index.
unfoldable pub last_starting : ℕ → List Volume → Volume → Volume
last_starting index [] chosen = chosen
last_starting index (v ∷ volumes) chosen =
    last_starting index volumes (if leb v.first_file_index index then v else chosen)

-- fd.volume, where it is a number and not 0.
unfoldable pub stated_volume : List FileDescriptor → ℕ → Option ℕ
stated_volume files index = elim (get_elem? files index) [
  | none ↦ none
  | some fd ↦ elim fd.volume [
    | none ↦ none
    | some number ↦ if number == 0 then none else some number
  ]
]

-- The rest of `volume_for`; there is a volume, or `volumes[0]` raises.
unfoldable pub volume_by_range : List Volume → ℕ → Option Volume
volume_by_range [] index = none
volume_by_range (v ∷ volumes) index = some (last_starting index (v ∷ volumes) v)

-- `volume_for`, the volume itself in place of its path.
unfoldable pub volume_for : List FileDescriptor → List Volume → ℕ → Option Volume
volume_for files volumes index = elim (stated_volume files index) [
  | none ↦ volume_by_range volumes index
  | some number ↦ elim (volume_numbered number volumes) [
    | none ↦ volume_by_range volumes index
    | some v ↦ some v
  ]
]
