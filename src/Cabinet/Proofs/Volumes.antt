-- ===== src/Cabinet/Proofs/Volumes.antt =====
-- The choice of a volume by the ranges of the volumes.
use linuxrecomp.Base.{
  ℕ, ◌≤◌, ◌<◌, ◌≡◌, refl, none, some, List, [], ◌∷◌, ◌++◌, if◌then◌else◌, leb, All, arith, true,
  false, ap,
}
use linuxrecomp.Cabinet.{Volume, FileDescriptor}
use linuxrecomp.Cabinet.Volumes.{volume_for, stated_volume, volume_by_range, last_starting}

-- The volume starts behind the index.
abbrev pub StartsBehind : ℕ → Volume → Type 0
StartsBehind index v = index < v.first_file_index

last_starting_kept :
    (index : ℕ) (volumes : List Volume) (chosen : Volume)
    → All (StartsBehind index) volumes
    → last_starting index volumes chosen ≡ chosen
unfolding last_starting
last_starting_kept index [] chosen h = refl
last_starting_kept index (v ∷ volumes) chosen (behind, h) =
    let later : leb v.first_file_index index ≡ false = ground arith in
    rw later (last_starting_kept index volumes chosen h)

last_starting_found :
    (index : ℕ) (front : List Volume) (v : Volume) (back : List Volume) (chosen : Volume)
    → v.first_file_index ≤ index
    → All (StartsBehind index) back
    → last_starting index (front ++ (v ∷ back)) chosen ≡ v
unfolding last_starting
last_starting_found index [] v back chosen starts h =
    let here : leb v.first_file_index index ≡ true = ground arith in
    rw (here, last_starting) (last_starting_kept index back v h)
last_starting_found index (w ∷ front) v back chosen starts h =
    last_starting_found index front v back (if leb w.first_file_index index then w else chosen)
      starts h

-- For a file whose descriptor states no volume, `volume_for` finds the last volume that starts at or in
-- front of the file's index, also where the volume in front of it ends with the same file.
pub volume_for_last :
    (files : List FileDescriptor) (front : List Volume) (v : Volume) (back : List Volume)
    (index : ℕ)
    → stated_volume files index ≡ none
    → v.first_file_index ≤ index
    → All (StartsBehind index) back
    → volume_for files (front ++ (v ∷ back)) index ≡ some v
unfolding volume_for volume_by_range
volume_for_last files front v back index unstated starts h =
    rw (unstated, volume_for) (by_range front)
  where
    by_range : (us : List Volume) → volume_by_range (us ++ (v ∷ back)) index ≡ some v
    by_range [] = ap some (last_starting_found index [] v back v starts h)
    by_range (w ∷ us) = ap some (last_starting_found index (w ∷ us) v back w starts h)
