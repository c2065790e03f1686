-- ===== src/Functions/Order.antt =====
-- About the sorts of `recover_functions`.
use linuxrecomp.Base.{
  ℕ, ◌≤◌, ◌≡◌, refl, Bool, true, false, ◌||◌, List, [], ◌∷◌, ◌++◌, arith, ltb, any_of,
  any_of-append, All, Bool-cases, inl, inr,
}
use linuxrecomp.Functions.{Function, insert_by_start, sort_onto, sort_by_start, add}

abbrev pub StartsFrom : ℕ → Function → Type 0
StartsFrom n f = n ≤ f.start_rva

abbrev pub IsSorted : List Function → Type 0
IsSorted [] = Unit
IsSorted (f ∷ fs) = All (StartsFrom f.start_rva) fs × IsSorted fs

insert_by_start-All :
    (n : ℕ) (f : Function) (fs : List Function)
    → n ≤ f.start_rva
    → All (StartsFrom n) fs
    → All (StartsFrom n) (insert_by_start f fs)
unfolding insert_by_start
insert_by_start-All n f [] h all = (h, tt)
insert_by_start-All n f (g ∷ gs) h all = ground (arith, insert_by_start-All n f gs h all.1)

All-weaken : (m n : ℕ) (fs : List Function) → m ≤ n → All (StartsFrom n) fs → All (StartsFrom m) fs
All-weaken m n [] h all = tt
All-weaken m n (f ∷ fs) h all = (omega (arith, all.0), All-weaken m n fs h all.1)

insert_by_start-IsSorted :
    (f : Function) (fs : List Function) → IsSorted fs → IsSorted (insert_by_start f fs)
unfolding insert_by_start
insert_by_start-IsSorted f [] h = (tt, tt)
insert_by_start-IsSorted f (g ∷ gs) h = elim (Bool-cases (ltb f.start_rva g.start_rva)) [
  | inl before ↦
      rw before ((below before, All-weaken f.start_rva g.start_rva gs (below before) h.0), h)
  | inr behind ↦ rw behind (
    insert_by_start-All g.start_rva f gs (not_below behind) h.0,
    insert_by_start-IsSorted f gs h.1,
  )
]
  where
    below : ltb f.start_rva g.start_rva ≡ true → f.start_rva ≤ g.start_rva
    below e = ground arith

    not_below : ltb f.start_rva g.start_rva ≡ false → g.start_rva ≤ f.start_rva
    not_below e = ground arith

sort_onto-IsSorted : (sorted fs : List Function) → IsSorted sorted → IsSorted (sort_onto sorted fs)
unfolding sort_onto
sort_onto-IsSorted sorted [] h = h
sort_onto-IsSorted sorted (f ∷ fs) h =
    sort_onto-IsSorted (insert_by_start f sorted) fs (insert_by_start-IsSorted f sorted h)

-- A sort is sorted.
pub sort_by_start-IsSorted : (fs : List Function) → IsSorted (sort_by_start fs)
unfolding sort_by_start
sort_by_start-IsSorted fs = sort_onto-IsSorted [] fs tt

any_of-insert :
    (p : Function → Bool) (f : Function) (fs : List Function)
    → any_of p (insert_by_start f fs) ≡ p f || any_of p fs
unfolding any_of insert_by_start
any_of-insert p f [] = refl
any_of-insert p f (g ∷ gs) = ground (arith, any_of-insert p f gs)

any_of-sort_onto :
    (p : Function → Bool) (sorted fs : List Function)
    → any_of p (sort_onto sorted fs) ≡ any_of p sorted || any_of p fs
unfolding any_of sort_onto
any_of-sort_onto p sorted [] = ground arith
any_of-sort_onto p sorted (f ∷ fs) =
    ground (arith, any_of-sort_onto p (insert_by_start f sorted) fs, any_of-insert p f sorted)

-- A sort finds what the list held.
pub any_of-sort_by_start :
    (p : Function → Bool) (fs : List Function) → any_of p (sort_by_start fs) ≡ any_of p fs
unfolding sort_by_start any_of
any_of-sort_by_start p fs = any_of-sort_onto p [] fs

pub any_of-add :
    (p : Function → Bool) (f : Function) (fs : List Function)
    → any_of p (add f fs) ≡ any_of p fs || p f
unfolding add any_of
any_of-add p f fs =
    ground (arith, any_of-sort_by_start p (fs ++ (f ∷ [])), any_of-append p fs (f ∷ []))
