-- ===== src/Callgraph/Search.antt =====
-- About `containing_func`: the binary search, against a search from the front.
use linuxrecomp.Base.{
  ℕ, zero, suc, ◌+◌, ◌/◌, ◌≤◌, ◌<◌, ◌≡◌, refl, sym, ap, ◌∙◌, true, false, Option, none, some, List,
  [], ◌∷◌, arith, if◌then◌else◌, ltb, leb, length, All, Bool-cases, inl, inr,
}
use linuxrecomp.Callgraph.{Bounds, start_at, search, holds, answer, containing_func}

-- No range is reversed, and each ends where any later one starts, or before.
abbrev pub AreApart : List Bounds → Type 0
AreApart [] = Unit
AreApart (f ∷ fs) = (f.0 ≤ f.1) × All (λ (g : Bounds). f.1 ≤ g.0) fs × AreApart fs

-- The first function that holds the address.
unfoldable pub first_holding : List Bounds → ℕ → Option ℕ
first_holding [] va = none
first_holding (f ∷ fs) va = if holds f va then some f.0 else first_holding fs va

later_start :
    (e : ℕ) (fs : List Bounds) (j : ℕ)
    → All (λ (g : Bounds). e ≤ g.0) fs
    → j < length fs
    → e ≤ start_at fs j
later_start e [] j h lt = elim lt [ ]
later_start e (f ∷ fs) zero h lt = h.0
later_start e (f ∷ fs) (suc j) h lt = later_start e fs j h.1 (omega arith)

start_at-le :
    (fs : List Bounds) (i j : ℕ)
    → AreApart fs
    → i ≤ j
    → j < length fs
    → start_at fs i ≤ start_at fs j
start_at-le [] i j h le lt = elim lt [ ]
start_at-le (f ∷ fs) zero zero h le lt = omega arith
start_at-le (f ∷ fs) zero (suc j) h le lt =
    omega (arith, h.0, later_start f.1 fs j h.1 (omega arith))
start_at-le (f ∷ fs) (suc i) zero h le lt = absurd (omega arith)
start_at-le (f ∷ fs) (suc i) (suc j) h le lt = start_at-le fs i j h.2 (omega arith) (omega arith)

-- The functions in front of `k` start at the address or before, the others behind it.
pub record Splits (fs : List Bounds) (va k : ℕ) : Type 0 where
  pub inside : k ≤ length fs
  pub below : (i : ℕ) → i < k → start_at fs i ≤ va
  pub above : (i : ℕ) → k ≤ i → i < length fs → va < start_at fs i

Splits-tail :
    (f : Bounds) (fs : List Bounds) (va k : ℕ) → Splits (f ∷ fs) va (suc k) → Splits fs va k
Splits-tail f fs va k h = record {
  inside = omega (arith, h.inside);
  below = λ i lt. h.below (suc i) (omega arith);
  above = λ i le lt. h.above (suc i) (omega arith) (omega arith);
}

Splits-tail_zero : (f : Bounds) (fs : List Bounds) (va : ℕ) → Splits (f ∷ fs) va 0 → Splits fs va 0
Splits-tail_zero f fs va h = record {
  inside = omega arith;
  below = λ i lt. absurd (omega arith);
  above = λ i le lt. h.above (suc i) (omega arith) (omega arith);
}

first_holding-none : (fs : List Bounds) (va : ℕ) → Splits fs va 0 → first_holding fs va ≡ none
unfolding first_holding
first_holding-none [] va h = refl
first_holding-none (f ∷ fs) va h = ground (
  arith,
  h.above 0 (omega arith) (omega arith),
  first_holding-none fs va (Splits-tail_zero f fs va h),
)

-- Where the starts are split at `k`, the function in front of `k` decides.
first_holding-answer :
    (fs : List Bounds) (va k : ℕ)
    → AreApart fs
    → Splits fs va k
    → answer fs va k ≡ first_holding fs va
unfolding first_holding answer
first_holding-answer fs va zero h s = sym (first_holding-none fs va s)
first_holding-answer [] va (suc k) h s = absurd (omega (arith, s.inside))
first_holding-answer (f ∷ fs) va (suc zero) h s =
    ground (arith, first_holding-none fs va (Splits-tail f fs va 0 s))
first_holding-answer (f ∷ []) va (suc (suc k)) h s = absurd (omega (arith, s.inside))
first_holding-answer (f ∷ g ∷ fs) va (suc (suc k)) h s = ground (
  arith,
  first_holding-answer (g ∷ fs) va (suc k) h.2 (Splits-tail f (g ∷ fs) va (suc k) s),
  s.below 1 (omega arith),
  h.1.0,
)

-- What the loop keeps: the answer lies between `lo` and `hi`.
record Between (fs : List Bounds) (va lo hi : ℕ) : Type 0 where
  ordered : lo ≤ hi
  inside : hi ≤ length fs
  below : (i : ℕ) → i < lo → start_at fs i ≤ va
  above : (i : ℕ) → hi ≤ i → i < length fs → va < start_at fs i

Between-right :
    (fs : List Bounds) (va lo hi mid : ℕ)
    → AreApart fs
    → mid < hi
    → start_at fs mid ≤ va
    → Between fs va lo hi
    → Between fs va (mid + 1) hi
Between-right fs va lo hi mid apart lt le h = record {
  ordered = omega arith;
  inside = h.inside;
  below = λ i i_lt.
      omega (arith, le, start_at-le fs i mid apart (omega arith) (omega (arith, h.inside)));
  above = h.above;
}

Between-left :
    (fs : List Bounds) (va lo hi mid : ℕ)
    → AreApart fs
    → lo ≤ mid
    → mid < hi
    → va < start_at fs mid
    → Between fs va lo hi
    → Between fs va lo mid
Between-left fs va lo hi mid apart le lt gt h = record {
  ordered = le;
  inside = omega (arith, h.inside);
  below = h.below;
  above = λ i i_le i_lt. omega (arith, gt, start_at-le fs mid i apart i_le i_lt);
}

leb-gt : (a b : ℕ) → leb a b ≡ false → b < a
leb-gt a b h = ground arith

module _ (fuel : ℕ) (fs : List Bounds) (va lo hi : ℕ) where
  search_done : ltb lo hi ≡ false → search (suc fuel) fs va lo hi ≡ some lo
  unfolding search
  search_done done = rw (done, search) refl

  search_right :
      ltb lo hi ≡ true
      → leb (start_at fs ((lo + hi) / 2)) va ≡ true
      → search (suc fuel) fs va lo hi ≡ search fuel fs va ((lo + hi) / 2 + 1) hi
  unfolding search
  search_right more right = rw (more, search) (rw right refl)

  search_left :
      ltb lo hi ≡ true
      → leb (start_at fs ((lo + hi) / 2)) va ≡ false
      → search (suc fuel) fs va lo hi ≡ search fuel fs va lo ((lo + hi) / 2)
  unfolding search
  search_left more left = rw (more, search) (rw left refl)

-- The loop ends, and splits the functions at the address.
search-Splits :
    (fuel : ℕ) (fs : List Bounds) (va lo hi : ℕ)
    → AreApart fs
    → hi < lo + fuel
    → Between fs va lo hi
    → (k : ℕ) × (search fuel fs va lo hi ≡ some k) × Splits fs va k
search-Splits zero fs va lo hi apart enough h = absurd (omega (arith, h.ordered))
search-Splits (suc fuel) fs va lo hi apart enough h =
    let mid = (lo + hi) / 2 in
    elim (Bool-cases (ltb lo hi)) [
      | inr done ↦
          let met : hi ≤ lo = ground arith in
          (
            lo,
            search_done fuel fs va lo hi done,
            record {
              inside = omega (arith, h.ordered, h.inside);
              below = h.below;
              above = λ i le lt. h.above i (omega arith) lt;
            },
          )
      | inl more ↦
          let less : lo < hi = ground arith in
          elim (Bool-cases (leb (start_at fs mid) va)) [
            | inl right ↦
                let (k, ran, splits) =
                  search-Splits fuel fs va (mid + 1) hi apart (omega arith)
                    (Between-right fs va lo hi mid apart (omega arith) (ground arith) h) in
                (k, search_right fuel fs va lo hi more right ∙ ran, splits)
            | inr left ↦
                let (k, ran, splits) = search-Splits fuel fs va lo mid apart (omega arith) (
                  Between-left fs va lo hi mid apart (omega arith) (omega arith)
                    (leb-gt (start_at fs mid) va left) h) in
                (k, search_left fuel fs va lo hi more left ∙ ran, splits)
          ]
    ]

-- Where no range is reversed and no two overlap, `containing_func` ends and returns what a search from
-- the front returns: the start of the function that holds the address, or None where there is none.
pub containing_func-first_holding :
    (va : ℕ) (funcs : List Bounds)
    → AreApart funcs
    → containing_func va funcs ≡ some (first_holding funcs va)
unfolding containing_func
containing_func-first_holding va funcs apart =
    let (k, ran, splits) =
      search-Splits (suc (length funcs)) funcs va 0 (length funcs) apart (omega arith) (record {
        ordered = omega arith;
        inside = omega arith;
        below = λ i lt. absurd (omega arith);
        above = λ i le lt. absurd (omega arith);
      }) in
    rw (ran, containing_func) (ap some (first_holding-answer funcs va k apart splits))
