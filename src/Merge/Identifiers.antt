-- ===== src/Merge/Identifiers.antt =====
-- The names that `sanitize` gives, as identifiers of C.
use linuxrecomp.Base.{
  ℕ, zero, suc, Bool, true, false, not, ◌&&◌, Option, none, some, List, [], ◌∷◌, ◌++◌, ◌==◌, ◌/◌,
  ◌≡◌, refl, if◌then◌else◌, map, arith, Bool-cases, inl, inr, any_of, any_of-append,
}
use linuxrecomp.Base.Text.{same_text, is_member, is_digit, underscore, hex8, hex_digits, hex_front}
use linuxrecomp.Merge.{
  is_ident_char, strip_front, strip_back, sub_runs, ident_char, readable, with_letter, is_reserved,
  reserved_words, finish_name, sanitize,
}

unfoldable pub all_of : (ℕ → Bool) → List ℕ → Bool
all_of p [] = true
all_of p (c ∷ text) = p c && all_of p text

all_of-append : (p : ℕ → Bool) (xs ys : List ℕ) → all_of p (xs ++ ys) ≡ all_of p xs && all_of p ys
unfolding all_of
all_of-append p [] ys = refl
all_of-append p (x ∷ xs) ys = ground (arith, all_of-append p xs ys)

-- An identifier of C.
unfoldable pub is_identifier : List ℕ → Bool
is_identifier [] = false
is_identifier (c ∷ text) = not (is_digit c) && all_of is_ident_char (c ∷ text)

all_of-strip_front :
    (p q : ℕ → Bool) (text : List ℕ) → all_of p text ≡ true → all_of p (strip_front q text) ≡ true
unfolding strip_front all_of
all_of-strip_front p q [] h = refl
all_of-strip_front p q (c ∷ text) h = elim (Bool-cases (q c)) [
  | inl stripped ↦ rw (stripped, strip_front) (all_of-strip_front p q text (ground (arith, h)))
  | inr kept ↦ rw (kept, strip_front) h
]

all_of-strip_back :
    (p : ℕ → Bool) (text : List ℕ) → all_of p text ≡ true → all_of p (strip_back text) ≡ true
unfolding strip_back all_of
all_of-strip_back p [] h = refl
all_of-strip_back p (c ∷ text) h =
    go (strip_back text) (all_of-strip_back p text (ground (arith, h)))
  where
    go :
        (rest : List ℕ)
        → all_of p rest ≡ true
        → all_of p
            (elim rest [ [] ↦ if c == underscore then [] else c ∷ [] | d ∷ more ↦ c ∷ d ∷ more ])
          ≡ true
    go [] h' = elim (Bool-cases (c == underscore)) [
      | inl same ↦ rw same
      | inr other ↦ rw other (ground (arith, h))
    ]
    go (d ∷ more) h' = ground (arith, h, h')

all_of-sub_runs :
    (p q : ℕ → Bool) (inside : Bool) (text : List ℕ)
    → p underscore ≡ true
    → all_of p text ≡ true
    → all_of p (sub_runs q inside text) ≡ true
unfolding sub_runs all_of
all_of-sub_runs p q inside [] u h = refl
all_of-sub_runs p q true (c ∷ text) u h = elim (Bool-cases (q c)) [
  | inl run ↦ rw (run, sub_runs) (all_of-sub_runs p q true text u (ground (arith, h)))
  | inr out ↦ rw (out, sub_runs) (ground (arith, h, all_of-sub_runs p q false text u))
]
all_of-sub_runs p q false (c ∷ text) u h = elim (Bool-cases (q c)) [
  | inl run ↦ rw (run, sub_runs) (ground (arith, h, u, all_of-sub_runs p q true text u))
  | inr out ↦ rw (out, sub_runs) (ground (arith, h, all_of-sub_runs p q false text u))
]

all_of-ident_char : (text : List ℕ) → all_of is_ident_char (map ident_char text) ≡ true
unfolding all_of ident_char
all_of-ident_char [] = refl
all_of-ident_char (c ∷ text) = elim (Bool-cases (is_ident_char c)) [
  | inl kept ↦ rw kept (ground (arith, kept, all_of-ident_char text))
  | inr changed ↦ rw changed (all_of-ident_char text)
]

all_of-readable : (name : List ℕ) → all_of is_ident_char (readable name) ≡ true
unfolding readable
all_of-readable name = all_of-strip_back is_ident_char _ (
    all_of-strip_front is_ident_char _ _
      (all_of-sub_runs is_ident_char _ false _ refl (all_of-ident_char _)))

pub is_identifier-append :
    (xs ys : List ℕ)
    → is_identifier xs ≡ true
    → all_of is_ident_char ys ≡ true
    → is_identifier (xs ++ ys) ≡ true
unfolding is_identifier
is_identifier-append [] ys h t = cc
is_identifier-append (c ∷ xs) ys h t = ground (arith, h, t, all_of-append is_ident_char (c ∷ xs) ys)

is_identifier-with_letter :
    (c : ℕ) (text : List ℕ)
    → all_of is_ident_char (c ∷ text) ≡ true
    → is_identifier (with_letter (c ∷ text)) ≡ true
unfolding is_identifier with_letter all_of
is_identifier-with_letter c text h = elim (Bool-cases (is_digit c)) [
  | inl digit ↦ rw digit h
  | inr other ↦ rw other (ground (arith, other, h))
]

-- Hexadecimal digits in front of a text.
all_of-hex_digits :
    (width n : ℕ) (text : List ℕ)
    → all_of is_ident_char text ≡ true
    → all_of is_ident_char (hex_digits width n text) ≡ true
unfolding all_of
all_of-hex_digits zero n text h = h
all_of-hex_digits (suc width) n text h = all_of-hex_digits width (n / 16) _ (ground (arith, h))

all_of-hex_front :
    (fuel n : ℕ) (text : List ℕ)
    → all_of is_ident_char text ≡ true
    → all_of is_ident_char (hex_front fuel n text) ≡ true
unfolding all_of
all_of-hex_front zero n text h = h
all_of-hex_front (suc fuel) n text h = elim (Bool-cases (n == 0)) [
  | inl last ↦ rw last h
  | inr more ↦ rw more (all_of-hex_front fuel (n / 16) _ (ground (arith, h)))
]

pub all_of-hex8 : (n : ℕ) → all_of is_ident_char (hex8 n) ≡ true
unfolding all_of
all_of-hex8 n =
    all_of-hex_front (n / 0x100000000) (n / 0x100000000) _ (all_of-hex_digits 8 n [] refl)

-- The text has a `_`.
unfoldable pub has_underscore : List ℕ → Bool
has_underscore text = any_of (λ c. c == underscore) text

same_text-has_underscore :
    (xs ys : List ℕ) → same_text xs ys ≡ true → has_underscore xs ≡ has_underscore ys
unfolding has_underscore any_of
same_text-has_underscore [] [] h = refl
same_text-has_underscore [] (y ∷ ys) h = cc
same_text-has_underscore (x ∷ xs) [] h = cc
same_text-has_underscore (x ∷ xs) (y ∷ ys) h = ground (arith, h, same_text-has_underscore xs ys)

-- A text with a `_` is none of the words where no word has one.
is_member-has_underscore :
    (text : List ℕ) (words : List (List ℕ))
    → has_underscore text ≡ true
    → any_of has_underscore words ≡ false
    → is_member text words ≡ false
unfolding any_of
is_member-has_underscore text [] u h = refl
is_member-has_underscore text (w ∷ words) u h =
    ground (arith, same_text-has_underscore text w, is_member-has_underscore text words u, u, h)

reserved_words_plain : any_of has_underscore reserved_words ≡ false
unfolding any_of has_underscore
reserved_words_plain = refl

module _ (kwlist : List (List ℕ)) where
  -- No reserved word has a `_`, where no keyword of Python has one.
  pub is_reserved-has_underscore :
      (text : List ℕ)
      → any_of has_underscore kwlist ≡ false
      → has_underscore text ≡ true
      → is_reserved kwlist text ≡ false
  unfolding is_reserved
  is_reserved-has_underscore text plain u =
      is_member-has_underscore text (kwlist ++ reserved_words) u (
        ground
          (arith, any_of-append has_underscore kwlist reserved_words, reserved_words_plain, plain))

  -- A text behind which a `_` and more is put.
  pub has_underscore-append : (xs ys : List ℕ) → has_underscore (xs ++ (underscore ∷ ys)) ≡ true
  unfolding has_underscore any_of
  has_underscore-append xs ys =
      ground (arith, any_of-append (λ c. c == underscore) xs (underscore ∷ ys))

  finish_name_valid :
      (c : ℕ) (text : List ℕ)
      → any_of has_underscore kwlist ≡ false
      → all_of is_ident_char (c ∷ text) ≡ true
      → (is_identifier (finish_name kwlist (c ∷ text)) ≡ true)
        × (is_reserved kwlist (finish_name kwlist (c ∷ text)) ≡ false)
  unfolding finish_name all_of
  finish_name_valid c text plain h =
      let name = with_letter (c ∷ text) in
      let good = is_identifier-with_letter c text h in
      elim (Bool-cases (is_reserved kwlist name)) [
        | inl word ↦ rw word (
          is_identifier-append name (underscore ∷ []) good refl,
          is_reserved-has_underscore _ plain (has_underscore-append name []),
        )
        | inr free ↦ rw free (good, free)
      ]

  -- What `sanitize` returns is an identifier of C and no reserved word, whatever the symbol, where no
  -- keyword of Python has a `_`.
  pub sanitize-is_identifier :
      (name ident : List ℕ)
      → any_of has_underscore kwlist ≡ false
      → sanitize kwlist name ≡ some ident
      → (is_identifier ident ≡ true) × (is_reserved kwlist ident ≡ false)
  unfolding sanitize
  sanitize-is_identifier name ident plain h = go (readable name) (all_of-readable name) h
    where
      go :
          (text : List ℕ)
          → all_of is_ident_char text ≡ true
          → ◌≡◌ {A = Option (List ℕ)}
              (elim text [ [] ↦ none | c ∷ rest ↦ some (finish_name kwlist (c ∷ rest)) ])
              (some ident)
          → (is_identifier ident ≡ true) × (is_reserved kwlist ident ≡ false)
      go [] good eq = cc
      go (c ∷ text) good eq =
          let same : finish_name kwlist (c ∷ text) ≡ ident = cc in
          rw (← same) (finish_name_valid c text plain good)
