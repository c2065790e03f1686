-- ===== src/Merge/Tests.antt =====
-- Runs of `sanitize` and `merge`, with some keywords of Python.
use linuxrecomp.Base.{ℕ, ◌≡◌, refl, Option, none, some, List, [], ◌∷◌, map, All, any_of, String}
use linuxrecomp.Base.Text.{codes}
use linuxrecomp.Merge.{NameSource, Entry, Merged, lookup, sanitize, merge, is_reserved}
use linuxrecomp.Merge.Identifiers.{has_underscore}
use linuxrecomp.Merge.Named.{IsNamed, merge-IsNamed}
use linuxrecomp.Merge.Claims.{attribution, or_else, first_claim, file_claim, merge-first_claim}

abbrev keywords : List (List ℕ)
keywords = map codes ("None" ∷ "True" ∷ "class" ∷ "def" ∷ "lambda" ∷ [])

unfoldable sanitized : String → Option (List ℕ)
sanitized symbol = sanitize keywords (codes symbol)

sanitize_known :
    (sanitized "_SmackOpen@12" ≡ some (codes "SmackOpen_12"))
    × (sanitized "??0CColour@@QAE@HHH@Z" ≡ some (codes "f_0CColour_QAE_HHH_Z"))
    × (sanitized "int" ≡ some (codes "int_"))
    × (sanitized "CBaseValue__00449850" ≡ some (codes "CBaseValue_00449850"))
    × (sanitized "@@@" ≡ none)
unfolding sanitized sanitize linuxrecomp.Merge.readable linuxrecomp.Merge.finish_name
    linuxrecomp.Merge.with_letter is_reserved linuxrecomp.Merge.strip_front
    linuxrecomp.Merge.strip_back linuxrecomp.Merge.sub_runs linuxrecomp.Merge.ident_char
sanitize_known = (refl, refl, refl, refl, refl)

-- Two symbols that become one identifier, and a third that is spelled like the identifier that the second
-- of them then gets.
abbrev clash : List NameSource
clash =
    (record {
      label = codes "map";
      table = (0x1000, codes "f_00003000") ∷ (0x2000, codes "f") ∷ (0x3000, codes "_f") ∷ [];
    })
    ∷ []

unfoldable name_at : ℕ → Merged → Option (List ℕ)
name_at addr m = elim (lookup addr m.chosen) [ none ↦ none | some e ↦ some e.name ]

-- Two addresses with the same name.
two_same_names :
    (name_at 0x1000 (merge keywords clash []) ≡ some (codes "f_00003000"))
    × (name_at 0x3000 (merge keywords clash []) ≡ some (codes "f_00003000"))
unfolding name_at lookup merge sanitize linuxrecomp.Merge.readable linuxrecomp.Merge.finish_name
    linuxrecomp.Merge.with_letter is_reserved linuxrecomp.Merge.strip_front
    linuxrecomp.Merge.strip_back linuxrecomp.Merge.sub_runs linuxrecomp.Merge.ident_char
    linuxrecomp.Merge.merge_sources linuxrecomp.Merge.merge_table linuxrecomp.Merge.merge_claim
    linuxrecomp.Merge.claim linuxrecomp.Merge.is_chosen linuxrecomp.Merge.owner_of
    linuxrecomp.Merge.is_owned_elsewhere linuxrecomp.Merge.distinct_name linuxrecomp.Merge.set_files
    linuxrecomp.Merge.add_files linuxrecomp.Merge.sort_by_address
    linuxrecomp.Merge.insert_by_address
two_same_names = (refl, refl)

merge-IsNamed_example :
    All (IsNamed keywords) (merge keywords clash ((0x9000, codes "b.cpp") ∷ [])).chosen
unfolding any_of has_underscore
merge-IsNamed_example = merge-IsNamed keywords clash ((0x9000, codes "b.cpp") ∷ []) refl

merge-first_claim_example :
    attribution (lookup 0x3000 (merge keywords clash []).chosen)
    ≡ or_else (first_claim keywords 0x3000 clash) (file_claim keywords 0x3000 [])
merge-first_claim_example = merge-first_claim keywords 0x3000 clash []
