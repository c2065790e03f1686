-- ===== src/Ne/Proofs/Entries.antt =====
-- How `parse_ne` ends: its entry table, and the whole.
use linuxrecomp.Base.{
  ℕ, zero, suc, ◌+◌, ◌-◌, ◌≤◌, ◌<◌, Bool, true, false, ◌&&◌, List, [], if◌then◌else◌, ltb, ◌==◌,
  length, drop, arith, Bool-cases, inl, inr,
}
use linuxrecomp.Base.Raises.{Raises, raises, gives, Gives, >>=-Gives}
use linuxrecomp.Ne.{NeError}
use linuxrecomp.Ne.Reads.{byte_at, word_at, dword_at}
use linuxrecomp.Ne.Tables.{
  resident_names, nonresident_names, Cursor, next_entry, moveable_bundle, fixed_bundle, bundle,
  entry_table, enough,
}
use linuxrecomp.Ne.Parse.{parse_tables, parse_from, parse_ne, has_signature}
use linuxrecomp.Ne.Proofs.Total.{
  IsRefusal, Anything, Stops, then_Stops, if-Stops, byte_at-Stops, word_at-Stops, dword_at-Stops,
  with_byte, with_word, segments_from-Stops, modules_from-Stops, name_table-Stops,
}

-- The position does not go back.
abbrev GoesOn : ℕ → Raises NeError Cursor → Type 0
GoesOn pos x = Gives IsRefusal (λ next. pos ≤ next.pos) x

behind : (pos size : ℕ) (x : Raises NeError Cursor) → GoesOn (pos + size) x → GoesOn pos x
behind pos size (raises error) h = h
behind pos size (gives next) h = omega arith

if-GoesOn :
    (pos : ℕ) (b : Bool) (x y : Raises NeError Cursor)
    → GoesOn pos x
    → GoesOn pos y
    → GoesOn pos (if b then x else y)
if-GoesOn pos true x y hx hy = hx
if-GoesOn pos false x y hx hy = hy

module _ (file : List ℕ) where
  moveable_bundle-GoesOn : (count : ℕ) (c : Cursor) → GoesOn c.pos (moveable_bundle count file c)
  unfolding moveable_bundle next_entry
  moveable_bundle-GoesOn zero c = omega arith
  moveable_bundle-GoesOn (suc count) c =
      if-GoesOn c.pos (ltb (length file) (c.pos + 6)) (gives c) _ (omega arith) (
        >>=-Gives IsRefusal Anything _ (byte_at file c.pos) _ (byte_at-Stops file c.pos)
          (λ e_flags u.
            >>=-Gives IsRefusal Anything _ (byte_at file (c.pos + 3)) _
              (byte_at-Stops file (c.pos + 3))
              (λ e_seg v.
                >>=-Gives IsRefusal Anything _ (word_at file (c.pos + 4)) _
                  (word_at-Stops file (c.pos + 4))
                  (λ e_off w.
                    behind c.pos 6 (moveable_bundle count file (next_entry c 6 e_seg e_off e_flags))
                      (moveable_bundle-GoesOn count (next_entry c 6 e_seg e_off e_flags))))))

  fixed_bundle-GoesOn :
      (count segment : ℕ) (c : Cursor) → GoesOn c.pos (fixed_bundle count segment file c)
  unfolding fixed_bundle next_entry
  fixed_bundle-GoesOn zero segment c = omega arith
  fixed_bundle-GoesOn (suc count) segment c =
      if-GoesOn c.pos (ltb (length file) (c.pos + 3)) (gives c) _ (omega arith) (
        >>=-Gives IsRefusal Anything _ (byte_at file c.pos) _ (byte_at-Stops file c.pos)
          (λ e_flags u.
            >>=-Gives IsRefusal Anything _ (word_at file (c.pos + 1)) _
              (word_at-Stops file (c.pos + 1))
              (λ e_off w.
                behind c.pos 3
                  (fixed_bundle count segment file (next_entry c 3 segment e_off e_flags))
                  (fixed_bundle-GoesOn count segment (next_entry c 3 segment e_off e_flags)))))

  bundle-GoesOn : (count type : ℕ) (c : Cursor) → GoesOn c.pos (bundle count type file c)
  unfolding bundle
  bundle-GoesOn count type c = if-GoesOn c.pos (type == 0) _ _ (omega arith) (
      if-GoesOn c.pos (type == 0xFF) _ _ (moveable_bundle-GoesOn count c)
        (fixed_bundle-GoesOn count type c))

  entry_table-Stops :
      (fuel end : ℕ) (c : Cursor) → length file - c.pos < fuel → Stops (entry_table fuel file end c)
  unfolding entry_table
  entry_table-Stops zero end c h = absurd (omega arith)
  entry_table-Stops (suc fuel) end c h =
      elim (Bool-cases (ltb c.pos end && ltb c.pos (length file))) [
        | inl more ↦
            let inside : c.pos < length file = ground (arith, more) in
            rw (more, entry_table)
              (with_byte file c.pos _ (λ count. with_byte file (c.pos + 1) _ (λ type.
                if-Stops (count == 0) (gives c.found) _ tt (
                  >>=-Gives IsRefusal (λ next. c.pos + 2 ≤ next.pos) Anything
                    (bundle count type file (record c { pos = c.pos + 2 })) _
                    (bundle-GoesOn count type (record c { pos = c.pos + 2 }))
                    (λ next further. entry_table-Stops fuel end next (omega arith))))))
        | inr last ↦ rw (last, entry_table) tt
      ]

  resident_names-Stops : (pos : ℕ) → Stops (resident_names file pos)
  unfolding resident_names
  resident_names-Stops pos = name_table-Stops file (enough file) pos (length file) (omega arith)

  nonresident_names-Stops : (pos size : ℕ) → Stops (nonresident_names file pos size)
  unfolding nonresident_names
  nonresident_names-Stops pos size =
      if-Stops _ _ (gives []) (name_table-Stops file (enough file) pos (pos + size) (omega arith))
        tt

  parse_tables-Stops : (ne_offset : ℕ) → Stops (parse_tables file ne_offset)
  unfolding parse_tables
  parse_tables-Stops ne_offset =
      let nh = drop ne_offset file in
      with_byte nh 2 _ (λ linker_ver. with_byte nh 3 _ (λ linker_rev. with_word nh 4 _ (λ entry_off.
        with_word nh 6 _ (λ entry_len. with_word nh 12 _ (λ a. with_word nh 14 _ (λ b.
          with_word nh 16 _ (λ c. with_word nh 18 _ (λ d.
            then_Stops (dword_at nh 20) _ (dword_at-Stops nh 20) (λ cs_ip.
              then_Stops (dword_at nh 24) _ (dword_at-Stops nh 24) (λ ss_sp.
                with_word nh 28 _ (λ seg_count. with_word nh 30 _ (λ mod_count.
                  with_word nh 32 _ (λ nonres_size. with_word nh 34 _ (λ seg_off.
                    with_word nh 36 _ (λ res_off. with_word nh 38 _ (λ resname_off.
                      with_word nh 40 _ (λ modref_off. with_word nh 42 _ (λ import_off.
                        then_Stops (dword_at nh 44) _ (dword_at-Stops nh 44) (λ nonres_off.
                          with_word nh 50 _ (λ alignment. with_byte nh 54 _ (λ target_os.
                            then_Stops _ _
                              (segments_from-Stops file seg_count _ (ne_offset + seg_off) 1)
                              (λ segments.
                                then_Stops _ _
                                  (modules_from-Stops file mod_count (ne_offset + import_off)
                                    (ne_offset + modref_off))
                                  (λ modules.
                                    then_Stops _ _ (resident_names-Stops (ne_offset + resname_off))
                                      (λ resident.
                                        then_Stops _ _
                                          (nonresident_names-Stops nonres_off nonres_size)
                                          (λ nonresident.
                                            then_Stops _ _
                                              (entry_table-Stops (enough file) _
                                                (record {
                                                  found = [];
                                                  pos = ne_offset + entry_off;
                                                  ordinal = 1;
                                                })
                                                (omega arith))
                                              (λ entries. tt))))))))))))))))))))))))))

-- `parse_ne` ends on every file: it returns a header, or raises one of its own errors.
pub parse_ne-Stops : (file : List ℕ) → Stops (parse_ne file)
unfolding parse_ne parse_from
parse_ne-Stops file =
    if-Stops (has_signature 77 90 file) _ (raises _)
      (then_Stops (dword_at file 0x3C) _ (dword_at-Stops file 0x3C) (λ ne_offset.
        if-Stops _ (raises _) _ tt (
          if-Stops (has_signature 78 69 (drop ne_offset file)) _ (raises _)
            (parse_tables-Stops file ne_offset) tt)))
      tt
