-- ===== src/Functions/Tests.antt =====
-- Runs of the recovery and of its checks on the small image.
use linuxrecomp.Base.{
  ℕ, ◌≤◌, ◌≡◌, ◌↔◌, refl, true, ◌||◌, Option, none, some, List, [], ◌∷◌, arith, any_of, false,
  length, All,
}
use linuxrecomp.Pe64.Sample.{sample_image}
use linuxrecomp.Pe64.Address.{code_ranges}
use linuxrecomp.Pe64.Exports.{exports}
use linuxrecomp.Pe64.Exceptions.{runtime_functions}
use linuxrecomp.Functions.{Function, pdata, is_start, is_covered, merge_unwind_regions}
use linuxrecomp.Functions.Recover.{recover_functions, in_ranges}
use linuxrecomp.Functions.Kept.{has_range, is_region, recover_functions-has_range}
use linuxrecomp.Functions.Found.{
  exports_at, recover_functions-exports, recover_functions-entrypoint,
}
use linuxrecomp.Functions.Overlap.{in_some_region, recover_functions-overlap}
use linuxrecomp.Functions.Regions.{
  IsProper, total_count, in_region, in_entry, merge_unwind_regions-total_count,
  merge_unwind_regions-in_region,
}
use linuxrecomp.Functions.Validate.{validate_ranges}
use linuxrecomp.Functions.Order.{sort_by_start-IsSorted}
use linuxrecomp.Functions.{sort_by_start}
use linuxrecomp.Functions.Apart.{AreApart, validate_ranges-fine}
use linuxrecomp.Functions.Disjoint.{IsInCode, validate_ranges-hidden}

-- An external range outside the unwind table.
abbrev one_bound : List (ℕ × ℕ)
one_bound = (0x401028, 0x401030) ∷ []

-- An external range that runs into the third range of the table.
abbrev long_bound : List (ℕ × ℕ)
long_bound = (0x401030, 0x401048) ∷ []

abbrev range : ℕ → Option ℕ → Function
range start end = record { start_rva = start; end_rva = end; name = none; source = pdata }

-- What the unwind table of the image holds.
regions_known :
    merge_unwind_regions sample_image
    ≡ record { begin_rva = 0x1000; end_rva = 0x1020; count = 2 }
      ∷ record { begin_rva = 0x1040; end_rva = 0x1050; count = 1 }
      ∷ []
unfolding linuxrecomp.Functions.merge_unwind_regions linuxrecomp.Functions.merge_entries
    linuxrecomp.Functions.merge_onto linuxrecomp.Functions.sort_regions
    linuxrecomp.Functions.insert_by_begin linuxrecomp.Functions.chained_entry
    linuxrecomp.Pe64.Exceptions.runtime_functions linuxrecomp.Pe64.present
    linuxrecomp.Pe64.Address.directory linuxrecomp.Pe64.Address.find_directory
    linuxrecomp.Pe64.Exceptions.entries_of_pdata linuxrecomp.Pe64.Exceptions.is_empty_entry
    linuxrecomp.Pe64.Exceptions.runtime_entry linuxrecomp.Pe64.Exceptions.unwind_info
    linuxrecomp.Pe64.Exceptions.unwind_of linuxrecomp.Pe64.Exceptions.optional_field
    linuxrecomp.Pe64.Exceptions.is_chained linuxrecomp.Pe64.Address.read_rva
    linuxrecomp.Pe64.Address.rva_to_offset linuxrecomp.Pe64.Address.section_for_rva
    linuxrecomp.Pe64.Address.find_section linuxrecomp.Pe64.contains_rva
    linuxrecomp.Pe64.Address.offset_in linuxrecomp.Pe64.has_raw_data linuxrecomp.Pe64.end_rva
    linuxrecomp.Pe64.mapped_size linuxrecomp.Pe64.Bytes.field linuxrecomp.Pe64.Bytes.le_value
regions_known = refl

entries-IsProper : All IsProper (runtime_functions sample_image)
unfolding linuxrecomp.Pe64.Exceptions.runtime_functions linuxrecomp.Pe64.present
    linuxrecomp.Pe64.Address.directory linuxrecomp.Pe64.Address.find_directory
    linuxrecomp.Pe64.Exceptions.entries_of_pdata linuxrecomp.Pe64.Exceptions.is_empty_entry
    linuxrecomp.Pe64.Exceptions.runtime_entry linuxrecomp.Pe64.Address.read_rva
    linuxrecomp.Pe64.Address.rva_to_offset linuxrecomp.Pe64.Address.section_for_rva
    linuxrecomp.Pe64.Address.find_section linuxrecomp.Pe64.contains_rva
    linuxrecomp.Pe64.Address.offset_in linuxrecomp.Pe64.has_raw_data linuxrecomp.Pe64.end_rva
    linuxrecomp.Pe64.mapped_size linuxrecomp.Pe64.Bytes.field linuxrecomp.Pe64.Bytes.le_value
entries-IsProper = (omega arith, (omega arith, (omega arith, tt)))

second_export : any_of (exports_at 0x1060) (exports sample_image) ≡ true
unfolding any_of linuxrecomp.Functions.Found.exports_at linuxrecomp.Pe64.Exports.exports
    linuxrecomp.Pe64.present linuxrecomp.Pe64.Address.directory
    linuxrecomp.Pe64.Address.find_directory linuxrecomp.Pe64.Exports.exports_of
    linuxrecomp.Pe64.Exports.symbols_from linuxrecomp.Pe64.Exports.functions_from
    linuxrecomp.Pe64.Exports.names_from linuxrecomp.Pe64.Exports.name_of
    linuxrecomp.Pe64.Exports.forwarder_of linuxrecomp.Pe64.Imports.import_scan_limit
    linuxrecomp.Pe64.Address.read_rva linuxrecomp.Pe64.Address.rva_to_offset
    linuxrecomp.Pe64.Address.section_for_rva linuxrecomp.Pe64.Address.find_section
    linuxrecomp.Pe64.contains_rva linuxrecomp.Pe64.Address.offset_in linuxrecomp.Pe64.has_raw_data
    linuxrecomp.Pe64.end_rva linuxrecomp.Pe64.mapped_size linuxrecomp.Pe64.Bytes.field
    linuxrecomp.Pe64.Bytes.le_value
second_export = refl

in_code : in_ranges (code_ranges sample_image) 0x1060 ≡ true
unfolding in_ranges any_of linuxrecomp.Pe64.Address.code_ranges linuxrecomp.Pe64.Address.ranges_of
    linuxrecomp.Pe64.is_code linuxrecomp.Pe64.end_rva linuxrecomp.Pe64.mapped_size
in_code = refl

first_region : any_of (is_region 0x1000 0x1020) (merge_unwind_regions sample_image) ≡ true
unfolding any_of is_region
first_region = rw regions_known refl

second_region : any_of (is_region 0x1040 0x1050) (merge_unwind_regions sample_image) ≡ true
unfolding any_of is_region
second_region = rw regions_known refl

between_regions : any_of (in_some_region 0x1030) (merge_unwind_regions sample_image) ≡ false
unfolding any_of in_some_region
between_regions = rw regions_known refl

recover_functions-has_range_example :
    any_of (has_range 0x1000 0x1020) (recover_functions sample_image one_bound).0 ≡ true
recover_functions-has_range_example =
    recover_functions-has_range sample_image one_bound 0x1000 0x1020 (omega arith) first_region

recover_functions-exports_example :
    (is_start (recover_functions sample_image one_bound).0 0x1060
      || is_covered (recover_functions sample_image one_bound).0 0x1060)
    ≡ true
recover_functions-exports_example =
    recover_functions-exports sample_image one_bound 0x1060 in_code second_export

recover_functions-entrypoint_example :
    (is_start (recover_functions sample_image one_bound).0 0x1070
      || is_covered (recover_functions sample_image one_bound).0 0x1070)
    ≡ true
recover_functions-entrypoint_example =
    recover_functions-entrypoint sample_image one_bound (omega arith)

recover_functions-overlap_example :
    (any_of (has_range 0x1030 0x1048) (recover_functions sample_image long_bound).0 ≡ true)
    × (any_of (has_range 0x1040 0x1050) (recover_functions sample_image long_bound).0 ≡ true)
recover_functions-overlap_example =
    recover_functions-overlap sample_image 0x1030 0x1048 0x1040 0x1050 (omega arith) (omega arith)
      (omega arith) between_regions second_region

merge_unwind_regions-total_count_example :
    (total_count (merge_unwind_regions sample_image) ≡ length (runtime_functions sample_image))
    × (length (merge_unwind_regions sample_image) ≤ length (runtime_functions sample_image))
merge_unwind_regions-total_count_example = merge_unwind_regions-total_count sample_image

merge_unwind_regions-in_region_example :
    any_of (in_region 0x1018) (merge_unwind_regions sample_image)
    ≡ any_of (in_entry 0x1018) (runtime_functions sample_image)
merge_unwind_regions-in_region_example =
    merge_unwind_regions-in_region sample_image 0x1018 entries-IsProper

abbrev two_ranges : List Function
two_ranges = range 0x1000 (some 0x1020) ∷ range 0x1040 (some 0x1050) ∷ []

validate_ranges-fine_example :
    (validate_ranges sample_image two_ranges ≡ [])
    ↔ (All (IsInCode (code_ranges sample_image)) two_ranges × AreApart two_ranges)
unfolding sort_by_start linuxrecomp.Functions.sort_onto linuxrecomp.Functions.insert_by_start
validate_ranges-fine_example =
    validate_ranges-fine sample_image two_ranges (sort_by_start-IsSorted two_ranges)
      ((0x1020, refl), ((0x1050, refl), tt))

validate_ranges-hidden_example :
    validate_ranges sample_image
      (range 0x1000 (some 0x1030) ∷ range 0x1010 none ∷ range 0x1020 (some 0x1040) ∷ [])
    ≡ []
unfolding in_ranges any_of linuxrecomp.Pe64.Address.code_ranges linuxrecomp.Pe64.Address.ranges_of
    linuxrecomp.Pe64.is_code linuxrecomp.Pe64.end_rva linuxrecomp.Pe64.mapped_size
validate_ranges-hidden_example =
    validate_ranges-hidden sample_image (range 0x1000 (some 0x1030)) (range 0x1010 none)
      (range 0x1020 (some 0x1040)) 0x1030 0x1040 refl refl refl (omega arith) (omega arith)
      (omega arith) (omega arith) (refl, (refl, (refl, tt)))
