-- ===== src/Tests/Deltas.antt =====
-- The diffs of formats, mappings, delay profiles and folders, and their cleanup.
use nebularr_operator.Common.{
  String, string_eq, bool_eq, int_eq, true, false, ◌≡◌, refl, pos, some, List, [], ◌∷◌,
  Option-cases, inl, inr, arith, All, contains,
}
use nebularr_operator.Common.Dict.{lookup, insert}
use nebularr_operator.Ir.{CustomFormatIr, DelayProfileIr}
use nebularr_operator.Changes.{empty_changes}
use nebularr_operator.Diff.Keyed.{index, index_onto}
use nebularr_operator.Diff.Keyed.Addresses.{IsAmong}
use nebularr_operator.Diff.Keyed.Service.{serve}
use nebularr_operator.Diff.Formats.{
  custom_formats, diff_custom_formats, format_specs_equal, format_change,
}
use nebularr_operator.Diff.Formats.Laws.{
  format_reading, settled_format, format_named, formats_reconciled, formats_stable,
  formats_unstable,
}
use nebularr_operator.Diff.Paths.{diff_remote_path_mappings}
use nebularr_operator.Diff.Paths.Laws.{settled_mapping, mapping_at, mappings_stable}
use nebularr_operator.Diff.Delay.{
  by_order, by_order_onto, diff_delay_profiles, delay_profiles_equal, all_in,
}
use nebularr_operator.Diff.Delay.Laws.{IsSurplus, profiles-IsSurplus}
use nebularr_operator.Diff.Profiles.{paths}
use nebularr_operator.Tests.Data.{in_order, in_reverse, format, spec, mapping, profile, folder}

abbrev remux : CustomFormatIr
remux = format "remux" (spec "title" "Remux" ∷ [])

formats_reconciled_example :
    lookup "remux" (
      serve format_reading
        (diff_custom_formats in_order in_reverse
          (format "remux" [] ∷ [])
          (remux ∷ [])
          empty_changes)
        (index custom_formats (format "remux" [] ∷ [])))
    ≡ settled_format
        (format_named "remux" (format "remux" [] ∷ []))
        (format_named "remux" (remux ∷ []))
formats_reconciled_example =
    formats_reconciled in_order in_reverse (format "remux" [] ∷ []) (remux ∷ []) "remux"

created_formats :
    (name : String)
    → format_named name (remux ∷ [])
      ≡ settled_format (format_named name []) (format_named name (remux ∷ []))
unfolding index_onto lookup
created_formats name = elim (Option-cases (format_named name (remux ∷ []))) [
  | inl e ↦ rw e refl
  | inr (c, e) ↦ rw e refl
]

formats_stable_example :
    diff_custom_formats in_order in_reverse (remux ∷ []) (remux ∷ []) empty_changes ≡ empty_changes
formats_stable_example =
    formats_stable in_order in_reverse [] (remux ∷ []) (remux ∷ []) ((tt, tt), tt) created_formats
      empty_changes

specs_differ : format_specs_equal (spec "title" "b") (spec "title" "a") ≡ false
unfolding format_specs_equal string_eq bool_eq
specs_differ = refl

abbrev two_titles : CustomFormatIr
two_titles = format "two" (spec "title" "a" ∷ spec "title" "b" ∷ [])

two_titles_found : format_named "two" (remux ∷ two_titles ∷ []) ≡ some two_titles
unfolding lookup insert index_onto string_eq
two_titles_found = refl

formats_unstable_example :
    IsAmong
      (format_change "two" (some two_titles))
      (diff_custom_formats in_order in_reverse
        (remux ∷ two_titles ∷ [])
        (remux ∷ two_titles ∷ [])
        empty_changes).updates
formats_unstable_example =
    formats_unstable in_order in_reverse (remux ∷ two_titles ∷ []) (remux ∷ two_titles ∷ [])
      two_titles (spec "title" "a") (spec "title" "b") [] [] [] two_titles_found two_titles_found
      refl refl tt specs_differ

created_mappings :
    (key : String)
    → mapping_at key (mapping (pos 0) "/b" ∷ [])
      ≡ settled_mapping (mapping_at key []) (mapping_at key (mapping (pos 0) "/b" ∷ []))
unfolding index_onto lookup
created_mappings key = elim (Option-cases (mapping_at key (mapping (pos 0) "/b" ∷ []))) [
  | inl e ↦ rw e refl
  | inr (c, e) ↦ rw e refl
]

mappings_stable_example :
    diff_remote_path_mappings in_order in_reverse
      (mapping (pos 0) "/b" ∷ [])
      (mapping (pos 0) "/b" ∷ [])
      empty_changes
    ≡ empty_changes
mappings_stable_example =
    mappings_stable in_order in_reverse [] (mapping (pos 0) "/b" ∷ []) (mapping (pos 0) "/b" ∷ [])
      created_mappings empty_changes

abbrev current_profiles : List DelayProfileIr
current_profiles = profile (pos 1) (pos 1) ∷ profile (pos 2) (pos 5) ∷ []

profiles-IsSurplus_example :
    All
      (IsSurplus current_profiles (by_order (profile (pos 0) (pos 3) ∷ [])))
      (diff_delay_profiles current_profiles (profile (pos 0) (pos 3) ∷ []) empty_changes).deletes
profiles-IsSurplus_example = profiles-IsSurplus current_profiles (profile (pos 0) (pos 3) ∷ [])

profile_found :
    lookup (pos 1) (by_order (profile (pos 7) (pos 1) ∷ [])) ≡ some (profile (pos 7) (pos 1))
unfolding by_order_onto insert lookup
profile_found = ground arith

profiles_equal : delay_profiles_equal (profile (pos 7) (pos 1)) (profile (pos 0) (pos 1)) ≡ true
unfolding delay_profiles_equal all_in
profiles_equal = ground arith

both_paths :
    (path : String)
    → contains (paths (folder "/kids" ∷ [])) path ≡ true
    → contains (paths (folder "/movies" ∷ folder "/kids" ∷ [])) path ≡ true
both_paths path h = ground (arith, h)
