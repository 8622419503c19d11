-- ===== src/Diff/Formats.antt =====
-- Custom formats (internal/adapters/diff.go). Their changes have no id: the adapters find a format
-- by its name.
pub mod Laws
use nebularr_operator.Common.{
  String, Bool, true, false, ◌&&◌, ◌==◌, string_eq, bool_eq, if◌then◌else◌, Option, none, some,
  List, [], ◌∷◌, length, nat_eq, not,
}
use nebularr_operator.Common.Dict.{Dict, lookup, insert}
use nebularr_operator.Common.Range.{RangeOrder}
use nebularr_operator.Ir.{CustomFormatIr, FormatSpecIr}
use nebularr_operator.Changes.{Change, ChangeSet, Payload, custom_format, resource_custom_format}
use nebularr_operator.Diff.Keyed.{Keyed, diff_keyed}

unfoldable pub format_specs_equal : FormatSpecIr → FormatSpecIr → Bool
format_specs_equal current desired =
    current.type == desired.type
    && current.name == desired.name
    && current.negate == desired.negate
    && current.required == desired.required
    && current.value == desired.value

-- `currentSpecs[spec.Name] = spec` for each.
unfoldable pub specs_by_name :
    Dict String FormatSpecIr → List FormatSpecIr → Dict String FormatSpecIr
specs_by_name m [] = m
specs_by_name m (spec ∷ specs) = specs_by_name (insert spec.name spec m) specs

-- The loop over the desired specifications.
unfoldable pub specs_match : Dict String FormatSpecIr → List FormatSpecIr → Bool
unfolding format_specs_equal
specs_match current [] = true
specs_match current (spec ∷ specs) = elim (lookup spec.name current) [
  | none ↦ false
  | some c ↦ if format_specs_equal c spec then specs_match current specs else false
]

-- The arguments are pointers, which may be nil.
unfoldable pub custom_formats_equal : Option CustomFormatIr → Option CustomFormatIr → Bool
unfolding specs_by_name specs_match
custom_formats_equal none none = true
custom_formats_equal none (some _) = false
custom_formats_equal (some _) none = false
custom_formats_equal (some current) (some desired) =
    if not (current.name == desired.name)
    then false
    else if not (current.include_when_renaming == desired.include_when_renaming)
    then false
    else if not (length current.specifications == length desired.specifications)
    then false
    else specs_match (specs_by_name [] current.specifications) desired.specifications

abbrev pub format_change : String → Option CustomFormatIr → Change
format_change name cf = record {
  resource_type = resource_custom_format;
  name = name;
  id = none;
  payload = elim cf [ none ↦ none | some d ↦ some (custom_format d) ];
}

abbrev pub custom_formats : Keyed CustomFormatIr
custom_formats = record {
  key = λ cf. cf.name;
  equal = λ c d. custom_formats_equal (some c) (some d);
  create = λ name d. format_change name (some d);
  update = λ name c d. format_change name (some d);
  delete = λ name c. format_change name none;
}

unfoldable pub diff_custom_formats :
    RangeOrder (String × CustomFormatIr)
    → RangeOrder (String × CustomFormatIr)
    → List CustomFormatIr
    → List CustomFormatIr
    → ChangeSet
    → ChangeSet
unfolding diff_keyed custom_formats_equal
diff_custom_formats over_desired over_current current desired changes =
    diff_keyed custom_formats over_desired over_current current desired changes
