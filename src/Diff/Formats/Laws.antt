-- ===== src/Diff/Formats/Laws.antt =====
-- The diff of custom formats, and the one case in which it never settles.
use mathlib.Core.List.{append_assoc}
use nebularr_operator.Common.{
  sym, ap, String, true, false, ◌≡◌, ◌≢◌, refl, ◌∙◌, arith, Option, none, some, List, [], ◌∷◌, ◌++◌,
  string_eq, bool_eq, nat_eq, All,
}
use nebularr_operator.Common.Dict.{Dict, lookup, insert, lookup-insert}
use nebularr_operator.Common.Range.{RangeOrder}
use nebularr_operator.Ir.{CustomFormatIr, FormatSpecIr}
use nebularr_operator.Changes.{ChangeSet, Payload, custom_format, empty_changes}
use nebularr_operator.Diff.Keyed.{index}
use nebularr_operator.Diff.Keyed.Service.{Reading, IsReadBy, serve, settled, lookup-index-All}
use nebularr_operator.Diff.Keyed.Addresses.{IsAmong, diff_keyed-IsAmong}
use nebularr_operator.Diff.Keyed.Converge.{lookup-serve-diff_keyed, diff_keyed-settled}
use nebularr_operator.Diff.Formats.{
  format_specs_equal, specs_by_name, specs_match, custom_formats_equal, custom_formats,
  diff_custom_formats, format_change,
}

format_specs_equal_refl : (s : FormatSpecIr) → format_specs_equal s s ≡ true
unfolding format_specs_equal
format_specs_equal_refl s = ground arith

-- No two specifications have one name.
abbrev IsAbsent : String → List FormatSpecIr → Type 0
IsAbsent name = All (λ (s : FormatSpecIr). s.name ≢ name)

abbrev pub NodupNames : List FormatSpecIr → Type 0
NodupNames [] = Unit
NodupNames (s ∷ specs) = IsAbsent s.name specs × NodupNames specs

lookup-specs_by_name_of_absent :
    (name : String) (specs : List FormatSpecIr) (m : Dict String FormatSpecIr)
    → IsAbsent name specs
    → lookup name (specs_by_name m specs) ≡ lookup name m
unfolding specs_by_name
lookup-specs_by_name_of_absent name [] m h = refl
lookup-specs_by_name_of_absent name (s ∷ specs) m h =
    lookup-specs_by_name_of_absent name specs (insert s.name s m) h.1
    ∙ ground (arith, lookup-insert name s.name s m, h.0)

-- `m` holds the specifications that were there before.
specs_match_onto :
    (specs : List FormatSpecIr) (m : Dict String FormatSpecIr) (all : Dict String FormatSpecIr)
    → NodupNames specs
    → all ≡ specs_by_name m specs
    → specs_match all specs ≡ true
unfolding specs_by_name specs_match
specs_match_onto [] m all u e = refl
specs_match_onto (s ∷ specs) m all u e =
    let found = lookup-specs_by_name_of_absent s.name specs (insert s.name s m) u.0 in
    let rest = specs_match_onto specs (insert s.name s m) all u.1 e in
    rw (e, found, specs_match)
      (ground (arith, rest, lookup-insert s.name s.name s m, format_specs_equal_refl s))

custom_formats_equal_refl :
    (cf : CustomFormatIr)
    → NodupNames cf.specifications
    → custom_formats_equal (some cf) (some cf) ≡ true
unfolding custom_formats_equal nat_eq
custom_formats_equal_refl cf u = ground (arith, specs_match_onto cf.specifications [] _ u refl)

abbrev format_of : Option Payload → Option CustomFormatIr
format_of (some (custom_format d)) = some d
format_of _ = none

-- The service finds a format by its name, and stores what it is sent.
abbrev pub format_reading : Reading CustomFormatIr
format_reading = record {
  target = λ c. c.name;
  payload = λ c. format_of c.payload;
  finds_updated = λ _ _. true;
  finds_deleted = λ _ _. true;
  sent = λ _ d. d;
}

format-IsReadBy : IsReadBy custom_formats format_reading
format-IsReadBy = record {
  target-create = λ d. refl;
  payload-create = λ d. refl;
  target-update = λ c d. refl;
  payload-update = λ c d. refl;
  finds-update = λ c d. refl;
  target-delete = λ c. refl;
  finds-delete = λ c. refl;
}

abbrev pub settled_format : Option CustomFormatIr → Option CustomFormatIr → Option CustomFormatIr
settled_format = settled custom_formats format_reading

abbrev pub format_named : String → List CustomFormatIr → Option CustomFormatIr
format_named name formats = lookup name (index custom_formats formats)

-- The last specification of a name is the one found under it.
lookup-specs_by_name_other :
    (post : List FormatSpecIr) (name : String) (m : Dict String FormatSpecIr)
    → All (λ (x : FormatSpecIr). x.name ≢ name) post
    → lookup name (specs_by_name m post) ≡ lookup name m
unfolding specs_by_name
lookup-specs_by_name_other [] name m h = refl
lookup-specs_by_name_other (x ∷ post) name m h =
    lookup-specs_by_name_other post name (insert x.name x m) h.1
    ∙ ground (arith, lookup-insert name x.name x m, h.0)

lookup-specs_by_name_last :
    (pre : List FormatSpecIr) (t : FormatSpecIr) (post : List FormatSpecIr)
    (m : Dict String FormatSpecIr)
    → All (λ (x : FormatSpecIr). x.name ≢ t.name) post
    → lookup t.name (specs_by_name m (pre ++ t ∷ post)) ≡ some t
unfolding specs_by_name
lookup-specs_by_name_last [] t post m h =
    lookup-specs_by_name_other post t.name (insert t.name t m) h
    ∙ ground (arith, lookup-insert t.name t.name t m)
lookup-specs_by_name_last (s ∷ pre) t post m h =
    lookup-specs_by_name_last pre t post (insert s.name s m) h

specs_match_differ :
    (m : Dict String FormatSpecIr) (pre : List FormatSpecIr) (s t : FormatSpecIr)
    (rest : List FormatSpecIr)
    → lookup s.name m ≡ some t
    → format_specs_equal t s ≡ false
    → specs_match m (pre ++ s ∷ rest) ≡ false
unfolding specs_match
specs_match_differ m [] s t rest found d = ground arith
specs_match_differ m (x ∷ pre) s t rest found d =
    ground (arith, specs_match_differ m pre s t rest found d)

custom_formats_equal_repeated :
    (cf : CustomFormatIr) (s t : FormatSpecIr) (pre mid post : List FormatSpecIr)
    → cf.specifications ≡ pre ++ (s ∷ (mid ++ (t ∷ post)))
    → s.name ≡ t.name
    → All (λ (x : FormatSpecIr). x.name ≢ t.name) post
    → format_specs_equal t s ≡ false
    → custom_formats_equal (some cf) (some cf) ≡ false
unfolding custom_formats_equal nat_eq
custom_formats_equal_repeated cf s t pre mid post e n last d =
    let specs = cf.specifications in
    let split : specs ≡ (pre ++ (s ∷ mid)) ++ t ∷ post =
      e ∙ sym (append_assoc pre (s ∷ mid) (t ∷ post)) in
    let found : lookup s.name (specs_by_name [] specs) ≡ some t =
      ap (λ k. lookup k (specs_by_name [] specs)) n
      ∙ (ap (λ l. lookup t.name (specs_by_name [] l)) split
          ∙ lookup-specs_by_name_last (pre ++ (s ∷ mid)) t post [] last) in
    let unmatched : specs_match (specs_by_name [] specs) specs ≡ false =
      ap (specs_match (specs_by_name [] specs)) e
      ∙ specs_match_differ (specs_by_name [] specs) pre s t (mid ++ (t ∷ post)) found d in
    ground (arith, unmatched)

module _ (od oc : RangeOrder (String × CustomFormatIr)) where
  -- A service that holds the current formats by name, and carries out the change set that
  -- `DiffCustomFormats` writes, has under each name: nothing, if no format of that name is wanted;
  -- the current format, if `CustomFormatsEqual` takes it for the wanted one; and else the wanted one.
  pub formats_reconciled :
      (current desired : List CustomFormatIr) (name : String)
      → lookup name (
          serve format_reading
            (diff_custom_formats od oc current desired empty_changes)
            (index custom_formats current))
        ≡ settled_format (format_named name current) (format_named name desired)
  unfolding diff_custom_formats
  formats_reconciled current desired name =
      lookup-serve-diff_keyed custom_formats format_reading od oc format-IsReadBy current desired
        name

  -- If no desired format names two specifications alike, and the service reports under each name the
  -- format that a reconciliation leaves there (none if none is wanted, the one that was there if it
  -- equals the wanted one, and else the wanted one), a further diff adds no change.
  pub formats_stable :
      (current desired after : List CustomFormatIr)
      → All (λ (cf : CustomFormatIr). NodupNames cf.specifications) desired
      → ((name : String)
          → format_named name after
            ≡ settled_format (format_named name current) (format_named name desired))
      → (changes : ChangeSet) → diff_custom_formats od oc after desired changes ≡ changes
  unfolding diff_custom_formats
  formats_stable current desired after u h changes =
      let same = λ (k : String) (d : CustomFormatIr) (e : format_named k desired ≡ some d).
        custom_formats_equal_refl d (
          lookup-index-All custom_formats (λ (cf : CustomFormatIr). NodupNames cf.specifications)
            desired u k d e) in
      diff_keyed-settled custom_formats format_reading od oc current desired after same
        (λ k _ d e. same k d e) h changes

  -- If a format has two specifications of one name that differ in another field, of which the second is the last of
  -- that name, then the format is updated although the service has it: in whatever order Go visits the maps, the diff
  -- of any list of formats that has it under its name with any list that has the same one has its update.
  pub formats_unstable :
      (current desired : List CustomFormatIr) (cf : CustomFormatIr) (s t : FormatSpecIr)
      (pre mid post : List FormatSpecIr)
      → format_named cf.name current ≡ some cf
      → format_named cf.name desired ≡ some cf
      → cf.specifications ≡ pre ++ (s ∷ (mid ++ (t ∷ post)))
      → s.name ≡ t.name
      → All (λ (x : FormatSpecIr). x.name ≢ t.name) post
      → format_specs_equal t s ≡ false
      → IsAmong
          (format_change cf.name (some cf))
          (diff_custom_formats od oc current desired empty_changes).updates
  unfolding diff_custom_formats
  formats_unstable current desired cf s t pre mid post held wanted e n last d =
      diff_keyed-IsAmong custom_formats od oc current desired cf.name cf cf held wanted
        (custom_formats_equal_repeated cf s t pre mid post e n last d)
