-- ===== src/Compiler/Convert/Quality.antt =====
-- internal/compiler/radarr.go: the qualities and the metadata profile.
use nebularr_operator.Common.{
  String, true, false, not, ◌==◌, ◌||◌, string_eq, if◌then◌else◌, Option, none, some, List, [], ◌∷◌,
}
use nebularr_operator.Changes.{is_nil}
use nebularr_operator.Presets.Override.{QualityOverrides}
use nebularr_operator.Api.{}
use nebularr_operator.Api.Specs.{VideoQualitySpec, AudioQualitySpec}
use nebularr_operator.Api.Kinds.{ReadarrQualitySpec, ReadarrFormatSpec, ReadarrMetadataProfileSpec}
use nebularr_operator.Compiler.Types.{BookQualityInput, MetadataProfileInput}
use nebularr_operator.Compiler.Compile.{}
use nebularr_operator.Compiler.Convert.{ptr_or_default}
use nebularr_operator.Compiler.Convert.Clients.{}
use nebularr_operator.Compiler.Convert.Settings.{}

-- No overrides are passed on if there are none.
unfoldable pub overrides_of : List String → List String → List String → Option QualityOverrides
overrides_of exclude prefer reject =
    if not (is_nil exclude) || not (is_nil prefer) || not (is_nil reject)
    then some (record { exclude = exclude; prefer_additional = prefer; reject_additional = reject })
    else none

abbrev pub video_overrides : VideoQualitySpec → Option QualityOverrides
video_overrides q = overrides_of q.exclude q.prefer_additional q.reject_additional

abbrev pub audio_overrides : AudioQualitySpec → Option QualityOverrides
audio_overrides q = overrides_of q.exclude q.prefer_additional []

unfoldable pub allowed_names : List ReadarrFormatSpec → List String
allowed_names [] = []
allowed_names (f ∷ formats) =
    let rest = allowed_names formats in if f.allowed then f.format ∷ rest else rest

-- `AllowedFormats != nil || Cutoff != ""`
unfoldable pub convert_book_quality : ReadarrQualitySpec → Option BookQualityInput
unfolding allowed_names
convert_book_quality q =
    let book : List ReadarrFormatSpec → BookQualityInput = λ formats. record {
      profile_name = "";
      upgrade_allowed = ptr_or_default q.upgrade_allowed true;
      cutoff_format = q.cutoff;
      allowed_formats = allowed_names formats;
    } in
    elim q.allowed_formats [
      | some formats ↦ some (book formats)
      | none ↦ if not (q.cutoff == "") then some (book []) else none
    ]

abbrev pub convert_metadata_profile : ReadarrMetadataProfileSpec → MetadataProfileInput
convert_metadata_profile p = record {
  name = p.name;
  min_popularity = p.min_popularity;
  skip_missing_date = ptr_or_default p.skip_missing_date true;
  skip_missing_isbn = ptr_or_default p.skip_missing_isbn false;
  skip_parts_and_sets = ptr_or_default p.skip_parts_and_sets false;
  skip_series_secondary = ptr_or_default p.skip_series_secondary false;
  allowed_languages = p.allowed_languages;
}
