-- ===== src/Presets/Override.antt =====
-- internal/presets/override.go: modifications of a preset.
pub mod Laws
use nebularr_operator.Common.{String, string_eq, contains, if◌then◌else◌, List, [], ◌∷◌, ◌++◌}
use nebularr_operator.Changes.{is_nil}
use nebularr_operator.Presets.Video.{VideoQualityPreset}
use nebularr_operator.Presets.Audio.{AudioQualityPreset}

pub record QualityOverrides : Type 0 where
  pub exclude : List String
  pub prefer_additional : List String
  pub reject_additional : List String

-- The loop that keeps what the set lacks.
unfoldable pub reject : List String → List String → List String
reject set [] = []
reject set (item ∷ slice) =
    let rest = reject set slice in if contains set item then rest else item ∷ rest

unfoldable pub remove_items : List String → List String → List String
unfolding reject
remove_items slice to_remove = if is_nil to_remove then slice else reject to_remove slice

unfoldable pub apply_video_overrides : VideoQualityPreset → QualityOverrides → VideoQualityPreset
unfolding remove_items
apply_video_overrides preset overrides = record {
  name = preset.name;
  description = preset.description;
  tiers = preset.tiers;
  upgrade_until = preset.upgrade_until;
  preferred_formats =
      remove_items preset.preferred_formats overrides.exclude ++ overrides.prefer_additional;
  reject_formats =
      remove_items preset.reject_formats overrides.exclude ++ overrides.reject_additional;
}

unfoldable pub apply_audio_overrides : AudioQualityPreset → QualityOverrides → AudioQualityPreset
unfolding remove_items
apply_audio_overrides preset overrides = record {
  name = preset.name;
  description = preset.description;
  tiers = preset.tiers;
  upgrade_until = preset.upgrade_until;
  preferred_formats =
      remove_items preset.preferred_formats overrides.exclude ++ overrides.prefer_additional;
  reject_tiers = remove_items preset.reject_tiers overrides.exclude ++ overrides.reject_additional;
}
