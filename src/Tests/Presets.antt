-- ===== src/Tests/Presets.antt =====
-- Presets and their overrides.
use nebularr_operator.Common.{
  string_eq, true, false, ◌≡◌, ◌&&◌, none, some, [], ◌∷◌, contains, if◌then◌else◌,
}
use nebularr_operator.Common.Dict.{lookup}
use nebularr_operator.Presets.Video.{default_preset as video_preset}
use nebularr_operator.Presets.Override.{QualityOverrides, apply_video_overrides}
use nebularr_operator.Presets.Override.Laws.{overridden, video_overridden}
use nebularr_operator.Presets.Expander.{
  format_name, preferred_score, rejected_score, select_video_preset, expand_video_preset,
}
use nebularr_operator.Presets.Expander.Laws.{names, is_some, is_known, video_scores}

abbrev overrides : QualityOverrides
overrides = record {
  exclude = "hdr10" ∷ [];
  prefer_additional = "imax" ∷ [];
  reject_additional = "dubbed" ∷ [];
}

video_overridden_example :
    let q = apply_video_overrides video_preset overrides in
    (contains q.preferred_formats "imax"
      ≡ overridden video_preset.preferred_formats overrides.exclude overrides.prefer_additional
          "imax")
    × (contains q.reject_formats "imax"
        ≡ overridden video_preset.reject_formats overrides.exclude overrides.reject_additional
            "imax")
    × (q.tiers ≡ video_preset.tiers)
    × (q.upgrade_until ≡ video_preset.upgrade_until)
video_overridden_example = video_overridden video_preset overrides "imax"

video_scores_example :
    let p = select_video_preset "4k-hdr" (some overrides) in
    let q = expand_video_preset "4k-hdr" (some overrides) "nebularr-movies" in
    (lookup (format_name false "imax") q.format_scores ≡ (
      if contains p.preferred_formats "imax" && is_known "imax"
      then some preferred_score
      else none))
    × (lookup (format_name true "imax") q.format_scores ≡ (
        if contains p.reject_formats "imax" && is_known "imax" then some rejected_score else none))
    × (contains (names q.custom_formats) "Prefer: imax"
        ≡ is_some (lookup "Prefer: imax" q.format_scores))
video_scores_example =
    video_scores "4k-hdr" (some overrides) "nebularr-movies" "imax" "Prefer: imax"
