-- ===== src/Presets/Expander.antt =====
-- internal/presets/expander.go: presets as quality and naming representations.
pub mod Laws
use nebularr_operator.Common.{
  String, ◌<>◌, Bool, true, false, not, string_eq, contains, if◌then◌else◌, ℤ, pos, negsuc, Option,
  none, some, List, [], ◌∷◌, ◌++◌, map,
}
use nebularr_operator.Common.Dict.{Dict, lookup, insert}
use nebularr_operator.Ir.{
  VideoQualityIr, VideoQualityTierIr, AudioQualityIr, AudioQualityTierIr, CustomFormatIr,
  FormatSpecIr, RadarrNamingIr, SonarrNamingIr, LidarrNamingIr,
}
use nebularr_operator.Presets.Video
use nebularr_operator.Presets.Video.{VideoQualityPreset, QualityTier, get_video_preset}
use nebularr_operator.Presets.Audio
use nebularr_operator.Presets.Audio.{AudioQualityPreset, get_audio_preset}
use nebularr_operator.Presets.Naming.{get_radarr_naming, get_sonarr_naming, get_lidarr_naming}
use nebularr_operator.Presets.Override.{
  QualityOverrides, apply_video_overrides, apply_audio_overrides,
}

-- Format names and the regular expressions that find them in release titles.
abbrev pub format_patterns : Dict String String
format_patterns =
    ("hdr10", "\\bHDR10\\b")
    ∷ ("hdr10plus", "\\bHDR10\\+|HDR10Plus\\b")
    ∷ ("dolby-vision", "\\b(DV|DoVi|Dolby[\\.\\s]?Vision)\\b")
    ∷ ("hlg", "\\bHLG\\b")
    ∷ ("atmos", "\\b(Atmos|ATMOS)\\b")
    ∷ ("truehd", "\\b(TrueHD|True[\\.\\s]?HD)\\b")
    ∷ ("dts-x", "\\b(DTS[\\.\\-\\s]?X)\\b")
    ∷ ("dts-hd", "\\b(DTS[\\.\\-\\s]?(HD[\\.\\-\\s]?)?(MA)?)\\b")
    ∷ ("hevc", "\\b(HEVC|[xh][\\.\\s]?265)\\b")
    ∷ ("av1", "\\bAV1\\b")
    ∷ ("aac", "\\bAAC\\b")
    ∷ ("cam", "\\b(CAM|CAMRIP|CAM[\\.\\-\\s]?RIP)\\b")
    ∷ ("telesync", "\\b(TS|TELESYNC|TELE[\\.\\-\\s]?SYNC)\\b")
    ∷ ("telecine", "\\b(TC|TELECINE|TELE[\\.\\-\\s]?CINE)\\b")
    ∷ ("workprint", "\\b(WP|WORKPRINT|WORK[\\.\\-\\s]?PRINT)\\b")
    ∷ ("3d", "\\b3D\\b")
    ∷ ("dubbed", "\\b(DUBBED|DUB)\\b")
    ∷ ("remux", "\\b(REMUX|Remux)\\b")
    ∷ ("imax", "\\bIMAX\\b")
    ∷ ("extended", "\\b(EXTENDED|Extended)\\b")
    ∷ []

unfoldable pub get_format_specs : String → List FormatSpecIr
get_format_specs format = elim (lookup format format_patterns) [
  | none ↦ []
  | some pattern_ ↦
      record {
        type = "ReleaseTitleSpecification";
        name = format;
        negate = false;
        required = true;
        value = pattern_;
      }
      ∷ []
]

abbrev pub format_name : Bool → String → String
format_name is_reject format = (if is_reject then "Reject: " else "Prefer: ") <> format

abbrev custom_format_of : List FormatSpecIr → String → Option CustomFormatIr
custom_format_of [] name = none
custom_format_of (spec ∷ specs) name = some (record {
  id = pos 0;
  name = name;
  include_when_renaming = false;
  specifications = spec ∷ specs;
})

unfoldable pub format_to_custom_format : String → Bool → Option CustomFormatIr
format_to_custom_format format is_reject =
    custom_format_of (get_format_specs format) (format_name is_reject format)

-- One of the two loops over formats: the custom formats are appended, and their scores set.
abbrev pub Scored : Type 0
Scored = List CustomFormatIr × Dict String ℤ

abbrev pub add_format : Option CustomFormatIr → ℤ → Scored → Scored
add_format none score s = s
add_format (some cf) score (formats, scores) = (formats ++ cf ∷ [], insert cf.name score scores)

unfoldable pub add_formats : Bool → ℤ → List String → Scored → Scored
add_formats is_reject score [] s = s
add_formats is_reject score (format ∷ formats) s =
    add_formats is_reject score formats
      (add_format (format_to_custom_format format is_reject) score s)

abbrev pub preferred_score : ℤ
preferred_score = pos 100

-- -10000
abbrev pub rejected_score : ℤ
rejected_score = negsuc 9999

abbrev pub tier_ir : QualityTier → VideoQualityTierIr
tier_ir tier = record { resolution = tier.resolution; sources = tier.sources; allowed = true }

-- A cutoff that is not set is the zero value.
abbrev no_cutoff : VideoQualityTierIr
no_cutoff = record { resolution = ""; sources = []; allowed = false }

unfoldable pub video_preset_ir : VideoQualityPreset → String → VideoQualityIr
unfolding add_formats
video_preset_ir preset profile_name =
    let (formats, scores) =
      add_formats true rejected_score preset.reject_formats
        (add_formats false preferred_score preset.preferred_formats ([], [])) in
    record {
      profile_name = profile_name;
      upgrade_allowed = true;
      cutoff = elim preset.upgrade_until [ none ↦ no_cutoff | some tier ↦ tier_ir tier ];
      tiers = map tier_ir preset.tiers;
      custom_formats = formats;
      format_scores = scores;
      minimum_custom_format_score = pos 0;
      upgrade_until_custom_format_score = pos 0;
    }

-- The preset of a name, or the default one, with the overrides if there are any.
unfoldable pub select_video_preset : String → Option QualityOverrides → VideoQualityPreset
unfolding get_video_preset apply_video_overrides
select_video_preset name overrides =
    let preset : VideoQualityPreset = elim (get_video_preset name) [
      | none ↦ Video.default_preset
      | some p ↦ p
    ] in
    elim overrides [ none ↦ preset | some o ↦ apply_video_overrides preset o ]

unfoldable pub expand_video_preset : String → Option QualityOverrides → String → VideoQualityIr
unfolding select_video_preset video_preset_ir
expand_video_preset preset_name overrides profile_name =
    video_preset_ir (select_video_preset preset_name overrides) profile_name

unfoldable pub select_audio_preset : String → Option QualityOverrides → AudioQualityPreset
unfolding get_audio_preset apply_audio_overrides
select_audio_preset name overrides =
    let preset : AudioQualityPreset = elim (get_audio_preset name) [
      | none ↦ Audio.default_preset
      | some p ↦ p
    ] in
    elim overrides [ none ↦ preset | some o ↦ apply_audio_overrides preset o ]

abbrev pub audio_tier_ir : List String → String → AudioQualityTierIr
audio_tier_ir rejected tier = record { tier = tier; allowed = not (contains rejected tier) }

unfoldable pub expand_audio_preset : String → Option QualityOverrides → String → AudioQualityIr
unfolding select_audio_preset
expand_audio_preset preset_name overrides profile_name =
    let preset = select_audio_preset preset_name overrides in
    record {
      profile_name = profile_name;
      upgrade_allowed = true;
      cutoff = preset.upgrade_until;
      tiers = map (audio_tier_ir preset.reject_tiers) preset.tiers;
      release_profile = none;
      format_scores = [];
      minimum_custom_format_score = pos 0;
      upgrade_until_custom_format_score = pos 0;
    }

unfoldable pub expand_radarr_naming : String → RadarrNamingIr
unfolding get_radarr_naming
expand_radarr_naming preset_name =
    let expansion = get_radarr_naming preset_name in
    record {
      rename_movies = expansion.rename_movies;
      replace_illegal_characters = expansion.replace_illegal_characters;
      colon_replacement_format = expansion.colon_replacement;
      standard_movie_format = expansion.standard_movie_format;
      movie_folder_format = expansion.movie_folder_format;
    }

unfoldable pub expand_sonarr_naming : String → SonarrNamingIr
unfolding get_sonarr_naming
expand_sonarr_naming preset_name =
    let expansion = get_sonarr_naming preset_name in
    record {
      rename_episodes = expansion.rename_episodes;
      replace_illegal_characters = expansion.replace_illegal_characters;
      colon_replacement_format = expansion.colon_replacement;
      standard_episode_format = expansion.standard_episode_format;
      daily_episode_format = expansion.daily_episode_format;
      anime_episode_format = expansion.anime_episode_format;
      series_folder_format = expansion.series_folder_format;
      season_folder_format = expansion.season_folder_format;
      specials_folder_format = expansion.specials_folder_format;
      multi_episode_style = expansion.multi_episode_style;
    }

unfoldable pub expand_lidarr_naming : String → LidarrNamingIr
unfolding get_lidarr_naming
expand_lidarr_naming preset_name =
    let expansion = get_lidarr_naming preset_name in
    record {
      rename_tracks = expansion.rename_tracks;
      replace_illegal_characters = expansion.replace_illegal_characters;
      colon_replacement_format = expansion.colon_replacement;
      standard_track_format = expansion.standard_track_format;
      multi_disc_track_format = expansion.multi_disc_track_format;
      artist_folder_format = expansion.artist_folder_format;
      album_folder_format = expansion.album_folder_format;
    }
