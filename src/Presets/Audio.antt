-- ===== src/Presets/Audio.antt =====
-- internal/presets/audio.go: the built-in audio presets.
use nebularr_operator.Common.{String, string_eq, Option, List, [], ◌∷◌, map}
use nebularr_operator.Common.Dict.{Dict, lookup}

pub record AudioQualityPreset : Type 0 where
  pub name : String
  pub description : String
  pub tiers : List String
  pub upgrade_until : String
  pub preferred_formats : List String
  pub reject_tiers : List String

abbrev preset_lossless_hires : AudioQualityPreset
preset_lossless_hires = record {
  name = "lossless-hires";
  description = "24-bit lossless preferred for audiophiles";
  tiers = "lossless-hires" ∷ "lossless" ∷ [];
  upgrade_until = "lossless-hires";
  preferred_formats = "flac" ∷ "alac" ∷ [];
  reject_tiers = "lossy-poor" ∷ "lossy-trash" ∷ [];
}

abbrev preset_lossless : AudioQualityPreset
preset_lossless = record {
  name = "lossless";
  description = "16-bit lossless (FLAC, ALAC)";
  tiers = "lossless" ∷ "lossless-hires" ∷ "lossy-high" ∷ [];
  upgrade_until = "lossless";
  preferred_formats = "flac" ∷ [];
  reject_tiers = "lossy-poor" ∷ "lossy-trash" ∷ [];
}

abbrev preset_high_quality : AudioQualityPreset
preset_high_quality = record {
  name = "high-quality";
  description = "320kbps lossy or lossless";
  tiers = "lossless" ∷ "lossy-high" ∷ [];
  upgrade_until = "lossless";
  preferred_formats = "flac" ∷ "mp3-320" ∷ [];
  reject_tiers = "lossy-low" ∷ "lossy-poor" ∷ "lossy-trash" ∷ [];
}

abbrev preset_balanced : AudioQualityPreset
preset_balanced = record {
  name = "balanced";
  description = "256kbps+ lossy or lossless (default)";
  tiers = "lossless" ∷ "lossy-high" ∷ "lossy-mid" ∷ [];
  upgrade_until = "lossy-high";
  preferred_formats = [];
  reject_tiers = "lossy-poor" ∷ "lossy-trash" ∷ [];
}

abbrev preset_portable : AudioQualityPreset
preset_portable = record {
  name = "portable";
  description = "192-256kbps for mobile devices";
  tiers = "lossy-high" ∷ "lossy-mid" ∷ "lossy-low" ∷ [];
  upgrade_until = "lossy-high";
  preferred_formats = "aac" ∷ "mp3-320" ∷ [];
  reject_tiers = "lossy-trash" ∷ "lossless-raw" ∷ [];
}

abbrev preset_any : AudioQualityPreset
preset_any = record {
  name = "any";
  description = "Accept anything, upgrade when better";
  tiers =
      "lossless-hires" ∷ "lossless" ∷ "lossy-high" ∷ "lossy-mid" ∷ "lossy-low" ∷ "lossy-poor" ∷ [];
  upgrade_until = "lossless";
  preferred_formats = [];
  reject_tiers = [];
}

abbrev pub audio_presets : Dict String AudioQualityPreset
audio_presets =
    ("lossless-hires", preset_lossless_hires)
    ∷ ("lossless", preset_lossless)
    ∷ ("high-quality", preset_high_quality)
    ∷ ("balanced", preset_balanced)
    ∷ ("portable", preset_portable)
    ∷ ("any", preset_any)
    ∷ []

abbrev pub default_audio_preset : String
default_audio_preset = "balanced"

-- `AudioPresets[DefaultAudioPreset]`
abbrev pub default_preset : AudioQualityPreset
default_preset = preset_balanced

unfoldable pub get_audio_preset : String → Option AudioQualityPreset
get_audio_preset name = lookup name audio_presets

-- The names in the order of the map's entries (Go leaves the order open).
unfoldable pub list_audio_presets : List String
list_audio_presets = map (λ (p : String × AudioQualityPreset). p.0) audio_presets
