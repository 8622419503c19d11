-- ===== src/Presets/Video.antt =====
-- internal/presets/video.go: the built-in video presets.
use nebularr_operator.Common.{String, string_eq, Option, some, List, [], ◌∷◌, map}
use nebularr_operator.Common.Dict.{Dict, lookup}

pub record QualityTier : Type 0 where
  pub resolution : String
  pub sources : List String

pub record VideoQualityPreset : Type 0 where
  pub name : String
  pub description : String
  pub tiers : List QualityTier
  pub upgrade_until : Option QualityTier
  pub preferred_formats : List String
  pub reject_formats : List String

abbrev tier : String → List String → QualityTier
tier resolution sources = record { resolution = resolution; sources = sources }

abbrev preset_4k_hdr : VideoQualityPreset
preset_4k_hdr = record {
  name = "4k-hdr";
  description = "4K with HDR, falls back to 1080p";
  tiers =
      tier "2160p" ("remux" ∷ "bluray" ∷ "webdl" ∷ "webrip" ∷ [])
      ∷ tier "1080p" ("remux" ∷ "bluray" ∷ "webdl" ∷ "webrip" ∷ [])
      ∷ [];
  upgrade_until = some (tier "2160p" ("remux" ∷ []));
  preferred_formats = "hdr10" ∷ "hdr10plus" ∷ "dolby-vision" ∷ "atmos" ∷ "truehd" ∷ "dts-x" ∷ [];
  reject_formats = "cam" ∷ "telesync" ∷ "telecine" ∷ "workprint" ∷ "3d" ∷ [];
}

abbrev preset_4k_sdr : VideoQualityPreset
preset_4k_sdr = record {
  name = "4k-sdr";
  description = "4K without HDR requirement";
  tiers =
      tier "2160p" ("remux" ∷ "bluray" ∷ "webdl" ∷ "webrip" ∷ [])
      ∷ tier "1080p" ("remux" ∷ "bluray" ∷ "webdl" ∷ "webrip" ∷ [])
      ∷ [];
  upgrade_until = some (tier "2160p" ("remux" ∷ []));
  preferred_formats = "atmos" ∷ "truehd" ∷ "dts-x" ∷ "dts-hd" ∷ [];
  reject_formats = "cam" ∷ "telesync" ∷ "telecine" ∷ "workprint" ∷ "3d" ∷ [];
}

abbrev preset_1080p_quality : VideoQualityPreset
preset_1080p_quality = record {
  name = "1080p-quality";
  description = "1080p bluray/remux preferred";
  tiers =
      tier "1080p" ("remux" ∷ "bluray" ∷ [])
      ∷ tier "1080p" ("webdl" ∷ "webrip" ∷ [])
      ∷ tier "720p" ("bluray" ∷ "webdl" ∷ [])
      ∷ [];
  upgrade_until = some (tier "1080p" ("remux" ∷ []));
  preferred_formats = "truehd" ∷ "dts-hd" ∷ "atmos" ∷ [];
  reject_formats = "cam" ∷ "telesync" ∷ "telecine" ∷ "workprint" ∷ [];
}

abbrev preset_1080p_streaming : VideoQualityPreset
preset_1080p_streaming = record {
  name = "1080p-streaming";
  description = "1080p web sources for smaller files";
  tiers =
      tier "1080p" ("webdl" ∷ "webrip" ∷ [])
      ∷ tier "1080p" ("hdtv" ∷ [])
      ∷ tier "720p" ("webdl" ∷ "webrip" ∷ [])
      ∷ [];
  upgrade_until = some (tier "1080p" ("webdl" ∷ []));
  preferred_formats = "hevc" ∷ "aac" ∷ [];
  reject_formats = "cam" ∷ "telesync" ∷ "telecine" ∷ "workprint" ∷ [];
}

abbrev preset_720p : VideoQualityPreset
preset_720p = record {
  name = "720p";
  description = "720p any source for limited storage/bandwidth";
  tiers =
      tier "720p" ("bluray" ∷ "webdl" ∷ "webrip" ∷ "hdtv" ∷ [])
      ∷ tier "480p" ("webdl" ∷ "dvd" ∷ [])
      ∷ [];
  upgrade_until = some (tier "720p" ("bluray" ∷ []));
  preferred_formats = [];
  reject_formats = "cam" ∷ "telesync" ∷ "telecine" ∷ "workprint" ∷ [];
}

abbrev preset_balanced : VideoQualityPreset
preset_balanced = record {
  name = "balanced";
  description = "1080p preferred, accepts 720p-4K (default)";
  tiers =
      tier "2160p" ("bluray" ∷ "webdl" ∷ [])
      ∷ tier "1080p" ("remux" ∷ "bluray" ∷ "webdl" ∷ "webrip" ∷ [])
      ∷ tier "720p" ("bluray" ∷ "webdl" ∷ [])
      ∷ [];
  upgrade_until = some (tier "1080p" ("bluray" ∷ []));
  preferred_formats = "hdr10" ∷ "dolby-vision" ∷ [];
  reject_formats = "cam" ∷ "telesync" ∷ "telecine" ∷ "workprint" ∷ [];
}

abbrev preset_any : VideoQualityPreset
preset_any = record {
  name = "any";
  description = "Accept anything, upgrade when better";
  tiers =
      tier "2160p" ("remux" ∷ "bluray" ∷ "webdl" ∷ "webrip" ∷ "hdtv" ∷ [])
      ∷ tier "1080p" ("remux" ∷ "bluray" ∷ "webdl" ∷ "webrip" ∷ "hdtv" ∷ [])
      ∷ tier "720p" ("bluray" ∷ "webdl" ∷ "webrip" ∷ "hdtv" ∷ [])
      ∷ tier "480p" ("webdl" ∷ "webrip" ∷ "dvd" ∷ "sdtv" ∷ [])
      ∷ [];
  upgrade_until = some (tier "2160p" ("remux" ∷ []));
  preferred_formats = [];
  reject_formats = "cam" ∷ "workprint" ∷ [];
}

abbrev preset_storage_optimized : VideoQualityPreset
preset_storage_optimized = record {
  name = "storage-optimized";
  description = "Balance quality vs file size";
  tiers = tier "1080p" ("webdl" ∷ "webrip" ∷ []) ∷ tier "720p" ("webdl" ∷ "webrip" ∷ []) ∷ [];
  upgrade_until = some (tier "1080p" ("webdl" ∷ []));
  preferred_formats = "hevc" ∷ "av1" ∷ "aac" ∷ [];
  reject_formats = "remux" ∷ "truehd" ∷ "dts-hd" ∷ "cam" ∷ "telesync" ∷ [];
}

abbrev pub video_presets : Dict String VideoQualityPreset
video_presets =
    ("4k-hdr", preset_4k_hdr)
    ∷ ("4k-sdr", preset_4k_sdr)
    ∷ ("1080p-quality", preset_1080p_quality)
    ∷ ("1080p-streaming", preset_1080p_streaming)
    ∷ ("720p", preset_720p)
    ∷ ("balanced", preset_balanced)
    ∷ ("any", preset_any)
    ∷ ("storage-optimized", preset_storage_optimized)
    ∷ []

abbrev pub default_video_preset : String
default_video_preset = "balanced"

-- `VideoPresets[DefaultVideoPreset]`
abbrev pub default_preset : VideoQualityPreset
default_preset = preset_balanced

unfoldable pub get_video_preset : String → Option VideoQualityPreset
get_video_preset name = lookup name video_presets

-- The names in the order of the map's entries (Go leaves the order open).
unfoldable pub list_video_presets : List String
list_video_presets = map (λ (p : String × VideoQualityPreset). p.0) video_presets
