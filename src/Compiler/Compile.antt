-- ===== src/Compiler/Compile.antt =====
-- internal/compiler/compiler.go: the representation of a compilation input, step by step. The clock
-- and the digest (the first bytes of the SHA-256 of the JSON text) are parameters.
pub mod Laws
pub mod Scores
use nebularr_operator.Common.{
  ℕ, String, ◌<>◌, Bool, not, ◌==◌, ◌&&◌, ◌||◌, string_eq, if◌then◌else◌, ℤ, Option, none, some,
  List, [], ◌∷◌, map,
}
use nebularr_operator.Common.Dict.{Dict}
use nebularr_operator.Changes.{is_nil}
use nebularr_operator.Ir.{
  Ir, ConnectionIr, QualityIr, VideoQualityIr, AudioQualityIr, NamingIr, RootFolderIr,
  MetadataProfileIr, CustomFormatIr, DelayProfileIr,
}
use nebularr_operator.Presets.Video.{default_video_preset}
use nebularr_operator.Presets.Audio.{default_audio_preset}
use nebularr_operator.Presets.Naming.{default_naming_preset}
use nebularr_operator.Presets.Override.{QualityOverrides}
use nebularr_operator.Presets.Expander.{
  expand_video_preset, expand_audio_preset, expand_radarr_naming, expand_sonarr_naming,
  expand_lidarr_naming,
}
use nebularr_operator.Compiler.Types.{
  CompileInput, Capabilities, DownloadClientInput, RemotePathMappingInput, IndexersInput,
  NotificationInput, CustomFormatInput, DelayProfileInput,
}
use nebularr_operator.Compiler.Resources.{
  compile_download_clients, compile_remote_path_mappings, compile_indexers, compile_book_quality,
  compile_metadata_profile,
}
use nebularr_operator.Compiler.Features.{
  compile_import_lists_to_ir, compile_media_management_to_ir, compile_authentication_to_ir,
  compile_notifications_to_ir, compile_custom_formats_to_ir, compile_format_scores,
  compile_delay_profiles_to_ir,
}
use nebularr_operator.Compiler.Prune.{prune_unsupported}

abbrev pub ir_version : String
ir_version = "v1"

abbrev pub app_radarr : String
app_radarr = "radarr"

abbrev pub app_sonarr : String
app_sonarr = "sonarr"

abbrev pub app_lidarr : String
app_lidarr = "lidarr"

abbrev pub app_readarr : String
app_readarr = "readarr"

abbrev pub or_default : String → String → String
or_default name fallback = if name == "" then fallback else name

abbrev pub profile_name_of : CompileInput → String
profile_name_of input = "nebularr-" <> input.config_name

abbrev video_only : VideoQualityIr → QualityIr
video_only q = record { video = some q; audio = none; book = none }

-- Step 2, the quality profile.
unfoldable pub compile_quality : CompileInput → Option QualityIr
unfolding expand_video_preset expand_audio_preset compile_book_quality
compile_quality input =
    if input.app == app_radarr || input.app == app_sonarr
    then some (
        video_only (
          expand_video_preset (or_default input.quality_preset default_video_preset)
            input.quality_overrides (profile_name_of input)))
    else if input.app == app_lidarr
    then some (record {
      video = none;
      audio = some (
          expand_audio_preset (or_default input.quality_preset default_audio_preset)
            input.quality_overrides (profile_name_of input));
      book = none;
    })
    else if input.app == app_readarr
    then elim input.book_quality [
      | none ↦ none
      | some book ↦ some (record {
        video = none;
        audio = none;
        book = some (compile_book_quality book (profile_name_of input));
      })
    ]
    else none

-- Step 2, the metadata profiles, which only Readarr has.
unfoldable pub compile_metadata_profiles : CompileInput → List (Option MetadataProfileIr)
unfolding compile_metadata_profile
compile_metadata_profiles input =
    if input.app == app_readarr
    then elim input.metadata_profile [
      | none ↦ []
      | some profile ↦ some (compile_metadata_profile profile (profile_name_of input)) ∷ []
    ]
    else []

-- Step 3.
unfoldable pub compile_naming : CompileInput → Option NamingIr
unfolding expand_radarr_naming expand_sonarr_naming expand_lidarr_naming
compile_naming input =
    let preset = or_default input.naming_preset default_naming_preset in
    if input.app == app_radarr
    then some (record { radarr = some (expand_radarr_naming preset); sonarr = none; lidarr = none })
    else if input.app == app_sonarr
    then some (record { radarr = none; sonarr = some (expand_sonarr_naming preset); lidarr = none })
    else if input.app == app_lidarr
    then some (record { radarr = none; sonarr = none; lidarr = some (expand_lidarr_naming preset) })
    else none

-- Radarr, Sonarr or Lidarr, which have custom formats and delay profiles.
abbrev pub has_formats : CompileInput → Bool
has_formats input = input.app == app_radarr || input.app == app_sonarr || input.app == app_lidarr

-- Step 12: the scores of the input's formats take the place of those of the quality profile.
abbrev pub score_video : Dict String ℤ → Option VideoQualityIr → Option VideoQualityIr
score_video scores none = none
score_video scores (some q) = some (record q { format_scores = scores })

abbrev pub score_audio : Dict String ℤ → Option AudioQualityIr → Option AudioQualityIr
score_audio scores none = none
score_audio scores (some q) = some (record q { format_scores = scores })

unfoldable pub score_quality : Dict String ℤ → Option QualityIr → Option QualityIr
score_quality scores none = none
score_quality scores (some q) =
    some (record q { video = score_video scores q.video; audio = score_audio scores q.audio })

unfoldable pub compile_scored : CompileInput → Option QualityIr
unfolding compile_quality score_quality compile_format_scores
compile_scored input =
    if has_formats input && not (is_nil input.custom_formats)
    then score_quality (compile_format_scores input.custom_formats input.config_name)
        (compile_quality input)
    else compile_quality input

-- What the hash of an input is made of.
pub record Hashable : Type 0 where
  pub app : String
  pub config_name : String
  pub quality_preset : String
  pub quality_overrides : Option QualityOverrides
  pub naming_preset : String
  pub download_clients : List DownloadClientInput
  pub remote_path_mappings : List RemotePathMappingInput
  pub indexers : Option IndexersInput
  pub root_folders : List String
  pub notifications : List NotificationInput
  pub custom_formats : List CustomFormatInput
  pub delay_profiles : List DelayProfileInput

abbrev pub hashable : CompileInput → Hashable
hashable input = record {
  app = input.app;
  config_name = input.config_name;
  quality_preset = input.quality_preset;
  quality_overrides = input.quality_overrides;
  naming_preset = input.naming_preset;
  download_clients = input.download_clients;
  remote_path_mappings = input.remote_path_mappings;
  indexers = input.indexers;
  root_folders = input.root_folders;
  notifications = input.notifications;
  custom_formats = input.custom_formats;
  delay_profiles = input.delay_profiles;
}

-- Steps 1 to 13, with the parts of the representation that the others do not set left at zero.
unfoldable pub compile_parts : ℕ → CompileInput → Ir
unfolding compile_scored compile_metadata_profiles compile_naming compile_download_clients
    compile_remote_path_mappings compile_indexers compile_import_lists_to_ir
    compile_media_management_to_ir compile_authentication_to_ir compile_notifications_to_ir
    compile_custom_formats_to_ir compile_delay_profiles_to_ir
compile_parts now input = record {
  version = ir_version;
  generated_at = now;
  source_hash = "";
  app = input.app;
  connection =
      some (record { url = input.url; api_key = input.api_key; insecure_skip_verify = Bool.false });
  quality = compile_scored input;
  download_clients = compile_download_clients input.download_clients input.config_name;
  remote_path_mappings = compile_remote_path_mappings input.remote_path_mappings;
  indexers = compile_indexers input.indexers input.config_name;
  naming = compile_naming input;
  root_folders =
      map (λ (path : String). record { path = path; name = ""; default_monitor = "" })
        input.root_folders;
  import_lists = compile_import_lists_to_ir input.import_lists;
  notifications = compile_notifications_to_ir input.notifications input.config_name;
  custom_formats =
      if has_formats input
      then compile_custom_formats_to_ir input.custom_formats input.config_name
      else [];
  delay_profiles =
      if has_formats input then compile_delay_profiles_to_ir input.delay_profiles else [];
  release_profiles = [];
  metadata_profiles = compile_metadata_profiles input;
  media_management = compile_media_management_to_ir input.media_management;
  authentication = compile_authentication_to_ir input.authentication;
  prowlarr = none;
  unrealized = [];
}

-- Step 14.
unfoldable pub prune_with : Option Capabilities → Ir → Ir
unfolding prune_unsupported
prune_with none ir = ir
prune_with (some caps) ir =
    let (pruned, unrealized) = prune_unsupported ir caps in
    record pruned { unrealized = unrealized }

module _ (digest : Hashable → String) (now : ℕ) where
  -- Step 15, and the whole.
  unfoldable pub compile : CompileInput → Ir
  unfolding compile_parts prune_with
  compile input = record (prune_with input.capabilities (compile_parts now input)) {
    source_hash = digest (hashable input);
  }
