-- ===== src/Compiler/Convert/Settings.antt =====
-- internal/compiler/radarr.go: import lists, notifications and their settings, media management, authentication,
-- custom formats and delay profiles. Each loop over a map takes the order in which Go visits it.
use nebularr_operator.Common.{
  ℕ, ◌+◌, String, ◌<>◌, true, false, string_eq, pos, Option, none, some, List, [], ◌∷◌, map,
}
use nebularr_operator.Common.Text.{strip_prefix}
use nebularr_operator.Common.Dict.{Dict, insert}
use nebularr_operator.Common.Range.{RangeOrder}
use nebularr_operator.Ir.{Any}
use nebularr_operator.Api.{SecretKeySelector, ImportListSpec, AuthenticationSpec}
use nebularr_operator.Api.Specs.{
  MediaManagementSpec, CustomFormatSpec, CustomFormatSpecificationSpec, DelayProfileSpec,
  NotificationSpec,
}
use nebularr_operator.Compiler.Types.{
  ImportListInput, MediaManagementInput, AuthenticationInput, NotificationInput, CustomFormatInput,
  CustomFormatSpecInput, DelayProfileInput,
}
use nebularr_operator.Compiler.Convert.{ptr_or_default, default_string, resolve_key_ref}

-- The loop that copies the settings into a map. `wrap` is how a setting becomes a value of that map.
unfoldable pub copy_settings {ℓ} :
    {V : Type ℓ} → (String → V) → Dict String String → Dict String V → Dict String V
copy_settings wrap [] settings = settings
copy_settings wrap ((key, value) ∷ entries) settings =
    copy_settings wrap entries (insert key (wrap value) settings)

-- The loop over the resolved secrets, which takes those of one secret.
unfoldable pub add_secret_settings {ℓ} :
    {V : Type ℓ} → (String → V) → String → Dict String String → Dict String V → Dict String V
unfolding strip_prefix
add_secret_settings wrap prefix [] settings = settings
add_secret_settings wrap prefix ((key, value) ∷ entries) settings =
    add_secret_settings wrap prefix entries (elim (strip_prefix prefix key) [
      | some setting_key ↦ insert setting_key (wrap value) settings
      | none ↦ settings
    ])

module _ (order : RangeOrder (String × String)) where
  unfoldable pub settings_of {ℓ} :
      {V : Type ℓ}
      → (String → V)
      → Dict String String
      → Option SecretKeySelector
      → Dict String String
      → Dict String V
  unfolding copy_settings add_secret_settings
  settings_of wrap settings none secrets = copy_settings wrap (order.visit settings) []
  settings_of wrap settings (some ref) secrets =
      add_secret_settings wrap (ref.name <> "/") (order.visit secrets)
        (copy_settings wrap (order.visit settings) [])

  unfoldable pub convert_import_list : Dict String String → ImportListSpec → ImportListInput
  unfolding settings_of
  convert_import_list secrets list = record {
    name = list.name;
    type = list.type;
    enabled = ptr_or_default list.enabled true;
    enable_auto = ptr_or_default list.enable_auto true;
    search_on_add = ptr_or_default list.search_on_add true;
    quality_profile_name = list.quality_profile;
    root_folder_path = list.root_folder;
    monitor = default_string list.monitor "movieOnly";
    minimum_availability = default_string list.minimum_availability "announced";
    series_type = default_string list.series_type "standard";
    season_folder = ptr_or_default list.season_folder true;
    should_monitor = default_string list.should_monitor "all";
    settings = settings_of (λ (s : String). s) list.settings list.settings_secret_ref secrets;
  }

  unfoldable pub convert_import_lists :
      List ImportListSpec → Dict String String → List ImportListInput
  unfolding convert_import_list
  convert_import_lists lists secrets = map (convert_import_list secrets) lists

  unfoldable pub convert_notification : Dict String String → NotificationSpec → NotificationInput
  unfolding settings_of
  convert_notification secrets n = record {
    name = n.name;
    implementation = n.type;
    on_grab = ptr_or_default n.on_grab false;
    on_download = ptr_or_default n.on_download false;
    on_upgrade = ptr_or_default n.on_upgrade false;
    on_rename = ptr_or_default n.on_rename false;
    on_health_issue = ptr_or_default n.on_health_issue false;
    on_health_restored = ptr_or_default n.on_health_restored false;
    on_application_update = ptr_or_default n.on_application_update false;
    on_manual_interaction_required = ptr_or_default n.on_manual_interaction_required false;
    include_health_warnings = ptr_or_default n.include_health_warnings false;
    on_movie_added = ptr_or_default n.on_movie_added false;
    on_movie_delete = ptr_or_default n.on_movie_delete false;
    on_movie_file_delete = ptr_or_default n.on_movie_file_delete false;
    on_movie_file_delete_for_upgrade = ptr_or_default n.on_movie_file_delete_for_upgrade false;
    on_series_add = ptr_or_default n.on_series_add false;
    on_series_delete = ptr_or_default n.on_series_delete false;
    on_episode_file_delete = ptr_or_default n.on_episode_file_delete false;
    on_episode_file_delete_for_upgrade = ptr_or_default n.on_episode_file_delete_for_upgrade false;
    on_release_import = ptr_or_default n.on_release_import false;
    on_artist_add = ptr_or_default n.on_artist_add false;
    on_artist_delete = ptr_or_default n.on_artist_delete false;
    on_album_delete = ptr_or_default n.on_album_delete false;
    on_track_retag = ptr_or_default n.on_track_retag false;
    on_download_failure = ptr_or_default n.on_download_failure false;
    on_import_failure = ptr_or_default n.on_import_failure false;
    fields = settings_of Any.text n.settings n.settings_secret_ref secrets;
    tags = n.tags;
  }

  unfoldable pub convert_notifications :
      List NotificationSpec → Dict String String → List NotificationInput
  unfolding convert_notification
  convert_notifications notifications secrets = map (convert_notification secrets) notifications

unfoldable pub convert_media_management : Option MediaManagementSpec → Option MediaManagementInput
convert_media_management none = none
convert_media_management (some spec) = some (record {
  recycle_bin = spec.recycle_bin;
  recycle_bin_cleanup_days = ptr_or_default spec.recycle_bin_cleanup_days (pos 7);
  set_permissions = ptr_or_default spec.set_permissions false;
  chmod_folder = default_string spec.chmod_folder "755";
  chown_group = spec.chown_group;
  delete_empty_folders = ptr_or_default spec.delete_empty_folders false;
  create_empty_folders = ptr_or_default spec.create_empty_folders false;
  use_hardlinks = ptr_or_default spec.use_hardlinks true;
  watch_library_for_changes = spec.watch_library_for_changes;
  allow_fingerprinting = spec.allow_fingerprinting;
})

unfoldable pub convert_authentication :
    Option AuthenticationSpec → Dict String String → Option AuthenticationInput
unfolding resolve_key_ref
convert_authentication none secrets = none
convert_authentication (some spec) secrets = some (record {
  method = default_string spec.method "none";
  username = spec.username;
  password = resolve_key_ref "password" spec.password_secret_ref secrets;
  authentication_required = default_string spec.authentication_required "enabled";
})

abbrev pub convert_specification : CustomFormatSpecificationSpec → CustomFormatSpecInput
convert_specification spec = record {
  name = spec.name;
  type = spec.type;
  negate = ptr_or_default spec.negate false;
  required = ptr_or_default spec.required false;
  value = spec.value;
}

abbrev pub convert_custom_format : CustomFormatSpec → CustomFormatInput
convert_custom_format cf = record {
  name = cf.name;
  include_when_renaming = ptr_or_default cf.include_when_renaming false;
  score = cf.score;
  specifications = map convert_specification cf.specifications;
}

unfoldable pub convert_custom_formats : List CustomFormatSpec → List CustomFormatInput
convert_custom_formats = map convert_custom_format

-- The order of a profile is that of its position `i`, from 1, unless it has one.
abbrev pub convert_delay_profile : ℕ → DelayProfileSpec → DelayProfileInput
convert_delay_profile i p = record {
  name = p.name;
  preferred_protocol = p.preferred_protocol;
  usenet_delay = p.usenet_delay;
  torrent_delay = p.torrent_delay;
  enable_usenet = ptr_or_default p.enable_usenet true;
  enable_torrent = ptr_or_default p.enable_torrent true;
  bypass_if_highest_quality = ptr_or_default p.bypass_if_highest_quality false;
  bypass_if_above_custom_format_score = ptr_or_default p.bypass_if_above_custom_format_score false;
  minimum_custom_format_score = p.minimum_custom_format_score;
  tags = p.tags;
  order = ptr_or_default p.order (pos (i + 1));
}

unfoldable pub convert_delay_profiles_from : ℕ → List DelayProfileSpec → List DelayProfileInput
convert_delay_profiles_from i [] = []
convert_delay_profiles_from i (p ∷ profiles) =
    convert_delay_profile i p ∷ convert_delay_profiles_from (i + 1) profiles

unfoldable pub convert_delay_profiles : List DelayProfileSpec → List DelayProfileInput
unfolding convert_delay_profiles_from
convert_delay_profiles = convert_delay_profiles_from 0
