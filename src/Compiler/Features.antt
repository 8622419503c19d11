-- ===== src/Compiler/Features.antt =====
-- internal/compiler/features.go. The source returns nil for an empty slice, which is [] here.
use nebularr_operator.Common.{
  ℕ, suc, String, ◌<>◌, true, ◌==◌, string_eq, int_eq, if◌then◌else◌, ℤ, pos, Option, none, some,
  List, [], ◌∷◌, map,
}
use nebularr_operator.Common.Dict.{Dict, insert}
use nebularr_operator.Ir.{
  ImportListIr, MediaManagementIr, AuthenticationIr, NotificationIr, CustomFormatIr, FormatSpecIr,
  DelayProfileIr,
}
use nebularr_operator.Compiler.Types.{
  ImportListInput, MediaManagementInput, AuthenticationInput, NotificationInput, CustomFormatInput,
  CustomFormatSpecInput, DelayProfileInput,
}
use nebularr_operator.Compiler.Resources.{owned_name}

abbrev pub compile_import_list : ImportListInput → ImportListIr
compile_import_list list = record {
  name = list.name;
  type = list.type;
  enabled = list.enabled;
  enable_auto = list.enable_auto;
  search_on_add = list.search_on_add;
  quality_profile_id = pos 0;
  quality_profile_name = list.quality_profile_name;
  root_folder_path = list.root_folder_path;
  monitor = list.monitor;
  minimum_availability = list.minimum_availability;
  series_type = list.series_type;
  season_folder = list.season_folder;
  should_monitor = list.should_monitor;
  settings = list.settings;
}

unfoldable pub compile_import_lists_to_ir : List ImportListInput → List ImportListIr
compile_import_lists_to_ir lists = map compile_import_list lists

unfoldable pub compile_media_management_to_ir :
    Option MediaManagementInput → Option MediaManagementIr
compile_media_management_to_ir none = none
compile_media_management_to_ir (some input) = some (record {
  recycle_bin = input.recycle_bin;
  recycle_bin_cleanup_days = input.recycle_bin_cleanup_days;
  set_permissions = input.set_permissions;
  chmod_folder = input.chmod_folder;
  chown_group = input.chown_group;
  delete_empty_folders = input.delete_empty_folders;
  create_empty_folders = input.create_empty_folders;
  use_hardlinks = input.use_hardlinks;
  watch_library_for_changes = input.watch_library_for_changes;
  allow_fingerprinting = input.allow_fingerprinting;
})

unfoldable pub compile_authentication_to_ir : Option AuthenticationInput → Option AuthenticationIr
compile_authentication_to_ir none = none
compile_authentication_to_ir (some input) = some (record {
  method = input.method;
  username = input.username;
  password = input.password;
  authentication_required = input.authentication_required;
})

abbrev pub compile_notification : String → NotificationInput → NotificationIr
compile_notification config_name n = record {
  id = pos 0;
  name = owned_name config_name n.name;
  implementation = n.implementation;
  config_contract = n.implementation <> "Settings";
  enabled = true;
  on_grab = n.on_grab;
  on_download = n.on_download;
  on_upgrade = n.on_upgrade;
  on_rename = n.on_rename;
  on_health_issue = n.on_health_issue;
  on_health_restored = n.on_health_restored;
  on_application_update = n.on_application_update;
  on_manual_interaction_required = n.on_manual_interaction_required;
  include_health_warnings = n.include_health_warnings;
  on_movie_added = n.on_movie_added;
  on_movie_delete = n.on_movie_delete;
  on_movie_file_delete = n.on_movie_file_delete;
  on_movie_file_delete_for_upgrade = n.on_movie_file_delete_for_upgrade;
  on_series_add = n.on_series_add;
  on_series_delete = n.on_series_delete;
  on_episode_file_delete = n.on_episode_file_delete;
  on_episode_file_delete_for_upgrade = n.on_episode_file_delete_for_upgrade;
  on_release_import = n.on_release_import;
  on_artist_add = n.on_artist_add;
  on_artist_delete = n.on_artist_delete;
  on_album_delete = n.on_album_delete;
  on_track_retag = n.on_track_retag;
  on_download_failure = n.on_download_failure;
  on_import_failure = n.on_import_failure;
  fields = n.fields;
  tags = [];
}

unfoldable pub compile_notifications_to_ir : List NotificationInput → String → List NotificationIr
compile_notifications_to_ir notifications config_name =
    map (compile_notification config_name) notifications

abbrev pub compile_format_spec : CustomFormatSpecInput → FormatSpecIr
compile_format_spec spec = record {
  type = spec.type;
  name = spec.name;
  negate = spec.negate;
  required = spec.required;
  value = spec.value;
}

abbrev pub compile_custom_format : String → CustomFormatInput → CustomFormatIr
compile_custom_format config_name cf = record {
  id = pos 0;
  name = owned_name config_name cf.name;
  include_when_renaming = cf.include_when_renaming;
  specifications = map compile_format_spec cf.specifications;
}

unfoldable pub compile_custom_formats_to_ir : List CustomFormatInput → String → List CustomFormatIr
compile_custom_formats_to_ir formats config_name = map (compile_custom_format config_name) formats

-- The loop over the formats: those with a score that is not zero are entered under their full names.
unfoldable pub add_scores : String → List CustomFormatInput → Dict String ℤ → Dict String ℤ
add_scores config_name [] scores = scores
add_scores config_name (cf ∷ formats) scores =
    add_scores config_name formats (
      if cf.score == pos 0 then scores else insert (owned_name config_name cf.name) cf.score scores)

unfoldable pub compile_format_scores : List CustomFormatInput → String → Dict String ℤ
unfolding add_scores
compile_format_scores formats config_name = add_scores config_name formats []

abbrev pub compile_delay_profile : ℕ → DelayProfileInput → DelayProfileIr
compile_delay_profile i p = record {
  id = pos 0;
  name = p.name;
  order = if p.order == pos 0 then pos (suc i) else p.order;
  preferred_protocol = if p.preferred_protocol == "" then "usenet" else p.preferred_protocol;
  usenet_delay = p.usenet_delay;
  torrent_delay = p.torrent_delay;
  enable_usenet = p.enable_usenet;
  enable_torrent = p.enable_torrent;
  bypass_if_highest_quality = p.bypass_if_highest_quality;
  bypass_if_above_custom_format_score = p.bypass_if_above_custom_format_score;
  minimum_custom_format_score = p.minimum_custom_format_score;
  tags = [];
  tag_names = p.tags;
}

-- The loop over the profiles, from the index `i` on.
unfoldable pub compile_delay_profiles_from : ℕ → List DelayProfileInput → List DelayProfileIr
compile_delay_profiles_from i [] = []
compile_delay_profiles_from i (p ∷ profiles) =
    compile_delay_profile i p ∷ compile_delay_profiles_from (suc i) profiles

unfoldable pub compile_delay_profiles_to_ir : List DelayProfileInput → List DelayProfileIr
unfolding compile_delay_profiles_from
compile_delay_profiles_to_ir profiles = compile_delay_profiles_from 0 profiles
