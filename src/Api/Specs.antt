-- ===== src/Api/Specs.antt =====
-- api/v1alpha1/common_types.go: the specifications that only the compiler reads.
use nebularr_operator.Common.{String, Bool, ℤ, Option, List}
use nebularr_operator.Common.Dict.{Dict}
use nebularr_operator.Api.{SecretKeySelector}

pub record LocalObjectReference : Type 0 where
  pub name : String

pub record VideoQualityTier : Type 0 where
  pub resolution : String
  pub sources : List String

pub record VideoQualitySpec : Type 0 where
  pub preset : String
  pub template_ref : Option LocalObjectReference
  pub exclude : List String
  pub prefer_additional : List String
  pub reject_additional : List String
  pub tiers : List VideoQualityTier
  pub upgrade_until : Option VideoQualityTier
  pub preferred_formats : List String
  pub rejected_formats : List String

pub record AudioQualitySpec : Type 0 where
  pub preset : String
  pub template_ref : Option LocalObjectReference
  pub exclude : List String
  pub prefer_additional : List String
  pub tiers : List String
  pub upgrade_until : String
  pub preferred_formats : List String

pub record RemotePathMappingSpec : Type 0 where
  pub host : String
  pub remote_path : String
  pub local_path : String

pub record NamingSpec : Type 0 where
  pub preset : String
  pub rename_media : Option Bool
  pub standard_format : String
  pub folder_format : String

pub record MediaManagementSpec : Type 0 where
  pub recycle_bin : String
  pub recycle_bin_cleanup_days : Option ℤ
  pub set_permissions : Option Bool
  pub chmod_folder : String
  pub chown_group : String
  pub delete_empty_folders : Option Bool
  pub create_empty_folders : Option Bool
  pub use_hardlinks : Option Bool
  pub watch_library_for_changes : Option Bool
  pub allow_fingerprinting : String

pub record CustomFormatSpecificationSpec : Type 0 where
  pub name : String
  pub type : String
  pub negate : Option Bool
  pub required : Option Bool
  pub value : String

pub record CustomFormatSpec : Type 0 where
  pub name : String
  pub include_when_renaming : Option Bool
  pub score : ℤ
  pub specifications : List CustomFormatSpecificationSpec

pub record DelayProfileSpec : Type 0 where
  pub name : String
  pub preferred_protocol : String
  pub usenet_delay : ℤ
  pub torrent_delay : ℤ
  pub enable_usenet : Option Bool
  pub enable_torrent : Option Bool
  pub bypass_if_highest_quality : Option Bool
  pub bypass_if_above_custom_format_score : Option Bool
  pub minimum_custom_format_score : ℤ
  pub tags : List String
  pub order : Option ℤ

pub record NotificationSpec : Type 0 where
  pub name : String
  pub type : String
  pub enabled : Option Bool
  pub on_grab : Option Bool
  pub on_download : Option Bool
  pub on_upgrade : Option Bool
  pub on_rename : Option Bool
  pub on_health_issue : Option Bool
  pub on_health_restored : Option Bool
  pub on_application_update : Option Bool
  pub on_manual_interaction_required : Option Bool
  pub include_health_warnings : Option Bool
  pub on_movie_added : Option Bool
  pub on_movie_delete : Option Bool
  pub on_movie_file_delete : Option Bool
  pub on_movie_file_delete_for_upgrade : Option Bool
  pub on_series_add : Option Bool
  pub on_series_delete : Option Bool
  pub on_episode_file_delete : Option Bool
  pub on_episode_file_delete_for_upgrade : Option Bool
  pub on_release_import : Option Bool
  pub on_artist_add : Option Bool
  pub on_artist_delete : Option Bool
  pub on_album_delete : Option Bool
  pub on_track_retag : Option Bool
  pub on_download_failure : Option Bool
  pub on_import_failure : Option Bool
  pub settings : Dict String String
  pub settings_secret_ref : Option SecretKeySelector
  pub tags : List String

pub record PreferredTermSpec : Type 0 where
  pub term : String
  pub score : ℤ

pub record ReleaseProfileSpec : Type 0 where
  pub name : String
  pub enabled : Option Bool
  pub required : List String
  pub ignored : List String
  pub preferred : List PreferredTermSpec
  pub include_preferred_when_renaming : Option Bool
  pub indexer_id : ℤ
  pub tags : List String
