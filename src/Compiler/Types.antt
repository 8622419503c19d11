-- ===== src/Compiler/Types.antt =====
-- internal/compiler/types.go: what the compiler is given, and the capabilities of a service
-- (internal/adapters/adapter.go).
use nebularr_operator.Common.{ℕ, String, Bool, ℤ, Option, List}
use nebularr_operator.Common.Dict.{Dict}
use nebularr_operator.Ir.{Float64, Any}
use nebularr_operator.Presets.Override.{QualityOverrides}

pub record CustomFormatSpec : Type 0 where
  pub name : String
  pub implementation : String

pub record Capabilities : Type 0 where
  pub discovered_at : ℕ
  pub resolutions : List String
  pub sources : List String
  pub custom_format_specs : List CustomFormatSpec
  pub audio_tiers : List String
  pub download_client_types : List String
  pub indexer_types : List String

pub record DownloadClientInput : Type 0 where
  pub name : String
  pub implementation : String
  pub host : String
  pub port : ℤ
  pub use_tls : Bool
  pub username : String
  pub password : String
  pub category : String
  pub priority : ℤ
  pub remove_completed_downloads : Bool
  pub remove_failed_downloads : Bool

pub record RemotePathMappingInput : Type 0 where
  pub host : String
  pub remote_path : String
  pub local_path : String

pub record ProwlarrRefInput : Type 0 where
  pub config_name : String
  pub auto_register : Bool
  pub include : List String
  pub exclude : List String

pub record IndexerInput : Type 0 where
  pub name : String
  pub protocol : String
  pub implementation : String
  pub url : String
  pub api_key : String
  pub categories : List ℤ
  pub priority : ℤ
  pub minimum_seeders : ℤ
  pub seed_ratio : Float64
  pub seed_time_minutes : ℤ
  pub enable_rss : Bool
  pub enable_automatic_search : Bool
  pub enable_interactive_search : Bool

pub record IndexersInput : Type 0 where
  pub prowlarr_ref : Option ProwlarrRefInput
  pub direct : List IndexerInput

pub record ImportListInput : Type 0 where
  pub name : String
  pub type : String
  pub enabled : Bool
  pub enable_auto : Bool
  pub search_on_add : Bool
  pub quality_profile_name : String
  pub root_folder_path : String
  pub monitor : String
  pub minimum_availability : String
  pub series_type : String
  pub season_folder : Bool
  pub should_monitor : String
  pub settings : Dict String String

pub record MediaManagementInput : Type 0 where
  pub recycle_bin : String
  pub recycle_bin_cleanup_days : ℤ
  pub set_permissions : Bool
  pub chmod_folder : String
  pub chown_group : String
  pub delete_empty_folders : Bool
  pub create_empty_folders : Bool
  pub use_hardlinks : Bool
  pub watch_library_for_changes : Option Bool
  pub allow_fingerprinting : String

pub record AuthenticationInput : Type 0 where
  pub method : String
  pub username : String
  pub password : String
  pub authentication_required : String

pub record NotificationInput : Type 0 where
  pub name : String
  pub implementation : String
  pub on_grab : Bool
  pub on_download : Bool
  pub on_upgrade : Bool
  pub on_rename : Bool
  pub on_health_issue : Bool
  pub on_health_restored : Bool
  pub on_application_update : Bool
  pub on_manual_interaction_required : Bool
  pub include_health_warnings : Bool
  pub on_movie_added : Bool
  pub on_movie_delete : Bool
  pub on_movie_file_delete : Bool
  pub on_movie_file_delete_for_upgrade : Bool
  pub on_series_add : Bool
  pub on_series_delete : Bool
  pub on_episode_file_delete : Bool
  pub on_episode_file_delete_for_upgrade : Bool
  pub on_release_import : Bool
  pub on_artist_add : Bool
  pub on_artist_delete : Bool
  pub on_album_delete : Bool
  pub on_track_retag : Bool
  pub on_download_failure : Bool
  pub on_import_failure : Bool
  pub fields : Dict String Any
  pub tags : List String

pub record CustomFormatSpecInput : Type 0 where
  pub name : String
  pub type : String
  pub negate : Bool
  pub required : Bool
  pub value : String

pub record CustomFormatInput : Type 0 where
  pub name : String
  pub include_when_renaming : Bool
  pub score : ℤ
  pub specifications : List CustomFormatSpecInput

pub record DelayProfileInput : Type 0 where
  pub name : String
  pub preferred_protocol : String
  pub usenet_delay : ℤ
  pub torrent_delay : ℤ
  pub enable_usenet : Bool
  pub enable_torrent : Bool
  pub bypass_if_highest_quality : Bool
  pub bypass_if_above_custom_format_score : Bool
  pub minimum_custom_format_score : ℤ
  pub tags : List String
  pub order : ℤ

pub record MetadataProfileInput : Type 0 where
  pub name : String
  pub min_popularity : ℤ
  pub skip_missing_date : Bool
  pub skip_missing_isbn : Bool
  pub skip_parts_and_sets : Bool
  pub skip_series_secondary : Bool
  pub allowed_languages : List String

pub record BookQualityInput : Type 0 where
  pub profile_name : String
  pub upgrade_allowed : Bool
  pub cutoff_format : String
  pub allowed_formats : List String

pub record CompileInput : Type 0 where
  pub app : String
  pub config_name : String
  pub namespace : String
  pub url : String
  pub api_key : String
  pub quality_preset : String
  pub quality_overrides : Option QualityOverrides
  pub naming_preset : String
  pub download_clients : List DownloadClientInput
  pub remote_path_mappings : List RemotePathMappingInput
  pub indexers : Option IndexersInput
  pub root_folders : List String
  pub import_lists : List ImportListInput
  pub media_management : Option MediaManagementInput
  pub authentication : Option AuthenticationInput
  pub notifications : List NotificationInput
  pub custom_formats : List CustomFormatInput
  pub delay_profiles : List DelayProfileInput
  pub metadata_profile : Option MetadataProfileInput
  pub book_quality : Option BookQualityInput
  pub capabilities : Option Capabilities
  pub resolved_secrets : Dict String String
