-- ===== src/Ir/Settings.antt =====
-- internal/ir/v1: naming, media management, authentication, notifications.
use nebularr_operator.Common.{String, Bool, ℤ, Option, List}
use nebularr_operator.Common.Dict.{Dict}
use nebularr_operator.Ir.Values.{Any}

pub record RadarrNamingIr : Type 0 where
  pub rename_movies : Bool
  pub replace_illegal_characters : Bool
  pub colon_replacement_format : ℤ
  pub standard_movie_format : String
  pub movie_folder_format : String

pub record SonarrNamingIr : Type 0 where
  pub rename_episodes : Bool
  pub replace_illegal_characters : Bool
  pub colon_replacement_format : ℤ
  pub standard_episode_format : String
  pub daily_episode_format : String
  pub anime_episode_format : String
  pub series_folder_format : String
  pub season_folder_format : String
  pub specials_folder_format : String
  pub multi_episode_style : ℤ

pub record LidarrNamingIr : Type 0 where
  pub rename_tracks : Bool
  pub replace_illegal_characters : Bool
  pub colon_replacement_format : ℤ
  pub standard_track_format : String
  pub multi_disc_track_format : String
  pub artist_folder_format : String
  pub album_folder_format : String

pub record NamingIr : Type 0 where
  pub radarr : Option RadarrNamingIr
  pub sonarr : Option SonarrNamingIr
  pub lidarr : Option LidarrNamingIr

pub record MediaManagementIr : Type 0 where
  pub recycle_bin : String
  pub recycle_bin_cleanup_days : ℤ
  pub set_permissions : Bool
  pub chmod_folder : String
  pub chown_group : String
  pub delete_empty_folders : Bool
  pub create_empty_folders : Bool
  pub use_hardlinks : Bool
  pub watch_library_for_changes : Option Bool
  pub allow_fingerprinting : String

pub record AuthenticationIr : Type 0 where
  pub method : String
  pub username : String
  pub password : String
  pub authentication_required : String

pub record NotificationIr : Type 0 where
  pub id : ℤ
  pub name : String
  pub implementation : String
  pub config_contract : String
  pub enabled : Bool
  pub on_grab : Bool
  pub on_download : Bool
  pub on_upgrade : Bool
  pub on_rename : Bool
  pub on_health_issue : Bool
  pub on_health_restored : Bool
  pub on_application_update : Bool
  pub on_manual_interaction_required : Bool
  pub include_health_warnings : Bool
  pub on_movie_added : Bool
  pub on_movie_delete : Bool
  pub on_movie_file_delete : Bool
  pub on_movie_file_delete_for_upgrade : Bool
  pub on_series_add : Bool
  pub on_series_delete : Bool
  pub on_episode_file_delete : Bool
  pub on_episode_file_delete_for_upgrade : Bool
  pub on_release_import : Bool
  pub on_artist_add : Bool
  pub on_artist_delete : Bool
  pub on_album_delete : Bool
  pub on_track_retag : Bool
  pub on_download_failure : Bool
  pub on_import_failure : Bool
  pub fields : Dict String Any
  pub tags : List ℤ

pub record HealthIssue : Type 0 where
  pub source : String
  pub type : String
  pub message : String
  pub wiki_url : String

pub record HealthStatus : Type 0 where
  pub healthy : Bool
  pub issues : List HealthIssue
