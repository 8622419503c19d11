-- ===== src/Ir/Resources.antt =====
-- internal/ir/v1: connections, download clients, indexers, folders, lists and profiles.
use nebularr_operator.Common.{String, Bool, ℤ, Option, List}
use nebularr_operator.Common.Dict.{Dict}
use nebularr_operator.Ir.Values.{Float64}

pub record ConnectionIr : Type 0 where
  pub url : String
  pub api_key : String
  pub insecure_skip_verify : Bool

pub record DownloadClientIr : Type 0 where
  pub id : ℤ
  pub name : String
  pub protocol : String
  pub implementation : String
  pub enable : Bool
  pub priority : ℤ
  pub remove_completed_downloads : Bool
  pub remove_failed_downloads : Bool
  pub host : String
  pub port : ℤ
  pub use_tls : Bool
  pub username : String
  pub password : String
  pub category : String
  pub directory : String

pub record ProwlarrRefIr : Type 0 where
  pub config_name : String
  pub auto_register : Bool
  pub include : List String
  pub exclude : List String

pub record IndexerIr : Type 0 where
  pub id : ℤ
  pub name : String
  pub protocol : String
  pub implementation : String
  pub enable : Bool
  pub priority : ℤ
  pub url : String
  pub api_key : String
  pub categories : List ℤ
  pub minimum_seeders : ℤ
  pub seed_ratio : Float64
  pub seed_time_minutes : ℤ
  pub enable_rss : Bool
  pub enable_automatic_search : Bool
  pub enable_interactive_search : Bool

pub record IndexersIr : Type 0 where
  pub prowlarr_ref : Option ProwlarrRefIr
  pub direct : List IndexerIr

pub record RootFolderIr : Type 0 where
  pub path : String
  pub name : String
  pub default_monitor : String

pub record ImportListIr : Type 0 where
  pub name : String
  pub type : String
  pub enabled : Bool
  pub enable_auto : Bool
  pub search_on_add : Bool
  pub quality_profile_id : ℤ
  pub quality_profile_name : String
  pub root_folder_path : String
  pub monitor : String
  pub minimum_availability : String
  pub series_type : String
  pub season_folder : Bool
  pub should_monitor : String
  pub settings : Dict String String

pub record DelayProfileIr : Type 0 where
  pub id : ℤ
  pub name : String
  pub order : ℤ
  pub preferred_protocol : String
  pub usenet_delay : ℤ
  pub torrent_delay : ℤ
  pub enable_usenet : Bool
  pub enable_torrent : Bool
  pub bypass_if_highest_quality : Bool
  pub bypass_if_above_custom_format_score : Bool
  pub minimum_custom_format_score : ℤ
  pub tags : List ℤ
  pub tag_names : List String

pub record RemotePathMappingIr : Type 0 where
  pub id : ℤ
  pub host : String
  pub remote_path : String
  pub local_path : String
